-- ===== src/ErrorFilter/Tests.antt =====
-- A failure of the database on a route of the transport of tools.
use nestjs_enterprise_starte.ErrorFilter.{Exception, Request, catch, resolve_prisma_error}
use nestjs_enterprise_starte.ErrorFilter.Hidden.{internal_failure_says_nothing, says_nothing}
use nestjs_enterprise_starte.Prelude.{[], none, ◌∷◌, List, ◌≡◌, some, String, refl}

abbrev same_path : String → String
same_path a = a

abbrev first_text : List String → String
first_text [] = ""
first_text (a ∷ _) = a

abbrev request : Request
request = record {
  original_url = some "/mcp";
  url = none;
  route_path = none;
  principal = some "ann";
  ip = none;
  request_id = some "r1";
}

abbrev connection_failed : Exception
connection_failed = Exception.prisma "P1001" "Can't reach database server at db:5432"

internal_failure_says_nothing_example :
    catch same_path first_text connection_failed request ≡ says_nothing request
unfolding catch resolve_prisma_error
internal_failure_says_nothing_example =
    internal_failure_says_nothing same_path first_text request connection_failed refl refl
