-- ===== src/ErrorFilter/Hidden.antt =====
-- What the filter keeps to itself.
use nestjs_enterprise_starte.ErrorFilter.{
  Exception, declared, http, prisma, better_auth, unknown, Request, Reaction, envelope, catch,
  resolve_prisma_error, resolve_better_auth_error,
}
use nestjs_enterprise_starte.Common.Errors.{ErrorCode}
use nestjs_enterprise_starte.Prelude.{
  string_key, inr, inl, ◌===◌, Option, arith, false, ◌≡◌, leb, ℕ, Bool-cases, true, List, none,
  Bool, String, [], refl,
}

-- thrown as an `HttpException`, whose author chose its status and message
abbrev pub is_http_exception : Exception → Bool
is_http_exception (declared e) = true
is_http_exception (http status payload message) = true
is_http_exception _ = false

-- the response that says nothing
abbrev pub says_nothing : Request → Reaction
says_nothing req = record {
  status = 500;
  headers = [];
  body = envelope ErrorCode.internal_error "An unexpected error occurred." [] req.request_id;
  event = none;
}

module _ (before_query : String → String) (join : List String → String) where
  -- an answer below 500 or the one that says nothing
  abbrev IsHidden : Request → Exception → Type 0
  IsHidden req e =
      leb 500 (catch before_query join e req).status ≡ true
      → catch before_query join e req ≡ says_nothing req

  prisma-IsHidden : (req : Request) (code message : String) → IsHidden req (prisma code message)
  unfolding catch resolve_prisma_error
  prisma-IsHidden req code message h = elim (Bool-cases (code === "P2002")) [
    | inl taken ↦ absurd (ground arith)
    | inr other ↦ elim (Bool-cases (code === "P2025")) [
      | inl missing ↦ absurd (ground arith)
      | inr unmapped ↦ rw other (rw unmapped refl)
    ]
  ]

  better_auth-IsHidden :
      (req : Request) (status : ℕ) (message : Option String)
      → IsHidden req (better_auth status message)
  unfolding catch resolve_better_auth_error
  better_auth-IsHidden req status message h = elim (Bool-cases (leb 500 status)) [
    | inl internal ↦ rw internal refl
    | inr outward ↦ absurd (ground arith)
  ]

  -- A failure of the database, of the authentication library or of anything else that was not thrown
  -- as an HTTP exception, and that is answered with a status of 500 or more, is answered the same,
  -- on whatever route: with the code INTERNAL_ERROR and a fixed message, without details, headers or
  -- an event of a limit.
  pub internal_failure_says_nothing :
      (req : Request) (e : Exception)
      → is_http_exception e ≡ false
      → leb 500 (catch before_query join e req).status ≡ true
      → catch before_query join e req ≡ says_nothing req
  unfolding catch
  internal_failure_says_nothing req (declared e) other h = absurd (ground arith)
  internal_failure_says_nothing req (http status payload message) other h = absurd (ground arith)
  internal_failure_says_nothing req (prisma code message) other h =
      prisma-IsHidden req code message h
  internal_failure_says_nothing req (better_auth status message) other h =
      better_auth-IsHidden req status message h
  internal_failure_says_nothing req (unknown text) other h = refl
