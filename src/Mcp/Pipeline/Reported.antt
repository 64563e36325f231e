-- ===== src/Mcp/Pipeline/Reported.antt =====
-- The trail of a call.
use mathlib.Core.Logic.{ite}
use nestjs_enterprise_starte.Prelude.{
  List, [], any, true, false, Bool, refl, inr, ap, arith, if◌then◌else◌, inl, Option-cases, ◌∷◌,
  ◌≡◌, String, ℕ, some, none, Option,
}
use nestjs_enterprise_starte.Common.Exec.{ok, err, Exec, Result, Result-cases}
use nestjs_enterprise_starte.Common.Errors.{ErrorCode, Thrown, api, other}
use nestjs_enterprise_starte.Credits.{spend, Wallets, Ledger, MutationResult}
use nestjs_enterprise_starte.Credits
use nestjs_enterprise_starte.Usage
use nestjs_enterprise_starte.Plans.{Period}
use nestjs_enterprise_starte.Usage.{PlanReads, UsageSubject}
use nestjs_enterprise_starte.Mcp.Throttle.{Ceilings}
use nestjs_enterprise_starte.Mcp.Pipeline.{
  Counters, Timed, outcome_of_code, outcome_of_error, code_or_internal, Tool, Run, Store, Outcome,
  Invocation, give_back, finish, stages, handle, reported, run,
}
use nestjs_enterprise_starte.Mcp.Pipeline.Stages.{stages_kept}

unfoldable pub ErrorCode-discrete : Discrete ErrorCode
ErrorCode-discrete = hlevel

-- the codes of the errors that are denials: of rights, of a plan, of a rate, of a limit, of credits
abbrev pub denials : List ErrorCode
denials =
    ErrorCode.forbidden ∷ ErrorCode.unauthorized ∷ ErrorCode.entitlement_denied
    ∷ ErrorCode.rate_limited ∷ ErrorCode.usage_limit_exceeded ∷ ErrorCode.insufficient_credits ∷ []

abbrev pub is_denial : ErrorCode → Bool
is_denial code = any (λ c. ite (ErrorCode-discrete code c) true false) denials

-- the outcome that a result is to be reported with
abbrev pub expected_outcome : {A : Type 0} → Result A → Outcome
expected_outcome (ok _) = Outcome.success
expected_outcome (err (api e)) = if is_denial e.code then Outcome.denied else Outcome.error
expected_outcome (err (other _)) = Outcome.error

-- the code that it is to be reported with
abbrev pub expected_code : {A : Type 0} → Result A → Option ErrorCode
expected_code (ok _) = none
expected_code (err (api e)) = some e.code
expected_code (err (other _)) = some ErrorCode.internal_error

outcome_of_code-is_denial :
    (c : ErrorCode) → outcome_of_code c ≡ (if is_denial c then Outcome.denied else Outcome.error)
unfolding outcome_of_code ErrorCode-discrete
outcome_of_code-is_denial c = ground arith

outcome_of_error-expected :
    (A : Type 0) (e : Thrown) → outcome_of_error e ≡ expected_outcome {A = A} (err e)
unfolding outcome_of_error
outcome_of_error-expected A (api e) = outcome_of_code-is_denial e.code
outcome_of_error-expected A (other text) = refl

code_or_internal-expected :
    (A : Type 0) (e : Thrown) → some (code_or_internal e) ≡ expected_code {A = A} (err e)
unfolding code_or_internal
code_or_internal-expected A (api e) = refl
code_or_internal-expected A (other text) = refl

module _ (T : Timed) (ceilings : Ceilings) (C : Counters) (limits : Usage.Config)
    (plans : Option PlanReads) (stamp : Period → ℕ → String) (W : Wallets) (L : Ledger)
    (config : Credits.Config) {World A : Type 0} (tool : Tool) (handler : Exec World A) where
  abbrev pub row_for :
      Run T ceilings C limits plans stamp W L config tool handler → Result A → Invocation
  row_for r a = record {
    user_id = r.principal.user_id;
    api_key_id = r.principal.api_key_id;
    tool_name = tool.name;
    outcome = expected_outcome a;
    error_code = expected_code a;
    request_id = r.request_id;
  }

  give_back_kept :
      (r : Run T ceilings C limits plans stamp W L config tool handler)
      (s : Store T ceilings C limits plans stamp W L config tool handler)
      → ((give_back T ceilings C limits plans stamp W L config tool handler r s).log ≡ s.log)
        × ((give_back T ceilings C limits plans stamp W L config tool handler r s).metrics
            ≡ s.metrics)
  unfolding give_back
  give_back_kept r s = elim (Option-cases tool.credit_feature) [
    | inl free ↦ (ground arith, ground arith)
    | inr (feature, priced) ↦ (ground arith, ground arith)
  ]

  -- Every call of a tool, whether it is refused at a stage, fails in its handler or succeeds, counts
  -- one invocation and adds one row to the log, with its caller, tool and request: as a success
  -- without a code; as denied under its code, for the six codes that deny a right, a plan, a rate, a
  -- limit or credits; or as an error, under its code for any other exception of the application, and
  -- as an internal error for what else was thrown. If the row cannot be written, the log stays as it
  -- is.
  pub call_is_reported :
      (r : Run T ceilings C limits plans stamp W L config tool handler)
      (s : Store T ceilings C limits plans stamp W L config tool handler)
      → let (a, t) = run T ceilings C limits plans stamp W L config tool handler r s in
        (t.metrics ≡ (tool.name, expected_outcome a) ∷ s.metrics)
        × (t.log ≡ (if r.weather.log_written then row_for r a ∷ s.log else s.log))
  unfolding run reported handle finish
  call_is_reported r s =
      let t = (stages T ceilings C limits plans stamp W L config tool handler r s).1 in
      let kept = stages_kept T ceilings C limits plans stamp W L config tool handler r s in
      let same_log : t.log ≡ s.log = ap (λ x. x.0) kept in
      let same_metrics : t.metrics ≡ s.metrics = ap (λ x. x.1) kept in
      elim (Result-cases (stages T ceilings C limits plans stamp W L config tool handler r s).0) [
        | inl (e, refused) ↦
            let o = outcome_of_error-expected A e in
            let c = code_or_internal-expected A e in (ground arith, ground arith)
        | inr (u, passed) ↦ elim (Result-cases (handler t.world).0) [
          | inl (e, failed) ↦
              let h : Store T ceilings C limits plans stamp W L config tool handler = record t {
                world = (handler t.world).1;
              } in
              let (l, m) = give_back_kept r h in
              let o = outcome_of_error-expected A e in
              let c = code_or_internal-expected A e in (ground arith, ground arith)
          | inr (a, went) ↦ (ground arith, ground arith)
        ]
      ]
