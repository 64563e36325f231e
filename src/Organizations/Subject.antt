-- ===== src/Organizations/Subject.antt =====
-- src/modules/organizations/billing-subject.ts: whose wallet, plan or counter a request acts on.
use nestjs_enterprise_starte.Prelude.{
  String, ◌≡◌, ◌↔◌, Bool, false, true, arith, Key, ◌===◌, string_key,
}

-- `BillingSubject`
pub data BillingSubject : Type 0 where
  user : String → BillingSubject
  organization : String → BillingSubject

abbrev pub same_subject : BillingSubject → BillingSubject → Bool
same_subject (user a) (user b) = a === b
same_subject (organization a) (organization b) = a === b
same_subject _ _ = false

pub same_subject_iff : (a b : BillingSubject) → (same_subject a b ≡ true) ↔ (a ≡ b)
same_subject_iff (user a) (user b) = ground (arith, string_key.same_iff a b)
same_subject_iff (user a) (organization b) = ground arith
same_subject_iff (organization a) (user b) = ground arith
same_subject_iff (organization a) (organization b) = ground (arith, string_key.same_iff a b)

instance abbrev pub subject_key : Key BillingSubject
subject_key = record { same = same_subject; same_iff = same_subject_iff }
