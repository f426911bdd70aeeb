-- ===== src/Compile/Activation.antt =====
-- crates/perch-compile/src/activation.rs: whether a plan's programs come from the rules under review.
pub mod Provenance
use perch.Common.{
  ℕ, Str, Bool, true, false, Option, none, some, List, [], ◌∷◌, ◌==◌, list_eq, if◌then◌else◌,
  Result, ok, err,
}
use perch.Program.Rpn.{InstallParams}
use perch.Document.{Rule, PolicyDoc}
use perch.Compile.{Sdk, LoweredRule, Plan, rule_hash_onchain}

pub data ActivationError : Type 0 where
  doc_hash_mismatch : Str → ActivationError

-- `doc.rules.iter().find(|r| r.name == name)`.
unfoldable pub find_rule : List Rule → Str → Option Rule
find_rule [] name = none
find_rule (r ∷ rs) name = if list_eq r.name name then some r else find_rule rs name

module _ (sdk : Sdk) (doc : PolicyDoc) where
  unfoldable pub matches : Str → InstallParams → Bool
  matches name install = elim (find_rule doc.rules name) [
    | none ↦ false
    | some r ↦ rule_hash_onchain sdk r == install.doc_hash
  ]

  unfoldable pub verify_rules : List LoweredRule → Result ActivationError (Unit {0})
  verify_rules [] = ok tt
  verify_rules (lowered ∷ rest) = elim lowered.install [
    | none ↦ verify_rules rest
    | some install ↦
        if matches lowered.name install
        then verify_rules rest
        else err (doc_hash_mismatch lowered.name)
  ]

  unfoldable pub verify_plan_matches_doc : Plan → Result ActivationError (Unit {0})
  verify_plan_matches_doc plan = verify_rules plan.rules
