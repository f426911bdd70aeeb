-- ===== src/Account.antt =====
-- crates/perch-smart-account/src/rules.rs: the records of installed rules, and the rules that a compiled
-- document asks for. A panic ends the invocation.
pub mod Effects
pub mod Reconcile
pub mod Records
pub mod Slot
pub mod Additions
pub mod Edits
pub mod Library
pub mod Performed
pub mod InPlace
pub mod Slots
pub mod Added
pub mod Settled
mod RecordTests
pub mod Entry
pub mod Tests
mod EditTests
use perch.Common.{
  ℕ, Address, Bytes, Bytes32, Str, Val, Bool, true, false, ◌&&◌, ◌||◌, Option, none, some, List, [],
  ◌∷◌, ◌++◌, ltb, ◌==◌, if◌then◌else◌, list_eq, first,
}
use perch.Common.Int.{ℤ}
use perch.Document.Text.{codes}
use perch.Program.Rpn.{InstallParams}
use perch.Recovery.Config.{CompiledRecoveryConfig}

-- A signer of the smart account library, told apart by its number.
abbrev pub Signer : Type 0
Signer = ℕ

-- The library's `ContextRuleType`, as far as the code tells it apart.
pub data ContextRuleType : Type 0 where
  call_contract : Address → ContextRuleType
  other_context : ℕ → ContextRuleType

pub record InstalledPolicy : Type 0 where
  pub policy : Address
  pub params : Bytes32

pub record DeltaSummary : Type 0 where
  pub rules_added : ℕ
  pub rules_removed : ℕ
  pub rules_edited : ℕ
  pub signers_added : ℕ
  pub signers_removed : ℕ
  pub policies_added : ℕ
  pub policies_removed : ℕ

pub record InstalledRule : Type 0 where
  pub id : ℕ
  pub recovery : Bool
  pub name : Str
  pub context_type : ContextRuleType
  pub valid_until : Option ℕ
  pub signers : List Signer
  pub policies : List InstalledPolicy

-- The derived equalities.
abbrev pub context_eq : ContextRuleType → ContextRuleType → Bool
context_eq (call_contract a) (call_contract b) = a == b
context_eq (other_context a) (other_context b) = a == b
context_eq _ _ = false

abbrev pub bool_eq : Bool → Bool → Bool
bool_eq true b = b
bool_eq false true = false
bool_eq false false = true

abbrev pub ledger_eq : Option ℕ → Option ℕ → Bool
ledger_eq none none = true
ledger_eq (some a) (some b) = a == b
ledger_eq _ _ = false

abbrev pub policy_eq : InstalledPolicy → InstalledPolicy → Bool
policy_eq p q = p.policy == q.policy && p.params == q.params

unfoldable pub same_slot : InstalledRule → InstalledRule → Bool
same_slot r other =
    bool_eq r.recovery other.recovery
    && ((r.recovery || list_eq r.name other.name) && context_eq r.context_type other.context_type)

abbrev pub with_id : InstalledRule → ℕ → InstalledRule
with_id r id = record r { id = id }

-- The parts of `CompiledDoc` that the account reads.
pub data RuleScope : Type 0 where
  self_admin : RuleScope
  contract : Address → RuleScope

pub record CompiledCap : Type 0 where
  pub spending_limit : ℤ
  pub period_ledgers : ℕ

pub record CompiledRule : Type 0 where
  pub name : Str
  pub scope : RuleScope
  pub signers : List Signer
  pub valid_until : Option ℕ
  pub install : List InstallParams
  pub cap : List CompiledCap

pub record CompiledDoc : Type 0 where
  pub doc_hash : Bytes32
  pub canonical : Bytes
  pub rules : List CompiledRule
  pub recovery : List CompiledRecoveryConfig
  pub fingerprints : List Bytes32

-- What the account reads of the host and of its build: its address, the ledger, the policies' addresses,
-- the hash, and the conversions of parameters.
pub record Host : Type 0 where
  pub here : Address
  pub sequence : ℕ
  pub interpreter : Address
  pub spending_limit : Address
  pub sha256 : Bytes → Bytes32
  pub install_xdr : InstallParams → Bytes
  pub install_val : InstallParams → Val
  pub cap_xdr : CompiledCap → Bytes
  pub cap_val : CompiledCap → Val
  pub hash_xdr : Bytes32 → Bytes
  pub hash_val : Bytes32 → Val

module _ (e : Host) where
  unfoldable pub admin_rule : ℕ → List Signer → InstalledRule
  admin_rule id signers = record {
    id = id;
    recovery = false;
    name = codes "admin";
    context_type = call_contract e.here;
    valid_until = none;
    signers = signers;
    policies = [];
  }

  unfoldable pub expired : Option ℕ → Bool
  expired none = false
  expired (some v) = ltb v e.sequence

  abbrev pub context_of : RuleScope → ContextRuleType
  context_of self_admin = call_contract e.here
  context_of (contract addr) = call_contract addr

  abbrev pub install_policy : List InstallParams → List (InstalledPolicy × Val)
  install_policy [] = []
  install_policy (i ∷ is) =
      (record { policy = e.interpreter; params = e.sha256 (e.install_xdr i) }, e.install_val i) ∷ []

  abbrev pub cap_policy : List CompiledCap → List (InstalledPolicy × Val)
  cap_policy [] = []
  cap_policy (c ∷ cs) =
      (record { policy = e.spending_limit; params = e.sha256 (e.cap_xdr c) }, e.cap_val c) ∷ []

  abbrev pub policies_of : List (InstalledPolicy × Val) → List InstalledPolicy
  policies_of [] = []
  policies_of ((p, v) ∷ ps) = p ∷ policies_of ps

  abbrev pub params_of : List (InstalledPolicy × Val) → List Val
  params_of [] = []
  params_of ((p, v) ∷ ps) = v ∷ params_of ps

  unfoldable pub document_rule : CompiledRule → InstalledRule × List Val
  document_rule rule =
      let ps = install_policy rule.install ++ cap_policy rule.cap in
      (
        record {
          id = 0;
          recovery = false;
          name = rule.name;
          context_type = context_of rule.scope;
          valid_until = rule.valid_until;
          signers = rule.signers;
          policies = policies_of ps;
        },
        params_of ps,
      )

  unfoldable pub recovery_rule_of : CompiledRecoveryConfig → InstalledRule × List Val
  recovery_rule_of r = (
    record {
      id = 0;
      recovery = true;
      name = codes "recovery";
      context_type = call_contract e.here;
      valid_until = none;
      signers = [];
      policies =
          record { policy = r.controller; params = e.sha256 (e.hash_xdr r.config_hash) } ∷ [];
    },
    e.hash_val r.config_hash ∷ [],
  )

  -- The loop over the document's rules, which drops an expired one, and its recovery rule.
  unfoldable pub document_rules : List CompiledRule → List (InstalledRule × List Val)
  document_rules [] = []
  document_rules (rule ∷ rules) =
      let rest = document_rules rules in
      if expired ((document_rule rule).0.valid_until) then rest else document_rule rule ∷ rest

  abbrev pub recovery_rules : List CompiledRecoveryConfig → List (InstalledRule × List Val)
  recovery_rules [] = []
  recovery_rules (r ∷ rs) = recovery_rule_of r ∷ []

  -- The rules with their parameters, which the code returns as two vectors of one length.
  unfoldable pub desired : CompiledDoc → List (InstalledRule × List Val)
  desired compiled = document_rules compiled.rules ++ recovery_rules compiled.recovery
