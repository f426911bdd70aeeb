-- ===== src/Document.antt =====
-- crates/perch-ir/src/doc.rs: the policy document. A payload struct without fields is no argument.
pub mod Text
pub mod Canon
pub mod Strkey
pub mod Validate
pub mod Tests
use perch.Common.{ℕ, Str, Option, List}

pub data SignerMethod : Type 0 where
  -- The verifier and the key in hex.
  external : Str → Str → SignerMethod
  delegated : Str → SignerMethod

pub record SignerDecl : Type 0 where
  pub id : Str
  pub method : SignerMethod

pub record ContractScope : Type 0 where
  pub address : Str

pub data Scope : Type 0 where
  contract : ContractScope → Scope
  self_admin : Scope

pub record AllPrincipals : Type 0 where
  pub signers : List Str

pub record ThresholdPrincipals : Type 0 where
  pub signers : List Str
  pub m : ℕ

pub record SelfAuthenticatingPrincipals : Type 0 where
  pub policy : Str
  pub install_param_hex : Str
  pub ack : Str

pub data Principals : Type 0 where
  all : AllPrincipals → Principals
  threshold : ThresholdPrincipals → Principals
  self_authenticating : SelfAuthenticatingPrincipals → Principals

pub record AddressEqPred : Type 0 where
  pub address : Str

pub record StringInPred : Type 0 where
  pub values : List Str

pub record StringPrefixPred : Type 0 where
  pub prefix : Str

pub record U32EqPred : Type 0 where
  pub value : ℕ

pub data ArgPred : Type 0 where
  is_self : ArgPred
  address_eq : AddressEqPred → ArgPred
  string_in : StringInPred → ArgPred
  string_prefix : StringPrefixPred → ArgPred
  u32_eq : U32EqPred → ArgPred

pub record ArgConstraint : Type 0 where
  pub index : ℕ
  pub pred : ArgPred

pub record CapConstraint : Type 0 where
  pub token : Option Str
  pub limit : Str
  pub period_ledgers : ℕ

pub record Rule : Type 0 where
  pub name : Str
  pub scope : Scope
  pub principals : Principals
  pub functions : Option (List Str)
  pub args : Option (List ArgConstraint)
  pub not_after_ledger : Option ℕ
  pub cap : Option CapConstraint

pub data RecoveryProfile : Type 0 where
  loss protected : RecoveryProfile

pub record GuardianSet : Type 0 where
  pub guardians : List Str
  pub quorum : ℕ

pub record ZkFactor : Type 0 where
  pub adapter : Str
  pub circuit_id : Str
  pub pool : Str
  pub enrollment_id : Str
  pub commitment : Str

pub data RecoveryMode : Type 0 where
  guardian_only : GuardianSet → RecoveryMode
  zk_only : ZkFactor → RecoveryMode
  combined : GuardianSet → ZkFactor → RecoveryMode

pub record BaselineCommitment : Type 0 where
  pub doc_hash : Str

pub record RecoveryConfig : Type 0 where
  pub profile : RecoveryProfile
  pub mode : RecoveryMode
  pub controller : Str
  pub baseline : Option BaselineCommitment
  pub replaceable : List Str
  pub delay_ledgers : ℕ
  pub expiry_ledgers : ℕ
  pub max_cancels : ℕ

pub record PolicyDoc : Type 0 where
  pub version : ℕ
  pub network : Option Str
  pub signers : List SignerDecl
  pub rules : List Rule
  pub recovery : Option RecoveryConfig
