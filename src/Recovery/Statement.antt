-- ===== src/Recovery/Statement.antt =====
-- crates/perch-recovery-interface/src/statement.rs: the statement that all evidence is bound to.
pub mod Injective
use perch.Common.{
  ℕ, zero, suc, ◌+◌, ◌-◌, ◌/◌, ◌%◌, Address, Bytes, Bytes32, Bool, true, false, ◌&&◌, Option, none,
  some, List, [], ◌∷◌, ◌++◌, ltb, ◌==◌, Result, ok, err, ◌>>=◌, ◌>>◌, guard, ok_or, not,
  if◌then◌else◌,
}
use perch.Encode.{contract_id, to_be}

pub data RecoveryAction : Type 0 where
  lost_key compromise cancel reconfigure upgrade : RecoveryAction

-- `action as u32`.
abbrev pub action_code : RecoveryAction → ℕ
action_code lost_key = 1
action_code compromise = 2
action_code cancel = 3
action_code reconfigure = 4
action_code upgrade = 5

pub data StatementError : Type 0 where
  account_not_contract controller_not_contract unsupported_address : StatementError
  replacements_not_canonical empty_replacements evidence_expired : StatementError
  evidence_window_too_long : StatementError

pub record ConfigBinding : Type 0 where
  pub epoch : ℕ
  pub config_hash : Bytes32

pub record StatementTiming : Type 0 where
  pub delay_ledgers : ℕ
  pub expiry_ledgers : ℕ
  pub valid_until_ledger : ℕ

pub record AttemptSubject : Type 0 where
  pub attempt_id : ℕ
  pub source_doc_hash : Bytes32
  pub target_doc_hash : Bytes32
  pub replacements_hash : Bytes32

pub record CancelSubject : Type 0 where
  pub attempt_id : ℕ
  pub attempt_statement : Bytes32

pub data ConfigChange : Type 0 where
  remove : ConfigChange
  set_to : Bytes32 → ConfigChange

pub record UpgradeSubject : Type 0 where
  pub request_id : ℕ
  pub wasm_hash : Bytes32

pub data StatementSubject : Type 0 where
  lost_key_of compromise_of : AttemptSubject → StatementSubject
  cancel_of : CancelSubject → StatementSubject
  reconfigure_to : ConfigChange → StatementSubject
  upgrade_to : UpgradeSubject → StatementSubject

pub record RecoveryStatement : Type 0 where
  pub network_id : Bytes32
  pub account : Address
  pub controller : Address
  pub config : ConfigBinding
  pub timing : StatementTiming
  pub subject : StatementSubject

-- `RecoveryStatement::action`, by the subject.
abbrev pub action : StatementSubject → RecoveryAction
action (lost_key_of s) = lost_key
action (compromise_of s) = compromise
action (cancel_of s) = cancel
action (reconfigure_to c) = reconfigure
action (upgrade_to s) = upgrade

-- `STATEMENT_DOMAIN`, "perch/recovery/statement".
abbrev pub statement_domain : Bytes
statement_domain =
    112 ∷ 101 ∷ 114 ∷ 99 ∷ 104 ∷ 47 ∷ 114 ∷ 101 ∷ 99 ∷ 111 ∷ 118 ∷ 101 ∷ 114 ∷ 121 ∷ 47 ∷ 115 ∷ 116
    ∷ 97 ∷ 116 ∷ 101 ∷ 109 ∷ 101 ∷ 110 ∷ 116 ∷ []

abbrev pub statement_version : ℕ
statement_version = 2

-- The subject's layout.
unfoldable pub encode_subject : StatementSubject → Bytes
encode_subject (lost_key_of s) =
    to_be 8 s.attempt_id
    ++ (to_be 32 s.source_doc_hash ++ (to_be 32 s.target_doc_hash ++ to_be 32 s.replacements_hash))
encode_subject (compromise_of s) =
    to_be 8 s.attempt_id
    ++ (to_be 32 s.source_doc_hash ++ (to_be 32 s.target_doc_hash ++ to_be 32 s.replacements_hash))
encode_subject (cancel_of s) = to_be 8 s.attempt_id ++ to_be 32 s.attempt_statement
encode_subject (reconfigure_to remove) = 0 ∷ to_be 32 0
encode_subject (reconfigure_to (set_to h)) = 1 ∷ to_be 32 h
encode_subject (upgrade_to s) = to_be 8 s.request_id ++ to_be 32 s.wasm_hash

-- The bytes behind the domain tag, with the two contract ids.
unfoldable pub encode_body : Bytes32 → Bytes32 → RecoveryStatement → Bytes
encode_body account controller s =
    statement_version
    ∷ action_code (action s.subject)
    ∷ (to_be 32 s.network_id
        ++ (to_be 32 account
            ++ (to_be 32 controller
                ++ (to_be 8 s.config.epoch
                    ++ (to_be 32 s.config.config_hash
                        ++ (to_be 4 s.timing.delay_ledgers
                            ++ (to_be 4 s.timing.expiry_ledgers
                                ++ (to_be 4 s.timing.valid_until_ledger
                                    ++ encode_subject s.subject))))))))

-- `RecoveryStatement::encode`. `to_xdr` is the host's encoding of an address.
unfoldable pub encode : (Address → Bytes) → RecoveryStatement → Result StatementError Bytes
encode to_xdr s = do
  account ← ok_or (contract_id (to_xdr s.account)) account_not_contract
  controller ← ok_or (contract_id (to_xdr s.controller)) controller_not_contract
  ok (statement_domain ++ encode_body account controller s)

-- `RecoveryStatement::digest`.
unfoldable pub digest :
    (Bytes → Bytes32) → (Address → Bytes) → RecoveryStatement → Result StatementError Bytes32
digest sha256 to_xdr s = do bytes ← encode to_xdr s; ok (sha256 bytes)

abbrev pub provider_chosen : RecoveryAction → Bool
provider_chosen reconfigure = true
provider_chosen upgrade = true
provider_chosen _ = false

-- `RecoveryStatement::check_fresh`.
unfoldable pub check_fresh : RecoveryStatement → ℕ → Result StatementError (Unit {0})
check_fresh s now = do
  let until = s.timing.valid_until_ledger
  guard (not (ltb until now)) evidence_expired
  guard (not (provider_chosen (action s.subject) && ltb s.timing.expiry_ledgers (until - now)))
      evidence_window_too_long
