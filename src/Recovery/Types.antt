-- ===== src/Recovery/Types.antt =====
-- crates/perch-recovery/src/types.rs and perch-recovery-interface/src/controller.rs: the records,
-- the errors and the outcomes of the recovery controller.
use perch.Common.{ℕ, Address, Bytes32, Bool, true, false, Option, List, []}
use perch.Recovery.Statement.{RecoveryAction, UpgradeSubject}
use perch.Recovery.Credential.{Credential}

pub data EvidenceDomain : Type 0 where
  initiate cancel : EvidenceDomain

pub record ActivityGate : Type 0 where
  pub authorized_attempt : Option ℕ
  pub frozen : Bool
  pub until : ℕ

pub data AttemptState : Type 0 where
  collecting authorized completed cancelled invalidated : AttemptState

pub record Attempt : Type 0 where
  pub id : ℕ
  pub action : RecoveryAction
  pub epoch : ℕ
  pub created_at : ℕ
  pub evidence_deadline : ℕ
  pub cancel_until : ℕ
  pub authorized_at : ℕ
  pub executable_after : ℕ
  pub expires_at : ℕ
  pub source_doc_hash : Bytes32
  pub target_doc_hash : Bytes32
  pub target_bytes_hash : Bytes32
  pub target_config_hash : Bytes32
  pub replacements_hash : Bytes32
  pub replaced : List Credential
  pub state : AttemptState
  pub guardians : List Address
  pub zk_nullifier : Option Bytes32
  pub cancel_guardians : List Address
  pub cancel_zk : Bool

pub record ChangeApproval : Type 0 where
  pub guardians : List Address
  pub zk : Bool

-- `ChangeApproval::empty`.
abbrev pub no_approval : ChangeApproval
no_approval = record { guardians = []; zk = false }

pub record CompletionMarker : Type 0 where
  pub attempt_id : ℕ
  pub target_doc_hash : Bytes32
  pub ledger : ℕ

-- The last one is the host's: a failed authorization, a refused call of the account or an
-- arithmetic overflow ends the invocation.
pub data RecoveryError : Type 0 where
  not_enrolled attempt_authorized no_such_attempt attempt_not_live : RecoveryError
  attempt_not_collecting not_executable_yet wrong_target not_a_guardian : RecoveryError
  already_counted mode_has_no_guardians mode_has_no_zk zk_evidence_rejected : RecoveryError
  nullifier_spent evidence_expired invalid_statement condition_not_met : RecoveryError
  max_cancels_reached owner_cancel_refused invalid_replacements : RecoveryError
  credential_revoked enrollment_id_reused no_baseline baseline_not_published : RecoveryError
  baseline_mismatch zk_wiring_mismatch zk_factor_changed_in_place : RecoveryError
  invalid_configuration stale_upgrade ledger_overflow malformed_context_rule : RecoveryError
  replaced_credential_retained trapped : RecoveryError

pub record Completion : Type 0 where
  pub attempt_id : ℕ
  pub replaced : List Credential

pub data SyncOutcome : Type 0 where
  unchanged enrolled reconfigured removed : SyncOutcome
  completed : Completion → SyncOutcome

-- `SyncOutcome::bumps_generation`.
unfoldable pub bumps_generation : SyncOutcome → Bool
bumps_generation unchanged = false
bumps_generation _ = true

pub data UpgradeStep : Type 0 where
  schedule : UpgradeSubject → ℕ → UpgradeStep
  execute : ℕ → UpgradeStep
