-- ===== src/Recovery/Conditions.antt =====
-- crates/perch-recovery/src/contract.rs, "Conditions and statements": which evidence suffices, the
-- statements that it is given for, and the checks of a configuration.
pub mod Quorum
use perch.Common.{
  ℕ, suc, Address, Bytes32, Bool, true, false, ◌&&◌, ◌||◌, not, Option, none, some, List, [], ◌∷◌,
  leb, ltb, ◌==◌, opt_eq, if◌then◌else◌, is_some, length, contains, Result, ok, err, ◌>>=◌, ◌>>◌,
  guard, ok_or,
}
use perch.Recovery.Config.{
  CompiledRecoveryConfig, CompiledGuardianSet, CompiledZkFactor, factor_eq, guardians, zk, binding,
  zk_factor_transition_ok,
}
use perch.Recovery.Statement.{
  RecoveryAction, compromise, RecoveryStatement, StatementSubject, lost_key_of, compromise_of,
  cancel_of, reconfigure_to, upgrade_to, AttemptSubject, StatementError, evidence_expired,
  evidence_window_too_long,
}
use perch.Recovery.Statement as Statement
use perch.Recovery.Types.{
  Attempt, EvidenceDomain, initiate, cancel, RecoveryError, invalid_statement, condition_not_met,
  zk_evidence_rejected, nullifier_spent, invalid_configuration, zk_factor_changed_in_place,
  zk_wiring_mismatch,
}
use perch.Recovery.Types as Types
use perch.Recovery.World.{World, ZkEvidence}
use perch.Recovery.State.{Entries, epoch_of}

-- `is_none_or`.
abbrev pub is_none_or {ℓ} : {A : Type ℓ} → Option A → (A → Bool) → Bool
is_none_or none test = true
is_none_or (some a) test = test a

unfoldable pub initiation_met : CompiledRecoveryConfig → Attempt → Bool
initiation_met c a =
    is_none_or (guardians c) (λ g. leb g.quorum (length a.guardians))
    && is_none_or (zk c) (λ z. is_some a.zk_nullifier)

unfoldable pub cancellation_met : CompiledRecoveryConfig → Attempt → Bool
cancellation_met c a =
    is_none_or (guardians c) (λ g. leb g.quorum (length a.cancel_guardians))
    && is_none_or (zk c) (λ z. a.cancel_zk)

-- `.filter(|g| set.guardians.contains(g)).count()`.
unfoldable pub count_enrolled : List Address → List Address → ℕ
count_enrolled enrolled [] = 0
count_enrolled enrolled (g ∷ gs) =
    if contains enrolled g then suc (count_enrolled enrolled gs) else count_enrolled enrolled gs

-- `map_err(statement_error)`.
abbrev pub statement_error : StatementError → RecoveryError
statement_error evidence_expired = Types.evidence_expired
statement_error evidence_window_too_long = Types.evidence_expired
statement_error _ = invalid_statement

abbrev pub map_err {ℓ} : {A : Type ℓ} → Result StatementError A → Result RecoveryError A
map_err (ok a) = ok a
map_err (err e) = err (statement_error e)

unfoldable pub check_config : Address → CompiledRecoveryConfig → Result RecoveryError (Unit {0})
check_config account c = do
  guard (not ((c.delay_ledgers == 0) || ((c.expiry_ledgers == 0) || (c.max_cancels == 0))))
      invalid_configuration
  guard
      (is_none_or (guardians c) (λ g.
        not
          (contains g.guardians account || ((g.quorum == 0) || ltb (length g.guardians) g.quorum))))
      invalid_configuration

abbrev pub is_change : StatementSubject → Bool
is_change (reconfigure_to c) = true
is_change (upgrade_to s) = true
is_change _ = false

module _ (w : World) (account : Address) where
  unfoldable pub statement : CompiledRecoveryConfig → ℕ → ℕ → StatementSubject → RecoveryStatement
  statement c epoch valid_until subject = record {
    network_id = w.network_id;
    account = account;
    controller = w.here;
    config = record { epoch = epoch; config_hash = c.config_hash };
    timing = record {
      delay_ledgers = c.delay_ledgers;
      expiry_ledgers = c.expiry_ledgers;
      valid_until_ledger = valid_until;
    };
    subject = subject;
  }

  abbrev pub attempt_subject : Attempt → AttemptSubject
  attempt_subject a = record {
    attempt_id = a.id;
    source_doc_hash = a.source_doc_hash;
    target_doc_hash = a.target_doc_hash;
    replacements_hash = a.replacements_hash;
  }

  unfoldable pub initiation_statement : CompiledRecoveryConfig → Attempt → RecoveryStatement
  initiation_statement c a = statement c a.epoch a.evidence_deadline (elim a.action [
    | compromise ↦ compromise_of (attempt_subject a)
    | _ ↦ lost_key_of (attempt_subject a)
  ])

  unfoldable pub digest : RecoveryStatement → Result RecoveryError Bytes32
  digest s = map_err (Statement.digest w.sha256 w.to_xdr s)

  unfoldable pub check_fresh : RecoveryStatement → Result RecoveryError (Unit {0})
  check_fresh s = map_err (Statement.check_fresh s w.now)

  unfoldable pub attempt_statement :
      CompiledRecoveryConfig → Attempt → EvidenceDomain → Result RecoveryError RecoveryStatement
  attempt_statement c a initiate = ok (initiation_statement c a)
  attempt_statement c a cancel = do
    d ← digest (initiation_statement c a)
    ok (
        statement c a.epoch a.cancel_until
          (cancel_of (record { attempt_id = a.id; attempt_statement = d })))

  unfoldable pub change_statement_for :
      Entries
      → CompiledRecoveryConfig
      → StatementSubject
      → ℕ
      → Result RecoveryError RecoveryStatement
  change_statement_for s c subject valid_until = do
    guard (is_change subject) invalid_statement
    ok (statement c (epoch_of s) valid_until subject)

  unfoldable pub require_condition :
      Entries → CompiledRecoveryConfig → StatementSubject → ℕ → Result RecoveryError (Unit {0})
  require_condition s c subject valid_until = do
    st ← change_statement_for s c subject valid_until
    check_fresh st
    d ← digest st
    r ← ok_or (s.approval d) condition_not_met
    guard
        (is_none_or (guardians c)
          (λ g. not (ltb (count_enrolled g.guardians r.guardians) g.quorum)))
        condition_not_met
    guard (not (is_some (zk c) && not r.zk)) condition_not_met

  unfoldable pub verify_zk :
      Entries → CompiledZkFactor → RecoveryStatement → ZkEvidence → Result RecoveryError (Unit {0})
  verify_zk s f st evidence = do
    guard (w.verify f.adapter st (binding f) evidence) zk_evidence_rejected
    guard (not (s.nullifier evidence.nullifier)) nullifier_spent

  abbrev pub same_factor : Option CompiledZkFactor → CompiledZkFactor → Bool
  same_factor none new = false
  same_factor (some old) new = factor_eq old new

  unfoldable pub is_wired : CompiledZkFactor → Bool
  is_wired f =
      opt_eq (w.circuit_id f.adapter) (some f.circuit_id)
      && (is_some (w.adapter_depth f.adapter)
          && opt_eq (w.adapter_depth f.adapter) (w.pool_depth f.pool))

  unfoldable pub check_zk_wiring :
      Option CompiledZkFactor → Option CompiledZkFactor → Result RecoveryError (Unit {0})
  check_zk_wiring old new = do
    guard (zk_factor_transition_ok old new) zk_factor_changed_in_place
    guard (is_none_or new (λ n. same_factor old n || is_wired n)) zk_wiring_mismatch
