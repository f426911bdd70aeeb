-- ===== src/Recovery/Entry.antt =====
-- crates/perch-recovery/src/contract.rs, the contract's entry points and hooks. An invocation that
-- fails is rolled back, so an error carries no state.
use perch.Common.{
  ℕ, Address, Bytes, Bytes32, Bool, true, false, ◌&&◌, not, Option, none, some, List, [], ◌∷◌, ◌++◌,
  ◌==◌, if◌then◌else◌, is_some, unwrap_or, first, update, contains, Result, ok, ◌>>=◌, ◌>>◌, guard,
  ok_or,
}
use perch.Program.Leaf.{Context}
use perch.Recovery.Config.{CompiledRecoveryConfig, is_protected, guardians, zk}
use perch.Recovery.Statement.{
  lost_key, compromise, StatementSubject, reconfigure_to, upgrade_to, ConfigChange, remove, set_to,
}
use perch.Recovery.Credential.{ReplacementSet}
use perch.Recovery.Types.{
  Attempt, ActivityGate, AttemptState, collecting, ChangeApproval, no_approval, EvidenceDomain,
  initiate, cancel, SyncOutcome, UpgradeStep, schedule, execute, RecoveryError, attempt_authorized,
  owner_cancel_refused, stale_upgrade, mode_has_no_guardians, not_a_guardian,
  attempt_not_collecting, already_counted, mode_has_no_zk, no_baseline, baseline_mismatch,
  malformed_context_rule, invalid_configuration, not_enrolled, CompletionMarker,
}
use perch.Recovery.World.{
  World, ZkEvidence, require_auth, require_auth_for, admin_survives, is_empty,
}
use perch.Recovery.State.{
  Entries, require_config, epoch_of, bump_epoch, store_config, load, load_live, is_live,
  authorized_live, refuse_in_window, store_approval,
}
use perch.Recovery.Conditions.{
  check_config, check_zk_wiring, require_condition, attempt_statement, change_statement_for,
  check_fresh, digest, verify_zk,
}
use perch.Recovery.Transitions.{
  begin, after_evidence, cancel_attempt, authorize_completion, complete,
}

abbrev pub is_collecting : AttemptState → Bool
is_collecting collecting = true
is_collecting _ = false

-- The parts of OZ's `ContextRule` that the policy reads: the number of its signers, and the contract
-- of a `CallContract` rule.
pub record ContextRule : Type 0 where
  pub signers : List ℕ
  pub call_contract : Option Address

module _ (w : World) (account : Address) where
  unfoldable pub assert_recovery_rule : ContextRule → Result RecoveryError (Unit {0})
  assert_recovery_rule rule =
      guard
        (is_empty rule.signers && elim rule.call_contract [ none ↦ false | some a ↦ a == account ])
        malformed_context_rule

  unfoldable pub install : Bytes32 → ContextRule → Entries → Result RecoveryError (Unit {0})
  install params rule s = do
    require_auth w account
    assert_recovery_rule rule
    c ← ok_or s.config not_enrolled
    guard (c.config_hash == params) invalid_configuration

  unfoldable pub enforce : Context → List ℕ → ContextRule → Entries → Result RecoveryError Entries
  enforce context signers rule s = do
    require_auth w account
    guard (is_empty signers) malformed_context_rule
    assert_recovery_rule rule
    authorize_completion w account context s

  unfoldable pub begin_lost_key : ReplacementSet → Entries → Result RecoveryError (ℕ × Entries)
  begin_lost_key replacements s = begin w account lost_key replacements s

  unfoldable pub begin_compromise : ReplacementSet → Entries → Result RecoveryError (ℕ × Entries)
  begin_compromise replacements s = begin w account compromise replacements s

  -- The attempt with a guardian counted in the domain.
  unfoldable pub count_guardian : Attempt → EvidenceDomain → Address → Result RecoveryError Attempt
  count_guardian a initiate guardian = do
    guard (is_collecting a.state) attempt_not_collecting
    guard (not (contains a.guardians guardian)) already_counted
    ok (record a { guardians = a.guardians ++ guardian ∷ [] })
  count_guardian a cancel guardian = do
    guard (not (contains a.cancel_guardians guardian)) already_counted
    ok (record a { cancel_guardians = a.cancel_guardians ++ guardian ∷ [] })

  unfoldable pub submit_guardian :
      ℕ → EvidenceDomain → Address → Entries → Result RecoveryError Entries
  submit_guardian attempt_id domain guardian s = do
    c ← require_config s
    set ← ok_or (guardians c) mode_has_no_guardians
    guard (contains set.guardians guardian) not_a_guardian
    a ← load_live w.now s attempt_id
    b ← count_guardian a domain guardian
    st ← attempt_statement w account c b domain
    check_fresh w account st
    d ← digest w account st
    require_auth_for w guardian d
    after_evidence w account c b domain s

  -- The guards of `submit_zk` for the domain, and the attempt with the proof recorded.
  unfoldable pub awaits_zk : Attempt → EvidenceDomain → Result RecoveryError (Unit {0})
  awaits_zk a initiate = do
    guard (is_collecting a.state) attempt_not_collecting
    guard (not (is_some a.zk_nullifier)) already_counted
  awaits_zk a cancel = guard (not a.cancel_zk) already_counted

  unfoldable pub record_zk : Attempt → EvidenceDomain → Bytes32 → Attempt
  record_zk a initiate nullifier = record a { zk_nullifier = some nullifier }
  record_zk a cancel nullifier = record a { cancel_zk = true }

  unfoldable pub submit_zk :
      ℕ → EvidenceDomain → ZkEvidence → Entries → Result RecoveryError Entries
  submit_zk attempt_id domain evidence s = do
    c ← require_config s
    factor ← ok_or (zk c) mode_has_no_zk
    a ← load_live w.now s attempt_id
    awaits_zk a domain
    st ← attempt_statement w account c a domain
    check_fresh w account st
    verify_zk w account s factor st evidence
    after_evidence w account c (record_zk a domain evidence.nullifier) domain s

  unfoldable pub change_evidence : Bytes32 → Entries → ChangeApproval
  change_evidence d s = unwrap_or (s.approval d) no_approval

  unfoldable pub approve_change :
      StatementSubject → ℕ → Address → Entries → Result RecoveryError Entries
  approve_change subject valid_until guardian s = do
    c ← require_config s
    set ← ok_or (guardians c) mode_has_no_guardians
    guard (contains set.guardians guardian) not_a_guardian
    refuse_in_window w.now s
    st ← change_statement_for w account s c subject valid_until
    check_fresh w account st
    d ← digest w account st
    let r = change_evidence d s
    guard (not (contains r.guardians guardian)) already_counted
    require_auth_for w guardian d
    ok (store_approval d (record r { guardians = r.guardians ++ guardian ∷ [] }) s)

  unfoldable pub submit_zk_change :
      StatementSubject → ℕ → ZkEvidence → Entries → Result RecoveryError Entries
  submit_zk_change subject valid_until evidence s = do
    c ← require_config s
    factor ← ok_or (zk c) mode_has_no_zk
    refuse_in_window w.now s
    st ← change_statement_for w account s c subject valid_until
    check_fresh w account st
    d ← digest w account st
    let r = change_evidence d s
    guard (not r.zk) already_counted
    verify_zk w account s factor st evidence
    ok (store_approval d (record r { zk = true }) s)

  unfoldable pub publish_baseline : Bytes → Entries → Result RecoveryError Entries
  publish_baseline doc_json s = do
    c ← require_config s
    hash ← ok_or c.baseline no_baseline
    compiled ← ok_or (w.compile_doc doc_json) baseline_mismatch
    guard ((compiled.doc_hash == hash) && admin_survives compiled.rules) baseline_mismatch
    ok (record s { baseline = update s.baseline hash (some compiled.canonical) })

  -- Whether the marker is for this document, from this ledger, of the attempt that is authorized.
  unfoldable pub is_current : CompletionMarker → Bytes32 → Entries → Bool
  is_current m doc_hash s =
      (m.target_doc_hash == doc_hash)
      && ((m.ledger == w.now)
          && elim (authorized_live w.now s) [ none ↦ false | some a ↦ a.id == m.attempt_id ])

  -- A configuration where none was stored.
  unfoldable pub enroll :
      Option CompiledRecoveryConfig → Entries → Result RecoveryError (SyncOutcome × Entries)
  enroll none s = ok (SyncOutcome.unchanged, s)
  enroll (some n) s = do
    guard (n.controller == w.here) invalid_configuration
    check_config account n
    check_zk_wiring w account none (zk n)
    t ← store_config n s
    ok (SyncOutcome.enrolled, t)

  -- `Some(n) if n.controller == here`.
  unfoldable pub here_now : Option CompiledRecoveryConfig → Option CompiledRecoveryConfig
  here_now none = none
  here_now (some n) = if n.controller == w.here then some n else none

  unfoldable pub change_to : Option CompiledRecoveryConfig → ConfigChange
  change_to none = remove
  change_to (some n) = set_to n.config_hash

  unfoldable pub replace :
      CompiledRecoveryConfig
      → Option CompiledRecoveryConfig
      → Entries
      → Result RecoveryError (SyncOutcome × Entries)
  replace stored (some n) s = do
    check_config account n
    check_zk_wiring w account (zk stored) (zk n)
    t ← store_config n s
    ok (SyncOutcome.reconfigured, t)
  replace stored none s = do
    t ← bump_epoch (record s { config = none; authorized = none })
    ok (SyncOutcome.removed, t)

  unfoldable pub reconfigure :
      CompiledRecoveryConfig
      → Option CompiledRecoveryConfig
      → ℕ
      → Entries
      → Result RecoveryError (SyncOutcome × Entries)
  reconfigure stored new valid_until s =
      if elim (here_now new) [ none ↦ false | some n ↦ n.config_hash == stored.config_hash ]
      then ok (SyncOutcome.unchanged, s)
      else do
        if is_protected stored.profile
            then require_condition w account s stored (reconfigure_to (change_to new)) valid_until
            else ok tt
        replace stored (here_now new) s

  -- `rcv_sync` when no completion is running.
  unfoldable pub sync_normally :
      Option CompiledRecoveryConfig → ℕ → Entries → Result RecoveryError (SyncOutcome × Entries)
  sync_normally new valid_until s = do
    guard (not (is_some (authorized_live w.now s))) attempt_authorized
    elim s.config [ none ↦ enroll new s | some stored ↦ reconfigure stored new valid_until s ]

  unfoldable pub rcv_sync :
      Bytes32
      → List CompiledRecoveryConfig
      → ℕ
      → Entries
      → Result RecoveryError (SyncOutcome × Entries)
  rcv_sync doc_hash recovery valid_until s = do
    require_auth w account
    let s1 = record s { completing = none }
    elim s.completing [
      | none ↦ sync_normally (first recovery) valid_until s
      | some m ↦
          if is_current m doc_hash s1
          then complete w account m (first recovery) doc_hash s1
          else sync_normally (first recovery) valid_until s1
    ]

  unfoldable pub rcv_cancel : ℕ → Entries → Result RecoveryError Entries
  rcv_cancel attempt_id s = do
    require_auth w account
    c ← require_config s
    guard (not (is_protected c.profile)) owner_cancel_refused
    a ← load_live w.now s attempt_id
    cancel_attempt w account c a false s

  unfoldable pub upgrade_step :
      CompiledRecoveryConfig → UpgradeStep → Entries → Result RecoveryError (ℕ × Entries)
  upgrade_step c (schedule subject valid_until) s = do
    if is_protected c.profile
        then require_condition w account s c (upgrade_to subject) valid_until
        else ok tt
    ok (epoch_of s, s)
  upgrade_step c (execute recorded_epoch) s = do
    guard (recorded_epoch == epoch_of s) stale_upgrade
    t ← bump_epoch s
    ok (epoch_of t, t)

  unfoldable pub rcv_upgrade : UpgradeStep → Entries → Result RecoveryError (ℕ × Entries)
  rcv_upgrade step s = do
    require_auth w account
    c ← require_config s
    guard (not (is_some (authorized_live w.now s))) attempt_authorized
    upgrade_step c step s

  unfoldable pub attempt_live : ℕ → Entries → Bool
  attempt_live id s = elim (load s id) [ none ↦ false | some a ↦ is_live w.now s a ]

  unfoldable pub activity_gate : Entries → ActivityGate
  activity_gate s = elim (authorized_live w.now s) [
    | none ↦ record { authorized_attempt = none; frozen = false; until = 0 }
    | some a ↦ record {
      authorized_attempt = some a.id;
      frozen = elim s.config [ none ↦ false | some c ↦ is_protected c.profile ];
      until = a.expires_at;
    }
  ]
