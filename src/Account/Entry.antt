-- ===== src/Account/Entry.antt =====
-- crates/perch-smart-account/src/lib.rs: the calls of the account, and the upgrade requests of
-- crates/perch-recovery-interface/src/account.rs. An error rolls back.
pub mod History
pub mod Upgrades
pub mod Tests
use perch.Common.{
  ℕ, ◌+◌, Address, Bytes, Bytes32, Symbol, Val, Bool, true, false, ◌&&◌, ◌||◌, not, Option, none,
  some, List, [], ◌∷◌, map, first, contains, ltb, leb, ◌==◌, if◌then◌else◌, list_eq, update,
  is_some, u32_max, u64_max, Result, ok, err, ◌>>=◌, ◌>>◌, guard, ok_or,
}
use perch.Document.Text.{codes}
use perch.Recovery.Config.{
  CompiledZkFactor, CompiledRecoveryConfig, zk, zk_factor_transition_ok, leaf_to_insert,
}
use perch.Recovery.Types.{SyncOutcome, unchanged, completed, bumps_generation, UpgradeStep}
use perch.Recovery.Types as Types
use perch.Recovery.Statement.{UpgradeSubject}
use perch.Recovery.Credential.{Credential, revocations}
use perch.Recovery.World as World
use perch.Account.{
  InstalledRule, CompiledRule, RuleScope, self_admin, contract, CompiledDoc, Host, desired,
}
use perch.Account.Effects.{Oz}
use perch.Account.Reconcile.{reconcile}

pub record FreezeGate : Type 0 where
  pub attempt_id : ℕ
  pub until : ℕ

pub record UpgradeRequest : Type 0 where
  pub request_id : ℕ
  pub wasm_hash : Bytes32
  pub generation : ℕ
  pub controller_epoch : Option ℕ
  pub executable_at : ℕ

abbrev pub account_upgrade_delay_ledgers : ℕ
account_upgrade_delay_ledgers = 120960

pub data AccountError : Type 0 where
  admin_lockout revoked_credential enrollment_reused zk_factor_changed_in_place : AccountError
  reserved_function recovery_not_enrolled no_pending_upgrade upgrade_request_mismatch : AccountError
  upgrade_not_ready timing_overflow invalid_credential stale_upgrade stale_revision : AccountError
  -- A refusal of the compiler or of a controller, and the host's failed authorization or a panic.
  compiler recovery trapped : AccountError

unfoldable pub upgrade_request : ℕ → Bytes32 → ℕ → Option ℕ → ℕ → Option UpgradeRequest
upgrade_request request_id wasm_hash generation controller_epoch now =
    if leb (now + account_upgrade_delay_ledgers) u32_max
    then some (record {
      request_id = request_id;
      wasm_hash = wasm_hash;
      generation = generation;
      controller_epoch = controller_epoch;
      executable_at = now + account_upgrade_delay_ledgers;
    })
    else none

pub data UpgradeReadiness : Type 0 where
  ready not_yet stale : UpgradeReadiness

unfoldable pub readiness : UpgradeRequest → ℕ → ℕ → UpgradeReadiness
readiness r now generation =
    if not (generation == r.generation)
    then stale
    else if ltb now r.executable_at
    then not_yet
    else ready

abbrev pub reserved_invoker_only_fns : List Symbol
reserved_invoker_only_fns =
    codes "install"
    ∷ (codes "uninstall"
        ∷ (codes "enforce"
            ∷ (codes "rcv_sync"
                ∷ (codes "rcv_cancel"
                    ∷ (codes "rcv_upgrade" ∷ (codes "rcv_insert" ∷ (codes "rcv_gate" ∷ [])))))))

abbrev pub any_name : List Symbol → Symbol → Bool
any_name [] f = false
any_name (n ∷ ns) f = list_eq n f || any_name ns f

unfoldable pub is_reserved_invoker_only : Symbol → Bool
is_reserved_invoker_only f = any_name reserved_invoker_only_fns f

-- What one call reads of the host and of the contracts that it calls; `none` and `false` are refusals.
pub record Around (O : Type 0) : Type 0 where
  pub host : Host
  pub oz : Oz O
  pub max_policies : ℕ
  pub auth : Address → Bool
  pub compile_doc : Bytes → Option CompiledDoc
  pub credential_fingerprint : Credential → Option Bytes32
  pub try_rcv_sync : Address → Bytes32 → List CompiledRecoveryConfig → ℕ → Option SyncOutcome
  pub try_rcv_cancel : Address → ℕ → Bool
  pub try_rcv_upgrade : Address → UpgradeStep → Option ℕ
  pub insert_call : Address → Bytes32 → Bytes32 → Bool

-- The account's storage, its rules in the library's state, and its code.
pub record State (O : Type 0) : Type 0 where
  pub revision : ℕ
  pub generation : ℕ
  pub freeze_gate : Option FreezeGate
  pub recovery_controller : Option Address
  pub recovery_rule : Option ℕ
  pub current_zk : Option CompiledZkFactor
  pub revoked : Bytes32 → Bool
  pub enrolled_ids : Bytes32 → Bool
  pub applied_doc : Option Bytes32
  pub applied_doc_bytes : Option Bytes
  pub applied_fingerprints : List Bytes32
  pub pending_upgrade : Option UpgradeRequest
  pub next_upgrade_id : ℕ
  pub installed_rules : List InstalledRule
  pub library : O
  pub wasm_hash : Bytes32

-- A counter's next value, which the overflow check bounds.
abbrev pub succeeding : ℕ → Result AccountError ℕ
succeeding n = if ltb n u64_max then ok (n + 1) else err trapped

-- The parts of a rule that `admin_survives` reads.
abbrev pub scope_read : RuleScope → World.RuleScope
scope_read self_admin = World.self_admin
scope_read (contract a) = World.other_scope

abbrev pub rule_read : CompiledRule → World.CompiledRule
rule_read r = record {
  scope = scope_read r.scope;
  valid_until = r.valid_until;
  signers = r.signers;
  install = map (λ i. i.doc_hash) r.install;
  cap = map (λ c. c.period_ledgers) r.cap;
}

abbrev pub any_revoked : (Bytes32 → Bool) → List Bytes32 → Bool
any_revoked revoked [] = false
any_revoked revoked (f ∷ fs) = revoked f || any_revoked revoked fs

unfoldable pub revoke_all : List Bytes32 → (Bytes32 → Bool) → (Bytes32 → Bool)
revoke_all [] revoked = revoked
revoke_all (f ∷ fs) revoked = revoke_all fs (update revoked f true)

abbrev pub recovery_id : List InstalledRule → Option ℕ
recovery_id [] = none
recovery_id (r ∷ rs) = if r.recovery then some r.id else recovery_id rs

abbrev pub controller_of : List CompiledRecoveryConfig → Option Address
controller_of [] = none
controller_of (r ∷ rs) = some r.controller

abbrev pub new_zk_of : List CompiledRecoveryConfig → Option CompiledZkFactor
new_zk_of [] = none
new_zk_of (r ∷ rs) = zk r

abbrev pub is_stale_revision : Option ℕ → ℕ → Bool
is_stale_revision none revision = false
is_stale_revision (some r) revision = not (r == revision)

module _ {O : Type 0} (w : Around O) where
  abbrev pub require_me : Result AccountError (Unit {0})
  require_me = guard (w.auth w.host.here) trapped

  unfoldable pub fingerprints_of : List Credential → Result AccountError (List Bytes32)
  fingerprints_of [] = ok []
  fingerprints_of (c ∷ cs) = do
    f ← ok_or (w.credential_fingerprint c) invalid_credential
    rest ← fingerprints_of cs
    ok (f ∷ rest)

  unfoldable pub advance_generation : SyncOutcome → State O → Result AccountError (State O)
  advance_generation outcome s =
      if bumps_generation outcome
      then (succeeding s.generation >>= λ n. ok (record s { generation = n }))
      else ok s

  unfoldable pub complete_recovery :
      List Credential → List Bytes32 → State O → Result AccountError (State O)
  complete_recovery replaced target s = do
    fs ← fingerprints_of replaced
    ok (record s {
      revoked = revoke_all (revocations fs s.applied_fingerprints target) s.revoked;
      freeze_gate = none;
      pending_upgrade = none;
    })

  unfoldable pub apply_rules : CompiledDoc → State O → Result AccountError (State O)
  apply_rules compiled s =
      elim (reconcile w.oz w.host w.max_policies s.installed_rules (desired w.host compiled)
        s.library) [
          | err p ↦ err trapped
          | ok r ↦ ok (record s {
            library = r.0;
            installed_rules = r.1.0;
            recovery_rule = recovery_id r.1.0;
            recovery_controller = controller_of compiled.recovery;
          })
        ]

  -- The call of the adopted controller.
  unfoldable pub sync_old :
      Option Address → CompiledDoc → ℕ → State O → Result AccountError (SyncOutcome × State O)
  sync_old none compiled approval s = ok (unchanged, s)
  sync_old (some c) compiled approval s = do
    outcome ← ok_or (w.try_rcv_sync c compiled.doc_hash compiled.recovery approval) recovery
    s' ← advance_generation outcome s
    ok (outcome, s')

  abbrev pub is_other : Option Address → Address → Bool
  is_other none c = true
  is_other (some old) c = not (old == c)

  -- The call of a controller that the document adopts.
  unfoldable pub sync_new :
      Option Address → CompiledDoc → ℕ → State O → Result AccountError (State O)
  sync_new old compiled approval s = elim (controller_of compiled.recovery) [
    | none ↦ ok s
    | some c ↦
        if is_other old c
        then (ok_or (w.try_rcv_sync c compiled.doc_hash compiled.recovery approval) recovery
            >>= λ o. advance_generation o s)
        else ok s
  ]

  unfoldable pub insert_leaf : Option CompiledZkFactor → State O → Result AccountError (State O)
  insert_leaf none s = ok s
  insert_leaf (some leaf) s = do
    guard (w.insert_call leaf.pool leaf.enrollment_id leaf.commitment) trapped
    ok (record s { enrolled_ids = update s.enrolled_ids leaf.enrollment_id true })

  abbrev pub is_reused : Option CompiledZkFactor → State O → Bool
  is_reused none s = false
  is_reused (some leaf) s = s.enrolled_ids leaf.enrollment_id

  unfoldable pub conclude : SyncOutcome → List Bytes32 → State O → Result AccountError (State O)
  conclude (completed c) target s = complete_recovery c.replaced target s
  conclude _ target s = ok s

  abbrev pub is_applied : Option Bytes32 → Bytes32 → Bool
  is_applied none h = false
  is_applied (some g) h = g == h

  unfoldable pub store_doc : CompiledDoc → State O → State O
  store_doc compiled s = if is_applied s.applied_doc compiled.doc_hash then s else record s {
    applied_doc = some compiled.doc_hash;
    applied_doc_bytes = some compiled.canonical;
    applied_fingerprints = compiled.fingerprints;
  }

  -- The checks of `apply`, in order, before anything changes.
  unfoldable pub checked_doc : Bytes → Option ℕ → State O → Result AccountError CompiledDoc
  checked_doc doc_json expected s = do
    require_me
    guard (not (is_stale_revision expected s.revision)) stale_revision
    compiled ← ok_or (w.compile_doc doc_json) compiler
    guard (World.admin_survives (map rule_read compiled.rules)) admin_lockout
    guard (not (any_revoked s.revoked compiled.fingerprints)) revoked_credential
    let new_zk = new_zk_of compiled.recovery
    guard (zk_factor_transition_ok s.current_zk new_zk) zk_factor_changed_in_place
    guard (not (is_reused (leaf_to_insert s.current_zk new_zk) s)) enrollment_reused
    ok compiled

  -- Both controllers' calls.
  unfoldable pub sync : CompiledDoc → ℕ → State O → Result AccountError (SyncOutcome × State O)
  sync compiled approval s = do
    (outcome, s₁) ← sync_old s.recovery_controller compiled approval s
    s₂ ← sync_new s.recovery_controller compiled approval s₁
    ok (outcome, s₂)

  -- The changes after them, with the leaf that was chosen before.
  unfoldable pub change_all :
      CompiledDoc → Option CompiledZkFactor → SyncOutcome → State O → Result AccountError (State O)
  change_all compiled leaf outcome s = do
    s₁ ← apply_rules compiled s
    s₂ ← insert_leaf leaf s₁
    s₃ ←
        conclude outcome compiled.fingerprints
          (record s₂ { current_zk = new_zk_of compiled.recovery })
    ok (store_doc compiled s₃)

  -- `apply`: the new state with the document's hash.
  unfoldable pub apply : Bytes → ℕ → Option ℕ → State O → Result AccountError (State O × Bytes32)
  apply doc_json approval expected s = do
    compiled ← checked_doc doc_json expected s
    (outcome, s₁) ← sync compiled approval s
    s₂ ← change_all compiled (leaf_to_insert s.current_zk (new_zk_of compiled.recovery)) outcome s₁
    revision ← succeeding s₂.revision
    ok (record s₂ { revision = revision }, compiled.doc_hash)

  abbrev pub is_gate_of : Option FreezeGate → ℕ → Bool
  is_gate_of none id = false
  is_gate_of (some g) id = g.attempt_id == id

  unfoldable pub rcv_gate : ℕ → ℕ → State O → Result AccountError (State O)
  rcv_gate attempt_id frozen_until s = do
    c ← ok_or s.recovery_controller recovery_not_enrolled
    guard (w.auth c) trapped
    if frozen_until == 0
        then ok (if is_gate_of s.freeze_gate attempt_id then record s { freeze_gate = none } else s)
        else ok (record s {
          freeze_gate = some (record { attempt_id = attempt_id; until = frozen_until });
        })

  unfoldable pub cancel_recovery : ℕ → State O → Result AccountError (State O)
  cancel_recovery attempt_id s = do
    require_me
    c ← ok_or s.recovery_controller recovery_not_enrolled
    guard (w.try_rcv_cancel c attempt_id) recovery
    ok s

  -- The adopted controller's answer to an upgrade step, with its epoch.
  abbrev pub upgrade_epoch : Option Address → UpgradeStep → Result AccountError (Option ℕ)
  upgrade_epoch none step = ok none
  upgrade_epoch (some c) step =
      ok_or (w.try_rcv_upgrade c step) recovery >>= λ epoch. ok (some epoch)

  unfoldable pub schedule_upgrade : Bytes32 → ℕ → State O → Result AccountError (State O × ℕ)
  schedule_upgrade wasm_hash approval s = do
    require_me
    next ← succeeding s.next_upgrade_id
    epoch ←
        upgrade_epoch s.recovery_controller (
          Types.schedule (record { request_id = s.next_upgrade_id; wasm_hash = wasm_hash })
            approval)
    request ←
        ok_or (upgrade_request s.next_upgrade_id wasm_hash s.generation epoch w.host.sequence)
          timing_overflow
    ok (record s { next_upgrade_id = next; pending_upgrade = some request }, s.next_upgrade_id)

  abbrev pub require_ready : UpgradeReadiness → Result AccountError (Unit {0})
  require_ready ready = ok tt
  require_ready not_yet = err upgrade_not_ready
  require_ready stale = err stale_upgrade

  -- The adopted controller's check of the recorded epoch.
  abbrev pub check_epoch : Option Address → Option ℕ → Result AccountError (Unit {0})
  check_epoch none epoch = ok tt
  check_epoch (some c) epoch = ok_or epoch stale_upgrade >>= λ n.
      guard (is_some (w.try_rcv_upgrade c (Types.execute n))) recovery

  unfoldable pub execute_upgrade : ℕ → State O → Result AccountError (State O)
  execute_upgrade request_id s = do
    require_me
    request ← ok_or s.pending_upgrade no_pending_upgrade
    guard (request.request_id == request_id) upgrade_request_mismatch
    require_ready (readiness request w.host.sequence s.generation)
    check_epoch s.recovery_controller request.controller_epoch
    generation ← succeeding s.generation
    revision ← succeeding s.revision
    ok (record s {
      pending_upgrade = none;
      generation = generation;
      revision = revision;
      wasm_hash = request.wasm_hash;
    })

  unfoldable pub cancel_upgrade : State O → Result AccountError (State O)
  cancel_upgrade s = do
    require_me
    guard (is_some s.pending_upgrade) no_pending_upgrade
    ok (record s { pending_upgrade = none })
