-- ===== src/Recovery/Transitions.antt =====
-- crates/perch-recovery/src/contract.rs, "Transitions": opening, promoting, cancelling and completing
-- an attempt. The events that the code publishes are not modelled.
use perch.Common.{
  ℕ, ◌+◌, Address, Bytes, Bytes32, Symbol, Bool, true, false, ◌&&◌, not, Option, none, some, List,
  [], ◌∷◌, ltb, ◌==◌, opt_eq, if◌then◌else◌, is_some, unwrap_or, update, length, first, list_eq,
  Result, ok, err, ◌>>=◌, ◌>>◌, guard, ok_or, u64_max,
}
use perch.Program.Leaf.{Context, contract}
use perch.Recovery.Config.{CompiledRecoveryConfig, is_protected, zk}
use perch.Recovery.Statement.{RecoveryAction, lost_key, compromise}
use perch.Recovery.Credential.{
  Credential, ReplacementSet, fingerprint, replacements_hash, replaced_credentials_leave,
}
use perch.Recovery.Types.{
  Attempt, EvidenceDomain, initiate, cancel, AttemptState, collecting, authorized, completed,
  cancelled, invalidated, CompletionMarker, SyncOutcome, RecoveryError, not_enrolled,
  attempt_authorized, invalid_replacements, no_baseline, baseline_not_published,
  enrollment_id_reused, credential_revoked, replaced_credential_retained, trapped,
  max_cancels_reached, wrong_target, attempt_not_live, not_executable_yet, nullifier_spent,
}
use perch.Recovery.World.{World, Derived, add, next}
use perch.Recovery.State.{
  Entries, require_config, epoch_of, store_config, authorized_live, save, and_then,
}
use perch.Recovery.Conditions.{initiation_met, cancellation_met, is_none_or}

abbrev pub is_lost_key : RecoveryAction → Bool
is_lost_key lost_key = true
is_lost_key _ = false

abbrev pub is_authorized : AttemptState → Bool
is_authorized authorized = true
is_authorized _ = false

-- The name "apply_doc".
abbrev pub apply_doc : Symbol
apply_doc = 97 ∷ 112 ∷ 112 ∷ 108 ∷ 121 ∷ 95 ∷ 100 ∷ 111 ∷ 99 ∷ []

-- `.map_err(|_| e)`.
abbrev pub or_err {ℓ} :
    {E : Type 0} {A : Type ℓ} → Result E A → RecoveryError → Result RecoveryError A
or_err (ok a) e = ok a
or_err (err x) e = err e

-- Whether none of the fingerprints is revoked.
unfoldable pub none_revoked : (Bytes32 → Bool) → List Bytes32 → Bool
none_revoked is_revoked [] = true
none_revoked is_revoked (f ∷ fs) = not (is_revoked f) && none_revoked is_revoked fs

module _ (w : World) (account : Address) where
  -- The loop over `derived.replaced`.
  unfoldable pub fingerprints : List Credential → Result RecoveryError (List Bytes32)
  fingerprints [] = ok []
  fingerprints (c ∷ cs) =
      let rest = fingerprints cs in
      (do f ← or_err (fingerprint w.sha256 w.to_xdr c) invalid_replacements; fs ← rest; ok (f ∷ fs))

  -- `source` and `source_doc_hash`.
  unfoldable pub source_of :
      Entries
      → CompiledRecoveryConfig
      → RecoveryAction
      → Bytes
      → Result RecoveryError (Bytes × Bytes32)
  source_of s c compromise current = do
    hash ← ok_or c.baseline no_baseline
    bytes ← ok_or (s.baseline hash) baseline_not_published
    ok (bytes, hash)
  source_of s c _ current = do hash ← ok_or w.applied_doc_hash not_enrolled; ok (current, hash)

  -- The checks of the derived target against the account's history.
  unfoldable pub check_target : ReplacementSet → Derived → Result RecoveryError (Unit {0})
  check_target replacements derived = do
    guard (is_none_or (first replacements.zk_enrollment) (λ z. not (w.is_enrolled_id z.id)))
        enrollment_id_reused
    guard (none_revoked w.is_revoked derived.fingerprints) credential_revoked
    replaced ← fingerprints derived.replaced
    guard (replaced_credentials_leave replaced derived.fingerprints) replaced_credential_retained

  unfoldable pub begin :
      RecoveryAction → ReplacementSet → Entries → Result RecoveryError (ℕ × Entries)
  begin action replacements s = do
    c ← require_config s
    guard (not (is_some (authorized_live w.now s))) attempt_authorized
    hash ← or_err (replacements_hash w.sha256 w.to_xdr replacements) invalid_replacements
    guard
        (elim (is_some (zk c)) [
          | true ↦ length replacements.zk_enrollment == 1
          | false ↦ not (length replacements.zk_enrollment == 1)
        ])
        invalid_replacements
    current ← ok_or w.applied_doc not_enrolled
    source ← source_of s c action current
    derived ← ok_or (w.derive_target source.0 current action replacements) invalid_replacements
    check_target replacements derived
    let id = unwrap_or s.next_attempt 0
    next_id ← next u64_max id
    evidence_deadline ← add w.now c.expiry_ledgers
    timelock_end ← add evidence_deadline c.delay_ledgers
    cancel_until ← add timelock_end c.expiry_ledgers
    let attempt : Attempt = record {
      id = id;
      action = action;
      epoch = epoch_of s;
      created_at = w.now;
      evidence_deadline = evidence_deadline;
      cancel_until = cancel_until;
      authorized_at = 0;
      executable_after = 0;
      expires_at = 0;
      source_doc_hash = source.1;
      target_doc_hash = derived.doc_hash;
      target_bytes_hash = w.sha256 derived.canonical;
      target_config_hash = derived.config_hash;
      replacements_hash = hash;
      replaced = derived.replaced;
      state = collecting;
      guardians = [];
      zk_nullifier = none;
      cancel_guardians = [];
      cancel_zk = false;
    }
    ok (id, save w.now w.max_ttl attempt (record s { next_attempt = some next_id }))

  -- `view.rcv_gate(..)` under `Protected`, and nothing under `Loss`.
  unfoldable pub gate : CompiledRecoveryConfig → ℕ → ℕ → Entries → Result RecoveryError Entries
  gate c id until s =
      if is_protected c.profile
      then guard (w.accepts_gate id until) trapped
        >> ok (record s { gates = (id, until) ∷ s.gates })
      else ok s

  -- Whether a lost-key attempt's source is no longer what the account applies.
  unfoldable pub is_stale : Attempt → Bool
  is_stale a = is_lost_key a.action && not (opt_eq w.applied_doc_hash (some a.source_doc_hash))

  unfoldable pub promote :
      CompiledRecoveryConfig → Attempt → Entries → Result RecoveryError (Attempt × Entries)
  promote c a s = do
    guard (not (is_some (authorized_live w.now s))) attempt_authorized
    if is_stale a then ok (record a { state = invalidated }, s) else do
      executable_after ← add w.now c.delay_ledgers
      expires_at ← add executable_after c.expiry_ledgers
      let b = record a {
        state = authorized;
        authorized_at = w.now;
        executable_after = executable_after;
        expires_at = expires_at;
      }
      t ← gate c a.id expires_at (record s {
        invalidate_below = some (unwrap_or s.next_attempt 0);
        authorized = some a.id;
      })
      ok (b, t)

  -- The count of a cancellation.
  unfoldable pub count_cancel :
      CompiledRecoveryConfig → Bool → Entries → Result RecoveryError Entries
  count_cancel c counts s =
      if counts
      then guard (ltb (unwrap_or s.cancels 0) c.max_cancels) max_cancels_reached
        >> ok (record s { cancels = some (unwrap_or s.cancels 0 + 1) })
      else ok s

  unfoldable pub cancel_attempt :
      CompiledRecoveryConfig → Attempt → Bool → Entries → Result RecoveryError Entries
  cancel_attempt c a counted s = do
    t ← count_cancel c (counted && is_authorized a.state) s
    let saved = save w.now w.max_ttl (record a { state = cancelled }) t
    if is_authorized a.state then gate c a.id 0 (record saved { authorized = none }) else ok saved

  unfoldable pub after_evidence :
      CompiledRecoveryConfig → Attempt → EvidenceDomain → Entries → Result RecoveryError Entries
  after_evidence c a initiate s =
      if initiation_met c a
      then (promote c a s >>= (λ (b, t). ok (save w.now w.max_ttl b t)))
      else ok (save w.now w.max_ttl a s)
  after_evidence c a cancel s =
      if cancellation_met c a then cancel_attempt c a true s else ok (save w.now w.max_ttl a s)

  -- The document that an `apply_doc` of this account is called with.
  unfoldable pub target_of : Context → Option Bytes
  target_of (contract k) =
      if (k.contract == account) && list_eq k.fn_name apply_doc
      then and_then (first k.args) w.as_bytes
      else none
  target_of _ = none

  unfoldable pub authorize_completion : Context → Entries → Result RecoveryError Entries
  authorize_completion context s = do
    target ← ok_or (target_of context) wrong_target
    c ← require_config s
    a ← ok_or (authorized_live w.now s) attempt_not_live
    guard (not (ltb w.now a.executable_after)) not_executable_yet
    guard (w.sha256 target == a.target_bytes_hash) wrong_target
    ok (record s {
      completing =
          some (record { attempt_id = a.id; target_doc_hash = a.target_doc_hash; ledger = w.now });
    })

  -- The completion spends the nullifier of the initiation proof.
  unfoldable pub spend : Option Bytes32 → Entries → Result RecoveryError Entries
  spend none s = ok s
  spend (some n) s = do
    guard (not (s.nullifier n)) nullifier_spent
    ok (record s { nullifier = update s.nullifier n true })

  unfoldable pub complete :
      CompletionMarker
      → Option CompiledRecoveryConfig
      → Bytes32
      → Entries
      → Result RecoveryError (SyncOutcome × Entries)
  complete marker new doc_hash s = do
    a ← ok_or (authorized_live w.now s) attempt_not_live
    guard
        ((a.id == marker.attempt_id)
          && ((a.target_doc_hash == marker.target_doc_hash) && (doc_hash == a.target_doc_hash)))
        wrong_target
    n ← ok_or new wrong_target
    guard ((n.controller == w.here) && (n.config_hash == a.target_config_hash)) wrong_target
    t ← spend a.zk_nullifier s
    let saved = save w.now w.max_ttl (record a { state = completed }) t
    u ← store_config n (record saved { authorized = none })
    ok (SyncOutcome.completed (record { attempt_id = a.id; replaced = a.replaced }), u)
