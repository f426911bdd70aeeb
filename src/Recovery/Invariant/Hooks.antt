-- ===== src/Recovery/Invariant/Hooks.antt =====
-- crates/perch-recovery/src/contract.rs: the hooks, and the calls that record change evidence, keep the
-- entries sound.
use mathlib.Core.Path.{subst}
use perch.Common.{
  ℕ, ◌≤◌, Address, Bytes32, Bool, true, false, ◌&&◌, not, Option, none, some, List, ◌≡◌, refl, sym,
  ◌∙◌, ap, inl, inr, arith, is_some, ltb, ◌==◌, first, ok, ok_or, Ensures, Option-cases,
  if◌then◌else◌, >>=-Ensures, guard-Ensures, if-Ensures, Option-Ensures, Ensures-ok, ok_or-ok,
  Bool-cases, update,
}
use perch.Program.Leaf.{Context}
use perch.Recovery.Config.{CompiledRecoveryConfig, is_protected, zk}
use perch.Recovery.Statement.{upgrade_to, reconfigure_to}
use perch.Recovery.Types.{
  Attempt, completed, UpgradeStep, schedule, execute, SyncOutcome, CompletionMarker,
}
use perch.Recovery.World.{World, is_empty}
use perch.Recovery.State.{
  Entries, require_config, epoch_of, bump_epoch, store_config, load, load_live, is_live, save,
  authorized_live,
}
use perch.Recovery.Conditions.{require_condition, check_config, check_zk_wiring}
use perch.Recovery.Transitions.{authorize_completion, target_of, complete, spend}
use perch.Recovery.Entry.{
  is_collecting, ContextRule, enforce, assert_recovery_rule, rcv_sync, sync_normally, enroll,
  reconfigure, replace, here_now, change_to, is_current, rcv_cancel, rcv_upgrade, upgrade_step,
}
use perch.Recovery.Invariant.{Held, IsSound, some-injective}
use perch.Recovery.Invariant.Attempts.{Offered, save-IsSound, cancel_attempt-IsSound}
use perch.Recovery.Invariant.Calls.{bump_epoch-Ensures, live-Offered, is_live-epoch}

pub authorized_live-some :
    (now : ℕ) (s : Entries) (a : Attempt)
    → authorized_live now s ≡ some a
    → (id : ℕ) × (s.authorized ≡ some id) × (s.attempt id ≡ some a) × (is_live now s a ≡ true)
unfolding authorized_live
authorized_live-some now s a h = elim (Option-cases s.authorized) [
  | inl e ↦ absurd (ground (arith, e, h))
  | inr (id, e) ↦ elim (Option-cases (s.attempt id)) [
    | inl q ↦ absurd (ground (arith, e, q, h))
    | inr (b, q) ↦ elim (Bool-cases (is_live now s b)) [
      | inl l ↦
          let r : some b ≡ some a = ground (arith, e, q, l, h) in
          (id, e, q ∙ r, subst (λ x. is_live now s x ≡ true) (some-injective r) l)
      | inr l ↦ absurd (ground (arith, e, q, l, h))
    ]
  ]
]

-- An authorized attempt that is live, with the configuration that backs it.
pub authorized_live-Offered :
    (now : ℕ) (s : Entries) (a : Attempt)
    → IsSound s
    → authorized_live now s ≡ some a
    → (c : CompiledRecoveryConfig) × Offered s c a.id a a
      × (is_collecting a.state ≡ false)
      × Held s a.id a.executable_after
unfolding load
authorized_live-Offered now s a (k, v, m) h =
    let (id, e, q, l) = authorized_live-some now s a h in
    let (is, (lt, _, b)) = k id a (inl q) in
    let ep = is_live-epoch now s a l in
    let (c, cf, ev) = b ep in
    let (after, (x, qx, n, _)) = v id e in
    let same = some-injective (sym qx ∙ q) in
    let n' = subst (λ y. is_collecting y.state ≡ false) same n in
    let q' = ap s.attempt is ∙ q in
    (c, (ground (arith, q'), refl, (refl, λ p. (p, refl)), lt, ep, cf, ev), n', (a, q', n', refl))

module _ (w : World) (account : Address) where
  authorize_completion-IsSound :
      (context : Context) (s : Entries)
      → IsSound s
      → Ensures IsSound (authorize_completion w account context s)
  unfolding authorize_completion
  authorize_completion-IsSound context s (k, v, m) =
      >>=-Ensures IsSound (ok_or (target_of w account context) _) _ (λ target _.
        >>=-Ensures IsSound (require_config s) _ (λ c _.
          >>=-Ensures IsSound (ok_or (authorized_live w.now s) _) _ (λ a ha.
            guard-Ensures IsSound (not (ltb w.now a.executable_after)) _ _ (λ late.
              guard-Ensures IsSound (w.sha256 target == a.target_bytes_hash) _ _ (λ _.
                let (_, _, _, held) =
                  authorized_live-Offered w.now s a (k, v, m)
                    (ok_or-ok (authorized_live w.now s) _ a ha) in
                (
                  k,
                  v,
                  λ x e.
                      subst (λ x. (after : ℕ) × Held s x.attempt_id after × (after ≤ x.ledger))
                        (some-injective e) (a.executable_after, held, ground (arith, late)),
                ))))))

  pub enforce-IsSound :
      (context : Context) (signers : List ℕ) (rule : ContextRule) (s : Entries)
      → IsSound s
      → Ensures IsSound (enforce w account context signers rule s)
  unfolding enforce
  enforce-IsSound context signers rule s snd = guard-Ensures IsSound (w.auth account) _ _ (λ _.
      guard-Ensures IsSound (is_empty signers) _ _ (λ _.
        >>=-Ensures IsSound (assert_recovery_rule w account rule) _
          (λ _ _. authorize_completion-IsSound context s snd)))

  spend-Ensures :
      (P : Entries → Type 0) (n : Option Bytes32) (s : Entries)
      → ((f : Bytes32 → Bool) → P (record s { nullifier = f }))
      → Ensures P (spend w account n s)
  unfolding spend
  spend-Ensures P none s h = h s.nullifier
  spend-Ensures P (some n) s h =
      guard-Ensures P (not (s.nullifier n)) _ _ (λ _. h (update s.nullifier n true))

  abbrev pub Synced : SyncOutcome × Entries → Type 0
  Synced (o, s) = IsSound s

  complete-IsSound :
      (m : CompletionMarker) (new : Option CompiledRecoveryConfig) (doc_hash : Bytes32)
      (s : Entries)
      → IsSound s
      → Ensures Synced (complete w account m new doc_hash s)
  unfolding complete store_config load
  complete-IsSound m new doc_hash s snd =
      >>=-Ensures Synced (ok_or (authorized_live w.now s) _) _ (λ a ha.
        let (c, (l, _, _, lt, ep, cf, (d, h, _)), _, _) =
          authorized_live-Offered w.now s a snd (ok_or-ok (authorized_live w.now s) _ a ha) in
        guard-Ensures Synced
          ((a.id == m.attempt_id)
            && ((a.target_doc_hash == m.target_doc_hash) && (doc_hash == a.target_doc_hash)))
          _ _
          (λ _. >>=-Ensures Synced (ok_or new _) _ (λ n _.
            guard-Ensures Synced
              ((n.controller == w.here) && (n.config_hash == a.target_config_hash)) _ _
              (λ _. >>=-Ensures Synced (spend w account a.zk_nullifier s) _ (λ t ht.
                let b = record a { state = completed } in
                >>=-Ensures Synced
                  (store_config n (record (save w.now w.max_ttl b t) { authorized = none })) _
                  (λ u hu.
                    Ensures-ok IsSound
                      (store_config n (record (save w.now w.max_ttl b t) { authorized = none })) u
                      (Ensures-ok
                        (λ t. Ensures IsSound (
                          store_config n (record (save w.now w.max_ttl b t) { authorized = none })))
                        (spend w account a.zk_nullifier s) t
                        (spend-Ensures _ a.zk_nullifier s (λ f.
                          let (k, v, m) =
                            save-IsSound w account (record s { nullifier = f }) c a.id a b snd
                              (
                                l,
                                refl,
                                (refl, λ n. (refl, refl)),
                                lt,
                                ep,
                                cf,
                                (d, h, λ q. absurd cc),
                              ) in
                          bump_epoch-Ensures (save w.now w.max_ttl b (record s { nullifier = f }))
                            (some n) none k (λ i q. absurd cc) m))
                        ht)
                      hu))))))

  store-IsSound :
      (c : CompiledRecoveryConfig) (s : Entries) → IsSound s → Ensures IsSound (store_config c s)
  unfolding store_config
  store-IsSound c s (k, v, m) = bump_epoch-Ensures s (some c) s.authorized k v m

  enroll-IsSound :
      (new : Option CompiledRecoveryConfig) (s : Entries)
      → IsSound s
      → Ensures Synced (enroll w account new s)
  unfolding enroll
  enroll-IsSound none s snd = snd
  enroll-IsSound (some n) s snd = guard-Ensures Synced (n.controller == w.here) _ _ (λ _.
      >>=-Ensures Synced (check_config account n) _ (λ _ _.
        >>=-Ensures Synced (check_zk_wiring w account none (zk n)) _ (λ _ _.
          >>=-Ensures Synced (store_config n s) _
            (λ t e. Ensures-ok IsSound (store_config n s) t (store-IsSound n s snd) e))))

  replace-IsSound :
      (c : CompiledRecoveryConfig) (new : Option CompiledRecoveryConfig) (s : Entries)
      → IsSound s
      → Ensures Synced (replace w account c new s)
  unfolding replace
  replace-IsSound c (some n) s snd = >>=-Ensures Synced (check_config account n) _ (λ _ _.
      >>=-Ensures Synced (check_zk_wiring w account (zk c) (zk n)) _ (λ _ _.
        >>=-Ensures Synced (store_config n s) _
          (λ t e. Ensures-ok IsSound (store_config n s) t (store-IsSound n s snd) e)))
  replace-IsSound c none s (k, v, m) =
      >>=-Ensures Synced (bump_epoch (record s { config = none; authorized = none })) _ (λ t e.
        Ensures-ok IsSound (bump_epoch (record s { config = none; authorized = none })) t
          (bump_epoch-Ensures s none none k (λ i q. absurd cc) m) e)

  sync_normally-IsSound :
      (new : Option CompiledRecoveryConfig) (until : ℕ) (s : Entries)
      → IsSound s
      → Ensures Synced (sync_normally w account new until s)
  unfolding sync_normally reconfigure
  sync_normally-IsSound new until s snd =
      guard-Ensures Synced (not (is_some (authorized_live w.now s))) _ _ (λ _.
        Option-Ensures Synced s.config _ _ (enroll-IsSound new s snd) (λ stored _.
          if-Ensures Synced
            (elim (here_now w account new) [
              | none ↦ false
              | some n ↦ n.config_hash == stored.config_hash
            ])
            _ _ (λ _. snd)
            (λ _.
              >>=-Ensures Synced
                (if is_protected stored.profile
                  then require_condition w account s stored
                      (reconfigure_to (change_to w account new)) until
                  else ok tt)
                _ (λ _ _. replace-IsSound stored (here_now w account new) s snd))))

  pub rcv_sync-IsSound :
      (doc_hash : Bytes32) (recovery : List CompiledRecoveryConfig) (until : ℕ) (s : Entries)
      → IsSound s
      → Ensures Synced (rcv_sync w account doc_hash recovery until s)
  unfolding rcv_sync
  rcv_sync-IsSound doc_hash recovery until s (k, v, m) =
      guard-Ensures Synced (w.auth account) _ _ (λ _.
        let s1 = record s { completing = none } in
        let cleared : IsSound s1 = (k, v, λ x e. absurd cc) in
        Option-Ensures Synced s.completing _ _
          (sync_normally-IsSound (first recovery) until s (k, v, m))
          (λ x _.
            if-Ensures Synced (is_current w account x doc_hash s1) _ _
              (λ _. complete-IsSound x (first recovery) doc_hash s1 cleared)
              (λ _. sync_normally-IsSound (first recovery) until s1 cleared)))

  pub rcv_cancel-IsSound :
      (id : ℕ) (s : Entries) → IsSound s → Ensures IsSound (rcv_cancel w account id s)
  unfolding rcv_cancel
  rcv_cancel-IsSound id s snd = guard-Ensures IsSound (w.auth account) _ _ (λ _.
      >>=-Ensures IsSound (require_config s) _ (λ c hc.
        guard-Ensures IsSound (not (is_protected c.profile)) _ _ (λ _.
          >>=-Ensures IsSound (load_live w.now s id) _ (λ a ha.
            cancel_attempt-IsSound w account s c id a a false snd
              (live-Offered w.now s c id a snd (ok_or-ok s.config _ c hc) ha)))))

  abbrev pub Numbered : ℕ × Entries → Type 0
  Numbered (n, s) = IsSound s

  pub rcv_upgrade-IsSound :
      (step : UpgradeStep) (s : Entries)
      → IsSound s
      → Ensures Numbered (rcv_upgrade w account step s)
  unfolding rcv_upgrade upgrade_step
  rcv_upgrade-IsSound (schedule subject until) s snd =
      guard-Ensures Numbered (w.auth account) _ _ (λ _.
        >>=-Ensures Numbered (require_config s) _ (λ c _.
          guard-Ensures Numbered (not (is_some (authorized_live w.now s))) _ _ (λ _.
            >>=-Ensures Numbered
              (if is_protected c.profile
                then require_condition w account s c (upgrade_to subject) until
                else ok tt)
              _ (λ _ _. snd))))
  rcv_upgrade-IsSound (execute epoch) s (k, v, m) =
      guard-Ensures Numbered (w.auth account) _ _ (λ _.
        >>=-Ensures Numbered (require_config s) _ (λ c _.
          guard-Ensures Numbered (not (is_some (authorized_live w.now s))) _ _ (λ _.
            guard-Ensures Numbered (epoch == epoch_of s) _ _ (λ _.
              >>=-Ensures Numbered (bump_epoch s) _ (λ t e.
                Ensures-ok IsSound (bump_epoch s) t
                  (bump_epoch-Ensures s s.config s.authorized k v m) e)))))
