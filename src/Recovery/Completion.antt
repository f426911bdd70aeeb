-- ===== src/Recovery/Completion.antt =====
-- crates/perch-recovery/src/contract.rs, T5: what a completing `rcv_sync` has checked and does.
use perch.Common.{
  ℕ, ◌+◌, Address, Bytes32, Bool, true, false, ◌&&◌, not, Option, none, some, List, ◌==◌, ◌≡◌, refl,
  sym, ◌∙◌, ap, arith, ◌⊎◌, inl, inr, is_some, first, if◌then◌else◌, ok, ok_or, Ensures,
  >>=-Ensures, guard-Ensures, if-Ensures, Option-Ensures, Ensures-ok, Ensures-map, ok_or-ok,
  u64_max,
}
use perch.Recovery.Config.{CompiledRecoveryConfig, is_protected, zk}
use perch.Recovery.Statement.{reconfigure_to}
use perch.Recovery.Types.{Attempt, completed, CompletionMarker, SyncOutcome}
use perch.Recovery.World.{World, next}
use perch.Recovery.State.{Entries, epoch_of, bump_epoch, store_config, save, authorized_live}
use perch.Recovery.Conditions.{check_config, check_zk_wiring, require_condition}
use perch.Recovery.Transitions.{complete, spend}
use perch.Recovery.Entry.{
  rcv_sync, sync_normally, enroll, reconfigure, replace, here_now, change_to, is_current,
}
use perch.Recovery.Invariant.{Stored, save-Stored, some-injective}
use perch.Recovery.Invariant.Calls.{next-eq}

abbrev pub is_completion : SyncOutcome → Bool
is_completion (SyncOutcome.completed k) = true
is_completion _ = false

module _ (w : World) (account : Address) where
  -- The nullifier of the attempt goes from unspent to spent.
  abbrev pub Spent : Option Bytes32 → Entries → Entries → Type 0
  Spent n s t = (m : Bytes32) → n ≡ some m → (s.nullifier m ≡ false) × (t.nullifier m ≡ true)

  -- A completion of an attempt that is authorized and live, into the entries after it.
  abbrev pub Completes :
      Entries → Option CompiledRecoveryConfig → Bytes32 → Attempt → SyncOutcome → Entries → Type 0
  Completes s new doc_hash a o t =
      (authorized_live w.now s ≡ some a)
      × (o ≡ SyncOutcome.completed (record { attempt_id = a.id; replaced = a.replaced }))
      × (doc_hash ≡ a.target_doc_hash)
      × ((n : CompiledRecoveryConfig) × (new ≡ some n)
          × (n.controller ≡ w.here)
          × (n.config_hash ≡ a.target_config_hash)
          × (t.config ≡ some n))
      × (epoch_of t ≡ epoch_of s + 1)
      × (t.authorized ≡ none)
      × Spent a.zk_nullifier s t
      × ((i : ℕ) (b : Attempt) → Stored t i b → (b.epoch ≡ a.epoch) ⊎ Stored s i b)

  spend-Ensures :
      (n : Option Bytes32) (s : Entries)
      → Ensures
          (λ t.
            (epoch_of t ≡ epoch_of s)
            × Spent n s t
            × ((i : ℕ) (b : Attempt) → Stored t i b → Stored s i b))
          (spend w account n s)
  unfolding spend
  spend-Ensures none s = (refl, (λ m e. absurd cc), λ i b o. o)
  spend-Ensures (some n) s = guard-Ensures _ (not (s.nullifier n)) _ _ (λ f.
      (refl, (λ m e. let q : n ≡ m = cc in (ground (arith, f, q), ground (arith, q))), λ i b o. o))

  bump_epoch-eq :
      (s : Entries)
      → Ensures
          (λ t.
            (epoch_of t ≡ epoch_of s + 1)
            × (t.config ≡ s.config)
            × (t.authorized ≡ s.authorized)
            × (t.nullifier ≡ s.nullifier)
            × ((i : ℕ) (b : Attempt) → Stored t i b → Stored s i b))
          (bump_epoch s)
  unfolding bump_epoch
  bump_epoch-eq s =
      >>=-Ensures _ (next u64_max (epoch_of s)) _
        (λ n e. (next-eq u64_max (epoch_of s) n e, refl, refl, refl, λ i b o. o))

  pub complete-Completes :
      (m : CompletionMarker) (new : Option CompiledRecoveryConfig) (doc_hash : Bytes32)
      (s : Entries)
      → Ensures
          (λ (o, t). (a : Attempt) × (a.id ≡ m.attempt_id) × Completes s new doc_hash a o t)
          (complete w account m new doc_hash s)
  unfolding complete store_config save
  complete-Completes m new doc_hash s =
      let P : SyncOutcome × Entries → Type 0 =
        λ (o, t). (a : Attempt) × (a.id ≡ m.attempt_id) × Completes s new doc_hash a o t in
      >>=-Ensures P (ok_or (authorized_live w.now s) _) _ (λ a ha.
        guard-Ensures P
          ((a.id == m.attempt_id)
            && ((a.target_doc_hash == m.target_doc_hash) && (doc_hash == a.target_doc_hash)))
          _ _
          (λ same. >>=-Ensures P (ok_or new _) _ (λ n hn.
            guard-Ensures P ((n.controller == w.here) && (n.config_hash == a.target_config_hash)) _
              _
              (λ right. >>=-Ensures P (spend w account a.zk_nullifier s) _ (λ t ht.
                >>=-Ensures P
                  (store_config n
                    (record (save w.now w.max_ttl (record a { state = completed }) t) {
                      authorized = none;
                    }))
                  _
                  (λ u hu.
                    let (et, sp, st) =
                      Ensures-ok _ (spend w account a.zk_nullifier s) t
                        (spend-Ensures a.zk_nullifier s) ht in
                    let (eu, cf, au, nu, su) =
                      Ensures-ok _
                        (store_config n
                          (record (save w.now w.max_ttl (record a { state = completed }) t) {
                            authorized = none;
                          }))
                        u (bump_epoch-eq _) hu in
                    (
                      a,
                      ground (arith, same),
                      (
                        ok_or-ok (authorized_live w.now s) _ a ha,
                        refl,
                        ground (arith, same),
                        (n, ok_or-ok new _ n hn, ground (arith, right), ground (arith, right), cf),
                        eu ∙ ap (λ x. x + 1) et,
                        au,
                        (λ k e. ((sp k e).0, ap (λ f. f k) nu ∙ (sp k e).1)),
                        λ i b o.
                            elim (save-Stored w.now w.max_ttl (record a { state = completed }) t i b
                              (su i b o)) [
                                | inl (_, q) ↦ inl (ap (λ x. x.epoch) (sym (some-injective q)))
                                | inr q ↦ inr (st i b q)
                              ],
                      ),
                    )))))))

  abbrev NoCompletion : SyncOutcome × Entries → Type 0
  NoCompletion (o, t) = is_completion o ≡ false

  enroll-NoCompletion :
      (new : Option CompiledRecoveryConfig) (s : Entries)
      → Ensures NoCompletion (enroll w account new s)
  unfolding enroll
  enroll-NoCompletion none s = refl
  enroll-NoCompletion (some n) s = guard-Ensures NoCompletion (n.controller == w.here) _ _ (λ _.
      >>=-Ensures NoCompletion (check_config account n) _ (λ _ _.
        >>=-Ensures NoCompletion (check_zk_wiring w account none (zk n)) _
          (λ _ _. >>=-Ensures NoCompletion (store_config n s) _ (λ t _. refl))))

  replace-NoCompletion :
      (c : CompiledRecoveryConfig) (new : Option CompiledRecoveryConfig) (s : Entries)
      → Ensures NoCompletion (replace w account c new s)
  unfolding replace
  replace-NoCompletion c (some n) s = >>=-Ensures NoCompletion (check_config account n) _ (λ _ _.
      >>=-Ensures NoCompletion (check_zk_wiring w account (zk c) (zk n)) _
        (λ _ _. >>=-Ensures NoCompletion (store_config n s) _ (λ t _. refl)))
  replace-NoCompletion c none s =
      >>=-Ensures NoCompletion (bump_epoch (record s { config = none; authorized = none })) _
        (λ t _. refl)

  sync_normally-NoCompletion :
      (new : Option CompiledRecoveryConfig) (until : ℕ) (s : Entries)
      → Ensures NoCompletion (sync_normally w account new until s)
  unfolding sync_normally reconfigure
  sync_normally-NoCompletion new until s =
      guard-Ensures NoCompletion (not (is_some (authorized_live w.now s))) _ _ (λ _.
        Option-Ensures NoCompletion s.config _ _ (enroll-NoCompletion new s) (λ stored _.
          if-Ensures NoCompletion
            (elim (here_now w account new) [
              | none ↦ false
              | some n ↦ n.config_hash == stored.config_hash
            ])
            _ _ (λ _. refl)
            (λ _.
              >>=-Ensures NoCompletion
                (if is_protected stored.profile
                  then require_condition w account s stored
                      (reconfigure_to (change_to w account new)) until
                  else ok tt)
                _ (λ _ _. replace-NoCompletion stored (here_now w account new) s))))

  -- A completing `rcv_sync` found a marker of this ledger, which it clears before it completes.
  pub rcv_sync-Completes :
      (doc_hash : Bytes32) (recovery : List CompiledRecoveryConfig) (until : ℕ) (s t : Entries)
      (o : SyncOutcome)
      → rcv_sync w account doc_hash recovery until s ≡ ok (o, t)
      → is_completion o ≡ true
      → (m : CompletionMarker) × (s.completing ≡ some m)
        × (m.ledger ≡ w.now)
        × ((a : Attempt) × (a.id ≡ m.attempt_id)
            × Completes (record s { completing = none }) (first recovery) doc_hash a o t)
  unfolding rcv_sync is_current
  rcv_sync-Completes doc_hash recovery until s t o h is =
      let s1 = record s { completing = none } in
      let P : SyncOutcome × Entries → Type 0 = λ (o, t).
        is_completion o ≡ true
        → (m : CompletionMarker) × (s.completing ≡ some m)
          × (m.ledger ≡ w.now)
          × ((a : Attempt) × (a.id ≡ m.attempt_id)
              × Completes s1 (first recovery) doc_hash a o t) in
      let weaken : (x : Entries) → Ensures P (sync_normally w account (first recovery) until x) =
        λ x.
          Ensures-map NoCompletion P (sync_normally w account (first recovery) until x)
            (λ r n is. absurd (ground (arith, n, is)))
            (sync_normally-NoCompletion (first recovery) until x) in
      Ensures-ok P (rcv_sync w account doc_hash recovery until s) (o, t)
        (guard-Ensures P (w.auth account) _ _ (λ _.
          Option-Ensures P s.completing _ _ (weaken s) (λ m e.
            if-Ensures P (is_current w account m doc_hash s1) _ _
              (λ cur.
                Ensures-map
                  (λ (o, t).
                    (a : Attempt) × (a.id ≡ m.attempt_id)
                    × Completes s1 (first recovery) doc_hash a o t)
                  P (complete w account m (first recovery) doc_hash s1)
                  (λ r k _. (m, e, ground (arith, cur), k))
                  (complete-Completes m (first recovery) doc_hash s1))
              (λ _. weaken s1))))
        h is
