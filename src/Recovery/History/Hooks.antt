-- ===== src/Recovery/History/Hooks.antt =====
-- crates/perch-recovery/src/contract.rs: the hooks and the calls that record change evidence.
use perch.Common.{
  ℕ, Address, Bytes32, false, ◌&&◌, not, Option, none, some, List, refl, inl, inr, arith, is_some,
  ltb, ◌==◌, first, if◌then◌else◌, ok, ok_or, ok_or-ok, Ensures, Ensures-ok, >>=-Ensures,
  guard-Ensures, if-Ensures, Option-Ensures, Bool-cases,
}
use perch.Program.Leaf.{Context}
use perch.Recovery.Config.{CompiledRecoveryConfig, is_protected, zk}
use perch.Recovery.Statement.{upgrade_to, reconfigure_to}
use perch.Recovery.Types.{completed, UpgradeStep, schedule, execute, SyncOutcome, CompletionMarker}
use perch.Recovery.World.{World, is_empty}
use perch.Recovery.State.{
  Entries, epoch_of, bump_epoch, store_config, load_live, save, authorized_live,
}
use perch.Recovery.Conditions.{require_condition, check_config, check_zk_wiring}
use perch.Recovery.Transitions.{authorize_completion, target_of, complete, spend}
use perch.Recovery.Entry.{
  ContextRule, enforce, assert_recovery_rule, rcv_sync, sync_normally, enroll, reconfigure, replace,
  here_now, change_to, is_current, rcv_cancel, rcv_upgrade, upgrade_step,
}
use perch.Recovery.History.{Later, Later-self, bump_epoch-Later}
use perch.Recovery.History.Attempts.{cancel_attempt-Later, Second}

module _ (w : World) (account : Address) where
  abbrev pub Outcome : Entries → SyncOutcome × Entries → Type 0
  Outcome s (o, t) = Later s t

  pub enforce-Later :
      (context : Context) (signers : List ℕ) (rule : ContextRule) (s : Entries)
      → Ensures (Later s) (enforce w account context signers rule s)
  unfolding enforce authorize_completion
  enforce-Later context signers rule s = guard-Ensures (Later s) (w.auth account) _ _ (λ _.
      guard-Ensures (Later s) (is_empty signers) _ _ (λ _.
        >>=-Ensures (Later s) (assert_recovery_rule w account rule) _ (λ _ _.
          >>=-Ensures (Later s) (ok_or (target_of w account context) _) _ (λ target _.
            >>=-Ensures (Later s) (ok_or s.config _) _ (λ c _.
              >>=-Ensures (Later s) (ok_or (authorized_live w.now s) _) _ (λ a _.
                guard-Ensures (Later s) (not (ltb w.now a.executable_after)) _ _ (λ _.
                  guard-Ensures (Later s) (w.sha256 target == a.target_bytes_hash) _ _
                    (λ _. Later-self s))))))))

  spend-Later : (n : Option Bytes32) (s : Entries) → Ensures (Later s) (spend w account n s)
  unfolding spend
  spend-Later none s = Later-self s
  spend-Later (some n) s = guard-Ensures (Later s) (not (s.nullifier n)) _ _ (λ _. (
    omega arith,
    omega arith,
    (λ m h. elim (Bool-cases (n == m)) [
      | inl e ↦ ground (arith, e)
      | inr e ↦ ground (arith, e, h)
    ]),
    inl refl,
  ))

  store-Later :
      (c : CompiledRecoveryConfig) (s t : Entries)
      → Later s t
      → Ensures (Later s) (store_config c t)
  unfolding store_config
  store-Later c s t h = bump_epoch-Later s (record t { config = some c }) h

  complete-Later :
      (m : CompletionMarker) (new : Option CompiledRecoveryConfig) (doc_hash : Bytes32)
      (s : Entries)
      → Ensures (Outcome s) (complete w account m new doc_hash s)
  unfolding complete save
  complete-Later m new doc_hash s =
      let P = Outcome s in
      >>=-Ensures P (ok_or (authorized_live w.now s) _) _ (λ a _.
        guard-Ensures P
          ((a.id == m.attempt_id)
            && ((a.target_doc_hash == m.target_doc_hash) && (doc_hash == a.target_doc_hash)))
          _ _
          (λ _. >>=-Ensures P (ok_or new _) _ (λ n _.
            guard-Ensures P ((n.controller == w.here) && (n.config_hash == a.target_config_hash)) _
              _
              (λ _. >>=-Ensures P (spend w account a.zk_nullifier s) _ (λ t ht.
                let later =
                  Ensures-ok (Later s) (spend w account a.zk_nullifier s) t
                    (spend-Later a.zk_nullifier s) ht in
                let saved = record (save w.now w.max_ttl (record a { state = completed }) t) {
                  authorized = none;
                } in
                >>=-Ensures P (store_config n saved) _ (λ u hu.
                  Ensures-ok (Later s) (store_config n saved) u (store-Later n s saved later)
                    hu))))))

  enroll-Later :
      (new : Option CompiledRecoveryConfig) (s : Entries)
      → Ensures (Outcome s) (enroll w account new s)
  unfolding enroll
  enroll-Later none s = Later-self s
  enroll-Later (some n) s = guard-Ensures (Outcome s) (n.controller == w.here) _ _ (λ _.
      >>=-Ensures (Outcome s) (check_config account n) _ (λ _ _.
        >>=-Ensures (Outcome s) (check_zk_wiring w account none (zk n)) _ (λ _ _.
          >>=-Ensures (Outcome s) (store_config n s) _ (λ t h.
            Ensures-ok (Later s) (store_config n s) t (store-Later n s s (Later-self s)) h))))

  replace-Later :
      (c : CompiledRecoveryConfig) (new : Option CompiledRecoveryConfig) (s : Entries)
      → Ensures (Outcome s) (replace w account c new s)
  unfolding replace
  replace-Later c (some n) s = >>=-Ensures (Outcome s) (check_config account n) _ (λ _ _.
      >>=-Ensures (Outcome s) (check_zk_wiring w account (zk c) (zk n)) _ (λ _ _.
        >>=-Ensures (Outcome s) (store_config n s) _
          (λ t h. Ensures-ok (Later s) (store_config n s) t (store-Later n s s (Later-self s)) h)))
  replace-Later c none s =
      let cleared = record s { config = none; authorized = none } in
      >>=-Ensures (Outcome s) (bump_epoch cleared) _ (λ t h.
        Ensures-ok (Later s) (bump_epoch cleared) t (bump_epoch-Later s cleared (Later-self s)) h)

  sync_normally-Later :
      (new : Option CompiledRecoveryConfig) (until : ℕ) (s : Entries)
      → Ensures (Outcome s) (sync_normally w account new until s)
  unfolding sync_normally reconfigure
  sync_normally-Later new until s =
      guard-Ensures (Outcome s) (not (is_some (authorized_live w.now s))) _ _ (λ _.
        Option-Ensures (Outcome s) s.config _ _ (enroll-Later new s) (λ stored _.
          if-Ensures (Outcome s)
            (elim (here_now w account new) [
              | none ↦ false
              | some n ↦ n.config_hash == stored.config_hash
            ])
            _ _ (λ _. Later-self s)
            (λ _.
              >>=-Ensures (Outcome s)
                (if is_protected stored.profile
                  then require_condition w account s stored
                      (reconfigure_to (change_to w account new)) until
                  else ok tt)
                _ (λ _ _. replace-Later stored (here_now w account new) s))))

  pub rcv_sync-Later :
      (doc_hash : Bytes32) (recovery : List CompiledRecoveryConfig) (until : ℕ) (s : Entries)
      → Ensures (Outcome s) (rcv_sync w account doc_hash recovery until s)
  unfolding rcv_sync
  rcv_sync-Later doc_hash recovery until s = guard-Ensures (Outcome s) (w.auth account) _ _ (λ _.
      let s1 = record s { completing = none } in
      Option-Ensures (Outcome s) s.completing _ _ (sync_normally-Later (first recovery) until s)
        (λ m _.
          if-Ensures (Outcome s) (is_current w account m doc_hash s1) _ _
            (λ _. complete-Later m (first recovery) doc_hash s1)
            (λ _. sync_normally-Later (first recovery) until s1)))

  pub rcv_cancel-Later : (id : ℕ) (s : Entries) → Ensures (Later s) (rcv_cancel w account id s)
  unfolding rcv_cancel
  rcv_cancel-Later id s = guard-Ensures (Later s) (w.auth account) _ _ (λ _.
      >>=-Ensures (Later s) (ok_or s.config _) _ (λ c hc.
        guard-Ensures (Later s) (not (is_protected c.profile)) _ _ (λ _.
          >>=-Ensures (Later s) (load_live w.now s id) _
            (λ a _. cancel_attempt-Later w account s c a false (ok_or-ok s.config _ c hc)))))

  upgrade_step-Later :
      (step : UpgradeStep) (c : CompiledRecoveryConfig) (s : Entries)
      → Ensures (Second w account s) (upgrade_step w account c step s)
  unfolding upgrade_step
  upgrade_step-Later (schedule subject until) c s =
      >>=-Ensures (Second w account s)
        (if is_protected c.profile
          then require_condition w account s c (upgrade_to subject) until
          else ok tt)
        _ (λ _ _. Later-self s)
  upgrade_step-Later (execute epoch) c s =
      guard-Ensures (Second w account s) (epoch == epoch_of s) _ _ (λ _.
        >>=-Ensures (Second w account s) (bump_epoch s) _
          (λ t h. Ensures-ok (Later s) (bump_epoch s) t (bump_epoch-Later s s (Later-self s)) h))

  pub rcv_upgrade-Later :
      (step : UpgradeStep) (s : Entries)
      → Ensures (Second w account s) (rcv_upgrade w account step s)
  unfolding rcv_upgrade
  rcv_upgrade-Later step s =
      let P = Second w account s in
      guard-Ensures P (w.auth account) _ _ (λ _. >>=-Ensures P (ok_or s.config _) _ (λ c _.
        guard-Ensures P (not (is_some (authorized_live w.now s))) _ _
          (λ _. upgrade_step-Later step c s)))
