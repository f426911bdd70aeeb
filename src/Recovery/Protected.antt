-- ===== src/Recovery/Protected.antt =====
-- crates/perch-recovery/src/contract.rs, `rcv_sync` and `rcv_upgrade` of a `Protected` account.
use mathlib.Core.Path.{subst}
use perch.Common.{
  ℕ, Address, Bytes32, Bool, true, false, not, Option, none, some, List, first, ◌==◌, ◌≡◌, sym,
  arith, is_some, if◌then◌else◌, ok, Ensures, Ensures-map, Ensures-all, not_some-none, >>=-Ensures,
  guard-Ensures, if-Ensures, Option-Ensures, Ensures-ok,
}
use perch.Recovery.Config.{CompiledRecoveryConfig, is_protected}
use perch.Recovery.Statement.{reconfigure_to}
use perch.Recovery.Types.{ChangeApproval, SyncOutcome, CompletionMarker}
use perch.Recovery.World.{World}
use perch.Recovery.State.{Entries, epoch_of, is_live, authorized_live}
use perch.Recovery.Conditions.Quorum.{MeetsCondition, require_condition-ok}
use perch.Recovery.Conditions.{
  statement, digest, check_fresh, change_statement_for, require_condition,
}
use perch.Recovery.Transitions.{complete}
use perch.Recovery.Entry.{
  rcv_sync, sync_normally, enroll, reconfigure, replace, here_now, change_to, is_current,
}
use perch.Recovery.Completion.{complete-Completes}

abbrev pub changes_config : SyncOutcome → Bool
changes_config SyncOutcome.reconfigured = true
changes_config SyncOutcome.removed = true
changes_config _ = false

module _ (w : World) (account : Address) where
  -- No attempt was in its window, and the condition held if the configuration is protected.
  abbrev pub Guarded :
      Entries
      → CompiledRecoveryConfig
      → Option CompiledRecoveryConfig
      → ℕ
      → SyncOutcome × Entries
      → Type 0
  Guarded s c new until (o, t) =
      changes_config o ≡ true
      → (authorized_live w.now s ≡ none)
        × (is_protected c.profile ≡ true
            → require_condition w account s c (reconfigure_to (change_to w account new)) until
              ≡ ok tt)

  reconfigure-Guarded :
      (s : Entries) (c : CompiledRecoveryConfig) (new : Option CompiledRecoveryConfig) (until : ℕ)
      → authorized_live w.now s ≡ none
      → Ensures (Guarded s c new until) (reconfigure w account c new until s)
  unfolding reconfigure
  reconfigure-Guarded s c new until free =
      let P = Guarded s c new until in
      if-Ensures P
        (elim (here_now w account new) [ none ↦ false | some n ↦ n.config_hash == c.config_hash ]) _
        _ (λ _ is. absurd cc)
        (λ _.
          >>=-Ensures P
            (if is_protected c.profile
              then require_condition w account s c (reconfigure_to (change_to w account new)) until
              else ok tt)
            _
            (λ _ met.
              let g : (r : SyncOutcome × Entries) → P r =
                λ r _. (free, λ p. ground (arith, p, met)) in
              Ensures-all P (replace w account c (here_now w account new) s) g))

  sync_normally-Guarded :
      (s : Entries) (c : CompiledRecoveryConfig) (new : Option CompiledRecoveryConfig) (until : ℕ)
      → s.config ≡ some c
      → Ensures (Guarded s c new until) (sync_normally w account new until s)
  unfolding sync_normally
  sync_normally-Guarded s c new until e =
      let P = Guarded s c new until in
      guard-Ensures P (not (is_some (authorized_live w.now s))) _ _ (λ free.
        let q : authorized_live w.now s ≡ none = not_some-none (authorized_live w.now s) free in
        subst
          (λ o. Ensures P (elim o [
            | none ↦ enroll w account new s
            | some stored ↦ reconfigure w account stored new until s
          ]))
          (sym e) (reconfigure-Guarded s c new until q))

  complete-Guarded :
      (s s1 : Entries) (c : CompiledRecoveryConfig) (new : Option CompiledRecoveryConfig)
      (until : ℕ) (m : CompletionMarker) (doc_hash : Bytes32)
      → Ensures (Guarded s c new until) (complete w account m new doc_hash s1)
  complete-Guarded s s1 c new until m doc_hash =
      Ensures-map _ (Guarded s c new until) (complete w account m new doc_hash s1)
        (λ (o, t) (a, _, (_, e, _, _, _, _, _, _)) h. absurd (ground (arith, e, h)))
        (complete-Completes w account m new doc_hash s1)

  rcv_sync-Guarded :
      (s : Entries) (c : CompiledRecoveryConfig) (doc_hash : Bytes32)
      (recovery : List CompiledRecoveryConfig) (until : ℕ)
      → s.config ≡ some c
      → Ensures (Guarded s c (first recovery) until) (rcv_sync w account doc_hash recovery until s)
  unfolding rcv_sync authorized_live is_live require_condition change_statement_for
  rcv_sync-Guarded s c doc_hash recovery until e =
      let P = Guarded s c (first recovery) until in
      let s1 = record s { completing = none } in
      guard-Ensures P (w.auth account) _ _ (λ _.
        Option-Ensures P s.completing _ _ (sync_normally-Guarded s c (first recovery) until e)
          (λ m _.
            if-Ensures P (is_current w account m doc_hash s1) _ _
              (λ _. complete-Guarded s s1 c (first recovery) until m doc_hash)
              (λ _. sync_normally-Guarded s1 c (first recovery) until e)))

-- A `rcv_sync` that replaces or removes a stored configuration runs while no attempt is authorized and
-- live. When the profile is `Protected`, the statement of this very change, which names the current
-- epoch, passes the freshness check, and the record under its digest meets the stored configuration's
-- condition: the quorum among its guardians, and the proof if it has that factor.
pub rcv_sync-protected :
    (w : World) (account : Address) (s t : Entries) (c : CompiledRecoveryConfig)
    (doc_hash : Bytes32) (recovery : List CompiledRecoveryConfig) (until : ℕ) (o : SyncOutcome)
    → s.config ≡ some c
    → rcv_sync w account doc_hash recovery until s ≡ ok (o, t)
    → changes_config o ≡ true
    → (authorized_live w.now s ≡ none)
      × (is_protected c.profile ≡ true
          → (check_fresh w account (
                statement w account c
                  (epoch_of s)
                  until
                  (reconfigure_to (change_to w account (first recovery))))
              ≡ ok tt)
            × (d : Bytes32) × (r : ChangeApproval) × (digest w account (
                  statement w account c
                    (epoch_of s)
                    until
                    (reconfigure_to (change_to w account (first recovery))))
                ≡ ok d)
            × (s.approval d ≡ some r)
            × MeetsCondition c r)
rcv_sync-protected w account s t c doc_hash recovery until o e h change =
    let (free, met) =
      Ensures-ok (Guarded w account s c (first recovery) until)
        (rcv_sync w account doc_hash recovery until s) (o, t)
        (rcv_sync-Guarded w account s c doc_hash recovery until e) h change in
    (
      free,
      λ p.
          let (held, fresh, (d, r, digested, stored, meets)) =
            require_condition-ok w account s c
              (reconfigure_to (change_to w account (first recovery))) until (met p) in
          (fresh, d, r, digested, stored, meets),
    )
