-- ===== src/Recovery/Invariant/Begin.antt =====
-- crates/perch-recovery/src/contract.rs: opening an attempt and authorizing a completion keep the
-- entries sound.
use perch.Common.{
  ℕ, ◌+◌, Address, true, false, not, some, ◌≡◌, refl, inl, arith, is_some, unwrap_or, ◌==◌, length,
  ok_or, Ensures, >>=-Ensures, guard-Ensures, ok_or-ok, u64_max,
}
use perch.Recovery.Config.{CompiledRecoveryConfig, zk}
use perch.Recovery.Statement.{RecoveryAction}
use perch.Recovery.Credential.{ReplacementSet, replacements_hash}
use perch.Recovery.Types.{Attempt}
use perch.Recovery.World.{World, next, add}
use perch.Recovery.State.{Entries, require_config, epoch_of, save, authorized_live}
use perch.Recovery.Transitions.{begin, source_of, check_target, or_err}
use perch.Recovery.Entry.{is_collecting}
use perch.Recovery.Invariant.{
  distinct, has_all, Evidence, Held, IsSound, save-Keyed, save-Marked, save-Window,
}
use perch.Recovery.Invariant.Calls.{next-eq}

module _ (w : World) (account : Address) where
  -- A collecting attempt without evidence, under the next id.
  opened-IsSound :
      (s : Entries) (c : CompiledRecoveryConfig) (a : Attempt) (n : ℕ)
      → IsSound s
      → s.config ≡ some c
      → a.id ≡ unwrap_or s.next_attempt 0
      → n ≡ unwrap_or s.next_attempt 0 + 1
      → a.epoch ≡ epoch_of s
      → Evidence c a
      → IsSound (save w.now w.max_ttl a (record s { next_attempt = some n }))
  opened-IsSound s c a n (k, v, m) cf id ns ep ev =
      let t = record s { next_attempt = some n } in
      let fresh : (after : ℕ)
          → Held t a.id after
          → (is_collecting a.state ≡ false) × (a.executable_after ≡ after) =
        λ after (b, e, _, _).
          let (same, (lt, _, _)) = k a.id b (inl e) in absurd (omega (arith, same, lt, id)) in
      (
        save-Keyed w.now w.max_ttl a t
            (λ i b h. let (e, (lt, le, g)) = k i b h in (e, (omega (arith, lt, ns), le, g)))
            (omega (arith, id, ns), omega (arith, ep), λ _. (c, cf, ev)),
        save-Window w.now w.max_ttl a t v fresh,
        save-Marked w.now w.max_ttl a t m fresh,
      )

  abbrev pub Second : ℕ × Entries → Type 0
  Second (n, s) = IsSound s

  pub begin-IsSound :
      (action : RecoveryAction) (r : ReplacementSet) (s : Entries)
      → IsSound s
      → Ensures Second (begin w account action r s)
  unfolding begin distinct has_all
  begin-IsSound action r s snd = >>=-Ensures Second (require_config s) _ (λ c hc.
      guard-Ensures Second (not (is_some (authorized_live w.now s))) _ _ (λ _.
        >>=-Ensures Second (or_err (replacements_hash w.sha256 w.to_xdr r) _) _ (λ hash _.
          guard-Ensures Second
            (elim (is_some (zk c)) [
              | true ↦ length r.zk_enrollment == 1
              | false ↦ not (length r.zk_enrollment == 1)
            ])
            _ _
            (λ _. >>=-Ensures Second (ok_or w.applied_doc _) _ (λ current _.
              >>=-Ensures Second (source_of w account s c action current) _ (λ source _.
                >>=-Ensures Second (ok_or (w.derive_target source.0 current action r) _) _
                  (λ derived _. >>=-Ensures Second (check_target w account r derived) _ (λ _ _.
                    >>=-Ensures Second (next u64_max (unwrap_or s.next_attempt 0)) _ (λ n hn.
                      >>=-Ensures Second (add w.now c.expiry_ledgers) _ (λ deadline _.
                        >>=-Ensures Second (add deadline c.delay_ledgers) _ (λ timelock _.
                          >>=-Ensures Second (add timelock c.expiry_ledgers) _ (λ until _.
                            opened-IsSound s c _ n snd (ok_or-ok s.config _ c hc) refl
                              (next-eq u64_max (unwrap_or s.next_attempt 0) n hn) refl
                              (refl, (λ set e. refl), λ q. absurd cc)))))))))))))
