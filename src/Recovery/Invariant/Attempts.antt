-- ===== src/Recovery/Invariant/Attempts.antt =====
-- crates/perch-recovery/src/contract.rs: saving, promoting and cancelling an attempt keep the
-- entries sound.
use mathlib.Core.Path.{subst}
use perch.Common.{
  ℕ, ◌+◌, ◌<◌, Address, Bool, true, false, ◌&&◌, not, Option, none, some, List, ◌∷◌, ◌≡◌, refl, ◌∙◌,
  inl, inr, arith, is_some, unwrap_or, leb, ltb, Bool-cases, if◌then◌else◌, ok, Ensures,
  >>=-Ensures, guard-Ensures, if-Ensures, Ensures-ok, u32_max,
}
use perch.Recovery.Config.{CompiledRecoveryConfig, is_protected}
use perch.Recovery.Types.{
  Attempt, authorized, invalidated, cancelled, EvidenceDomain, initiate, cancel,
}
use perch.Recovery.World.{World, add}
use perch.Recovery.State.{Entries, epoch_of, load, save, authorized_live}
use perch.Recovery.Conditions.{initiation_met, cancellation_met}
use perch.Recovery.Transitions.{
  is_authorized, gate, promote, count_cancel, cancel_attempt, after_evidence, is_stale,
}
use perch.Recovery.Entry.{is_collecting}
use perch.Recovery.Invariant.{
  Evidence, Proper, Held, IsSound, Kept, save-Keyed, save-Marked, save-Window,
  save-Window_authorized, load-Held,
}

-- An attempt that a call has loaded and given evidence, under the stored configuration.
abbrev pub Offered : Entries → CompiledRecoveryConfig → ℕ → Attempt → Attempt → Type 0
Offered s c i a b =
    (load s i ≡ some a)
    × (a.id ≡ i)
    × Kept a b
    × (b.id < unwrap_or s.next_attempt 0)
    × (b.epoch ≡ epoch_of s)
    × (s.config ≡ some c)
    × Evidence c b

module _ (w : World) (account : Address) where
  -- What a held attempt with the loaded one's key keeps.
  offered-Held :
      (s : Entries) (i : ℕ) (a b : Attempt)
      → load s i ≡ some a
      → a.id ≡ i
      → Kept a b
      → (after : ℕ) → Held s b.id after
      → (is_collecting b.state ≡ false) × (b.executable_after ≡ after)
  offered-Held s i a b l e k after h =
      let (n, x) = load-Held s i after a (subst (λ j. Held s j after) (k.0 ∙ e) h) l in
      ((k.1 n).0, (k.1 n).1 ∙ x)

  Offered-Proper :
      (s : Entries) (c : CompiledRecoveryConfig) (i : ℕ) (a b : Attempt)
      → Offered s c i a b
      → Proper s b
  Offered-Proper s c i a b (l, e, k, lt, ep, cf, ev) = (lt, omega (arith, ep), λ _. (c, cf, ev))

  pub save-IsSound :
      (s : Entries) (c : CompiledRecoveryConfig) (i : ℕ) (a b : Attempt)
      → IsSound s
      → Offered s c i a b
      → IsSound (save w.now w.max_ttl b s)
  save-IsSound s c i a b (k, v, m) o =
      let held = offered-Held s i a b o.0 o.1 o.2 in
      (
        save-Keyed w.now w.max_ttl b s k (Offered-Proper s c i a b o),
        save-Window w.now w.max_ttl b s v held,
        save-Marked w.now w.max_ttl b s m held,
      )

  gate-Ensures :
      (P : Entries → Type 0) (c : CompiledRecoveryConfig) (id until : ℕ) (s : Entries)
      → ((g : List (ℕ × ℕ)) → P (record s { gates = g }))
      → Ensures P (gate w account c id until s)
  unfolding gate
  gate-Ensures P c id until s h =
      if-Ensures P (is_protected c.profile) _ _
        (λ _. guard-Ensures P (w.accepts_gate id until) _ _ (λ _. h ((id, until) ∷ s.gates)))
        (λ _. h s.gates)

  add-eq : (a b d : ℕ) → add a b ≡ ok d → d ≡ a + b
  unfolding add
  add-eq a b d h = elim (Bool-cases (leb (a + b) u32_max)) [
    | inl e ↦ ground (arith, e, h)
    | inr e ↦ absurd (ground (arith, e, h))
  ]

  -- Saved, the promoted attempt leaves the entries sound.
  abbrev Saved : Attempt × Entries → Type 0
  Saved (b, t) = IsSound (save w.now w.max_ttl b t)

  -- The attempt and the entries that `promote` returns.
  abbrev authorized_by : ℕ → ℕ → ℕ → Attempt → Attempt
  authorized_by now after expires b = record b {
    state = authorized;
    authorized_at = now;
    executable_after = after;
    expires_at = expires;
  }

  abbrev opened : Entries → ℕ → List (ℕ × ℕ) → Entries
  opened s i g = record s {
    invalidate_below = some (unwrap_or s.next_attempt 0);
    authorized = some i;
    gates = g;
  }

  Authorized-IsSound :
      (s : Entries) (i : ℕ) (a b : Attempt) (c : CompiledRecoveryConfig) (after expires : ℕ)
      (g : List (ℕ × ℕ))
      → IsSound s
      → (load s i ≡ some a)
        × (a.id ≡ i)
        × Kept a b
        × (b.id < unwrap_or s.next_attempt 0)
        × (b.epoch ≡ epoch_of s)
        × (s.config ≡ some c)
        × Evidence c (authorized_by w.now after expires b)
      → is_collecting a.state ≡ true
      → Saved (authorized_by w.now after expires b, opened s b.id g)
  Authorized-IsSound s i a b c after expires g (k, v, m) (l, e, kept, lt, ep, cf, ev) col =
      let b' = authorized_by w.now after expires b in
      (
        save-Keyed w.now w.max_ttl b' (opened s b.id g) k (lt, omega (arith, ep), λ _. (c, cf, ev)),
        save-Window_authorized w.now w.max_ttl b' (opened s b.id g) refl refl,
        save-Marked w.now w.max_ttl b' (opened s b.id g) m (λ x h.
            let (n, _) = load-Held s i x a (subst (λ j. Held s j x) (kept.0 ∙ e) h) l in
            absurd (ground (arith, n, col))),
      )

  promote-IsSound :
      (s : Entries) (c : CompiledRecoveryConfig) (i : ℕ) (a b : Attempt)
      → IsSound s
      → Offered s c i a b
      → is_collecting a.state ≡ true
      → initiation_met c b ≡ true
      → Ensures Saved (promote w account c b s)
  unfolding promote initiation_met
  promote-IsSound s c i a b (k, v, m) (l, e, kept, lt, ep, cf, (d, h, _)) col met =
      guard-Ensures Saved (not (is_some (authorized_live w.now s))) _ _ (λ _.
        if-Ensures Saved (is_stale w account b) _ _
          (λ _.
            save-IsSound s c i a (record b { state = invalidated }) (k, v, m)
              (l, e, (kept.0, λ n. (refl, (kept.1 n).1)), lt, ep, cf, (d, h, λ n. absurd cc)))
          (λ _. >>=-Ensures Saved (add w.now c.delay_ledgers) _ (λ after p.
            >>=-Ensures Saved (add after c.expiry_ledgers) _ (λ expires q.
              >>=-Ensures Saved (gate w account c b.id expires _) _ (λ t r.
                Ensures-ok (λ u. Saved (authorized_by w.now after expires b, u))
                  (gate w account c b.id expires _) t
                  (gate-Ensures _ c b.id expires _ (λ g.
                    Authorized-IsSound s i a b c after expires g (k, v, m)
                      (
                        l,
                        e,
                        kept,
                        lt,
                        ep,
                        cf,
                        (
                          d,
                          h,
                          λ _. (
                            add-eq w.now c.delay_ledgers after p,
                            add-eq after c.expiry_ledgers expires q,
                            met,
                          ),
                        ),
                      )
                      col))
                  r)))))

  count_cancel-Ensures :
      (P : Entries → Type 0) (c : CompiledRecoveryConfig) (counts : Bool) (s : Entries)
      → ((n : Option ℕ) → P (record s { cancels = n }))
      → Ensures P (count_cancel w account c counts s)
  unfolding count_cancel
  count_cancel-Ensures P c counts s h =
      if-Ensures P counts _ _
        (λ _.
          guard-Ensures P (ltb (unwrap_or s.cancels 0) c.max_cancels) _ _
            (λ _. h (some (unwrap_or s.cancels 0 + 1))))
        (λ _. h s.cancels)

  pub cancel_attempt-IsSound :
      (s : Entries) (c : CompiledRecoveryConfig) (i : ℕ) (a b : Attempt) (counted : Bool)
      → IsSound s
      → Offered s c i a b
      → Ensures IsSound (cancel_attempt w account c b counted s)
  unfolding cancel_attempt load
  cancel_attempt-IsSound s c i a b counted snd (l, e, kept, lt, ep, cf, (d, h, _)) =
      >>=-Ensures IsSound (count_cancel w account c (counted && is_authorized b.state) s) _ (λ t r.
        Ensures-ok _ (count_cancel w account c (counted && is_authorized b.state) s) t
          (count_cancel-Ensures
            (λ t. Ensures IsSound (
              if is_authorized b.state
              then gate w account c b.id 0
                  (record (save w.now w.max_ttl (record b { state = cancelled }) t) {
                    authorized = none;
                  })
              else ok (save w.now w.max_ttl (record b { state = cancelled }) t)))
            c (counted && is_authorized b.state) s
            (λ n.
              let (k, v, m) =
                save-IsSound (record s { cancels = n }) c i a (record b { state = cancelled }) snd
                  (l, e, (kept.0, λ n. (refl, (kept.1 n).1)), lt, ep, cf, (d, h, λ n. absurd cc)) in
              if-Ensures IsSound (is_authorized b.state) _ _
                (λ _. gate-Ensures IsSound c b.id 0 _ (λ g. (k, (λ j x. absurd cc), m)))
                (λ _. (k, v, m))))
          r)

  -- Recording evidence in a domain, with the promotion or cancellation that it may bring.
  pub after_evidence-IsSound :
      (s : Entries) (c : CompiledRecoveryConfig) (i : ℕ) (a b : Attempt) (domain : EvidenceDomain)
      → IsSound s
      → Offered s c i a b
      → (domain ≡ initiate → is_collecting a.state ≡ true)
      → Ensures IsSound (after_evidence w account c b domain s)
  unfolding after_evidence
  after_evidence-IsSound s c i a b initiate snd o col =
      if-Ensures IsSound (initiation_met c b) _ _
        (λ met. >>=-Ensures IsSound (promote w account c b s) _ (λ r e.
          Ensures-ok Saved (promote w account c b s) r
            (promote-IsSound s c i a b snd o (col refl) met) e))
        (λ _. save-IsSound s c i a b snd o)
  after_evidence-IsSound s c i a b cancel snd o col =
      if-Ensures IsSound (cancellation_met c b) _ _
        (λ _. cancel_attempt-IsSound s c i a b true snd o) (λ _. save-IsSound s c i a b snd o)
