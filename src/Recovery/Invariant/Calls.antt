-- ===== src/Recovery/Invariant/Calls.antt =====
-- crates/perch-recovery/src/contract.rs: every call of the controller keeps the account's entries
-- sound.
use mathlib.Core.Path.{subst}
use perch.Common.{
  ℕ, ◌+◌, ◌<◌, Address, Bytes32, true, false, not, Option, some, List, [], ◌∷◌, ◌++◌, ◌≡◌, refl,
  sym, ◌∙◌, inl, inr, arith, unwrap_or, leb, contains, contains-append, Bool-cases, ok, ok_or,
  Ensures, >>=-Ensures, guard-Ensures, Ensures-ok, ok_or-ok, guard-ok, guard, >>=-eq-ok, u64_max,
}
use perch.Recovery.Config.{CompiledRecoveryConfig, guardians, zk}
use perch.Recovery.Types.{
  Attempt, AttemptState, collecting, authorized, completed, cancelled, invalidated, EvidenceDomain,
  initiate, cancel, attempt_not_collecting,
}
use perch.Recovery.World.{World, ZkEvidence, next}
use perch.Recovery.State.{Entries, require_config, epoch_of, bump_epoch, load, load_live, is_live}
use perch.Recovery.Conditions.{initiation_met, verify_zk, attempt_statement, check_fresh, digest}
use perch.Recovery.Transitions.{is_authorized}
use perch.Recovery.Entry.{
  is_collecting, submit_guardian, submit_zk, count_guardian, awaits_zk, record_zk,
}
use perch.Recovery.Invariant.{
  distinct, has_all, Evidence, Keyed, Window, Marked, IsSound, Kept, some-injective, load-Stored,
}
use perch.Recovery.Invariant.Attempts.{Offered, after_evidence-IsSound}

pub next-eq : (bound a b : ℕ) → next bound a ≡ ok b → b ≡ a + 1
unfolding next
next-eq bound a b h = elim (Bool-cases (leb (a + 1) bound)) [
  | inl e ↦ ground (arith, e, h)
  | inr e ↦ absurd (ground (arith, e, h))
]

-- A new epoch leaves no attempt of the epoch before to be backed.
pub bump_epoch-Ensures :
    (s : Entries) (c : Option CompiledRecoveryConfig) (o : Option ℕ)
    → Keyed s
    → Window (record s { authorized = o })
    → Marked s
    → Ensures IsSound (bump_epoch (record s { config = c; authorized = o }))
unfolding bump_epoch
bump_epoch-Ensures s c o k v m = >>=-Ensures IsSound (next u64_max (epoch_of s)) _ (λ n e.
    let q = next-eq u64_max (epoch_of s) n e in
    (
      (λ i a h.
          let (id, (lt, le, _)) = k i a h in
          (id, (lt, omega (arith, le, q), λ p. absurd (omega (arith, le, q, p))))),
      v,
      m,
    ))

pub load_live-ok :
    (now : ℕ) (s : Entries) (i : ℕ) (a : Attempt)
    → load_live now s i ≡ ok a
    → (load s i ≡ some a) × (is_live now s a ≡ true)
unfolding load_live
load_live-ok now s i a h =
    Ensures-ok (λ a. (load s i ≡ some a) × (is_live now s a ≡ true)) (load_live now s i) a
      (>>=-Ensures (λ a. (load s i ≡ some a) × (is_live now s a ≡ true)) (ok_or (load s i) _) _
        (λ b e. guard-Ensures _ (is_live now s b) _ _ (λ l. (ok_or-ok (load s i) _ b e, l))))
      h

pub is_live-epoch :
    (now : ℕ) (s : Entries) (a : Attempt) → is_live now s a ≡ true → a.epoch ≡ epoch_of s
unfolding is_live
is_live-epoch now s a h = ground arith

-- A live attempt that a call has loaded, as it stands.
pub live-Offered :
    (now : ℕ) (s : Entries) (c : CompiledRecoveryConfig) (i : ℕ) (a : Attempt)
    → IsSound s
    → s.config ≡ some c
    → load_live now s i ≡ ok a
    → Offered s c i a a
live-Offered now s c i a (k, _, _) e h =
    let (l, v) = load_live-ok now s i a h in
    let (id, (lt, _, b)) = k i a (load-Stored s i a l) in
    let ep = is_live-epoch now s a v in
    let (d, cf, ev) = b ep in
    (
      l,
      id,
      (refl, λ n. (n, refl)),
      lt,
      ep,
      e,
      subst (λ x. Evidence x a) (some-injective (sym cf ∙ e)) ev,
    )

collecting-is_authorized : (t : AttemptState) → is_collecting t ≡ true → is_authorized t ≡ false
collecting-is_authorized collecting h = refl
collecting-is_authorized authorized h = cc
collecting-is_authorized completed h = refl
collecting-is_authorized cancelled h = refl
collecting-is_authorized invalidated h = refl

distinct-append :
    (xs : List ℕ) (x : ℕ)
    → distinct xs ≡ true
    → contains xs x ≡ false
    → distinct (xs ++ x ∷ []) ≡ true
unfolding distinct
distinct-append [] x d n = refl
distinct-append (y ∷ ys) x d n = ground (arith, contains-append ys x y, distinct-append ys x, d, n)

has_all-append :
    (set xs : List ℕ) (x : ℕ)
    → has_all set xs ≡ true
    → contains set x ≡ true
    → has_all set (xs ++ x ∷ []) ≡ true
unfolding has_all
has_all-append set [] x h m = ground (arith, m)
has_all-append set (y ∷ ys) x h m = ground (arith, has_all-append set ys x, h, m)

module _ (w : World) (account : Address) where
  -- What a counted guardian or proof keeps of the attempt.
  abbrev Counted : CompiledRecoveryConfig → Attempt → Attempt → Type 0
  Counted c a b = Kept a b × (b.epoch ≡ a.epoch) × (Evidence c a → Evidence c b)

  count_guardian-Counted :
      (c : CompiledRecoveryConfig) (a : Attempt) (domain : EvidenceDomain) (guardian : Address)
      (set : _)
      → guardians c ≡ some set
      → contains set.guardians guardian ≡ true
      → Ensures
          (λ b. Counted c a b × (domain ≡ initiate → is_collecting a.state ≡ true))
          (count_guardian w account a domain guardian)
  unfolding count_guardian initiation_met
  count_guardian-Counted c a initiate guardian set e m =
      guard-Ensures _ (is_collecting a.state) _ _ (λ n.
        guard-Ensures _ (not (contains a.guardians guardian)) _ _ (λ f. (
          (
            (refl, λ q. absurd (ground (arith, n, q))),
            refl,
            λ (d, h, t). (
              distinct-append a.guardians guardian d (ground (arith, f)),
              (λ set' e'. has_all-append set'.guardians a.guardians guardian (h set' e') (
                  subst (λ x. contains x.guardians guardian ≡ true) (some-injective (sym e ∙ e'))
                    m)),
              λ q. absurd (ground (arith, collecting-is_authorized a.state n, q)),
            ),
          ),
          λ _. n,
        )))
  count_guardian-Counted c a cancel guardian set e m =
      guard-Ensures _ (not (contains a.cancel_guardians guardian)) _ _
        (λ f. (((refl, λ n. (n, refl)), refl, λ v. v), λ q. absurd cc))

  record_zk-Counted :
      (c : CompiledRecoveryConfig) (a : Attempt) (domain : EvidenceDomain) (n : Bytes32)
      → awaits_zk w account a domain ≡ ok tt
      → Counted c a (record_zk w account a domain n)
        × (domain ≡ initiate → is_collecting a.state ≡ true)
  unfolding awaits_zk record_zk initiation_met
  record_zk-Counted c a initiate n h =
      let (_, e, _) = >>=-eq-ok (guard (is_collecting a.state) attempt_not_collecting) _ h in
      let k : is_collecting a.state ≡ true = guard-ok (is_collecting a.state) _ e in
      (
        (
          (refl, λ q. absurd (ground (arith, k, q))),
          refl,
          λ (d, m, t). (d, m, λ q. absurd (ground (arith, collecting-is_authorized a.state k, q))),
        ),
        λ _. k,
      )
  record_zk-Counted c a cancel n h = (((refl, λ q. (q, refl)), refl, λ v. v), λ q. absurd cc)

  Counted-Offered :
      (s : Entries) (c : CompiledRecoveryConfig) (i : ℕ) (a b : Attempt)
      → Offered s c i a a
      → Counted c a b
      → Offered s c i a b
  Counted-Offered s c i a b (l, e, _, lt, ep, cf, ev) (k, eb, f) =
      (l, e, k, subst (λ x. x < unwrap_or s.next_attempt 0) (sym k.0) lt, eb ∙ ep, cf, f ev)

  pub submit_guardian-IsSound :
      (i : ℕ) (domain : EvidenceDomain) (guardian : Address) (s : Entries)
      → IsSound s
      → Ensures IsSound (submit_guardian w account i domain guardian s)
  unfolding submit_guardian
  submit_guardian-IsSound i domain guardian s snd =
      >>=-Ensures IsSound (require_config s) _ (λ c hc.
        >>=-Ensures IsSound (ok_or (guardians c) _) _ (λ set hs.
          guard-Ensures IsSound (contains set.guardians guardian) _ _ (λ m.
            >>=-Ensures IsSound (load_live w.now s i) _ (λ a ha.
              >>=-Ensures IsSound (count_guardian w account a domain guardian) _ (λ b hb.
                let (n, col) =
                  Ensures-ok
                    (λ b. Counted c a b × (domain ≡ initiate → is_collecting a.state ≡ true))
                    (count_guardian w account a domain guardian) b
                    (count_guardian-Counted c a domain guardian set
                      (ok_or-ok (guardians c) _ set hs) m)
                    hb in
                let o =
                  Counted-Offered s c i a b
                    (live-Offered w.now s c i a snd (ok_or-ok s.config _ c hc) ha) n in
                >>=-Ensures IsSound (attempt_statement w account c b domain) _ (λ st _.
                  >>=-Ensures IsSound (check_fresh w account st) _ (λ _ _.
                    >>=-Ensures IsSound (digest w account st) _ (λ d _.
                      guard-Ensures IsSound (w.auth_for guardian d) _ _
                        (λ _. after_evidence-IsSound w account s c i a b domain snd o col)))))))))

  pub submit_zk-IsSound :
      (i : ℕ) (domain : EvidenceDomain) (evidence : ZkEvidence) (s : Entries)
      → IsSound s
      → Ensures IsSound (submit_zk w account i domain evidence s)
  unfolding submit_zk
  submit_zk-IsSound i domain evidence s snd = >>=-Ensures IsSound (require_config s) _ (λ c hc.
      >>=-Ensures IsSound (ok_or (zk c) _) _ (λ factor _.
        >>=-Ensures IsSound (load_live w.now s i) _ (λ a ha.
          >>=-Ensures IsSound (awaits_zk w account a domain) _ (λ _ hz.
            let b = record_zk w account a domain evidence.nullifier in
            let (n, col) = record_zk-Counted c a domain evidence.nullifier hz in
            let o =
              Counted-Offered s c i a b
                (live-Offered w.now s c i a snd (ok_or-ok s.config _ c hc) ha) n in
            >>=-Ensures IsSound (attempt_statement w account c a domain) _ (λ st _.
              >>=-Ensures IsSound (check_fresh w account st) _ (λ _ _.
                >>=-Ensures IsSound (verify_zk w account s factor st evidence) _
                  (λ _ _. after_evidence-IsSound w account s c i a b domain snd o col)))))))
