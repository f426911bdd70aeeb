-- ===== src/Recovery/Invariant.antt =====
-- crates/perch-recovery/src/contract.rs: what holds of an account's entries after every invocation.
pub mod Attempts
pub mod Calls
pub mod Begin
pub mod Hooks
pub mod Changes
use mathlib.Core.Path.{subst}
use perch.Common.{
  ℕ, ◌+◌, ◌≤◌, ◌<◌, Address, Bool, true, false, ◌&&◌, ◌||◌, not, Option, none, some, List, [], ◌∷◌,
  ◌++◌, ◌==◌, ◌≡◌, refl, sym, ◌∙◌, ap, ◌⊎◌, inl, inr, arith, tests, ==_iff, is_some, unwrap_or,
  update, contains, Bool-cases, Option-cases, if◌then◌else◌,
}
use perch.Recovery.Config.{CompiledRecoveryConfig, guardians}
use perch.Recovery.Types.{Attempt, AttemptState, collecting, authorized}
use perch.Recovery.State.{Entries, epoch_of, load, save, is_persistent, or_else}
use perch.Recovery.Conditions.{initiation_met}
use perch.Recovery.Transitions.{is_authorized}
use perch.Recovery.Entry.{is_collecting}

unfoldable pub distinct : List ℕ → Bool
distinct [] = true
distinct (x ∷ xs) = not (contains xs x) && distinct xs

-- Whether the first list has all elements of the second.
unfoldable pub has_all : List ℕ → List ℕ → Bool
has_all set [] = true
has_all set (x ∷ xs) = contains set x && has_all set xs

-- An attempt's evidence under the configuration: distinct enrolled guardians and, once it is
-- authorized, the condition and the windows that the configuration sets.
abbrev pub Evidence : CompiledRecoveryConfig → Attempt → Type 0
Evidence c a =
    (distinct a.guardians ≡ true)
    × ((set : _) → guardians c ≡ some set → has_all set.guardians a.guardians ≡ true)
    × (is_authorized a.state ≡ true
        → (a.executable_after ≡ a.authorized_at + c.delay_ledgers)
          × (a.expires_at ≡ a.executable_after + c.expiry_ledgers)
          × (initiation_met c a ≡ true))

-- An attempt of the current epoch has its evidence under the stored configuration.
abbrev pub Backed : Entries → Attempt → Type 0
Backed s a = (c : CompiledRecoveryConfig) × (s.config ≡ some c) × Evidence c a

abbrev pub Proper : Entries → Attempt → Type 0
Proper s a =
    (a.id < unwrap_or s.next_attempt 0)
    × (a.epoch ≤ epoch_of s)
    × (a.epoch ≡ epoch_of s → Backed s a)

abbrev pub Stored : Entries → ℕ → Attempt → Type 0
Stored s i a = (s.attempt i ≡ some a) ⊎ (s.collecting i ≡ some a)

abbrev pub Keyed : Entries → Type 0
Keyed s = (i : ℕ) (a : Attempt) → Stored s i a → (a.id ≡ i) × Proper s a

-- A persistent attempt that was authorized, with its first completable ledger.
abbrev pub Held : Entries → ℕ → ℕ → Type 0
Held s i after =
    (a : Attempt) × (s.attempt i ≡ some a)
    × (is_collecting a.state ≡ false)
    × (a.executable_after ≡ after)

abbrev pub Window : Entries → Type 0
Window s = (i : ℕ) → s.authorized ≡ some i → (after : ℕ) × Held s i after

-- A completion marker was left once the attempt's delay had passed.
abbrev pub Marked : Entries → Type 0
Marked s =
    (m : _) → s.completing ≡ some m → (after : ℕ) × Held s m.attempt_id after × (after ≤ m.ledger)

abbrev pub IsSound : Entries → Type 0
IsSound s = Keyed s × Window s × Marked s

-- What a change of a loaded attempt keeps.
abbrev pub Kept : Attempt → Attempt → Type 0
Kept a b =
    (b.id ≡ a.id)
    × (is_collecting a.state ≡ false
        → (is_collecting b.state ≡ false) × (b.executable_after ≡ a.executable_after))

is_persistent-stored :
    (now max_ttl : ℕ) (a : Attempt) (s : Entries) (b : Attempt)
    → s.attempt a.id ≡ some b
    → is_persistent now max_ttl s a ≡ true
unfolding is_persistent
is_persistent-stored now max_ttl a s b e = ground (arith, e)

update_self {ℓ} : {A : Type ℓ} (f : ℕ → A) (k : ℕ) (v : A) → update f k v k ≡ v
update_self f k v = ground arith

update-ne {ℓ} : {A : Type ℓ} (f : ℕ → A) (k i : ℕ) (v : A) → (k == i) ≡ false → update f k v i ≡ f i
update-ne f k i v h = ground (arith, h)

update-some {ℓ} :
    {A : Type ℓ} (f : ℕ → Option A) (k i : ℕ) (o : Option A) (b : A)
    → update f k o i ≡ some b
    → ((k ≡ i) × (o ≡ some b)) ⊎ (f i ≡ some b)
update-some f k i o b h = elim (Bool-cases (k == i)) [
  | inl e ↦ inl ((==_iff k i).0 e, ground (arith, e, h))
  | inr e ↦ inr (ground (arith, e, h))
]

-- The two maps after `save`, by whether it is persistent.
stored_by :
    (persistent : Bool) (f g : ℕ → Option Attempt) (a : Attempt) (i : ℕ) (b : Attempt)
    → ((if persistent then update f a.id (some a) else f) i ≡ some b)
      ⊎ (update g a.id (if persistent then none else some a) i ≡ some b)
    → ((a.id ≡ i) × (some a ≡ some b)) ⊎ (f i ≡ some b) ⊎ (g i ≡ some b)
stored_by true f g a i b (inl h) = elim (update-some f a.id i (some a) b h) [
  | inl e ↦ inl e
  | inr e ↦ inr (inl e)
]
stored_by true f g a i b (inr h) = elim (update-some g a.id i none b h) [
  | inl (k, e) ↦ absurd cc
  | inr e ↦ inr (inr e)
]
stored_by false f g a i b (inl h) = inr (inl h)
stored_by false f g a i b (inr h) = elim (update-some g a.id i (some a) b h) [
  | inl e ↦ inl e
  | inr e ↦ inr (inr e)
]

pub some-injective {ℓ} : {A : Type ℓ} {a b : A} → some a ≡ some b → a ≡ b
some-injective h = cc

module _ (now max_ttl : ℕ) (a : Attempt) (s : Entries) where
  save-attempt_ne : (i : ℕ) → (a.id == i) ≡ false → (save now max_ttl a s).attempt i ≡ s.attempt i
  unfolding save
  save-attempt_ne i h = elim (Bool-cases (is_persistent now max_ttl s a)) [
    | inl p ↦ ground (arith, p, update-ne s.attempt a.id i (some a) h)
    | inr p ↦ ground (arith, p)
  ]

  save-attempt_persistent :
      is_persistent now max_ttl s a ≡ true → (save now max_ttl a s).attempt a.id ≡ some a
  unfolding save
  save-attempt_persistent p = ground (arith, p, update_self s.attempt a.id (some a))

  pub save-Held :
      (i after : ℕ)
      → Held s i after
      → (i ≡ a.id → (is_collecting a.state ≡ false) × (a.executable_after ≡ after))
      → Held (save now max_ttl a s) i after
  save-Held i after (b, e, n, x) h = elim (Bool-cases (a.id == i)) [
    | inr k ↦ (b, save-attempt_ne i k ∙ e, n, x)
    | inl k ↦
        let q = (==_iff a.id i).0 k in
        let e' = ap s.attempt q ∙ e in
        (
          a,
          ap (save now max_ttl a s).attempt (sym q)
              ∙ save-attempt_persistent (is_persistent-stored now max_ttl a s b e'),
          (h (sym q)).0,
          (h (sym q)).1,
        )
  ]

  pub save-Stored :
      (i : ℕ) (b : Attempt)
      → Stored (save now max_ttl a s) i b
      → ((a.id ≡ i) × (some a ≡ some b)) ⊎ Stored s i b
  unfolding save
  save-Stored i b h = stored_by (is_persistent now max_ttl s a) s.attempt s.collecting a i b h

  pub save-Keyed : Keyed s → Proper s a → Keyed (save now max_ttl a s)
  unfolding save
  save-Keyed k p i b h = elim (save-Stored i b h) [
    | inl (e, q) ↦ subst (λ x. (x.id ≡ i) × Proper s x) (some-injective q) (e, p)
    | inr o ↦ k i b o
  ]

module _ (now max_ttl : ℕ) (a : Attempt) (s : Entries) where
  pub save-Marked :
      Marked s
      → ((after : ℕ)
          → Held s a.id after
          → (is_collecting a.state ≡ false) × (a.executable_after ≡ after))
      → Marked (save now max_ttl a s)
  unfolding save
  save-Marked m k c e =
      let (after, h, le) = m c e in
      (
        after,
        save-Held now max_ttl a s c.attempt_id after h
            (λ q. k after (subst (λ i. Held s i after) q h)),
        le,
      )

  pub save-Window :
      Window s
      → ((after : ℕ)
          → Held s a.id after
          → (is_collecting a.state ≡ false) × (a.executable_after ≡ after))
      → Window (save now max_ttl a s)
  unfolding save
  save-Window v k i e =
      let (after, h) = v i e in
      (after, save-Held now max_ttl a s i after h (λ q. k after (subst (λ i. Held s i after) q h)))

  -- The attempt that is promoted is held from then on.
  pub save-Window_authorized :
      s.authorized ≡ some a.id → a.state ≡ authorized → Window (save now max_ttl a s)
  unfolding save is_persistent
  save-Window_authorized e q i h =
      let p : is_persistent now max_ttl s a ≡ true = ground (arith, q) in
      let j : a.id ≡ i = ground (arith, e, h) in
      (
        a.executable_after,
        (
          a,
          ap (save now max_ttl a s).attempt (sym j) ∙ save-attempt_persistent now max_ttl a s p,
          ground (arith, q),
          refl,
        ),
      )

pub load-Stored : (s : Entries) (i : ℕ) (a : Attempt) → load s i ≡ some a → Stored s i a
unfolding load
load-Stored s i a h = elim (Option-cases (s.attempt i)) [
  | inl e ↦ inr (ground (arith, e, h))
  | inr (b, e) ↦ inl (ground (arith, e, h))
]

pub load-Held :
    (s : Entries) (i after : ℕ) (a : Attempt)
    → Held s i after
    → load s i ≡ some a
    → (is_collecting a.state ≡ false) × (a.executable_after ≡ after)
unfolding load
load-Held s i after a (b, e, n, x) h =
    let q : some b ≡ some a = ground (arith, e, h) in ground (arith, q, n, x)
