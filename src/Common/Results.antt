-- ===== src/Common/Results.antt =====
-- `Result<A, E>` with the `?` operator, and the inversion of a successful chain.
use mathlib.Core.Path.{◌≡◌, refl}
use mathlib.Core.Logic.{◌⊎◌, inl, inr}
use mathlib.Core.Bool.{Bool, true, false}
use mathlib.Core.Option.{Option, none, some}
use native.Mathlib.Omega.{arith}
use perch.Common.Tests.{if◌then◌else◌}

pub data Result {ℓ} (E : Type 0) (A : Type ℓ) : Type ℓ where
  err : E → Result E A
  ok : A → Result E A

module _ {E : Type 0} where
  -- `if !test { return Err(e) }`.
  abbrev pub guard : (test : Bool) → E → Result E (Unit {0})
  guard false e = err e
  guard true e = ok tt

-- The `?` operator, in a `do` block.
infixl 5 ◌>>=◌ ◌>>◌
abbrev pub ◌>>=◌ {ℓ κ} :
    {A : Type ℓ} {B : Type κ} {E : Type 0} (r : Result E A) (rest : A → Result E B) → Result E B
err e >>= rest = err e
ok x >>= rest = rest x

abbrev pub ◌>>◌ {ℓ} :
    {B : Type ℓ} {E : Type 0} (r : Result E (Unit {0})) (rest : Result E B) → Result E B
r >> rest = r >>= λ _. rest

-- `o.ok_or(e)?`.
abbrev pub ok_or {ℓ} : {E : Type 0} {A : Type ℓ} → Option A → E → Result E A
ok_or (some a) e = ok a
ok_or none e = err e

pub >>=-eq-ok {ℓ κ} :
    {E : Type 0} {A : Type ℓ} {B : Type κ} (r : Result E A) (rest : A → Result E B) {out : B}
    → (r >>= rest) ≡ ok out
    → (x : A) × (r ≡ ok x) × (rest x ≡ ok out)
>>=-eq-ok (err e) rest p = cc
>>=-eq-ok (ok x) rest p = (x, refl, p)

pub Result-cases {ℓ} :
    {E : Type 0} {A : Type ℓ} (r : Result E A) → ((a : A) × (r ≡ ok a)) ⊎ ((e : E) × (r ≡ err e))
Result-cases (ok a) = inl (a, refl)
Result-cases (err e) = inr (e, refl)

-- What holds of the result, if there is one; and the rules that follow a chain.
abbrev pub Ensures {ℓ} : {E : Type 0} {A : Type ℓ} → (A → Type 0) → Result E A → Type 0
Ensures P (ok a) = P a
Ensures P (err e) = Unit {0}

module _ {ℓ κ} {E : Type 0} {A : Type ℓ} {B : Type κ} where
  pub >>=-Ensures :
      (P : B → Type 0) (m : Result E A) (f : A → Result E B)
      → ((a : A) → m ≡ ok a → Ensures P (f a))
      → Ensures P (m >>= f)
  >>=-Ensures P (ok a) f h = h a refl
  >>=-Ensures P (err e) f h = tt

module _ {ℓ} {E : Type 0} {A : Type ℓ} where
  pub guard-Ensures :
      (P : A → Type 0) (b : Bool) (e : E) (k : Result E A)
      → (b ≡ true → Ensures P k)
      → Ensures P (guard b e >> k)
  guard-Ensures P true e k h = h refl
  guard-Ensures P false e k h = tt

  pub if-Ensures :
      (P : A → Type 0) (b : Bool) (m k : Result E A)
      → (b ≡ true → Ensures P m)
      → (b ≡ false → Ensures P k)
      → Ensures P (if b then m else k)
  if-Ensures P true m k h j = h refl
  if-Ensures P false m k h j = j refl

  pub Ensures-map :
      (P Q : A → Type 0) (r : Result E A) → ((a : A) → P a → Q a) → Ensures P r → Ensures Q r
  Ensures-map P Q (ok a) h p = h a p
  Ensures-map P Q (err e) h p = tt

  pub Ensures-all : (P : A → Type 0) (r : Result E A) → ((a : A) → P a) → Ensures P r
  Ensures-all P (ok a) h = h a
  Ensures-all P (err e) h = tt

  pub Ensures-ok : (P : A → Type 0) (r : Result E A) (a : A) → Ensures P r → r ≡ ok a → P a
  Ensures-ok P (ok b) a h e = ground (arith, e, h)
  Ensures-ok P (err x) a h e = absurd cc

pub Option-Ensures {ℓ κ} :
    {E : Type 0} {A : Type ℓ} {B : Type κ} (P : B → Type 0) (o : Option A) (x : Result E B)
    (f : A → Result E B)
    → Ensures P x
    → ((a : A) → o ≡ some a → Ensures P (f a))
    → Ensures P (elim o [ none ↦ x | some a ↦ f a ])
Option-Ensures P none x f h j = h
Option-Ensures P (some a) x f h j = j a refl

pub ok_or-ok {ℓ} :
    {E : Type 0} {A : Type ℓ} (o : Option A) (e : E) (a : A) → ok_or o e ≡ ok a → o ≡ some a
ok_or-ok (some b) e a h = cc
ok_or-ok none e a h = cc

pub guard-ok : {E : Type 0} (b : Bool) (e : E) → guard b e ≡ ok tt → b ≡ true
guard-ok true e h = refl
guard-ok false e h = cc
