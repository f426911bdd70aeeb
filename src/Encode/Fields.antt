-- ===== src/Encode/Fields.antt =====
-- crates/perch-recovery-interface/src/encode.rs and src/statement.rs: fixed-width big-endian fields can be
-- read back.
use perch.Common.{
  ℕ, zero, suc, ◌+◌, ◌*◌, ◌/◌, ◌%◌, ◌^◌, ◌<◌, Bytes, [], ◌∷◌, ◌++◌, ◌≡◌, refl, sym, ◌∙◌, ap, arith,
  length, length-append, take, drop,
}
use perch.Encode.{to_be, from_be}

abbrev pub Fits : ℕ → ℕ → Type 0
Fits n x = x < 256 ^ n

length-to_be : (n x : ℕ) → length (to_be n x) ≡ n
unfolding to_be
length-to_be zero x = refl
length-to_be (suc n) x =
    omega (arith, length-append (to_be n (x / 256)) ((x % 256) ∷ []), length-to_be n (x / 256))

from_be-append : (bs : Bytes) (b acc : ℕ) → from_be (bs ++ b ∷ []) acc ≡ from_be bs acc * 256 + b
from_be-append [] b acc = refl
from_be-append (x ∷ xs) b acc = from_be-append xs b (acc * 256 + x)

pub from_be-to_be : (n x : ℕ) → Fits n x → from_be (to_be n x) 0 ≡ x
unfolding to_be
from_be-to_be zero x h = omega (arith, h)
from_be-to_be (suc n) x h =
    let ih = from_be-to_be n (x / 256) (omega (arith, h)) in
    omega (arith, from_be-append (to_be n (x / 256)) (x % 256) 0, ih)

take-append : (xs ys : Bytes) (n : ℕ) → length xs ≡ n → take n (xs ++ ys) ≡ xs
take-append [] ys zero h = refl
take-append [] ys (suc n) h = absurd (omega (arith, h))
take-append (x ∷ xs) ys zero h = absurd (omega (arith, h))
take-append (x ∷ xs) ys (suc n) h = ap (λ t. x ∷ t) (take-append xs ys n (omega (arith, h)))

drop-append : (xs ys : Bytes) (n : ℕ) → length xs ≡ n → drop n (xs ++ ys) ≡ ys
drop-append [] ys zero h = refl
drop-append [] ys (suc n) h = absurd (omega (arith, h))
drop-append (x ∷ xs) ys zero h = absurd (omega (arith, h))
drop-append (x ∷ xs) ys (suc n) h = drop-append xs ys n (omega (arith, h))

append-nil : (xs : Bytes) → xs ++ [] ≡ xs
append-nil [] = refl
append-nil (x ∷ xs) = ap (λ t. x ∷ t) (append-nil xs)

-- The number that the first bytes are.
abbrev pub number : ℕ → Bytes → ℕ
number n bs = from_be (take n bs) 0

pub number-to_be : (n x : ℕ) (rest : Bytes) → Fits n x → number n (to_be n x ++ rest) ≡ x
number-to_be n x rest h =
    ap (λ bs. from_be bs 0) (take-append (to_be n x) rest n (length-to_be n x))
    ∙ from_be-to_be n x h

pub number-last : (n x : ℕ) → Fits n x → number n (to_be n x) ≡ x
number-last n x h = ap (number n) (sym (append-nil (to_be n x))) ∙ number-to_be n x [] h

pub after-to_be : (n x : ℕ) (rest : Bytes) → drop n (to_be n x ++ rest) ≡ rest
after-to_be n x rest = drop-append (to_be n x) rest n (length-to_be n x)

-- Two encodings of one width that start equal byte strings are of the same number.
pub to_be-injective :
    (n x y : ℕ) (bs cs : Bytes)
    → Fits n x
    → Fits n y
    → to_be n x ++ bs ≡ to_be n y ++ cs
    → (x ≡ y) × (bs ≡ cs)
to_be-injective n x y bs cs fx fy e = (
  sym (number-to_be n x bs fx) ∙ ap (number n) e ∙ number-to_be n y cs fy,
  sym (after-to_be n x bs) ∙ ap (drop n) e ∙ after-to_be n y cs,
)

pub to_be-injective_last : (n x y : ℕ) → Fits n x → Fits n y → to_be n x ≡ to_be n y → x ≡ y
to_be-injective_last n x y fx fy e = sym (number-last n x fx) ∙ ap (number n) e ∙ number-last n y fy
