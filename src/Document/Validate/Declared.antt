-- ===== src/Document/Validate/Declared.antt =====
-- crates/perch-ir/src/validate.rs: what the loops over names and ids establish.
use perch.Common.{
  ◌<◌, ◌≡◌, ◌≢◌, refl, ◌∙◌, ap, ◌⊎◌, inl, inr, Str, Bool, true, false, not, Option, none, some,
  List, [], ◌∷◌, ◌++◌, arith, length, list_eq, list_eq→eq, list_eq_self, Bool-cases,
}
use perch.Document.Strkey.{is_valid_symbol}
use perch.Document.Validate.{
  ValidationError, Errors, report, seen_str, is_empty_list, is_empty_str, each_str,
  validate_principal_signers, function_errors, functions_loop, functions_errors,
}

pub append-empty {ℓ} : {A : Type ℓ} (xs ys : List A) → xs ++ ys ≡ [] → (xs ≡ []) × (ys ≡ [])
append-empty [] ys h = (refl, h)
append-empty (x ∷ xs) ys h = absurd cc

pub report-empty : (b : Bool) (e : ValidationError) → report b e ≡ [] → b ≡ false
report-empty true e h = absurd cc
report-empty false e h = refl

pub report-not-empty : (b : Bool) (e : ValidationError) → report (not b) e ≡ [] → b ≡ true
report-not-empty true e h = refl
report-not-empty false e h = absurd cc

-- A string is not in a list, is in it, and the strings of a list differ from one another.
abbrev pub Absent : Str → List Str → Type 0
Absent s [] = Unit
Absent s (t ∷ ts) = (t ≢ s) × Absent s ts

abbrev pub OneOf : Str → List Str → Type 0
OneOf s [] = ⊥
OneOf s (t ∷ ts) = (t ≡ s) ⊎ OneOf s ts

abbrev pub AllDiffer : List Str → Type 0
AllDiffer [] = Unit
AllDiffer (s ∷ ss) = Absent s ss × AllDiffer ss

abbrev pub All {ℓ} : {A : Type ℓ} → (A → Type 0) → List A → Type 0
All P [] = Unit
All P (x ∷ xs) = P x × All P xs

pub seen_str-OneOf : (xs : List Str) (s : Str) → seen_str xs s ≡ true → OneOf s xs
unfolding seen_str
seen_str-OneOf [] s h = absurd cc
seen_str-OneOf (x ∷ xs) s h = elim (Bool-cases (list_eq x s)) [
  | inl t ↦ inl (list_eq→eq x s t)
  | inr n ↦ inr (seen_str-OneOf xs s (ground (arith, h, n)))
]

-- Nothing that was seen is in the rest.
abbrev pub Unseen : List Str → List Str → Type 0
Unseen seen ss = (x : Str) → seen_str seen x ≡ true → Absent x ss

pub Unseen-head :
    (seen : List Str) (s : Str) (ss : List Str)
    → seen_str seen s ≡ false
    → Unseen (s ∷ seen) ss
    → Unseen seen (s ∷ ss)
unfolding seen_str
Unseen-head seen s ss h u x k = (
  λ e. let t : seen_str seen s ≡ true = ap (seen_str seen) e ∙ k in absurd (ground (arith, h, t)),
  u x (ground (arith, k)),
)

pub Absent-head : (seen : List Str) (s : Str) (ss : List Str) → Unseen (s ∷ seen) ss → Absent s ss
unfolding seen_str
Absent-head seen s ss u = u s (ground (arith, list_eq_self s))

-- A loop that reports nothing has seen no string twice and checked each.
pub each_str-empty :
    (duplicate : Str → ValidationError) (check : Str → Errors) (seen ss : List Str)
    → each_str duplicate check seen ss ≡ []
    → AllDiffer ss × Unseen seen ss × All (λ s. check s ≡ []) ss
unfolding each_str
each_str-empty duplicate check seen [] h = (tt, λ x k. tt, tt)
each_str-empty duplicate check seen (s ∷ ss) h =
    let (a, b) = append-empty (report (seen_str seen s) (duplicate s)) _ h in
    let (c, d) = append-empty (check s) _ b in
    let (e, u, v) = each_str-empty duplicate check (s ∷ seen) ss d in
    (
      (Absent-head seen s ss u, e),
      Unseen-head seen s ss (report-empty (seen_str seen s) (duplicate s) a) u,
      (c, v),
    )

pub is_empty_list-false : {A : Type 0} (xs : List A) → is_empty_list xs ≡ false → 0 < length xs
is_empty_list-false [] h = absurd cc
is_empty_list-false (x ∷ xs) h = omega arith

pub All-map :
    {A : Type 0} (P Q : A → Type 0) (xs : List A) → ((x : A) → P x → Q x) → All P xs → All Q xs
All-map P Q [] f h = tt
All-map P Q (x ∷ xs) f (a, h) = (f x a, All-map P Q xs f h)

-- The signers of a principals list: there is one, they differ, and they are declared.
abbrev pub IsSignerList : List Str → List Str → Type 0
IsSignerList declared signers =
    (0 < length signers) × AllDiffer signers × All (λ id. OneOf id declared) signers

pub principal_signers-empty :
    (rule : Str) (declared signers : List Str)
    → validate_principal_signers rule declared signers ≡ []
    → IsSignerList declared signers
unfolding validate_principal_signers
principal_signers-empty rule declared signers h =
    let (a, b) = append-empty (report (is_empty_list signers) _) _ h in
    let (d, u, v) = each_str-empty _ _ [] signers b in
    (
      is_empty_list-false signers (report-empty (is_empty_list signers) _ a),
      d,
      All-map _ (λ id. OneOf id declared) signers
          (λ id e. seen_str-OneOf declared id (report-not-empty (seen_str declared id) _ e)) v,
    )

function_errors-empty :
    (rule func : Str) → function_errors rule func ≡ [] → is_valid_symbol func ≡ true
unfolding function_errors
function_errors-empty rule func h = elim (Bool-cases (is_empty_str func)) [
  | inl t ↦ absurd (ground (arith, h, t))
  | inr n ↦ ground (arith, h, n)
]

functions_loop-empty :
    (rule : Str) (seen funcs : List Str)
    → functions_loop rule seen funcs ≡ []
    → AllDiffer funcs × Unseen seen funcs × All (λ f. is_valid_symbol f ≡ true) funcs
unfolding functions_loop
functions_loop-empty rule seen [] h = (tt, λ x k. tt, tt)
functions_loop-empty rule seen (f ∷ fs) h =
    let (a, b) = append-empty (function_errors rule f) _ h in
    let (c, d) = append-empty (report (seen_str seen f) _) _ b in
    let (e, u, v) = functions_loop-empty rule (f ∷ seen) fs d in
    (
      (Absent-head seen f fs u, e),
      Unseen-head seen f fs (report-empty (seen_str seen f) _ c) u,
      (function_errors-empty rule f a, v),
    )

-- A function list names at least one function, none twice, and all of them are symbols.
abbrev pub IsFunctionList : Option (List Str) → Type 0
IsFunctionList none = Unit
IsFunctionList (some fs) = (0 < length fs) × AllDiffer fs × All (λ f. is_valid_symbol f ≡ true) fs

pub functions_errors-empty :
    (rule : Str) (funcs : Option (List Str))
    → functions_errors rule funcs ≡ []
    → IsFunctionList funcs
unfolding functions_errors
functions_errors-empty rule none h = tt
functions_errors-empty rule (some fs) h =
    let (a, b) = append-empty (report (is_empty_list fs) _) _ h in
    let (d, u, v) = functions_loop-empty rule [] fs b in
    (is_empty_list-false fs (report-empty (is_empty_list fs) _ a), d, v)
