-- ===== src/Program/Leaf/Strings.antt =====
-- What the two string leaves decide of a decoded argument.
use perch.Common.{
  ℕ, ◌≤◌, ◌<◌, ◌≡◌, ◌≢◌, refl, ◌↔◌, ◌⊎◌, inl, inr, some, List, [], ◌∷◌, ◌++◌, arith, true, Str,
  length, list_eq, list_eq→eq, list_eq_self, take, ap, Bool-cases,
}
use perch.Program.Verdict.{true_v, unknown, from_bool}
use perch.Program.Leaf.{
  Env, EvalInputs, arg, str_bytes, str_head, buf_eq, any_str, arg_str_in, arg_str_prefix,
  max_str_arg_len,
}

-- A string is among others.
abbrev pub Among : Str → List Str → Type 0
Among s [] = ⊥
Among s (x ∷ xs) = (x ≡ s) ⊎ Among s xs

any_str→Among : (set : List Str) (s : Str) → any_str set s ≡ true → Among s set
unfolding any_str buf_eq str_bytes
any_str→Among [] s h = cc
any_str→Among (x ∷ xs) s h = elim (Bool-cases (list_eq x s)) [
  | inl e ↦ inl (list_eq→eq x s e)
  | inr n ↦ inr (any_str→Among xs s (ground arith))
]

Among→any_str :
    (set : List Str) (s : Str) → length s ≤ max_str_arg_len → Among s set → any_str set s ≡ true
unfolding any_str buf_eq str_bytes
Among→any_str [] s l h = absurd h
Among→any_str (x ∷ xs) s l (inl e) = rw e (ground (arith, list_eq_self s))
Among→any_str (x ∷ xs) s l (inr h) = ground (arith, Among→any_str xs s l h)

-- `ArgStrIn` on an argument that decodes to a string within the limit is `True` exactly for a
-- member of the set and `False` otherwise, though members over the limit are skipped; an
-- argument over the limit is `Unknown`.
pub arg_str_in_iff :
    (env : Env) (inputs : EvalInputs) (i : ℕ) (set : List Str) (s : Str)
    → arg env.host.as_string inputs.context i ≡ some s
    → ((arg_str_in env inputs i set ≡ true_v) ↔ ((length s ≤ max_str_arg_len) × Among s set))
      × ((arg_str_in env inputs i set ≡ unknown) ↔ (max_str_arg_len < length s))
unfolding arg_str_in str_bytes
arg_str_in_iff env inputs i set s e = elim (Bool-cases (any_str set s)) [
  | inl t ↦ (
    (λ h. (ground (arith, e), any_str→Among set s t), λ (l, m). ground (arith, e)),
    (λ h. ground (arith, e), λ h. ground (arith, e)),
  )
  | inr f ↦ (
    (λ h. absurd (ground (arith, e)), λ (l, m). absurd (ground (arith, Among→any_str set s l m))),
    (λ h. ground (arith, e), λ h. ground (arith, e)),
  )
]

take-length : (p r : Str) → take (length p) (p ++ r) ≡ p
take-length [] r = refl
take-length (x ∷ p) r = ap (λ (l : Str). x ∷ l) (take-length p r)

take-eq : (s p : Str) → length p ≤ length s → take (length p) s ≡ p → (r : Str) × (s ≡ p ++ r)
take-eq s [] l h = (s, refl)
take-eq [] (x ∷ p) l h = absurd (omega arith)
take-eq (y ∷ s) (x ∷ p) l h =
    let (r, e) = take-eq s p (omega arith) (ground (arith, h)) in (r, ground (arith, e, h))

length-prefix : (p r : Str) → length p ≤ length (p ++ r)
length-prefix [] r = omega arith
length-prefix (x ∷ p) r = omega (arith, length-prefix p r)

prefix-facts :
    (s prefix r : Str)
    → s ≡ prefix ++ r
    → (length prefix ≤ length s) × (list_eq (take (length prefix) s) prefix ≡ true)
prefix-facts s prefix r q = rw q (length-prefix prefix r, rw take-length (list_eq_self prefix))

-- `ArgStrPrefix` with a prefix within the limit is `True` on an argument that decodes to a string,
-- of any length, exactly when the string continues the prefix, and `False` otherwise.
pub arg_str_prefix_iff :
    (env : Env) (inputs : EvalInputs) (i : ℕ) (prefix s : Str)
    → arg env.host.as_string inputs.context i ≡ some s
    → length prefix ≤ max_str_arg_len
    → ((arg_str_prefix env inputs i prefix ≡ true_v) ↔ ((r : Str) × (s ≡ prefix ++ r)))
      × (arg_str_prefix env inputs i prefix ≢ unknown)
unfolding arg_str_prefix str_bytes str_head from_bool
arg_str_prefix_iff env inputs i prefix s e l = (
  (
    elim (Bool-cases (list_eq (take (length prefix) s) prefix)) [
      | inl t ↦ λ h. take-eq s prefix (ground (arith, e)) (list_eq→eq _ _ t)
      | inr f ↦ λ h. absurd (ground (arith, e))
    ],
    λ (r, q). ground (arith, e, prefix-facts s prefix r q),
  ),
  ground (arith, e),
)
