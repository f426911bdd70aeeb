-- ===== src/Program/Rpn/Decoding.antt =====
-- crates/perch-program/src/leaf.rs: a value that is not decoded can only deny, under negation too.
use perch.Common.{
  ℕ, Val, Bool, Option, none, some, ◌≡◌, refl, ok, ◌⊎◌, inl, inr, arith, Option-cases, get_elem?,
  ◌==◌, list_eq,
}
use perch.Common.Int.{int_eq}
use perch.Program.Verdict.{true_v}
use perch.Program.Leaf.{
  Env, Host, EvalInputs, Context, contract, arg, decide_arg, arg_addr_eq, arg_addr_is_self,
  arg_sym_eq, arg_u32_eq, arg_i128_eq, arg_bytes_eq, arg_str_in, arg_str_prefix, ledger_before,
  ledger_at_or_after,
}
use perch.Program.Rpn.{
  Op, RpnProgram, validate, eval, eval_leaf, arg_addr_eq_op, arg_addr_is_self_op, arg_sym_eq_op,
  arg_u32_eq_op, arg_i128_eq_op, arg_bytes_eq_op, arg_str_in_op, arg_str_prefix_op,
}
use perch.Program.Rpn.Refines.{Refines, eval-Refines}

-- Nothing was decoded, or the same.
abbrev pub Less {ℓ} : {A : Type ℓ} → Option A → Option A → Type ℓ
Less a b = (a ≡ none) ⊎ (a ≡ b)

-- Each conversion of the first host fails or gives what the second one gives.
pub record DecodesLess (h h' : Host) : Type 0 where
  pub addresses : (v : Val) → Less (h.as_address v) (h'.as_address v)
  pub symbols : (v : Val) → Less (h.as_symbol v) (h'.as_symbol v)
  pub words : (v : Val) → Less (h.as_u32 v) (h'.as_u32 v)
  pub integers : (v : Val) → Less (h.as_i128 v) (h'.as_i128 v)
  pub byte_strings : (v : Val) → Less (h.as_bytes v) (h'.as_bytes v)
  pub strings : (v : Val) → Less (h.as_string v) (h'.as_string v)

arg-Less {ℓ} :
    {A : Type ℓ} (f g : Val → Option A) (k : Context) (i : ℕ)
    → ((v : Val) → Less (f v) (g v))
    → Less (arg f k i) (arg g k i)
unfolding arg
arg-Less f g (contract c) i h = elim (Option-cases (get_elem? c.args i)) [
  | inl e ↦ rw (e, arg) (inl refl)
  | inr (v, e) ↦ rw (e, arg) (h v)
]
arg-Less f g _ i h = inl refl

decide_arg-Refines {ℓ} :
    {A : Type ℓ} (a b : Option A) (test : A → Bool)
    → Less a b
    → Refines (decide_arg a test) (decide_arg b test)
decide_arg-Refines none b test l = inl refl
decide_arg-Refines (some a) b test (inl e) = absurd cc
decide_arg-Refines (some a) b test (inr e) = rw (← e) (inr refl)

module _ (h h' : Host) (sequence : ℕ) (inputs : EvalInputs) (less : DecodesLess h h') where
  abbrev env : Host → Env
  env host = record { host = host; sequence = sequence }

  decode_failure-Refines :
      (op : Op) → Refines (eval_leaf (env h) inputs op) (eval_leaf (env h') inputs op)
  unfolding eval_leaf arg_addr_eq arg_addr_is_self arg_sym_eq arg_u32_eq arg_i128_eq arg_bytes_eq
      arg_str_in arg_str_prefix ledger_before ledger_at_or_after
  decode_failure-Refines (arg_addr_eq_op i want) =
      decide_arg-Refines _ _ (λ a. a == want)
        (arg-Less h.as_address h'.as_address inputs.context i less.addresses)
  decode_failure-Refines (arg_addr_is_self_op i) =
      decide_arg-Refines _ _ (λ a. a == inputs.self_addr)
        (arg-Less h.as_address h'.as_address inputs.context i less.addresses)
  decode_failure-Refines (arg_sym_eq_op i want) =
      decide_arg-Refines _ _ (λ s. list_eq s want)
        (arg-Less h.as_symbol h'.as_symbol inputs.context i less.symbols)
  decode_failure-Refines (arg_u32_eq_op i want) =
      decide_arg-Refines _ _ (λ n. n == want)
        (arg-Less h.as_u32 h'.as_u32 inputs.context i less.words)
  decode_failure-Refines (arg_i128_eq_op i want) =
      decide_arg-Refines _ _ (λ n. int_eq n want)
        (arg-Less h.as_i128 h'.as_i128 inputs.context i less.integers)
  decode_failure-Refines (arg_bytes_eq_op i want) =
      decide_arg-Refines _ _ (λ b. list_eq b want)
        (arg-Less h.as_bytes h'.as_bytes inputs.context i less.byte_strings)
  decode_failure-Refines (arg_str_in_op i set) =
      elim (arg-Less h.as_string h'.as_string inputs.context i less.strings) [
        | inl e ↦ inl (ground (arith, e))
        | inr e ↦ inr (ground (arith, e))
      ]
  decode_failure-Refines (arg_str_prefix_op i prefix) =
      elim (arg-Less h.as_string h'.as_string inputs.context i less.strings) [
        | inl e ↦ inl (ground (arith, e))
        | inr e ↦ inr (ground (arith, e))
      ]
  decode_failure-Refines _ = inr refl

-- What a validated program allows when each of the host's conversions of an argument fails or gives
-- what another host gives, it allows with the other host at the same ledger and on the same call:
-- under negation and disjunction too, no decode failure turns a denial into an authorization.
pub eval-DecodesLess :
    (p : RpnProgram) (h h' : Host) (sequence : ℕ) (inputs : EvalInputs)
    → validate p ≡ ok tt
    → DecodesLess h h'
    → eval (record { host = h; sequence = sequence }) p inputs ≡ true_v
    → eval (record { host = h'; sequence = sequence }) p inputs ≡ true_v
eval-DecodesLess p h h' sequence inputs v less =
    eval-Refines p _ _ inputs inputs v (decode_failure-Refines h h' sequence inputs less)
