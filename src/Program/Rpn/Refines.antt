-- ===== src/Program/Rpn/Refines.antt =====
-- A verdict is monotone in what its leaves know, so what is not decoded can only deny.
use perch.Common.{◌≡◌, refl, ok, ◌⊎◌, inl, inr, arith, Bool, true, false}
use perch.Program.Verdict.{Verdict, true_v, unknown, and, or, negate}
use perch.Program.Leaf.{
  Env, EvalInputs, Context, contract, ContractContext, arg, min_signers, fn_in, arg_addr_eq,
  arg_addr_is_self, arg_sym_eq, arg_u32_eq, arg_i128_eq, arg_bytes_eq, arg_str_in, arg_str_prefix,
  arg_count, ledger_before, ledger_at_or_after,
}
use perch.Program.Rpn.{
  Op, RpnProgram, validate, eval, eval_leaf, min_signers_op, ledger_before_op,
  ledger_at_or_after_op,
}
use perch.Program.Rpn.Tree.{
  Tree, leaf, negation, conjunction, disjunction, Forest, nil, cons, denote, denote_all, denote_any,
}
use perch.Program.Rpn.Ops.{leaves}
use perch.Program.Rpn.Meaning.{validate-Denotes}

-- `b` is `a`, or `a` was not known.
abbrev pub Refines : Verdict → Verdict → Type 0
Refines a b = (a ≡ unknown) ⊎ (a ≡ b)

and-Refines : (a b c d : Verdict) → Refines a b → Refines c d → Refines (and a c) (and b d)
unfolding and
and-Refines a b c d h k = ground arith

or-Refines : (a b c d : Verdict) → Refines a b → Refines c d → Refines (or a c) (or b d)
unfolding or
or-Refines a b c d h k = ground arith

negate-Refines : (a b : Verdict) → Refines a b → Refines (negate a) (negate b)
unfolding negate
negate-Refines a b h = ground arith

module _ (before after : Op → Verdict) (h : (op : Op) → Refines (before op) (after op)) where
  mutual
    unfolding denote

    denote-Refines : (t : Tree) → Refines (denote before t) (denote after t)
    denote-Refines (leaf op) = h op
    denote-Refines (negation t) = negate-Refines _ _ (denote-Refines t)
    denote-Refines (conjunction f) = denote_all-Refines f
    denote-Refines (disjunction f) = denote_any-Refines f

    denote_all-Refines : (f : Forest) → Refines (denote_all before f) (denote_all after f)
    denote_all-Refines nil = inr refl
    denote_all-Refines (cons t f) = and-Refines _ _ _ _ (denote-Refines t) (denote_all-Refines f)

    denote_any-Refines : (f : Forest) → Refines (denote_any before f) (denote_any after f)
    denote_any-Refines nil = inr refl
    denote_any-Refines (cons t f) = or-Refines _ _ _ _ (denote-Refines t) (denote_any-Refines f)

-- If every leaf either is `Unknown` in one evaluation or has the same verdict in another, then
-- what a validated program allows in the first it allows in the second.
pub eval-Refines :
    (p : RpnProgram) (env env' : Env) (inputs inputs' : EvalInputs)
    → validate p ≡ ok tt
    → ((op : Op) → Refines (eval_leaf env inputs op) (eval_leaf env' inputs' op))
    → eval env p inputs ≡ true_v
    → eval env' p inputs' ≡ true_v
eval-Refines p env env' inputs inputs' v h e =
    let (t, (_, _, d)) = validate-Denotes p v in
    let r = denote-Refines (leaves env inputs) (leaves env' inputs') h t in
    ground (arith, d env inputs, d env' inputs', r)

-- A context that is no contract call.
abbrev pub is_call : Context → Bool
is_call (contract c) = true
is_call _ = false

-- A leaf at a context that is no contract call, against the same leaf at any contract call.
leaf-Refines :
    (env : Env) (inputs : EvalInputs) (k : Context) (c : ContractContext) (op : Op)
    → is_call k ≡ false
    → Refines
        (eval_leaf env (record inputs { context = k }) op)
        (eval_leaf env (record inputs { context = contract c }) op)
unfolding eval_leaf arg min_signers fn_in arg_addr_eq arg_addr_is_self arg_sym_eq arg_u32_eq
    arg_i128_eq arg_bytes_eq arg_str_in arg_str_prefix arg_count ledger_before ledger_at_or_after
leaf-Refines env inputs (contract d) c op h = cc
leaf-Refines env inputs k c (min_signers_op n) h = inr refl
leaf-Refines env inputs k c (ledger_before_op n) h = inr refl
leaf-Refines env inputs k c (ledger_at_or_after_op n) h = inr refl
leaf-Refines env inputs k c _ h = inl refl

-- A validated program that allows a context which is no contract call allows every contract call
-- by the same signers of the same account at the same ledger: no guardrail on the call is passed
-- by a context that it cannot read.
pub eval-opaque_context :
    (p : RpnProgram) (env : Env) (inputs : EvalInputs) (k : Context) (c : ContractContext)
    → validate p ≡ ok tt
    → is_call k ≡ false
    → eval env p (record inputs { context = k }) ≡ true_v
    → eval env p (record inputs { context = contract c }) ≡ true_v
eval-opaque_context p env inputs k c v h =
    eval-Refines p env env _ _ v (λ op. leaf-Refines env inputs k c op h)
