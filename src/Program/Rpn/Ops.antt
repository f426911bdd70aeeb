-- ===== src/Program/Rpn/Ops.antt =====
-- One op of a validated program takes a stack of expressions to the next.
use mathlib.Core.List.{append_assoc}
use perch.Common.{
  ℕ, suc, ◌+◌, ◌-◌, ◌≤◌, ◌<◌, ◌≡◌, refl, some, List, [], ◌∷◌, ◌++◌, arith, true, ok, length,
  length-append,
}
use perch.Program.Verdict.{Verdict, and, or, true_v, false_v}
use perch.Program.Leaf.{Env, EvalInputs}
use perch.Program.Rpn.{
  Op, all_op, any_op, not_op, pops, depth_after, Machine, step, eval_leaf, apply_op, fold_pops,
  max_stack_depth,
}
use perch.Program.Rpn.Stack.{Shows, at_depth, push-Shows, fold_pops-Shows, fold_list}
use perch.Program.Rpn.Tree.{
  Tree, leaf, negation, conjunction, disjunction, Forest, nil, cons, size, flatten_forest, is_expr,
  are_exprs, verdicts, denote, length-verdicts, is_leaf,
}
use perch.Program.Rpn.Shape.{
  append, flatten-append, verdicts-append, are_exprs-append, split_at_total, fold-and, fold-or,
  and_true, or_false,
}

-- The meaning of a leaf op in one evaluation.
module _ (env : Env) (inputs : EvalInputs) where
  abbrev pub leaves : Op → Verdict
  leaves = eval_leaf env inputs

-- An op in the loop takes the stack of expressions `f` to `g`, whatever the evaluation.
abbrev pub Takes : Op → Forest → Forest → Type 0
Takes op f g =
    (env : Env) (inputs : EvalInputs) (m : Machine)
    → Shows m (verdicts (leaves env inputs) f)
    → (m' : Machine) × (step env inputs op m ≡ some m') × Shows m' (verdicts (leaves env inputs) g)

depth_after-all :
    (n d d' : ℕ)
    → depth_after (all_op n) d ≡ ok d'
    → (0 < n) × (n ≤ d) × (d' ≡ d - n + 1) × (d' ≤ max_stack_depth)
unfolding depth_after pops
depth_after-all n d d' h = ground arith

depth_after-any :
    (n d d' : ℕ)
    → depth_after (any_op n) d ≡ ok d'
    → (0 < n) × (n ≤ d) × (d' ≡ d - n + 1) × (d' ≤ max_stack_depth)
unfolding depth_after pops
depth_after-any n d d' h = ground arith

depth_after-not :
    (d d' : ℕ) → depth_after not_op d ≡ ok d' → (0 < d) × (d' ≡ d) × (d' ≤ max_stack_depth)
unfolding depth_after pops
depth_after-not d d' h = ground arith

depth_after-leaf :
    (op : Op) (d d' : ℕ)
    → is_leaf op ≡ true
    → depth_after op d ≡ ok d'
    → (d' ≡ d + 1) × (d' ≤ max_stack_depth)
unfolding depth_after pops
depth_after-leaf (all_op n) d d' l h = cc
depth_after-leaf (any_op n) d d' l h = cc
depth_after-leaf op d d' l h = ground arith

pub depth_after-ok : (op : Op) (d d' : ℕ) → depth_after op d ≡ ok d' → d' ≤ max_stack_depth
unfolding depth_after
depth_after-ok op d d' h = ground arith

-- A round whose op leaves the machine at `m₁` with verdict `v` to push.
step-push :
    (env : Env) (inputs : EvalInputs) (op : Op) (m m₁ : Machine) (v : Verdict) (vs : List Verdict)
    → m.sp ≤ max_stack_depth
    → apply_op env inputs op m ≡ some (m₁, v)
    → Shows m₁ vs
    → length vs < max_stack_depth
    → (m' : Machine) × (step env inputs op m ≡ some m') × Shows m' (v ∷ vs)
unfolding step
step-push env inputs op m m₁ v vs b e s l =
    let (m', p, q) = push-Shows m₁ vs v l s in (m', ground (arith, e, p), q)

Takes-leaf :
    (op : Op) (f : Forest)
    → is_leaf op ≡ true
    → size f < max_stack_depth
    → Takes op f (cons (leaf op) f)
unfolding denote apply_op
Takes-leaf (all_op n) f l b env inputs m s = cc
Takes-leaf (any_op n) f l b env inputs m s = cc
Takes-leaf not_op f l b env inputs m s = cc
Takes-leaf op f l b env inputs m s =
    let e = length-verdicts (leaves env inputs) f in
    step-push env inputs op m m _ (verdicts (leaves env inputs) f) (omega arith) refl s
      (omega arith)

Takes-not :
    (t : Tree) (f : Forest)
    → size f < max_stack_depth
    → Takes not_op (cons t f) (cons (negation t) f)
unfolding denote apply_op
Takes-not t f b env inputs m (e, (et, hs)) =
    let l = length-verdicts (leaves env inputs) f in
    let p : m.sp - 1 ≡ length (verdicts (leaves env inputs) f) = omega arith in
    step-push env inputs not_op m (at_depth m (length (verdicts (leaves env inputs) f))) _
      (verdicts (leaves env inputs) f) (omega arith) (ground (arith, p, et)) (refl, hs)
      (omega arith)

-- The pops of a composite over the operands `g` above `h`.
composite :
    (join : Verdict → Verdict → Verdict) (v : Verdict) (g h : Forest) (ls : Op → Verdict)
    (m : Machine)
    → Shows m (verdicts ls (append g h))
    → (fold_pops join (size g) m v
        ≡ (at_depth m (length (verdicts ls h)), fold_list join v (verdicts ls g)))
      × Shows (at_depth m (length (verdicts ls h))) (verdicts ls h)
      × (m.sp ≡ size g + size h)
composite join v g h ls m s =
    let s' : Shows m (verdicts ls g ++ verdicts ls h) = rw verdicts-append at s in
    let (e, r) = fold_pops-Shows join (verdicts ls g) (verdicts ls h) m v s' in
    (
      rw length-verdicts at e,
      r,
      omega (
        arith,
        s'.0,
        length-append (verdicts ls g) (verdicts ls h),
        length-verdicts ls g,
        length-verdicts ls h,
      ),
    )

module _ (env : Env) (inputs : EvalInputs) (n : ℕ) (m : Machine) where
  apply_op-all :
      (r : Machine × Verdict)
      → 0 < n
      → n ≤ m.sp
      → fold_pops and n m true_v ≡ r
      → apply_op env inputs (all_op n) m ≡ some r
  unfolding apply_op
  apply_op-all r p q e = rw (← e) (ground arith)

  apply_op-any :
      (r : Machine × Verdict)
      → 0 < n
      → n ≤ m.sp
      → fold_pops or n m false_v ≡ r
      → apply_op env inputs (any_op n) m ≡ some r
  unfolding apply_op
  apply_op-any r p q e = rw (← e) (ground arith)

Takes-all :
    (g h : Forest)
    → 0 < size g
    → size h < max_stack_depth
    → size g + size h ≤ max_stack_depth
    → Takes (all_op (size g)) (append g h) (cons (conjunction g) h)
unfolding denote
Takes-all g h p b c env inputs m s =
    let ls = leaves env inputs in
    let (e, r, d) = composite and true_v g h ls m s in
    let e' = rw (fold-and, and_true) at e in
    let l = length-verdicts ls h in
    step-push env inputs (all_op (size g)) m (at_depth m (length (verdicts ls h))) _ (verdicts ls h)
      (omega arith) (apply_op-all env inputs (size g) m _ p (omega arith) e') r (omega arith)

Takes-any :
    (g h : Forest)
    → 0 < size g
    → size h < max_stack_depth
    → size g + size h ≤ max_stack_depth
    → Takes (any_op (size g)) (append g h) (cons (disjunction g) h)
unfolding denote
Takes-any g h p b c env inputs m s =
    let ls = leaves env inputs in
    let (e, r, d) = composite or false_v g h ls m s in
    let e' = rw (fold-or, or_false) at e in
    let l = length-verdicts ls h in
    step-push env inputs (any_op (size g)) m (at_depth m (length (verdicts ls h))) _ (verdicts ls h)
      (omega arith) (apply_op-any env inputs (size g) m _ p (omega arith) e') r (omega arith)

-- The stack of expressions after a run of ops, its postfix form, and the machine that holds it.
pub record Spells (ops : List Op) (f g : Forest) (d : ℕ) : Type 0 where
  pub flat : flatten_forest g ≡ flatten_forest f ++ ops
  pub sized : size g ≡ d
  pub exprs : are_exprs f ≡ true → are_exprs g ≡ true

-- The stack of expressions after an op that validation lets pass.
abbrev pub Next : Op → Forest → ℕ → Type 0
Next op f d = (g : Forest) × Spells (op ∷ []) f g d × Takes op f g

module _ (n : ℕ) (f g h : Forest) (d : ℕ) (eq : f ≡ append g h) (sg : size g ≡ n) (pos : 0 < n)
    (fits : size h + n ≤ max_stack_depth) (room : size h < max_stack_depth)
    (sd : d ≡ size h + 1) where
  Next-all : Next (all_op n) f d
  unfolding flatten_forest is_expr are_exprs
  Next-all =
      rw (eq, ← sg)
        (
          cons (conjunction g) h,
          record {
            flat = rw (flatten-append, append_assoc);
            sized = omega arith;
            exprs = λ e. ground (arith, are_exprs-append g h e, sg);
          },
          Takes-all g h (omega arith) room (omega arith),
        )

  Next-any : Next (any_op n) f d
  unfolding flatten_forest is_expr are_exprs
  Next-any =
      rw (eq, ← sg)
        (
          cons (disjunction g) h,
          record {
            flat = rw (flatten-append, append_assoc);
            sized = omega arith;
            exprs = λ e. ground (arith, are_exprs-append g h e, sg);
          },
          Takes-any g h (omega arith) room (omega arith),
        )

pub op_total :
    (op : Op) (f : Forest) (d : ℕ)
    → size f ≤ max_stack_depth
    → depth_after op (size f) ≡ ok d
    → Next op f d
unfolding flatten_forest is_expr are_exprs
op_total (all_op n) f d b e =
    let (p, q, r, s) = depth_after-all n (size f) d e in
    let (g, h, _, eq, sg, sh) = split_at_total n f q in
    Next-all n f g h d eq sg p (omega arith) (omega arith) (omega arith)
op_total (any_op n) f d b e =
    let (p, q, r, s) = depth_after-any n (size f) d e in
    let (g, h, _, eq, sg, sh) = split_at_total n f q in
    Next-any n f g h d eq sg p (omega arith) (omega arith) (omega arith)
op_total not_op nil d b e = absurd (omega (arith, depth_after-not 0 d e))
op_total not_op (cons t f) d b e = (
  cons (negation t) f,
  record {
    flat = rw append_assoc;
    sized = omega (arith, depth_after-not (suc (size f)) d e);
    exprs = λ h. h;
  },
  Takes-not t f (omega arith),
)
op_total op f d b e =
    let (p, q) = depth_after-leaf op (size f) d refl e in
    (
      cons (leaf op) f,
      record { flat = refl; sized = omega arith; exprs = λ h. h },
      Takes-leaf op f refl (omega arith),
    )
