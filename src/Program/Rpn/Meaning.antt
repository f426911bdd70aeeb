-- ===== src/Program/Rpn/Meaning.antt =====
-- A validated program spells one expression, and evaluates to what the expression means.
use mathlib.Core.List.{append_assoc, append-nil}
use perch.Common.{ℕ, ◌≤◌, ◌≡◌, refl, some, List, [], ◌∷◌, arith, true, ok, >>=-eq-ok}
use perch.Program.Leaf.{Env, EvalInputs}
use perch.Program.Rpn.{
  Op, depth_after, simulate, validate, RpnProgram, Machine, run, eval, start, max_stack_depth,
}
use perch.Program.Rpn.Stack.{Shows}
use perch.Program.Rpn.Tree.{
  Tree, Forest, nil, cons, size, flatten, flatten_forest, is_expr, are_exprs, verdicts, denote,
}
use perch.Program.Rpn.Ops.{leaves, Takes, Spells, op_total, depth_after-ok}

-- A whole run.
abbrev Runs : List Op → Forest → Forest → Type 0
Runs ops f g =
    (env : Env) (inputs : EvalInputs) (m : Machine)
    → Shows m (verdicts (leaves env inputs) f)
    → (m' : Machine) × (run env inputs ops m ≡ some m') × Shows m' (verdicts (leaves env inputs) g)

Runs-cons :
    (op : Op) (ops : List Op) (f g k : Forest) → Takes op f g → Runs ops g k → Runs (op ∷ ops) f k
unfolding run
Runs-cons op ops f g k t r env inputs m s =
    let (m₁, e, s₁) = t env inputs m s in
    let (m₂, e₂, s₂) = r env inputs m₁ s₁ in (m₂, rw (e, run) e₂, s₂)

run_total :
    (ops : List Op) (f : Forest) (d : ℕ)
    → size f ≤ max_stack_depth
    → simulate ops (size f) ≡ ok d
    → (g : Forest) × Spells ops f g d × Runs ops f g
unfolding simulate run
run_total [] f d b e = (
  f,
  record { flat = rw append-nil; sized = ground (arith, e); exprs = λ h. h },
  λ env inputs m s. (m, refl, s),
)
run_total (op ∷ ops) f d b e =
    let (d₁, e₁, e₂) = >>=-eq-ok (depth_after op (size f)) (simulate ops) e in
    let (g, s, t) = op_total op f d₁ b e₁ in
    let (k, s', r) =
      run_total ops g d (omega (arith, s.sized, depth_after-ok op (size f) d₁ e₁))
        (rw s.sized e₂) in
    (
      k,
      record {
        flat = rw (s'.flat, s.flat, append_assoc);
        sized = s'.sized;
        exprs = λ h. s'.exprs (s.exprs h);
      },
      Runs-cons op ops f g k t r,
    )

size_one : (g : Forest) → size g ≡ 1 → (t : Tree) × (g ≡ cons t nil)
size_one nil h = absurd (omega arith)
size_one (cons t nil) h = (t, refl)
size_one (cons t (cons u f)) h = absurd (omega arith)

pub validate-simulate : (p : RpnProgram) → validate p ≡ ok tt → simulate p.ops 0 ≡ ok 1
unfolding validate
validate-simulate p h = ground arith

-- The expression of a program, and its evaluation wherever it runs.
abbrev pub Denotes : RpnProgram → Tree → Type 0
Denotes p t =
    (flatten t ≡ p.ops)
    × (is_expr t ≡ true)
    × ((env : Env) (inputs : EvalInputs) → eval env p inputs ≡ denote (leaves env inputs) t)

eval-cons :
    (p : RpnProgram) (t : Tree)
    → Runs p.ops nil (cons t nil)
    → (env : Env) (inputs : EvalInputs) → eval env p inputs ≡ denote (leaves env inputs) t
unfolding eval
eval-cons p t r env inputs =
    let (m, e, (q, (v, _))) = r env inputs start (refl, tt) in rw (e, eval) (rw (q, v))

-- A program that passes validation is the postfix form of one expression whose leaves are leaf ops
-- and whose composites have operands, and in every environment and for all inputs its
-- evaluation is the expression's three-valued meaning: no defensive `Unknown` is ever taken.
pub validate-Denotes : (p : RpnProgram) → validate p ≡ ok tt → (t : Tree) × Denotes p t
unfolding flatten_forest are_exprs
validate-Denotes p h =
    let (g, s, r) = run_total p.ops nil 1 (omega arith) (validate-simulate p h) in
    let (t, e) = size_one g s.sized in
    (t, (rw e at s.flat, ground (arith, s.exprs refl, e), eval-cons p t (rw e at r)))
