-- ===== src/Compile/Analysis/Bounds.antt =====
-- crates/perch-compile/src/analysis.rs: the worst-case bounds hold of every run.
use perch.Common.{
  ℕ, zero, suc, ◌-◌, ◌≤◌, ◌≡◌, refl, some, List, [], ◌∷◌, arith, length, take, ok, err, Result,
  >>=-eq-ok, Option-cases, inl, inr,
}
use perch.Program.Leaf.{Env, EvalInputs}
use perch.Program.Rpn.{
  Op, all_op, any_op, not_op, RpnProgram, Machine, step, run, start, pops, depth_after, simulate,
  validate, max_stack_depth, max_program_len, ValidationError,
}
use perch.Program.Rpn.Closed.{Agree, step-Agree}
use perch.Program.Rpn.Meaning.{validate-simulate}
use perch.Compile.Analysis.{popped, saturating_suc, larger, peak, program_bounds}

depth_after-popped :
    (op : Op) (d e : ℕ)
    → depth_after op d ≡ ok e
    → (e ≡ saturating_suc (d - popped op)) × (e ≤ max_stack_depth)
unfolding depth_after pops
depth_after-popped (all_op n) d e h = ground arith
depth_after-popped (any_op n) d e h = ground arith
depth_after-popped not_op d e h = ground arith
depth_after-popped op d e h = ground arith

le-peak : (ops : List Op) (d top : ℕ) → top ≤ peak ops d top
unfolding peak
le-peak [] d top = omega arith
le-peak (op ∷ ops) d top =
    let next = saturating_suc (d - popped op) in ground (arith, le-peak ops next (larger top next))

peak-le :
    (ops : List Op) (d top r : ℕ)
    → simulate ops d ≡ ok r
    → top ≤ max_stack_depth
    → peak ops d top ≤ max_stack_depth
unfolding peak simulate
peak-le [] d top r h b = b
peak-le (op ∷ ops) d top r h b =
    let (e, p, q) = >>=-eq-ok (depth_after op d) (simulate ops) h in
    let (s, t) = depth_after-popped op d e p in
    let next = saturating_suc (d - popped op) in
    peak-le ops next (larger top next) r (rw s at q) (ground (arith, s))

Agree-popped :
    (op : Op) (d : ℕ) (r : Result ValidationError ℕ) (m : Machine)
    → depth_after op d ≡ r
    → Agree r (some m)
    → (m.sp ≡ saturating_suc (d - popped op)) × (m.sp ≤ max_stack_depth)
Agree-popped op d (ok e) m q (s, b) =
    let (t, c) = depth_after-popped op d e q in (omega (arith, s, t), omega arith)
Agree-popped op d (err x) m q a = absurd a

module _ (env : Env) (inputs : EvalInputs) where
  step-popped :
      (op : Op) (m m' : Machine)
      → m.sp ≤ max_stack_depth
      → step env inputs op m ≡ some m'
      → (m'.sp ≡ saturating_suc (m.sp - popped op)) × (m'.sp ≤ max_stack_depth)
  step-popped op m m' b h =
      Agree-popped op m.sp (depth_after op m.sp) m' refl (rw h at (step-Agree env inputs op m b))

  run-le-peak :
      (ops : List Op) (k : ℕ) (m m' : Machine) (top : ℕ)
      → m.sp ≤ max_stack_depth
      → m.sp ≤ top
      → run env inputs (take k ops) m ≡ some m'
      → m'.sp ≤ peak ops m.sp top
  unfolding run peak
  run-le-peak ops zero m m' top b t h = ground (arith, h, le-peak ops m.sp top)
  run-le-peak [] (suc k) m m' top b t h = ground (arith, h)
  run-le-peak (op ∷ ops) (suc k) m m' top b t h = elim (Option-cases (step env inputs op m)) [
    | inl n ↦ absurd (ground (arith, h, n))
    | inr (m₁, e) ↦
        let (s, c) = step-popped op m m₁ b e in
        let next = saturating_suc (m.sp - popped op) in
        let r =
          run-le-peak ops k m₁ m' (larger top next) c (ground (arith, s)) (rw (e, run) at h) in
        rw s at r
  ]

validate-length : (p : RpnProgram) → validate p ≡ ok tt → length p.ops ≤ max_program_len
unfolding validate
validate-length p h = ground arith

-- The bounds of a validated program are within the limits of the interpreter, and at no point of any
-- evaluation does the stack hold more verdicts than the bound says.
pub program_bounds-validate :
    (p : RpnProgram) (env : Env) (inputs : EvalInputs) (k : ℕ) (m : Machine)
    → validate p ≡ ok tt
    → run env inputs (take k p.ops) start ≡ some m
    → ((program_bounds p).ops ≤ max_program_len)
      × (m.sp ≤ (program_bounds p).max_stack_depth)
      × ((program_bounds p).max_stack_depth ≤ max_stack_depth)
unfolding program_bounds
program_bounds-validate p env inputs k m h r = (
  validate-length p h,
  run-le-peak env inputs p.ops k start m 0 (omega arith) (omega arith) r,
  peak-le p.ops 0 0 1 (validate-simulate p h) (omega arith),
)
