-- ===== src/Program/Rpn/Closed.antt =====
-- Malformed programs deny: only ops that pass the stack simulation evaluate to a definite verdict.
use perch.Common.{
  ℕ, zero, suc, ◌+◌, ◌-◌, ◌≤◌, ◌≡◌, ◌≢◌, refl, some, none, List, [], ◌∷◌, arith, ok, err, ◌>>=◌,
  Result, Option,
}
use perch.Program.Verdict.{Verdict, unknown, and, or}
use perch.Program.Leaf.{Env, EvalInputs}
use perch.Program.Rpn.{
  Op, all_op, any_op, not_op, pops, depth_after, simulate, RpnProgram, Machine, step, run, eval,
  apply_op, push, start, fold_pops, max_stack_depth, ValidationError,
}

fold_pops-sp :
    (join : Verdict → Verdict → Verdict) (n : ℕ) (m : Machine) (v : Verdict)
    → n ≤ m.sp
    → (fold_pops join n m v).0.sp + n ≡ m.sp
unfolding fold_pops
fold_pops-sp join zero m v h = omega arith
fold_pops-sp join (suc n) m v h =
    omega (arith, fold_pops-sp join n (record m { sp = m.sp - 1 }) (join v (m.stack (m.sp - 1))))

-- The simulation and the machine agree on an op: both go on, to the same depth, or both stop.
abbrev pub Agree : Result ValidationError ℕ → Option Machine → Type 0
Agree (ok d) (some m) = (m.sp ≡ d) × (d ≤ max_stack_depth)
Agree (err e) none = Unit
Agree _ _ = ⊥

module _ (env : Env) (inputs : EvalInputs) where
  pub step-Agree :
      (op : Op) (m : Machine)
      → m.sp ≤ max_stack_depth
      → Agree (depth_after op m.sp) (step env inputs op m)
  unfolding depth_after pops step apply_op push
  step-Agree (all_op n) m h = ground (arith, fold_pops-sp and n m Verdict.true_v)
  step-Agree (any_op n) m h = ground (arith, fold_pops-sp or n m Verdict.false_v)
  step-Agree not_op m h = ground arith
  step-Agree op m h = ground arith

  Agree-bind :
      (r : Result ValidationError ℕ) (o : Option Machine) (ops : List Op)
      → ((d : ℕ) (m : Machine)
          → (m.sp ≡ d)
          → (d ≤ max_stack_depth)
          → Agree (simulate ops d) (run env inputs ops m))
      → Agree r o
      → Agree (r >>= simulate ops) (elim o [ none ↦ none | some m ↦ run env inputs ops m ])
  Agree-bind (ok d) (some m) ops k (e, h) = k d m e h
  Agree-bind (ok d) none ops k h = absurd h
  Agree-bind (err e) (some m) ops k h = absurd h
  Agree-bind (err e) none ops k h = tt

  run-Agree :
      (ops : List Op) (m : Machine)
      → m.sp ≤ max_stack_depth
      → Agree (simulate ops m.sp) (run env inputs ops m)
  unfolding simulate run
  run-Agree [] m h = (refl, h)
  run-Agree (op ∷ ops) m h =
      Agree-bind (depth_after op m.sp) (step env inputs op m) ops
        (λ d m' e b. rw (← e) (run-Agree ops m' (omega arith))) (step-Agree op m h)

-- A program of any version and length evaluates to a definite verdict only if its ops pass the
-- stack simulation of validation and leave exactly one value: an op of zero arity, an underflow,
-- an overflow and a wrong number of results all evaluate to `Unknown`.
pub eval-simulate :
    (env : Env) (p : RpnProgram) (inputs : EvalInputs)
    → eval env p inputs ≢ unknown
    → simulate p.ops 0 ≡ ok 1
unfolding eval
eval-simulate env p inputs h = ground (arith, run-Agree env inputs p.ops start)
