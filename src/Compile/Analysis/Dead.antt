-- ===== src/Compile/Analysis/Dead.antt =====
-- crates/perch-compile/src/analysis.rs: a program that the analysis calls dead authorizes nothing.
use mathlib.Core.Path.{subst}
use perch.Common.{
  ℕ, zero, suc, ◌+◌, ◌-◌, ◌≤◌, ◌≡◌, refl, true, false, Option, none, some, List, [], ◌∷◌, arith,
  length, update, ◌==◌, Option-cases, Bool-cases, inl, inr, ◌||◌, if◌then◌else◌, ltb,
}
use perch.Program.Verdict.{Verdict, false_v, true_v, unknown, and, or, negate, rank, from_bool}
use perch.Program.Leaf.{Env, EvalInputs, min_signers, ledger_before}
use perch.Program.Rpn.{
  max_stack_depth, Op, all_op, any_op, not_op, min_signers_op, ledger_before_op, RpnProgram,
  Machine, fold_pops, eval_leaf, apply_op, push, step, run, start, eval,
}
use perch.Compile.Analysis.{
  Interval, leaf_interval, fold_intervals, fold_op, step_interval, run_intervals, greatest,
  max_verdict, can_ever_authorize,
}

abbrev Between : Verdict → Interval → Type 0
Between v (lo, hi) = (rank lo ≤ rank v) × (rank v ≤ rank hi)

-- The slots of the array lie in the intervals, the top first.
abbrev InRange : (ℕ → Verdict) → List Interval → Type 0
InRange stack [] = Unit
InRange stack (i ∷ is) = Between (stack (length is)) i × InRange stack is

abbrev Within : Machine → List Interval → Type 0
Within m is = (m.sp ≡ length is) × InRange m.stack is

InRange-update :
    (stack : ℕ → Verdict) (is : List Interval) (n : ℕ) (v : Verdict)
    → length is ≤ n
    → InRange stack is
    → InRange (update stack n v) is
InRange-update stack [] n v h r = tt
InRange-update stack (i ∷ is) n v h (b, r) =
    (ground (arith, b), InRange-update stack is n v (omega arith) r)

leaf-Between :
    (env : Env) (inputs : EvalInputs) (op : Op)
    → Between (eval_leaf env inputs op) (leaf_interval op)
unfolding leaf_interval eval_leaf min_signers ledger_before from_bool
leaf-Between env inputs (min_signers_op zero) = ground arith
leaf-Between env inputs (ledger_before_op zero) = ground arith
leaf-Between env inputs op = ground arith

module _ (join : Verdict → Verdict → Verdict)
    (mono : (a b c d : Verdict)
      → rank a ≤ rank b
      → rank c ≤ rank d
      → rank (join a c) ≤ rank (join b d)) where
  fold_total :
      (n : ℕ) (m : Machine) (v : Verdict) (is : List Interval) (i : Interval)
      → n ≤ length is
      → Within m is
      → Between v i
      → (rest : List Interval) × (j : Interval) × (fold_intervals join n is i ≡ some (rest, j))
        × Within (fold_pops join n m v).0 rest
        × Between (fold_pops join n m v).1 j
  unfolding fold_intervals fold_pops
  fold_total zero m v is i h w b = (is, i, refl, w, b)
  fold_total (suc n) m v [] i h w b = absurd (omega arith)
  fold_total (suc n) m v ((l, k) ∷ is) (lo, hi) h (s, ((p, q), r)) (b, c) =
      let e : m.sp - 1 ≡ length is = omega arith in
      fold_total n (record m { sp = m.sp - 1 }) (join v (m.stack (m.sp - 1))) is
        (join lo l, join hi k) (omega arith) (e, r)
        (mono lo v l (m.stack (m.sp - 1)) b (rw e p), mono v hi (m.stack (m.sp - 1)) k c (rw e q))

and_mono : (a b c d : Verdict) → rank a ≤ rank b → rank c ≤ rank d → rank (and a c) ≤ rank (and b d)
unfolding and
and_mono a b c d h k = ground arith

or_mono : (a b c d : Verdict) → rank a ≤ rank b → rank c ≤ rank d → rank (or a c) ≤ rank (or b d)
unfolding or
or_mono a b c d h k = ground arith

negate-Between :
    (v lo hi : Verdict) → Between v (lo, hi) → Between (negate v) (negate hi, negate lo)
unfolding negate
negate-Between v lo hi b = ground (arith, b)

push-Within :
    (m m' : Machine) (v : Verdict) (is : List Interval) (i : Interval)
    → push (m, v) ≡ some m'
    → Within m is
    → Between v i
    → Within m' (i ∷ is)
unfolding push
push-Within m m' v is i h (s, r) b =
    let e : record { stack = update m.stack m.sp v; sp = m.sp + 1 } ≡ m' = ground arith in
    subst (λ (k : Machine). Within k (i ∷ is)) e
      (omega arith, (ground (arith, b, s), InRange-update m.stack is m.sp v (omega arith) r))

abbrev Tracks : Option Machine → Option (List Interval) → Type 0
Tracks none is = Unit
Tracks (some m) none = ⊥
Tracks (some m) (some is) = Within m is

module _ (env : Env) (inputs : EvalInputs) where
  push-Tracks :
      (m : Machine) (v : Verdict) (is : List Interval) (i : Interval)
      → Within m is
      → Between v i
      → Tracks (push (m, v)) (some (i ∷ is))
  push-Tracks m v is i w b = elim (Option-cases (push (m, v))) [
    | inl n ↦ rw n tt
    | inr (m', e) ↦ rw e (push-Within m m' v is i e w b)
  ]

  fold-Tracks :
      (join : Verdict → Verdict → Verdict) (unit : Verdict)
      → ((a b c d : Verdict)
          → rank a ≤ rank b
          → rank c ≤ rank d
          → rank (join a c) ≤ rank (join b d))
      → (n : ℕ) (m : Machine) (is : List Interval) → Within m is
      → (n == 0) || ltb m.sp n ≡ false
      → Tracks (push (fold_pops join n m unit)) (fold_op join n unit is)
  unfolding fold_op
  fold-Tracks join unit mono n m is w h =
      let (rest, j, e, w', b) =
        fold_total join mono n m unit is (unit, unit) (ground (arith, w)) w
          (omega arith, omega arith) in
      let g : (n == 0) || ltb (length is) n ≡ false = ground (arith, w) in
      rw (g, e) (push-Tracks (fold_pops join n m unit).0 (fold_pops join n m unit).1 rest j w' b)

  guard-Tracks :
      (m : Machine) (o : Option Machine) (is : Option (List Interval))
      → Tracks o is
      → Tracks (if ltb max_stack_depth m.sp then none else o) is
  guard-Tracks m o is t = elim (Bool-cases (ltb max_stack_depth m.sp)) [
    | inl e ↦ rw e tt
    | inr e ↦ rw e t
  ]

  step-Tracks :
      (op : Op) (m : Machine) (is : List Interval)
      → Within m is
      → Tracks (step env inputs op m) (step_interval op is)
  unfolding step apply_op step_interval
  step-Tracks (all_op n) m is w = elim (Bool-cases (ltb max_stack_depth m.sp)) [
    | inl o ↦ rw o tt
    | inr p ↦ elim (Bool-cases ((n == 0) || ltb m.sp n)) [
      | inl z ↦ rw (p, z) tt
      | inr q ↦ rw (p, q) (fold-Tracks and true_v and_mono n m is w q)
    ]
  ]
  step-Tracks (any_op n) m is w = elim (Bool-cases (ltb max_stack_depth m.sp)) [
    | inl o ↦ rw o tt
    | inr p ↦ elim (Bool-cases ((n == 0) || ltb m.sp n)) [
      | inl z ↦ rw (p, z) tt
      | inr q ↦ rw (p, q) (fold-Tracks or false_v or_mono n m is w q)
    ]
  ]
  step-Tracks not_op m [] w =
      let z : m.sp == 0 ≡ true = ground (arith, w) in rw z (guard-Tracks m none none tt)
  step-Tracks not_op m ((lo, hi) ∷ is) (s, (b, r)) =
      let z : m.sp == 0 ≡ false = ground (arith, s) in
      let e : m.sp - 1 ≡ length is = omega arith in
      rw z (
        guard-Tracks m (push (record m { sp = m.sp - 1 }, negate (m.stack (m.sp - 1))))
          (some ((negate hi, negate lo) ∷ is))
          (push-Tracks (record m { sp = m.sp - 1 }) (negate (m.stack (m.sp - 1))) is
            (negate hi, negate lo) (e, r) (negate-Between (m.stack (m.sp - 1)) lo hi (rw e b))))
  step-Tracks op m is w =
      guard-Tracks m (push (m, eval_leaf env inputs op)) (some (leaf_interval op ∷ is)) (
        push-Tracks m (eval_leaf env inputs op) is (leaf_interval op) w
          (leaf-Between env inputs op))

  Tracks-bind :
      (o : Option Machine) (p : Option (List Interval)) (ops : List Op)
      → Tracks o p
      → ((m : Machine) (is : List Interval)
          → Within m is
          → Tracks (run env inputs ops m) (run_intervals ops is))
      → Tracks
          (elim o [ none ↦ none | some m ↦ run env inputs ops m ])
          (elim p [ none ↦ none | some is ↦ run_intervals ops is ])
  Tracks-bind none p ops t k = tt
  Tracks-bind (some m) none ops t k = absurd t
  Tracks-bind (some m) (some is) ops t k = k m is t

  run-Tracks :
      (ops : List Op) (m : Machine) (is : List Interval)
      → Within m is
      → Tracks (run env inputs ops m) (run_intervals ops is)
  unfolding run run_intervals
  run-Tracks [] m is w = w
  run-Tracks (op ∷ ops) m is w =
      Tracks-bind (step env inputs op m) (step_interval op is) ops (step-Tracks op m is w)
        (λ m' is' w'. run-Tracks ops m' is' w')

finish-greatest :
    (o : Option Machine) (p : Option (List Interval))
    → Tracks o p
    → (elim o [ none ↦ unknown | some m ↦ if m.sp == 1 then m.stack 0 else unknown ]) ≡ true_v
    → (rank (elim p [ none ↦ unknown | some is ↦ greatest is ]) == 2) ≡ true
finish-greatest none p t h = absurd cc
finish-greatest (some m) none t h = absurd t
finish-greatest (some m) (some []) (s, r) h = absurd (ground (arith, h, s))
finish-greatest (some m) (some ((lo, hi) ∷ [])) (s, (b, r)) h = ground (arith, h, s, b)
finish-greatest (some m) (some (i ∷ (j ∷ is))) (s, r) h = absurd (ground (arith, h, s))

-- Whatever a program evaluates to `True` for, by any context, signers and environment, the analysis
-- does not call the program dead: `can_ever_authorize` is false only of programs, well-formed or
-- not, that authorize nothing.
pub eval-can_ever_authorize :
    (env : Env) (p : RpnProgram) (inputs : EvalInputs)
    → eval env p inputs ≡ true_v
    → can_ever_authorize p ≡ true
unfolding eval can_ever_authorize max_verdict
eval-can_ever_authorize env p inputs h =
    finish-greatest (run env inputs p.ops start) (run_intervals p.ops [])
      (run-Tracks env inputs p.ops start [] (refl, tt)) h
