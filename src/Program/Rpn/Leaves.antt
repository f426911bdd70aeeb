-- ===== src/Program/Rpn/Leaves.antt =====
-- Programs that are one conjunction of leaf ops, as the compiler of documents builds them.
use mathlib.Core.List.{append-nil}
use perch.Common.{
  Option, none, if◌then◌else◌, ℕ, suc, ◌+◌, ◌≤◌, ◌<◌, ◌≡◌, refl, sym, ◌∙◌, ◌↔◌, some, List, [], ◌∷◌,
  ◌++◌, arith, true, Bool, ◌&&◌, ok, length, >>=-eq-ok, ◌==◌,
}
use perch.Program.Verdict.{Verdict, true_v, unknown, and}
use perch.Program.Leaf.{Env, EvalInputs}
use perch.Program.Rpn.{
  fold_pops, Op, all_op, any_op, not_op, eval_leaf, apply_op, push, step, run, eval, start, Machine,
  max_stack_depth, depth_after, pops, simulate, validate, RpnProgram, program_version,
}
use perch.Program.Rpn.Tree.{is_leaf}
use perch.Program.Rpn.Meaning.{validate-simulate}
use perch.Program.Rpn.Stack.{Shows, push-Shows, fold_list, fold_pops-Shows, at_depth}

abbrev pub are_leaves : List Op → Bool
are_leaves [] = true
are_leaves (op ∷ ops) = is_leaf op && are_leaves ops

-- Each leaf is true.
abbrev pub AllTrue : Env → EvalInputs → List Op → Type 0
AllTrue env inputs [] = Unit
AllTrue env inputs (op ∷ ops) = (eval_leaf env inputs op ≡ true_v) × AllTrue env inputs ops

-- The program with these leaves.
abbrev pub conjunction_of : List Op → RpnProgram
conjunction_of leaves = record {
  version = program_version;
  ops = leaves ++ all_op (length leaves) ∷ [];
}

module _ (env : Env) (inputs : EvalInputs) where
  abbrev pushed : List Op → List Verdict → List Verdict
  pushed [] vs = vs
  pushed (op ∷ ops) vs = pushed ops (eval_leaf env inputs op ∷ vs)

  length-pushed :
      (ops : List Op) (vs : List Verdict) → length (pushed ops vs) ≡ length ops + length vs
  length-pushed [] vs = omega arith
  length-pushed (op ∷ ops) vs = omega (arith, length-pushed ops (eval_leaf env inputs op ∷ vs))

  step-leaf :
      (op : Op) (m : Machine)
      → is_leaf op ≡ true
      → m.sp ≤ max_stack_depth
      → step env inputs op m ≡ push (m, eval_leaf env inputs op)
  unfolding step apply_op
  step-leaf (all_op n) m l h = absurd (cc)
  step-leaf (any_op n) m l h = absurd (cc)
  step-leaf not_op m l h = absurd (cc)
  step-leaf op m l h = ground arith

  run-leaves :
      (ops rest : List Op) (m : Machine) (vs : List Verdict)
      → are_leaves ops ≡ true
      → length ops + length vs ≤ max_stack_depth
      → Shows m vs
      → (m' : Machine) × (run env inputs (ops ++ rest) m ≡ run env inputs rest m')
        × Shows m' (pushed ops vs)
  unfolding run
  run-leaves [] rest m vs l h s = (m, refl, s)
  run-leaves (op ∷ ops) rest m vs l h s =
      let (m₁, e, s₁) = push-Shows m vs (eval_leaf env inputs op) (omega arith) s in
      let t : step env inputs op m ≡ some m₁ =
        step-leaf op m (ground (arith, l)) (omega (arith, s.0)) ∙ e in
      let (m', e', s') =
        run-leaves ops rest m₁ (eval_leaf env inputs op ∷ vs) (ground (arith, l)) (omega arith)
          s₁ in
      (m', rw (t, run) e', s')

  abbrev AreTrue : List Verdict → Type 0
  AreTrue [] = Unit
  AreTrue (v ∷ vs) = (v ≡ true_v) × AreTrue vs

  fold_and_iff :
      (v : Verdict) (vs : List Verdict)
      → (fold_list and v vs ≡ true_v) ↔ ((v ≡ true_v) × AreTrue vs)
  unfolding and
  fold_and_iff v [] = (λ h. (h, tt), λ (h, _). h)
  fold_and_iff v (x ∷ xs) =
      let (there, back) = fold_and_iff (and v x) xs in
      (
        λ h. let (e, r) = there h in (ground (arith, e), (ground (arith, e), r)),
        λ (e, (f, r)). back (ground (arith, e, f), r),
      )

  pushed_iff :
      (ops : List Op) (vs : List Verdict)
      → AreTrue (pushed ops vs) ↔ (AllTrue env inputs ops × AreTrue vs)
  pushed_iff [] vs = (λ h. (tt, h), λ (_, h). h)
  pushed_iff (op ∷ ops) vs =
      let (there, back) = pushed_iff ops (eval_leaf env inputs op ∷ vs) in
      (λ h. let (a, (e, r)) = there h in ((e, a), r), λ ((e, a), r). back (a, (e, r)))

depth_after-leaf :
    (op : Op) (d e : ℕ)
    → is_leaf op ≡ true
    → depth_after op d ≡ ok e
    → (e ≡ suc d) × (e ≤ max_stack_depth)
unfolding depth_after pops
depth_after-leaf (all_op n) d e l h = absurd (cc)
depth_after-leaf (any_op n) d e l h = absurd (cc)
depth_after-leaf not_op d e l h = absurd (cc)
depth_after-leaf op d e l h = ground arith

simulate-leaves :
    (ops rest : List Op) (d r : ℕ)
    → are_leaves ops ≡ true
    → d ≤ max_stack_depth
    → simulate (ops ++ rest) d ≡ ok r
    → length ops + d ≤ max_stack_depth
unfolding simulate
simulate-leaves [] rest d r l b h = omega arith
simulate-leaves (op ∷ ops) rest d r l b h =
    let (e, p, q) = >>=-eq-ok (depth_after op d) (simulate (ops ++ rest)) h in
    let (s, t) = depth_after-leaf op d e (ground (arith, l)) p in
    omega (arith, simulate-leaves ops rest e r (ground (arith, l)) t q)

-- Validation bounds the leaves by the stack.
pub validate-leaves :
    (leaves : List Op)
    → are_leaves leaves ≡ true
    → validate (conjunction_of leaves) ≡ ok tt
    → length leaves ≤ max_stack_depth
validate-leaves leaves l h =
    let e = validate-simulate (conjunction_of leaves) h in
    omega (arith, simulate-leaves leaves (all_op (length leaves) ∷ []) 0 1 l (omega arith) e)

abbrev finish : Option Machine → Verdict
finish none = unknown
finish (some m) = if m.sp == 1 then m.stack 0 else unknown

all_op-last :
    (env : Env) (inputs : EvalInputs) (m : Machine) (n : ℕ) (xs : List Verdict)
    → 0 < n
    → n ≤ max_stack_depth
    → length xs ≡ n
    → Shows m xs
    → fold_pops and (length xs) m true_v ≡ (at_depth m 0, fold_list and true_v xs)
    → finish (run env inputs (all_op n ∷ []) m) ≡ fold_list and true_v xs
unfolding run step apply_op push
all_op-last env inputs m n xs p b q s f =
    let f' : fold_pops and n m true_v ≡ (at_depth m 0, fold_list and true_v xs) = rw (← q) f in
    ground (arith, f', s.0)

-- A conjunction of at least one leaf that passes validation is true exactly when each leaf is.
pub eval-conjunction :
    (env : Env) (inputs : EvalInputs) (leaves : List Op)
    → are_leaves leaves ≡ true
    → 0 < length leaves
    → length leaves ≤ max_stack_depth
    → (eval env (conjunction_of leaves) inputs ≡ true_v) ↔ AllTrue env inputs leaves
unfolding eval
eval-conjunction env inputs leaves l p b =
    let xs = pushed env inputs leaves [] in
    let n : length xs ≡ length leaves = omega (arith, length-pushed env inputs leaves []) in
    let (m, e, s) =
      run-leaves env inputs leaves (all_op (length leaves) ∷ []) start [] l (omega arith)
        (refl, tt) in
    let (f, g) = fold_pops-Shows and xs [] m true_v (rw append-nil s) in
    let q : eval env (conjunction_of leaves) inputs ≡ fold_list and true_v xs =
      rw (e, eval) (all_op-last env inputs m (length leaves) xs p b n s f) in
    let (there, back) = fold_and_iff env inputs true_v xs in
    let (there', back') = pushed_iff env inputs leaves [] in
    (λ h. (there' (there (sym q ∙ h)).1).0, λ h. q ∙ back (refl, back' (h, tt)))
