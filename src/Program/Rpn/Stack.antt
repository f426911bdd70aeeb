-- ===== src/Program/Rpn/Stack.antt =====
-- The array of `eval` and its top as a list of verdicts, the top first.
use perch.Common.{
  ℕ, ◌+◌, ◌-◌, ◌≤◌, ◌<◌, ◌≡◌, refl, some, List, [], ◌∷◌, ◌++◌, arith, length, update,
}
use perch.Program.Verdict.{Verdict}
use perch.Program.Rpn.{Machine, fold_pops, push, max_stack_depth}

abbrev pub Holds : (ℕ → Verdict) → List Verdict → Type 0
Holds stack [] = Unit
Holds stack (v ∷ vs) = (stack (length vs) ≡ v) × Holds stack vs

-- The machine holds these verdicts.
abbrev pub Shows : Machine → List Verdict → Type 0
Shows m vs = (m.sp ≡ length vs) × Holds m.stack vs

-- The fold of the popped verdicts, the top first.
abbrev pub fold_list : (Verdict → Verdict → Verdict) → Verdict → List Verdict → Verdict
fold_list join v [] = v
fold_list join v (x ∷ xs) = fold_list join (join v x) xs

Holds-update :
    (stack : ℕ → Verdict) (vs : List Verdict) (n : ℕ) (v : Verdict)
    → length vs ≤ n
    → Holds stack vs
    → Holds (update stack n v) vs
Holds-update stack [] n v h hs = tt
Holds-update stack (x ∷ xs) n v h (e, hs) =
    (ground (arith, e), Holds-update stack xs n v (omega arith) hs)

-- A push within the bound adds one verdict.
pub push-Shows :
    (m : Machine) (vs : List Verdict) (v : Verdict)
    → length vs < max_stack_depth
    → Shows m vs
    → (m' : Machine) × (push (m, v) ≡ some m') × Shows m' (v ∷ vs)
unfolding push
push-Shows m vs v h (e, hs) = (
  record { stack = update m.stack m.sp v; sp = m.sp + 1 },
  ground arith,
  (omega arith, (ground (arith, e), Holds-update m.stack vs m.sp v (omega arith) hs)),
)

abbrev pub at_depth : Machine → ℕ → Machine
at_depth m n = record m { sp = n }

-- A fold over the popped verdicts removes exactly those.
pub fold_pops-Shows :
    (join : Verdict → Verdict → Verdict) (xs vs : List Verdict) (m : Machine) (v : Verdict)
    → Shows m (xs ++ vs)
    → (fold_pops join (length xs) m v ≡ (at_depth m (length vs), fold_list join v xs))
      × Shows (at_depth m (length vs)) vs
unfolding fold_pops
fold_pops-Shows join [] vs m v (e, hs) = (rw (← e), (refl, hs))
fold_pops-Shows join (x ∷ xs) vs m v (e, (ex, hs)) =
    let p : m.sp - 1 ≡ length (xs ++ vs) = omega arith in
    rw (p, ex, fold_pops)
      (fold_pops-Shows join xs vs (at_depth m (length (xs ++ vs))) (join v x) (refl, hs))
