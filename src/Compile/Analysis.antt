-- ===== src/Compile/Analysis.antt =====
-- crates/perch-compile/src/analysis.rs: what a plan can authorize, how much a program needs, and whether
-- a program can authorize anything.
pub mod Reach
pub mod Bounds
pub mod Dead
use perch.Common.{
  ℕ, zero, suc, ◌+◌, ◌-◌, Str, Symbol, Bool, true, false, ◌||◌, Option, none, some, List, [], ◌∷◌,
  ◌++◌, map, leb, ltb, ◌==◌, if◌then◌else◌, length, list_eq, u32_max,
}
use perch.Program.Verdict.{Verdict, false_v, true_v, unknown, and, or, negate, rank}
use perch.Program.Rpn.{
  Op, all_op, any_op, not_op, min_signers_op, ledger_before_op, fn_in_op, RpnProgram,
}
use perch.Compile.{ScopeSpec, LoweredRule, Plan}

pub data FnSet : Type 0 where
  any_fn : FnSet
  only : List Symbol → FnSet

pub record ReachableScope : Type 0 where
  pub rule : Str
  pub scope : ScopeSpec
  pub functions : FnSet

pub record ProgramBounds : Type 0 where
  pub ops : ℕ
  pub max_stack_depth : ℕ

unfoldable pub fits : ProgramBounds → ℕ → Bool
fits b max_ops = leb b.ops max_ops

-- `fns.contains(&s)`.
unfoldable pub has_symbol : List Symbol → Symbol → Bool
has_symbol [] s = false
has_symbol (f ∷ fs) s = list_eq f s || has_symbol fs s

unfoldable pub push_new_symbols : List Symbol → List Symbol → List Symbol
push_new_symbols fns [] = fns
push_new_symbols fns (s ∷ set) =
    push_new_symbols (if has_symbol fns s then fns else fns ++ s ∷ []) set

-- The loop of `rule_functions`, over the functions found so far and whether there was a list.
unfoldable pub scan_functions : List Op → List Symbol → Bool → FnSet
scan_functions [] fns saw_fnin = if saw_fnin then only fns else any_fn
scan_functions (fn_in_op set ∷ ops) fns saw_fnin =
    scan_functions ops (push_new_symbols fns set) true
scan_functions (_ ∷ ops) fns saw_fnin = scan_functions ops fns saw_fnin

unfoldable pub rule_functions : LoweredRule → FnSet
rule_functions rule = elim rule.install [
  | none ↦ any_fn
  | some install ↦ scan_functions install.program.ops [] false
]

abbrev pub reachable_scope : LoweredRule → ReachableScope
reachable_scope rule = record {
  rule = rule.name;
  scope = rule.scope;
  functions = rule_functions rule;
}

unfoldable pub reachable_calls : Plan → List ReachableScope
reachable_calls plan = map reachable_scope plan.rules

-- `saturating_add(1)` of a `u32`.
abbrev pub saturating_suc : ℕ → ℕ
saturating_suc n = if ltb n u32_max then n + 1 else u32_max

abbrev pub popped : Op → ℕ
popped (all_op n) = n
popped (any_op n) = n
popped not_op = 1
popped _ = 0

abbrev pub larger : ℕ → ℕ → ℕ
larger a b = if ltb a b then b else a

-- The loop of `program_bounds`, over the depth and the peak.
unfoldable pub peak : List Op → ℕ → ℕ → ℕ
peak [] depth max_depth = max_depth
peak (op ∷ ops) depth max_depth =
    let next = saturating_suc (depth - popped op) in peak ops next (larger max_depth next)

unfoldable pub program_bounds : RpnProgram → ProgramBounds
program_bounds program = record { ops = length program.ops; max_stack_depth = peak program.ops 0 0 }

-- An interval of verdicts, from its least to its greatest.
abbrev pub Interval : Type 0
Interval = Verdict × Verdict

unfoldable pub leaf_interval : Op → Interval
leaf_interval (min_signers_op zero) = (true_v, true_v)
leaf_interval (ledger_before_op zero) = (false_v, false_v)
leaf_interval _ = (false_v, true_v)

-- `for _ in 0..n { let (l, h) = stack.pop(); .. }`, with the stack's top first; `none` on an empty
-- stack, which the code excludes before.
unfoldable pub fold_intervals :
    (Verdict → Verdict → Verdict) → ℕ → List Interval → Interval → Option (List Interval × Interval)
fold_intervals join zero stack v = some (stack, v)
fold_intervals join (suc n) [] v = none
fold_intervals join (suc n) ((l, h) ∷ stack) (lo, hi) =
    fold_intervals join n stack (join lo l, join hi h)

-- The fold of an `All` or an `Any`, and the push of its interval.
unfoldable pub fold_op :
    (Verdict → Verdict → Verdict) → ℕ → Verdict → List Interval → Option (List Interval)
fold_op join n unit stack =
    if (n == 0) || ltb (length stack) n
    then none
    else elim (fold_intervals join n stack (unit, unit)) [
      | none ↦ none
      | some (rest, v) ↦ some (v ∷ rest)
    ]

-- The `match op` of `max_verdict`: `none` is `return Verdict::Unknown`. The minimum and the maximum of
-- the derived order are `and` and `or`.
unfoldable pub step_interval : Op → List Interval → Option (List Interval)
step_interval (all_op n) stack = fold_op and n true_v stack
step_interval (any_op n) stack = fold_op or n false_v stack
step_interval not_op [] = none
step_interval not_op ((lo, hi) ∷ stack) = some ((negate hi, negate lo) ∷ stack)
step_interval op stack = some (leaf_interval op ∷ stack)

unfoldable pub run_intervals : List Op → List Interval → Option (List Interval)
run_intervals [] stack = some stack
run_intervals (op ∷ ops) stack = elim (step_interval op stack) [
  | none ↦ none
  | some stack' ↦ run_intervals ops stack'
]

-- `match stack.as_slice()`.
abbrev pub greatest : List Interval → Verdict
greatest ((lo, hi) ∷ []) = hi
greatest _ = unknown

unfoldable pub max_verdict : RpnProgram → Verdict
max_verdict program = elim (run_intervals program.ops []) [
  | none ↦ unknown
  | some stack ↦ greatest stack
]

unfoldable pub can_ever_authorize : RpnProgram → Bool
can_ever_authorize program = rank (max_verdict program) == 2
