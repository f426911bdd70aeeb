-- ===== src/Program/Rpn.antt =====
-- crates/perch-program/src/rpn.rs: the postfix encoding, its validation and its evaluation.
pub mod Stack
pub mod Tree
pub mod Shape
pub mod Ops
pub mod Meaning
pub mod Closed
pub mod Refines
pub mod Decoding
pub mod Leaves
use perch.Common.{
  ℕ, zero, suc, ◌+◌, ◌-◌, Address, Bytes, Bytes32, Str, Symbol, ◌||◌, Option, none, some, List, [],
  ◌∷◌, leb, ltb, ◌==◌, if◌then◌else◌, length, update, Result, ok, err, ◌>>=◌, ◌>>◌, guard, not,
}
use perch.Common.Int.{ℤ}
use perch.Program.Verdict.{Verdict, false_v, true_v, unknown, and, or, negate}
use perch.Program.Leaf.{
  Env, EvalInputs, min_signers, fn_in, arg_addr_eq, arg_addr_is_self, arg_sym_eq, arg_u32_eq,
  arg_i128_eq, arg_bytes_eq, arg_str_in, arg_str_prefix, arg_count, ledger_before,
  ledger_at_or_after,
}

abbrev pub program_version : ℕ
program_version = 1

abbrev pub max_program_len : ℕ
max_program_len = 256

abbrev pub max_stack_depth : ℕ
max_stack_depth = 128

pub data ValidationError : Type 0 where
  unknown_version empty too_large arity_mismatch stack_underflow stack_overflow : ValidationError
  not_single_result : ValidationError

pub data Op : Type 0 where
  all_op any_op : ℕ → Op
  not_op : Op
  min_signers_op : ℕ → Op
  fn_in_op : List Symbol → Op
  arg_addr_eq_op : ℕ → Address → Op
  arg_addr_is_self_op : ℕ → Op
  arg_sym_eq_op : ℕ → Symbol → Op
  arg_str_in_op : ℕ → List Str → Op
  arg_str_prefix_op : ℕ → Str → Op
  arg_bytes_eq_op : ℕ → Bytes → Op
  arg_i128_eq_op : ℕ → ℤ → Op
  arg_u32_eq_op : ℕ → ℕ → Op
  arg_count_op ledger_before_op ledger_at_or_after_op : ℕ → Op

pub record RpnProgram : Type 0 where
  pub version : ℕ
  pub ops : List Op

pub record InstallParams : Type 0 where
  pub program : RpnProgram
  pub doc_hash : Bytes32

-- How many verdicts an op pops.
unfoldable pub pops : Op → Result ValidationError ℕ
pops (all_op n) = if n == 0 then err arity_mismatch else ok n
pops (any_op n) = if n == 0 then err arity_mismatch else ok n
pops not_op = ok 1
pops _ = ok 0

-- The body of the loop of `validate`: the depth after an op.
unfoldable pub depth_after : Op → ℕ → Result ValidationError ℕ
depth_after op depth = do
  n ← pops op
  guard (not (ltb depth n)) stack_underflow
  let next = depth - n + 1
  guard (not (ltb max_stack_depth next)) stack_overflow
  ok next

-- The loop of `validate`.
unfoldable pub simulate : List Op → ℕ → Result ValidationError ℕ
simulate [] depth = ok depth
simulate (op ∷ ops) depth = depth_after op depth >>= simulate ops

unfoldable pub validate : RpnProgram → Result ValidationError (Unit {0})
validate program = do
  guard (program.version == program_version) unknown_version
  guard (not (length program.ops == 0)) empty
  guard (not (ltb max_program_len (length program.ops))) too_large
  depth ← simulate program.ops 0
  guard (depth == 1) not_single_result

-- The variables of `eval`: the array, whose slots from `sp` on are never read, and its top.
pub record Machine : Type 0 where
  pub stack : ℕ → Verdict
  pub sp : ℕ

-- `while k > 0 { sp -= 1; v = v.and(stack[sp]); k -= 1 }`, for `and` and for `or`.
unfoldable pub fold_pops : (Verdict → Verdict → Verdict) → ℕ → Machine → Verdict → Machine × Verdict
fold_pops join zero m v = (m, v)
fold_pops join (suc k) m v =
    fold_pops join k (record m { sp = m.sp - 1 }) (join v (m.stack (m.sp - 1)))

-- The leaf op's verdict; a composite op is taken apart by `apply_op`.
unfoldable pub eval_leaf : Env → EvalInputs → Op → Verdict
eval_leaf env inputs (all_op n) = unknown
eval_leaf env inputs (any_op n) = unknown
eval_leaf env inputs not_op = unknown
eval_leaf env inputs (min_signers_op n) = min_signers inputs n
eval_leaf env inputs (fn_in_op fns) = fn_in inputs fns
eval_leaf env inputs (arg_addr_eq_op i addr) = arg_addr_eq env inputs i addr
eval_leaf env inputs (arg_addr_is_self_op i) = arg_addr_is_self env inputs i
eval_leaf env inputs (arg_sym_eq_op i sym) = arg_sym_eq env inputs i sym
eval_leaf env inputs (arg_str_in_op i set) = arg_str_in env inputs i set
eval_leaf env inputs (arg_str_prefix_op i prefix) = arg_str_prefix env inputs i prefix
eval_leaf env inputs (arg_bytes_eq_op i want) = arg_bytes_eq env inputs i want
eval_leaf env inputs (arg_i128_eq_op i want) = arg_i128_eq env inputs i want
eval_leaf env inputs (arg_u32_eq_op i n) = arg_u32_eq env inputs i n
eval_leaf env inputs (arg_count_op n) = arg_count inputs n
eval_leaf env inputs (ledger_before_op n) = ledger_before env n
eval_leaf env inputs (ledger_at_or_after_op n) = ledger_at_or_after env n

-- The `match op` of `eval`: the machine after the pops and the verdict to push, or `none` for
-- an early `return Verdict::Unknown`.
unfoldable pub apply_op : Env → EvalInputs → Op → Machine → Option (Machine × Verdict)
apply_op env inputs (all_op n) m =
    if (n == 0) || ltb m.sp n then none else some (fold_pops and n m true_v)
apply_op env inputs (any_op n) m =
    if (n == 0) || ltb m.sp n then none else some (fold_pops or n m false_v)
apply_op env inputs not_op m =
    if m.sp == 0 then none else some (record m { sp = m.sp - 1 }, negate (m.stack (m.sp - 1)))
apply_op env inputs op m = some (m, eval_leaf env inputs op)

-- The push, behind its guard.
unfoldable pub push : Machine × Verdict → Option Machine
push (m, v) =
    if leb max_stack_depth m.sp
    then none
    else some (record { stack = update m.stack m.sp v; sp = m.sp + 1 })

-- One round of the loop of `eval`.
unfoldable pub step : Env → EvalInputs → Op → Machine → Option Machine
step env inputs op m =
    if ltb max_stack_depth m.sp
    then none
    else elim (apply_op env inputs op m) [ none ↦ none | some r ↦ push r ]

unfoldable pub run : Env → EvalInputs → List Op → Machine → Option Machine
run env inputs [] m = some m
run env inputs (op ∷ ops) m = elim (step env inputs op m) [
  | none ↦ none
  | some m' ↦ run env inputs ops m'
]

abbrev pub start : Machine
start = record { stack = λ i. unknown; sp = 0 }

unfoldable pub eval : Env → RpnProgram → EvalInputs → Verdict
eval env program inputs = elim (run env inputs program.ops start) [
  | none ↦ unknown
  | some m ↦ if m.sp == 1 then m.stack 0 else unknown
]
