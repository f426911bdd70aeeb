-- ===== src/Interpreter/Tests.antt =====
-- Runs of the constraint program and of the interpreter at concrete inputs.
use perch.Common.{
  ℕ, ◌≤◌, ◌<◌, Address, Str, Bool, true, none, some, [], ◌∷◌, ◌++◌, ◌≡◌, ◌≢◌, ◌↔◌, inl, inr, refl,
  arith, ok, length, ◌==◌,
}
use perch.Program.Verdict.{true_v, unknown, from_bool, and, or, allows}
use perch.Program.Leaf.{
  Env, Host, EvalInputs, contract, create_contract_host_fn, ContractContext, arg, arg_str_in,
  arg_str_prefix, arg_u32_eq, min_signers, max_str_arg_len,
}
use perch.Program.Leaf.Strings.{Among, arg_str_in_iff, arg_str_prefix_iff}
use perch.Program.Rpn.{
  all_op, any_op, min_signers_op, arg_u32_eq_op, RpnProgram, InstallParams, validate, simulate,
  depth_after, pops, eval, run, step, apply_op, push, fold_pops, eval_leaf,
}
use perch.Program.Rpn.Tree.{Tree, denote}
use perch.Program.Rpn.Ops.{leaves}
use perch.Program.Rpn.Meaning.{Denotes, validate-Denotes}
use perch.Program.Rpn.Closed.{eval-simulate}
use perch.Program.Rpn.Refines.{eval-opaque_context}
use perch.Program.Rpn.Decoding.{DecodesLess, eval-DecodesLess}
use perch.Interpreter.{Programs, at, install, uninstall, enforce}
use perch.Interpreter.Laws.{OnlyAt, enforce_iff, install-ok, uninstall-ok}
use perch.Interpreter.Reach.{
  no_programs, installs, deployed, then_call, enforce_sound, Call-isolated,
}

-- Every value decodes as a number and as a string of one byte.
abbrev host : Host
host = record {
  as_address = λ v. some v;
  as_symbol = λ v. none;
  as_u32 = λ v. some v;
  as_i128 = λ v. none;
  as_bytes = λ v. none;
  as_string = λ v. some (v ∷ []);
}

abbrev env : Env
env = record { host = host; sequence = 100 }

abbrev transfer : ContractContext
transfer = record { contract = 8; fn_name = 116 ∷ []; args = 7 ∷ [] }

abbrev inputs : EvalInputs
inputs = record { context = contract transfer; signer_count = 2; self_addr = 5 }

-- Two signers, and 7 as the first argument.
abbrev both : RpnProgram
both = record { version = 1; ops = min_signers_op 2 ∷ arg_u32_eq_op 0 7 ∷ all_op 2 ∷ [] }

abbrev counted : RpnProgram
counted = record { version = 1; ops = min_signers_op 2 ∷ [] }

abbrev params : InstallParams
params = record { program = both; doc_hash = 0 }

abbrev installed : Programs
installed = at no_programs 5 1 (some params)

both_valid : validate both ≡ ok tt
unfolding validate simulate depth_after pops
both_valid = refl

both_true : eval env both inputs ≡ true_v
unfolding eval run step apply_op push fold_pops eval_leaf min_signers arg_u32_eq arg from_bool and
both_true = refl

counted_valid : validate counted ≡ ok tt
unfolding validate simulate depth_after pops
counted_valid = refl

counted_true : eval env counted (record inputs { context = create_contract_host_fn }) ≡ true_v
unfolding eval run step apply_op push eval_leaf min_signers from_bool
counted_true = refl

both_known : eval env both inputs ≢ unknown
both_known h = ground (arith, both_true, h)

validate-Denotes_example : (t : Tree) × Denotes both t
validate-Denotes_example = validate-Denotes both both_valid

eval-simulate_example : simulate both.ops 0 ≡ ok 1
eval-simulate_example = eval-simulate env both inputs both_known

-- A host that decodes no number, and a program that does not need one.
abbrev no_numbers : Host
no_numbers = record host { as_u32 = λ v. none }

abbrev either : RpnProgram
either = record { version = 1; ops = min_signers_op 2 ∷ arg_u32_eq_op 0 7 ∷ any_op 2 ∷ [] }

either_valid : validate either ≡ ok tt
unfolding validate simulate depth_after pops
either_valid = refl

either_true : eval (record env { host = no_numbers }) either inputs ≡ true_v
unfolding eval run step apply_op push fold_pops eval_leaf min_signers arg_u32_eq arg from_bool or
either_true = refl

fewer_numbers : DecodesLess no_numbers host
fewer_numbers = record {
  addresses = λ v. inr refl;
  symbols = λ v. inr refl;
  words = λ v. inl refl;
  integers = λ v. inr refl;
  byte_strings = λ v. inr refl;
  strings = λ v. inr refl;
}

eval-DecodesLess_example : eval env either inputs ≡ true_v
eval-DecodesLess_example =
    eval-DecodesLess either no_numbers host 100 inputs either_valid fewer_numbers either_true

eval-opaque_context_example :
    eval env counted (record inputs { context = contract transfer }) ≡ true_v
eval-opaque_context_example =
    eval-opaque_context counted env inputs create_contract_host_fn transfer counted_valid refl
      counted_true

first_string : arg env.host.as_string inputs.context 0 ≡ some (7 ∷ [])
unfolding arg
first_string = refl

arg_str_in_iff_example :
    ((arg_str_in env inputs 0 ((6 ∷ []) ∷ (7 ∷ []) ∷ []) ≡ true_v)
      ↔ ((length {A = ℕ} (7 ∷ []) ≤ max_str_arg_len) × Among (7 ∷ []) ((6 ∷ []) ∷ (7 ∷ []) ∷ [])))
    × ((arg_str_in env inputs 0 ((6 ∷ []) ∷ (7 ∷ []) ∷ []) ≡ unknown)
        ↔ (max_str_arg_len < length {A = ℕ} (7 ∷ [])))
arg_str_in_iff_example =
    arg_str_in_iff env inputs 0 ((6 ∷ []) ∷ (7 ∷ []) ∷ []) (7 ∷ []) first_string

arg_str_prefix_iff_example :
    ((arg_str_prefix env inputs 0 [] ≡ true_v) ↔ ((r : Str) × ((7 ∷ []) ≡ [] ++ r)))
    × (arg_str_prefix env inputs 0 [] ≢ unknown)
arg_str_prefix_iff_example = arg_str_prefix_iff env inputs 0 [] (7 ∷ []) first_string (omega arith)

install_run : install (λ a. true) params 1 5 no_programs ≡ ok installed
unfolding install validate simulate depth_after pops
install_run = refl

uninstall_run : uninstall (λ a. true) 1 5 installed ≡ ok (at installed 5 1 none)
unfolding uninstall
uninstall_run = refl

enforce_run : enforce (λ a. true) env installed (contract transfer) (1 ∷ 2 ∷ []) 1 5 ≡ ok tt
unfolding enforce allows eval run step apply_op push fold_pops eval_leaf min_signers arg_u32_eq arg
    from_bool and
enforce_run = refl

enforce_iff_example :
    (enforce (λ a. true) env installed (contract transfer) (1 ∷ 2 ∷ []) 1 5 ≡ ok tt) ↔ (
      (true ≡ true)
      × (0 < length {A = ℕ} (1 ∷ 2 ∷ []))
      × ((p : InstallParams) × (installed 5 1 ≡ some p) × (eval env p.program inputs ≡ true_v)))
enforce_iff_example = enforce_iff (λ a. true) env installed (contract transfer) (1 ∷ 2 ∷ []) 1 5

install-ok_example :
    (true ≡ true)
    × (no_programs 5 1 ≡ none)
    × (validate both ≡ ok tt)
    × (installed 5 1 ≡ some params)
    × OnlyAt 5 1 no_programs installed
install-ok_example = install-ok (λ a. true) params 1 5 no_programs installed install_run

uninstall-ok_example :
    (true ≡ true)
    × (installed 5 1 ≢ none)
    × (at installed 5 1 none 5 1 ≡ none)
    × OnlyAt 5 1 installed (at installed 5 1 none)
uninstall-ok_example = uninstall-ok (λ a. true) 1 5 installed (at installed 5 1 none) uninstall_run

enforce_sound_example :
    (p : InstallParams) × (t : Tree) × (installed 5 1 ≡ some p)
    × Denotes p.program t
    × (denote (leaves env inputs) t ≡ true_v)
enforce_sound_example =
    enforce_sound (λ a. true) env installed (contract transfer) (1 ∷ 2 ∷ []) 1 5
      (then_call deployed (installs params 1 5 install_run)) enforce_run

-- Only account 5 authorizes.
abbrev only_five : Address → Bool
only_five a = a == 5

install_five_run : install only_five params 1 5 no_programs ≡ ok installed
unfolding install validate simulate depth_after pops
install_five_run = refl

Call-isolated_example : installed 6 1 ≡ no_programs 6 1
Call-isolated_example =
    Call-isolated only_five no_programs installed 6 1 (installs params 1 5 install_five_run) refl
