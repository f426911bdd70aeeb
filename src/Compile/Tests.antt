-- ===== src/Compile/Tests.antt =====
-- The compiled plan of a document, its analysis and its checks.
use perch.Document.Canon.{
  arg_constraint_to_cv, array, cap_to_cv, escape, escape_all, insert_entry, join, pred_to_cv,
  principals_to_cv, rule_canonical_json, rule_to_cv, scope_to_cv, sort_entries, write_json_string,
  write_value, canonical_json, doc_to_cv, push_guardian_fields, push_zk_fields, recovery_mode_to_cv,
  recovery_profile_str, recovery_to_cv, signer_to_cv,
}
use perch.Common.{
  ℕ, true, false, none, some, [], ◌∷◌, length, get_elem?, take, ok, err, refl, ◌≡◌, ◌≤◌, inr,
}
use perch.Common.Int.{pos}
use perch.Program.Verdict.{true_v, and, from_bool}
use perch.Program.Leaf.{Env, EvalInputs, ContractContext}
use perch.Program.Leaf as Leaf
use perch.Program.Rpn.{
  all_op, min_signers_op, fn_in_op, ledger_before_op, arg_addr_is_self_op, arg_str_in_op,
  RpnProgram, InstallParams, Machine, start, run, eval, validate, max_program_len, max_stack_depth,
  step, apply_op, push, fold_pops, eval_leaf, simulate, depth_after, pops,
}
use perch.Document.{PolicyDoc, Rule}
use perch.Document.Text.{codes, parse_i128, decimal, digits, str_lt, u32_to_string}
use perch.Document.Tests.{doc, transfer, admin, pool_address, user_address}
use perch.Compile.{
  Sdk, contract_spec, self_admin, external_spec, delegated_spec, LoweredRule, Plan, compile,
  rule_hash_onchain, doc_hash_onchain, lower_scope, lower_rules, lower_rule, floor_of,
  lower_signers, find_signer, lower_cap, lower_install, is_constraint_free, build_program,
  lower_functions, symbols, lower_args, lower_preds, lower_arg_pred, any_interpreter, lower_expiry,
  lower_signer,
}
use perch.Compile.Rules.{ScopeOf, Lowers}
use perch.Compile.Plans.{compile-Lowers}
use perch.Compile.Analysis.{
  program_bounds, can_ever_authorize, max_verdict, run_intervals, step_interval, leaf_interval,
  has_symbol, push_new_symbols, reachable_calls, rule_functions, scan_functions,
}
use perch.Compile.Analysis.Reach.{Lists}
use perch.Compile.Analysis.Bounds.{program_bounds-validate}
use perch.Compile.Analysis.Dead.{eval-can_ever_authorize}
use perch.Compile.Attenuation.{
  Attenuation, attenuate, not_a_narrowing, check_reach, contains_all, fn_covers, is_covered,
  is_narrowing,
}
use perch.Compile.Attenuation.Narrows.{attenuate-narrows}
use perch.Compile.Activation.{
  find_rule, verify_plan_matches_doc, doc_hash_mismatch, verify_rules, matches,
}
use perch.Compile.Activation.Provenance.{verify_plan-provenance, compile-verify}

abbrev sdk : Sdk
sdk = record {
  sha256 = λ bs. length bs;
  new_symbol = λ s. some s;
  address_from_str = λ s. some (length s);
}

abbrev program : RpnProgram
program = record {
  version = 1;
  ops =
      min_signers_op 1
      ∷ (fn_in_op (codes "transfer" ∷ [])
          ∷ (arg_addr_is_self_op 0 ∷ (arg_str_in_op 1 (codes "rent" ∷ []) ∷ (all_op 4 ∷ []))));
}

abbrev params : InstallParams
params = record { program = program; doc_hash = rule_hash_onchain sdk transfer }

abbrev lowered_transfer : LoweredRule
lowered_transfer = record {
  name = codes "pay";
  scope = contract_spec pool_address;
  signers = external_spec pool_address (codes "0a") ∷ (delegated_spec user_address ∷ []);
  valid_until = some 99;
  install = some params;
  cap = some (record { token = none; limit = pos 1000; period_ledgers = 5 });
}

abbrev lowered_admin : LoweredRule
lowered_admin = record {
  name = codes "admin";
  scope = self_admin;
  signers = external_spec pool_address (codes "0a") ∷ [];
  valid_until = none;
  install = none;
  cap = none;
}

abbrev plan : Plan
plan = record { rules = lowered_transfer ∷ (lowered_admin ∷ []); interpreter_wasm_hash = some 9 }

compile_run : compile sdk doc 9 ≡ ok plan
unfolding compile lower_rules lower_rule floor_of lower_signers find_signer lower_cap parse_i128
    decimal lower_install is_constraint_free build_program lower_functions symbols lower_args
    lower_preds lower_arg_pred validate any_interpreter lower_expiry lower_scope lower_signer
    rule_hash_onchain arg_constraint_to_cv array cap_to_cv escape escape_all insert_entry join
    pred_to_cv principals_to_cv rule_canonical_json rule_to_cv scope_to_cv sort_entries
    write_json_string write_value digits str_lt u32_to_string depth_after pops simulate
compile_run = refl

compile-Lowers_example :
    (length doc.rules ≡ length plan.rules)
    × ((rule : Rule) × (get_elem? doc.rules 0 ≡ some rule) × Lowers sdk doc rule lowered_transfer)
compile-Lowers_example = compile-Lowers sdk doc 9 plan 0 lowered_transfer compile_run refl

compile-verify_example : verify_plan_matches_doc sdk doc plan ≡ ok tt
compile-verify_example = compile-verify sdk doc 9 plan compile_run (((λ h. cc), tt), (tt, tt))

verified : verify_plan_matches_doc sdk doc plan ≡ ok tt
unfolding verify_plan_matches_doc verify_rules matches find_rule rule_hash_onchain
    rule_canonical_json write_value rule_to_cv join sort_entries insert_entry str_lt
    write_json_string escape_all escape array arg_constraint_to_cv u32_to_string cap_to_cv
    pred_to_cv principals_to_cv scope_to_cv digits
verified = refl

verify_plan-provenance_example :
    (rule : Rule) × (j : ℕ) × (get_elem? doc.rules j ≡ some rule)
    × (rule.name ≡ codes "pay")
    × (params.doc_hash ≡ rule_hash_onchain sdk rule)
verify_plan-provenance_example =
    verify_plan-provenance sdk doc plan 0 lowered_transfer params verified refl refl

-- A change of the document under review shows.
verify_plan-mismatch :
    verify_plan_matches_doc sdk
      (record doc { rules = record transfer { functions = none } ∷ (admin ∷ []) })
      plan
    ≡ err (doc_hash_mismatch (codes "pay"))
unfolding verify_plan_matches_doc verify_rules matches find_rule rule_hash_onchain
    rule_canonical_json write_value rule_to_cv join sort_entries insert_entry str_lt
    write_json_string escape_all escape array arg_constraint_to_cv u32_to_string cap_to_cv
    pred_to_cv principals_to_cv scope_to_cv digits
verify_plan-mismatch = refl

abbrev env : Env
env = record {
  host = record {
    as_address = λ v. some v;
    as_symbol = λ v. none;
    as_u32 = λ v. some v;
    as_i128 = λ v. none;
    as_bytes = λ v. none;
    as_string = λ v. some (codes "rent");
  };
  sequence = 100;
}

abbrev payment : ContractContext
payment = record { contract = 8; fn_name = codes "transfer"; args = 5 ∷ (6 ∷ []) }

abbrev inputs : EvalInputs
inputs = record { context = Leaf.contract payment; signer_count = 1; self_addr = 5 }

program_true : eval env program inputs ≡ true_v
unfolding eval run step apply_op push fold_pops and eval_leaf Leaf.arg_str_in Leaf.arg
    Leaf.str_bytes Leaf.any_str Leaf.buf_eq Leaf.arg_addr_is_self from_bool Leaf.fn_in
    Leaf.any_symbol Leaf.min_signers
program_true = refl

program_valid : validate program ≡ ok tt
unfolding validate simulate depth_after pops
program_valid = refl

eval-can_ever_authorize_example : can_ever_authorize program ≡ true
eval-can_ever_authorize_example = eval-can_ever_authorize env program inputs program_true

-- A program that asks for a ledger before 0 is dead.
dead_program : can_ever_authorize (record { version = 1; ops = ledger_before_op 0 ∷ [] }) ≡ false
unfolding can_ever_authorize max_verdict run_intervals step_interval leaf_interval
dead_program = refl

program_run : (m : Machine) × (run env inputs (take 3 program.ops) start ≡ some m)
unfolding run step apply_op push
program_run = (_, refl)

program_bounds-validate_example :
    ((program_bounds program).ops ≤ max_program_len)
    × (program_run.0.sp ≤ (program_bounds program).max_stack_depth)
    × ((program_bounds program).max_stack_depth ≤ max_stack_depth)
program_bounds-validate_example =
    program_bounds-validate program env inputs 3 program_run.0 program_valid program_run.1

-- The parent allows one function more.
abbrev parent : PolicyDoc
parent = record doc {
  rules =
      record transfer { functions = some (codes "approve" ∷ (codes "transfer" ∷ [])) }
      ∷ (admin ∷ []);
}

abbrev link : Attenuation
link = record { parent_hash = doc_hash_onchain sdk parent; child_hash = doc_hash_onchain sdk doc }

attenuate_run : attenuate sdk parent doc 9 ≡ ok link
unfolding attenuate compile lower_rules lower_rule floor_of lower_signers find_signer lower_cap
    parse_i128 decimal lower_install is_constraint_free build_program lower_functions symbols
    lower_args lower_preds lower_arg_pred has_symbol push_new_symbols reachable_calls rule_functions
    scan_functions check_reach contains_all fn_covers is_covered is_narrowing any_interpreter
    doc_hash_onchain lower_expiry lower_scope lower_signer rule_hash_onchain arg_constraint_to_cv
    array canonical_json cap_to_cv doc_to_cv escape escape_all insert_entry join pred_to_cv
    principals_to_cv push_guardian_fields push_zk_fields recovery_mode_to_cv recovery_profile_str
    recovery_to_cv rule_canonical_json rule_to_cv scope_to_cv signer_to_cv sort_entries
    write_json_string write_value digits str_lt u32_to_string depth_after pops simulate validate
attenuate_run = refl

-- In the other direction the function more is refused.
attenuate_widening : attenuate sdk doc parent 9 ≡ err (not_a_narrowing (codes "pay"))
unfolding attenuate compile lower_rules lower_rule floor_of lower_signers find_signer lower_cap
    parse_i128 decimal lower_install is_constraint_free build_program lower_functions symbols
    lower_args lower_preds lower_arg_pred has_symbol push_new_symbols reachable_calls rule_functions
    scan_functions check_reach contains_all fn_covers is_covered is_narrowing any_interpreter
    doc_hash_onchain lower_expiry lower_scope lower_signer rule_hash_onchain arg_constraint_to_cv
    array canonical_json cap_to_cv doc_to_cv escape escape_all insert_entry join pred_to_cv
    principals_to_cv push_guardian_fields push_zk_fields recovery_mode_to_cv recovery_profile_str
    recovery_to_cv rule_canonical_json rule_to_cv scope_to_cv signer_to_cv sort_entries
    write_json_string write_value digits str_lt u32_to_string depth_after pops simulate validate
attenuate_widening = refl

attenuate-narrows_example :
    (j : ℕ) × (rule : Rule) × (get_elem? parent.rules j ≡ some rule)
    × ScopeOf rule.scope (contract_spec pool_address)
    × Lists sdk (codes "transfer") rule.functions
attenuate-narrows_example =
    attenuate-narrows sdk parent doc 9 link plan 0 lowered_transfer (codes "transfer") attenuate_run
      compile_run refl (inr (params, refl, (env, inputs, payment, refl, refl, program_true)))
