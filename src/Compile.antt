-- ===== src/Compile.antt =====
-- crates/perch-compile/src/lib.rs: the lowering of a document to a plan.
pub mod Analysis
pub mod Attenuation
pub mod Activation
pub mod Meaning
pub mod Rules
pub mod Plans
pub mod Tests
use perch.Common.{
  ℕ, zero, suc, ◌+◌, ◌-◌, ◌%◌, ◌^◌, Address, Bytes, Bytes32, Str, Symbol, Bool, true, false, ◌&&◌,
  not, Option, none, some, List, [], ◌∷◌, ◌++◌, ltb, if◌then◌else◌, length, list_eq, is_some,
  Result, ok, err, ◌>>=◌, ok_or,
}
use perch.Common.Int.{ℤ}
use perch.Program.Rpn.{
  Op, min_signers_op, fn_in_op, arg_addr_is_self_op, arg_addr_eq_op, arg_u32_eq_op, arg_str_in_op,
  arg_str_prefix_op, all_op, RpnProgram, program_version, InstallParams, ValidationError,
}
use perch.Program.Rpn as Rpn
use perch.Document.{
  SignerMethod, external, delegated, SignerDecl, Scope, contract, Principals, all, threshold,
  self_authenticating, ArgPred, is_self, address_eq, string_in, string_prefix, u32_eq,
  ArgConstraint, CapConstraint, Rule, PolicyDoc,
}
use perch.Document as Document
use perch.Document.Text.{parse_i128}
use perch.Document.Canon.{rule_canonical_json, rule_hash_domain, canonical_json}

-- What the compiler calls of the host and of the SDK; `none` is a trap.
pub record Sdk : Type 0 where
  pub sha256 : Bytes → Bytes32
  -- `Symbol::new` and `Address::from_str`.
  pub new_symbol : Str → Option Symbol
  pub address_from_str : Str → Option Address

pub data ScopeSpec : Type 0 where
  contract_spec : Str → ScopeSpec
  self_admin : ScopeSpec

pub data SignerSpec : Type 0 where
  -- The verifier and the key in hex.
  external_spec : Str → Str → SignerSpec
  delegated_spec : Str → SignerSpec

pub record CapSpec : Type 0 where
  pub token : Option Str
  pub limit : ℤ
  pub period_ledgers : ℕ

pub record LoweredRule : Type 0 where
  pub name : Str
  pub scope : ScopeSpec
  pub signers : List SignerSpec
  pub valid_until : Option ℕ
  pub install : Option InstallParams
  pub cap : Option CapSpec

pub record Plan : Type 0 where
  pub rules : List LoweredRule
  pub interpreter_wasm_hash : Option Bytes32

pub data LowerError : Type 0 where
  -- The rule and the id.
  unknown_signer_ref : Str → Str → LowerError
  unsupported : Str → LowerError
  invalid_program : Str → ValidationError → LowerError
  invalid_cap : Str → LowerError
  -- A panic, which ends the invocation.
  trapped : LowerError

unfoldable pub rule_hash_onchain : Sdk → Rule → Bytes32
rule_hash_onchain sdk rule = sdk.sha256 (rule_hash_domain ++ rule_canonical_json rule)

unfoldable pub doc_hash_onchain : Sdk → PolicyDoc → Bytes32
doc_hash_onchain sdk doc = sdk.sha256 (canonical_json doc)

unfoldable pub lower_scope : Scope → ScopeSpec
lower_scope (contract c) = contract_spec c.address
lower_scope Document.self_admin = self_admin

-- The ids and the signer floor; `none` for a self-authenticating rule.
unfoldable pub floor_of : Principals → Option (List Str × ℕ)
floor_of (all a) = some (a.signers, length a.signers % 2 ^ 32)
floor_of (threshold t) = some (t.signers, t.m)
floor_of (self_authenticating s) = none

-- `doc.signers.iter().find(|s| &s.id == id)`.
unfoldable pub find_signer : List SignerDecl → Str → Option SignerDecl
find_signer [] id = none
find_signer (s ∷ ss) id = if list_eq s.id id then some s else find_signer ss id

unfoldable pub lower_signer : SignerMethod → SignerSpec
lower_signer (external verifier key) = external_spec verifier key
lower_signer (delegated address) = delegated_spec address

unfoldable pub lower_signers :
    List SignerDecl → Str → List Str → Result LowerError (List SignerSpec)
lower_signers decls rule [] = ok []
lower_signers decls rule (id ∷ ids) = do
  decl ← ok_or (find_signer decls id) (unknown_signer_ref rule id)
  rest ← lower_signers decls rule ids
  ok (lower_signer decl.method ∷ rest)

unfoldable pub lower_cap : Str → Option CapConstraint → Result LowerError (Option CapSpec)
lower_cap rule none = ok none
lower_cap rule (some c) = do
  limit ← ok_or (parse_i128 c.limit) (invalid_cap rule)
  ok (some (record { token = c.token; limit = limit; period_ledgers = c.period_ledgers }))

module _ (sdk : Sdk) where
  -- The loop over a function list.
  unfoldable pub symbols : List Str → Result LowerError (List Symbol)
  symbols [] = ok []
  symbols (f ∷ fs) = do s ← ok_or (sdk.new_symbol f) trapped; rest ← symbols fs; ok (s ∷ rest)

  unfoldable pub lower_functions : Option (List Str) → Result LowerError (List Op)
  lower_functions none = ok []
  lower_functions (some fs) = do syms ← symbols fs; ok (fn_in_op syms ∷ [])

  unfoldable pub lower_arg_pred : ℕ → ArgPred → Result LowerError Op
  lower_arg_pred index is_self = ok (arg_addr_is_self_op index)
  lower_arg_pred index (address_eq p) = do
    a ← ok_or (sdk.address_from_str p.address) trapped
    ok (arg_addr_eq_op index a)
  lower_arg_pred index (u32_eq p) = ok (arg_u32_eq_op index p.value)
  lower_arg_pred index (string_in p) = ok (arg_str_in_op index p.values)
  lower_arg_pred index (string_prefix p) = ok (arg_str_prefix_op index p.prefix)

  unfoldable pub lower_preds : List ArgConstraint → Result LowerError (List Op)
  lower_preds [] = ok []
  lower_preds (c ∷ cs) = do
    op ← lower_arg_pred c.index c.pred
    rest ← lower_preds cs
    ok (op ∷ rest)

  unfoldable pub lower_args : Option (List ArgConstraint) → Result LowerError (List Op)
  lower_args none = ok []
  lower_args (some cs) = lower_preds cs

  -- `rpn::validate(&program).map_err(..)`.
  abbrev pub checked : Str → RpnProgram → Result LowerError RpnProgram
  checked rule program = elim (Rpn.validate program) [
    | ok u ↦ ok program
    | err e ↦ err (invalid_program rule e)
  ]

  -- `min_signers.max(1)`.
  abbrev pub at_least_one : ℕ → ℕ
  at_least_one n = if ltb n 1 then 1 else n

  -- The leaves, whose number the code counts as it pushes them, under one conjunction.
  unfoldable pub build_program : Rule → ℕ → Result LowerError RpnProgram
  build_program rule floor = do
    funcs ← lower_functions rule.functions
    preds ← lower_args rule.args
    let leaves = min_signers_op (at_least_one floor) ∷ (funcs ++ preds)
    checked rule.name
        (record { version = program_version; ops = leaves ++ all_op (length leaves) ∷ [] })

  abbrev pub is_all : Principals → Bool
  is_all (all a) = true
  is_all _ = false

  unfoldable pub is_constraint_free : Rule → Option CapSpec → Bool
  is_constraint_free rule cap =
      is_all rule.principals
      && (not (is_some rule.functions) && (not (is_some rule.args) && not (is_some cap)))

  unfoldable pub lower_install :
      Rule → ℕ → Option CapSpec → Result LowerError (Option InstallParams)
  lower_install rule floor cap =
      if is_constraint_free rule cap
      then ok none
      else (build_program rule floor >>= λ program.
          ok (some (record { program = program; doc_hash = rule_hash_onchain sdk rule })))

  -- `map(|x| x - 1)`, whose underflow is a panic.
  unfoldable pub lower_expiry : Option ℕ → Result LowerError (Option ℕ)
  lower_expiry none = ok none
  lower_expiry (some zero) = err trapped
  lower_expiry (some (suc n)) = ok (some n)

  unfoldable pub lower_rule : PolicyDoc → Rule → Result LowerError LoweredRule
  lower_rule doc rule = do
    (ids, floor) ← ok_or (floor_of rule.principals) (unsupported rule.name)
    signers ← lower_signers doc.signers rule.name ids
    cap ← lower_cap rule.name rule.cap
    install ← lower_install rule floor cap
    valid_until ← lower_expiry rule.not_after_ledger
    ok (record {
      name = rule.name;
      scope = lower_scope rule.scope;
      signers = signers;
      valid_until = valid_until;
      install = install;
      cap = cap;
    })

  unfoldable pub lower_rules : PolicyDoc → List Rule → Result LowerError (List LoweredRule)
  lower_rules doc [] = ok []
  lower_rules doc (r ∷ rs) = do
    lowered ← lower_rule doc r
    rest ← lower_rules doc rs
    ok (lowered ∷ rest)

  unfoldable pub any_interpreter : List LoweredRule → Bool
  any_interpreter [] = false
  any_interpreter (r ∷ rs) = if is_some r.install then true else any_interpreter rs

  -- `compile`, whose configuration is the wasm hash of the interpreter.
  unfoldable pub compile : PolicyDoc → Bytes32 → Result LowerError Plan
  compile doc wasm_hash = do
    rules ← lower_rules doc doc.rules
    ok (record {
      rules = rules;
      interpreter_wasm_hash = if any_interpreter rules then some wasm_hash else none;
    })
