-- ===== src/Document/Validate.antt =====
-- crates/perch-ir/src/validate.rs: the semantic checks of a document. A check gives the errors that it
-- pushes, in order, and the sets and maps of what was seen are lists.
pub mod Declared
pub mod Keys
pub mod Args
pub mod Valid
use perch.Common.{
  ℕ, zero, suc, ◌+◌, ◌%◌, ◌^◌, is_some, Bytes, Str, Bool, true, false, ◌&&◌, ◌||◌, not, Option,
  none, some, List, [], ◌∷◌, ◌++◌, map, ltb, leb, ◌==◌, if◌then◌else◌, length, list_eq, contains,
  Result, ok, err,
}
use perch.Common.Int.{ℤ, pos, negsuc}
use perch.Document.{
  SignerDecl, SignerMethod, external, delegated, Scope, contract, self_admin, Principals, all,
  threshold, self_authenticating, ArgPred, is_self, address_eq, string_in, string_prefix, u32_eq,
  ArgConstraint, CapConstraint, Rule, GuardianSet, ZkFactor, RecoveryMode, guardian_only, zk_only,
  combined, RecoveryConfig, PolicyDoc,
}
use perch.Document.Text.{codes, parse_i128}
use perch.Document.Strkey.{
  is_contract_address_shape, is_address_shape, is_valid_symbol, is_sha256_hex, is_canonical_hex,
}

-- `ACK_SENTINEL`.
abbrev pub ack_sentinel : Str
ack_sentinel = codes "this-policy-authenticates-or-anyone-can-fire-this-rule"

abbrev pub max_signer_key_len : ℕ
max_signer_key_len = 256

abbrev pub max_string_pred_len : ℕ
max_string_pred_len = 256

pub data ValidationError : Type 0 where
  unsupported_version empty_signer_id : ℕ → ValidationError
  duplicate_signer_id : Str → ValidationError
  duplicate_signer_key : Str → Str → ValidationError
  invalid_signer_key_hex : Str → ValidationError
  signer_key_length : Str → ℕ → ValidationError
  invalid_verifier_address invalid_delegated_address : Str → Str → ValidationError
  empty_rule_name : ℕ → ValidationError
  duplicate_rule_name : Str → ValidationError
  invalid_contract_address : Str → Str → ValidationError
  empty_principal_signers : Str → ValidationError
  duplicate_principal_signer unknown_signer_ref : Str → Str → ValidationError
  invalid_threshold : Str → ℕ → ℕ → ValidationError
  wrong_ack_sentinel : Str → ValidationError
  invalid_policy_address : Str → Str → ValidationError
  invalid_install_param_hex empty_functions empty_function_name : Str → ValidationError
  duplicate_function invalid_function_name : Str → Str → ValidationError
  empty_args : Str → ValidationError
  duplicate_arg_index empty_string_in_values : Str → ℕ → ValidationError
  duplicate_string_in_value : Str → ℕ → Str → ValidationError
  string_predicate_too_long : Str → ℕ → ℕ → ValidationError
  invalid_arg_address : Str → ℕ → Str → ValidationError
  zero_not_after_ledger : Str → ValidationError
  invalid_cap_limit : Str → Str → ValidationError
  zero_cap_period : Str → ValidationError
  invalid_cap_token : Str → Str → ValidationError
  cap_without_token : Str → ValidationError
  cap_token_mismatch : Str → Str → Str → ValidationError
  rule_scoped_to_recovery_contract : Str → Str → ValidationError
  empty_recovery_replaceable : ValidationError
  duplicate_recovery_replaceable unknown_recovery_replaceable_ref : Str → ValidationError
  zero_recovery_delay_ledgers zero_recovery_expiry_ledgers : ValidationError
  zero_recovery_max_cancels : ValidationError
  invalid_recovery_controller invalid_baseline_doc_hash : Str → ValidationError
  empty_guardian_set : ValidationError
  duplicate_guardian invalid_guardian_address : Str → ValidationError
  invalid_guardian_quorum : ℕ → ℕ → ValidationError
  invalid_recovery_adapter invalid_circuit_id invalid_enrollment_id : Str → ValidationError
  invalid_commitment invalid_recovery_pool : Str → ValidationError

abbrev pub Errors : Type 0
Errors = List ValidationError

-- `if test { errors.push(e) }`.
abbrev pub report : Bool → ValidationError → Errors
report true e = e ∷ []
report false e = []

-- Membership in a set of strings.
unfoldable pub seen_str : List Str → Str → Bool
seen_str [] s = false
seen_str (x ∷ xs) s = list_eq x s || seen_str xs s

abbrev pub is_empty_str : Str → Bool
is_empty_str [] = true
is_empty_str _ = false

abbrev pub is_empty_list {ℓ} : {A : Type ℓ} → List A → Bool
is_empty_list [] = true
is_empty_list _ = false

-- `as u32` of a length.
abbrev pub as_u32 : ℕ → ℕ
as_u32 n = n % 2 ^ 32

-- A loop that reports each repetition and whatever else `check` says of an element.
unfoldable pub each_str : (Str → ValidationError) → (Str → Errors) → List Str → List Str → Errors
each_str duplicate check seen [] = []
each_str duplicate check seen (s ∷ ss) =
    report (seen_str seen s) (duplicate s) ++ (check s ++ each_str duplicate check (s ∷ seen) ss)

module _ (rule : Str) (declared : List Str) where
  unfoldable pub validate_principal_signers : List Str → Errors
  validate_principal_signers signers =
      report (is_empty_list signers) (empty_principal_signers rule)
      ++ each_str (duplicate_principal_signer rule)
          (λ id. report (not (seen_str declared id)) (unknown_signer_ref rule id)) [] signers

unfoldable pub scope_errors : Str → Scope → Errors
scope_errors rule (contract scope) =
    report (not (is_contract_address_shape scope.address))
      (invalid_contract_address rule scope.address)
scope_errors rule self_admin = []

-- One function name.
unfoldable pub function_errors : Str → Str → Errors
function_errors rule func =
    if is_empty_str func
    then empty_function_name rule ∷ []
    else report (not (is_valid_symbol func)) (invalid_function_name rule func)

-- The loop over the function names, which reports a name's own error before its repetition.
unfoldable pub functions_loop : Str → List Str → List Str → Errors
functions_loop rule seen [] = []
functions_loop rule seen (func ∷ funcs) =
    function_errors rule func
    ++ (report (seen_str seen func) (duplicate_function rule func)
        ++ functions_loop rule (func ∷ seen) funcs)

unfoldable pub functions_errors : Str → Option (List Str) → Errors
functions_errors rule none = []
functions_errors rule (some functions) =
    report (is_empty_list functions) (empty_functions rule) ++ functions_loop rule [] functions

unfoldable pub pred_errors : Str → ℕ → ArgPred → Errors
pred_errors rule index (string_in p) =
    report (is_empty_list p.values) (empty_string_in_values rule index)
    ++ each_str (duplicate_string_in_value rule index) (λ v. []) [] p.values
pred_errors rule index (string_prefix p) =
    report (ltb max_string_pred_len (length p.prefix))
      (string_predicate_too_long rule index (length p.prefix))
pred_errors rule index (address_eq p) =
    report (not (is_address_shape p.address)) (invalid_arg_address rule index p.address)
pred_errors rule index is_self = []
pred_errors rule index (u32_eq p) = []

unfoldable pub args_loop : Str → List ℕ → List ArgConstraint → Errors
args_loop rule seen [] = []
args_loop rule seen (c ∷ cs) =
    report (contains seen c.index) (duplicate_arg_index rule c.index)
    ++ (pred_errors rule c.index c.pred ++ args_loop rule (c.index ∷ seen) cs)

unfoldable pub args_errors : Str → Option (List ArgConstraint) → Errors
args_errors rule none = []
args_errors rule (some args) =
    report (is_empty_list args) (empty_args rule) ++ args_loop rule [] args

unfoldable pub expiry_errors : Str → Option ℕ → Errors
expiry_errors rule none = []
expiry_errors rule (some n) = report (n == 0) (zero_not_after_ledger rule)

-- `parse::<i128>().map(|v| v <= 0).unwrap_or(true)`.
abbrev pub is_bad_limit : Option ℤ → Bool
is_bad_limit none = true
is_bad_limit (some (pos n)) = n == 0
is_bad_limit (some (negsuc n)) = true

unfoldable pub cap_token_errors : Str → Scope → Option Str → Errors
cap_token_errors rule (contract scope) none = []
cap_token_errors rule (contract scope) (some token) =
    if not (is_contract_address_shape token)
    then invalid_cap_token rule token ∷ []
    else report (not (list_eq token scope.address)) (cap_token_mismatch rule token scope.address)
cap_token_errors rule self_admin token = cap_without_token rule ∷ []

unfoldable pub cap_errors : Str → Scope → Option CapConstraint → Errors
cap_errors rule scope none = []
cap_errors rule scope (some cap) =
    report (is_bad_limit (parse_i128 cap.limit)) (invalid_cap_limit rule cap.limit)
    ++ (report (cap.period_ledgers == 0) (zero_cap_period rule)
        ++ cap_token_errors rule scope cap.token)

-- The contracts of the mode's ZK factor, if it has one.
abbrev pub zk_of : RecoveryMode → Option ZkFactor
zk_of (guardian_only g) = none
zk_of (zk_only z) = some z
zk_of (combined g z) = some z

unfoldable pub avoid_loop : ZkFactor → List Rule → Errors
avoid_loop zk [] = []
avoid_loop zk (rule ∷ rules) =
    elim rule.scope [
      | contract scope ↦
          report (list_eq scope.address zk.adapter || list_eq scope.address zk.pool)
            (rule_scoped_to_recovery_contract rule.name scope.address)
      | self_admin ↦ []
    ]
    ++ avoid_loop zk rules

unfoldable pub validate_rules_avoid_zk_contracts : PolicyDoc → RecoveryConfig → Errors
validate_rules_avoid_zk_contracts doc r = elim (zk_of r.mode) [
  | none ↦ []
  | some zk ↦ avoid_loop zk doc.rules
]

unfoldable pub validate_guardian_set : GuardianSet → Errors
validate_guardian_set g =
    report (is_empty_list g.guardians) empty_guardian_set
    ++ (each_str duplicate_guardian
          (λ addr. report (not (is_address_shape addr)) (invalid_guardian_address addr)) []
          g.guardians
        ++ report ((g.quorum == 0) || ltb (length g.guardians) g.quorum)
            (invalid_guardian_quorum g.quorum (as_u32 (length g.guardians))))

unfoldable pub validate_zk_factor : ZkFactor → Errors
validate_zk_factor z =
    report (not (is_contract_address_shape z.adapter)) (invalid_recovery_adapter z.adapter)
    ++ (report (not (is_sha256_hex z.circuit_id)) (invalid_circuit_id z.circuit_id)
        ++ (report (not (is_contract_address_shape z.pool)) (invalid_recovery_pool z.pool)
            ++ (report (not (is_sha256_hex z.enrollment_id)) (invalid_enrollment_id z.enrollment_id)
                ++ report (not (is_canonical_hex z.commitment)) (invalid_commitment z.commitment))))

unfoldable pub mode_errors : RecoveryMode → Errors
mode_errors (guardian_only g) = validate_guardian_set g
mode_errors (zk_only z) = validate_zk_factor z
mode_errors (combined g z) = validate_guardian_set g ++ validate_zk_factor z

unfoldable pub validate_recovery : RecoveryConfig → List Str → Errors
validate_recovery r declared =
    report (is_empty_list r.replaceable) empty_recovery_replaceable
    ++ (each_str duplicate_recovery_replaceable
          (λ id. report (not (seen_str declared id)) (unknown_recovery_replaceable_ref id)) []
          r.replaceable
        ++ (report (r.delay_ledgers == 0) zero_recovery_delay_ledgers
            ++ (report (r.expiry_ledgers == 0) zero_recovery_expiry_ledgers
                ++ (report (r.max_cancels == 0) zero_recovery_max_cancels
                    ++ (report (not (is_contract_address_shape r.controller))
                          (invalid_recovery_controller r.controller)
                        ++ (elim r.baseline [
                          | none ↦ []
                          | some b ↦
                              report (not (is_sha256_hex b.doc_hash))
                                (invalid_baseline_doc_hash b.doc_hash)
                        ]
                            ++ mode_errors r.mode))))))

-- The ids and the keys seen so far, each key and delegate with the first id that has it.
pub record Seen : Type 0 where
  pub ids : List Str
  pub keys : List ((Str × Bytes) × Str)
  pub delegates : List (Str × Str)

unfoldable pub first_with_key : List ((Str × Bytes) × Str) → Str → Bytes → Option Str
first_with_key [] verifier key = none
first_with_key (((v, k), id) ∷ keys) verifier key =
    if list_eq v verifier && list_eq k key then some id else first_with_key keys verifier key

unfoldable pub first_delegate : List (Str × Str) → Str → Option Str
first_delegate [] address = none
first_delegate ((a, id) ∷ rest) address =
    if list_eq a address then some id else first_delegate rest address

abbrev pub duplicate_of : Str → Option Str → Errors
duplicate_of id none = []
duplicate_of id (some first_id) = duplicate_signer_key id first_id ∷ []

abbrev pub result_of : Errors → Result Errors (Unit {0})
result_of [] = ok tt
result_of (e ∷ es) = err (e ∷ es)

-- `hex::decode` is a library's: the decoded bytes, if the text is hex.
module _ (hex_decode : Str → Option Bytes) where
  unfoldable pub principals_errors : Str → List Str → Principals → Errors
  principals_errors rule declared (all a) = validate_principal_signers rule declared a.signers
  principals_errors rule declared (threshold t) =
      validate_principal_signers rule declared t.signers
      ++ report ((t.m == 0) || ltb (length t.signers) t.m)
          (invalid_threshold rule t.m (as_u32 (length t.signers)))
  principals_errors rule declared (self_authenticating sa) =
      report (not (list_eq sa.ack ack_sentinel)) (wrong_ack_sentinel rule)
      ++ (report (not (is_contract_address_shape sa.policy)) (invalid_policy_address rule sa.policy)
          ++ report (not (is_some (hex_decode sa.install_param_hex)))
              (invalid_install_param_hex rule))

  unfoldable pub validate_rule : Rule → List Str → Errors
  validate_rule rule declared =
      scope_errors rule.name rule.scope
      ++ (principals_errors rule.name declared rule.principals
          ++ (functions_errors rule.name rule.functions
              ++ (args_errors rule.name rule.args
                  ++ (expiry_errors rule.name rule.not_after_ledger
                      ++ cap_errors rule.name rule.scope rule.cap))))

  abbrev pub key_errors : Seen → Str → Str → Option Bytes → Errors
  key_errors seen id verifier none = invalid_signer_key_hex id ∷ []
  key_errors seen id verifier (some decoded) =
      report (is_empty_list decoded || ltb max_signer_key_len (length decoded))
        (signer_key_length id (length decoded))
      ++ duplicate_of id (first_with_key seen.keys verifier decoded)

  unfoldable pub method_errors : Seen → Str → SignerMethod → Errors
  method_errors seen id (external verifier key) =
      key_errors seen id verifier (hex_decode key)
      ++ report (not (is_contract_address_shape verifier)) (invalid_verifier_address id verifier)
  method_errors seen id (delegated address) =
      report (not (is_address_shape address)) (invalid_delegated_address id address)
      ++ duplicate_of id (first_delegate seen.delegates address)

  -- The errors of one signer.
  unfoldable pub signer_errors : ℕ → Seen → SignerDecl → Errors
  signer_errors position seen s =
      (if is_empty_str s.id
        then empty_signer_id position ∷ []
        else report (seen_str seen.ids s.id) (duplicate_signer_id s.id))
      ++ method_errors seen s.id s.method

  abbrev pub see_key : Seen → Str → Str → Option Bytes → Seen
  see_key seen id verifier none = seen
  see_key seen id verifier (some decoded) = record seen {
    keys = seen.keys ++ ((verifier, decoded), id) ∷ [];
  }

  abbrev pub see_method : Seen → Str → SignerMethod → Seen
  see_method seen id (external verifier key) = see_key seen id verifier (hex_decode key)
  see_method seen id (delegated address) = record seen {
    delegates = seen.delegates ++ (address, id) ∷ [];
  }

  unfoldable pub see : Seen → SignerDecl → Seen
  see seen s =
      see_method (record seen { ids = if is_empty_str s.id then seen.ids else s.id ∷ seen.ids })
        s.id s.method

  unfoldable pub signers_loop : ℕ → Seen → List SignerDecl → Errors
  signers_loop position seen [] = []
  signers_loop position seen (s ∷ ss) =
      signer_errors position seen s ++ signers_loop (position + 1) (see seen s) ss

  unfoldable pub rules_loop : List Str → ℕ → List Str → List Rule → Errors
  rules_loop declared position seen [] = []
  rules_loop declared position seen (rule ∷ rules) =
      (if is_empty_str rule.name
        then empty_rule_name position ∷ []
        else report (seen_str seen rule.name) (duplicate_rule_name rule.name))
      ++ (validate_rule rule declared
          ++ rules_loop declared (position + 1)
              (if is_empty_str rule.name then seen else rule.name ∷ seen) rules)

  abbrev pub declared_ids : PolicyDoc → List Str
  declared_ids doc = map (λ s. s.id) doc.signers

  unfoldable pub collect : PolicyDoc → Errors
  collect doc =
      report (not (doc.version == 1)) (unsupported_version doc.version)
      ++ (signers_loop 0 (record { ids = []; keys = []; delegates = [] }) doc.signers
          ++ (rules_loop (declared_ids doc) 0 [] doc.rules ++ elim doc.recovery [
            | none ↦ []
            | some r ↦
                validate_recovery r (declared_ids doc) ++ validate_rules_avoid_zk_contracts doc r
          ]))

  unfoldable pub validate : PolicyDoc → Result Errors (Unit {0})
  validate doc = result_of (collect doc)
