-- ===== src/Document/Tests.antt =====
-- A document, its canonical form and its validation, at real addresses.
use perch.Common.{Bytes, Str, true, false, Option, none, some, [], ◌∷◌, ok, err, refl, ◌≡◌}
use perch.Document.{
  PolicyDoc, Rule, external, delegated, contract, self_admin, threshold, all, is_self, string_in,
  guardian_only, protected,
}
use perch.Document.Text.{codes, str_lt, parse_i128, decimal}
use perch.Document.Canon.{
  rule_canonical_json, write_value, rule_to_cv, join, sort_entries, insert_entry, write_json_string,
  escape_all, escape, principals_to_cv, array, scope_to_cv,
}
use perch.Document.Strkey.{
  is_contract_address_shape, is_address_shape, is_strkey_shape, strkey_checksum_ok, base32_decode,
  decode_step, crc16, crc_bits, is_valid_symbol,
}
use perch.Document.Validate.{
  validate, unknown_signer_ref, invalid_threshold, zero_not_after_ledger, empty_functions, collect,
  signers_loop, signer_errors, seen_str, method_errors, first_with_key, see, first_delegate,
  rules_loop, args_errors, args_loop, avoid_loop, cap_errors, cap_token_errors, each_str,
  expiry_errors, function_errors, functions_errors, functions_loop, mode_errors, pred_errors,
  principals_errors, scope_errors, validate_guardian_set, validate_principal_signers,
  validate_recovery, validate_rule, validate_rules_avoid_zk_contracts, validate_zk_factor,
}
use perch.Document.Validate.Valid.{IsDoc, validate-IsDoc}

abbrev pub pool_address : Str
pool_address = codes "CD4IF75DNQJKCT35PAJAQDPW3K337EK6SJZDMQEVLXAH65K7ZVZMLXYN"

abbrev pub user_address : Str
user_address = codes "GALZMP2YGMVP6N57D2E6YVKMK3AONEOSC3F2RAXPOAKRIQVTSHJOOBVH"

-- Two hex digits are one key byte here.
abbrev pub hex_decode : Str → Option Bytes
hex_decode (a ∷ (b ∷ [])) = some (a ∷ [])
hex_decode _ = none

abbrev pub transfer : Rule
transfer = record {
  name = codes "pay";
  scope = contract (record { address = pool_address });
  principals = threshold (record { signers = codes "a" ∷ (codes "b" ∷ []); m = 1 });
  functions = some (codes "transfer" ∷ []);
  args = some (
      record { index = 0; pred = is_self }
      ∷ (record { index = 1; pred = string_in (record { values = codes "rent" ∷ [] }) } ∷ []));
  not_after_ledger = some 100;
  cap = some (record { token = none; limit = codes "1000"; period_ledgers = 5 });
}

abbrev pub admin : Rule
admin = record {
  name = codes "admin";
  scope = self_admin;
  principals = all (record { signers = codes "a" ∷ [] });
  functions = none;
  args = none;
  not_after_ledger = none;
  cap = none;
}

abbrev pub doc : PolicyDoc
doc = record {
  version = 1;
  network = none;
  signers =
      record { id = codes "a"; method = external pool_address (codes "0a") }
      ∷ (record { id = codes "b"; method = delegated user_address } ∷ []);
  rules = transfer ∷ (admin ∷ []);
  recovery = some (record {
    profile = protected;
    mode = guardian_only (record { guardians = user_address ∷ []; quorum = 1 });
    controller = pool_address;
    baseline = none;
    replaceable = codes "a" ∷ [];
    delay_ledgers = 10;
    expiry_ledgers = 20;
    max_cancels = 3;
  });
}

pool_address-shape : is_contract_address_shape pool_address ≡ true
unfolding is_contract_address_shape is_strkey_shape strkey_checksum_ok base32_decode decode_step
    crc16 crc_bits
pool_address-shape = refl

user_address-shape : is_contract_address_shape user_address ≡ false
unfolding is_contract_address_shape is_strkey_shape
user_address-shape = refl

-- One changed letter breaks the checksum.
changed_address-shape :
    is_address_shape (codes "GALZMP2YGMVP6N57D2E6YVKMK3AONEOSC3F2RAXPOAKRIQVTSHJOOBVX") ≡ false
unfolding is_address_shape is_strkey_shape strkey_checksum_ok base32_decode decode_step crc16
    crc_bits
changed_address-shape = refl

admin-json :
    rule_canonical_json admin
    ≡ codes
        "{\"name\":\"admin\",\"principals\":{\"signers\":[\"a\"],\"type\":\"all\"},\"scope\":{\"type\":\"self-admin\"}}"
unfolding rule_canonical_json write_value rule_to_cv join sort_entries insert_entry str_lt
    write_json_string escape_all escape principals_to_cv array scope_to_cv
admin-json = refl

doc-valid : validate hex_decode doc ≡ ok tt
unfolding validate collect signers_loop signer_errors seen_str method_errors first_with_key see
    first_delegate rules_loop args_errors args_loop avoid_loop cap_errors cap_token_errors each_str
    expiry_errors function_errors functions_errors functions_loop mode_errors pred_errors
    principals_errors scope_errors validate_guardian_set validate_principal_signers
    validate_recovery validate_rule validate_rules_avoid_zk_contracts validate_zk_factor
    is_contract_address_shape is_address_shape is_strkey_shape strkey_checksum_ok base32_decode
    decode_step crc16 crc_bits is_valid_symbol parse_i128 decimal
doc-valid = refl

-- Every problem is reported, in the order of the checks.
broken-reports :
    validate hex_decode (record doc {
      rules =
          record admin {
            principals = threshold (record { signers = codes "c" ∷ []; m = 2 });
            functions = some [];
            not_after_ledger = some 0;
          }
          ∷ [];
    })
    ≡ err (
        unknown_signer_ref (codes "admin") (codes "c")
        ∷ (invalid_threshold (codes "admin") 2 1
            ∷ (empty_functions (codes "admin") ∷ (zero_not_after_ledger (codes "admin") ∷ []))))
unfolding validate collect signers_loop signer_errors seen_str method_errors first_with_key see
    first_delegate rules_loop args_errors args_loop avoid_loop cap_errors cap_token_errors each_str
    expiry_errors function_errors functions_errors functions_loop mode_errors pred_errors
    principals_errors scope_errors validate_guardian_set validate_principal_signers
    validate_recovery validate_rule validate_rules_avoid_zk_contracts validate_zk_factor
    is_contract_address_shape is_address_shape is_strkey_shape strkey_checksum_ok base32_decode
    decode_step crc16 crc_bits is_valid_symbol parse_i128 decimal
broken-reports = refl

validate-IsDoc_example : IsDoc hex_decode doc
validate-IsDoc_example = validate-IsDoc hex_decode doc doc-valid
