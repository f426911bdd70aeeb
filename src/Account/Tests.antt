-- ===== src/Account/Tests.antt =====
-- A reconciliation of concrete rules.
use perch.Common.{
  ℕ, ◌+◌, ◌≡◌, refl, Bytes32, Val, true, false, none, some, List, [], ◌∷◌, length, ok,
}
use perch.Document.Text.{codes}
use perch.Recovery.Config.{loss, guardian_only}
use perch.Account.{
  InstalledRule, DeltaSummary, call_contract, Host, CompiledDoc, self_admin, contract, with_id,
  desired, admin_rule, document_rules, expired, document_rule, same_slot, recovery_rule_of,
}
use perch.Account.Effects.{
  Oz, missing, applied, cost_le, count_policies, count_rules, count_signers, deregister_policy,
  deregister_signer, each, first_index_of, hook, map_set, metered, new_meter, oz_rule, policy_map,
  refs_of, register_policy, register_signer,
}
use perch.Account.Reconcile.{
  has_policy, edit, reconcile, replace_all, additions, removals, fresh_of, remove_unwanted,
  is_wanted, reconcile_rules, reconcile_rule, find_slot, unchanged, all_in, change, add_each,
  add_new, edit_fresh_first, edit_in_order, edit_policies_first, edit_signers_first, remove_each,
  replace, set_expiry, stale_of, swap_signers, remove_rules, add_rules,
}

abbrev pub digest : Val → Bytes32
digest v = v + 100

abbrev pub old_rule : InstalledRule
old_rule = record {
  id = 3;
  recovery = false;
  name = codes "pay";
  context_type = call_contract 8;
  valid_until = none;
  signers = 1 ∷ (2 ∷ []);
  policies = record { policy = 50; params = 107 } ∷ [];
}

-- Another signer, a changed program, a cap and an expiry.
abbrev pub new_rule : InstalledRule
new_rule = record old_rule {
  id = 0;
  valid_until = some 9;
  signers = 2 ∷ (4 ∷ []);
  policies = record { policy = 50; params = 108 } ∷ (record { policy = 60; params = 109 } ∷ []);
}

-- A library that numbers the rules it adds, with one interpreter policy on each.
abbrev pub oz : Oz ℕ
oz = record {
  reconcile_signers_no_events = λ id ss o. ok o;
  add_policy_no_events = λ id p v o. ok o;
  remove_policy_no_events = λ id p o. ok o;
  update_valid_until_no_events = λ id t o. ok o;
  remove_context_rule_no_events = λ id o. ok o;
  add_context_rule_no_events = λ c n t ss ps o. ok (o + 1, o);
  get_context_rule = λ id o. ok (record { rule_id = id; policies = 50 ∷ []; policy_ids = 7 ∷ [] });
}

abbrev pub e : Host
e = record {
  here = 4;
  sequence = 20;
  interpreter = 50;
  spending_limit = 60;
  sha256 = λ bs. length bs;
  install_xdr = λ i. [];
  install_val = λ i. 1;
  cap_xdr = λ c. [];
  cap_val = λ c. 2;
  hash_xdr = λ h. [];
  hash_val = λ h. h;
}

-- The admin rule as installed, a rule that the account does not have, and one that has expired.
abbrev pub compiled_doc : CompiledDoc
compiled_doc = record {
  rules =
      record {
        name = codes "admin";
        scope = self_admin;
        signers = 1 ∷ [];
        valid_until = none;
        install = [];
        cap = [];
      }
      ∷ (record {
        name = codes "pay";
        scope = contract 8;
        signers = 2 ∷ [];
        valid_until = some 90;
        install = record { program = record { version = 1; ops = [] }; doc_hash = 5 } ∷ [];
        cap = [];
      }
          ∷ (record {
            name = codes "late";
            scope = contract 9;
            signers = 2 ∷ [];
            valid_until = some 19;
            install = [];
            cap = [];
          }
              ∷ []));
  recovery =
      record {
        config_hash = 70;
        profile = loss;
        mode = guardian_only (record { guardians = 9 ∷ []; quorum = 1 });
        controller = 80;
        baseline = none;
        replaceable = [];
        delay_ledgers = 10;
        expiry_ledgers = 20;
        max_cancels = 3;
      }
      ∷ [];
  doc_hash = 55;
  canonical = [];
  fingerprints = 1 ∷ [];
}

abbrev pub current : List InstalledRule
current = admin_rule e 6 (1 ∷ []) ∷ (old_rule ∷ [])

abbrev pub pay : InstalledRule
pay = record {
  id = 3;
  recovery = false;
  name = codes "pay";
  context_type = call_contract 8;
  valid_until = some 90;
  signers = 2 ∷ [];
  policies = record { policy = 50; params = 0 } ∷ [];
}

abbrev pub recovery : InstalledRule
recovery = record {
  id = 30;
  recovery = true;
  name = codes "recovery";
  context_type = call_contract 4;
  valid_until = none;
  signers = [];
  policies = record { policy = 80; params = 0 } ∷ [];
}

abbrev changes : DeltaSummary
changes = record {
  rules_added = 1;
  rules_removed = 0;
  rules_edited = 1;
  signers_added = 0;
  signers_removed = 1;
  policies_added = 1;
  policies_removed = 1;
}

abbrev next : List InstalledRule
next = admin_rule e 6 (1 ∷ []) ∷ (pay ∷ (recovery ∷ []))

reconcile_run : reconcile oz e 5 current (desired e compiled_doc) 30 ≡ ok (31, (next, changes))
unfolding reconcile remove_unwanted is_wanted desired document_rules expired document_rule same_slot
    admin_rule reconcile_rules reconcile_rule find_slot unchanged all_in change edit additions
    has_policy applied cost_le count_policies count_rules count_signers deregister_policy
    deregister_signer each first_index_of hook map_set metered missing new_meter oz_rule policy_map
    refs_of register_policy register_signer add_each add_new edit_fresh_first edit_in_order
    edit_policies_first edit_signers_first fresh_of removals remove_each replace set_expiry stale_of
    swap_signers recovery_rule_of
reconcile_run = refl

abbrev replaced : List InstalledRule
replaced = admin_rule e 40 (1 ∷ []) ∷ (with_id pay 41 ∷ (with_id recovery 42 ∷ []))

abbrev full : DeltaSummary
full = record changes {
  rules_added = 3;
  rules_removed = 2;
  rules_edited = 0;
  signers_removed = 0;
  policies_added = 0;
  policies_removed = 0;
}

replace_all_run : replace_all oz e 5 current (desired e compiled_doc) 40 ≡ ok (43, (replaced, full))
unfolding replace_all remove_rules applied add_rules desired document_rules expired document_rule
    policy_map recovery_rule_of admin_rule
replace_all_run = refl
