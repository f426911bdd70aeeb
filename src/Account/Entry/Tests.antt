-- ===== src/Account/Entry/Tests.antt =====
-- The account's calls on concrete states.
use perch.Recovery.Credential.{push_dropped, push_new, revocations}
use perch.Account.Effects.{
  applied, cost_le, count_policies, count_rules, count_signers, deregister_policy,
  deregister_signer, each, first_index_of, hook, map_set, metered, missing, new_meter, oz_rule,
  policy_map, refs_of, register_policy, register_signer,
}
use perch.Account.{
  desired, document_rules, expired, document_rule, recovery_rule_of, same_slot, admin_rule,
}
use perch.Account.Reconcile.{
  reconcile, remove_unwanted, is_wanted, add_each, add_new, additions, all_in, change, edit,
  edit_fresh_first, edit_in_order, edit_policies_first, edit_signers_first, find_slot, fresh_of,
  has_policy, reconcile_rule, reconcile_rules, removals, remove_each, replace, set_expiry, stale_of,
  swap_signers, unchanged,
}
use perch.Recovery.Config.{zk_factor_transition_ok, leaf_to_insert}
use perch.Recovery.World.{admin_survives}
use perch.Common.{ℕ, true, false, none, some, [], ◌+◌, ◌≤◌, ◌≡◌, refl, ok, err}
use perch.Recovery.Types.{enrolled, bumps_generation}
use perch.Account.Tests.{oz, e, compiled_doc, current}
use perch.Account.Entry.{
  Around, State, apply, schedule_upgrade, execute_upgrade, account_upgrade_delay_ledgers,
  is_reserved_invoker_only, UpgradeRequest, upgrade_not_ready, stale_revision, revoked_credential,
  checked_doc, sync, sync_old, sync_new, advance_generation, change_all, apply_rules,
  complete_recovery, fingerprints_of, conclude, insert_leaf, revoke_all, store_doc, upgrade_request,
  readiness,
}
use perch.Account.Entry.Upgrades.{
  applies, schedules, Later, Call-Later, deployed, then_call, Scheduled, execute_upgrade-Scheduled,
}
use perch.Document.Text.{codes}

-- At a ledger, with every contract agreeing.
abbrev at_ledger : ℕ → Around ℕ
at_ledger now = record {
  host = record e { sequence = now };
  oz = oz;
  max_policies = 5;
  auth = λ a. true;
  compile_doc = λ d. some compiled_doc;
  credential_fingerprint = λ c. some 7;
  try_rcv_sync = λ c h r a. some enrolled;
  try_rcv_cancel = λ c id. true;
  try_rcv_upgrade = λ c step. some 3;
  insert_call = λ p i c. true;
}

abbrev fresh_state : State ℕ
fresh_state = record {
  revision = 4;
  generation = 2;
  freeze_gate = none;
  recovery_controller = none;
  recovery_rule = none;
  current_zk = none;
  revoked = λ f. false;
  enrolled_ids = λ i. false;
  applied_doc = none;
  applied_doc_bytes = none;
  applied_fingerprints = [];
  pending_upgrade = none;
  next_upgrade_id = 8;
  installed_rules = current;
  library = 30;
  wasm_hash = 1;
}

unfoldable apply_run :
    (s' : State ℕ) × (apply (at_ledger 20) [] 0 (some 4) fresh_state ≡ ok (s', 55))
unfolding apply checked_doc admin_survives zk_factor_transition_ok leaf_to_insert sync sync_old
    sync_new advance_generation bumps_generation change_all apply_rules reconcile remove_unwanted
    is_wanted desired document_rules expired applied cost_le count_policies count_rules
    count_signers deregister_policy deregister_signer each first_index_of hook map_set metered
    missing new_meter oz_rule policy_map refs_of register_policy register_signer complete_recovery
    fingerprints_of conclude insert_leaf revoke_all store_doc add_each add_new additions all_in
    change edit edit_fresh_first edit_in_order edit_policies_first edit_signers_first find_slot
    fresh_of has_policy reconcile_rule reconcile_rules removals remove_each replace set_expiry
    stale_of swap_signers unchanged document_rule recovery_rule_of same_slot push_dropped push_new
    revocations admin_rule
apply_run = (_, refl)

Call-Later_example : Later fresh_state apply_run.0
Call-Later_example =
    Call-Later (at_ledger 20) fresh_state apply_run.0 (applies [] 0 (some 4) 55 apply_run.1)

apply_adopts : apply_run.0.recovery_controller ≡ some 80
unfolding apply_run
apply_adopts = refl

apply_stale : apply (at_ledger 20) [] 0 (some 3) fresh_state ≡ err stale_revision
unfolding apply checked_doc
apply_stale = refl

-- The credential with fingerprint 1 was revoked.
apply_revoked :
    apply (at_ledger 20) [] 0 none (record fresh_state { revoked = λ f. true })
    ≡ err revoked_credential
unfolding apply checked_doc admin_survives
apply_revoked = refl

unfoldable scheduled_run :
    (s' : State ℕ) × (schedule_upgrade (at_ledger 20) 9 0 fresh_state ≡ ok (s', 8))
unfolding schedule_upgrade upgrade_request
scheduled_run = (_, refl)

executed_run : (s' : State ℕ) × (execute_upgrade (at_ledger 120980) 8 scheduled_run.0 ≡ ok s')
unfolding execute_upgrade scheduled_run readiness
executed_run = (_, refl)

-- One ledger before the delay has passed.
executed_early : execute_upgrade (at_ledger 120979) 8 scheduled_run.0 ≡ err upgrade_not_ready
unfolding execute_upgrade scheduled_run readiness
executed_early = refl

execute_upgrade-Scheduled_example :
    (r : UpgradeRequest) × (sched : Scheduled fresh_state r) × (r.request_id ≡ 8)
    × (executed_run.0.wasm_hash ≡ r.wasm_hash)
    × (sched.around.host.sequence + account_upgrade_delay_ledgers ≤ 120980)
    × (sched.before.generation ≡ scheduled_run.0.generation)
execute_upgrade-Scheduled_example =
    execute_upgrade-Scheduled fresh_state scheduled_run.0 executed_run.0 (at_ledger 120980) 8 refl
      (then_call (at_ledger 20) deployed (schedules 9 0 8 scheduled_run.1)) executed_run.1

reserved_install : is_reserved_invoker_only (codes "rcv_gate") ≡ true
unfolding is_reserved_invoker_only
reserved_install = refl
