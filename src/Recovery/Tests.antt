-- ===== src/Recovery/Tests.antt =====
-- Runs of the recovery controller at concrete inputs: an enrollment, a lost-key recovery by two
-- guardians and its completion.
use perch.Common.{
  ℕ, ◌+◌, ◌≤◌, ◌<◌, Address, Bytes, true, false, none, some, [], ◌∷◌, ◌++◌, ◌≡◌, refl, update, ok,
  length,
}
use perch.Encode.{contract_id, contract_header, address_payload, to_be}
use perch.Program.Leaf.{Context, contract}
use perch.Recovery.Config.{
  CompiledRecoveryConfig, CompiledGuardianSet, guardian_only, protected, guardians,
  zk_factor_transition_ok,
}
use perch.Recovery.Statement.{lost_key, encode, encode_body, encode_subject, digest, check_fresh}
use perch.Recovery.Credential.{
  ReplacementSet, replacements_hash, encode_replacements, encode_signers, encode_enrollment,
  replaced_credentials_leave,
}
use perch.Recovery.Types.{Attempt, collecting, authorized, completed, initiate, SyncOutcome}
use perch.Recovery.World.{World, Derived, add, next}
use perch.Recovery.State.{
  Entries, bump_epoch, store_config, load, load_live, is_live, authorized_live, save, is_persistent,
  evidence_window,
}
use perch.Recovery.Conditions as Conditions
use perch.Recovery.Transitions.{
  begin, source_of, check_target, none_revoked, fingerprints, gate, is_stale, promote,
  after_evidence, target_of, apply_doc, authorize_completion, spend, complete,
}
use perch.Recovery.Entry.{
  ContextRule, enforce, assert_recovery_rule, begin_lost_key, submit_guardian, count_guardian,
  rcv_sync, sync_normally, enroll, is_current,
}
use perch.Recovery.Reach.{
  no_entries, Reachable, deployed, then_step, begins_lost_key, submits_guardian, enforces, syncs,
}
use perch.Recovery.Safety.{rcv_sync-authorized}
use perch.Recovery.Invariant.{distinct, has_all}
use perch.Recovery.Transitions.{is_authorized}

-- An address whose id is one byte.
abbrev pub xdr : Address → Bytes
xdr a =
    contract_header
    ++ (0 ∷ 0 ∷ 0 ∷ 0 ∷ 0 ∷ 0 ∷ 0 ∷ 0 ∷ 0 ∷ 0 ∷ 0 ∷ 0 ∷ 0 ∷ 0 ∷ 0 ∷ 0 ∷ 0 ∷ 0 ∷ 0 ∷ 0 ∷ 0 ∷ 0 ∷ 0
        ∷ 0 ∷ 0 ∷ 0 ∷ 0 ∷ 0 ∷ 0 ∷ 0 ∷ 0 ∷ a ∷ [])

abbrev derived : Derived
derived = record {
  canonical = 3 ∷ [];
  doc_hash = 12;
  config_hash = 42;
  fingerprints = [];
  replaced = [];
}

abbrev pub world : ℕ → World
world ledger = record {
  now = ledger;
  here = 50;
  network_id = 9;
  max_ttl = 1000;
  sha256 = λ bytes. length bytes;
  to_xdr = xdr;
  as_bytes = λ v. some (v ∷ []);
  auth = λ a. true;
  auth_for = λ a d. true;
  applied_doc = some (1 ∷ []);
  applied_doc_hash = some 11;
  is_enrolled_id = λ i. false;
  is_revoked = λ f. false;
  accepts_gate = λ i u. true;
  derive_target = λ source current a r. some derived;
  compile_doc = λ d. none;
  verify = λ a s b e. false;
  circuit_id = λ a. none;
  adapter_depth = λ a. none;
  pool_depth = λ a. none;
}

abbrev pub account : Address
account = 30

abbrev set_of : CompiledGuardianSet
set_of = record { guardians = 21 ∷ 22 ∷ []; quorum = 2 }

abbrev pub config : CompiledRecoveryConfig
config = record {
  config_hash = 41;
  profile = protected;
  mode = guardian_only set_of;
  controller = 50;
  baseline = none;
  replaceable = [];
  delay_ledgers = 10;
  expiry_ledgers = 20;
  max_cancels = 1;
}

abbrev pub target_config : CompiledRecoveryConfig
target_config = record config { config_hash = 42 }

abbrev no_replacements : ReplacementSet
no_replacements = record { signers = []; zk_enrollment = [] }

abbrev pub rule : ContextRule
rule = record { signers = []; call_contract = some account }

abbrev pub attempt : Attempt
attempt = record {
  id = 0;
  action = lost_key;
  epoch = 1;
  created_at = 100;
  evidence_deadline = 120;
  cancel_until = 150;
  authorized_at = 0;
  executable_after = 0;
  expires_at = 0;
  source_doc_hash = 11;
  target_doc_hash = 12;
  target_bytes_hash = 1;
  target_config_hash = 42;
  replacements_hash = 32;
  replaced = [];
  state = collecting;
  guardians = [];
  zk_nullifier = none;
  cancel_guardians = [];
  cancel_zk = false;
}

abbrev approved : Attempt
approved = record attempt { guardians = 21 ∷ [] }

abbrev authorized_attempt : Attempt
authorized_attempt = record attempt {
  guardians = 21 ∷ 22 ∷ [];
  state = authorized;
  authorized_at = 100;
  executable_after = 110;
  expires_at = 130;
}

abbrev pub enrolled : Entries
enrolled = record no_entries { config = some config; epoch = some 1 }

abbrev begun : Entries
begun = record enrolled {
  next_attempt = some 1;
  collecting = update enrolled.collecting 0 (some attempt);
}

abbrev once : Entries
once = record begun { collecting = update begun.collecting 0 (some approved) }

abbrev twice : Entries
twice = record once {
  invalidate_below = some 1;
  authorized = some 0;
  gates = (0, 130) ∷ [];
  attempt = update once.attempt 0 (some authorized_attempt);
  collecting = update once.collecting 0 none;
}

abbrev marked : Entries
marked = record twice {
  completing = some (record { attempt_id = 0; target_doc_hash = 12; ledger = 115 });
}

abbrev concluded : Entries
concluded = record marked {
  completing = none;
  attempt = update marked.attempt 0 (some (record authorized_attempt { state = completed }));
  collecting = update marked.collecting 0 none;
  authorized = none;
  config = some target_config;
  epoch = some 2;
}

abbrev pub call : Context
call = contract (record { contract = account; fn_name = apply_doc; args = 3 ∷ [] })

enroll_run :
    rcv_sync (world 100) account 11 (config ∷ []) 0 no_entries ≡ ok (SyncOutcome.enrolled, enrolled)
unfolding rcv_sync sync_normally authorized_live enroll Conditions.check_config
    Conditions.check_zk_wiring zk_factor_transition_ok store_config bump_epoch next
enroll_run = refl

begin_run : begin_lost_key (world 100) account no_replacements enrolled ≡ ok (0, begun)
unfolding begin_lost_key begin authorized_live replacements_hash encode_replacements encode_signers
    encode_enrollment to_be source_of check_target none_revoked fingerprints
    replaced_credentials_leave next add save is_persistent evidence_window
begin_run = refl

first_guardian_run : submit_guardian (world 100) account 0 initiate 21 begun ≡ ok once
unfolding submit_guardian load_live load is_live count_guardian Conditions.attempt_statement
    Conditions.initiation_statement Conditions.statement Conditions.check_fresh check_fresh
    Conditions.digest digest encode encode_body encode_subject contract_id address_payload to_be
    after_evidence Conditions.initiation_met save is_persistent evidence_window
first_guardian_run = refl

second_guardian_run : submit_guardian (world 100) account 0 initiate 22 once ≡ ok twice
unfolding submit_guardian load_live load is_live count_guardian Conditions.attempt_statement
    Conditions.initiation_statement Conditions.statement Conditions.check_fresh check_fresh
    Conditions.digest digest encode encode_body encode_subject contract_id address_payload to_be
    after_evidence Conditions.initiation_met promote authorized_live is_stale gate add save
    is_persistent evidence_window
second_guardian_run = refl

enforce_run : enforce (world 115) account call [] rule twice ≡ ok marked
unfolding enforce assert_recovery_rule authorize_completion target_of authorized_live is_live
enforce_run = refl

complete_run :
    rcv_sync (world 115) account 12 (target_config ∷ []) 0 marked
    ≡ ok (SyncOutcome.completed (record { attempt_id = 0; replaced = [] }), concluded)
unfolding rcv_sync is_current authorized_live is_live complete spend save is_persistent
    evidence_window store_config bump_epoch next
complete_run = refl

marked-Reachable : Reachable account marked
marked-Reachable =
    then_step
      (then_step
        (then_step
          (then_step
            (then_step deployed
              (syncs (world 100) 11 (config ∷ []) 0 SyncOutcome.enrolled enroll_run))
            (begins_lost_key (world 100) no_replacements 0 begin_run))
          (submits_guardian (world 100) 0 initiate 21 first_guardian_run))
        (submits_guardian (world 100) 0 initiate 22 second_guardian_run))
      (enforces (world 115) call [] rule enforce_run)

rcv_sync-authorized_example :
    (a : Attempt) × (c : CompiledRecoveryConfig) × (marked.attempt 0 ≡ some a)
    × (is_authorized a.state ≡ true)
    × (a.epoch ≡ 1)
    × (some config ≡ some c)
    × (Conditions.initiation_met c a ≡ true)
    × (distinct a.guardians ≡ true)
    × ((set : CompiledGuardianSet)
        → guardians c ≡ some set
        → has_all set.guardians a.guardians ≡ true)
    × (a.authorized_at + c.delay_ledgers ≤ 115)
    × (115 < a.expires_at)
    × (12 ≡ a.target_doc_hash)
rcv_sync-authorized_example =
    rcv_sync-authorized (world 115) account marked concluded 12 (target_config ∷ []) 0
      (record { attempt_id = 0; replaced = [] }) marked-Reachable complete_run
