-- ===== src/Recovery/ProofTests.antt =====
-- A run of the recovery controller by a membership proof, and what it leaves for later calls.
use perch.Common.{ℕ, true, none, some, [], ◌∷◌, ◌≡◌, ◌≢◌, refl, update, ok}
use perch.Encode.{to_be}
use perch.Recovery.Config.{CompiledRecoveryConfig, zk_only, loss, zk_factor_transition_ok, binding}
use perch.Recovery.Statement as Statement
use perch.Recovery.Credential.{
  ReplacementSet, replacements_hash, encode_replacements, encode_signers, encode_enrollment,
  replaced_credentials_leave,
}
use perch.Recovery.Types.{Attempt, authorized, completed, initiate, SyncOutcome, Completion}
use perch.Recovery.World.{World, ZkEvidence, add, next}
use perch.Recovery.State.{
  Entries, bump_epoch, store_config, load, load_live, is_live, authorized_live, save, is_persistent,
  evidence_window,
}
use perch.Recovery.Conditions.{
  check_config, check_zk_wiring, is_wired, attempt_statement, initiation_statement, statement,
  check_fresh, initiation_met, verify_zk,
}
use perch.Recovery.Transitions.{
  begin, source_of, check_target, none_revoked, fingerprints, gate, is_stale, promote,
  after_evidence, target_of, authorize_completion, spend, complete,
}
use perch.Recovery.Entry.{
  enforce, assert_recovery_rule, begin_lost_key, submit_zk, awaits_zk, record_zk, rcv_sync,
  sync_normally, enroll, is_current,
}
use perch.Recovery.Reach.{
  no_entries, Reachable, deployed, then_step, begins_lost_key, submits_zk, enforces, syncs,
}
use perch.Recovery.History.{Later}
use perch.Recovery.History.Steps.{Step-Later, no_step, completion_once}
use perch.Recovery.Tests.{account, config, rule, attempt, call}
use perch.Recovery.CredentialTests.{factor}
use perch.Recovery.Tests as Tests

abbrev world : ℕ → World
world ledger = record (Tests.world ledger) {
  verify = λ a s b e. true;
  circuit_id = λ a. some 61;
  adapter_depth = λ a. some 2;
  pool_depth = λ a. some 2;
}

abbrev zk_config : CompiledRecoveryConfig
zk_config = record config { mode = zk_only factor; profile = loss }

abbrev zk_target : CompiledRecoveryConfig
zk_target = record zk_config { config_hash = 42 }

abbrev rotation : ReplacementSet
rotation = record { signers = []; zk_enrollment = record { id = 70; commitment = 71 } ∷ [] }

abbrev evidence : ZkEvidence
evidence = record { tree_id = 0; root = 3; nullifier = 5; proof = [] }

abbrev zk_attempt : Attempt
zk_attempt = record attempt { replacements_hash = 96 }

abbrev zk_authorized : Attempt
zk_authorized = record zk_attempt {
  zk_nullifier = some 5;
  state = authorized;
  authorized_at = 100;
  executable_after = 110;
  expires_at = 130;
}

abbrev zk_completed : Attempt
zk_completed = record zk_authorized { state = completed }

abbrev enrolled : Entries
enrolled = record no_entries { config = some zk_config; epoch = some 1 }

abbrev begun : Entries
begun = record enrolled {
  next_attempt = some 1;
  collecting = update enrolled.collecting 0 (some zk_attempt);
}

abbrev proven : Entries
proven = record begun {
  invalidate_below = some 1;
  authorized = some 0;
  attempt = update begun.attempt 0 (some zk_authorized);
  collecting = update begun.collecting 0 none;
}

abbrev marked : Entries
marked = record proven {
  completing = some (record { attempt_id = 0; target_doc_hash = 12; ledger = 115 });
}

abbrev concluded : Entries
concluded = record marked {
  completing = none;
  nullifier = update marked.nullifier 5 true;
  attempt = update marked.attempt 0 (some zk_completed);
  collecting = update marked.collecting 0 none;
  authorized = none;
  config = some zk_target;
  epoch = some 2;
}

enroll_run :
    rcv_sync (world 100) account 11 (zk_config ∷ []) 0 no_entries
    ≡ ok (SyncOutcome.enrolled, enrolled)
unfolding rcv_sync sync_normally authorized_live enroll check_config check_zk_wiring is_wired
    zk_factor_transition_ok store_config bump_epoch next
enroll_run = refl

begin_run : begin_lost_key (world 100) account rotation enrolled ≡ ok (0, begun)
unfolding begin_lost_key begin authorized_live replacements_hash encode_replacements encode_signers
    encode_enrollment to_be source_of check_target none_revoked fingerprints
    replaced_credentials_leave next add save is_persistent evidence_window
begin_run = refl

prove_run : submit_zk (world 100) account 0 initiate evidence begun ≡ ok proven
unfolding submit_zk load_live load is_live awaits_zk attempt_statement initiation_statement
    statement check_fresh Statement.check_fresh verify_zk binding record_zk after_evidence
    initiation_met promote authorized_live is_stale gate add save is_persistent evidence_window
prove_run = refl

enforce_run : enforce (world 115) account call [] rule proven ≡ ok marked
unfolding enforce assert_recovery_rule authorize_completion target_of authorized_live is_live
enforce_run = refl

complete_run :
    rcv_sync (world 115) account 12 (zk_target ∷ []) 0 marked
    ≡ ok (SyncOutcome.completed (record { attempt_id = 0; replaced = [] }), concluded)
unfolding rcv_sync is_current authorized_live is_live complete spend save is_persistent
    evidence_window store_config bump_epoch next
complete_run = refl

marked-Reachable : Reachable account marked
marked-Reachable =
    then_step
      (then_step
        (then_step
          (then_step deployed
            (syncs (world 100) 11 (zk_config ∷ []) 0 SyncOutcome.enrolled enroll_run))
          (begins_lost_key (world 100) rotation 0 begin_run))
        (submits_zk (world 100) 0 initiate evidence prove_run))
      (enforces (world 115) call [] rule enforce_run)

abbrev completion : Completion
completion = record { attempt_id = 0; replaced = [] }

completion_once_example :
    rcv_sync (world 116) account 12 (zk_target ∷ []) 0 concluded
    ≢ ok (SyncOutcome.completed completion, concluded)
completion_once_example =
    completion_once account (world 115) (world 116) marked concluded concluded concluded 12 12
      (zk_target ∷ []) (zk_target ∷ []) 0 0 completion completion zk_authorized zk_completed 5
      marked-Reachable complete_run refl refl no_step refl refl

Step-Later_example : Later marked concluded
Step-Later_example =
    Step-Later account marked concluded
      (syncs (world 115) 12 (zk_target ∷ []) 0 (SyncOutcome.completed completion) complete_run)
