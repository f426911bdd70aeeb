-- ===== src/Recovery/ChangeTests.antt =====
-- The removal of a protected configuration at a concrete input.
use perch.Common.{Bytes32, true, false, none, some, [], ◌∷◌, ◌≡◌, refl, update, ok}
use perch.Encode.{contract_id, address_payload, to_be}
use perch.Recovery.Statement.{
  reconfigure_to, remove, encode, encode_body, encode_subject, digest, check_fresh,
}
use perch.Recovery.Types.{SyncOutcome, ChangeApproval}
use perch.Recovery.World.{next}
use perch.Recovery.State.{Entries, bump_epoch, authorized_live}
use perch.Recovery.Conditions as Conditions
use perch.Recovery.Entry.{rcv_sync, sync_normally, reconfigure, replace, here_now, change_to}
use perch.Recovery.Conditions.Quorum.{MeetsCondition}
use perch.Recovery.Protected.{rcv_sync-protected}
use perch.Recovery.Conditions.Quorum.{require_condition-ok}
use perch.Recovery.Tests.{world, account, config, enrolled}

-- The removal of the configuration, with its evidence under the statement's digest, which is the
-- length of the encoding here.
abbrev approval : ChangeApproval
approval = record { guardians = 22 ∷ 21 ∷ []; zk = false }

abbrev agreed : Entries
agreed = record enrolled { approval = update enrolled.approval 207 (some approval) }

condition_run :
    Conditions.require_condition (world 100) account agreed config (reconfigure_to remove) 110
    ≡ ok tt
unfolding Conditions.require_condition Conditions.change_statement_for Conditions.statement
    Conditions.check_fresh check_fresh Conditions.digest digest encode encode_body encode_subject
    contract_id address_payload to_be Conditions.count_enrolled
condition_run = refl

remove_run :
    rcv_sync (world 100) account 13 [] 110 agreed
    ≡ ok (SyncOutcome.removed, record agreed { config = none; authorized = none; epoch = some 2 })
unfolding rcv_sync sync_normally authorized_live reconfigure here_now change_to replace bump_epoch
    next Conditions.require_condition Conditions.change_statement_for Conditions.statement
    Conditions.check_fresh check_fresh Conditions.digest digest encode encode_body encode_subject
    contract_id address_payload to_be Conditions.count_enrolled
remove_run = refl

rcv_sync-protected_example :
    (authorized_live 100 agreed ≡ none)
    × (true ≡ true
        → (Conditions.check_fresh (world 100) account (
              Conditions.statement
                (world 100)
                account
                config
                1
                110
                (reconfigure_to (change_to (world 100) account none)))
            ≡ ok tt)
          × (d : Bytes32) × (r : ChangeApproval) × (Conditions.digest (world 100) account (
                Conditions.statement
                  (world 100)
                  account
                  config
                  1
                  110
                  (reconfigure_to (change_to (world 100) account none)))
              ≡ ok d)
          × (agreed.approval d ≡ some r)
          × MeetsCondition config r)
rcv_sync-protected_example =
    rcv_sync-protected (world 100) account agreed
      (record agreed { config = none; authorized = none; epoch = some 2 }) config 13 [] 110
      SyncOutcome.removed refl remove_run refl

require_condition-ok_example :
    (true ≡ true)
    × (Conditions.check_fresh
          (world 100)
          account
          (Conditions.statement (world 100) account config 1 110 (reconfigure_to remove))
        ≡ ok tt)
    × ((d : Bytes32) × (r : ChangeApproval) × (Conditions.digest
            (world 100)
            account
            (Conditions.statement (world 100) account config 1 110 (reconfigure_to remove))
          ≡ ok d)
        × (agreed.approval d ≡ some r)
        × MeetsCondition config r)
require_condition-ok_example =
    require_condition-ok (world 100) account agreed config (reconfigure_to remove) 110 condition_run
