-- ===== src/Recovery/History/Steps.antt =====
-- crates/perch-recovery/src/contract.rs: the history of an account's entries over any number of calls.
use perch.Common.{ℕ, Address, Bytes32, true, some, List, ◌≡◌, ◌≢◌, sym, ◌∙◌, arith, ok, Ensures-ok}
use mathlib.Core.Path.{subst}
use perch.Recovery.Config.{CompiledRecoveryConfig}
use perch.Recovery.Types.{Attempt, Completion, SyncOutcome}
use perch.Recovery.World.{World}
use perch.Recovery.State.{Entries}
use perch.Recovery.Entry.{begin_lost_key, begin_compromise, rcv_sync}
use perch.Recovery.Invariant.{some-injective}
use perch.Recovery.Reach.{
  Step, Reachable, then_step, begins_lost_key, begins_compromise, submits_guardian, submits_zk,
  approves, submits_zk_change, publishes, enforces, syncs, cancels, upgrades, attempt_expires,
  marker_expires, approval_expires,
}
use perch.Recovery.Safety.{rcv_sync-concludes}
use perch.Recovery.History.{Later, Later-self}
use perch.Recovery.History.Attempts.{Second, submit_guardian-Later, submit_zk-Later, begin-Later}
use perch.Recovery.History.Hooks.{
  Outcome, enforce-Later, rcv_sync-Later, rcv_cancel-Later, rcv_upgrade-Later,
}
use perch.Recovery.History.Changes.{
  approve_change-Later, submit_zk_change-Later, publish_baseline-Later,
}

-- No call lowers the epoch or the next attempt id, or forgets a spent nullifier; and a call counts at
-- most one cancellation, which it does only while the count is below the stored configuration's
-- maximum.
pub Step-Later : (account : Address) (s t : Entries) → Step account s t → Later s t
unfolding begin_lost_key begin_compromise
Step-Later account s t (begins_lost_key w r n h) =
    Ensures-ok (Second w account s) _ (n, t) (begin-Later w account _ r s) h
Step-Later account s t (begins_compromise w r n h) =
    Ensures-ok (Second w account s) _ (n, t) (begin-Later w account _ r s) h
Step-Later account s t (submits_guardian w id domain guardian h) =
    Ensures-ok (Later s) _ t (submit_guardian-Later w account id domain guardian s) h
Step-Later account s t (submits_zk w id domain evidence h) =
    Ensures-ok (Later s) _ t (submit_zk-Later w account id domain evidence s) h
Step-Later account s t (approves w subject until guardian h) =
    Ensures-ok (Later s) _ t (approve_change-Later w account subject until guardian s) h
Step-Later account s t (submits_zk_change w subject until evidence h) =
    Ensures-ok (Later s) _ t (submit_zk_change-Later w account subject until evidence s) h
Step-Later account s t (publishes w doc_json h) =
    Ensures-ok (Later s) _ t (publish_baseline-Later w account doc_json s) h
Step-Later account s t (enforces w context signers rule h) =
    Ensures-ok (Later s) _ t (enforce-Later w account context signers rule s) h
Step-Later account s t (syncs w doc_hash recovery until o h) =
    Ensures-ok (Outcome w account s) _ (o, t) (rcv_sync-Later w account doc_hash recovery until s) h
Step-Later account s t (cancels w id h) =
    Ensures-ok (Later s) _ t (rcv_cancel-Later w account id s) h
Step-Later account s t (upgrades w step n h) =
    Ensures-ok (Second w account s) _ (n, t) (rcv_upgrade-Later w account step s) h
Step-Later account s t (attempt_expires id) = Later-self s
Step-Later account s t marker_expires = Later-self s
Step-Later account s t (approval_expires digest) = Later-self s

-- Any number of steps.
pub data Steps (account : Address) (s : Entries) : Entries → Type 0 where
  no_step : Steps account s s
  and_step : {t u : Entries} → Steps account s t → Step account t u → Steps account s u

Steps-Reachable :
    (account : Address) {s t : Entries}
    → Steps account s t
    → Reachable account s
    → Reachable account t
Steps-Reachable account no_step r = r
Steps-Reachable account (and_step p st) r = then_step (Steps-Reachable account p r) st

Steps-nullifier :
    (account : Address) {s t : Entries} (n : Bytes32)
    → Steps account s t
    → s.nullifier n ≡ true
    → t.nullifier n ≡ true
Steps-nullifier account n no_step h = h
Steps-nullifier account {s} {t} n (and_step {t = m} p st) h =
    let (_, _, keep, _) = Step-Later account m t st in keep n (Steps-nullifier account n p h)

-- A proof's nullifier completes at most one recovery of an account: after a completion of an attempt
-- with this nullifier, and any calls that follow, no call completes another attempt with it.
pub completion_once :
    (account : Address) (w w' : World) (s t u v : Entries) (doc_hash doc_hash' : Bytes32)
    (recovery recovery' : List CompiledRecoveryConfig) (until until' : ℕ) (k k' : Completion)
    (a a' : Attempt) (n : Bytes32)
    → Reachable account s
    → rcv_sync w account doc_hash recovery until s ≡ ok (SyncOutcome.completed k, t)
    → s.attempt k.attempt_id ≡ some a
    → a.zk_nullifier ≡ some n
    → Steps account t u
    → u.attempt k'.attempt_id ≡ some a'
    → a'.zk_nullifier ≡ some n
    → rcv_sync w' account doc_hash' recovery' until' u ≢ ok (SyncOutcome.completed k', v)
completion_once account w w' s t u v doc_hash doc_hash' recovery recovery' until until' k k' a a' n
      r h ea en p ea' en' h' =
    let (_, _, (b, _, eb, _, _, spent)) =
      rcv_sync-concludes w account s t doc_hash recovery until k r h in
    let (_, after) =
      spent n (subst (λ x. x.zk_nullifier ≡ some n) (some-injective (sym ea ∙ eb)) en) in
    let ru =
      Steps-Reachable account p
        (then_step r (syncs w doc_hash recovery until (SyncOutcome.completed k) h)) in
    let (_, _, (b', _, eb', _, _, spent')) =
      rcv_sync-concludes w' account u v doc_hash' recovery' until' k' ru h' in
    let (before, _) =
      spent' n (subst (λ x. x.zk_nullifier ≡ some n) (some-injective (sym ea' ∙ eb')) en') in
    let later = Steps-nullifier account n p after in ground (arith, before, later)
