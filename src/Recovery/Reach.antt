-- ===== src/Recovery/Reach.antt =====
-- crates/perch-recovery/src/contract.rs: an account's entries under any sequence of calls, by anyone, in
-- any ledgers and whatever the called contracts answer, and under the expiry of temporary entries.
use perch.Common.{
  ℕ, Address, Bytes, Bytes32, false, none, List, [], ◌==◌, ◌≡◌, arith, inl, inr, update, ok,
  Ensures-ok, Bool-cases,
}
use perch.Program.Leaf.{Context}
use perch.Recovery.Config.{CompiledRecoveryConfig}
use perch.Recovery.Statement.{StatementSubject}
use perch.Recovery.Credential.{ReplacementSet}
use perch.Recovery.Types.{Attempt, EvidenceDomain, SyncOutcome, UpgradeStep}
use perch.Recovery.World.{World, ZkEvidence}
use perch.Recovery.State.{Entries}
use perch.Recovery.Entry.{
  ContextRule, enforce, begin_lost_key, begin_compromise, submit_guardian, submit_zk,
  approve_change, submit_zk_change, publish_baseline, rcv_sync, rcv_cancel, rcv_upgrade,
}
use perch.Recovery.Invariant.{Stored, IsSound}
use perch.Recovery.Invariant.Calls.{submit_guardian-IsSound, submit_zk-IsSound}
use perch.Recovery.Invariant.Begin.{begin-IsSound, Second}
use perch.Recovery.Invariant.Hooks.{
  enforce-IsSound, rcv_sync-IsSound, rcv_cancel-IsSound, rcv_upgrade-IsSound, Synced, Numbered,
}
use perch.Recovery.Invariant.Changes.{
  approve_change-IsSound, submit_zk_change-IsSound, publish_baseline-IsSound,
}

abbrev pub no_entries : Entries
no_entries = record {
  config = none;
  epoch = none;
  next_attempt = none;
  invalidate_below = none;
  authorized = none;
  cancels = none;
  attempt = λ _. none;
  collecting = λ _. none;
  completing = none;
  nullifier = λ _. false;
  approval = λ _. none;
  baseline = λ _. none;
  gates = [];
}

-- A call that succeeds; one that fails is rolled back. A temporary entry may expire at any time.
pub data Step (account : Address) (s : Entries) : Entries → Type 0 where
  begins_lost_key :
      {t : Entries} (w : World) (r : ReplacementSet) (n : ℕ)
      → begin_lost_key w account r s ≡ ok (n, t)
      → Step account s t
  begins_compromise :
      {t : Entries} (w : World) (r : ReplacementSet) (n : ℕ)
      → begin_compromise w account r s ≡ ok (n, t)
      → Step account s t
  submits_guardian :
      {t : Entries} (w : World) (id : ℕ) (domain : EvidenceDomain) (guardian : Address)
      → submit_guardian w account id domain guardian s ≡ ok t
      → Step account s t
  submits_zk :
      {t : Entries} (w : World) (id : ℕ) (domain : EvidenceDomain) (evidence : ZkEvidence)
      → submit_zk w account id domain evidence s ≡ ok t
      → Step account s t
  approves :
      {t : Entries} (w : World) (subject : StatementSubject) (until : ℕ) (guardian : Address)
      → approve_change w account subject until guardian s ≡ ok t
      → Step account s t
  submits_zk_change :
      {t : Entries} (w : World) (subject : StatementSubject) (until : ℕ) (evidence : ZkEvidence)
      → submit_zk_change w account subject until evidence s ≡ ok t
      → Step account s t
  publishes :
      {t : Entries} (w : World) (doc_json : Bytes)
      → publish_baseline w account doc_json s ≡ ok t
      → Step account s t
  enforces :
      {t : Entries} (w : World) (context : Context) (signers : List ℕ) (rule : ContextRule)
      → enforce w account context signers rule s ≡ ok t
      → Step account s t
  syncs :
      {t : Entries} (w : World) (doc_hash : Bytes32) (recovery : List CompiledRecoveryConfig)
      (until : ℕ) (o : SyncOutcome)
      → rcv_sync w account doc_hash recovery until s ≡ ok (o, t)
      → Step account s t
  cancels : {t : Entries} (w : World) (id : ℕ) → rcv_cancel w account id s ≡ ok t → Step account s t
  upgrades :
      {t : Entries} (w : World) (step : UpgradeStep) (n : ℕ)
      → rcv_upgrade w account step s ≡ ok (n, t)
      → Step account s t
  attempt_expires :
      (id : ℕ) → Step account s (record s { collecting = update s.collecting id none })
  marker_expires : Step account s (record s { completing = none })
  approval_expires :
      (digest : Bytes32) → Step account s (record s { approval = update s.approval digest none })

pub data Reachable (account : Address) : Entries → Type 0 where
  deployed : Reachable account no_entries
  then_step : {s t : Entries} → Reachable account s → Step account s t → Reachable account t

expired-Stored :
    (s : Entries) (id i : ℕ) (a : Attempt)
    → Stored (record s { collecting = update s.collecting id none }) i a
    → Stored s i a
expired-Stored s id i a (inl h) = inl h
expired-Stored s id i a (inr h) = elim (Bool-cases (id == i)) [
  | inl e ↦ absurd (ground (arith, e, h))
  | inr e ↦ inr (ground (arith, e, h))
]

Step-IsSound : (account : Address) {s t : Entries} → Step account s t → IsSound s → IsSound t
unfolding begin_lost_key begin_compromise
Step-IsSound account {s} {t} (begins_lost_key w r n h) snd =
    Ensures-ok (Second w account) _ (n, t) (begin-IsSound w account _ r s snd) h
Step-IsSound account {s} {t} (begins_compromise w r n h) snd =
    Ensures-ok (Second w account) _ (n, t) (begin-IsSound w account _ r s snd) h
Step-IsSound account {s} {t} (submits_guardian w id domain guardian h) snd =
    Ensures-ok IsSound _ t (submit_guardian-IsSound w account id domain guardian s snd) h
Step-IsSound account {s} {t} (submits_zk w id domain evidence h) snd =
    Ensures-ok IsSound _ t (submit_zk-IsSound w account id domain evidence s snd) h
Step-IsSound account {s} {t} (approves w subject until guardian h) snd =
    Ensures-ok IsSound _ t (approve_change-IsSound w account subject until guardian s snd) h
Step-IsSound account {s} {t} (submits_zk_change w subject until evidence h) snd =
    Ensures-ok IsSound _ t (submit_zk_change-IsSound w account subject until evidence s snd) h
Step-IsSound account {s} {t} (publishes w doc_json h) snd =
    Ensures-ok IsSound _ t (publish_baseline-IsSound w account doc_json s snd) h
Step-IsSound account {s} {t} (enforces w context signers rule h) snd =
    Ensures-ok IsSound _ t (enforce-IsSound w account context signers rule s snd) h
Step-IsSound account {s} {t} (syncs w doc_hash recovery until o h) snd =
    Ensures-ok (Synced w account) _ (o, t)
      (rcv_sync-IsSound w account doc_hash recovery until s snd) h
Step-IsSound account {s} {t} (cancels w id h) snd =
    Ensures-ok IsSound _ t (rcv_cancel-IsSound w account id s snd) h
Step-IsSound account {s} {t} (upgrades w step n h) snd =
    Ensures-ok (Numbered w account) _ (n, t) (rcv_upgrade-IsSound w account step s snd) h
Step-IsSound account {s} (attempt_expires id) (k, v, m) =
    ((λ i a h. k i a (expired-Stored s id i a h)), v, m)
Step-IsSound account marker_expires (k, v, m) = (k, v, λ x e. absurd cc)
Step-IsSound account (approval_expires digest) snd = snd

pub Reachable-IsSound : (account : Address) {s : Entries} → Reachable account s → IsSound s
Reachable-IsSound account deployed = (
  λ i a h. elim h [ inl e ↦ absurd cc | inr e ↦ absurd cc ],
  (λ i e. absurd cc),
  λ m e. absurd cc,
)
Reachable-IsSound account (then_step r st) = Step-IsSound account st (Reachable-IsSound account r)
