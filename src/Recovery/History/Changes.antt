-- ===== src/Recovery/History/Changes.antt =====
-- crates/perch-recovery/src/contract.rs: recording change evidence or a baseline touches none of the
-- counters.
use perch.Common.{
  ℕ, Address, Bytes, ◌&&◌, not, ◌==◌, contains, ok_or, Ensures, >>=-Ensures, guard-Ensures,
}
use perch.Recovery.Config.{guardians, zk}
use perch.Recovery.Statement.{StatementSubject}
use perch.Recovery.World.{World, ZkEvidence, admin_survives}
use perch.Recovery.State.{Entries, refuse_in_window, store_approval}
use perch.Recovery.Conditions.{change_statement_for, check_fresh, digest, verify_zk}
use perch.Recovery.Entry.{approve_change, submit_zk_change, publish_baseline, change_evidence}
use perch.Recovery.History.{Later, Later-self}

module _ (w : World) (account : Address) where
  pub approve_change-Later :
      (subject : StatementSubject) (until : ℕ) (guardian : Address) (s : Entries)
      → Ensures (Later s) (approve_change w account subject until guardian s)
  unfolding approve_change store_approval
  approve_change-Later subject until guardian s = >>=-Ensures (Later s) (ok_or s.config _) _ (λ c _.
      >>=-Ensures (Later s) (ok_or (guardians c) _) _ (λ set _.
        guard-Ensures (Later s) (contains set.guardians guardian) _ _ (λ _.
          >>=-Ensures (Later s) (refuse_in_window w.now s) _ (λ _ _.
            >>=-Ensures (Later s) (change_statement_for w account s c subject until) _ (λ st _.
              >>=-Ensures (Later s) (check_fresh w account st) _ (λ _ _.
                >>=-Ensures (Later s) (digest w account st) _ (λ d _.
                  guard-Ensures (Later s)
                    (not (contains (change_evidence w account d s).guardians guardian)) _ _
                    (λ _.
                      guard-Ensures (Later s) (w.auth_for guardian d) _ _
                        (λ _. Later-self s)))))))))

  pub submit_zk_change-Later :
      (subject : StatementSubject) (until : ℕ) (evidence : ZkEvidence) (s : Entries)
      → Ensures (Later s) (submit_zk_change w account subject until evidence s)
  unfolding submit_zk_change store_approval
  submit_zk_change-Later subject until evidence s =
      >>=-Ensures (Later s) (ok_or s.config _) _ (λ c _.
        >>=-Ensures (Later s) (ok_or (zk c) _) _ (λ factor _.
          >>=-Ensures (Later s) (refuse_in_window w.now s) _ (λ _ _.
            >>=-Ensures (Later s) (change_statement_for w account s c subject until) _ (λ st _.
              >>=-Ensures (Later s) (check_fresh w account st) _ (λ _ _.
                >>=-Ensures (Later s) (digest w account st) _ (λ d _.
                  guard-Ensures (Later s) (not (change_evidence w account d s).zk) _ _ (λ _.
                    >>=-Ensures (Later s) (verify_zk w account s factor st evidence) _
                      (λ _ _. Later-self s))))))))

  pub publish_baseline-Later :
      (doc_json : Bytes) (s : Entries) → Ensures (Later s) (publish_baseline w account doc_json s)
  unfolding publish_baseline
  publish_baseline-Later doc_json s = >>=-Ensures (Later s) (ok_or s.config _) _ (λ c _.
      >>=-Ensures (Later s) (ok_or c.baseline _) _ (λ hash _.
        >>=-Ensures (Later s) (ok_or (w.compile_doc doc_json) _) _ (λ compiled _.
          guard-Ensures (Later s) ((compiled.doc_hash == hash) && admin_survives compiled.rules) _ _
            (λ _. Later-self s))))
