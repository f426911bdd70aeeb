-- ===== src/Recovery/Invariant/Changes.antt =====
-- crates/perch-recovery/src/contract.rs: the calls that record change evidence or a baseline keep the
-- entries sound, since they touch no attempt.
use perch.Common.{
  ℕ, Address, Bytes, ◌&&◌, not, ◌==◌, contains, ok_or, Ensures, >>=-Ensures, guard-Ensures,
}
use perch.Recovery.Config.{guardians, zk}
use perch.Recovery.Statement.{StatementSubject}
use perch.Recovery.World.{World, ZkEvidence, admin_survives}
use perch.Recovery.State.{Entries, require_config, refuse_in_window, store_approval}
use perch.Recovery.Conditions.{change_statement_for, check_fresh, digest, verify_zk}
use perch.Recovery.Entry.{approve_change, submit_zk_change, publish_baseline, change_evidence}
use perch.Recovery.Invariant.{IsSound}

module _ (w : World) (account : Address) where
  pub approve_change-IsSound :
      (subject : StatementSubject) (until : ℕ) (guardian : Address) (s : Entries)
      → IsSound s
      → Ensures IsSound (approve_change w account subject until guardian s)
  unfolding approve_change store_approval
  approve_change-IsSound subject until guardian s snd =
      >>=-Ensures IsSound (require_config s) _ (λ c _.
        >>=-Ensures IsSound (ok_or (guardians c) _) _ (λ set _.
          guard-Ensures IsSound (contains set.guardians guardian) _ _ (λ _.
            >>=-Ensures IsSound (refuse_in_window w.now s) _ (λ _ _.
              >>=-Ensures IsSound (change_statement_for w account s c subject until) _ (λ st _.
                >>=-Ensures IsSound (check_fresh w account st) _ (λ _ _.
                  >>=-Ensures IsSound (digest w account st) _ (λ d _.
                    guard-Ensures IsSound
                      (not (contains (change_evidence w account d s).guardians guardian)) _ _
                      (λ _. guard-Ensures IsSound (w.auth_for guardian d) _ _ (λ _. snd)))))))))

  pub submit_zk_change-IsSound :
      (subject : StatementSubject) (until : ℕ) (evidence : ZkEvidence) (s : Entries)
      → IsSound s
      → Ensures IsSound (submit_zk_change w account subject until evidence s)
  unfolding submit_zk_change store_approval
  submit_zk_change-IsSound subject until evidence s snd =
      >>=-Ensures IsSound (require_config s) _ (λ c _.
        >>=-Ensures IsSound (ok_or (zk c) _) _ (λ factor _.
          >>=-Ensures IsSound (refuse_in_window w.now s) _ (λ _ _.
            >>=-Ensures IsSound (change_statement_for w account s c subject until) _ (λ st _.
              >>=-Ensures IsSound (check_fresh w account st) _ (λ _ _.
                >>=-Ensures IsSound (digest w account st) _ (λ d _.
                  guard-Ensures IsSound (not (change_evidence w account d s).zk) _ _ (λ _.
                    >>=-Ensures IsSound (verify_zk w account s factor st evidence) _
                      (λ _ _. snd))))))))

  pub publish_baseline-IsSound :
      (doc_json : Bytes) (s : Entries)
      → IsSound s
      → Ensures IsSound (publish_baseline w account doc_json s)
  unfolding publish_baseline
  publish_baseline-IsSound doc_json s snd = >>=-Ensures IsSound (require_config s) _ (λ c _.
      >>=-Ensures IsSound (ok_or c.baseline _) _ (λ hash _.
        >>=-Ensures IsSound (ok_or (w.compile_doc doc_json) _) _ (λ compiled _.
          guard-Ensures IsSound ((compiled.doc_hash == hash) && admin_survives compiled.rules) _ _
            (λ _. snd))))
