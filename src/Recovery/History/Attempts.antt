-- ===== src/Recovery/History/Attempts.antt =====
-- crates/perch-recovery/src/contract.rs: evidence, promotion, cancellation and begin.
use perch.Common.{
  ℕ, Address, Bool, true, false, ◌&&◌, not, some, ◌≡◌, refl, inl, inr, arith, is_some, unwrap_or,
  ltb, ◌==◌, length, contains, ok_or, ok_or-ok, Ensures, Ensures-ok, >>=-Ensures, guard-Ensures,
  if-Ensures, u64_max,
}
use perch.Recovery.Config.{CompiledRecoveryConfig, is_protected, guardians, zk}
use perch.Recovery.Statement.{RecoveryAction}
use perch.Recovery.Credential.{ReplacementSet, replacements_hash}
use perch.Recovery.Types.{Attempt, EvidenceDomain, initiate, cancel}
use perch.Recovery.World.{World, ZkEvidence, next, add}
use perch.Recovery.State.{Entries, load_live, save, authorized_live}
use perch.Recovery.Conditions.{
  initiation_met, cancellation_met, attempt_statement, check_fresh, digest, verify_zk,
}
use perch.Recovery.Transitions.{
  is_authorized, gate, promote, count_cancel, cancel_attempt, after_evidence, is_stale, begin,
  source_of, check_target, or_err,
}
use perch.Recovery.Entry.{submit_guardian, submit_zk, count_guardian, awaits_zk, record_zk}
use perch.Recovery.Invariant.Calls.{next-eq}
use perch.Recovery.History.{Later, Later-self}

module _ (w : World) (account : Address) where
  abbrev pub Second : Entries → ℕ × Entries → Type 0
  Second s (n, t) = Later s t

  abbrev Promoted : Entries → Attempt × Entries → Type 0
  Promoted s (b, t) = Later s t

  gate-Later :
      (s t : Entries) (c : CompiledRecoveryConfig) (id until : ℕ)
      → Later s t
      → Ensures (Later s) (gate w account c id until t)
  unfolding gate
  gate-Later s t c id until h =
      if-Ensures (Later s) (is_protected c.profile) _ _
        (λ _. guard-Ensures (Later s) (w.accepts_gate id until) _ _ (λ _. h)) (λ _. h)

  promote-Later :
      (s : Entries) (c : CompiledRecoveryConfig) (a : Attempt)
      → Ensures (Promoted s) (promote w account c a s)
  unfolding promote
  promote-Later s c a =
      guard-Ensures (Promoted s) (not (is_some (authorized_live w.now s))) _ _ (λ _.
        if-Ensures (Promoted s) (is_stale w account a) _ _ (λ _. Later-self s)
          (λ _. >>=-Ensures (Promoted s) (add w.now c.delay_ledgers) _ (λ after _.
            >>=-Ensures (Promoted s) (add after c.expiry_ledgers) _ (λ expires _.
              >>=-Ensures (Promoted s) (gate w account c a.id expires _) _ (λ t h.
                Ensures-ok (Later s) (gate w account c a.id expires _) t
                  (gate-Later s _ c a.id expires (Later-self s)) h)))))

  count_cancel-Later :
      (s : Entries) (c : CompiledRecoveryConfig) (counts : Bool)
      → s.config ≡ some c
      → Ensures (Later s) (count_cancel w account c counts s)
  unfolding count_cancel
  count_cancel-Later s c counts e =
      if-Ensures (Later s) counts _ _
        (λ _.
          guard-Ensures (Later s) (ltb (unwrap_or s.cancels 0) c.max_cancels) _ _
            (λ h. (omega arith, omega arith, (λ n q. q), inr (c, e, ground (arith, h), refl))))
        (λ _. Later-self s)

  pub cancel_attempt-Later :
      (s : Entries) (c : CompiledRecoveryConfig) (a : Attempt) (counted : Bool)
      → s.config ≡ some c
      → Ensures (Later s) (cancel_attempt w account c a counted s)
  unfolding cancel_attempt save
  cancel_attempt-Later s c a counted e =
      >>=-Ensures (Later s) (count_cancel w account c (counted && is_authorized a.state) s) _
        (λ t h.
          let later =
            Ensures-ok (Later s) (count_cancel w account c (counted && is_authorized a.state) s) t
              (count_cancel-Later s c (counted && is_authorized a.state) e) h in
          if-Ensures (Later s) (is_authorized a.state) _ _ (λ _. gate-Later s _ c a.id 0 later)
            (λ _. later))

  after_evidence-Later :
      (s : Entries) (c : CompiledRecoveryConfig) (a : Attempt) (domain : EvidenceDomain)
      → s.config ≡ some c
      → Ensures (Later s) (after_evidence w account c a domain s)
  unfolding after_evidence save
  after_evidence-Later s c a initiate e =
      if-Ensures (Later s) (initiation_met c a) _ _
        (λ _.
          >>=-Ensures (Later s) (promote w account c a s) _
            (λ r h. Ensures-ok (Promoted s) (promote w account c a s) r (promote-Later s c a) h))
        (λ _. Later-self s)
  after_evidence-Later s c a cancel e =
      if-Ensures (Later s) (cancellation_met c a) _ _ (λ _. cancel_attempt-Later s c a true e)
        (λ _. Later-self s)

  pub submit_guardian-Later :
      (i : ℕ) (domain : EvidenceDomain) (guardian : Address) (s : Entries)
      → Ensures (Later s) (submit_guardian w account i domain guardian s)
  unfolding submit_guardian
  submit_guardian-Later i domain guardian s = >>=-Ensures (Later s) (ok_or s.config _) _ (λ c hc.
      >>=-Ensures (Later s) (ok_or (guardians c) _) _ (λ set _.
        guard-Ensures (Later s) (contains set.guardians guardian) _ _ (λ _.
          >>=-Ensures (Later s) (load_live w.now s i) _ (λ a _.
            >>=-Ensures (Later s) (count_guardian w account a domain guardian) _ (λ b _.
              >>=-Ensures (Later s) (attempt_statement w account c b domain) _ (λ st _.
                >>=-Ensures (Later s) (check_fresh w account st) _ (λ _ _.
                  >>=-Ensures (Later s) (digest w account st) _ (λ d _.
                    guard-Ensures (Later s) (w.auth_for guardian d) _ _
                      (λ _. after_evidence-Later s c b domain (ok_or-ok s.config _ c hc))))))))))

  pub submit_zk-Later :
      (i : ℕ) (domain : EvidenceDomain) (evidence : ZkEvidence) (s : Entries)
      → Ensures (Later s) (submit_zk w account i domain evidence s)
  unfolding submit_zk
  submit_zk-Later i domain evidence s = >>=-Ensures (Later s) (ok_or s.config _) _ (λ c hc.
      >>=-Ensures (Later s) (ok_or (zk c) _) _ (λ factor _.
        >>=-Ensures (Later s) (load_live w.now s i) _ (λ a _.
          >>=-Ensures (Later s) (awaits_zk w account a domain) _ (λ _ _.
            >>=-Ensures (Later s) (attempt_statement w account c a domain) _ (λ st _.
              >>=-Ensures (Later s) (check_fresh w account st) _ (λ _ _.
                >>=-Ensures (Later s) (verify_zk w account s factor st evidence) _ (λ _ _.
                  after_evidence-Later s c (record_zk w account a domain evidence.nullifier) domain
                    (ok_or-ok s.config _ c hc))))))))

  pub begin-Later :
      (action : RecoveryAction) (r : ReplacementSet) (s : Entries)
      → Ensures (Second s) (begin w account action r s)
  unfolding begin save
  begin-Later action r s = >>=-Ensures (Second s) (ok_or s.config _) _ (λ c _.
      guard-Ensures (Second s) (not (is_some (authorized_live w.now s))) _ _ (λ _.
        >>=-Ensures (Second s) (or_err (replacements_hash w.sha256 w.to_xdr r) _) _ (λ hash _.
          guard-Ensures (Second s)
            (elim (is_some (zk c)) [
              | true ↦ length r.zk_enrollment == 1
              | false ↦ not (length r.zk_enrollment == 1)
            ])
            _ _
            (λ _. >>=-Ensures (Second s) (ok_or w.applied_doc _) _ (λ current _.
              >>=-Ensures (Second s) (source_of w account s c action current) _ (λ source _.
                >>=-Ensures (Second s) (ok_or (w.derive_target source.0 current action r) _) _
                  (λ derived _. >>=-Ensures (Second s) (check_target w account r derived) _ (λ _ _.
                    >>=-Ensures (Second s) (next u64_max (unwrap_or s.next_attempt 0)) _ (λ n hn.
                      >>=-Ensures (Second s) (add w.now c.expiry_ledgers) _ (λ deadline _.
                        >>=-Ensures (Second s) (add deadline c.delay_ledgers) _ (λ timelock _.
                          >>=-Ensures (Second s) (add timelock c.expiry_ledgers) _ (λ until _. (
                            omega arith,
                            omega (arith, next-eq u64_max (unwrap_or s.next_attempt 0) n hn),
                            (λ m q. q),
                            inl refl,
                          )))))))))))))
