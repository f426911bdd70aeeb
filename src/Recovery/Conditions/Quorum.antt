-- ===== src/Recovery/Conditions/Quorum.antt =====
-- crates/perch-recovery/src/contract.rs, `require_condition`: which recorded evidence satisfies the
-- enrolled condition.
use mathlib.Core.Path.{subst, sym}
use perch.Common.{
  ℕ, ◌≤◌, Address, Bytes32, Bool, true, false, ◌&&◌, not, Option, none, some, ◌≡◌, refl, arith,
  is_some, ltb, Bool-cases, inl, inr, ok, ok_or, ok_or-ok, guard, Ensures, >>=-Ensures,
  guard-Ensures, Ensures-ok,
}
use perch.Recovery.Config.{CompiledRecoveryConfig, guardians, zk}
use perch.Recovery.Statement.{StatementSubject, RecoveryStatement}
use perch.Recovery.Types.{ChangeApproval}
use perch.Recovery.World.{World}
use perch.Recovery.State.{Entries, epoch_of}
use perch.Recovery.Conditions.{
  is_none_or, count_enrolled, is_change, statement, digest, check_fresh, change_statement_for,
  require_condition,
}

abbrev pub MeetsCondition : CompiledRecoveryConfig → ChangeApproval → Type 0
MeetsCondition c r =
    ((set : _) → guardians c ≡ some set → set.quorum ≤ count_enrolled set.guardians r.guardians)
    × ((z : _) → zk c ≡ some z → r.zk ≡ true)

is_none_or-some {ℓ} :
    {A : Type ℓ} (o : Option A) (test : A → Bool)
    → is_none_or o test ≡ true
    → (a : A) → o ≡ some a
    → test a ≡ true
is_none_or-some none test h a e = cc
is_none_or-some (some b) test h a e = ground (arith, h, e)

change_statement_for-ok :
    (w : World) (account : Address) (s : Entries) (c : CompiledRecoveryConfig)
    (subject : StatementSubject) (until : ℕ) (st : RecoveryStatement)
    → change_statement_for w account s c subject until ≡ ok st
    → (is_change subject ≡ true) × (statement w account c (epoch_of s) until subject ≡ st)
unfolding change_statement_for
change_statement_for-ok w account s c subject until st h = elim (Bool-cases (is_change subject)) [
  | inl e ↦ (e, ground (arith, e, h))
  | inr e ↦ absurd (ground (arith, e, h))
]

last-Ensures :
    {E : Type 0} (P : Unit {0} → Type 0) (b : Bool) (e : E)
    → (b ≡ true → P tt)
    → Ensures P (guard b e)
last-Ensures P true e h = h refl
last-Ensures P false e h = tt

-- The condition is satisfied only by the record under the digest of this very change's statement, in
-- this account's current epoch and fresh: it has the quorum among the enrolled guardians and, where
-- the mode has a proof, the proof.
pub require_condition-ok :
    (w : World) (account : Address) (s : Entries) (c : CompiledRecoveryConfig)
    (subject : StatementSubject) (until : ℕ)
    → require_condition w account s c subject until ≡ ok tt
    → (is_change subject ≡ true)
      × (check_fresh w account (statement w account c (epoch_of s) until subject) ≡ ok tt)
      × ((d : Bytes32) × (r : ChangeApproval) × (digest w account
              (statement w account c (epoch_of s) until subject)
            ≡ ok d)
          × (s.approval d ≡ some r)
          × MeetsCondition c r)
unfolding require_condition
require_condition-ok w account s c subject until h =
    let st0 = statement w account c (epoch_of s) until subject in
    let P : Unit {0} → Type 0 = λ _.
      (is_change subject ≡ true)
      × (check_fresh w account st0 ≡ ok tt)
      × ((d : Bytes32) × (r : ChangeApproval) × (digest w account st0 ≡ ok d)
          × (s.approval d ≡ some r)
          × MeetsCondition c r) in
    Ensures-ok P (require_condition w account s c subject until) tt
      (>>=-Ensures P (change_statement_for w account s c subject until) _ (λ st hst.
        let (change, same) = change_statement_for-ok w account s c subject until st hst in
        >>=-Ensures P (check_fresh w account st) _ (λ _ fresh.
          >>=-Ensures P (digest w account st) _ (λ d hd.
            >>=-Ensures P (ok_or (s.approval d) _) _ (λ r hr.
              guard-Ensures P
                (is_none_or (guardians c)
                  (λ g. not (ltb (count_enrolled g.guardians r.guardians) g.quorum)))
                _ _
                (λ quorum. last-Ensures P (not (is_some (zk c) && not r.zk)) _ (λ proof. (
                  change,
                  subst (λ x. check_fresh w account x ≡ ok tt) (sym same) fresh,
                  (
                    d,
                    r,
                    subst (λ x. digest w account x ≡ ok d) (sym same) hd,
                    ok_or-ok (s.approval d) _ r hr,
                    (
                      (λ set e.
                          let q = is_none_or-some (guardians c) _ quorum set e in
                          ground (arith, q)),
                      λ z e. ground (arith, proof, e),
                    ),
                  ),
                ))))))))
      h
