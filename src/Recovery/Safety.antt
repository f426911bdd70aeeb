-- ===== src/Recovery/Safety.antt =====
-- crates/perch-recovery/src/contract.rs: what a completed recovery guarantees, whatever calls came
-- before it.
use mathlib.Core.Path.{subst}
use perch.Common.{
  ℕ, ◌+◌, ◌≤◌, ◌<◌, Address, Bytes32, Bool, true, false, ◌&&◌, none, some, List, ◌==◌, ◌≡◌, refl,
  sym, ◌∙◌, ap, arith, inl, inr, opt_eq-some, ok, Option-cases, Bool-cases,
}
use perch.Recovery.Config.{CompiledRecoveryConfig, guardians}
use perch.Recovery.Types.{
  Attempt, AttemptState, collecting, authorized, completed, cancelled, invalidated, Completion,
  SyncOutcome,
}
use perch.Recovery.World.{World}
use perch.Recovery.State.{Entries, epoch_of, is_live, load}
use perch.Recovery.Conditions.{initiation_met}
use perch.Recovery.Transitions.{is_authorized}
use perch.Recovery.Entry.{is_collecting, rcv_sync, attempt_live}
use perch.Recovery.Invariant.Calls.{is_live-epoch}
use perch.Recovery.Invariant.{Stored, distinct, has_all, some-injective, load-Stored}
use perch.Recovery.Invariant.Hooks.{authorized_live-some, authorized_live-Offered}
use perch.Recovery.Completion.{rcv_sync-Completes}
use perch.Recovery.Reach.{Reachable, Reachable-IsSound}

live_by :
    (epoch : Bool) (state : AttemptState) (p q : Bool)
    → (epoch && elim state [
      | collecting ↦ p
      | authorized ↦ q
      | completed ↦ false
      | cancelled ↦ false
      | invalidated ↦ false
    ])
      ≡ true
    → is_collecting state ≡ false
    → (is_authorized state ≡ true) × (q ≡ true)
live_by epoch collecting p q h n = cc
live_by epoch authorized p q h n = (refl, ground arith)
live_by epoch completed p q h n = absurd (ground arith)
live_by epoch cancelled p q h n = absurd (ground arith)
live_by epoch invalidated p q h n = absurd (ground arith)

is_live-authorized :
    (now : ℕ) (s : Entries) (a : Attempt)
    → is_live now s a ≡ true
    → is_collecting a.state ≡ false
    → (is_authorized a.state ≡ true) × (s.authorized ≡ some a.id) × (now < a.expires_at)
unfolding is_live
is_live-authorized now s a h n =
    let (p, q) = live_by (a.epoch == epoch_of s) a.state _ _ h n in
    (p, opt_eq-some s.authorized a.id (ground (arith, q)), ground (arith, q))

-- Attempts of earlier epochs are not live.
old-not_live :
    (w : World) (account : Address) (t : Entries) (i : ℕ)
    → ((b : Attempt) → Stored t i b → b.epoch < epoch_of t)
    → attempt_live w account i t ≡ false
unfolding attempt_live
old-not_live w account t i h = elim (Option-cases (load t i)) [
  | inl e ↦ ground (arith, e)
  | inr (b, e) ↦
      let lt = h b (load-Stored t i b e) in
      elim (Bool-cases (is_live w.now t b)) [
        | inl l ↦ absurd (omega (arith, is_live-epoch w.now t b l, lt))
        | inr l ↦ ground (arith, e, l)
      ]
]

completed_id :
    {k l : Completion}
    → SyncOutcome.completed k ≡ SyncOutcome.completed l
    → k.attempt_id ≡ l.attempt_id
completed_id h = cc

-- In every state that an account's entries reach, a `rcv_sync` that reports a completion completes an
-- authorized attempt of the current epoch: distinct guardians, all of the stored configuration's set,
-- gave its initiation evidence, and the configured quorum and proof are met; the ledger is at least
-- the configured delay after the ledger of the authorization, and before the attempt expires; the
-- document is the attempt's target.
pub rcv_sync-authorized :
    (w : World) (account : Address) (s t : Entries) (doc_hash : Bytes32)
    (recovery : List CompiledRecoveryConfig) (until : ℕ) (k : Completion)
    → Reachable account s
    → rcv_sync w account doc_hash recovery until s ≡ ok (SyncOutcome.completed k, t)
    → (a : Attempt) × (c : CompiledRecoveryConfig) × (s.attempt k.attempt_id ≡ some a)
      × (is_authorized a.state ≡ true)
      × (a.epoch ≡ epoch_of s)
      × (s.config ≡ some c)
      × (initiation_met c a ≡ true)
      × (distinct a.guardians ≡ true)
      × ((set : _) → guardians c ≡ some set → has_all set.guardians a.guardians ≡ true)
      × (a.authorized_at + c.delay_ledgers ≤ w.now)
      × (w.now < a.expires_at)
      × (doc_hash ≡ a.target_doc_hash)
rcv_sync-authorized w account s t doc_hash recovery until k r h =
    let (keyed, window, marked) = Reachable-IsSound account r in
    let s1 = record s { completing = none } in
    let (m, em, lm, (a, am, (live, o, d, _, _, _, _, _))) =
      rcv_sync-Completes w account doc_hash recovery until s t (SyncOutcome.completed k) h refl in
    let (c, (_, _, _, _, ep, cf, (dis, enrolled, ev)), n, _) =
      authorized_live-Offered w.now s1 a (keyed, window, λ x e. absurd cc) live in
    let (id, _, q, lv) = authorized_live-some w.now s1 a live in
    let (au, _, ex) = is_live-authorized w.now s1 a lv n in
    let qa : s.attempt a.id ≡ some a = ap s.attempt (keyed id a (inl q)).0 ∙ q in
    let (after, (y, qy, _, ey), le) = marked m em in
    let same = some-injective (sym qy ∙ ap s.attempt (sym am) ∙ qa) in
    let ea = subst (λ y. y.executable_after ≡ after) same ey in
    let (ex_eq, _, met) = ev au in
    (
      a,
      c,
      ap s.attempt (completed_id o) ∙ qa,
      au,
      ep,
      cf,
      met,
      dis,
      enrolled,
      omega (arith, ea, le, ex_eq, lm),
      ex,
      d,
    )

pub rcv_sync-concludes :
    (w : World) (account : Address) (s t : Entries) (doc_hash : Bytes32)
    (recovery : List CompiledRecoveryConfig) (until : ℕ) (k : Completion)
    → Reachable account s
    → rcv_sync w account doc_hash recovery until s ≡ ok (SyncOutcome.completed k, t)
    → (epoch_of t ≡ epoch_of s + 1)
      × ((later : World) (id : ℕ) → attempt_live later account id t ≡ false)
      × ((a : Attempt) × (n : CompiledRecoveryConfig) × (s.attempt k.attempt_id ≡ some a)
          × (t.config ≡ some n)
          × (n.config_hash ≡ a.target_config_hash)
          × ((m : Bytes32)
              → a.zk_nullifier ≡ some m
              → (s.nullifier m ≡ false) × (t.nullifier m ≡ true)))
rcv_sync-concludes w account s t doc_hash recovery until k r h =
    let (keyed, window, marked) = Reachable-IsSound account r in
    let s1 = record s { completing = none } in
    let (m, em, lm, (a, am, (live, o, d, (n, _, _, hash, cf), next, _, spent, old))) =
      rcv_sync-Completes w account doc_hash recovery until s t (SyncOutcome.completed k) h refl in
    let (id, _, q, lv) = authorized_live-some w.now s1 a live in
    let qa : s.attempt a.id ≡ some a = ap s.attempt (keyed id a (inl q)).0 ∙ q in
    (
      next,
      (λ later i. old-not_live later account t i (λ b st. elim (old i b st) [
        | inl e ↦ omega (arith, next, e, is_live-epoch w.now s1 a lv)
        | inr st' ↦ let (_, (_, le, _)) = keyed i b st' in omega (arith, next, le)
      ])),
      (a, n, ap s.attempt (completed_id o) ∙ qa, cf, hash, spent),
    )
