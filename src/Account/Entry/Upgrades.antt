-- ===== src/Account/Entry/Upgrades.antt =====
-- crates/perch-smart-account/src/lib.rs: the calls as steps, what no call takes back, and the scheduling that
-- an executed upgrade comes from.
use perch.Common.{
  ℕ, ◌+◌, ◌≤◌, ◌≡◌, refl, sym, ◌∙◌, ap, ◌⊎◌, inl, inr, Bytes, Bytes32, true, Option, none, some,
  arith, ltb, leb, ◌==◌, ==_iff, is_some, u32_max, Bool-cases, Result, ok, guard, guard-ok, ok_or,
  ok_or-ok, >>=-eq-ok,
}
use mathlib.Core.Path.{subst}
use perch.Recovery.Types as Types
use perch.Account.Entry.{
  Around, State, AccountError, trapped, recovery, recovery_not_enrolled, no_pending_upgrade,
  upgrade_request_mismatch, timing_overflow, succeeding, require_me, apply, rcv_gate, is_gate_of,
  cancel_recovery, schedule_upgrade, execute_upgrade, cancel_upgrade, upgrade_epoch, check_epoch,
  require_ready, readiness, upgrade_request, UpgradeRequest, account_upgrade_delay_ledgers,
}
use perch.Account.Entry.History.{Grows, Grows-self, apply-Within, succeeding-ok, ok_pair}

-- A call that completes.
pub data Call {O : Type 0} (w : Around O) (s s' : State O) : Type 0 where
  applies :
      (doc_json : Bytes) (approval : ℕ) (expected : Option ℕ) (hash : Bytes32)
      → apply w doc_json approval expected s ≡ ok (s', hash)
      → Call w s s'
  gates : (attempt_id frozen_until : ℕ) → rcv_gate w attempt_id frozen_until s ≡ ok s' → Call w s s'
  cancels_recovery : (attempt_id : ℕ) → cancel_recovery w attempt_id s ≡ ok s' → Call w s s'
  schedules :
      (wasm_hash : Bytes32) (approval id : ℕ)
      → schedule_upgrade w wasm_hash approval s ≡ ok (s', id)
      → Call w s s'
  executes : (id : ℕ) → execute_upgrade w id s ≡ ok s' → Call w s s'
  cancels_upgrade : cancel_upgrade w s ≡ ok s' → Call w s s'

-- A call counts at most one revision, lowers no counter, and forgets no revocation and no enrollment.
pub record Later {O : Type 0} (s s' : State O) : Type 0 where
  pub revises : (s'.revision ≡ s.revision) ⊎ (s'.revision ≡ s.revision + 1)
  pub generation_le : s.generation ≤ s'.generation
  pub id_le : s.next_upgrade_id ≤ s'.next_upgrade_id
  pub revoked_grows : Grows s.revoked s'.revoked
  pub enrolled_grows : Grows s.enrolled_ids s'.enrolled_ids

module _ {O : Type 0} where
  Later-self : (s : State O) → Later s s
  Later-self s = record {
    revises = inl refl;
    generation_le = omega arith;
    id_le = omega arith;
    revoked_grows = Grows-self s.revoked;
    enrolled_grows = Grows-self s.enrolled_ids;
  }

  module _ (w : Around O) where
    rcv_gate-Later :
        (attempt_id frozen_until : ℕ) (s s' : State O)
        → rcv_gate w attempt_id frozen_until s ≡ ok s'
        → Later s s' × (s'.pending_upgrade ≡ s.pending_upgrade)
    unfolding rcv_gate
    rcv_gate-Later attempt_id frozen_until s s' h =
        let (c, e, k) = >>=-eq-ok (ok_or s.recovery_controller recovery_not_enrolled) _ h in
        let (u, f, q) = >>=-eq-ok (guard (w.auth c) trapped) _ k in
        elim (Bool-cases (frozen_until == 0)) [
          | inl t ↦ elim (Bool-cases (is_gate_of w s.freeze_gate attempt_id)) [
            | inl y ↦
                let r : ◌≡◌ {A = Result AccountError (State O)}
                    (ok (record s { freeze_gate = none })) (ok s') =
                  rw (t, y) at q in
                let p : record s { freeze_gate = none } ≡ s' = cc in
                rw (← p) (
                  record {
                    revises = inl refl;
                    generation_le = omega arith;
                    id_le = omega arith;
                    revoked_grows = Grows-self s.revoked;
                    enrolled_grows = Grows-self s.enrolled_ids;
                  },
                  refl,
                )
            | inr n ↦
                let r : ◌≡◌ {A = Result AccountError (State O)} (ok s) (ok s') = rw (t, n) at q in
                let p : s ≡ s' = cc in rw (← p) (Later-self s, refl)
          ]
          | inr n ↦
              let r : ◌≡◌ {A = Result AccountError (State O)}
                  (ok (record s {
                    freeze_gate = some (record { attempt_id = attempt_id; until = frozen_until });
                  }))
                  (ok s') =
                rw n at q in
              let p : record s {
                freeze_gate = some (record { attempt_id = attempt_id; until = frozen_until });
              }
                  ≡ s' =
                cc in
              rw (← p) (
                record {
                  revises = inl refl;
                  generation_le = omega arith;
                  id_le = omega arith;
                  revoked_grows = Grows-self s.revoked;
                  enrolled_grows = Grows-self s.enrolled_ids;
                },
                refl,
              )
        ]

    request-parts :
        (id : ℕ) (wasm_hash : Bytes32) (generation : ℕ) (epoch : Option ℕ) (now : ℕ)
        (r : UpgradeRequest)
        → upgrade_request id wasm_hash generation epoch now ≡ some r
        → (r.wasm_hash ≡ wasm_hash)
          × (r.request_id ≡ id)
          × (r.generation ≡ generation)
          × (r.executable_at ≡ now + account_upgrade_delay_ledgers)
    unfolding upgrade_request
    request-parts id wasm_hash generation epoch now r h =
        elim (Bool-cases (leb (now + account_upgrade_delay_ledgers) u32_max)) [
          | inl t ↦
              let k : some (record {
                request_id = id;
                wasm_hash = wasm_hash;
                generation = generation;
                controller_epoch = epoch;
                executable_at = now + account_upgrade_delay_ledgers;
              })
                  ≡ some r =
                rw t at h in
              let p : record {
                request_id = id;
                wasm_hash = wasm_hash;
                generation = generation;
                controller_epoch = epoch;
                executable_at = now + account_upgrade_delay_ledgers;
              }
                  ≡ r =
                cc in
              rw (← p) (refl, refl, refl, refl)
          | inr n ↦ let k : ◌≡◌ {A = Option UpgradeRequest} none (some r) = rw n at h in absurd cc
        ]

    -- What a successful scheduling leaves pending.
    schedule_upgrade-request :
        (wasm_hash : Bytes32) (approval id : ℕ) (s s' : State O)
        → schedule_upgrade w wasm_hash approval s ≡ ok (s', id)
        → (r : UpgradeRequest) × (s'.pending_upgrade ≡ some r)
          × (r.wasm_hash ≡ wasm_hash)
          × (r.request_id ≡ id)
          × (r.generation ≡ s.generation)
          × (r.executable_at ≡ w.host.sequence + account_upgrade_delay_ledgers)
          × (w.auth w.host.here ≡ true)
          × Later s s'
    unfolding schedule_upgrade upgrade_request
    schedule_upgrade-request wasm_hash approval id s s' h =
        let (u, e₀, k₀) = >>=-eq-ok (require_me w) _ h in
        let (n, e₁, k₁) = >>=-eq-ok (succeeding s.next_upgrade_id) _ k₀ in
        let (epoch, e₂, k₂) =
          >>=-eq-ok
            (upgrade_epoch w s.recovery_controller (
              Types.schedule (record { request_id = s.next_upgrade_id; wasm_hash = wasm_hash })
                approval))
            _ k₁ in
        let (r, e₃, k₃) =
          >>=-eq-ok
            (ok_or (upgrade_request s.next_upgrade_id wasm_hash s.generation epoch w.host.sequence)
              timing_overflow)
            _ k₂ in
        let p : record s { next_upgrade_id = n; pending_upgrade = some r } ≡ s' = ok_pair k₃ in
        let i : s.next_upgrade_id ≡ id = cc in
        let l = succeeding-ok s.next_upgrade_id n e₁ in
        let g =
          ok_or-ok (upgrade_request s.next_upgrade_id wasm_hash s.generation epoch w.host.sequence)
            timing_overflow r e₃ in
        let (q₀, q₁, q₂, q₃) =
          request-parts s.next_upgrade_id wasm_hash s.generation epoch w.host.sequence r g in
        rw (← p) (
          r,
          refl,
          q₀,
          q₁ ∙ i,
          q₂,
          q₃,
          guard-ok (w.auth w.host.here) trapped e₀,
          record {
            revises = inl refl;
            generation_le = omega arith;
            id_le = omega (arith, l);
            revoked_grows = Grows-self s.revoked;
            enrolled_grows = Grows-self s.enrolled_ids;
          },
        )

    readiness-ready :
        (r : UpgradeRequest) (now generation : ℕ) (u : Unit {0})
        → require_ready w (readiness r now generation) ≡ ok u
        → (generation ≡ r.generation) × (r.executable_at ≤ now)
    unfolding readiness
    readiness-ready r now generation u h = elim (Bool-cases (generation == r.generation)) [
      | inl t ↦ elim (Bool-cases (ltb now r.executable_at)) [
        | inl y ↦ absurd (ground (arith, h, t, y))
        | inr n ↦ ((==_iff generation r.generation).0 t, ground (arith, n))
      ]
      | inr m ↦ absurd (ground (arith, h, m))
    ]

    -- What a successful execution has found and done.
    execute_upgrade-request :
        (id : ℕ) (s s' : State O)
        → execute_upgrade w id s ≡ ok s'
        → (r : UpgradeRequest) × (s.pending_upgrade ≡ some r)
          × (r.request_id ≡ id)
          × (s.generation ≡ r.generation)
          × (r.executable_at ≤ w.host.sequence)
          × (s'.wasm_hash ≡ r.wasm_hash)
          × (s'.pending_upgrade ≡ none)
          × Later s s'
    unfolding execute_upgrade
    execute_upgrade-request id s s' h =
        let (u, e₀, k₀) = >>=-eq-ok (require_me w) _ h in
        let (r, e₁, k₁) = >>=-eq-ok (ok_or s.pending_upgrade no_pending_upgrade) _ k₀ in
        let (u₂, e₂, k₂) = >>=-eq-ok (guard (r.request_id == id) upgrade_request_mismatch) _ k₁ in
        let (u₃, e₃, k₃) =
          >>=-eq-ok (require_ready w (readiness r w.host.sequence s.generation)) _ k₂ in
        let (u₄, e₄, k₄) =
          >>=-eq-ok (check_epoch w s.recovery_controller r.controller_epoch) _ k₃ in
        let (g, e₅, k₅) = >>=-eq-ok (succeeding s.generation) _ k₄ in
        let (n, e₆, k₆) = >>=-eq-ok (succeeding s.revision) _ k₅ in
        let p : record s {
          pending_upgrade = none;
          generation = g;
          revision = n;
          wasm_hash = r.wasm_hash;
        }
            ≡ s' =
          cc in
        let (a, b) = readiness-ready r w.host.sequence s.generation u₃ e₃ in
        let lg = succeeding-ok s.generation g e₅ in
        let ln = succeeding-ok s.revision n e₆ in
        rw (← p) (
          r,
          ok_or-ok s.pending_upgrade no_pending_upgrade r e₁,
          (==_iff r.request_id id).0 (guard-ok (r.request_id == id) upgrade_request_mismatch e₂),
          a,
          b,
          refl,
          refl,
          record {
            revises = inr (sym ln);
            generation_le = omega (arith, lg);
            id_le = omega arith;
            revoked_grows = Grows-self s.revoked;
            enrolled_grows = Grows-self s.enrolled_ids;
          },
        )

    cancel_upgrade-Later :
        (s s' : State O) → cancel_upgrade w s ≡ ok s' → Later s s' × (s'.pending_upgrade ≡ none)
    unfolding cancel_upgrade
    cancel_upgrade-Later s s' h =
        let (u, e₀, k₀) = >>=-eq-ok (require_me w) _ h in
        let (u₁, e₁, k₁) = >>=-eq-ok (guard (is_some s.pending_upgrade) no_pending_upgrade) _ k₀ in
        let p : record s { pending_upgrade = none } ≡ s' = cc in
        rw (← p) (
          record {
            revises = inl refl;
            generation_le = omega arith;
            id_le = omega arith;
            revoked_grows = Grows-self s.revoked;
            enrolled_grows = Grows-self s.enrolled_ids;
          },
          refl,
        )

    cancel_recovery-eq :
        (attempt_id : ℕ) (s s' : State O) → cancel_recovery w attempt_id s ≡ ok s' → s ≡ s'
    unfolding cancel_recovery
    cancel_recovery-eq attempt_id s s' h =
        let (u, e₀, k₀) = >>=-eq-ok (require_me w) _ h in
        let (c, e₁, k₁) = >>=-eq-ok (ok_or s.recovery_controller recovery_not_enrolled) _ k₀ in
        let (u₂, e₂, k₂) = >>=-eq-ok (guard (w.try_rcv_cancel c attempt_id) recovery) _ k₁ in cc

    apply-Later :
        (doc_json : Bytes) (approval : ℕ) (expected : Option ℕ) (hash : Bytes32) (s s' : State O)
        → apply w doc_json approval expected s ≡ ok (s', hash)
        → Later s s' × ((s'.pending_upgrade ≡ none) ⊎ (s'.pending_upgrade ≡ s.pending_upgrade))
    apply-Later doc_json approval expected hash s s' h =
        let (t, a, n, l, p) = apply-Within w doc_json approval expected s s' hash h in
        let e = a.revision_eq in
        let i = a.id_eq in
        rw (← p) (
          record {
            revises = inr (sym l ∙ ap (λ x. x + 1) e);
            generation_le = a.generation_le;
            id_le = omega (arith, i);
            revoked_grows = a.revoked_grows;
            enrolled_grows = a.enrolled_grows;
          },
          a.pending,
        )

    -- No call of an account lowers its revision, its recovery generation or the next request id, or forgets a
    -- revoked credential or an enrollment id, and a call counts at most one revision.
    pub Call-Later : (s s' : State O) → Call w s s' → Later s s'
    Call-Later s s' (applies doc_json approval expected hash h) =
        (apply-Later doc_json approval expected hash s s' h).0
    Call-Later s s' (gates attempt_id frozen_until h) =
        (rcv_gate-Later attempt_id frozen_until s s' h).0
    Call-Later s s' (cancels_recovery attempt_id h) =
        subst (Later s) (cancel_recovery-eq attempt_id s s' h) (Later-self s)
    Call-Later s s' (schedules wasm_hash approval id h) =
        let (r, e, a, b, c, d, f, l) = schedule_upgrade-request wasm_hash approval id s s' h in l
    Call-Later s s' (executes id h) =
        let (r, e, a, b, c, d, f, l) = execute_upgrade-request id s s' h in l
    Call-Later s s' (cancels_upgrade h) = (cancel_upgrade-Later s s' h).0

  -- The states after any calls from a first one, with whatever each call reads.
  pub data Reach (first : State O) : State O → Type 0 where
    deployed : Reach first first
    then_call : {s s' : State O} → (w : Around O) → Reach first s → Call w s s' → Reach first s'

  -- The reachable call that scheduled a request.
  pub record Scheduled (first : State O) (r : UpgradeRequest) : Type 0 where
    pub before : State O
    pub after : State O
    pub reached : Reach first before
    pub around : Around O
    pub approval : ℕ
    pub ran : schedule_upgrade around r.wasm_hash approval before ≡ ok (after, r.request_id)
    pub authorized : around.auth around.host.here ≡ true
    pub delayed : r.executable_at ≡ around.host.sequence + account_upgrade_delay_ledgers
    pub at_generation : r.generation ≡ before.generation

  extend :
      (first : State O) (r : UpgradeRequest) (s s' : State O)
      → s'.pending_upgrade ≡ some r
      → (s'.pending_upgrade ≡ none) ⊎ (s'.pending_upgrade ≡ s.pending_upgrade)
      → s.pending_upgrade ≡ some r
  extend first r s s' h (inl e) = absurd cc
  extend first r s s' h (inr e) = sym e ∙ h

  scheduled :
      (first s s' : State O) (w : Around O) (wasm_hash : Bytes32) (approval id : ℕ)
      (r : UpgradeRequest)
      → Reach first s
      → schedule_upgrade w wasm_hash approval s ≡ ok (s', id)
      → s'.pending_upgrade ≡ some r
      → Scheduled first r
  scheduled first s s' w wasm_hash approval id r reach h e =
      let (q, f, a, b, c, d, auth, l) = schedule_upgrade-request w wasm_hash approval id s s' h in
      let p : q ≡ r = cc in
      subst (Scheduled first) p (record {
        before = s;
        after = s';
        reached = reach;
        around = w;
        approval = approval;
        ran = rw (a, b) h;
        authorized = auth;
        delayed = d;
        at_generation = c;
      })

  -- A pending request was scheduled by a reachable call.
  Reach-Scheduled :
      (first s : State O) (r : UpgradeRequest)
      → first.pending_upgrade ≡ none
      → Reach first s
      → s.pending_upgrade ≡ some r
      → Scheduled first r
  Reach-Scheduled first s r z deployed e = absurd cc
  Reach-Scheduled first s' r z (then_call {s} w reach (applies doc_json approval expected hash h))
        e =
      Reach-Scheduled first s r z reach
        (extend first r s s' e (apply-Later w doc_json approval expected hash s s' h).1)
  Reach-Scheduled first s' r z (then_call {s} w reach (gates attempt_id frozen_until h)) e =
      Reach-Scheduled first s r z reach
        (extend first r s s' e (inr (rcv_gate-Later w attempt_id frozen_until s s' h).1))
  Reach-Scheduled first s' r z (then_call {s} w reach (cancels_recovery attempt_id h)) e =
      let p = cancel_recovery-eq w attempt_id s s' h in
      Reach-Scheduled first s r z reach (ap (λ (x : State O). x.pending_upgrade) p ∙ e)
  Reach-Scheduled first s' r z (then_call {s} w reach (schedules wasm_hash approval id h)) e =
      scheduled first s s' w wasm_hash approval id r reach h e
  Reach-Scheduled first s' r z (then_call {s} w reach (executes id h)) e =
      let (q, f, a, b, c, d, n, l) = execute_upgrade-request w id s s' h in
      Reach-Scheduled first s r z reach (extend first r s s' e (inl n))
  Reach-Scheduled first s' r z (then_call {s} w reach (cancels_upgrade h)) e =
      Reach-Scheduled first s r z reach
        (extend first r s s' e (inl (cancel_upgrade-Later w s s' h).1))

  -- An upgrade that is executed in a state reached from one without a pending request was scheduled under
  -- this id by an authorized call that was reached before, at least the delay earlier, at the present
  -- recovery generation, for the code that is now installed.
  pub execute_upgrade-Scheduled :
      (first s s' : State O) (w : Around O) (id : ℕ)
      → first.pending_upgrade ≡ none
      → Reach first s
      → execute_upgrade w id s ≡ ok s'
      → (r : UpgradeRequest) × (sched : Scheduled first r) × (r.request_id ≡ id)
        × (s'.wasm_hash ≡ r.wasm_hash)
        × (sched.around.host.sequence + account_upgrade_delay_ledgers ≤ w.host.sequence)
        × (sched.before.generation ≡ s.generation)
  execute_upgrade-Scheduled first s s' w id z reach h =
      let (r, e, i, g, t, c, n, l) = execute_upgrade-request w id s s' h in
      let sched = Reach-Scheduled first s r z reach e in
      let d = sched.delayed in
      (r, sched, i, c, omega (arith, d, t), sym sched.at_generation ∙ sym g)
