-- ===== src/Account/Entry/History.antt =====
-- crates/perch-smart-account/src/lib.rs: what the calls of an account keep, and where an upgrade comes from.
use perch.Common.{
  ℕ, ◌+◌, ◌≤◌, ◌≡◌, refl, ◌∙◌, ◌⊎◌, inl, inr, Address, Bytes, Bytes32, Bool, true, false, ◌&&◌, not,
  Option, none, some, List, [], ◌∷◌, arith, ltb, update, Bool-cases, Option-cases, Result, ok, err,
  guard, ok_or, >>=-eq-ok, Result-cases,
}
use perch.Recovery.Config.{CompiledZkFactor, leaf_to_insert}
use perch.Recovery.Types.{
  SyncOutcome, unchanged, enrolled, reconfigured, removed, completed, bumps_generation,
}
use perch.Recovery.Credential.{revocations}
use perch.Account.{CompiledDoc, desired}
use perch.Account.Reconcile.{reconcile}
use perch.Account.Entry.{
  Around, State, AccountError, trapped, recovery, succeeding, new_zk_of, sync_old, sync_new,
  is_other, controller_of, apply_rules, insert_leaf, conclude, revoke_all, complete_recovery,
  fingerprints_of, store_doc, is_applied, advance_generation, apply, checked_doc, sync, change_all,
  recovery_id,
}

-- A set only grows.
abbrev pub Grows : (Bytes32 → Bool) → (Bytes32 → Bool) → Type 0
Grows before after = (x : Bytes32) → (before x && not (after x)) ≡ false

-- A part of a call counts no revision, changes no code, schedules nothing, and takes nothing back.
pub record Within {O : Type 0} (s s' : State O) : Type 0 where
  pub revision_eq : s'.revision ≡ s.revision
  pub code_eq : s'.wasm_hash ≡ s.wasm_hash
  pub id_eq : s'.next_upgrade_id ≡ s.next_upgrade_id
  pub generation_le : s.generation ≤ s'.generation
  pub pending : (s'.pending_upgrade ≡ none) ⊎ (s'.pending_upgrade ≡ s.pending_upgrade)
  pub revoked_grows : Grows s.revoked s'.revoked
  pub enrolled_grows : Grows s.enrolled_ids s'.enrolled_ids

pub Grows-self : (f : Bytes32 → Bool) → Grows f f
Grows-self f x = ground arith

Grows-trans : (f g h : Bytes32 → Bool) → Grows f g → Grows g h → Grows f h
Grows-trans f g h p q x = ground (arith, p x, q x)

Grows-update : (f : Bytes32 → Bool) (a : Bytes32) → Grows f (update f a true)
Grows-update f a x = ground arith

Grows-revoke_all : (fs : List Bytes32) (f : Bytes32 → Bool) → Grows f (revoke_all fs f)
unfolding revoke_all
Grows-revoke_all [] f = Grows-self f
Grows-revoke_all (a ∷ fs) f =
    Grows-trans f (update f a true) (revoke_all fs (update f a true)) (Grows-update f a)
      (Grows-revoke_all fs (update f a true))

pub succeeding-ok : (n m : ℕ) → succeeding n ≡ ok m → n + 1 ≡ m
succeeding-ok n m h = elim (Bool-cases (ltb n 0xffff_ffff_ffff_ffff)) [
  | inl t ↦ ground (arith, h, t)
  | inr f ↦ absurd (ground (arith, h, f))
]

pub ok_pair {ℓ} :
    {A B : Type ℓ} {a a' : A} {b b' : B}
    → ◌≡◌ {A = Result AccountError (A × B)} (ok (a, b)) (ok (a', b'))
    → a ≡ a'
ok_pair h = cc

module _ {O : Type 0} where
  Within-self : (s : State O) → Within s s
  Within-self s = record {
    revision_eq = refl;
    code_eq = refl;
    id_eq = refl;
    generation_le = omega arith;
    pending = inr refl;
    revoked_grows = Grows-self s.revoked;
    enrolled_grows = Grows-self s.enrolled_ids;
  }

  Within-trans : (s s₁ s₂ : State O) → Within s s₁ → Within s₁ s₂ → Within s s₂
  Within-trans s s₁ s₂ a b = record {
    revision_eq = b.revision_eq ∙ a.revision_eq;
    code_eq = b.code_eq ∙ a.code_eq;
    id_eq = b.id_eq ∙ a.id_eq;
    generation_le = let x = a.generation_le in let y = b.generation_le in omega (arith, x, y);
    pending = elim b.pending [
      | inl e ↦ inl e
      | inr e ↦ elim a.pending [ inl f ↦ inl (e ∙ f) | inr f ↦ inr (e ∙ f) ]
    ];
    revoked_grows = Grows-trans s.revoked s₁.revoked s₂.revoked a.revoked_grows b.revoked_grows;
    enrolled_grows =
        Grows-trans s.enrolled_ids s₁.enrolled_ids s₂.enrolled_ids a.enrolled_grows
          b.enrolled_grows;
  }

  raise-Within : (s : State O) (n : ℕ) → s.generation ≤ n → Within s (record s { generation = n })
  raise-Within s n h = record {
    revision_eq = refl;
    code_eq = refl;
    id_eq = refl;
    generation_le = h;
    pending = inr refl;
    revoked_grows = Grows-self s.revoked;
    enrolled_grows = Grows-self s.enrolled_ids;
  }

  module _ (w : Around O) where
    advance_generation-Within :
        (o : SyncOutcome) (s s' : State O) → advance_generation w o s ≡ ok s' → Within s s'
    unfolding advance_generation
    advance_generation-Within o s s' h = elim (Bool-cases (bumps_generation o)) [
      | inl t ↦
          let (n, e, q) =
            >>=-eq-ok (succeeding s.generation) (λ n. ok (record s { generation = n }))
              (rw t at h) in
          let p : record s { generation = n } ≡ s' = cc in
          let l = succeeding-ok s.generation n e in rw (← p) (raise-Within s n (omega (arith, l)))
      | inr f ↦
          let k : ◌≡◌ {A = Result AccountError (State O)} (ok s) (ok s') = rw f at h in
          let p : s ≡ s' = cc in rw (← p) (Within-self s)
    ]

    sync_old-Within :
        (c : Option Address) (d : CompiledDoc) (a : ℕ) (s s' : State O) (o : SyncOutcome)
        → sync_old w c d a s ≡ ok (o, s')
        → Within s s'
    unfolding sync_old
    sync_old-Within none d a s s' o h = let p : s ≡ s' = cc in rw (← p) (Within-self s)
    sync_old-Within (some c) d a s s' o h =
        let (x, ex, k) =
          >>=-eq-ok (ok_or (w.try_rcv_sync c d.doc_hash d.recovery a) recovery) _ h in
        let (t, et, q) = >>=-eq-ok (advance_generation w x s) _ k in
        let p : t ≡ s' = cc in rw (← p) (advance_generation-Within x s t et)

    sync_new-Within :
        (old : Option Address) (d : CompiledDoc) (a : ℕ) (s s' : State O)
        → sync_new w old d a s ≡ ok s'
        → Within s s'
    unfolding sync_new
    sync_new-Within old d a s s' h = elim (Option-cases (controller_of d.recovery)) [
      | inl n ↦
          let k : ◌≡◌ {A = Result AccountError (State O)} (ok s) (ok s') = rw (n, sync_new) at h in
          let p : s ≡ s' = cc in rw (← p) (Within-self s)
      | inr (c, e) ↦ elim (Bool-cases (is_other w old c)) [
        | inl t ↦
            let (x, ex, k) =
              >>=-eq-ok (ok_or (w.try_rcv_sync c d.doc_hash d.recovery a) recovery)
                (λ o. advance_generation w o s) (rw (e, t, sync_new) at h) in
            advance_generation-Within x s s' k
        | inr f ↦
            let k : ◌≡◌ {A = Result AccountError (State O)} (ok s) (ok s') =
              rw (e, f, sync_new) at h in
            let p : s ≡ s' = cc in rw (← p) (Within-self s)
      ]
    ]

    apply_rules-Within :
        (d : CompiledDoc) (s s' : State O) → apply_rules w d s ≡ ok s' → Within s s'
    unfolding apply_rules
    apply_rules-Within d s s' h =
        elim (Result-cases
          (reconcile w.oz w.host w.max_policies s.installed_rules (desired w.host d) s.library)) [
            | inl (r, e) ↦
                let k : ◌≡◌ {A = Result AccountError (State O)}
                    (ok (record s {
                      library = r.0;
                      installed_rules = r.1.0;
                      recovery_rule = recovery_id r.1.0;
                      recovery_controller = controller_of d.recovery;
                    }))
                    (ok s') =
                  rw (e, apply_rules) at h in
                let p : record s {
                  library = r.0;
                  installed_rules = r.1.0;
                  recovery_rule = recovery_id r.1.0;
                  recovery_controller = controller_of d.recovery;
                }
                    ≡ s' =
                  cc in
                rw (← p) (record {
                  revision_eq = refl;
                  code_eq = refl;
                  id_eq = refl;
                  generation_le = omega arith;
                  pending = inr refl;
                  revoked_grows = Grows-self s.revoked;
                  enrolled_grows = Grows-self s.enrolled_ids;
                })
            | inr (x, e) ↦
                let k : ◌≡◌ {A = Result AccountError (State O)} (err trapped) (ok s') =
                  rw (e, apply_rules) at h in
                absurd cc
          ]

    insert_leaf-Within :
        (leaf : Option CompiledZkFactor) (s s' : State O)
        → insert_leaf w leaf s ≡ ok s'
        → Within s s'
    unfolding insert_leaf
    insert_leaf-Within none s s' h = let p : s ≡ s' = cc in rw (← p) (Within-self s)
    insert_leaf-Within (some leaf) s s' h =
        let (u, e, k) =
          >>=-eq-ok (guard (w.insert_call leaf.pool leaf.enrollment_id leaf.commitment) trapped) _
            h in
        let p : record s { enrolled_ids = update s.enrolled_ids leaf.enrollment_id true } ≡ s' =
          cc in
        rw (← p) (record {
          revision_eq = refl;
          code_eq = refl;
          id_eq = refl;
          generation_le = omega arith;
          pending = inr refl;
          revoked_grows = Grows-self s.revoked;
          enrolled_grows = Grows-update s.enrolled_ids leaf.enrollment_id;
        })

    conclude-Within :
        (o : SyncOutcome) (target : List Bytes32) (s s' : State O)
        → conclude w o target s ≡ ok s'
        → Within s s'
    unfolding conclude complete_recovery
    conclude-Within (completed c) target s s' h =
        let (fs, e, k) = >>=-eq-ok (fingerprints_of w c.replaced) _ h in
        let p : record s {
          revoked = revoke_all (revocations fs s.applied_fingerprints target) s.revoked;
          freeze_gate = none;
          pending_upgrade = none;
        }
            ≡ s' =
          cc in
        rw (← p) (record {
          revision_eq = refl;
          code_eq = refl;
          id_eq = refl;
          generation_le = omega arith;
          pending = inl refl;
          revoked_grows = Grows-revoke_all (revocations fs s.applied_fingerprints target) s.revoked;
          enrolled_grows = Grows-self s.enrolled_ids;
        })
    conclude-Within unchanged target s s' h = let p : s ≡ s' = cc in rw (← p) (Within-self s)
    conclude-Within enrolled target s s' h = let p : s ≡ s' = cc in rw (← p) (Within-self s)
    conclude-Within reconfigured target s s' h = let p : s ≡ s' = cc in rw (← p) (Within-self s)
    conclude-Within removed target s s' h = let p : s ≡ s' = cc in rw (← p) (Within-self s)

    set_zk-Within :
        (s : State O) (z : Option CompiledZkFactor) → Within s (record s { current_zk = z })
    set_zk-Within s z = record {
      revision_eq = refl;
      code_eq = refl;
      id_eq = refl;
      generation_le = omega arith;
      pending = inr refl;
      revoked_grows = Grows-self s.revoked;
      enrolled_grows = Grows-self s.enrolled_ids;
    }

    store_doc-Within : (d : CompiledDoc) (s : State O) → Within s (store_doc w d s)
    unfolding store_doc
    store_doc-Within d s = elim (Bool-cases (is_applied w s.applied_doc d.doc_hash)) [
      | inl t ↦ rw t (Within-self s)
      | inr n ↦ rw n (record {
        revision_eq = refl;
        code_eq = refl;
        id_eq = refl;
        generation_le = omega arith;
        pending = inr refl;
        revoked_grows = Grows-self s.revoked;
        enrolled_grows = Grows-self s.enrolled_ids;
      })
    ]

    sync-Within :
        (d : CompiledDoc) (approval : ℕ) (s s' : State O) (o : SyncOutcome)
        → sync w d approval s ≡ ok (o, s')
        → Within s s'
    unfolding sync
    sync-Within d approval s s' o h =
        let ((o₁, s₁), f₁, k₁) = >>=-eq-ok (sync_old w s.recovery_controller d approval s) _ h in
        let (s₂, f₂, k₂) = >>=-eq-ok (sync_new w s.recovery_controller d approval s₁) _ k₁ in
        let p : s₂ ≡ s' = cc in
        let a = sync_old-Within s.recovery_controller d approval s s₁ o₁ f₁ in
        rw p at (Within-trans s s₁ s₂ a (sync_new-Within s.recovery_controller d approval s₁ s₂ f₂))

    change_all-Within :
        (d : CompiledDoc) (leaf : Option CompiledZkFactor) (o : SyncOutcome) (s s' : State O)
        → change_all w d leaf o s ≡ ok s'
        → Within s s'
    unfolding change_all
    change_all-Within d leaf o s s' h =
        let (s₁, f₁, k₁) = >>=-eq-ok (apply_rules w d s) _ h in
        let (s₂, f₂, k₂) = >>=-eq-ok (insert_leaf w leaf s₁) _ k₁ in
        let z = new_zk_of d.recovery in
        let (s₃, f₃, k₃) =
          >>=-eq-ok (conclude w o d.fingerprints (record s₂ { current_zk = z })) _ k₂ in
        let a₁ = apply_rules-Within d s s₁ f₁ in
        let a₂ = Within-trans s s₁ s₂ a₁ (insert_leaf-Within leaf s₁ s₂ f₂) in
        let b₃ =
          Within-trans s₂ (record s₂ { current_zk = z }) s₃ (set_zk-Within s₂ z)
            (conclude-Within o d.fingerprints (record s₂ { current_zk = z }) s₃ f₃) in
        let b₄ = Within-trans s₂ s₃ (store_doc w d s₃) b₃ (store_doc-Within d s₃) in
        let p : store_doc w d s₃ ≡ s' = cc in rw p at (Within-trans s s₂ (store_doc w d s₃) a₂ b₄)

    -- What a successful apply does besides counting a revision.
    pub apply-Within :
        (doc_json : Bytes) (approval : ℕ) (expected : Option ℕ) (s s' : State O) (hash : Bytes32)
        → apply w doc_json approval expected s ≡ ok (s', hash)
        → (t : State O) × Within s t
          × (n : ℕ) × (t.revision + 1 ≡ n)
          × (record t { revision = n } ≡ s')
    unfolding apply
    apply-Within doc_json approval expected s s' hash h =
        let (d, e, k) = >>=-eq-ok (checked_doc w doc_json expected s) _ h in
        let ((o, s₁), f₁, k₁) = >>=-eq-ok (sync w d approval s) _ k in
        let (s₂, f₂, k₂) =
          >>=-eq-ok (change_all w d (leaf_to_insert s.current_zk (new_zk_of d.recovery)) o s₁) _
            k₁ in
        let (n, f₃, k₃) = >>=-eq-ok (succeeding s₂.revision) _ k₂ in
        (
          s₂,
          Within-trans s s₁ s₂ (sync-Within d approval s s₁ o f₁)
              (change_all-Within d _ o s₁ s₂ f₂),
          n,
          succeeding-ok s₂.revision n f₃,
          ok_pair k₃,
        )
