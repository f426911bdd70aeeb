-- ===== src/Account/Settled.antt =====
-- crates/perch-smart-account/src/rules.rs, `run`: the library's rules after one desired rule is settled.
use perch.Common.{
  ℕ, ◌≡◌, ◌≢◌, refl, sym, ◌∙◌, ap, ◌⊎◌, inl, inr, Address, Bytes32, Val, true, false, ◌&&◌, Option,
  none, some, List, arith, ◌==◌, ==_iff, Bool-cases, Option-cases, Result, ok, >>=-eq-ok,
  if◌then◌else◌,
}
use mathlib.Core.Path.{subst}
use perch.Account.{InstalledRule, InstalledPolicy, Host, with_id}
use perch.Account.Effects.{Panic, Refs, new_meter, metered, Oz, Apply, applied, cost_le}
use perch.Account.Reconcile.{
  unchanged, edit, replace, find_slot, add_new, change, reconcile_rule, count_edited, Run,
}
use perch.Account.Slot.{AddressesDiffer}
use perch.Account.Additions.{Aligned, additions-entries}
use perch.Account.Library.{Content, Laws, Cached, Goes, Goes-refl}
use perch.Account.Performed.{SamePolicies}
use perch.Account.InPlace.{same_slot-context, unchanged-same, edit-is_editable, edit-Becomes}
use perch.Account.Slots.{find_slot-Member}
use perch.Account.Added.{remove_rule-Goes, add_rule-Goes}

-- The library holds the rule under its id: the scope, the expiry, the signers, and the policies in some
-- order.
abbrev pub Holds : {O : Type 0} → (O → ℕ → Option Content) → O → InstalledRule → Type 0
Holds rule_at o r =
    (ps : List InstalledPolicy) × (rule_at o r.id
      ≡ some (record {
        context = r.context_type;
        valid_until = r.valid_until;
        signers = r.signers;
        policies = ps;
      }))
    × SamePolicies ps r.policies

-- The id is not that of the record in the slot of `d`.
abbrev pub Untouched : List InstalledRule → InstalledRule → ℕ → Type 0
Untouched current d j = (c : InstalledRule) → find_slot current d ≡ some c → c.id ≢ j

==-ne : (a b : ℕ) → (a == b) ≡ false → a ≢ b
==-ne a b n e = absurd (ground (arith, n, (==_iff a b).1 e))

pub not_vacant : {A : Type 0} {o : Option A} {a : A} → o ≡ some a → o ≡ none → ⊥
not_vacant h k = cc

module _ {O : Type 0} {oz : Oz O} {digest : Val → Bytes32} {rule_at : O → ℕ → Option Content}
    {names : O → ℕ → Option Address} (laws : Laws oz digest rule_at names)
    (current : List InstalledRule) (d : InstalledRule) where
  -- The desired rule is recorded and held, and every rule but that of its slot is as it was.
  pub record Settles (x x' : Apply O) (r : InstalledRule) : Type 0 where
    pub named : r ≡ with_id d r.id
    pub held : Holds rule_at x'.account r
    pub kept :
        (j : ℕ) (k : Content)
        → rule_at x.account j ≡ some k
        → Untouched current d j
        → (rule_at x'.account j ≡ some k) × (r.id ≢ j)
    pub only :
        (j : ℕ) (k : Content)
        → rule_at x'.account j ≡ some k
        → (r.id ≡ j) ⊎ ((rule_at x.account j ≡ some k) × Untouched current d j)
    pub reading : Cached laws x'.account x'.rule

  -- A change of the rule that the slot has.
  Goes-Settles :
      (c : InstalledRule) (x x' : Apply O) (qs : List InstalledPolicy)
      → find_slot current d ≡ some c
      → Goes laws x x' c.id (
          some (record {
            context = d.context_type;
            valid_until = d.valid_until;
            signers = d.signers;
            policies = qs;
          }))
      → SamePolicies qs d.policies
      → Settles x x' (with_id d c.id)
  Goes-Settles c x x' qs f g same = record {
    named = refl;
    held = (qs, g.changes.here, same);
    kept = λ j k h u. let n = u c f in (g.changes.others j (λ e. n (sym e)) ∙ h, n);
    only = λ j k h. elim (Bool-cases (c.id == j)) [
      | inl t ↦ inl ((==_iff c.id j).0 t)
      | inr n ↦
          let m = ==-ne c.id j n in
          inr (
            sym (g.changes.others j (λ e. m (sym e))) ∙ h,
            λ b v. let q : c ≡ b = cc in λ e. m (ap (λ (y : InstalledRule). y.id) q ∙ e),
          )
    ];
    reading = g.reading;
  }

  -- A rule that is added where the slot is free.
  add-Settles :
      (params : List Val) (x x' : Apply O) (id : ℕ)
      → AddressesDiffer d.policies
      → Aligned digest d.policies params
      → Cached laws x.account x.rule
      → find_slot current d ≡ none
      → (applied oz).add_rule d params x ≡ ok (x', id)
      → Settles x x' (with_id d id)
  add-Settles params x x' id differ al r f h =
      let (vacant, qs, g, same) = add_rule-Goes laws d params x x' id differ al r h in
      record {
        named = refl;
        held = (qs, g.changes.here, same);
        kept = λ j k at u.
            let n : id ≢ j =
              λ e. absurd (not_vacant at (ap (rule_at x.account) (sym e) ∙ vacant)) in
            (g.changes.others j (λ e. n (sym e)) ∙ at, n);
        only = λ j k at. elim (Bool-cases (id == j)) [
          | inl t ↦ inl ((==_iff id j).0 t)
          | inr n ↦
              let m = ==-ne id j n in
              inr (sym (g.changes.others j (λ e. m (sym e))) ∙ at, λ b v. absurd cc)
        ];
        reading = g.reading;
      }

  -- A rule that is removed and added again.
  replace-Settles :
      (params : List Val) (c : InstalledRule) (x x' : Apply O) (id : ℕ)
      → AddressesDiffer d.policies
      → Aligned digest d.policies params
      → Cached laws x.account x.rule
      → find_slot current d ≡ some c
      → replace (applied oz) c d params x ≡ ok (x', id)
      → Settles x x' (with_id d id)
  unfolding replace
  replace-Settles params c x x' id differ al r f h =
      let (y, ey, k) = >>=-eq-ok ((applied oz).remove_rule c x) _ h in
      let a = remove_rule-Goes laws c x y r ey in
      let (vacant, qs, g, same) = add_rule-Goes laws d params y x' id differ al a.reading k in
      record {
        named = refl;
        held = (qs, g.changes.here, same);
        kept = λ j k at u.
            let at' = a.changes.others j (λ e. u c f (sym e)) ∙ at in
            let n : id ≢ j =
              λ e. absurd (not_vacant at' (ap (rule_at y.account) (sym e) ∙ vacant)) in
            (g.changes.others j (λ e. n (sym e)) ∙ at', n);
        only = λ j k at. elim (Bool-cases (id == j)) [
          | inl t ↦ inl ((==_iff id j).0 t)
          | inr n ↦
              let m = ==-ne id j n in
              let at' = sym (g.changes.others j (λ e. m (sym e))) ∙ at in
              let w : c.id ≢ j =
                λ e. absurd (not_vacant at' (ap (rule_at y.account) (sym e) ∙ a.changes.here)) in
              inr (
                sym (a.changes.others j (λ e. w (sym e))) ∙ at',
                λ b v. let q : c ≡ b = cc in λ e. w (ap (λ (y : InstalledRule). y.id) q ∙ e),
              )
        ];
        reading = g.reading;
      }

  module _ (e : Host) (max_policies : ℕ) (params : List Val) (differ : AddressesDiffer d.policies)
      (al : Aligned digest d.policies params) where
    -- The result, spelled as the code leaves it.
    to_result :
        (x : Apply O) (s s' : Run oz e max_policies) (r r' : InstalledRule)
        → s ≡ s'
        → r ≡ r'
        → Settles x s.1 r
        → Settles x s'.1 r'
    to_result x s s' r r' w v t =
        subst (λ (z : Run oz e max_policies). Settles x z.1 r') w (subst (λ q. Settles x s.1 q) v t)

    change-Settles :
        (c : InstalledRule) (refs : Refs) (x : Apply O) (s' : Run oz e max_policies)
        (r : InstalledRule)
        → find_slot current d ≡ some c
        → AddressesDiffer c.policies
        → Holds rule_at x.account c
        → Cached laws x.account x.rule
        → change oz e max_policies c d params (refs, x) ≡ ok (s', r)
        → Settles x s'.1 r
    unfolding change
    change-Settles c refs x s' r f cd (ps, at, same) reading h =
        let ((edited, editable), ee, k) =
          >>=-eq-ok (edit (metered e) max_policies c d params (new_meter refs)) _ h in
        let ((replaced, u), er, k₂) =
          >>=-eq-ok (replace (metered e) c d params (new_meter refs)) _ k in
        elim (Bool-cases (editable && cost_le edited.cost replaced.cost)) [
          | inl t ↦
              let ((y, done), ea, q) =
                >>=-eq-ok (edit (applied oz) max_policies c d params x)
                  (λ (a', done).
                    ok ((edited.refs, count_edited oz e max_policies a'), with_id d c.id))
                  (rw t at k₂) in
              let (adds, eadd, news) = additions-entries digest c.policies d.policies params al in
              let yes : editable ≡ true = ground (arith, t) in
              let t' =
                edit-is_editable (metered e) max_policies c d params (new_meter refs) edited adds
                  eadd (ee ∙ ap (λ b. ok (edited, b)) yes) in
              let (qs, same', g) =
                edit-Becomes laws max_policies c d x y _ at refl refl same cd differ reading params
                  done adds eadd news t' ea in
              let context = same_slot-context c d (find_slot-Member current d c f).1 in
              let g' =
                subst
                  (λ z. Goes laws x y c.id (
                    some (record {
                      context = z;
                      valid_until = d.valid_until;
                      signers = d.signers;
                      policies = qs;
                    })))
                  context g in
              let w : (edited.refs, count_edited oz e max_policies y) ≡ s' = cc in
              let v : with_id d c.id ≡ r = cc in
              to_result x _ s' _ r w v (
                Goes-Settles c x (count_edited oz e max_policies y) qs f
                  (record { changes = g'.changes; reading = g'.reading }) same')
          | inr n ↦
              let ((y, id), ea, q) =
                >>=-eq-ok (replace (applied oz) c d params x)
                  (λ (a', id). ok ((replaced.refs, a'), with_id d id)) (rw n at k₂) in
              let w : (replaced.refs, y) ≡ s' = cc in
              let v : with_id d id ≡ r = cc in
              to_result x _ s' _ r w v (replace-Settles params c x y id differ al reading f ea)
        ]

    -- A rule of a slot that no record has, an unchanged one, and a changed one.
    pub reconcile_rule-Settles :
        (refs : Refs) (x : Apply O) (s' : Run oz e max_policies) (r : InstalledRule)
        → Cached laws x.account x.rule
        → ((c : InstalledRule)
            → find_slot current d ≡ some c
            → Holds rule_at x.account c × AddressesDiffer c.policies)
        → reconcile_rule oz e max_policies current d params (refs, x) ≡ ok (s', r)
        → Settles x s'.1 r
    unfolding reconcile_rule add_new
    reconcile_rule-Settles refs x s' r reading pending h =
        elim (Option-cases (find_slot current d)) [
          | inl n ↦
              let h' = rw (n, reconcile_rule) at h in
              let ((m, u), em, k) =
                >>=-eq-ok ((metered e).add_rule d params (new_meter refs)) _ h' in
              let ((y, id), ea, q) = >>=-eq-ok ((applied oz).add_rule d params x) _ k in
              let w : (m.refs, y) ≡ s' = cc in
              let v : with_id d id ≡ r = cc in
              to_result x _ s' _ r w v (add-Settles params x y id differ al reading n ea)
          | inr (c, g) ↦
              let h' : (if unchanged c d
                    then ok ((refs, x), with_id d c.id)
                    else change oz e max_policies c d params (refs, x))
                  ≡ ok (s', r) =
                rw (g, reconcile_rule) at h in
              let ((ps, at, same), cd) = pending c g in
              elim (Bool-cases (unchanged c d)) [
                | inl t ↦
                    let h₂ : ◌≡◌ {A = Result Panic (Run oz e max_policies × InstalledRule)}
                        (ok ((refs, x), with_id d c.id)) (ok (s', r)) =
                      rw t at h' in
                    let (signers, until, policies) = unchanged-same c d t in
                    let context = same_slot-context c d (find_slot-Member current d c g).1 in
                    let w : (refs, x) ≡ s' = cc in
                    let v : with_id d c.id ≡ r = cc in
                    let at' : rule_at x.account c.id
                        ≡ some (record {
                          context = d.context_type;
                          valid_until = d.valid_until;
                          signers = d.signers;
                          policies = ps;
                        }) =
                      at ∙ cc (signers, until, context) in
                    to_result x _ s' _ r w v (
                      Goes-Settles c x x ps g (Goes-refl laws x c.id _ at' reading)
                        (λ p. same p ∙ policies p))
                | inr n ↦ change-Settles c refs x s' r g cd (ps, at, same) reading (rw n at h')
              ]
        ]
