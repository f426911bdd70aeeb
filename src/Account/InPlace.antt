-- ===== src/Account/InPlace.antt =====
-- crates/perch-smart-account/src/rules.rs, `edit`, `replace` and `unchanged`: the library's rule after each.
use perch.Common.{
  ℕ, ◌≡◌, refl, sym, ◌∙◌, ap, inl, inr, Address, Bytes32, Val, Bool, true, false, ◌||◌, not, Option,
  some, List, [], ◌∷◌, ◌++◌, ltb, arith, ==_iff, Bool-cases, list_eq→eq, Result, ok, >>=-eq-ok,
  ◌>>=◌,
}
use mathlib.Core.List.{append_assoc}
use mathlib.Core.Path.{subst}
use perch.Account.{
  ContextRuleType, InstalledRule, InstalledPolicy, context_eq, policy_eq, same_slot,
}
use perch.Account.Effects.{Panic, Effects, Oz, Apply, applied}
use perch.Account.Reconcile.{
  has_policy, all_in, unchanged, removals, additions, fresh_of, stale_of, is_empty, remove_each,
  add_each, edit_fresh_first, kept, is_editable, edit_in_order, edit,
}
use perch.Account.Slot.{
  kept_policies, new_policies, AddressesDiffer, without_all, has_policy-append,
  keep-AddressesDiffer, policy_eq_iff,
}
use perch.Account.Additions.{
  entries, fresh_of-entries, fresh_of-Apart, has_policy-fresh_of, has_policy-new_policies,
}
use perch.Account.Edits.{ledger_eq→eq, append-AddressesDiffer, empty_eq}
use perch.Account.Library.{Content, Laws, Cached, Goes-then}
use perch.Account.Performed.{
  SamePolicies, append-same, To, Becomes, remove_each-To, add_each-To, set_expiry-To, left-same,
  signers_first-Becomes, policies_first-Becomes,
}

context_eq→eq : (a b : ContextRuleType) → context_eq a b ≡ true → a ≡ b
context_eq→eq (ContextRuleType.call_contract a) (ContextRuleType.call_contract b) h =
    ap ContextRuleType.call_contract ((==_iff a b).0 h)
context_eq→eq (ContextRuleType.other_context a) (ContextRuleType.other_context b) h =
    ap ContextRuleType.other_context ((==_iff a b).0 h)
context_eq→eq (ContextRuleType.call_contract a) (ContextRuleType.other_context b) h = absurd cc
context_eq→eq (ContextRuleType.other_context a) (ContextRuleType.call_contract b) h = absurd cc

pub same_slot-context :
    (c d : InstalledRule) → same_slot c d ≡ true → c.context_type ≡ d.context_type
unfolding same_slot
same_slot-context c d h = context_eq→eq c.context_type d.context_type (ground (arith, h))

all_in-has :
    (ps qs : List InstalledPolicy) (p : InstalledPolicy)
    → all_in ps qs ≡ true
    → has_policy qs p ≡ true
    → has_policy ps p ≡ true
unfolding all_in has_policy
all_in-has ps [] p h k = absurd cc
all_in-has ps (q ∷ qs) p h k = elim (Bool-cases (policy_eq q p)) [
  | inl t ↦ ap (has_policy ps) (sym (policy_eq_iff q p t)) ∙ ground (arith, h)
  | inr n ↦ all_in-has ps qs p (ground (arith, h)) (ground (arith, k, n))
]

-- Two tests that imply each other are one.
both_ways : (a b : Bool) → (a ≡ true → b ≡ true) → (b ≡ true → a ≡ true) → a ≡ b
both_ways true b f g = sym (f refl)
both_ways false true f g = g refl
both_ways false false f g = refl

pub unchanged-same :
    (c d : InstalledRule)
    → unchanged c d ≡ true
    → (c.signers ≡ d.signers) × (c.valid_until ≡ d.valid_until) × SamePolicies c.policies d.policies
unfolding unchanged
unchanged-same c d h = (
  list_eq→eq c.signers d.signers (ground (arith, h)),
  ledger_eq→eq c.valid_until d.valid_until (ground (arith, h)),
  λ p.
      both_ways (has_policy c.policies p) (has_policy d.policies p)
        (all_in-has d.policies c.policies p (ground (arith, h)))
        (all_in-has c.policies d.policies p (ground (arith, h))),
)

-- Whether a rule is edited does not depend on what performs it.
pub edit-is_editable :
    {S : Type 0} (fx : Effects S) (max_policies : ℕ) (c d : InstalledRule) (params : List Val)
    (s s' : S) (adds : List (Address × Val))
    → additions c.policies d.policies params ≡ ok adds
    → edit fx max_policies c d params s ≡ ok (s', true)
    → is_editable max_policies c d (removals c.policies d.policies) (fresh_of c.policies adds)
      ≡ true
unfolding edit
edit-is_editable fx max_policies c d params s s' adds e h =
    elim (Bool-cases
      (is_editable max_policies c d (removals c.policies d.policies) (fresh_of c.policies adds))) [
        | inl t ↦ t
        | inr n ↦
            let k : ◌≡◌ {A = Result Panic (_ × Bool)} (ok (s, false)) (ok (s', true)) =
              rw (e, n) at h in
            absurd cc
      ]

module _ {O : Type 0} {oz : Oz O} {digest : Val → Bytes32} {rule_at : O → ℕ → Option Content}
    {names : O → ℕ → Option Address} (laws : Laws oz digest rule_at names) (max_policies : ℕ)
    (c d : InstalledRule) (x x' : Apply O) (k : Content) (at : rule_at x.account c.id ≡ some k)
    (same_signers : k.signers ≡ c.signers) (same_until : k.valid_until ≡ c.valid_until)
    (same : SamePolicies k.policies c.policies) (differ : AddressesDiffer c.policies)
    (ds_differ : AddressesDiffer d.policies) (r : Cached laws x.account x.rule) where
  module _ (adds : List (Address × Val))
      (news : entries digest adds ≡ new_policies c.policies d.policies) where
    abbrev removes : List Address
    removes = removals c.policies d.policies

    fresh_first-Becomes :
        c.signers ≡ d.signers
        → edit_fresh_first (applied oz) c d removes adds (fresh_of c.policies adds) x ≡ ok x'
        → Becomes laws c d k x x'
    unfolding edit_fresh_first
    fresh_first-Becomes one h =
        let fresh = fresh_of c.policies adds in
        let stale = stale_of fresh adds in
        let fs = entries digest fresh in
        let ss = entries digest stale in
        let (x₁, e₁, h₁) = >>=-eq-ok (add_each (applied oz) c fresh x) _ h in
        let (x₂, e₂, h₂) = >>=-eq-ok (remove_each (applied oz) c removes x₁) _ h₁ in
        let (x₃, e₃, h₃) = >>=-eq-ok (add_each (applied oz) c stale x₂) _ h₂ in
        let g₁ = add_each-To laws c fresh x x₁ k at r e₁ in
        let g₂ = remove_each-To laws c removes x₁ x₂ _ g₁.changes.here g₁.reading e₂ in
        let g₃ = add_each-To laws c stale x₂ x₃ _ g₂.changes.here g₂.reading e₃ in
        let g₄ = set_expiry-To laws c d x₃ x' _ g₃.changes.here same_until g₃.reading h₃ in
        let ds : AddressesDiffer (entries digest adds) =
          rw news
            (keep-AddressesDiffer (λ p. not (has_policy c.policies p)) d.policies ds_differ) in
        let df : AddressesDiffer fs =
          rw (fresh_of-entries digest c.policies adds)
            (keep-AddressesDiffer _ (entries digest adds) ds) in
        let whole =
          append-AddressesDiffer c.policies fs differ df (fresh_of-Apart digest c.policies adds) in
        let stay = kept_policies c.policies d.policies in
        let left =
          left-same laws c d adds x x' k at same_signers same_until same differ ds_differ news r fs
            whole in
        let q = same_signers ∙ one in
        (
          without_all removes (k.policies ++ fs) ++ ss,
          λ p.
              append-same (without_all removes (k.policies ++ fs)) (stay ++ fs) ss left p
              ∙ (ap (λ es. has_policy es p) (append_assoc stay fs ss)
                  ∙ (has_policy-append stay (fs ++ ss) p
                      ∙ (ap (λ b. has_policy stay p || b)
                            (has_policy-fresh_of digest c.policies adds p
                              ∙ ap (λ es. has_policy es p) news)
                          ∙ (sym (has_policy-append stay (new_policies c.policies d.policies) p)
                              ∙ has_policy-new_policies c.policies d.policies p)))),
          subst
              (λ signers. To laws c x x' (record k {
                signers = signers;
                valid_until = d.valid_until;
                policies = without_all removes (k.policies ++ fs) ++ ss;
              }))
              q
              (Goes-then laws x x₁ x' c.id _ _ g₁
                (Goes-then laws x₁ x₂ x' c.id _ _ g₂ (Goes-then laws x₂ x₃ x' c.id _ _ g₃ g₄))),
        )

    in_order-Becomes :
        is_editable max_policies c d removes (fresh_of c.policies adds) ≡ true
        → edit_in_order (applied oz) c d removes adds (fresh_of c.policies adds) x ≡ ok x'
        → Becomes laws c d k x x'
    unfolding edit_in_order
    in_order-Becomes e h = elim (Bool-cases (is_empty d.signers)) [
      | inr n ↦
          signers_first-Becomes laws c d adds x x' k at same_signers same_until same differ
            ds_differ news r (rw n at h)
      | inl t ↦ elim (Bool-cases (not (is_empty c.signers) || ltb 0 (kept c d removes))) [
        | inl u ↦
            policies_first-Becomes laws c d adds x x' k at same_signers same_until same differ
              ds_differ news r (rw (t, u) at h)
        | inr m ↦
            fresh_first-Becomes (empty_eq c.signers d.signers (ground (arith, m)) t)
              (rw (t, m) at h)
      ]
    ]

  -- What an edit that goes through makes of the rule.
  pub edit-Becomes :
      (params : List Val) (done : Bool) (adds : List (Address × Val))
      → additions c.policies d.policies params ≡ ok adds
      → entries digest adds ≡ new_policies c.policies d.policies
      → is_editable max_policies c d (removals c.policies d.policies) (fresh_of c.policies adds)
        ≡ true
      → edit (applied oz) max_policies c d params x ≡ ok (x', done)
      → Becomes laws c d k x x'
  unfolding edit
  edit-Becomes params done adds e news t h =
      let h' : (edit_in_order (applied oz) c d (removals c.policies d.policies) adds
              (fresh_of c.policies adds) x
            >>= λ s'. ok (s', true))
          ≡ ok (x', done) =
        rw (e, t) at h in
      let (y, ey, q) =
        >>=-eq-ok
          (edit_in_order (applied oz) c d (removals c.policies d.policies) adds
            (fresh_of c.policies adds) x)
          _ h' in
      let z : y ≡ x' = cc in in_order-Becomes adds news t (rw z at ey)
