-- ===== src/Account/Performed.antt =====
-- crates/perch-smart-account/src/rules.rs: what an edit and a replacement make of a rule that the smart
-- account library holds.
use perch.Common.{
  ℕ, ◌+◌, ◌≡◌, refl, sym, ◌∙◌, ap, inl, inr, Address, Bytes32, Val, ◌&&◌, not, Option, some, List,
  [], ◌∷◌, ◌++◌, length, arith, ◌==◌, Bool-cases, list_eq, list_eq→eq, ok, >>=-eq-ok,
}
use mathlib.Core.List.{append_assoc, append-nil}
use mathlib.Core.Path.{subst}
use perch.Account.{InstalledRule, InstalledPolicy, ledger_eq, policy_eq}
use perch.Account.Effects.{Oz, Apply, applied, missing}
use perch.Account.Reconcile.{
  has_policy, removals, remove_each, add_each, swap_signers, set_expiry, edit_signers_first,
  edit_policies_first,
}
use perch.Account.Slot.{
  kept_policies, new_policies, without, without_all, AddressesDiffer, has_policy-append,
  removals-Removable, policy_eq_iff,
}
use perch.Account.Additions.{entry, entries, has_policy-new_policies, Within-self}
use perch.Account.Edits.{ledger_eq→eq}
use perch.Account.Library.{
  Content, Laws, Cached, Goes, Goes-refl, Goes-then, at_account-Goes, remove_policy-Goes,
}

-- The same policies, in any order.
abbrev pub SamePolicies : List InstalledPolicy → List InstalledPolicy → Type 0
SamePolicies ps qs = (p : InstalledPolicy) → has_policy ps p ≡ has_policy qs p

has_policy-without :
    (a : Address) (ps : List InstalledPolicy) (p : InstalledPolicy)
    → has_policy (without a ps) p ≡ (has_policy ps p && not (p.policy == a))
unfolding has_policy
has_policy-without a [] p = refl
has_policy-without a (x ∷ ps) p = elim (Bool-cases (policy_eq x p)) [
  | inl t ↦
      let e : x.policy ≡ p.policy = ap (λ (q : InstalledPolicy). q.policy) (policy_eq_iff x p t) in
      ground (arith, t, ap (λ b. b == a) e, has_policy-without a ps p)
  | inr n ↦ ground (arith, n, has_policy-without a ps p)
]

-- What is left depends only on what was there.
without_all-same :
    (rs : List Address) (ps qs : List InstalledPolicy)
    → SamePolicies ps qs
    → SamePolicies (without_all rs ps) (without_all rs qs)
without_all-same [] ps qs h = h
without_all-same (a ∷ rs) ps qs h =
    without_all-same rs (without a ps) (without a qs)
      (λ p. ground (arith, h p, has_policy-without a ps p, has_policy-without a qs p))

pub append-same :
    (ps qs es : List InstalledPolicy) → SamePolicies ps qs → SamePolicies (ps ++ es) (qs ++ es)
append-same ps qs es h p = ground (arith, h p, has_policy-append ps es p, has_policy-append qs es p)

module _ {O : Type 0} {oz : Oz O} {digest : Val → Bytes32} {rule_at : O → ℕ → Option Content}
    {names : O → ℕ → Option Address} (laws : Laws oz digest rule_at names) (c : InstalledRule) where
  -- An operation on `c` that ends with its rule as `new`.
  abbrev pub To : Apply O → Apply O → Content → Type 0
  To x x' new = Goes laws x x' c.id (some new)

  pub remove_each-To :
      (rs : List Address) (x x' : Apply O) (k : Content)
      → rule_at x.account c.id ≡ some k
      → Cached laws x.account x.rule
      → remove_each (applied oz) c rs x ≡ ok x'
      → To x x' (record k { policies = without_all rs k.policies })
  unfolding remove_each
  remove_each-To [] x x' k at r h =
      let e : x ≡ x' = cc in rw (← e) (Goes-refl laws x c.id (some k) at r)
  remove_each-To (a ∷ rs) x x' k at r h =
      let (y, e, q) = >>=-eq-ok ((applied oz).remove_policy c a x) _ h in
      let g = remove_policy-Goes laws c a x y k at r e in
      Goes-then laws x y x' c.id _ _ g (
        remove_each-To rs y x' (record k { policies = without a k.policies }) g.changes.here
          g.reading q)

  add_policy-To :
      (a : Address) (v : Val) (x x' : Apply O) (k : Content)
      → rule_at x.account c.id ≡ some k
      → Cached laws x.account x.rule
      → (applied oz).add_policy c a v x ≡ ok x'
      → To x x' (record k { policies = k.policies ++ entry digest a v ∷ [] })
  unfolding applied
  add_policy-To a v x x' k at r h =
      at_account-Goes laws (oz.add_policy_no_events c.id a v)
        (λ sum. record sum { policies_added = sum.policies_added + 1 }) x x' c.id _
        (λ o e. laws.adds c.id a v x.account o k at e) r h

  pub add_each-To :
      (adds : List (Address × Val)) (x x' : Apply O) (k : Content)
      → rule_at x.account c.id ≡ some k
      → Cached laws x.account x.rule
      → add_each (applied oz) c adds x ≡ ok x'
      → To x x' (record k { policies = k.policies ++ entries digest adds })
  unfolding add_each
  add_each-To [] x x' k at r h =
      let e : x ≡ x' = cc in
      rw (← e) (
        Goes-refl laws x c.id _
          (at ∙ ap (λ ps. some (record k { policies = ps })) (sym (append-nil k.policies))) r)
  add_each-To ((a, v) ∷ adds) x x' k at r h =
      let (y, e, q) = >>=-eq-ok ((applied oz).add_policy c a v x) _ h in
      let g = add_policy-To a v x y k at r e in
      let p = entry digest a v in
      let rest =
        add_each-To adds y x' (record k { policies = k.policies ++ p ∷ [] }) g.changes.here
          g.reading q in
      subst (λ ps. To x x' (record k { policies = ps }))
        (append_assoc k.policies (p ∷ []) (entries digest adds))
        (Goes-then laws x y x' c.id _ _ g rest)

  swap_signers-To :
      (d : InstalledRule) (x x' : Apply O) (k : Content)
      → rule_at x.account c.id ≡ some k
      → k.signers ≡ c.signers
      → Cached laws x.account x.rule
      → swap_signers (applied oz) c d x ≡ ok x'
      → To x x' (record k { signers = d.signers })
  unfolding swap_signers applied
  swap_signers-To d x x' k at s r h = elim (Bool-cases (list_eq c.signers d.signers)) [
    | inl t ↦
        let e : x ≡ x' = ground (arith, t, h) in
        let q = s ∙ list_eq→eq c.signers d.signers t in
        rw (← e) (Goes-refl laws x c.id _ (at ∙ ap (λ ss. some (record k { signers = ss })) q) r)
    | inr n ↦
        at_account-Goes laws (oz.reconcile_signers_no_events c.id d.signers)
          (λ sum. record sum {
            signers_added = sum.signers_added + length (missing d.signers c.signers);
            signers_removed = sum.signers_removed + length (missing c.signers d.signers);
          })
          x x' c.id _ (λ o e. laws.signs c.id d.signers x.account o k at e) r (rw n at h)
  ]

  pub set_expiry-To :
      (d : InstalledRule) (x x' : Apply O) (k : Content)
      → rule_at x.account c.id ≡ some k
      → k.valid_until ≡ c.valid_until
      → Cached laws x.account x.rule
      → set_expiry (applied oz) c d x ≡ ok x'
      → To x x' (record k { valid_until = d.valid_until })
  unfolding set_expiry applied
  set_expiry-To d x x' k at s r h = elim (Bool-cases (ledger_eq c.valid_until d.valid_until)) [
    | inl t ↦
        let e : x ≡ x' = ground (arith, t, h) in
        let q = s ∙ ledger_eq→eq c.valid_until d.valid_until t in
        rw (← e) (Goes-refl laws x c.id _ (at ∙ ap (λ u. some (record k { valid_until = u })) q) r)
    | inr n ↦
        at_account-Goes laws (oz.update_valid_until_no_events c.id d.valid_until) (λ sum. sum) x x'
          c.id _ (λ o e. laws.expires c.id d.valid_until x.account o k at e) r (rw n at h)
  ]

  -- The rule has the signers, the expiry and, in some order, the policies of `d`.
  abbrev pub Becomes : InstalledRule → Content → Apply O → Apply O → Type 0
  Becomes d k x x' =
      (ps : List InstalledPolicy) × SamePolicies ps d.policies
      × To x x' (record k { signers = d.signers; valid_until = d.valid_until; policies = ps })

  module _ (d : InstalledRule) (adds : List (Address × Val)) (x x' : Apply O) (k : Content)
      (at : rule_at x.account c.id ≡ some k) (same_signers : k.signers ≡ c.signers)
      (same_until : k.valid_until ≡ c.valid_until) (same : SamePolicies k.policies c.policies)
      (differ : AddressesDiffer c.policies) (ds_differ : AddressesDiffer d.policies)
      (news : entries digest adds ≡ new_policies c.policies d.policies)
      (r : Cached laws x.account x.rule) where
    abbrev removes : List Address
    removes = removals c.policies d.policies

    pub left-same :
        (es : List InstalledPolicy)
        → AddressesDiffer (c.policies ++ es)
        → SamePolicies
            (without_all removes (k.policies ++ es))
            (kept_policies c.policies d.policies ++ es)
    left-same es h p =
        without_all-same removes (k.policies ++ es) (c.policies ++ es)
          (append-same k.policies c.policies es same) p
        ∙ ap (λ ps. has_policy ps p)
            (removals-Removable c.policies c.policies d.policies es (Within-self c.policies) h).1

    final-same : SamePolicies (without_all removes k.policies ++ entries digest adds) d.policies
    final-same p =
        let n = append-nil k.policies in
        let m = append-nil c.policies in
        let q = left-same [] (rw m differ) in
        append-same (without_all removes k.policies) (kept_policies c.policies d.policies)
          (entries digest adds)
          (λ p.
            ap (λ ps. has_policy (without_all removes ps) p) (sym n)
            ∙ (q p ∙ ap (λ ps. has_policy ps p) (append-nil (kept_policies c.policies d.policies))))
          p
        ∙ (ap (λ es. has_policy (kept_policies c.policies d.policies ++ es) p) news
            ∙ has_policy-new_policies c.policies d.policies p)

    pub signers_first-Becomes :
        edit_signers_first (applied oz) c d removes adds x ≡ ok x' → Becomes d k x x'
    unfolding edit_signers_first
    signers_first-Becomes h =
        let (x₁, e₁, h₁) = >>=-eq-ok (swap_signers (applied oz) c d x) _ h in
        let (x₂, e₂, h₂) = >>=-eq-ok (remove_each (applied oz) c removes x₁) _ h₁ in
        let (x₃, e₃, h₃) = >>=-eq-ok (add_each (applied oz) c adds x₂) _ h₂ in
        let g₁ = swap_signers-To d x x₁ k at same_signers r e₁ in
        let g₂ = remove_each-To removes x₁ x₂ _ g₁.changes.here g₁.reading e₂ in
        let g₃ = add_each-To adds x₂ x₃ _ g₂.changes.here g₂.reading e₃ in
        let g₄ = set_expiry-To d x₃ x' _ g₃.changes.here same_until g₃.reading h₃ in
        (
          without_all removes k.policies ++ entries digest adds,
          final-same,
          Goes-then laws x x₁ x' c.id _ _ g₁
              (Goes-then laws x₁ x₂ x' c.id _ _ g₂ (Goes-then laws x₂ x₃ x' c.id _ _ g₃ g₄)),
        )

    pub policies_first-Becomes :
        edit_policies_first (applied oz) c d removes adds x ≡ ok x' → Becomes d k x x'
    unfolding edit_policies_first
    policies_first-Becomes h =
        let (x₁, e₁, h₁) = >>=-eq-ok (remove_each (applied oz) c removes x) _ h in
        let (x₂, e₂, h₂) = >>=-eq-ok (add_each (applied oz) c adds x₁) _ h₁ in
        let (x₃, e₃, h₃) = >>=-eq-ok (swap_signers (applied oz) c d x₂) _ h₂ in
        let g₁ = remove_each-To removes x x₁ k at r e₁ in
        let g₂ = add_each-To adds x₁ x₂ _ g₁.changes.here g₁.reading e₂ in
        let g₃ = swap_signers-To d x₂ x₃ _ g₂.changes.here same_signers g₂.reading e₃ in
        let g₄ = set_expiry-To d x₃ x' _ g₃.changes.here same_until g₃.reading h₃ in
        (
          without_all removes k.policies ++ entries digest adds,
          final-same,
          Goes-then laws x x₁ x' c.id _ _ g₁
              (Goes-then laws x₁ x₂ x' c.id _ _ g₂ (Goes-then laws x₂ x₃ x' c.id _ _ g₃ g₄)),
        )
