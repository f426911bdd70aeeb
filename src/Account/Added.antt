-- ===== src/Account/Added.antt =====
-- crates/perch-smart-account/src/rules.rs: what adding and replacing a rule make of the library's rules.
use perch.Common.{
  ℕ, ◌+◌, ◌≡◌, refl, sym, ◌∙◌, ap, Address, Bytes32, Val, false, Option, none, some, List, [], ◌∷◌,
  ◌++◌, arith, ◌==◌, ok, >>=-eq-ok,
}
use mathlib.Core.List.{append_assoc, append-nil}
use mathlib.Core.Path.{subst}
use perch.Account.{InstalledRule, InstalledPolicy}
use perch.Account.Effects.{Oz, Apply, applied, policy_map, map_set}
use perch.Account.Reconcile.{has_policy, has_address, has_key}
use perch.Account.Slot.{AddressesDiffer, Apart, has_address-append}
use perch.Account.Additions.{Aligned, entry, entries, has_key-entries}
use perch.Account.Library.{Content, Laws, Cached, Cached-kept, Goes, at_account-Goes}
use perch.Account.Performed.{SamePolicies}

map_set-absent :
    (acc : List (Address × Val)) (a : Address) (v : Val)
    → has_key acc a ≡ false
    → map_set acc a v ≡ acc ++ (a, v) ∷ []
unfolding map_set
map_set-absent [] a v h = refl
map_set-absent ((b, w) ∷ acc) a v h =
    let n : b == a ≡ false = ground (arith, h) in
    rw n (ap (λ xs. (b, w) ∷ xs) (map_set-absent acc a v (ground (arith, h))))

==_flip : (a b : ℕ) → (a == b) ≡ (b == a)
==_flip a b = ground arith

Apart-snoc :
    (ps qs : List InstalledPolicy) (p : InstalledPolicy)
    → Apart ps qs
    → has_address qs p.policy ≡ false
    → Apart (ps ++ p ∷ []) qs
Apart-snoc ps [] p a h = tt
Apart-snoc ps (q ∷ qs) p (x, a) h = (
  ground (arith, x, h, has_address-append ps (p ∷ []) q.policy, ==_flip p.policy q.policy),
  Apart-snoc ps qs p a (ground (arith, h)),
)

module _ (digest : Val → Bytes32) where
  entries-append :
      (xs ys : List (Address × Val))
      → entries digest (xs ++ ys) ≡ entries digest xs ++ entries digest ys
  entries-append [] ys = refl
  entries-append ((a, v) ∷ xs) ys = ap (λ ps. entry digest a v ∷ ps) (entries-append xs ys)

  -- The map has the policies with the parameters whose digests they record.
  policy_map-entries :
      (ps : List InstalledPolicy) (vs : List Val) (acc m : List (Address × Val))
      → AddressesDiffer ps
      → Aligned digest ps vs
      → Apart (entries digest acc) ps
      → policy_map ps vs acc ≡ ok m
      → entries digest m ≡ entries digest acc ++ ps
  unfolding policy_map
  policy_map-entries [] vs acc m d al a h =
      let e : acc ≡ m = cc in ap (entries digest) (sym e) ∙ sym (append-nil (entries digest acc))
  policy_map-entries (p ∷ ps) [] acc m d al a h = absurd al
  policy_map-entries (p ∷ ps) (v ∷ vs) acc m (n, d) (al, als) (x, a) h =
      let s = map_set-absent acc p.policy v (has_key-entries digest acc p.policy ∙ x) in
      let g : entry digest p.policy v ≡ p = cc in
      let f : entries digest (acc ++ (p.policy, v) ∷ []) ≡ entries digest acc ++ p ∷ [] =
        entries-append acc ((p.policy, v) ∷ []) ∙ ap (λ q. entries digest acc ++ q ∷ []) g in
      let rest =
        policy_map-entries ps vs (acc ++ (p.policy, v) ∷ []) m d als
          (subst (λ es. Apart es ps) (sym f) (Apart-snoc (entries digest acc) ps p a n))
          (rw s at h) in
      rest ∙ (ap (λ es. es ++ ps) f ∙ append_assoc (entries digest acc) (p ∷ []) ps)

module _ {O : Type 0} {oz : Oz O} {digest : Val → Bytes32} {rule_at : O → ℕ → Option Content}
    {names : O → ℕ → Option Address} (laws : Laws oz digest rule_at names) where
  pub remove_rule-Goes :
      (c : InstalledRule) (x x' : Apply O)
      → Cached laws x.account x.rule
      → (applied oz).remove_rule c x ≡ ok x'
      → Goes laws x x' c.id none
  unfolding applied
  remove_rule-Goes c x x' r h =
      at_account-Goes laws (oz.remove_context_rule_no_events c.id)
        (λ sum. record sum { rules_removed = sum.rules_removed + 1 }) x x' c.id none
        (λ o e. laws.removes_rule c.id x.account o e) r h

  -- A rule is added under an id that no rule had.
  pub add_rule-Goes :
      (d : InstalledRule) (params : List Val) (x x' : Apply O) (id : ℕ)
      → AddressesDiffer d.policies
      → Aligned digest d.policies params
      → Cached laws x.account x.rule
      → (applied oz).add_rule d params x ≡ ok (x', id)
      → (rule_at x.account id ≡ none)
        × (qs : List InstalledPolicy) × Goes laws x x' id (
            some (record {
              context = d.context_type;
              valid_until = d.valid_until;
              signers = d.signers;
              policies = qs;
            }))
        × SamePolicies qs d.policies
  unfolding applied
  add_rule-Goes d params x x' id differ al r h =
      let (m, em, k) = >>=-eq-ok (policy_map d.policies params []) _ h in
      let ((o, id'), eo, q) =
        >>=-eq-ok
          (oz.add_context_rule_no_events d.context_type d.name d.valid_until d.signers m x.account)
          _ k in
      let i : id' ≡ id = cc in
      let xx : record x { account = o; sum = record x.sum { rules_added = x.sum.rules_added + 1 } }
          ≡ x' =
        cc in
      let (vacant, qs, changes, same) =
        laws.adds_rule d.context_type d.name d.valid_until d.signers m x.account o id
          (eo ∙ ap (λ n. ok (o, n)) i) in
      let e =
        policy_map-entries digest d.policies params [] m differ al (none_apart d.policies) em in
      (
        vacant,
        qs,
        subst
            (λ z. Goes laws x z id (
              some (record {
                context = d.context_type;
                valid_until = d.valid_until;
                signers = d.signers;
                policies = qs;
              })))
            xx
            (record {
              changes = changes;
              reading = Cached-kept laws x.account o x.rule changes.named r;
            }),
        λ p. same p ∙ ap (λ ps. has_policy ps p) e,
      )
    where
      none_apart : (ps : List InstalledPolicy) → Apart [] ps
      none_apart [] = tt
      none_apart (p ∷ ps) = (refl, none_apart ps)
