-- ===== src/Account/Library.antt =====
-- crates/perch-smart-account/src/rules.rs, `impl Effects for Apply`: what its operations do to the rules
-- of the smart account library, whose own behaviour is given by laws.
use perch.Common.{
  ℕ, suc, ◌+◌, ◌≡◌, ◌≢◌, refl, sym, ◌∙◌, ap, inl, inr, Address, Bytes32, Val, Option, none, some,
  List, [], ◌∷◌, ◌++◌, arith, ◌==◌, ==_iff, Bool-cases, Option-cases, get_elem?, Result, ok, ok_or,
  ok_or-ok, >>=-eq-ok, if◌then◌else◌, ◌>>=◌, Str,
}
use perch.Account.{Signer, ContextRuleType, InstalledRule, InstalledPolicy, DeltaSummary}
use perch.Account.Effects.{
  Panic, panic, Oz, Apply, ContextRule, applied, at_account, cached, oz_rule, first_index_of,
}
use perch.Account.Reconcile.{has_policy}
use perch.Account.Slot.{without}
use perch.Account.Additions.{entry, entries}

-- What the library holds of a rule.
pub record Content : Type 0 where
  pub context : ContextRuleType
  pub valid_until : Option ℕ
  pub signers : List Signer
  pub policies : List InstalledPolicy

-- One rule becomes `new`, every other rule stays, and no registered id gets another address.
pub record Changes {O : Type 0} (rule_at : O → ℕ → Option Content) (names : O → ℕ → Option Address)
    (o o' : O) (id : ℕ) (new : Option Content) : Type 0 where
  pub here : rule_at o' id ≡ new
  pub others : (j : ℕ) → j ≢ id → rule_at o' j ≡ rule_at o j
  pub named : (p : ℕ) (a : Address) → names o p ≡ some a → names o' p ≡ some a

-- The library's operations, where they do not panic: each changes the rule of its id as it says, and
-- nothing else; a new rule has an id that no rule has; and a policy's registered id is ever the id of
-- one address.
pub record Laws {O : Type 0} (oz : Oz O) (digest : Val → Bytes32) (rule_at : O → ℕ → Option Content)
    (names : O → ℕ → Option Address) : Type 0 where
  pub signs :
      (id : ℕ) (signers : List Signer) (o o' : O) (k : Content)
      → rule_at o id ≡ some k
      → oz.reconcile_signers_no_events id signers o ≡ ok o'
      → Changes rule_at names o o' id (some (record k { signers = signers }))
  pub adds :
      (id : ℕ) (a : Address) (v : Val) (o o' : O) (k : Content)
      → rule_at o id ≡ some k
      → oz.add_policy_no_events id a v o ≡ ok o'
      → Changes rule_at names o o' id
          (some (record k { policies = k.policies ++ entry digest a v ∷ [] }))
  pub removes :
      (id p : ℕ) (a : Address) (o o' : O) (k : Content)
      → rule_at o id ≡ some k
      → names o p ≡ some a
      → oz.remove_policy_no_events id p o ≡ ok o'
      → Changes rule_at names o o' id (some (record k { policies = without a k.policies }))
  pub expires :
      (id : ℕ) (t : Option ℕ) (o o' : O) (k : Content)
      → rule_at o id ≡ some k
      → oz.update_valid_until_no_events id t o ≡ ok o'
      → Changes rule_at names o o' id (some (record k { valid_until = t }))
  pub removes_rule :
      (id : ℕ) (o o' : O)
      → oz.remove_context_rule_no_events id o ≡ ok o'
      → Changes rule_at names o o' id none
  pub adds_rule :
      (context : ContextRuleType) (name : Str) (t : Option ℕ) (signers : List Signer)
      (ps : List (Address × Val)) (o o' : O) (id : ℕ)
      → oz.add_context_rule_no_events context name t signers ps o ≡ ok (o', id)
      → (rule_at o id ≡ none)
        × (qs : List InstalledPolicy) × Changes rule_at names o o' id
            (some (record { context = context; valid_until = t; signers = signers; policies = qs }))
        × ((p : InstalledPolicy) → has_policy qs p ≡ has_policy (entries digest ps) p)
  pub reads :
      (id : ℕ) (o : O) (r : ContextRule)
      → oz.get_context_rule id o ≡ ok r
      → (i p : ℕ) (a : Address) → get_elem? r.policies i ≡ some a
      → get_elem? r.policy_ids i ≡ some p
      → names o p ≡ some a

first_index_of-at :
    (l : List Address) (a : Address) (i : ℕ) → first_index_of l a ≡ some i → get_elem? l i ≡ some a
unfolding first_index_of
first_index_of-at [] a i h = absurd cc
first_index_of-at (x ∷ l) a i h = elim (Bool-cases (x == a)) [
  | inl t ↦ let q : 0 ≡ i = ground (arith, t, h) in rw (← q) (ap some ((==_iff x a).0 t))
  | inr n ↦ elim (Option-cases (first_index_of l a)) [
    | inl m ↦ absurd (ground (arith, n, h, m))
    | inr (j, e) ↦
        let q : j + 1 ≡ i = ground (arith, n, h, e) in
        let q' : suc j ≡ i = omega (arith, q) in rw (← q') (first_index_of-at l a j e)
  ]
]

module _ {O : Type 0} {oz : Oz O} {digest : Val → Bytes32} {rule_at : O → ℕ → Option Content}
    {names : O → ℕ → Option Address} (laws : Laws oz digest rule_at names) where
  -- The rule that was read, if any, has the registered ids of its addresses.
  abbrev pub Cached : O → Option ContextRule → Type 0
  Cached o none = Unit
  Cached o (some r) =
      (i p : ℕ) (a : Address)
      → get_elem? r.policies i ≡ some a
      → get_elem? r.policy_ids i ≡ some p
      → names o p ≡ some a

  -- A change of the performed state that keeps what it has read valid.
  pub record Goes (x x' : Apply O) (id : ℕ) (new : Option Content) : Type 0 where
    pub changes : Changes rule_at names x.account x'.account id new
    pub reading : Cached x'.account x'.rule

  pub Cached-kept :
      (o o' : O) (c : Option ContextRule)
      → ((p : ℕ) (a : Address) → names o p ≡ some a → names o' p ≡ some a)
      → Cached o c
      → Cached o' c
  Cached-kept o o' none f h = tt
  Cached-kept o o' (some r) f h = λ i p a u v. f p a (h i p a u v)

  pub Goes-refl :
      (x : Apply O) (id : ℕ) (k : Option Content)
      → rule_at x.account id ≡ k
      → Cached x.account x.rule
      → Goes x x id k
  Goes-refl x id k h r = record {
    changes = record { here = h; others = λ j n. refl; named = λ p a e. e };
    reading = r;
  }

  pub Goes-then :
      (x y z : Apply O) (id : ℕ) (k m : Option Content)
      → Goes x y id k
      → Goes y z id m
      → Goes x z id m
  Goes-then x y z id k m f g = record {
    changes = record {
      here = g.changes.here;
      others = λ j n. g.changes.others j n ∙ f.changes.others j n;
      named = λ p a e. g.changes.named p a (f.changes.named p a e);
    };
    reading = g.reading;
  }

  pub at_account-Goes :
      (f : O → Result Panic O) (count : DeltaSummary → DeltaSummary) (x x' : Apply O) (id : ℕ)
      (new : Option Content)
      → ((o : O) → f x.account ≡ ok o → Changes rule_at names x.account o id new)
      → Cached x.account x.rule
      → at_account oz f count x ≡ ok x'
      → Goes x x' id new
  at_account-Goes f count x x' id new law r h =
      let (o, e, q) = >>=-eq-ok (f x.account) _ h in
      let g : record x { account = o; sum = count x.sum } ≡ x' = cc in
      let c = law o e in
      rw (← g) (record { changes = c; reading = Cached-kept x.account o x.rule c.named r })

  oz_rule-ok :
      (id : ℕ) (x y : Apply O) (r : ContextRule)
      → Cached x.account x.rule
      → oz_rule oz id x ≡ ok (y, r)
      → (x.account ≡ y.account) × Cached y.account y.rule × Cached y.account (some r)
  unfolding oz_rule
  oz_rule-ok id x y r c h =
      let (z, e, k) =
        >>=-eq-ok
          (if cached oz x.rule id
            then ok x
            else (oz.get_context_rule id x.account >>= λ r. ok (record x { rule = some r })))
          _ h in
      let (r', e', q) = >>=-eq-ok (ok_or z.rule panic) _ k in
      let zy : z ≡ y = cc in
      let rr : r' ≡ r = cc in
      let held : z.rule ≡ some r = ok_or-ok z.rule panic r' e' ∙ ap some rr in
      let (ez, cz) = read z e in
      let a : x.account ≡ y.account = ez ∙ ap (λ (w : Apply O). w.account) zy in
      let cy : Cached y.account y.rule = rw zy at cz in
      let hy : y.rule ≡ some r = rw zy at held in (a, cy, rw hy at cy)
    where
      read :
          (z : Apply O)
          → (if cached oz x.rule id
              then ok x
              else (oz.get_context_rule id x.account >>= λ r. ok (record x { rule = some r })))
            ≡ ok z
          → (x.account ≡ z.account) × Cached z.account z.rule
      read z e = elim (Bool-cases (cached oz x.rule id)) [
        | inl t ↦ let g : x ≡ z = ground (arith, t, e) in rw (← g) (refl, c)
        | inr n ↦
            let (w, ew, q) =
              >>=-eq-ok (oz.get_context_rule id x.account) (λ r. ok (record x { rule = some r }))
                (rw n at e) in
            let g : record x { rule = some w } ≡ z = cc in
            rw (← g) (refl, laws.reads id x.account w ew)
      ]

  pub remove_policy-Goes :
      (c : InstalledRule) (a : Address) (x x' : Apply O) (k : Content)
      → rule_at x.account c.id ≡ some k
      → Cached x.account x.rule
      → (applied oz).remove_policy c a x ≡ ok x'
      → Goes x x' c.id (some (record k { policies = without a k.policies }))
  unfolding applied
  remove_policy-Goes c a x x' k at r h =
      let ((y, w), ey, k₁) = >>=-eq-ok (oz_rule oz c.id x) _ h in
      let (i, ei, k₂) = >>=-eq-ok (ok_or (first_index_of w.policies a) panic) _ k₁ in
      let (p, ep, k₃) = >>=-eq-ok (ok_or (get_elem? w.policy_ids i) panic) _ k₂ in
      let (same, cy, cw) = oz_rule-ok c.id x y w r ey in
      let named =
        cw i p a (first_index_of-at w.policies a i (ok_or-ok (first_index_of w.policies a) _ i ei))
          (ok_or-ok (get_elem? w.policy_ids i) _ p ep) in
      let at' : rule_at y.account c.id ≡ some k = rw (← same) at in
      let g =
        at_account-Goes (oz.remove_policy_no_events c.id p)
          (λ sum. record sum { policies_removed = sum.policies_removed + 1 }) y x' c.id _
          (λ o e. laws.removes c.id p a y.account o k at' named e) cy k₃ in
      record {
        changes = record {
          here = g.changes.here;
          others = λ j n. g.changes.others j n ∙ ap (λ o. rule_at o j) (sym same);
          named = λ q b e. g.changes.named q b (ap (λ o. names o q) (sym same) ∙ e);
        };
        reading = g.reading;
      }
