-- ===== src/Account/Slots.antt =====
-- crates/perch-smart-account/src/rules.rs, `same_slot`: the slots that records and desired rules share.
use perch.Common.{
  ◌≡◌, ◌≢◌, refl, sym, ◌∙◌, ap, ◌⊎◌, inl, inr, Val, Bool, true, false, some, List, [], ◌∷◌, map,
  arith, Bool-cases, list_eq, list_eq→eq, list_eq_self, ==_self,
}
use perch.Account.{ContextRuleType, InstalledRule, context_eq, bool_eq, same_slot}
use perch.Account.Reconcile.{find_slot, is_wanted}
use perch.Account.InPlace.{same_slot-context}

abbrev pub Member : InstalledRule → List InstalledRule → Type 0
Member c [] = ⊥
Member c (x ∷ cs) = (x ≡ c) ⊎ Member c cs

-- The rules of a list have different ids, and fill different slots.
abbrev pub IdsDiffer : List InstalledRule → Type 0
IdsDiffer [] = Unit
IdsDiffer (c ∷ cs) = ((x : InstalledRule) → Member x cs → c.id ≢ x.id) × IdsDiffer cs

abbrev pub SlotsDiffer : List InstalledRule → Type 0
SlotsDiffer [] = Unit
SlotsDiffer (c ∷ cs) = ((x : InstalledRule) → Member x cs → same_slot c x ≡ false) × SlotsDiffer cs

abbrev pub rules_of : List (InstalledRule × List Val) → List InstalledRule
rules_of ds = map (λ (d : InstalledRule × List Val). d.0) ds

bool_eq→eq : (a b : Bool) → bool_eq a b ≡ true → a ≡ b
bool_eq→eq true b h = sym h
bool_eq→eq false true h = absurd cc
bool_eq→eq false false h = refl

bool_eq_self : (a : Bool) → bool_eq a a ≡ true
bool_eq_self true = refl
bool_eq_self false = refl

context_eq_self : (a : ContextRuleType) → context_eq a a ≡ true
context_eq_self (ContextRuleType.call_contract a) = ==_self a
context_eq_self (ContextRuleType.other_context a) = ==_self a

-- What a shared slot is.
abbrev Shares : InstalledRule → InstalledRule → Type 0
Shares a b =
    (a.recovery ≡ b.recovery)
    × ((a.recovery ≡ true) ⊎ (a.name ≡ b.name))
    × (a.context_type ≡ b.context_type)

same_slot-Shares : (a b : InstalledRule) → same_slot a b ≡ true → Shares a b
unfolding same_slot
same_slot-Shares a b h = (
  bool_eq→eq a.recovery b.recovery (ground (arith, h)),
  elim (Bool-cases a.recovery) [
    | inl t ↦ inl t
    | inr n ↦ inr (list_eq→eq a.name b.name (ground (arith, h, n)))
  ],
  same_slot-context a b h,
)

Shares-same_slot : (a b : InstalledRule) → Shares a b → same_slot a b ≡ true
unfolding same_slot
Shares-same_slot a b (e, n, c) =
    let r : bool_eq a.recovery b.recovery ≡ true =
      ap (bool_eq a.recovery) (sym e) ∙ bool_eq_self a.recovery in
    let x : context_eq a.context_type b.context_type ≡ true =
      ap (context_eq a.context_type) (sym c) ∙ context_eq_self a.context_type in
    elim n [
      | inl t ↦ ground (arith, r, x, t)
      | inr m ↦
          let l : list_eq a.name b.name ≡ true =
            ap (list_eq a.name) (sym m) ∙ list_eq_self a.name in
          ground (arith, r, x, l)
    ]

-- Two rules in the slot of a third share one.
pub same_slot-join :
    (a b d : InstalledRule) → same_slot a d ≡ true → same_slot b d ≡ true → same_slot a b ≡ true
same_slot-join a b d h k =
    let (e, n, c) = same_slot-Shares a d h in
    let (f, m, x) = same_slot-Shares b d k in
    Shares-same_slot a b (
      e ∙ sym f,
      elim n [
        | inl t ↦ inl t
        | inr u ↦ elim m [ inl t ↦ inl (e ∙ (sym f ∙ t)) | inr v ↦ inr (u ∙ sym v) ]
      ],
      c ∙ sym x,
    )

pub same_slot-fork :
    (a b d : InstalledRule) → same_slot d a ≡ true → same_slot d b ≡ true → same_slot a b ≡ true
same_slot-fork a b d h k =
    let (e, n, c) = same_slot-Shares d a h in
    let (f, m, x) = same_slot-Shares d b k in
    Shares-same_slot a b (
      sym e ∙ f,
      elim n [
        | inl t ↦ inl (sym e ∙ t)
        | inr u ↦ elim m [ inl t ↦ inl (sym e ∙ t) | inr v ↦ inr (sym u ∙ v) ]
      ],
      sym c ∙ x,
    )

-- What is found is in the list, in the slot.
pub find_slot-Member :
    (cs : List InstalledRule) (d c : InstalledRule)
    → find_slot cs d ≡ some c
    → Member c cs × (same_slot c d ≡ true)
unfolding find_slot
find_slot-Member [] d c h = absurd cc
find_slot-Member (x ∷ cs) d c h = elim (Bool-cases (same_slot x d)) [
  | inl t ↦ let q : x ≡ c = ground (arith, t, h) in (inl q, ap (λ y. same_slot y d) (sym q) ∙ t)
  | inr n ↦ let (m, s) = find_slot-Member cs d c (ground (arith, n, h)) in (inr m, s)
]

-- A record of the slot is found, when the slots differ.
pub find_slot-found :
    (cs : List InstalledRule) (c d : InstalledRule)
    → SlotsDiffer cs
    → Member c cs
    → same_slot c d ≡ true
    → find_slot cs d ≡ some c
unfolding find_slot
find_slot-found [] c d h m s = absurd m
find_slot-found (x ∷ cs) c d (f, h) (inl e) s =
    let t : same_slot x d ≡ true = ap (λ y. same_slot y d) e ∙ s in rw t (ap some e)
find_slot-found (x ∷ cs) c d (f, h) (inr m) s = elim (Bool-cases (same_slot x d)) [
  | inl t ↦ absurd (ground (arith, f c m, same_slot-join x c d t s))
  | inr n ↦ rw n (find_slot-found cs c d h m s)
]

pub one_id :
    (cs : List InstalledRule) (a b : InstalledRule)
    → IdsDiffer cs
    → Member a cs
    → Member b cs
    → a.id ≡ b.id
    → a ≡ b
one_id [] a b h m n e = absurd m
one_id (x ∷ cs) a b (f, h) (inl p) (inl q) e = sym p ∙ q
one_id (x ∷ cs) a b (f, h) (inl p) (inr n) e =
    absurd (f b n (ap (λ (y : InstalledRule). y.id) p ∙ e))
one_id (x ∷ cs) a b (f, h) (inr m) (inl q) e =
    absurd (f a m (ap (λ (y : InstalledRule). y.id) q ∙ sym e))
one_id (x ∷ cs) a b (f, h) (inr m) (inr n) e = one_id cs a b h m n e

pub is_wanted-slot :
    (ds : List (InstalledRule × List Val)) (c : InstalledRule)
    → is_wanted ds c ≡ true
    → (d : InstalledRule) × Member d (rules_of ds) × (same_slot c d ≡ true)
unfolding is_wanted
is_wanted-slot [] c h = absurd cc
is_wanted-slot ((d, p) ∷ ds) c h = elim (Bool-cases (same_slot c d)) [
  | inl t ↦ (d, inl refl, t)
  | inr n ↦ let (x, m, s) = is_wanted-slot ds c (ground (arith, n, h)) in (x, inr m, s)
]

pub slot-is_wanted :
    (ds : List (InstalledRule × List Val)) (c d : InstalledRule)
    → Member d (rules_of ds)
    → same_slot c d ≡ true
    → is_wanted ds c ≡ true
unfolding is_wanted
slot-is_wanted [] c d m s = absurd m
slot-is_wanted ((x, p) ∷ ds) c d (inl e) s =
    let t : same_slot c x ≡ true = ap (same_slot c) e ∙ s in ground (arith, t)
slot-is_wanted ((x, p) ∷ ds) c d (inr m) s = ground (arith, slot-is_wanted ds c d m s)

-- Different desired rules find records of different ids.
pub find_slot-apart :
    (cs : List InstalledRule) (a b c x : InstalledRule)
    → IdsDiffer cs
    → same_slot a b ≡ false
    → find_slot cs a ≡ some c
    → find_slot cs b ≡ some x
    → c.id ≢ x.id
find_slot-apart cs a b c x ids n h k e =
    let (m, s) = find_slot-Member cs a c h in
    let (l, t) = find_slot-Member cs b x k in
    let q : x ≡ c = one_id cs x c ids l m (sym e) in
    let t' : same_slot c b ≡ true = ap (λ y. same_slot y b) (sym q) ∙ t in
    absurd (ground (arith, n, same_slot-fork a b c s t'))
