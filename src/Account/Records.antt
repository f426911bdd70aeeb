-- ===== src/Account/Records.antt =====
-- crates/perch-smart-account/src/rules.rs, `reconcile`: the library's rules and the records afterwards.
use perch.Common.{ℕ, ◌≡◌, ◌≢◌, ◌⊎◌, Address, Bytes32, Val, false, Option, some, List, [], ◌∷◌}
use perch.Account.{InstalledRule, Host, with_id}
use perch.Account.Effects.{Oz, Apply}
use perch.Account.Reconcile.{is_wanted}
use perch.Account.Slot.{AddressesDiffer}
use perch.Account.Additions.{Aligned}
use perch.Account.Library.{Content, Laws, Cached}
use perch.Account.Slots.{Member, rules_of}
use perch.Account.Settled.{Holds, Untouched}

-- The library holds each record, whose policies are at different addresses.
abbrev pub AllInstalled : {O : Type 0} → (O → ℕ → Option Content) → O → List InstalledRule → Type 0
AllInstalled rule_at o cs =
    (c : InstalledRule) → Member c cs → Holds rule_at o c × AddressesDiffer c.policies

-- The policies of each desired rule are at different addresses, with their parameters.
abbrev pub WellGiven : (Val → Bytes32) → List (InstalledRule × List Val) → Type 0
WellGiven digest [] = Unit
WellGiven digest ((d, p) ∷ ds) =
    AddressesDiffer d.policies × Aligned digest d.policies p × WellGiven digest ds

-- One record for each desired rule, in order: the rule under an id, which the library holds.
abbrev pub AllRecorded :
    {O : Type 0}
    → (O → ℕ → Option Content)
    → O
    → List (InstalledRule × List Val)
    → List InstalledRule
    → Type 0
AllRecorded rule_at o [] [] = Unit
AllRecorded rule_at o ((d, p) ∷ ds) (r ∷ rs) =
    (r ≡ with_id d r.id) × Holds rule_at o r × AllRecorded rule_at o ds rs
AllRecorded rule_at o _ _ = ⊥

abbrev pub HasId : List InstalledRule → ℕ → Type 0
HasId [] j = ⊥
HasId (r ∷ rs) j = (r.id ≡ j) ⊎ HasId rs j

module _ {O : Type 0} {oz : Oz O} {digest : Val → Bytes32} {rule_at : O → ℕ → Option Content}
    {names : O → ℕ → Option Address} (laws : Laws oz digest rule_at names) (e : Host)
    (max_policies : ℕ) (current : List InstalledRule) where
  abbrev AllUntouched : List (InstalledRule × List Val) → ℕ → Type 0
  AllUntouched ds j = (d : InstalledRule) → Member d (rules_of ds) → Untouched current d j

  -- The desired rules are recorded and held, and every rule but those of their slots is as it was.
  record SettlesAll (ds : List (InstalledRule × List Val)) (x x' : Apply O)
      (rs : List InstalledRule) : Type 0 where
    pub recorded : AllRecorded rule_at x'.account ds rs
    pub kept :
        (j : ℕ) (k : Content)
        → rule_at x.account j ≡ some k
        → AllUntouched ds j
        → rule_at x'.account j ≡ some k
    pub only :
        (j : ℕ) (k : Content)
        → rule_at x'.account j ≡ some k
        → HasId rs j ⊎ ((rule_at x.account j ≡ some k) × AllUntouched ds j)

  abbrev Unwanted : List (InstalledRule × List Val) → List InstalledRule → ℕ → Type 0
  Unwanted desired cs j = (c : InstalledRule) → Member c cs → is_wanted desired c ≡ false → c.id ≢ j

  -- Only the unwanted rules are gone.
  record Clears (desired : List (InstalledRule × List Val)) (cs : List InstalledRule)
      (x x' : Apply O) : Type 0 where
    pub kept :
        (j : ℕ) (k : Content)
        → rule_at x.account j ≡ some k
        → Unwanted desired cs j
        → rule_at x'.account j ≡ some k
    pub only :
        (j : ℕ) (k : Content)
        → rule_at x'.account j ≡ some k
        → (rule_at x.account j ≡ some k) × Unwanted desired cs j
    pub reading : Cached laws x'.account x'.rule
