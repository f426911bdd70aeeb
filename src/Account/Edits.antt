-- ===== src/Account/Edits.antt =====
-- crates/perch-smart-account/src/rules.rs: an in-place edit through any implementor of the operations that
-- performs each one whose result is a valid rule.
use perch.Common.{
  ℕ, ◌+◌, ◌≤◌, ◌<◌, ◌≡◌, refl, ap, ◌⊎◌, Address, Bytes32, Val, Bool, true, false, ◌||◌, not, List,
  [], ◌∷◌, ◌++◌, length, Option, none, some, arith, ==_iff, ok,
}
use perch.Account.{InstalledPolicy, InstalledRule, ledger_eq}
use perch.Account.Effects.{Effects}
use perch.Account.Reconcile.{has_policy, has_address, removals, fresh_of, stale_of, is_empty}
use perch.Account.Slot.{
  kept_policies, new_policies, without, Leaves, AddressesDiffer, Apart, has_address-append,
}
use perch.Account.Additions.{entries, fresh_policies}

-- A rule with a signer or a policy.
abbrev pub occupied : List ℕ → List InstalledPolicy → Bool
occupied signers policies = not (is_empty signers) || not (is_empty policies)

-- The implementor performs, on the rule `c` that is edited into `d`, each operation whose result is
-- a valid rule: it adds what only `d` has and removes what only `c` has, with their parameters. `Has`
-- says what signers, policies and expiry the rule has in a state.
pub record Performs (S : Type 0) (fx : Effects S) (c d : InstalledRule) (digest : Val → Bytes32)
    (max_policies : ℕ) (Has : S → List ℕ → List InstalledPolicy → Option ℕ → Type 0) : Type 0 where
  pub reconciles :
      (s : S) (signers : List ℕ) (policies : List InstalledPolicy) (expiry : Option ℕ)
      → Has s signers policies expiry
      → occupied d.signers policies ≡ true
      → (s' : S) × (fx.reconcile_signers c d.signers s ≡ ok s') × Has s' d.signers policies expiry
  pub adds :
      (s : S) (signers : List ℕ) (policies : List InstalledPolicy) (expiry : Option ℕ) (a : Address)
      (v : Val)
      → Has s signers policies expiry
      → has_address policies a ≡ false
      → length policies < max_policies
      → has_policy d.policies (record { policy = a; params = digest v }) ≡ true
      → has_policy c.policies (record { policy = a; params = digest v }) ≡ false
      → (s' : S) × (fx.add_policy c a v s ≡ ok s')
        × Has s' signers (policies ++ record { policy = a; params = digest v } ∷ []) expiry
  pub removes :
      (s : S) (signers : List ℕ) (policies : List InstalledPolicy) (expiry : Option ℕ)
      (p : InstalledPolicy)
      → Has s signers policies expiry
      → Leaves c.policies d.policies policies p
      → occupied signers (without p.policy policies) ≡ true
      → (s' : S) × (fx.remove_policy c p.policy s ≡ ok s')
        × Has s' signers (without p.policy policies) expiry
  pub expires :
      (s : S) (signers : List ℕ) (policies : List InstalledPolicy) (expiry : Option ℕ)
      → Has s signers policies expiry
      → (s' : S) × (fx.set_valid_until c d.valid_until s ≡ ok s')
        × Has s' signers policies d.valid_until

pub ledger_eq→eq : (a b : Option ℕ) → ledger_eq a b ≡ true → a ≡ b
ledger_eq→eq none none h = refl
ledger_eq→eq none (some b) h = absurd cc
ledger_eq→eq (some a) none h = absurd cc
ledger_eq→eq (some a) (some b) h = ap some ((==_iff a b).0 h)

Apart-cons :
    (p : InstalledPolicy) (ps qs : List InstalledPolicy)
    → Apart (p ∷ ps) qs
    → (has_address qs p.policy ≡ false) × Apart ps qs
Apart-cons p ps [] a = (refl, tt)
Apart-cons p ps (q ∷ qs) (x, a) =
    let (y, b) = Apart-cons p ps qs a in (ground (arith, x, y), (ground (arith, x), b))

pub append-AddressesDiffer :
    (ps qs : List InstalledPolicy)
    → AddressesDiffer ps
    → AddressesDiffer qs
    → Apart ps qs
    → AddressesDiffer (ps ++ qs)
append-AddressesDiffer [] qs d e a = e
append-AddressesDiffer (p ∷ ps) qs (x, d) e a =
    let (y, b) = Apart-cons p ps qs a in
    (ground (arith, x, y, has_address-append ps qs p.policy), append-AddressesDiffer ps qs d e b)

pub empty_eq : (ss ts : List ℕ) → is_empty ss ≡ true → is_empty ts ≡ true → ss ≡ ts
empty_eq [] [] h k = refl
empty_eq [] (t ∷ ts) h k = absurd cc
empty_eq (s ∷ ss) ts h k = absurd cc

module _ {S : Type 0} (fx : Effects S) (c d : InstalledRule) (digest : Val → Bytes32)
    (max_policies : ℕ) (Has : S → List ℕ → List InstalledPolicy → Option ℕ → Type 0)
    (performs : Performs S fx c d digest max_policies Has) where
  -- The rule has the new one's signers and expiry, and its policies in some order.
  abbrev pub Edited : S → Type 0
  Edited s' =
      (ps : List InstalledPolicy) × Has s' d.signers ps d.valid_until
      × ((p : InstalledPolicy) → has_policy ps p ≡ has_policy d.policies p)

  module _ (adds : List (Address × Val)) (s : S) (cs_differ : AddressesDiffer c.policies)
      (ds_differ : AddressesDiffer d.policies) (few : length d.policies ≤ max_policies)
      (whole : occupied d.signers d.policies ≡ true)
      (news : entries digest adds ≡ new_policies c.policies d.policies)
      (has : Has s c.signers c.policies c.valid_until) where
    abbrev removes : List Address
    removes = removals c.policies d.policies

    abbrev stay : List InstalledPolicy
    stay = kept_policies c.policies d.policies

    abbrev fresh : List (Address × Val)
    fresh = fresh_of c.policies adds

    abbrev stale : List (Address × Val)
    stale = stale_of fresh adds

  -- No order of the operations keeps the rule valid: neither rule has a signer, no policy stays, and
  -- no policy at an address that the old rule does not have can come before the others leave.
  abbrev pub NoOrder : Type 0
  NoOrder =
      (is_empty c.signers ≡ true)
      × (is_empty d.signers ≡ true)
      × (kept_policies c.policies d.policies ≡ [])
      × ((fresh_policies c.policies d.policies ≡ [])
          ⊎ (max_policies < length c.policies + length (fresh_policies c.policies d.policies)))
