-- ===== src/Account/EditTests.antt =====
-- An edit that is performed through the smart account library, on a library that holds one rule.
use perch.Common.{
  ℕ, ◌≡◌, refl, Address, true, false, Option, none, some, List, [], ◌∷◌, ◌++◌, length, contains,
  ltb, if◌then◌else◌, ok, err, map,
}
use perch.Account.{InstalledPolicy, InstalledRule}
use perch.Account.Effects.{panic, Oz, Apply, ContextRule, applied, missing}
use perch.Account.Reconcile.{
  has_policy, has_address, edit, additions, removals, fresh_of, no_changes,
}
use perch.Account.Slot.{without, Leaves}
use perch.Account.Additions.{entry}
use perch.Account.Edits.{occupied}
use perch.Account.Tests.{old_rule, digest}

-- The rule's signers, policies and expiry. A call that would leave no valid rule panics.
abbrev Held : Type 0
Held = List ℕ × (List InstalledPolicy × Option ℕ)

abbrev addresses : List InstalledPolicy → List Address
addresses ps = map (λ (p : InstalledPolicy). p.policy) ps

-- A policy's registered id is its address.
abbrev library : Oz Held
library = record {
  reconcile_signers_no_events =
      λ id signers (a, (b, t)). if occupied signers b then ok (signers, (b, t)) else err panic;
  add_policy_no_events = λ id p v (a, (b, t)).
      if has_address b p
      then err panic
      else if ltb (length b) 5
      then ok (a, (b ++ entry digest p v ∷ [], t))
      else err panic;
  remove_policy_no_events = λ id p (a, (b, t)).
      if has_address b p
      then (if occupied a (without p b) then ok (a, (without p b, t)) else err panic)
      else err panic;
  update_valid_until_no_events = λ id x (a, (b, t)). ok (a, (b, x));
  remove_context_rule_no_events = λ id o. err panic;
  add_context_rule_no_events = λ context name t ss ps o. err panic;
  get_context_rule = λ id (a, (b, t)).
      ok (record { rule_id = id; policies = addresses b; policy_ids = addresses b });
}

module _ (c d : InstalledRule) where
  -- The rule that was read first, if any, still lists each policy that has yet to leave.
  abbrev Cached : List InstalledPolicy → Option ContextRule → Type 0
  Cached b none = Unit
  Cached b (some r) =
      (r.rule_id ≡ c.id)
      × (r.policy_ids ≡ r.policies)
      × ((p : InstalledPolicy)
          → Leaves c.policies d.policies b p
          → contains r.policies p.policy ≡ true)

  abbrev Has : Apply Held → List ℕ → List InstalledPolicy → Option ℕ → Type 0
  Has x a b t = (x.account ≡ (a, (b, t))) × Cached b x.rule

abbrev before : Apply Held
before = record {
  account = (1 ∷ (2 ∷ []), (record { policy = 50; params = 107 } ∷ [], none));
  sum = no_changes;
  rule = none;
}

-- No order keeps a rule of one policy valid when only its parameters change.
edit_refused :
    edit
      (applied library)
      5
      (record old_rule { signers = [] })
      (record old_rule { signers = []; policies = record { policy = 50; params = 108 } ∷ [] })
      (8 ∷ [])
      before
    ≡ ok (before, false)
unfolding edit additions has_policy missing removals fresh_of
edit_refused = refl
