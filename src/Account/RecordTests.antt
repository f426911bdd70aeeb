-- ===== src/Account/RecordTests.antt =====
-- A reconciliation that is performed on a library that stores its rules by id.
use perch.Common.{
  ℕ, ◌+◌, Address, Bytes32, Val, Option, none, some, List, [], ◌∷◌, ◌++◌, ltb, update, map,
  if◌then◌else◌, Result, ok, err,
}
use perch.Account.{with_id, InstalledPolicy, InstalledRule, DeltaSummary, desired, admin_rule}
use perch.Account.Effects.{Panic, panic, Oz, ContextRule}
use perch.Account.Reconcile.{reconcile, no_changes}
use perch.Account.Slot.{without}
use perch.Account.Additions.{entry, entries}
use perch.Account.Library.{Content}
use perch.Account.Tests.{e, current, compiled_doc, old_rule, pay, recovery}

record Store : Type 0 where
  pub store : ℕ → Option Content
  pub next_id : ℕ

-- The rule of an id that was given out.
abbrev rule_at : Store → ℕ → Option Content
rule_at o j = if ltb j o.next_id then o.store j else none

-- A policy's registered id is its address.
abbrev names : Store → ℕ → Option Address
names o p = some p

abbrev digest : Val → Bytes32
digest v = 0

abbrev edited : (Content → Content) → ℕ → Store → Option Content → Result Panic Store
edited f id o none = err panic
edited f id o (some k) = ok (record o { store = update o.store id (some (f k)) })

abbrev removed : ℕ → Store → Option Content → Result Panic Store
removed id o none = err panic
removed id o (some k) = ok (record o { store = update o.store id none })

abbrev read : ℕ → Option Content → Result Panic ContextRule
read id none = err panic
read id (some k) =
    let addresses = map (λ (p : InstalledPolicy). p.policy) k.policies in
    ok (record { rule_id = id; policies = addresses; policy_ids = addresses })

abbrev library : Oz Store
library = record {
  reconcile_signers_no_events =
      λ id ss o. edited (λ k. record k { signers = ss }) id o (rule_at o id);
  add_policy_no_events = λ id a v o.
      edited (λ k. record k { policies = k.policies ++ entry digest a v ∷ [] }) id o (rule_at o id);
  remove_policy_no_events =
      λ id p o. edited (λ k. record k { policies = without p k.policies }) id o (rule_at o id);
  update_valid_until_no_events =
      λ id t o. edited (λ k. record k { valid_until = t }) id o (rule_at o id);
  remove_context_rule_no_events = λ id o. removed id o (rule_at o id);
  add_context_rule_no_events = λ c n t ss ps o. ok (
    record {
      store = update o.store o.next_id (
          some
            (record { context = c; valid_until = t; signers = ss; policies = entries digest ps }));
      next_id = o.next_id + 1;
    },
    o.next_id,
  );
  get_context_rule = λ id o. read id (rule_at o id);
}

abbrev held : InstalledRule → Option Content
held r = some (record {
  context = r.context_type;
  valid_until = r.valid_until;
  signers = r.signers;
  policies = r.policies;
})

abbrev first_store : Store
first_store = record {
  store = update (update (λ j. none) 6 (held (admin_rule e 6 (1 ∷ [])))) 3 (held old_rule);
  next_id = 30;
}

abbrev performed : Result Panic (Store × (List InstalledRule × DeltaSummary))
performed = reconcile library e 5 current (desired e compiled_doc) first_store

abbrev outcome :
    Result Panic (Store × (List InstalledRule × DeltaSummary))
    → Store × (List InstalledRule × DeltaSummary)
outcome (ok r) = r
outcome (err p) = (first_store, ([], no_changes))

-- A fact of each rule of a list.
abbrev AllOf : (InstalledRule → Type 0) → List InstalledRule → Type 0
AllOf P [] = Unit
AllOf P (r ∷ rs) = P r × AllOf P rs

abbrev wanted_admin : InstalledRule
wanted_admin = admin_rule e 0 (1 ∷ [])

abbrev wanted_pay : InstalledRule
wanted_pay = with_id pay 0

abbrev wanted_recovery : InstalledRule
wanted_recovery = with_id recovery 0
