-- ===== src/Account/Effects.antt =====
-- crates/perch-smart-account/src/rules.rs: the operations that reconciliation is made of, priced by the
-- meter and performed through the smart account library.
use perch.Common.{
  ℕ, ◌+◌, ◌-◌, Address, Str, Val, Bool, false, ◌&&◌, ◌||◌, Option, none, some, List, [], ◌∷◌,
  length, contains, ltb, leb, ◌==◌, if◌then◌else◌, update, get_elem?, Result, ok, err, ◌>>=◌, ok_or,
}
use perch.Account.{Signer, ContextRuleType, InstalledPolicy, InstalledRule, DeltaSummary, Host}

pub data Panic : Type 0 where
  panic : Panic

-- The trait, over the state of its implementor.
pub record Effects (S : Type 0) : Type 0 where
  pub reconcile_signers : InstalledRule → List Signer → S → Result Panic S
  pub add_policy : InstalledRule → Address → Val → S → Result Panic S
  pub remove_policy : InstalledRule → Address → S → Result Panic S
  pub set_valid_until : InstalledRule → Option ℕ → S → Result Panic S
  pub remove_rule : InstalledRule → S → Result Panic S
  pub add_rule : InstalledRule → List Val → S → Result Panic (S × ℕ)

-- The elements of `from` that `other` lacks.
unfoldable pub missing : List Signer → List Signer → List Signer
missing [] other = []
missing (s ∷ from) other =
    let rest = missing from other in if contains other s then rest else s ∷ rest

pub record Cost : Type 0 where
  pub events : ℕ
  pub writes : ℕ

-- The derived order.
unfoldable pub cost_le : Cost → Cost → Bool
cost_le a b = ltb a.events b.events || (a.events == b.events && leb a.writes b.writes)

-- How many rules name each signer and each policy; 0 for a missing key, which the code reads as 0.
pub record Refs : Type 0 where
  pub signers : ℕ → ℕ
  pub policies : ℕ → ℕ

unfoldable pub count_signers : List Signer → (ℕ → ℕ) → (ℕ → ℕ)
count_signers [] n = n
count_signers (s ∷ ss) n = count_signers ss (update n s (n s + 1))

unfoldable pub count_policies : List InstalledPolicy → (ℕ → ℕ) → (ℕ → ℕ)
count_policies [] n = n
count_policies (p ∷ ps) n = count_policies ps (update n p.policy (n p.policy + 1))

unfoldable pub count_rules : List InstalledRule → Refs → Refs
count_rules [] refs = refs
count_rules (r ∷ rs) refs = count_rules rs (record {
  signers = count_signers r.signers refs.signers;
  policies = count_policies r.policies refs.policies;
})

-- `Refs::of`.
unfoldable pub refs_of : List InstalledRule → Refs
refs_of rules = count_rules rules (record { signers = λ s. 0; policies = λ p. 0 })

pub record Meter : Type 0 where
  pub refs : Refs
  pub cost : Cost

unfoldable pub new_meter : Refs → Meter
new_meter refs = record { refs = refs; cost = record { events = 0; writes = 0 } }

abbrev pub charge : ℕ → Meter → Meter
charge n m = record m { cost = record { events = m.cost.events; writes = m.cost.writes + n } }

unfoldable pub register_signer : Signer → Meter → Meter
register_signer s m =
    let n = m.refs.signers s in
    record (charge (if n == 0 then 2 else 1) m) {
      refs = record { signers = update m.refs.signers s (n + 1); policies = m.refs.policies };
    }

unfoldable pub deregister_signer : Signer → Meter → Meter
deregister_signer s m =
    let n = m.refs.signers s in
    record (charge (if leb n 1 then 2 else 1) m) {
      refs = record { signers = update m.refs.signers s (n - 1); policies = m.refs.policies };
    }

unfoldable pub register_policy : Address → Meter → Meter
register_policy p m =
    let n = m.refs.policies p in
    record (charge (if n == 0 then 2 else 1) m) {
      refs = record { signers = m.refs.signers; policies = update m.refs.policies p (n + 1) };
    }

unfoldable pub deregister_policy : Address → Meter → Meter
deregister_policy p m =
    let n = m.refs.policies p in
    record (charge (if leb n 1 then 2 else 1) m) {
      refs = record { signers = m.refs.signers; policies = update m.refs.policies p (n - 1) };
    }

-- A loop of one operation over a list.
unfoldable pub each {ℓ} : {A : Type ℓ} → (A → Meter → Meter) → List A → Meter → Meter
each f [] m = m
each f (x ∷ xs) m = each f xs (f x m)

module _ (e : Host) where
  unfoldable pub hook : Address → Meter → Meter
  hook policy m = if policy == e.spending_limit || policy == e.interpreter then charge 1 m else m

  abbrev pub unhook : InstalledPolicy → Meter → Meter
  unhook p m = deregister_policy p.policy (hook p.policy m)

  abbrev pub enhook : InstalledPolicy → Meter → Meter
  enhook p m = hook p.policy (register_policy p.policy m)

  -- `impl Effects for Meter`.
  unfoldable pub metered : Effects Meter
  metered = record {
    reconcile_signers = λ rule signers m. ok (
        each register_signer (missing signers rule.signers)
          (each deregister_signer (missing rule.signers signers) (charge 1 m)));
    add_policy = λ rule policy param m. ok (hook policy (register_policy policy (charge 1 m)));
    remove_policy = λ rule policy m. ok (deregister_policy policy (hook policy (charge 1 m)));
    set_valid_until = λ rule valid_until m. ok (charge 1 m);
    remove_rule =
        λ rule m. ok (charge 1 (each deregister_signer rule.signers (each unhook rule.policies m)));
    add_rule = λ rule params m.
        ok (charge 1 (each enhook rule.policies (each register_signer rule.signers m)), 0);
  }

-- The parts of the library's `ContextRule` that the code reads.
pub record ContextRule : Type 0 where
  pub rule_id : ℕ
  pub policies : List Address
  pub policy_ids : List ℕ

-- The smart account library's operations on its state, each of which may panic.
pub record Oz (O : Type 0) : Type 0 where
  pub reconcile_signers_no_events : ℕ → List Signer → O → Result Panic O
  pub add_policy_no_events : ℕ → Address → Val → O → Result Panic O
  pub remove_policy_no_events : ℕ → ℕ → O → Result Panic O
  pub update_valid_until_no_events : ℕ → Option ℕ → O → Result Panic O
  pub remove_context_rule_no_events : ℕ → O → Result Panic O
  pub add_context_rule_no_events :
      ContextRuleType
      → Str
      → Option ℕ
      → List Signer
      → List (Address × Val)
      → O
      → Result Panic (O × ℕ)
  pub get_context_rule : ℕ → O → Result Panic ContextRule

pub record Apply (O : Type 0) : Type 0 where
  pub account : O
  pub sum : DeltaSummary
  pub rule : Option ContextRule

-- `Vec::first_index_of`.
unfoldable pub first_index_of : List Address → Address → Option ℕ
first_index_of [] a = none
first_index_of (x ∷ xs) a =
    let rest = first_index_of xs a in
    if x == a then some 0 else elim rest [ none ↦ none | some i ↦ some (i + 1) ]

-- `Map::set`.
unfoldable pub map_set : List (Address × Val) → Address → Val → List (Address × Val)
map_set [] a v = (a, v) ∷ []
map_set ((b, w) ∷ rest) a v =
    let more = map_set rest a v in if b == a then (a, v) ∷ rest else (b, w) ∷ more

-- The loop of `add_rule` over the policies and their parameters.
unfoldable pub policy_map :
    List InstalledPolicy → List Val → List (Address × Val) → Result Panic (List (Address × Val))
policy_map [] vs acc = ok acc
policy_map (p ∷ ps) [] acc = err panic
policy_map (p ∷ ps) (v ∷ vs) acc = policy_map ps vs (map_set acc p.policy v)

module _ {O : Type 0} (oz : Oz O) where
  abbrev pub cached : Option ContextRule → ℕ → Bool
  cached none id = false
  cached (some r) id = r.rule_id == id

  -- `Apply::oz`: the rule as first read, with the state that keeps it.
  unfoldable pub oz_rule : ℕ → Apply O → Result Panic (Apply O × ContextRule)
  oz_rule id a = do
    a' ←
        if cached a.rule id
        then ok a
        else (oz.get_context_rule id a.account >>= λ r. ok (record a { rule = some r }))
    r ← ok_or a'.rule panic
    ok (a', r)

  abbrev pub at_account :
      (O → Result Panic O) → (DeltaSummary → DeltaSummary) → Apply O → Result Panic (Apply O)
  at_account f count a = do
    account ← f a.account
    ok (record a { account = account; sum = count a.sum })

  -- `impl Effects for Apply`.
  unfoldable pub applied : Effects (Apply O)
  applied = record {
    reconcile_signers = λ rule signers.
        at_account (oz.reconcile_signers_no_events rule.id signers) (λ sum. record sum {
          signers_added = sum.signers_added + length (missing signers rule.signers);
          signers_removed = sum.signers_removed + length (missing rule.signers signers);
        });
    add_policy = λ rule policy param.
        at_account (oz.add_policy_no_events rule.id policy param)
          (λ sum. record sum { policies_added = sum.policies_added + 1 });
    remove_policy = λ rule policy a. oz_rule rule.id a >>= λ (a', r).
        ok_or (first_index_of r.policies policy) panic >>= λ i.
        ok_or (get_elem? r.policy_ids i) panic >>= λ id.
        at_account (oz.remove_policy_no_events rule.id id)
          (λ sum. record sum { policies_removed = sum.policies_removed + 1 }) a';
    set_valid_until = λ rule valid_until.
        at_account (oz.update_valid_until_no_events rule.id valid_until) (λ sum. sum);
    remove_rule = λ rule.
        at_account (oz.remove_context_rule_no_events rule.id)
          (λ sum. record sum { rules_removed = sum.rules_removed + 1 });
    add_rule = λ rule params a. policy_map rule.policies params [] >>= λ policies.
        oz.add_context_rule_no_events rule.context_type rule.name rule.valid_until rule.signers
          policies a.account
        >>= λ (account, id). ok (
          record a {
            account = account;
            sum = record a.sum { rules_added = a.sum.rules_added + 1 };
          },
          id,
        );
  }
