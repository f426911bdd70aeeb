-- ===== src/Account/Reconcile.antt =====
-- crates/perch-smart-account/src/rules.rs: the edit of one rule and the reconciliation of all.
use perch.Common.{
  ℕ, ◌+◌, ◌-◌, Address, Val, Bool, true, false, ◌&&◌, ◌||◌, not, Option, none, some, List, [], ◌∷◌,
  length, leb, ltb, ◌==◌, list_eq, if◌then◌else◌, drop, first, Result, ok, ◌>>=◌, ok_or,
}
use perch.Account.{
  InstalledPolicy, InstalledRule, DeltaSummary, Host, policy_eq, ledger_eq, same_slot, with_id,
}
use perch.Account.Effects.{
  Panic, panic, Effects, missing, cost_le, Refs, refs_of, new_meter, metered, Oz, Apply, applied,
}

-- `policies.contains(&p)`.
unfoldable pub has_policy : List InstalledPolicy → InstalledPolicy → Bool
has_policy [] p = false
has_policy (q ∷ qs) p = policy_eq q p || has_policy qs p

abbrev pub has_address : List InstalledPolicy → Address → Bool
has_address [] a = false
has_address (p ∷ ps) a = p.policy == a || has_address ps a

abbrev pub has_key : List (Address × Val) → Address → Bool
has_key [] a = false
has_key ((b, v) ∷ rest) a = b == a || has_key rest a

unfoldable pub all_in : List InstalledPolicy → List InstalledPolicy → Bool
all_in ps [] = true
all_in ps (q ∷ qs) = has_policy ps q && all_in ps qs

unfoldable pub unchanged : InstalledRule → InstalledRule → Bool
unchanged c d =
    list_eq c.signers d.signers
    && (all_in d.policies c.policies
        && (all_in c.policies d.policies && ledger_eq c.valid_until d.valid_until))

-- `remove_policies`: the policies that the new rule lacks with these parameters.
unfoldable pub removals : List InstalledPolicy → List InstalledPolicy → List Address
removals [] ds = []
removals (p ∷ cs) ds =
    let rest = removals cs ds in if has_policy ds p then rest else p.policy ∷ rest

-- `add_policies`: the policies that the old rule lacks, with their parameters.
unfoldable pub additions :
    List InstalledPolicy → List InstalledPolicy → List Val → Result Panic (List (Address × Val))
additions cs [] vs = ok []
additions cs (p ∷ ds) vs =
    let rest = additions cs ds (drop 1 vs) in
    if has_policy cs p
    then rest
    else (ok_or (first vs) panic >>= λ v. rest >>= λ more. ok ((p.policy, v) ∷ more))

-- `fresh`: the additions at addresses that the old rule does not have.
unfoldable pub fresh_of : List InstalledPolicy → List (Address × Val) → List (Address × Val)
fresh_of cs [] = []
fresh_of cs ((a, v) ∷ adds) =
    let rest = fresh_of cs adds in if has_address cs a then rest else (a, v) ∷ rest

-- The additions that are not fresh.
unfoldable pub stale_of : List (Address × Val) → List (Address × Val) → List (Address × Val)
stale_of fresh [] = []
stale_of fresh ((a, v) ∷ adds) =
    let rest = stale_of fresh adds in if has_key fresh a then rest else (a, v) ∷ rest

abbrev pub is_empty {ℓ} : {A : Type ℓ} → List A → Bool
is_empty [] = true
is_empty (x ∷ xs) = false

-- How many signers and policies survive.
abbrev pub kept : InstalledRule → InstalledRule → List Address → ℕ
kept c d removes =
    (length c.signers - length (missing c.signers d.signers)) + (length c.policies - length removes)

abbrev pub is_editable :
    ℕ → InstalledRule → InstalledRule → List Address → List (Address × Val) → Bool
is_editable max_policies c d removes fresh =
    not (is_empty d.signers)
    || (not (is_empty c.signers)
        || (ltb 0 (kept c d removes)
            || (not (is_empty fresh) && leb (length c.policies + length fresh) max_policies)))

module _ {S : Type 0} (fx : Effects S) where
  unfoldable pub remove_each : InstalledRule → List Address → S → Result Panic S
  remove_each c [] s = ok s
  remove_each c (p ∷ ps) s = do s' ← fx.remove_policy c p s; remove_each c ps s'

  unfoldable pub add_each : InstalledRule → List (Address × Val) → S → Result Panic S
  add_each c [] s = ok s
  add_each c ((p, v) ∷ ps) s = do s' ← fx.add_policy c p v s; add_each c ps s'

  unfoldable pub swap_signers : InstalledRule → InstalledRule → S → Result Panic S
  swap_signers c d s =
      if list_eq c.signers d.signers then ok s else fx.reconcile_signers c d.signers s

  unfoldable pub set_expiry : InstalledRule → InstalledRule → S → Result Panic S
  set_expiry c d s =
      if ledger_eq c.valid_until d.valid_until then ok s else fx.set_valid_until c d.valid_until s

  -- The three orders of an in-place edit.
  unfoldable pub edit_signers_first :
      InstalledRule → InstalledRule → List Address → List (Address × Val) → S → Result Panic S
  edit_signers_first c d removes adds s = do
    s₁ ← swap_signers c d s
    s₂ ← remove_each c removes s₁
    s₃ ← add_each c adds s₂
    set_expiry c d s₃

  unfoldable pub edit_policies_first :
      InstalledRule → InstalledRule → List Address → List (Address × Val) → S → Result Panic S
  edit_policies_first c d removes adds s = do
    s₁ ← remove_each c removes s
    s₂ ← add_each c adds s₁
    s₃ ← swap_signers c d s₂
    set_expiry c d s₃

  unfoldable pub edit_fresh_first :
      InstalledRule
      → InstalledRule
      → List Address
      → List (Address × Val)
      → List (Address × Val)
      → S
      → Result Panic S
  edit_fresh_first c d removes adds fresh s = do
    s₁ ← add_each c fresh s
    s₂ ← remove_each c removes s₁
    s₃ ← add_each c (stale_of fresh adds) s₂
    set_expiry c d s₃

  unfoldable pub edit_in_order :
      InstalledRule
      → InstalledRule
      → List Address
      → List (Address × Val)
      → List (Address × Val)
      → S
      → Result Panic S
  edit_in_order c d removes adds fresh s =
      if not (is_empty d.signers)
      then edit_signers_first c d removes adds s
      else if not (is_empty c.signers) || ltb 0 (kept c d removes)
      then edit_policies_first c d removes adds s
      else edit_fresh_first c d removes adds fresh s

  -- `edit`: the state after it, and whether an in-place order exists. `max_policies` is the library's
  -- `MAX_POLICIES`.
  unfoldable pub edit : ℕ → InstalledRule → InstalledRule → List Val → S → Result Panic (S × Bool)
  edit max_policies c d params s = additions c.policies d.policies params >>= λ adds.
      let removes = removals c.policies d.policies in
      let fresh = fresh_of c.policies adds in
      if is_editable max_policies c d removes fresh
      then (edit_in_order c d removes adds fresh s >>= λ s'. ok (s', true))
      else ok (s, false)

  unfoldable pub replace : InstalledRule → InstalledRule → List Val → S → Result Panic (S × ℕ)
  replace c d params s = do s' ← fx.remove_rule c s; fx.add_rule d params s'

  unfoldable pub remove_rules : List InstalledRule → S → Result Panic S
  remove_rules [] s = ok s
  remove_rules (c ∷ cs) s = do s' ← fx.remove_rule c s; remove_rules cs s'

  unfoldable pub add_rules :
      List (InstalledRule × List Val) → S → Result Panic (S × List InstalledRule)
  add_rules [] s = ok (s, [])
  add_rules ((d, p) ∷ ds) s = do
    (s₁, id) ← fx.add_rule d p s
    (s₂, next) ← add_rules ds s₁
    ok (s₂, with_id d id ∷ next)

-- `desired.iter().any(|d| c.same_slot(&d))`.
unfoldable pub is_wanted : List (InstalledRule × List Val) → InstalledRule → Bool
is_wanted [] c = false
is_wanted ((d, p) ∷ ds) c = same_slot c d || is_wanted ds c

-- `current.iter().find(|c| c.same_slot(&d))`.
unfoldable pub find_slot : List InstalledRule → InstalledRule → Option InstalledRule
find_slot [] d = none
find_slot (c ∷ cs) d = if same_slot c d then some c else find_slot cs d

abbrev pub no_changes : DeltaSummary
no_changes = record {
  rules_added = 0;
  rules_removed = 0;
  rules_edited = 0;
  signers_added = 0;
  signers_removed = 0;
  policies_added = 0;
  policies_removed = 0;
}

module _ {O : Type 0} (oz : Oz O) (e : Host) (max_policies : ℕ) where
  -- The state of `run`: the counts that price the next rule, and what was performed.
  abbrev pub Run : Type 0
  Run = Refs × Apply O

  unfoldable pub remove_unwanted :
      List (InstalledRule × List Val) → List InstalledRule → Run → Result Panic Run
  remove_unwanted desired [] s = ok s
  remove_unwanted desired (c ∷ cs) (refs, a) = do
    s ←
        if is_wanted desired c
        then ok (refs, a)
        else ((metered e).remove_rule c (new_meter refs) >>= λ m.
            (applied oz).remove_rule c a >>= λ a'. ok (m.refs, a'))
    remove_unwanted desired cs s

  unfoldable pub add_new : InstalledRule → List Val → Run → Result Panic (Run × InstalledRule)
  add_new d p (refs, a) = do
    (m, unused) ← (metered e).add_rule d p (new_meter refs)
    (a', id) ← (applied oz).add_rule d p a
    ok ((m.refs, a'), with_id d id)

  abbrev pub count_edited : Apply O → Apply O
  count_edited a = record a { sum = record a.sum { rules_edited = a.sum.rules_edited + 1 } }

  -- A changed rule, priced both ways and reconciled the cheaper one.
  unfoldable pub change :
      InstalledRule → InstalledRule → List Val → Run → Result Panic (Run × InstalledRule)
  change c d p (refs, a) = do
    (edited, editable) ← edit (metered e) max_policies c d p (new_meter refs)
    (replaced, unused) ← replace (metered e) c d p (new_meter refs)
    if editable && cost_le edited.cost replaced.cost
        then (edit (applied oz) max_policies c d p a >>= λ (a', done).
            ok ((edited.refs, count_edited a'), with_id d c.id))
        else (replace (applied oz) c d p a >>= λ (a', id). ok ((replaced.refs, a'), with_id d id))

  -- One round of the loop over the desired rules.
  unfoldable pub reconcile_rule :
      List InstalledRule → InstalledRule → List Val → Run → Result Panic (Run × InstalledRule)
  reconcile_rule current d p s = elim (find_slot current d) [
    | none ↦ add_new d p s
    | some c ↦ if unchanged c d then ok (s, with_id d c.id) else change c d p s
  ]

  unfoldable pub reconcile_rules :
      List InstalledRule
      → List (InstalledRule × List Val)
      → Run
      → Result Panic (Run × List InstalledRule)
  reconcile_rules current [] s = ok (s, [])
  reconcile_rules current ((d, p) ∷ ds) s = do
    (s₁, r) ← reconcile_rule current d p s
    (s₂, next) ← reconcile_rules current ds s₁
    ok (s₂, r ∷ next)

  -- `reconcile` in its only mode outside tests, on the library's state.
  unfoldable pub reconcile :
      List InstalledRule
      → List (InstalledRule × List Val)
      → O
      → Result Panic (O × (List InstalledRule × DeltaSummary))
  reconcile current desired account = do
    s ←
        remove_unwanted desired current
          (refs_of current, record { account = account; sum = no_changes; rule = none })
    ((refs, a), next) ← reconcile_rules current desired s
    ok (a.account, (next, a.sum))

  -- The oracle: every rule removed and every rule added.
  unfoldable pub replace_all :
      List InstalledRule
      → List (InstalledRule × List Val)
      → O
      → Result Panic (O × (List InstalledRule × DeltaSummary))
  replace_all current desired account = do
    a ←
        remove_rules (applied oz) current
          (record { account = account; sum = no_changes; rule = none })
    (a', next) ← add_rules (applied oz) desired a
    ok (a'.account, (next, a'.sum))
