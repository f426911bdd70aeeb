-- ===== src/Compile/Plans.antt =====
-- crates/perch-compile/src/lib.rs: a whole plan, rule by rule.
use perch.Common.{
  ℕ, zero, suc, ◌≡◌, refl, Bytes32, some, List, [], ◌∷◌, arith, length, get_elem?, ok, >>=-eq-ok,
}
use perch.Document.{Rule, PolicyDoc}
use perch.Compile.{Sdk, LoweredRule, Plan, lower_rule, lower_rules, compile}
use perch.Compile.Rules.{Lowers, lower_rule-Lowers}

module _ (sdk : Sdk) (doc : PolicyDoc) where
  abbrev AllLower : List Rule → List LoweredRule → Type 0
  AllLower [] [] = Unit
  AllLower (rule ∷ rules) (r ∷ rs) = Lowers sdk doc rule r × AllLower rules rs
  AllLower _ _ = ⊥

  lower_rules-AllLower :
      (rules : List Rule) (rs : List LoweredRule)
      → lower_rules sdk doc rules ≡ ok rs
      → AllLower rules rs
  unfolding lower_rules
  lower_rules-AllLower [] rs h = let e : ◌≡◌ {A = List LoweredRule} [] rs = cc in rw (← e) tt
  lower_rules-AllLower (rule ∷ rules) rs h =
      let (r, er, k) = >>=-eq-ok (lower_rule sdk doc rule) _ h in
      let (rest, es, q) = >>=-eq-ok (lower_rules sdk doc rules) _ k in
      let e : r ∷ rest ≡ rs = cc in
      rw (← e) (lower_rule-Lowers sdk doc rule r er, lower_rules-AllLower rules rest es)

  AllLower-at :
      (rules : List Rule) (rs : List LoweredRule) (i : ℕ) (r : LoweredRule)
      → AllLower rules rs
      → get_elem? rs i ≡ some r
      → (rule : Rule) × (get_elem? rules i ≡ some rule) × Lowers sdk doc rule r
  AllLower-at [] [] i r h e = cc
  AllLower-at [] (x ∷ rs) i r h e = absurd h
  AllLower-at (x ∷ rules) [] i r h e = absurd h
  AllLower-at (rule ∷ rules) (x ∷ rs) zero r (l, h) e =
      let q : x ≡ r = cc in (rule, refl, rw q at l)
  AllLower-at (rule ∷ rules) (x ∷ rs) (suc i) r (l, h) e = AllLower-at rules rs i r h e

  AllLower-length :
      (rules : List Rule) (rs : List LoweredRule) → AllLower rules rs → length rules ≡ length rs
  AllLower-length [] [] h = refl
  AllLower-length [] (x ∷ rs) h = absurd h
  AllLower-length (x ∷ rules) [] h = absurd h
  AllLower-length (x ∷ rules) (y ∷ rs) (l, h) = omega (arith, AllLower-length rules rs h)

  -- A compiled plan has one rule for each rule of the document, in order: the same name, the same
  -- contract or the account itself as scope, the declared verifier and key or address of each signer,
  -- live at the same ledgers, the document's cap with the limit that its text denotes, no program
  -- exactly when the rule is bare, and otherwise a validated program with the hash of the rule, which
  -- lets a call pass exactly when the document's rule does with its threshold, or the count of its
  -- signers when it asks for all.
  pub compile-Lowers :
      (wasm_hash : Bytes32) (plan : Plan) (i : ℕ) (r : LoweredRule)
      → compile sdk doc wasm_hash ≡ ok plan
      → get_elem? plan.rules i ≡ some r
      → (length doc.rules ≡ length plan.rules)
        × ((rule : Rule) × (get_elem? doc.rules i ≡ some rule) × Lowers sdk doc rule r)
  unfolding compile
  compile-Lowers wasm_hash plan i r h g =
      let (rs, e, q) = >>=-eq-ok (lower_rules sdk doc doc.rules) _ h in
      let p : rs ≡ plan.rules = cc in
      let a = lower_rules-AllLower doc.rules plan.rules (rw p at e) in
      (AllLower-length doc.rules plan.rules a, AllLower-at doc.rules plan.rules i r a g)
