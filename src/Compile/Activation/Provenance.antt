-- ===== src/Compile/Activation/Provenance.antt =====
-- crates/perch-compile/src/activation.rs: which plans pass the check against a document.
use perch.Common.{
  ℕ, zero, suc, ◌≡◌, ◌≢◌, refl, sym, ◌∙◌, ap, inl, inr, Bytes32, Str, true, false, some, List, [],
  ◌∷◌, arith, ==_iff, list_eq, list_eq→eq, list_eq_self, get_elem?, ok, Bool-cases, Option-cases,
}
use perch.Program.Rpn.{InstallParams}
use perch.Document.{Rule, PolicyDoc}
use perch.Compile.{Sdk, LoweredRule, Plan, rule_hash_onchain, compile}
use perch.Compile.Rules.{Installs-some}
use perch.Compile.Plans.{compile-Lowers}
use perch.Compile.Activation.{find_rule, matches, verify_rules, verify_plan_matches_doc}

-- No rule has the name.
abbrev Unnamed : List Rule → Str → Type 0
Unnamed [] name = Unit
Unnamed (r ∷ rs) name = (r.name ≢ name) × Unnamed rs name

-- The rules' names differ from one another.
abbrev pub NamesDiffer : List Rule → Type 0
NamesDiffer [] = Unit
NamesDiffer (r ∷ rs) = Unnamed rs r.name × NamesDiffer rs

list_eq-ne : (xs ys : Str) → xs ≢ ys → list_eq xs ys ≡ false
list_eq-ne xs ys h = elim (Bool-cases (list_eq xs ys)) [
  | inl t ↦ absurd (h (list_eq→eq xs ys t))
  | inr n ↦ n
]

Unnamed-at :
    (rules : List Rule) (i : ℕ) (rule : Rule) (name : Str)
    → Unnamed rules name
    → get_elem? rules i ≡ some rule
    → name ≢ rule.name
Unnamed-at [] i rule name u e = absurd cc
Unnamed-at (r ∷ rs) zero rule name (n, u) e =
    let q : r ≡ rule = cc in λ h. n (ap (λ x. x.name) q ∙ sym h)
Unnamed-at (r ∷ rs) (suc i) rule name (n, u) e = Unnamed-at rs i rule name u e

find_rule-at :
    (rules : List Rule) (i : ℕ) (rule : Rule)
    → NamesDiffer rules
    → get_elem? rules i ≡ some rule
    → find_rule rules rule.name ≡ some rule
unfolding find_rule
find_rule-at [] i rule h e = absurd cc
find_rule-at (r ∷ rs) zero rule h e =
    let q : r ≡ rule = cc in
    let t : list_eq r.name rule.name ≡ true =
      ap (λ (x : Rule). list_eq x.name rule.name) q ∙ list_eq_self rule.name in
    rw t (ap some q)
find_rule-at (r ∷ rs) (suc i) rule (u, h) e =
    rw (list_eq-ne r.name rule.name (Unnamed-at rs i rule r.name u e)) (find_rule-at rs i rule h e)

-- What is found is in the list, under the name.
find_rule-named :
    (rules : List Rule) (name : Str) (rule : Rule)
    → find_rule rules name ≡ some rule
    → (j : ℕ) × (get_elem? rules j ≡ some rule) × (rule.name ≡ name)
unfolding find_rule
find_rule-named [] name rule e = absurd cc
find_rule-named (r ∷ rs) name rule e = elim (Bool-cases (list_eq r.name name)) [
  | inl t ↦
      let q : r ≡ rule = ground (arith, t, e) in
      (0, ap some q, ap (λ (x : Rule). x.name) (sym q) ∙ list_eq→eq r.name name t)
  | inr n ↦
      let (j, at, named) = find_rule-named rs name rule (ground (arith, n, e)) in (suc j, at, named)
]

module _ (sdk : Sdk) (doc : PolicyDoc) where
  verify_rules-at :
      (rs : List LoweredRule) (i : ℕ) (r : LoweredRule) (params : InstallParams)
      → verify_rules sdk doc rs ≡ ok tt
      → get_elem? rs i ≡ some r
      → r.install ≡ some params
      → matches sdk doc r.name params ≡ true
  unfolding verify_rules
  verify_rules-at [] i r params h e f = absurd cc
  verify_rules-at (x ∷ rs) zero r params h e f =
      let q : x ≡ r = cc in
      let g : x.install ≡ some params = ap (λ (y : LoweredRule). y.install) q ∙ f in
      ap (λ (y : LoweredRule). matches sdk doc y.name params) (sym q) ∙ ground (arith, h, g)
  verify_rules-at (x ∷ rs) (suc i) r params h e f = elim (Option-cases x.install) [
    | inl n ↦ verify_rules-at rs i r params (ground (arith, h, n)) e f
    | inr (p, g) ↦ verify_rules-at rs i r params (ground (arith, h, g)) e f
  ]

  verify_rules-ok :
      (rs : List LoweredRule)
      → ((i : ℕ) (r : LoweredRule) (params : InstallParams)
          → get_elem? rs i ≡ some r
          → r.install ≡ some params
          → matches sdk doc r.name params ≡ true)
      → verify_rules sdk doc rs ≡ ok tt
  unfolding verify_rules
  verify_rules-ok [] h = refl
  verify_rules-ok (x ∷ rs) h =
      let rest = verify_rules-ok rs (λ i. h (suc i)) in
      elim (Option-cases x.install) [
        | inl n ↦ ground (arith, n, rest)
        | inr (p, g) ↦ ground (arith, g, rest, h zero x p refl g)
      ]

  -- In a plan that passes the check each program has the hash of a rule that stands in the document
  -- under review and has the lowered rule's name.
  pub verify_plan-provenance :
      (plan : Plan) (i : ℕ) (r : LoweredRule) (params : InstallParams)
      → verify_plan_matches_doc sdk doc plan ≡ ok tt
      → get_elem? plan.rules i ≡ some r
      → r.install ≡ some params
      → (rule : Rule) × (j : ℕ) × (get_elem? doc.rules j ≡ some rule)
        × (rule.name ≡ r.name)
        × (params.doc_hash ≡ rule_hash_onchain sdk rule)
  unfolding verify_plan_matches_doc matches
  verify_plan-provenance plan i r params h e f =
      let m = verify_rules-at plan.rules i r params h e f in
      elim (Option-cases (find_rule doc.rules r.name)) [
        | inl n ↦ absurd (ground (arith, m, n))
        | inr (rule, g) ↦
            let (j, at, named) = find_rule-named doc.rules r.name rule g in
            (
              rule,
              j,
              at,
              named,
              sym ((==_iff (rule_hash_onchain sdk rule) params.doc_hash).0 (ground (arith, m, g))),
            )
      ]

  matches-ok :
      (name : Str) (params : InstallParams) (rule : Rule)
      → find_rule doc.rules name ≡ some rule
      → params.doc_hash ≡ rule_hash_onchain sdk rule
      → matches sdk doc name params ≡ true
  unfolding matches
  matches-ok name params rule k q =
      ground (arith, k, (==_iff (rule_hash_onchain sdk rule) params.doc_hash).1 (sym q))

  -- A plan that is compiled from a document whose rules have different names passes the check against
  -- the document.
  pub compile-verify :
      (wasm_hash : Bytes32) (plan : Plan)
      → compile sdk doc wasm_hash ≡ ok plan
      → NamesDiffer doc.rules
      → verify_plan_matches_doc sdk doc plan ≡ ok tt
  unfolding verify_plan_matches_doc
  compile-verify wasm_hash plan h d = verify_rules-ok plan.rules λ i r params e f.
      let (rule, g, l) = (compile-Lowers sdk doc wasm_hash plan i r h e).1 in
      let (not_bare, q, b, v, iff) =
        Installs-some sdk doc rule l.floor r.install params f l.installed in
      let k = find_rule-at doc.rules i rule d g in
      let n : r.name ≡ rule.name = l.named in rw n (matches-ok rule.name params rule k q)
