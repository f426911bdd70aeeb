-- ===== src/Compile/Attenuation/Narrows.antt =====
-- crates/perch-compile/src/attenuation.rs: which functions an accepted attenuation can authorize.
use perch.Common.{
  ℕ, zero, suc, ◌≡◌, refl, ap, ◌↔◌, ◌⊎◌, inl, inr, Bytes32, Str, Symbol, true, ◌&&◌, Option, none,
  some, List, [], ◌∷◌, map, arith, list_eq, list_eq→eq, get_elem?, Result, ok, err, >>=-eq-ok,
  Bool-cases, Option-cases,
}
use perch.Program.Verdict.{true_v}
use perch.Program.Leaf.{Env, EvalInputs, ContractContext}
use perch.Program.Leaf as Leaf
use perch.Program.Rpn.{InstallParams, eval}
use perch.Document.{Rule, PolicyDoc}
use perch.Compile.{
  Sdk, LowerError, ScopeSpec, contract_spec, self_admin, LoweredRule, Plan, compile,
}
use perch.Compile.Rules.{ScopeOf, Lowers, Installs-some, Installs-none}
use perch.Compile.Plans.{compile-Lowers}
use perch.Compile.Meaning.{FunctionAllowed}
use perch.Compile.Analysis.{
  FnSet, any_fn, only, ReachableScope, reachable_scope, reachable_calls, rule_functions, has_symbol,
}
use perch.Compile.Analysis.Reach.{Covers, Lists, build_program-Covers}
use perch.Compile.Attenuation.{
  scope_eq, contains_all, fn_covers, is_covered, check_reach, is_narrowing, attenuate, Attenuation,
  compiled,
}

-- A lowered rule lets some call of the function pass: it has no program, or a program that some
-- inputs and environment make true.
abbrev pub Authorizes : LoweredRule → Symbol → Type 0
Authorizes r name =
    (r.install ≡ none)
    ⊎ ((params : InstallParams) × (r.install ≡ some params)
        × ((env : Env) × (inputs : EvalInputs) × (c : ContractContext) × (inputs.context
              ≡ Leaf.contract c)
            × (c.fn_name ≡ name)
            × (eval env params.program inputs ≡ true_v)))

module _ (sdk : Sdk) (doc : PolicyDoc) where
  -- The analysis of a compiled rule is exact about the document's function list.
  pub rule_functions-Lists :
      (rule : Rule) (r : LoweredRule) (name : Symbol)
      → Lowers sdk doc rule r
      → Covers (rule_functions r) name ↔ Lists sdk name rule.functions
  unfolding rule_functions
  rule_functions-Lists rule r name l = elim (Option-cases r.install) [
    | inl n ↦
        let (a, f, g, q) = Installs-none sdk doc rule l.floor r.install n l.installed in
        rw (n, f) (λ u. tt, λ u. tt)
    | inr (params, e) ↦
        let (h, q₀, b, v, iff) =
          Installs-some sdk doc rule l.floor r.install params e l.installed in
        rw e (build_program-Covers sdk rule l.floor params.program name b)
  ]

  Lists-function :
      (funcs : Option (List Str)) (env : Env) (inputs : EvalInputs) (c : ContractContext)
      (name : Symbol)
      → inputs.context ≡ Leaf.contract c
      → c.fn_name ≡ name
      → FunctionAllowed sdk env inputs funcs
      → Lists sdk name funcs
  Lists-function none env inputs c name k q f = tt
  Lists-function (some fs) env inputs c name k q (d, e, n) =
      let p : d.fn_name ≡ name = cc in rw p at n

  -- What a compiled rule authorizes is within the analysis.
  Authorizes-Lists :
      (rule : Rule) (r : LoweredRule) (name : Symbol)
      → Lowers sdk doc rule r
      → Authorizes r name
      → Lists sdk name rule.functions
  Authorizes-Lists rule r name l (inl n) =
      let (a, f, g, q) = Installs-none sdk doc rule l.floor r.install n l.installed in rw f tt
  Authorizes-Lists rule r name l (inr (params, e, (env, inputs, c, k, q, t))) =
      let (h, q₀, b, v, iff) = Installs-some sdk doc rule l.floor r.install params e l.installed in
      let (p0, p1, fa, aa) = (iff env inputs).0 t in
      Lists-function rule.functions env inputs c name k q fa

contains_all-has :
    (p fs : List Symbol) (s : Symbol)
    → contains_all p fs ≡ true
    → has_symbol fs s ≡ true
    → has_symbol p s ≡ true
unfolding contains_all has_symbol
contains_all-has p [] s h k = absurd cc
contains_all-has p (f ∷ fs) s h k = elim (Bool-cases (list_eq f s)) [
  | inl e ↦ let g : has_symbol p f ≡ true = ground (arith, h) in rw (list_eq→eq f s e) at g
  | inr n ↦ contains_all-has p fs s (ground (arith, h)) (ground (arith, k, n))
]

fn_covers-Covers :
    (p c : FnSet) (name : Symbol) → fn_covers p c ≡ true → Covers c name → Covers p name
unfolding fn_covers
fn_covers-Covers any_fn c name h k = tt
fn_covers-Covers (only fs) any_fn name h k = absurd cc
fn_covers-Covers (only fs) (only gs) name h k = contains_all-has fs gs name h k

scope_eq-eq : (a b : ScopeSpec) → scope_eq a b ≡ true → a ≡ b
scope_eq-eq (contract_spec a) (contract_spec b) h = ap contract_spec (list_eq→eq a b h)
scope_eq-eq (contract_spec a) self_admin h = absurd cc
scope_eq-eq self_admin (contract_spec b) h = absurd cc
scope_eq-eq self_admin self_admin h = refl

-- The rule of a plan that covers another one's reach.
is_covered-rule :
    (rules : List LoweredRule) (cs : ReachableScope)
    → is_covered (map reachable_scope rules) cs ≡ true
    → (j : ℕ) × (r : LoweredRule) × (get_elem? rules j ≡ some r)
      × (r.scope ≡ cs.scope)
      × (fn_covers (rule_functions r) cs.functions ≡ true)
unfolding is_covered
is_covered-rule [] cs h = absurd cc
is_covered-rule (r ∷ rules) cs h =
    elim (Bool-cases (scope_eq r.scope cs.scope && fn_covers (rule_functions r) cs.functions)) [
      | inl t ↦ (zero, r, refl, scope_eq-eq r.scope cs.scope (ground (arith, t)), ground (arith, t))
      | inr n ↦
          let (j, r', e, s, f) = is_covered-rule rules cs (ground (arith, h, n)) in
          (suc j, r', e, s, f)
    ]

check_reach-at :
    (parent : List ReachableScope) (rules : List LoweredRule) (i : ℕ) (r : LoweredRule)
    → check_reach parent (map reachable_scope rules) ≡ ok tt
    → get_elem? rules i ≡ some r
    → is_covered parent (reachable_scope r) ≡ true
unfolding check_reach
check_reach-at parent [] i r h e = absurd cc
check_reach-at parent (x ∷ rules) zero r h e = let q : x ≡ r = cc in rw (← q) (ground (arith, h))
check_reach-at parent (x ∷ rules) (suc i) r h e =
    check_reach-at parent rules i r (ground (arith, h)) e

ok-eq {ℓ} : {A : Type ℓ} {x : Result LowerError A} {a b : A} → x ≡ ok a → x ≡ ok b → a ≡ b
ok-eq h k = cc

compiled-ok {ℓ} : {A : Type ℓ} (r : Result LowerError A) (a : A) → compiled r ≡ ok a → r ≡ ok a
compiled-ok (ok b) a h = cc
compiled-ok (err e) a h = absurd cc

-- After a successful attenuation, whatever function some call can be authorized for by a rule of the
-- child's plan, with any program, signers, arguments and environment, the parent document has a rule of
-- the same scope that lists the function or lists none. Nothing is said of what else the parent's rule
-- asks of such a call: its arguments, signers, expiry or cap.
pub attenuate-narrows :
    (sdk : Sdk) (parent child : PolicyDoc) (wasm_hash : Bytes32) (link : Attenuation) (plan : Plan)
    (i : ℕ) (r : LoweredRule) (name : Symbol)
    → attenuate sdk parent child wasm_hash ≡ ok link
    → compile sdk child wasm_hash ≡ ok plan
    → get_elem? plan.rules i ≡ some r
    → Authorizes r name
    → (j : ℕ) × (rule : Rule) × (get_elem? parent.rules j ≡ some rule)
      × ScopeOf rule.scope r.scope
      × Lists sdk name rule.functions
unfolding attenuate is_narrowing reachable_calls
attenuate-narrows sdk parent child wasm_hash link plan i r name h k g a =
    let (pp, ep, h₁) = >>=-eq-ok (compiled (compile sdk parent wasm_hash)) _ h in
    let (cp, ec, h₂) = >>=-eq-ok (compiled (compile sdk child wasm_hash)) _ h₁ in
    let (u, en, h₃) = >>=-eq-ok (is_narrowing pp cp) _ h₂ in
    let q : cp ≡ plan = ok-eq (compiled-ok (compile sdk child wasm_hash) cp ec) k in
    let en' : check_reach (map reachable_scope pp.rules) (map reachable_scope plan.rules) ≡ ok tt =
      rw q at en in
    let (crule, ge, cl) = (compile-Lowers sdk child wasm_hash plan i r k g).1 in
    let c = check_reach-at (map reachable_scope pp.rules) plan.rules i r en' g in
    let (j, pr, pe, s, f) = is_covered-rule pp.rules (reachable_scope r) c in
    let (prule, pge, pl) =
      (compile-Lowers sdk parent wasm_hash pp j pr
        (compiled-ok (compile sdk parent wasm_hash) pp ep) pe).1 in
    let cov =
      (rule_functions-Lists sdk child crule r name cl).1
        (Authorizes-Lists sdk child crule r name cl a) in
    (
      j,
      prule,
      pge,
      rw s at pl.scoped,
      (rule_functions-Lists sdk parent prule pr name pl).0
          (fn_covers-Covers (rule_functions pr) (rule_functions r) name f cov),
    )
