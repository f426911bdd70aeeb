-- ===== src/Document/Validate/Args.antt =====
-- crates/perch-ir/src/validate.rs: what the checks of one rule establish.
use perch.Common.{
  ℕ, ◌≤◌, ◌<◌, ◌≡◌, ◌≢◌, refl, ◌∙◌, ap, ◌⊎◌, inl, inr, Bytes, Str, true, false, ◌||◌, not, Option,
  none, some, List, [], ◌∷◌, arith, length, list_eq, list_eq→eq, contains, Bool-cases, ltb, ◌==◌,
  is_some,
}
use perch.Common.Int.{ℤ, pos, negsuc}
use perch.Document.{
  Scope, contract, self_admin, ContractScope, Principals, all, threshold, self_authenticating,
  ArgPred, is_self, address_eq, string_in, string_prefix, u32_eq, ArgConstraint, CapConstraint,
  Rule,
}
use perch.Document.Text.{parse_i128}
use perch.Document.Strkey.{is_contract_address_shape, is_address_shape}
use perch.Document.Validate.{
  report, is_empty_list, pred_errors, args_loop, args_errors, expiry_errors, is_bad_limit,
  cap_token_errors, cap_errors, scope_errors, principals_errors, validate_rule,
  validate_principal_signers, functions_errors, ack_sentinel, max_string_pred_len,
}
use perch.Document.Validate.Declared.{
  append-empty, report-empty, report-not-empty, AllDiffer, All, is_empty_list-false, each_str-empty,
  IsSignerList, principal_signers-empty, IsFunctionList, functions_errors-empty,
}

abbrev pub IsPred : ArgPred → Type 0
IsPred (string_in p) = (0 < length p.values) × AllDiffer p.values
IsPred (string_prefix p) = length p.prefix ≤ max_string_pred_len
IsPred (address_eq p) = is_address_shape p.address ≡ true
IsPred is_self = Unit
IsPred (u32_eq p) = Unit

pred_errors-empty :
    (rule : Str) (index : ℕ) (pred : ArgPred) → pred_errors rule index pred ≡ [] → IsPred pred
unfolding pred_errors
pred_errors-empty rule index (string_in p) h =
    let (a, b) = append-empty (report (is_empty_list p.values) _) _ h in
    (
      is_empty_list-false p.values (report-empty (is_empty_list p.values) _ a),
      (each_str-empty _ _ [] p.values b).0,
    )
pred_errors-empty rule index (string_prefix p) h =
    let l = report-empty (ltb max_string_pred_len (length p.prefix)) _ h in ground (arith, l)
pred_errors-empty rule index (address_eq p) h = report-not-empty (is_address_shape p.address) _ h
pred_errors-empty rule index is_self h = tt
pred_errors-empty rule index (u32_eq p) h = tt

abbrev pub IndexAbsent : ℕ → List ArgConstraint → Type 0
IndexAbsent i [] = Unit
IndexAbsent i (c ∷ cs) = (c.index ≢ i) × IndexAbsent i cs

abbrev pub IndicesDiffer : List ArgConstraint → Type 0
IndicesDiffer [] = Unit
IndicesDiffer (c ∷ cs) = IndexAbsent c.index cs × IndicesDiffer cs

args_loop-empty :
    (rule : Str) (seen : List ℕ) (cs : List ArgConstraint)
    → args_loop rule seen cs ≡ []
    → IndicesDiffer cs
      × ((i : ℕ) → contains seen i ≡ true → IndexAbsent i cs)
      × All (λ c. IsPred c.pred) cs
unfolding args_loop
args_loop-empty rule seen [] h = (tt, λ i k. tt, tt)
args_loop-empty rule seen (c ∷ cs) h =
    let (a, b) = append-empty (report (contains seen c.index) _) _ h in
    let (d, e) = append-empty (pred_errors rule c.index c.pred) _ b in
    let (x, u, v) = args_loop-empty rule (c.index ∷ seen) cs e in
    let n = report-empty (contains seen c.index) _ a in
    (
      (u c.index (ground arith), x),
      λ i k. (
        λ q.
            let t : contains seen c.index ≡ true = ap (contains seen) q ∙ k in
            absurd (ground (arith, n, t)),
        u i (ground (arith, k)),
      ),
      (pred_errors-empty rule c.index c.pred d, v),
    )

abbrev pub IsArgList : Option (List ArgConstraint) → Type 0
IsArgList none = Unit
IsArgList (some cs) = (0 < length cs) × IndicesDiffer cs × All (λ c. IsPred c.pred) cs

args_errors-empty :
    (rule : Str) (args : Option (List ArgConstraint)) → args_errors rule args ≡ [] → IsArgList args
unfolding args_errors
args_errors-empty rule none h = tt
args_errors-empty rule (some cs) h =
    let (a, b) = append-empty (report (is_empty_list cs) _) _ h in
    let (x, u, v) = args_loop-empty rule [] cs b in
    (is_empty_list-false cs (report-empty (is_empty_list cs) _ a), x, v)

abbrev pub IsScope : Scope → Type 0
IsScope (contract scope) = is_contract_address_shape scope.address ≡ true
IsScope self_admin = Unit

scope_errors-empty : (rule : Str) (scope : Scope) → scope_errors rule scope ≡ [] → IsScope scope
unfolding scope_errors
scope_errors-empty rule (contract scope) h =
    report-not-empty (is_contract_address_shape scope.address) _ h
scope_errors-empty rule self_admin h = tt

abbrev pub IsExpiry : Option ℕ → Type 0
IsExpiry none = Unit
IsExpiry (some n) = 0 < n

expiry_errors-empty : (rule : Str) (o : Option ℕ) → expiry_errors rule o ≡ [] → IsExpiry o
unfolding expiry_errors
expiry_errors-empty rule none h = tt
expiry_errors-empty rule (some n) h = let l = report-empty (n == 0) _ h in ground (arith, l)

-- A cap is on a contract's rule, meters that contract, and has a positive limit and period.
abbrev pub IsCap : Scope → Option CapConstraint → Type 0
IsCap scope none = Unit
IsCap scope (some cap) =
    ((n : ℕ) × (parse_i128 cap.limit ≡ some (pos n)) × (0 < n))
    × (0 < cap.period_ledgers)
    × ((c : ContractScope) × (scope ≡ contract c)
        × ((cap.token ≡ none) ⊎ (cap.token ≡ some c.address)))

limit-positive : (o : Option ℤ) → is_bad_limit o ≡ false → (n : ℕ) × (o ≡ some (pos n)) × (0 < n)
limit-positive none h = absurd cc
limit-positive (some (pos n)) h = (n, refl, ground (arith, h))
limit-positive (some (negsuc n)) h = absurd cc

cap_token-empty :
    (rule : Str) (scope : Scope) (token : Option Str)
    → cap_token_errors rule scope token ≡ []
    → (c : ContractScope) × (scope ≡ contract c) × ((token ≡ none) ⊎ (token ≡ some c.address))
unfolding cap_token_errors
cap_token-empty rule (contract scope) none h = (scope, refl, inl refl)
cap_token-empty rule (contract scope) (some token) h =
    elim (Bool-cases (is_contract_address_shape token)) [
      | inl t ↦ (
        scope,
        refl,
        inr (
            ap some (
              list_eq→eq token scope.address
                (report-not-empty (list_eq token scope.address) _ (rw t at h)))),
      )
      | inr n ↦ absurd (ground (arith, h, n))
    ]
cap_token-empty rule self_admin token h = absurd cc

cap_errors-empty :
    (rule : Str) (scope : Scope) (cap : Option CapConstraint)
    → cap_errors rule scope cap ≡ []
    → IsCap scope cap
unfolding cap_errors
cap_errors-empty rule scope none h = tt
cap_errors-empty rule scope (some cap) h =
    let (a, b) = append-empty (report (is_bad_limit (parse_i128 cap.limit)) _) _ h in
    let (c, d) = append-empty (report (cap.period_ledgers == 0) _) _ b in
    let l = report-empty (cap.period_ledgers == 0) _ c in
    (
      limit-positive (parse_i128 cap.limit)
          (report-empty (is_bad_limit (parse_i128 cap.limit)) _ a),
      ground (arith, l),
      cap_token-empty rule scope cap.token d,
    )

module _ (hex_decode : Str → Option Bytes) where
  abbrev pub IsPrincipals : List Str → Principals → Type 0
  IsPrincipals declared (all a) = IsSignerList declared a.signers
  IsPrincipals declared (threshold t) =
      IsSignerList declared t.signers × (0 < t.m) × (t.m ≤ length t.signers)
  IsPrincipals declared (self_authenticating s) =
      (s.ack ≡ ack_sentinel)
      × (is_contract_address_shape s.policy ≡ true)
      × (is_some (hex_decode s.install_param_hex) ≡ true)

  principals_errors-empty :
      (rule : Str) (declared : List Str) (p : Principals)
      → principals_errors hex_decode rule declared p ≡ []
      → IsPrincipals declared p
  unfolding principals_errors
  principals_errors-empty rule declared (all a) h =
      principal_signers-empty rule declared a.signers h
  principals_errors-empty rule declared (threshold t) h =
      let (a, b) = append-empty (validate_principal_signers rule declared t.signers) _ h in
      let l = report-empty ((t.m == 0) || ltb (length t.signers) t.m) _ b in
      (principal_signers-empty rule declared t.signers a, ground (arith, l), ground (arith, l))
  principals_errors-empty rule declared (self_authenticating s) h =
      let (a, b) = append-empty (report (not (list_eq s.ack ack_sentinel)) _) _ h in
      let (c, d) = append-empty (report (not (is_contract_address_shape s.policy)) _) _ b in
      (
        list_eq→eq s.ack ack_sentinel (report-not-empty (list_eq s.ack ack_sentinel) _ a),
        report-not-empty (is_contract_address_shape s.policy) _ c,
        report-not-empty (is_some (hex_decode s.install_param_hex)) _ d,
      )

  pub record IsRule (declared : List Str) (rule : Rule) : Type 0 where
    pub scoped : IsScope rule.scope
    pub principled : IsPrincipals declared rule.principals
    pub functional : IsFunctionList rule.functions
    pub constrained : IsArgList rule.args
    pub expires : IsExpiry rule.not_after_ledger
    pub capped : IsCap rule.scope rule.cap

  pub validate_rule-empty :
      (rule : Rule) (declared : List Str)
      → validate_rule hex_decode rule declared ≡ []
      → IsRule declared rule
  unfolding validate_rule
  validate_rule-empty rule declared h =
      let (a, h₁) = append-empty (scope_errors rule.name rule.scope) _ h in
      let (b, h₂) =
        append-empty (principals_errors hex_decode rule.name declared rule.principals) _ h₁ in
      let (c, h₃) = append-empty (functions_errors rule.name rule.functions) _ h₂ in
      let (d, h₄) = append-empty (args_errors rule.name rule.args) _ h₃ in
      let (e, f) = append-empty (expiry_errors rule.name rule.not_after_ledger) _ h₄ in
      record {
        scoped = scope_errors-empty rule.name rule.scope a;
        principled = principals_errors-empty rule.name declared rule.principals b;
        functional = functions_errors-empty rule.name rule.functions c;
        constrained = args_errors-empty rule.name rule.args d;
        expires = expiry_errors-empty rule.name rule.not_after_ledger e;
        capped = cap_errors-empty rule.name rule.scope rule.cap f;
      }
