-- ===== src/Compile/Rules.antt =====
-- crates/perch-compile/src/lib.rs: what each lowered rule has of the rule it comes from.
use perch.Common.{
  ℕ, zero, suc, ◌≤◌, ◌<◌, ◌≡◌, refl, ◌↔◌, ◌⊎◌, inl, inr, Str, true, false, not, Option, none, some,
  List, [], ◌∷◌, length, ◌%◌, ◌^◌, arith, list_eq, list_eq→eq, ok, ok_or, ok_or-ok, >>=-eq-ok,
  Bool-cases, ◌>>=◌, is_some,
}
use perch.Program.Verdict.{true_v}
use perch.Program.Leaf.{create_contract_host_fn, Env, EvalInputs}
use perch.Program.Rpn.{eval, InstallParams, RpnProgram, validate}
use perch.Document.{
  SignerDecl, SignerMethod, external, delegated, Scope, contract, Principals, all, threshold,
  self_authenticating, AllPrincipals, Rule, PolicyDoc, CapConstraint,
}
use perch.Document as Document
use perch.Document.Text.{parse_i128}
use perch.Compile.{
  Sdk, unknown_signer_ref, unsupported, SignerSpec, external_spec, delegated_spec, ScopeSpec,
  contract_spec, self_admin, CapSpec, LoweredRule, rule_hash_onchain, lower_scope, floor_of,
  find_signer, lower_signer, lower_signers, lower_cap, build_program, is_all, is_constraint_free,
  lower_install, lower_expiry, lower_rule,
}
use perch.Compile.Meaning.{Allows, build_program-Allows}

-- The same contract, or the account itself.
abbrev pub ScopeOf : Scope → ScopeSpec → Type 0
ScopeOf (contract c) (contract_spec address) = c.address ≡ address
ScopeOf Document.self_admin self_admin = Unit
ScopeOf _ _ = ⊥

-- The same verifier and key, or the same address.
abbrev pub MethodOf : SignerMethod → SignerSpec → Type 0
MethodOf (external verifier key) (external_spec v k) = (verifier ≡ v) × (key ≡ k)
MethodOf (delegated address) (delegated_spec a) = address ≡ a
MethodOf _ _ = ⊥

-- The ids that the principals name and how many of them must sign: all, as a 32-bit count, or the
-- threshold.
abbrev pub Requires : Principals → List Str → ℕ → Type 0
Requires (all a) ids floor = (ids ≡ a.signers) × (floor ≡ length a.signers % 2 ^ 32)
Requires (threshold t) ids floor = (ids ≡ t.signers) × (floor ≡ t.m)
Requires (self_authenticating s) ids floor = ⊥

-- The same token and period, and the limit that the document's decimal text denotes.
abbrev pub CapOf : Option CapConstraint → Option CapSpec → Type 0
CapOf none none = Unit
CapOf (some c) (some s) =
    (s.token ≡ c.token)
    × (s.period_ledgers ≡ c.period_ledgers)
    × (parse_i128 c.limit ≡ some s.limit)
CapOf _ _ = ⊥

-- A declaration of the id with this method.
abbrev pub Declared : List SignerDecl → Str → SignerSpec → Type 0
Declared [] id spec = ⊥
Declared (d ∷ ds) id spec = ((d.id ≡ id) × MethodOf d.method spec) ⊎ Declared ds id spec

abbrev pub AllDeclared : List SignerDecl → List Str → List SignerSpec → Type 0
AllDeclared decls [] [] = Unit
AllDeclared decls (id ∷ ids) (s ∷ ss) = Declared decls id s × AllDeclared decls ids ss
AllDeclared decls _ _ = ⊥

-- The document's bound is the first ledger at which a rule is dead, and the account's is the last
-- one at which it is live.
abbrev pub LiveInDocument : Option ℕ → ℕ → Type 0
LiveInDocument none ledger = Unit
LiveInDocument (some x) ledger = ledger < x

abbrev pub LiveInAccount : Option ℕ → ℕ → Type 0
LiveInAccount none ledger = Unit
LiveInAccount (some x) ledger = ledger ≤ x

-- An environment and inputs, for a fact that depends on neither.
abbrev no_env : Env
no_env = record {
  host = record {
    as_address = λ v. none;
    as_symbol = λ v. none;
    as_u32 = λ v. none;
    as_i128 = λ v. none;
    as_bytes = λ v. none;
    as_string = λ v. none;
  };
  sequence = 0;
}

abbrev no_inputs : EvalInputs
no_inputs = record { context = create_contract_host_fn; signer_count = 0; self_addr = 0 }

-- The rule asks for all of its signers and for nothing else.
abbrev pub Bare : Rule → Type 0
Bare rule =
    ((a : AllPrincipals) × (rule.principals ≡ all a))
    × (rule.functions ≡ none)
    × (rule.args ≡ none)
    × (rule.cap ≡ none)

module _ (sdk : Sdk) (doc : PolicyDoc) where
  -- No program for a bare rule, and otherwise the validated program of the rule with its hash, true of
  -- exactly the calls that the rule lets pass.
  abbrev pub Installs : Rule → ℕ → Option InstallParams → Type 0
  Installs rule floor none = Bare rule
  Installs rule floor (some params) =
      (¬ Bare rule)
      × (params.doc_hash ≡ rule_hash_onchain sdk rule)
      × (build_program sdk rule floor ≡ ok params.program)
      × (validate params.program ≡ ok tt)
      × ((env : Env) (inputs : EvalInputs)
          → (eval env params.program inputs ≡ true_v) ↔ Allows sdk env inputs rule floor)

  -- A lowered rule and the rule that it comes from.
  pub record Lowers (rule : Rule) (r : LoweredRule) : Type 0 where
    pub named : r.name ≡ rule.name
    pub scoped : ScopeOf rule.scope r.scope
    pub ids : List Str
    pub floor : ℕ
    pub required : Requires rule.principals ids floor
    pub signed : AllDeclared doc.signers ids r.signers
    pub live :
        (ledger : ℕ)
        → LiveInAccount r.valid_until ledger ↔ LiveInDocument rule.not_after_ledger ledger
    pub capped : CapOf rule.cap r.cap
    pub installed : Installs rule floor r.install

  lower_scope-ScopeOf : (s : Scope) → ScopeOf s (lower_scope s)
  unfolding lower_scope
  lower_scope-ScopeOf (contract c) = refl
  lower_scope-ScopeOf Document.self_admin = tt

  lower_signer-MethodOf : (m : SignerMethod) → MethodOf m (lower_signer m)
  unfolding lower_signer
  lower_signer-MethodOf (external verifier key) = (refl, refl)
  lower_signer-MethodOf (delegated address) = refl

  floor_of-Requires :
      (p : Principals) (ids : List Str) (floor : ℕ)
      → floor_of p ≡ some (ids, floor)
      → Requires p ids floor
  unfolding floor_of
  floor_of-Requires (all a) ids floor h = (cc, cc)
  floor_of-Requires (threshold t) ids floor h = (cc, cc)
  floor_of-Requires (self_authenticating s) ids floor h = absurd cc

  find_signer-Declared :
      (decls : List SignerDecl) (id : Str) (d : SignerDecl)
      → find_signer decls id ≡ some d
      → Declared decls id (lower_signer d.method)
  unfolding find_signer
  find_signer-Declared [] id d h = cc
  find_signer-Declared (s ∷ ss) id d h = elim (Bool-cases (list_eq s.id id)) [
    | inl t ↦
        let e : s ≡ d = ground (arith, h, t) in
        let m : MethodOf s.method (lower_signer d.method) =
          rw (← e) (lower_signer-MethodOf s.method) in
        inl (list_eq→eq s.id id t, m)
    | inr n ↦ inr (find_signer-Declared ss id d (ground (arith, h, n)))
  ]

  lower_signers-Declared :
      (rule : Str) (ids : List Str) (specs : List SignerSpec)
      → lower_signers doc.signers rule ids ≡ ok specs
      → AllDeclared doc.signers ids specs
  unfolding lower_signers
  lower_signers-Declared rule [] specs h =
      let e : ◌≡◌ {A = List SignerSpec} [] specs = cc in rw (← e) tt
  lower_signers-Declared rule (id ∷ ids) specs h =
      let (d, ed, k) =
        >>=-eq-ok (ok_or (find_signer doc.signers id) (unknown_signer_ref rule id)) _ h in
      let (rest, er, q) = >>=-eq-ok (lower_signers doc.signers rule ids) _ k in
      let e : lower_signer d.method ∷ rest ≡ specs = cc in
      rw (← e) (
        find_signer-Declared doc.signers id d (ok_or-ok (find_signer doc.signers id) _ d ed),
        lower_signers-Declared rule ids rest er,
      )

  lower_expiry-live :
      (bound out : Option ℕ)
      → lower_expiry sdk bound ≡ ok out
      → (ledger : ℕ) → LiveInAccount out ledger ↔ LiveInDocument bound ledger
  unfolding lower_expiry
  lower_expiry-live none out h ledger =
      let e : ◌≡◌ {A = Option ℕ} none out = cc in rw (← e) (λ u. tt, λ u. tt)
  lower_expiry-live (some zero) out h ledger = cc
  lower_expiry-live (some (suc n)) out h ledger =
      let e : some n ≡ out = cc in rw (← e) (λ l. omega arith, λ l. omega arith)

  lower_cap-none :
      (name : Str) (cap : Option CapConstraint) (out : Option CapSpec)
      → lower_cap name cap ≡ ok out
      → (out ≡ none) ↔ (cap ≡ none)
  unfolding lower_cap
  lower_cap-none name none out h = (λ e. refl, λ e. cc)
  lower_cap-none name (some c) out h =
      let (limit, e, q) = >>=-eq-ok (ok_or (parse_i128 c.limit) _) _ h in
      let f : some (record { token = c.token; limit = limit; period_ledgers = c.period_ledgers })
          ≡ out =
        cc in
      rw (← f) (λ e. cc, λ e. cc)

  lower_cap-CapOf :
      (name : Str) (cap : Option CapConstraint) (out : Option CapSpec)
      → lower_cap name cap ≡ ok out
      → CapOf cap out
  unfolding lower_cap
  lower_cap-CapOf name none out h = let e : ◌≡◌ {A = Option CapSpec} none out = cc in rw (← e) tt
  lower_cap-CapOf name (some c) out h =
      let (limit, e, q) = >>=-eq-ok (ok_or (parse_i128 c.limit) _) _ h in
      let f : some (record { token = c.token; limit = limit; period_ledgers = c.period_ledgers })
          ≡ out =
        cc in
      rw (← f) (refl, refl, ok_or-ok (parse_i128 c.limit) _ limit e)

  not_some-none {ℓ} : {A : Type ℓ} (o : Option A) → (not (is_some o) ≡ true) ↔ (o ≡ none)
  not_some-none none = (λ e. refl, λ e. refl)
  not_some-none (some a) = (λ e. absurd cc, λ e. absurd cc)

  is_all_iff : (p : Principals) → (is_all sdk p ≡ true) ↔ ((a : AllPrincipals) × (p ≡ all a))
  is_all_iff (all a) = (λ e. (a, refl), λ e. refl)
  is_all_iff (threshold t) = (λ e. absurd cc, λ (a, e). absurd cc)
  is_all_iff (self_authenticating t) = (λ e. absurd cc, λ (a, e). absurd cc)

  constraint_free_iff :
      (rule : Rule) (cap : Option CapSpec)
      → ((cap ≡ none) ↔ (rule.cap ≡ none))
      → (is_constraint_free sdk rule cap ≡ true) ↔ Bare rule
  unfolding is_constraint_free
  constraint_free_iff rule cap (there, back) = (
    λ h. (
      (is_all_iff rule.principals).0 (ground (arith, h)),
      (not_some-none rule.functions).0 (ground (arith, h)),
      (not_some-none rule.args).0 (ground (arith, h)),
      there ((not_some-none cap).0 (ground (arith, h))),
    ),
    λ (a, f, g, c). ground (
      arith,
      (is_all_iff rule.principals).1 a,
      (not_some-none rule.functions).1 f,
      (not_some-none rule.args).1 g,
      (not_some-none cap).1 (back c),
    ),
  )

  -- The installed program, if the rule is not bare.
  install-cases :
      (rule : Rule) (floor : ℕ) (cap : Option CapSpec) (out : Option InstallParams)
      → lower_install sdk rule floor cap ≡ ok out
      → ((is_constraint_free sdk rule cap ≡ true) × (out ≡ none))
        ⊎ ((is_constraint_free sdk rule cap ≡ false)
            × ((program : RpnProgram) × (build_program sdk rule floor ≡ ok program)
                × (out
                    ≡ some (record { program = program; doc_hash = rule_hash_onchain sdk rule }))))
  unfolding lower_install
  install-cases rule floor cap out h = elim (Bool-cases (is_constraint_free sdk rule cap)) [
    | inl t ↦ inl (t, ground (arith, h, t))
    | inr n ↦
        let k : build_program sdk rule floor >>= (λ program.
          ok (some (record { program = program; doc_hash = rule_hash_onchain sdk rule })))
            ≡ ok out =
          rw n at h in
        let (program, e, q) = >>=-eq-ok (build_program sdk rule floor) _ k in
        inr (n, (program, e, cc))
  ]

  install-Installs :
      (rule : Rule) (floor : ℕ) (cap : Option CapSpec) (out : Option InstallParams)
      → lower_install sdk rule floor cap ≡ ok out
      → ((cap ≡ none) ↔ (rule.cap ≡ none))
      → Installs rule floor out
  install-Installs rule floor cap out h c =
      let (there, back) = constraint_free_iff rule cap c in
      elim (install-cases rule floor cap out h) [
        | inl (t, e) ↦ rw e (there t)
        | inr (n, (program, b, e)) ↦ rw e (
          λ bare. absurd (ground (arith, n, back bare)),
          refl,
          b,
          (build_program-Allows sdk no_env no_inputs rule floor program b).0,
          λ env inputs. (build_program-Allows sdk env inputs rule floor program b).1,
        )
      ]

  -- What the record says of a given program, and of none.
  pub Installs-some :
      (rule : Rule) (floor : ℕ) (o : Option InstallParams) (params : InstallParams)
      → o ≡ some params
      → Installs rule floor o
      → Installs rule floor (some params)
  Installs-some rule floor o params e h = rw e at h

  pub Installs-none :
      (rule : Rule) (floor : ℕ) (o : Option InstallParams)
      → o ≡ none
      → Installs rule floor o
      → Bare rule
  Installs-none rule floor o e h = rw e at h

  pub lower_rule-Lowers :
      (rule : Rule) (r : LoweredRule) → lower_rule sdk doc rule ≡ ok r → Lowers rule r
  unfolding lower_rule
  lower_rule-Lowers rule r h =
      let ((ids, floor), ef, k) =
        >>=-eq-ok (ok_or (floor_of rule.principals) (unsupported rule.name)) _ h in
      let (signers, es, k₂) = >>=-eq-ok (lower_signers doc.signers rule.name ids) _ k in
      let (cap, ec, k₃) = >>=-eq-ok (lower_cap rule.name rule.cap) _ k₂ in
      let (install, ei, k₄) = >>=-eq-ok (lower_install sdk rule floor cap) _ k₃ in
      let (until, eu, k₅) = >>=-eq-ok (lower_expiry sdk rule.not_after_ledger) _ k₄ in
      let c = lower_cap-none rule.name rule.cap cap ec in
      let installed = install-Installs rule floor cap install ei c in
      let e : record {
        name = rule.name;
        scope = lower_scope rule.scope;
        signers = signers;
        valid_until = until;
        install = install;
        cap = cap;
      }
          ≡ r =
        cc in
      rw (← e) (record {
        named = refl;
        scoped = lower_scope-ScopeOf rule.scope;
        ids = ids;
        floor = floor;
        required =
            floor_of-Requires rule.principals ids floor
              (ok_or-ok (floor_of rule.principals) _ (ids, floor) ef);
        signed = lower_signers-Declared rule.name ids signers es;
        live = lower_expiry-live rule.not_after_ledger until eu;
        capped = lower_cap-CapOf rule.name rule.cap cap ec;
        installed = installed;
      })
