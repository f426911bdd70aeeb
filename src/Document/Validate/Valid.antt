-- ===== src/Document/Validate/Valid.antt =====
-- crates/perch-ir/src/validate.rs: what holds of a document that passes.
use perch.Common.{
  ℕ, ◌+◌, ◌≤◌, ◌<◌, ◌≡◌, ◌≢◌, refl, sym, ◌∙◌, ap, Bytes, Str, true, false, ◌||◌, not, Option, none,
  some, List, [], ◌∷◌, ◌++◌, map, arith, length, list_eq, list_eq_self, if◌then◌else◌, ltb, ◌==◌,
  ==_iff, ok,
}
use perch.Document.{
  Scope, contract, self_admin, Rule, GuardianSet, ZkFactor, RecoveryMode, guardian_only, zk_only,
  combined, RecoveryConfig, BaselineCommitment, PolicyDoc,
}
use perch.Document.Strkey.{
  is_contract_address_shape, is_address_shape, is_sha256_hex, is_canonical_hex,
}
use perch.Document.Validate.{
  Errors, report, seen_str, is_empty_list, is_empty_str, each_str, zk_of, avoid_loop,
  validate_rules_avoid_zk_contracts, validate_guardian_set, validate_zk_factor, mode_errors,
  validate_recovery, validate_rule, signers_loop, rules_loop, declared_ids, collect, result_of,
  validate, invalid_baseline_doc_hash, rule_scoped_to_recovery_contract, empty_rule_name,
  duplicate_rule_name,
}
use perch.Document.Validate.Declared.{
  append-empty, report-empty, report-not-empty, OneOf, AllDiffer, All, All-map, Unseen, Unseen-head,
  Absent-head, is_empty_list-false, each_str-empty, seen_str-OneOf,
}
use perch.Document.Validate.Keys.{AreSigners, signers_loop-empty}
use perch.Document.Validate.Args.{IsRule, validate_rule-empty}

abbrev pub IsGuardianSet : GuardianSet → Type 0
IsGuardianSet g =
    AllDiffer g.guardians
    × All (λ a. is_address_shape a ≡ true) g.guardians
    × (0 < g.quorum)
    × (g.quorum ≤ length g.guardians)

guardian_set-empty : (g : GuardianSet) → validate_guardian_set g ≡ [] → IsGuardianSet g
unfolding validate_guardian_set
guardian_set-empty g h =
    let (a, b) = append-empty (report (is_empty_list g.guardians) _) _ h in
    let (c, d) = append-empty (each_str _ _ [] g.guardians) _ b in
    let (x, u, v) = each_str-empty _ _ [] g.guardians c in
    let l = report-empty ((g.quorum == 0) || ltb (length g.guardians) g.quorum) _ d in
    (
      x,
      All-map _ (λ a. is_address_shape a ≡ true) g.guardians
          (λ a e. report-not-empty (is_address_shape a) _ e) v,
      ground (arith, l),
      ground (arith, l),
    )

abbrev pub IsZkFactor : ZkFactor → Type 0
IsZkFactor z =
    (is_contract_address_shape z.adapter ≡ true)
    × (is_sha256_hex z.circuit_id ≡ true)
    × (is_contract_address_shape z.pool ≡ true)
    × (is_sha256_hex z.enrollment_id ≡ true)
    × (is_canonical_hex z.commitment ≡ true)

zk_factor-empty : (z : ZkFactor) → validate_zk_factor z ≡ [] → IsZkFactor z
unfolding validate_zk_factor
zk_factor-empty z h =
    let (a, h₁) = append-empty (report (not (is_contract_address_shape z.adapter)) _) _ h in
    let (b, h₂) = append-empty (report (not (is_sha256_hex z.circuit_id)) _) _ h₁ in
    let (c, h₃) = append-empty (report (not (is_contract_address_shape z.pool)) _) _ h₂ in
    let (d, e) = append-empty (report (not (is_sha256_hex z.enrollment_id)) _) _ h₃ in
    (
      report-not-empty (is_contract_address_shape z.adapter) _ a,
      report-not-empty (is_sha256_hex z.circuit_id) _ b,
      report-not-empty (is_contract_address_shape z.pool) _ c,
      report-not-empty (is_sha256_hex z.enrollment_id) _ d,
      report-not-empty (is_canonical_hex z.commitment) _ e,
    )

abbrev pub IsMode : RecoveryMode → Type 0
IsMode (guardian_only g) = IsGuardianSet g
IsMode (zk_only z) = IsZkFactor z
IsMode (combined g z) = IsGuardianSet g × IsZkFactor z

mode_errors-empty : (m : RecoveryMode) → mode_errors m ≡ [] → IsMode m
unfolding mode_errors
mode_errors-empty (guardian_only g) h = guardian_set-empty g h
mode_errors-empty (zk_only z) h = zk_factor-empty z h
mode_errors-empty (combined g z) h =
    let (a, b) = append-empty (validate_guardian_set g) _ h in
    (guardian_set-empty g a, zk_factor-empty z b)

abbrev pub IsBaseline : Option BaselineCommitment → Type 0
IsBaseline none = Unit
IsBaseline (some b) = is_sha256_hex b.doc_hash ≡ true

pub record IsRecovery (declared : List Str) (r : RecoveryConfig) : Type 0 where
  pub replaceable_nonempty : 0 < length r.replaceable
  pub replaceable_differ : AllDiffer r.replaceable
  pub replaceable_declared : All (λ id. OneOf id declared) r.replaceable
  pub delays : 0 < r.delay_ledgers
  pub expires : 0 < r.expiry_ledgers
  pub cancels : 0 < r.max_cancels
  pub controlled : is_contract_address_shape r.controller ≡ true
  pub based : IsBaseline r.baseline
  pub evidenced : IsMode r.mode

-- A rule is not scoped to the factor's contracts.
abbrev pub AvoidsScope : ZkFactor → Scope → Type 0
AvoidsScope zk (contract c) = (c.address ≢ zk.adapter) × (c.address ≢ zk.pool)
AvoidsScope zk self_admin = Unit

abbrev pub Avoids : ZkFactor → Rule → Type 0
Avoids zk rule = AvoidsScope zk rule.scope

abbrev pub RulesAvoid : Option ZkFactor → List Rule → Type 0
RulesAvoid none rules = Unit
RulesAvoid (some zk) rules = All (Avoids zk) rules

avoid-scope :
    (zk : ZkFactor) (rule : Rule) (scope : Scope)
    → elim scope [
      | contract c ↦
          report
            (list_eq c.address zk.adapter || list_eq c.address zk.pool)
            (rule_scoped_to_recovery_contract rule.name c.address)
      | self_admin ↦ []
    ]
      ≡ []
    → AvoidsScope zk scope
avoid-scope zk rule (contract c) h =
    let l = report-empty (list_eq c.address zk.adapter || list_eq c.address zk.pool) _ h in
    (
      λ f. absurd (ground (arith, l, ap (list_eq c.address) (sym f) ∙ list_eq_self c.address)),
      λ f. absurd (ground (arith, l, ap (list_eq c.address) (sym f) ∙ list_eq_self c.address)),
    )
avoid-scope zk rule self_admin h = tt

avoid_loop-empty :
    (zk : ZkFactor) (rules : List Rule) → avoid_loop zk rules ≡ [] → All (Avoids zk) rules
unfolding avoid_loop
avoid_loop-empty zk [] h = tt
avoid_loop-empty zk (rule ∷ rules) h =
    let (a, b) = append-empty _ (avoid_loop zk rules) h in
    (avoid-scope zk rule rule.scope a, avoid_loop-empty zk rules b)

report-IsBaseline :
    (o : Option BaselineCommitment)
    → elim o [
      | none ↦ []
      | some b ↦ report (not (is_sha256_hex b.doc_hash)) (invalid_baseline_doc_hash b.doc_hash)
    ]
      ≡ []
    → IsBaseline o
report-IsBaseline none h = tt
report-IsBaseline (some b) h = report-not-empty (is_sha256_hex b.doc_hash) _ h

validate_recovery-empty :
    (r : RecoveryConfig) (declared : List Str)
    → validate_recovery r declared ≡ []
    → IsRecovery declared r
unfolding validate_recovery
validate_recovery-empty r declared h =
    let (a, h₁) = append-empty (report (is_empty_list r.replaceable) _) _ h in
    let (b, h₂) = append-empty (each_str _ _ [] r.replaceable) _ h₁ in
    let (c, h₃) = append-empty (report (r.delay_ledgers == 0) _) _ h₂ in
    let (d, h₄) = append-empty (report (r.expiry_ledgers == 0) _) _ h₃ in
    let (e, h₅) = append-empty (report (r.max_cancels == 0) _) _ h₄ in
    let (f, h₆) = append-empty (report (not (is_contract_address_shape r.controller)) _) _ h₅ in
    let (g, m) = append-empty _ (mode_errors r.mode) h₆ in
    let (x, u, v) = each_str-empty _ _ [] r.replaceable b in
    let c' = report-empty (r.delay_ledgers == 0) _ c in
    let d' = report-empty (r.expiry_ledgers == 0) _ d in
    let e' = report-empty (r.max_cancels == 0) _ e in
    record {
      replaceable_nonempty =
          is_empty_list-false r.replaceable (report-empty (is_empty_list r.replaceable) _ a);
      replaceable_differ = x;
      replaceable_declared =
          All-map _ (λ id. OneOf id declared) r.replaceable
            (λ id q. seen_str-OneOf declared id (report-not-empty (seen_str declared id) _ q)) v;
      delays = ground (arith, c');
      expires = ground (arith, d');
      cancels = ground (arith, e');
      controlled = report-not-empty (is_contract_address_shape r.controller) _ f;
      based = report-IsBaseline r.baseline g;
      evidenced = mode_errors-empty r.mode m;
    }

avoid-factor :
    (rules : List Rule) (o : Option ZkFactor)
    → elim o [ none ↦ [] | some zk ↦ avoid_loop zk rules ] ≡ []
    → RulesAvoid o rules
avoid-factor rules none h = tt
avoid-factor rules (some zk) h = avoid_loop-empty zk rules h

avoid-empty :
    (doc : PolicyDoc) (r : RecoveryConfig)
    → validate_rules_avoid_zk_contracts doc r ≡ []
    → RulesAvoid (zk_of r.mode) doc.rules
unfolding validate_rules_avoid_zk_contracts
avoid-empty doc r h = avoid-factor doc.rules (zk_of r.mode) h

result_of-empty : (es : Errors) → result_of es ≡ ok tt → es ≡ []
result_of-empty [] h = refl
result_of-empty (e ∷ es) h = absurd cc

module _ (hex_decode : Str → Option Bytes) where
  abbrev pub names : List Rule → List Str
  names rules = map (λ r. r.name) rules

  name-empty :
      (position : ℕ) (seen : List Str) (name : Str)
      → (if is_empty_str name
          then empty_rule_name position ∷ []
          else report (seen_str seen name) (duplicate_rule_name name))
        ≡ []
      → (is_empty_str name ≡ false) × (0 < length name) × (seen_str seen name ≡ false)
  name-empty position seen [] h = absurd cc
  name-empty position seen (c ∷ cs) h =
      (refl, omega arith, report-empty (seen_str seen (c ∷ cs)) _ h)

  rules_loop-empty :
      (declared : List Str) (position : ℕ) (seen : List Str) (rules : List Rule)
      → rules_loop hex_decode declared position seen rules ≡ []
      → All (λ r. 0 < length r.name) rules
        × AllDiffer (names rules)
        × Unseen seen (names rules)
        × All (IsRule hex_decode declared) rules
  unfolding rules_loop
  rules_loop-empty declared position seen [] h = (tt, tt, λ x k. tt, tt)
  rules_loop-empty declared position seen (rule ∷ rules) h =
      let (a, b) =
        append-empty
          (if is_empty_str rule.name
            then empty_rule_name position ∷ []
            else report (seen_str seen rule.name) (duplicate_rule_name rule.name))
          _ h in
      let (c, d) = append-empty (validate_rule hex_decode rule declared) _ b in
      let (n, l, f) = name-empty position seen rule.name a in
      let (x, y, u, v) =
        rules_loop-empty declared (position + 1) (rule.name ∷ seen) rules (rw n at d) in
      (
        (l, x),
        (Absent-head seen rule.name (names rules) u, y),
        Unseen-head seen rule.name (names rules) f u,
        (validate_rule-empty hex_decode rule declared c, v),
      )

  abbrev pub RecoveryHolds : PolicyDoc → Option RecoveryConfig → Type 0
  RecoveryHolds doc none = Unit
  RecoveryHolds doc (some r) =
      IsRecovery (declared_ids hex_decode doc) r × RulesAvoid (zk_of r.mode) doc.rules

  -- A document that may be hashed and applied.
  pub record IsDoc (doc : PolicyDoc) : Type 0 where
    pub versioned : doc.version ≡ 1
    pub signed : AreSigners hex_decode doc.signers
    pub named : All (λ (r : Rule). 0 < length r.name) doc.rules
    pub names_differ : AllDiffer (names doc.rules)
    pub ruled : All (IsRule hex_decode (declared_ids hex_decode doc)) doc.rules
    pub recovers : RecoveryHolds doc doc.recovery

  -- What the optional part of the document reports.
  recovery_part :
      (doc : PolicyDoc) (o : Option RecoveryConfig)
      → elim o [
        | none ↦ []
        | some r ↦
            validate_recovery r (declared_ids hex_decode doc)
            ++ validate_rules_avoid_zk_contracts doc r
      ]
        ≡ []
      → RecoveryHolds doc o
  recovery_part doc none h = tt
  recovery_part doc (some r) h =
      let (a, b) = append-empty (validate_recovery r (declared_ids hex_decode doc)) _ h in
      (validate_recovery-empty r (declared_ids hex_decode doc) a, avoid-empty doc r b)

  -- A document that passes validation has version 1; its signers have different ids and different keys, in hex
  -- of a bounded length at well-formed addresses; its rules have different names, well-formed
  -- scopes, principals that are declared and differ and a threshold within their number, distinct function
  -- names that are symbols, satisfiable argument predicates at distinct indices, an expiry that is not 0, and
  -- a positive cap on their own contract; and its recovery member has declared replaceable signers,
  -- positive delays, a quorum within the guardians and a canonical commitment, at contracts that no rule is
  -- scoped to.
  pub validate-IsDoc : (doc : PolicyDoc) → validate hex_decode doc ≡ ok tt → IsDoc doc
  unfolding validate collect
  validate-IsDoc doc h =
      let e = result_of-empty (collect hex_decode doc) h in
      let (a, h₁) = append-empty (report (not (doc.version == 1)) _) _ e in
      let (b, h₂) = append-empty (signers_loop hex_decode 0 _ doc.signers) _ h₁ in
      let (c, d) =
        append-empty (rules_loop hex_decode (declared_ids hex_decode doc) 0 [] doc.rules) _ h₂ in
      let (s, u, v) = signers_loop-empty hex_decode 0 _ doc.signers b in
      let (x, y, z, w) = rules_loop-empty (declared_ids hex_decode doc) 0 [] doc.rules c in
      record {
        versioned = (==_iff doc.version 1).0 (report-not-empty (doc.version == 1) _ a);
        signed = s;
        named = x;
        names_differ = y;
        ruled = w;
        recovers = recovery_part doc doc.recovery d;
      }
