-- ===== src/Document/Canon.antt =====
-- crates/perch-ir/src/canon.rs: the canonical JSON of a document. Strings are their UTF-8 bytes: the
-- characters that the code escapes are bytes of their own, and all others are copied.
use perch.Common.{
  ℕ, ◌+◌, ◌-◌, ◌/◌, ◌%◌, Str, Option, none, some, List, [], ◌∷◌, ◌++◌, map, ltb, ◌==◌,
  if◌then◌else◌,
}
use perch.Document.{
  external, delegated, SignerDecl, Scope, contract, self_admin, Principals, all, threshold,
  self_authenticating, ArgPred, is_self, address_eq, string_in, string_prefix, u32_eq,
  ArgConstraint, CapConstraint, Rule, RecoveryProfile, loss, protected, GuardianSet, ZkFactor,
  BaselineCommitment, RecoveryMode, guardian_only, zk_only, combined, RecoveryConfig, PolicyDoc,
}
use perch.Document.Text.{codes, str_lt, u32_to_string}

-- `Cv`, with the lists of an array's items and of an object's members.
mutual
  pub data Cv : Type 0 where
    str : Str → Cv
    u32 : ℕ → Cv
    arr : Items → Cv
    obj : Members → Cv

  pub data Items : Type 0 where
    nil : Items
    item : Cv → Items → Items

  pub data Members : Type 0 where
    end : Members
    member : Str → Cv → Members → Members

-- `HEX[n]`.
abbrev pub hex_digit : ℕ → ℕ
hex_digit n = if ltb n 10 then b'0' + n else b'a' + (n - 10)

-- One character of a string literal.
unfoldable pub escape : ℕ → Str
escape c =
    if c == b'"'
    then codes "\\\""
    else if c == b'\\'
    then codes "\\\\"
    else if c == 8
    then codes "\\b"
    else if c == 9
    then codes "\\t"
    else if c == 10
    then codes "\\n"
    else if c == 12
    then codes "\\f"
    else if c == 13
    then codes "\\r"
    else if ltb c 32
    then codes "\\u00" ++ hex_digit (c / 16 % 16) ∷ hex_digit (c % 16) ∷ []
    else c ∷ []

unfoldable pub escape_all : Str → Str
escape_all [] = []
escape_all (c ∷ cs) = escape c ++ escape_all cs

unfoldable pub write_json_string : Str → Str
write_json_string s = (b'"' ∷ []) ++ (escape_all s ++ b'"' ∷ [])

-- `entries.sort_by`, which is stable, as an insertion sort. The keys are ASCII, so that their UTF-16
-- code units are their bytes.
unfoldable pub insert_entry : Str × Str → List (Str × Str) → List (Str × Str)
insert_entry (k, v) [] = (k, v) ∷ []
insert_entry (k, v) ((j, w) ∷ rest) =
    let later = insert_entry (k, v) rest in
    if str_lt j k then (j, w) ∷ later else (k, v) ∷ (j, w) ∷ rest

unfoldable pub sort_entries : List (Str × Str) → List (Str × Str)
sort_entries [] = []
sort_entries (e ∷ es) = insert_entry e (sort_entries es)

-- The parts with commas between them.
unfoldable pub join : List Str → Str
join [] = []
join (x ∷ []) = x
join (x ∷ (y ∷ ys)) = x ++ (b',' ∷ join (y ∷ ys))

abbrev pub write_entry : Str × Str → Str
write_entry (key, value) = write_json_string key ++ (b':' ∷ value)

-- `write_value`. A member's value is written before the members are sorted by their keys.
unfoldable mutual
  pub write_value : Cv → Str
  write_value (str s) = write_json_string s
  write_value (u32 n) = u32_to_string n
  write_value (arr items) = (b'[' ∷ []) ++ (join (write_items items) ++ b']' ∷ [])
  write_value (obj entries) =
      (b'{' ∷ []) ++ (join (map write_entry (sort_entries (write_members entries))) ++ b'}' ∷ [])

  pub write_items : Items → List Str
  write_items nil = []
  write_items (item v vs) = write_value v ∷ write_items vs

  pub write_members : Members → List (Str × Str)
  write_members end = []
  write_members (member key v vs) = (key, write_value v) ∷ write_members vs

abbrev pub items_of {ℓ} : {A : Type ℓ} → (A → Cv) → List A → Items
items_of f [] = nil
items_of f (x ∷ xs) = item (f x) (items_of f xs)

-- `iter().map(f).collect()` into an array.
unfoldable pub array {ℓ} : {A : Type ℓ} → (A → Cv) → List A → Cv
array f xs = arr (items_of f xs)

abbrev pub strings : List Str → Cv
strings xs = array str xs

-- A member that is left out when the field is `None`.
abbrev pub optional {ℓ} : {A : Type ℓ} → Str → (A → Cv) → Option A → Members → Members
optional key f none rest = rest
optional key f (some a) rest = member key (f a) rest

unfoldable pub scope_to_cv : Scope → Cv
scope_to_cv (contract c) =
    obj (
      member (codes "type") (str (codes "contract")) (member (codes "address") (str c.address) end))
scope_to_cv self_admin = obj (member (codes "type") (str (codes "self-admin")) end)

unfoldable pub principals_to_cv : Principals → Cv
principals_to_cv (all a) =
    obj
      (member (codes "type") (str (codes "all")) (member (codes "signers") (strings a.signers) end))
principals_to_cv (threshold t) = obj (
    member (codes "type") (str (codes "threshold"))
      (member (codes "signers") (strings t.signers) (member (codes "m") (u32 t.m) end)))
principals_to_cv (self_authenticating s) = obj (
    member (codes "type") (str (codes "self-authenticating")) (
      member (codes "policy") (str s.policy) (
        member (codes "install-param-hex") (str s.install_param_hex)
          (member (codes "ack") (str s.ack) end))))

unfoldable pub pred_to_cv : ArgPred → Cv
pred_to_cv is_self = obj (member (codes "type") (str (codes "is-self")) end)
pred_to_cv (address_eq p) = obj (
    member (codes "type") (str (codes "address-eq")) (member (codes "address") (str p.address) end))
pred_to_cv (string_in p) = obj (
    member (codes "type") (str (codes "string-in"))
      (member (codes "values") (strings p.values) end))
pred_to_cv (string_prefix p) = obj (
    member (codes "type") (str (codes "string-prefix"))
      (member (codes "prefix") (str p.prefix) end))
pred_to_cv (u32_eq p) =
    obj (member (codes "type") (str (codes "u32-eq")) (member (codes "value") (u32 p.value) end))

unfoldable pub arg_constraint_to_cv : ArgConstraint → Cv
arg_constraint_to_cv a =
    obj (member (codes "index") (u32 a.index) (member (codes "pred") (pred_to_cv a.pred) end))

unfoldable pub cap_to_cv : CapConstraint → Cv
cap_to_cv cap = obj (
    optional (codes "token") str cap.token (
      member (codes "limit") (str cap.limit)
        (member (codes "period-ledgers") (u32 cap.period_ledgers) end)))

unfoldable pub rule_to_cv : Rule → Cv
rule_to_cv r = obj (
    member (codes "name") (str r.name) (
      member (codes "scope") (scope_to_cv r.scope) (
        member (codes "principals") (principals_to_cv r.principals) (
          optional (codes "functions") strings r.functions (
            optional (codes "args") (array arg_constraint_to_cv) r.args (
              optional (codes "not-after-ledger") u32 r.not_after_ledger
                (optional (codes "cap") cap_to_cv r.cap end)))))))

unfoldable pub signer_to_cv : SignerDecl → Cv
signer_to_cv s = elim s.method [
  | external verifier key ↦ obj (
      member (codes "id") (str s.id)
        (member (codes "verifier") (str verifier) (member (codes "key") (str key) end)))
  | delegated address ↦
      obj (member (codes "id") (str s.id) (member (codes "address") (str address) end))
]

unfoldable pub recovery_profile_str : RecoveryProfile → Str
recovery_profile_str loss = codes "loss"
recovery_profile_str protected = codes "protected"

unfoldable pub push_zk_fields : ZkFactor → Members → Members
push_zk_fields z rest = member (codes "adapter") (str z.adapter) (
    member (codes "circuit-id") (str z.circuit_id) (
      member (codes "pool") (str z.pool) (
        member (codes "enrollment-id") (str z.enrollment_id)
          (member (codes "commitment") (str z.commitment) rest))))

unfoldable pub push_guardian_fields : GuardianSet → Members → Members
push_guardian_fields g rest =
    member (codes "guardians") (strings g.guardians) (member (codes "quorum") (u32 g.quorum) rest)

unfoldable pub recovery_mode_to_cv : RecoveryMode → Cv
recovery_mode_to_cv (guardian_only g) =
    obj (member (codes "type") (str (codes "guardian-only")) (push_guardian_fields g end))
recovery_mode_to_cv (zk_only z) =
    obj (member (codes "type") (str (codes "zk-only")) (push_zk_fields z end))
recovery_mode_to_cv (combined g z) =
    obj (
      member (codes "type") (str (codes "combined"))
        (push_guardian_fields g (push_zk_fields z end)))

abbrev pub baseline_to_cv : BaselineCommitment → Cv
baseline_to_cv b = obj (member (codes "doc-hash") (str b.doc_hash) end)

unfoldable pub recovery_to_cv : RecoveryConfig → Cv
recovery_to_cv r = obj (
    member (codes "profile") (str (recovery_profile_str r.profile)) (
      member (codes "mode") (recovery_mode_to_cv r.mode) (
        member (codes "controller") (str r.controller) (
          optional (codes "baseline") baseline_to_cv r.baseline (
            member (codes "replaceable") (strings r.replaceable) (
              member (codes "delay-ledgers") (u32 r.delay_ledgers) (
                member (codes "expiry-ledgers") (u32 r.expiry_ledgers)
                  (member (codes "max-cancels") (u32 r.max_cancels) end))))))))

unfoldable pub doc_to_cv : PolicyDoc → Cv
doc_to_cv doc = obj (
    member (codes "version") (u32 doc.version) (
      optional (codes "network") str doc.network (
        member (codes "signers") (array signer_to_cv doc.signers) (
          member (codes "rules") (array rule_to_cv doc.rules)
            (optional (codes "recovery") recovery_to_cv doc.recovery end)))))

unfoldable pub canonical_json : PolicyDoc → Str
canonical_json doc = write_value (doc_to_cv doc)

unfoldable pub recovery_canonical_json : RecoveryConfig → Str
recovery_canonical_json r = write_value (recovery_to_cv r)

-- `RULE_HASH_DOMAIN`.
abbrev pub rule_hash_domain : Str
rule_hash_domain = codes "perch/rule"

unfoldable pub rule_canonical_json : Rule → Str
rule_canonical_json rule = write_value (rule_to_cv rule)
