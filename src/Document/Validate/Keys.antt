-- ===== src/Document/Validate/Keys.antt =====
-- crates/perch-ir/src/validate.rs: the signers of a document that passes have different ids and are different
-- keys.
use perch.Common.{
  ℕ, ◌+◌, ◌≤◌, ◌<◌, ◌≡◌, ◌≢◌, refl, sym, ◌∙◌, ap, inl, inr, Bytes, Str, true, false, ◌&&◌, ◌||◌,
  not, Option, none, some, List, [], ◌∷◌, ◌++◌, arith, length, list_eq, list_eq_self, map,
  Bool-cases, if◌then◌else◌, ltb,
}
use perch.Document.{SignerMethod, external, delegated, SignerDecl}
use perch.Document.Strkey.{is_contract_address_shape, is_address_shape}
use perch.Document.Validate.{
  report, seen_str, is_empty_list, is_empty_str, Seen, first_with_key, first_delegate, duplicate_of,
  signer_errors, method_errors, key_errors, see, see_key, see_method, signers_loop,
  max_signer_key_len, duplicate_signer_id, empty_signer_id,
}
use perch.Document.Validate.Declared.{
  Unseen, Unseen-head, Absent-head, append-empty, report-empty, report-not-empty, AllDiffer, All,
  is_empty_list-false,
}

-- The physical key of a signer: the verifier and the decoded key, or the delegate.
pub data Key : Type 0 where
  external_key : Str → Bytes → Key
  delegate : Str → Key

module _ (hex_decode : Str → Option Bytes) where
  abbrev pub decoded_key : Str → Option Bytes → Option Key
  decoded_key verifier none = none
  decoded_key verifier (some decoded) = some (external_key verifier decoded)

  abbrev pub key_of : SignerMethod → Option Key
  key_of (external verifier key) = decoded_key verifier (hex_decode key)
  key_of (delegated address) = some (delegate address)

  -- The method is well-formed.
  abbrev pub IsMethod : SignerMethod → Type 0
  IsMethod (external verifier key) =
      (is_contract_address_shape verifier ≡ true)
      × ((decoded : Bytes) × (hex_decode key ≡ some decoded)
          × (0 < length decoded)
          × (length decoded ≤ max_signer_key_len))
  IsMethod (delegated address) = is_address_shape address ≡ true

  -- The key is none of those seen.
  abbrev pub Clear : Seen → Key → Type 0
  Clear seen (external_key verifier key) = first_with_key seen.keys verifier key ≡ none
  Clear seen (delegate address) = first_delegate seen.delegates address ≡ none

  first_with_key-append :
      (keys : List ((Str × Bytes) × Str)) (v verifier : Str) (k key : Bytes) (id : Str)
      → first_with_key (keys ++ ((v, k), id) ∷ []) verifier key ≡ none
      → (first_with_key keys verifier key ≡ none) × (list_eq v verifier && list_eq k key ≡ false)
  unfolding first_with_key
  first_with_key-append [] v verifier k key id h =
      elim (Bool-cases (list_eq v verifier && list_eq k key)) [
        | inl t ↦ absurd (ground (arith, h, t))
        | inr n ↦ (refl, n)
      ]
  first_with_key-append (((w, j), i) ∷ keys) v verifier k key id h =
      elim (Bool-cases (list_eq w verifier && list_eq j key)) [
        | inl t ↦ absurd (ground (arith, h, t))
        | inr n ↦
            let (a, b) = first_with_key-append keys v verifier k key id (rw n at h) in (rw n a, b)
      ]

  first_delegate-append :
      (keys : List (Str × Str)) (a address id : Str)
      → first_delegate (keys ++ (a, id) ∷ []) address ≡ none
      → (first_delegate keys address ≡ none) × (list_eq a address ≡ false)
  unfolding first_delegate
  first_delegate-append [] a address id h = elim (Bool-cases (list_eq a address)) [
    | inl t ↦ absurd (ground (arith, h, t))
    | inr n ↦ (refl, n)
  ]
  first_delegate-append ((w, i) ∷ keys) a address id h = elim (Bool-cases (list_eq w address)) [
    | inl t ↦ absurd (ground (arith, h, t))
    | inr n ↦ let (x, b) = first_delegate-append keys a address id (rw n at h) in (rw n x, b)
  ]

  -- The key differs from that of a signer.
  abbrev pub Differs : Key → SignerMethod → Type 0
  Differs key method = key_of method ≢ some key

  see_key-Clear :
      (seen : Seen) (id verifier : Str) (o : Option Bytes) (key : Key)
      → Clear (see_key hex_decode seen id verifier o) key
      → Clear seen key × (decoded_key verifier o ≢ some key)
  see_key-Clear seen id verifier none key h = (h, λ q. absurd cc)
  see_key-Clear seen id verifier (some decoded) (delegate a) h = (h, λ q. absurd cc)
  see_key-Clear seen id verifier (some decoded) (external_key v d) h =
      let (a, b) = first_with_key-append seen.keys verifier v decoded d id h in
      (
        a,
        λ q.
            let p : verifier ≡ v = cc in
            let r : decoded ≡ d = cc in
            absurd (
              ground (
                arith,
                b,
                ap (list_eq verifier) (sym p) ∙ list_eq_self verifier,
                ap (list_eq decoded) (sym r) ∙ list_eq_self decoded,
              )),
      )

  see-Clear_method :
      (seen : Seen) (id : Str) (method : SignerMethod) (key : Key)
      → Clear (see_method hex_decode seen id method) key
      → Clear seen key × Differs key method
  see-Clear_method seen id (external verifier k) key h =
      see_key-Clear seen id verifier (hex_decode k) key h
  see-Clear_method seen id (delegated address) (external_key v d) h = (h, λ q. absurd cc)
  see-Clear_method seen id (delegated address) (delegate a) h =
      let (x, b) = first_delegate-append seen.delegates address a id h in
      (
        x,
        λ q.
            let p : address ≡ a = cc in
            absurd (ground (arith, b, ap (list_eq address) (sym p) ∙ list_eq_self address)),
      )

  see-Clear :
      (seen : Seen) (s : SignerDecl) (key : Key)
      → Clear (see hex_decode seen s) key
      → Clear seen key × Differs key s.method
  unfolding see
  see-Clear seen s key h =
      see-Clear_method
        (record seen { ids = if is_empty_str s.id then seen.ids else s.id ∷ seen.ids }) s.id
        s.method key h

  duplicate_of-empty : (id : Str) (o : Option Str) → duplicate_of id o ≡ [] → o ≡ none
  duplicate_of-empty id none h = refl
  duplicate_of-empty id (some x) h = absurd cc

  -- What the checks of one method establish.
  key_errors-empty :
      (seen : Seen) (id verifier : Str) (o : Option Bytes)
      → key_errors hex_decode seen id verifier o ≡ []
      → (decoded : Bytes) × (o ≡ some decoded)
        × (0 < length decoded)
        × (length decoded ≤ max_signer_key_len)
        × (first_with_key seen.keys verifier decoded ≡ none)
  key_errors-empty seen id verifier none h = absurd cc
  key_errors-empty seen id verifier (some decoded) h =
      let (a, b) =
        append-empty (report (is_empty_list decoded || ltb max_signer_key_len (length decoded)) _) _
          h in
      let l = report-empty (is_empty_list decoded || ltb max_signer_key_len (length decoded)) _ a in
      (
        decoded,
        refl,
        is_empty_list-false decoded (ground (arith, l)),
        ground (arith, l),
        duplicate_of-empty id _ b,
      )

  method_errors-Clear :
      (seen : Seen) (id : Str) (method : SignerMethod)
      → method_errors hex_decode seen id method ≡ []
      → IsMethod method × ((key : Key) × (key_of method ≡ some key) × Clear seen key)
  unfolding method_errors
  method_errors-Clear seen id (external verifier k) h =
      let (a, b) = append-empty (key_errors hex_decode seen id verifier (hex_decode k)) _ h in
      let (d, e, l, m, c) = key_errors-empty seen id verifier (hex_decode k) a in
      (
        (report-not-empty (is_contract_address_shape verifier) _ b, (d, e, l, m)),
        (external_key verifier d, ap (decoded_key verifier) e, c),
      )
  method_errors-Clear seen id (delegated address) h =
      let (a, b) = append-empty (report (not (is_address_shape address)) _) _ h in
      (
        report-not-empty (is_address_shape address) _ a,
        (delegate address, refl, duplicate_of-empty id _ b),
      )

  -- The signers have different keys.
  abbrev pub KeysDiffer : List SignerDecl → Type 0
  KeysDiffer [] = Unit
  KeysDiffer (s ∷ ss) = All (λ t. key_of s.method ≢ key_of t.method) ss × KeysDiffer ss

  -- Every signer's key is none of those seen.
  abbrev pub AllClear : Seen → List SignerDecl → Type 0
  AllClear seen ss = All (λ s. (key : Key) × (key_of s.method ≡ some key) × Clear seen key) ss

  AllClear-see :
      (seen : Seen) (s : SignerDecl) (ss : List SignerDecl)
      → AllClear (see hex_decode seen s) ss
      → AllClear seen ss × All (λ t. key_of s.method ≢ key_of t.method) ss
  AllClear-see seen s [] h = (tt, tt)
  AllClear-see seen s (t ∷ ss) ((key, e, c), h) =
      let (a, b) = see-Clear seen s key c in
      let (x, y) = AllClear-see seen s ss h in (((key, e, a), x), (λ q. b (q ∙ e), y))

  -- The ids are not empty and differ, the methods are well-formed, and the keys differ.
  pub record AreSigners (ss : List SignerDecl) : Type 0 where
    pub ids_nonempty : All (λ s. 0 < length s.id) ss
    pub ids_differ : AllDiffer (map (λ s. s.id) ss)
    pub methods : All (λ s. IsMethod s.method) ss
    pub keys_differ : KeysDiffer ss

  id-empty :
      (position : ℕ) (seen : List Str) (id : Str)
      → (if is_empty_str id
          then empty_signer_id position ∷ []
          else report (seen_str seen id) (duplicate_signer_id id))
        ≡ []
      → (is_empty_str id ≡ false) × (0 < length id) × (seen_str seen id ≡ false)
  id-empty position seen [] h = absurd cc
  id-empty position seen (c ∷ cs) h = (refl, omega arith, report-empty (seen_str seen (c ∷ cs)) _ h)

  see_method-ids :
      (seen : Seen) (id : Str) (method : SignerMethod)
      → (see_method hex_decode seen id method).ids ≡ seen.ids
  see_method-ids seen id (delegated address) = refl
  see_method-ids seen id (external verifier k) = see_key-ids (hex_decode k)
    where
      see_key-ids : (o : Option Bytes) → (see_key hex_decode seen id verifier o).ids ≡ seen.ids
      see_key-ids none = refl
      see_key-ids (some d) = refl

  see-ids :
      (seen : Seen) (s : SignerDecl) (ss : List SignerDecl)
      → is_empty_str s.id ≡ false
      → Unseen (see hex_decode seen s).ids (map (λ t. t.id) ss)
      → Unseen (s.id ∷ seen.ids) (map (λ t. t.id) ss)
  unfolding see
  see-ids seen s ss n u =
      let e =
        see_method-ids
          (record seen { ids = if is_empty_str s.id then seen.ids else s.id ∷ seen.ids }) s.id
          s.method in
      rw n at (rw e at u)

  pub signers_loop-empty :
      (position : ℕ) (seen : Seen) (ss : List SignerDecl)
      → signers_loop hex_decode position seen ss ≡ []
      → AreSigners ss × Unseen seen.ids (map (λ s. s.id) ss) × AllClear seen ss
  unfolding signers_loop signer_errors
  signers_loop-empty position seen [] h =
      (record { ids_nonempty = tt; ids_differ = tt; methods = tt; keys_differ = tt }, λ x k. tt, tt)
  signers_loop-empty position seen (s ∷ ss) h =
      let (a, b) = append-empty (signer_errors hex_decode position seen s) _ h in
      let (c, d) =
        append-empty
          (if is_empty_str s.id
            then empty_signer_id position ∷ []
            else report (seen_str seen.ids s.id) (duplicate_signer_id s.id))
          _ a in
      let (n, l, f) = id-empty position seen.ids s.id c in
      let (m, k) = method_errors-Clear seen s.id s.method d in
      let (r, u, v) = signers_loop-empty (position + 1) (see hex_decode seen s) ss b in
      let u' : Unseen (s.id ∷ seen.ids) (map (λ t. t.id) ss) = see-ids seen s ss n u in
      let (x, y) = AllClear-see seen s ss v in
      (
        record {
          ids_nonempty = (l, r.ids_nonempty);
          ids_differ = (Absent-head seen.ids s.id (map (λ t. t.id) ss) u', r.ids_differ);
          methods = (m, r.methods);
          keys_differ = (y, r.keys_differ);
        },
        Unseen-head seen.ids s.id (map (λ t. t.id) ss) f u',
        (k, x),
      )
