-- ===== src/Recovery/Credential.antt =====
-- crates/perch-recovery-interface/src/credential.rs: credentials, replacement sets, revocations.
pub mod Revocations
use perch.Common.{
  ℕ, zero, suc, ◌+◌, Address, Bytes, Bytes32, Str, Bool, true, false, Option, none, some, List, [],
  ◌∷◌, ◌++◌, ltb, ◌==◌, if◌then◌else◌, length, contains, Result, ok, err, ◌>>=◌, ◌>>◌, guard, ok_or,
  not, ◌&&◌, ◌||◌,
}
use perch.Encode.{tagged_address, to_be}
use perch.Recovery.Statement.{StatementError, unsupported_address, replacements_not_canonical}

pub data Credential : Type 0 where
  delegated : Address → Credential
  external : Address → Bytes → Credential

pub record Replacement : Type 0 where
  pub signer_id : Str
  pub credential : Credential

pub record ZkEnrollment : Type 0 where
  pub id : Bytes32
  pub commitment : Bytes32

pub record ReplacementSet : Type 0 where
  pub signers : List Replacement
  pub zk_enrollment : List ZkEnrollment

-- `CREDENTIAL_DOMAIN`, "perch/recovery/credential".
abbrev pub credential_domain : Bytes
credential_domain =
    112 ∷ 101 ∷ 114 ∷ 99 ∷ 104 ∷ 47 ∷ 114 ∷ 101 ∷ 99 ∷ 111 ∷ 118 ∷ 101 ∷ 114 ∷ 121 ∷ 47 ∷ 99 ∷ 114
    ∷ 101 ∷ 100 ∷ 101 ∷ 110 ∷ 116 ∷ 105 ∷ 97 ∷ 108 ∷ []

-- `REPLACEMENTS_DOMAIN`, "perch/recovery/replacements".
abbrev pub replacements_domain : Bytes
replacements_domain =
    112 ∷ 101 ∷ 114 ∷ 99 ∷ 104 ∷ 47 ∷ 114 ∷ 101 ∷ 99 ∷ 111 ∷ 118 ∷ 101 ∷ 114 ∷ 121 ∷ 47 ∷ 114 ∷ 101
    ∷ 112 ∷ 108 ∷ 97 ∷ 99 ∷ 101 ∷ 109 ∷ 101 ∷ 110 ∷ 116 ∷ 115 ∷ []

-- Byte-lexicographic order, a proper prefix first.
unfoldable pub bytes_lt : Bytes → Bytes → Bool
bytes_lt [] [] = false
bytes_lt [] (y ∷ ys) = true
bytes_lt (x ∷ xs) [] = false
bytes_lt (x ∷ xs) (y ∷ ys) = if x == y then bytes_lt xs ys else ltb x y

-- `replaced_credentials_leave`.
unfoldable pub replaced_credentials_leave : List Bytes32 → List Bytes32 → Bool
replaced_credentials_leave [] target = true
replaced_credentials_leave (f ∷ fs) target =
    not (contains target f) && replaced_credentials_leave fs target

-- The two loops of `revocations`.
unfoldable pub push_new : List Bytes32 → List Bytes32 → List Bytes32
push_new [] out = out
push_new (f ∷ fs) out = push_new fs (if contains out f then out else out ++ f ∷ [])

unfoldable pub push_dropped : List Bytes32 → List Bytes32 → List Bytes32 → List Bytes32
push_dropped [] target out = out
push_dropped (f ∷ fs) target out =
    push_dropped fs target (if contains target f || contains out f then out else out ++ f ∷ [])

unfoldable pub revocations : List Bytes32 → List Bytes32 → List Bytes32 → List Bytes32
revocations replaced current target = push_dropped current target (push_new replaced [])

module _ (sha256 : Bytes → Bytes32) (to_xdr : Address → Bytes) where
  -- `Credential::encode`.
  unfoldable pub encode_credential : Credential → Result StatementError Bytes
  encode_credential (delegated addr) = do
    a ← ok_or (tagged_address (to_xdr addr)) unsupported_address
    ok (1 ∷ a)
  encode_credential (external verifier key) = do
    v ← ok_or (tagged_address (to_xdr verifier)) unsupported_address
    ok (2 ∷ (v ++ (to_be 4 (length key) ++ key)))

  -- `Credential::fingerprint`.
  unfoldable pub fingerprint : Credential → Result StatementError Bytes32
  fingerprint c = do bytes ← encode_credential c; ok (sha256 (credential_domain ++ bytes))

  -- The loop over the signers, with the id before.
  unfoldable pub encode_signers : Option Bytes → List Replacement → Result StatementError Bytes
  encode_signers prev [] = ok []
  encode_signers prev (r ∷ rs) =
      let rest = encode_signers (some r.signer_id) rs in
      (do
        guard (elim prev [ none ↦ true | some p ↦ bytes_lt p r.signer_id ])
            replacements_not_canonical
        c ← encode_credential r.credential
        tail ← rest
        ok (to_be 4 (length r.signer_id) ++ (r.signer_id ++ (c ++ tail))))

  unfoldable pub encode_enrollment : List ZkEnrollment → Result StatementError Bytes
  encode_enrollment [] = ok (0 ∷ [])
  encode_enrollment (z ∷ []) = ok (1 ∷ (to_be 32 z.id ++ to_be 32 z.commitment))
  encode_enrollment _ = err replacements_not_canonical

  -- `ReplacementSet::encode` and `hash`.
  unfoldable pub encode_replacements : ReplacementSet → Result StatementError Bytes
  encode_replacements s = do
    signers ← encode_signers none s.signers
    enrollment ← encode_enrollment s.zk_enrollment
    ok (to_be 4 (length s.signers) ++ (signers ++ enrollment))

  unfoldable pub replacements_hash : ReplacementSet → Result StatementError Bytes32
  replacements_hash s = do bytes ← encode_replacements s; ok (sha256 (replacements_domain ++ bytes))
