-- ===== src/Adapter.antt =====
-- crates/perch-zk-adapter/src/contract.rs, with the projection of a statement onto the circuit's inputs
-- of crates/perch-recovery-interface/src/zk.rs.
mod Binds
mod Accepts
mod Member
mod Tests
use perch.Common.{
  ℕ, Address, Bytes, Bytes32, Bool, true, false, ◌&&◌, Option, none, some, ◌++◌, ◌==◌, length,
  Result, ok, err, ◌>>=◌, ◌>>◌, guard, ok_or,
}
use perch.Encode.{contract_id, split_hi_lo, is_canonical, to_be}
use perch.Hasher.{Sponge, ZkStatementFields, statement_hash}
use perch.Recovery.Config.{ZkBinding}
use perch.Recovery.Statement.{RecoveryStatement, StatementError, account_not_contract, digest}
use perch.Recovery.World.{ZkEvidence}

pub data ZkAdapterError : Type 0 where
  circuit_mismatch invalid_statement non_canonical_field unknown_root : ZkAdapterError
  pool_unavailable malformed_proof proof_rejected verifier_unavailable : ZkAdapterError

pub data ProofVerifierError : Type 0 where
  vk_parse_error proof_parse_error verification_failed : ProofVerifierError

-- What the adapter reads of the host, of the verifier's library, of its build and of the pools.
pub record Surroundings : Type 0 where
  pub sha256 : Bytes → Bytes32
  pub to_xdr : Address → Bytes
  pub sponge : Sponge
  pub vk : Bytes
  -- `ZK_PROOF_BYTES`, `UltraHonkZkVerifier::new` and its `verify`, of a proof and public inputs.
  pub proof_bytes : ℕ
  pub new_verifier : Bytes → Option (Bytes → Bytes → Bool)
  -- `try_is_known_root`; `none` is a call that fails.
  pub try_is_known_root : Address → ℕ → Bytes32 → Option Bool

module _ {E : Type 0} where
  -- `map_err` to one error.
  abbrev pub or_else {ℓ} : {A : Type ℓ} → Result StatementError A → E → Result E A
  or_else (ok a) e = ok a
  or_else (err x) e = err e

-- `public_inputs`.
unfoldable pub public_inputs : Bytes32 → Bytes32 → Bytes32 → Bytes
public_inputs root nullifier statement_hash =
    to_be 32 root ++ (to_be 32 nullifier ++ to_be 32 statement_hash)

-- The fields of an account, an enrollment and a digest.
abbrev pub fields_of : Bytes32 → Bytes32 → Bytes32 → ZkStatementFields
fields_of account enrollment digest =
    let (account_hi, account_lo) = split_hi_lo account in
    let (enrollment_hi, enrollment_lo) = split_hi_lo enrollment in
    let (digest_hi, digest_lo) = split_hi_lo digest in
    record {
      account_hi = account_hi;
      account_lo = account_lo;
      enrollment_hi = enrollment_hi;
      enrollment_lo = enrollment_lo;
      digest_hi = digest_hi;
      digest_lo = digest_lo;
    }

module _ (o : Surroundings) where
  unfoldable pub zk_statement_fields :
      RecoveryStatement → Bytes32 → Result StatementError ZkStatementFields
  zk_statement_fields statement enrollment_id = do
    account ← ok_or (contract_id (o.to_xdr statement.account)) account_not_contract
    d ← digest o.sha256 o.to_xdr statement
    ok (fields_of account enrollment_id d)

  unfoldable pub circuit_id : Bytes32
  circuit_id = o.sha256 o.vk

  -- The pool's answer.
  abbrev pub check_root : Option Bool → Result ZkAdapterError (Unit {0})
  check_root (some true) = ok tt
  check_root (some false) = err unknown_root
  check_root none = err pool_unavailable

  unfoldable pub verify :
      RecoveryStatement → ZkBinding → ZkEvidence → Result ZkAdapterError (Unit {0})
  verify statement binding evidence = do
    guard (binding.circuit_id == circuit_id) circuit_mismatch
    fields ← or_else (zk_statement_fields statement binding.enrollment_id) invalid_statement
    guard (is_canonical evidence.root && is_canonical evidence.nullifier) non_canonical_field
    guard (length evidence.proof == o.proof_bytes) malformed_proof
    check_root (o.try_is_known_root binding.pool evidence.tree_id evidence.root)
    verifier ← ok_or (o.new_verifier o.vk) verifier_unavailable
    guard
        (verifier evidence.proof
          (public_inputs evidence.root evidence.nullifier (statement_hash o.sponge fields)))
        proof_rejected

  unfoldable pub verify_proof : Bytes → Bytes → Result ProofVerifierError (Unit {0})
  verify_proof inputs proof = do
    guard (length proof == o.proof_bytes) proof_parse_error
    verifier ← ok_or (o.new_verifier o.vk) vk_parse_error
    guard (verifier proof inputs) verification_failed
