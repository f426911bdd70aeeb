-- ===== src/Adapter/Accepts.antt =====
-- crates/perch-zk-adapter/src/contract.rs: which evidence the adapter accepts.
use perch.Common.{
  List, ◌==◌, ◌&&◌, Bytes, Bytes32, Bool, true, false, Option, none, some, ◌≡◌, refl, ◌↔◌, arith,
  ◌<◌, length, ok, err, Result, >>=-eq-ok, >>=-Ensures, guard-Ensures, Ensures, Ensures-ok, ok_or,
  ok_or-ok, guard, ==_iff, lt→ltb,
}
use perch.Encode.{contract_id, is_canonical, field_modulus}
use perch.Hasher.{auth_preimage, ZkStatementFields, statement_hash}
use perch.Recovery.Config.{ZkBinding}
use perch.Recovery.Statement.{RecoveryStatement, StatementError, digest}
use perch.Recovery.World.{ZkEvidence}
use perch.Adapter.{
  Surroundings, invalid_statement, verifier_unavailable, or_else, public_inputs, fields_of,
  zk_statement_fields, circuit_id, check_root, verify,
}

-- The statement's account is a contract, and the public inputs are the evidence's root and nullifier and
-- the hash of the account, the enrollment and the statement's digest.
pub record Inputs (o : Surroundings) (s : RecoveryStatement) (enrollment_id : Bytes32)
    (e : ZkEvidence) (inputs : Bytes) : Type 0 where
  pub account : Bytes32
  pub of_contract : contract_id (o.to_xdr s.account) ≡ some account
  pub digest_of : Bytes32
  pub of_statement : digest o.sha256 o.to_xdr s ≡ ok digest_of
  pub joined :
      inputs
      ≡ public_inputs e.root e.nullifier
          (statement_hash o.sponge (fields_of account enrollment_id digest_of))

or_else-ok {ℓ} :
    {E : Type 0} {A : Type ℓ} (r : Result StatementError A) (e : E) (a : A)
    → or_else r e ≡ ok a
    → r ≡ ok a
or_else-ok (ok b) e a h = cc
or_else-ok (err x) e a h = absurd cc

check_root-ok :
    (o : Surroundings) (answer : Option Bool) → check_root o answer ≡ ok tt → answer ≡ some true
check_root-ok o (some true) h = refl
check_root-ok o (some false) h = absurd cc
check_root-ok o none h = absurd cc

zk_statement_fields-ok :
    (o : Surroundings) (s : RecoveryStatement) (enrollment_id : Bytes32) (f : ZkStatementFields)
    → zk_statement_fields o s enrollment_id ≡ ok f
    → (account : Bytes32) × (d : Bytes32) × (contract_id (o.to_xdr s.account) ≡ some account)
      × (digest o.sha256 o.to_xdr s ≡ ok d)
      × (fields_of account enrollment_id d ≡ f)
unfolding zk_statement_fields
zk_statement_fields-ok o s enrollment_id f h =
    let (account, ea, k) = >>=-eq-ok (ok_or (contract_id (o.to_xdr s.account)) _) _ h in
    let (d, ed, q) = >>=-eq-ok (digest o.sha256 o.to_xdr s) _ k in
    (account, d, ok_or-ok (contract_id (o.to_xdr s.account)) _ account ea, ed, cc)

guard-holds :
    {E : Type 0} (P : Type 0) (b : Bool) (e : E) → (b ≡ true → P) → Ensures (λ u. P) (guard b e)
guard-holds P true e h = h refl
guard-holds P false e h = tt

-- What acceptance requires, one check of the code at a time.
abbrev pub Accepts : Surroundings → RecoveryStatement → ZkBinding → ZkEvidence → Type 0
Accepts o s b e =
    (b.circuit_id ≡ circuit_id o)
    × (e.root < field_modulus)
    × (e.nullifier < field_modulus)
    × (length e.proof ≡ o.proof_bytes)
    × (o.try_is_known_root b.pool e.tree_id e.root ≡ some true)
    × ((verifier : Bytes → Bytes → Bool) × (inputs : Bytes) × (o.new_verifier o.vk ≡ some verifier)
        × Inputs o s b.enrollment_id e inputs
        × (verifier e.proof inputs ≡ true))

verify-Accepts :
    (o : Surroundings) (s : RecoveryStatement) (b : ZkBinding) (e : ZkEvidence)
    → Ensures (λ u. Accepts o s b e) (verify o s b e)
unfolding verify is_canonical
verify-Accepts o s b e =
    let P : Unit {0} → Type 0 = λ u. Accepts o s b e in
    guard-Ensures P (b.circuit_id == circuit_id o) _ _ λ c.
      >>=-Ensures P (or_else (zk_statement_fields o s b.enrollment_id) invalid_statement) _ λ f ef.
        guard-Ensures P (is_canonical e.root && is_canonical e.nullifier) _ _ λ n.
          guard-Ensures P (length e.proof == o.proof_bytes) _ _ λ l.
            >>=-Ensures P (check_root o (o.try_is_known_root b.pool e.tree_id e.root)) _ λ u k.
              >>=-Ensures P (ok_or (o.new_verifier o.vk) verifier_unavailable) _ λ v ev.
                guard-holds (Accepts o s b e) _ _ λ q.
                  let (account, d, ea, ed, p) =
                    zk_statement_fields-ok o s b.enrollment_id f
                      (or_else-ok (zk_statement_fields o s b.enrollment_id) _ f ef) in
                  (
                    (==_iff b.circuit_id (circuit_id o)).0 c,
                    ground (arith, n),
                    ground (arith, n),
                    (==_iff (length e.proof) o.proof_bytes).0 l,
                    check_root-ok o _ k,
                    (
                      v,
                      _,
                      ok_or-ok (o.new_verifier o.vk) _ v ev,
                      record {
                        account = account;
                        of_contract = ea;
                        digest_of = d;
                        of_statement = ed;
                        joined = refl;
                      },
                      rw p q,
                    ),
                  )

-- The adapter accepts evidence exactly when the binding names its circuit, the root and the nullifier
-- are canonical field elements, the proof has the circuit's length, the bound pool accepts the
-- root for the evidence's tree, and the verifier of the compiled-in key accepts the proof for the root,
-- the nullifier and the hash of this very statement's account, enrollment and digest.
pub verify_iff :
    (o : Surroundings) (s : RecoveryStatement) (b : ZkBinding) (e : ZkEvidence)
    → (verify o s b e ≡ ok tt) ↔ Accepts o s b e
unfolding verify zk_statement_fields is_canonical
verify_iff o s b e = (
  λ h. Ensures-ok (λ u. Accepts o s b e) (verify o s b e) tt (verify-Accepts o s b e) h,
  λ (c, r, n, l, k, (v, inputs, p, i, q)). ground (
    arith,
    i.of_contract,
    i.of_statement,
    i.joined,
    l,
    k,
    p,
    q,
    (==_iff b.circuit_id (circuit_id o)).1 c,
    lt→ltb e.root field_modulus r,
    lt→ltb e.nullifier field_modulus n,
    (==_iff (length e.proof) o.proof_bytes).1 l,
  ),
)

-- The preimage of the statement hash among the inputs.
abbrev pub preimage :
    {o : Surroundings} {s : RecoveryStatement} {enrollment_id : Bytes32} {e : ZkEvidence}
    {inputs : Bytes}
    → Inputs o s enrollment_id e inputs
    → List Bytes32
preimage {enrollment_id} i = auth_preimage (fields_of i.account enrollment_id i.digest_of)
