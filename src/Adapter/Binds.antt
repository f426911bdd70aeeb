-- ===== src/Adapter/Binds.antt =====
-- crates/perch-zk-adapter/src/contract.rs: what the public inputs of an accepted proof determine.
use perch.Common.{
  Bool, true, ℕ, Address, Bytes, Bytes32, some, List, ◌≡◌, sym, ap, ◌∙◌, arith, ◌<◌, ◌/◌, ◌%◌, ◌^◌,
  ok, get_or, >>=-eq-ok,
}
use perch.Encode.{contract_id, split_hi_lo, field_modulus}
use perch.Hasher.{auth_preimage, statement_hash}
use perch.Recovery.Config.{ZkBinding}
use perch.Recovery.Statement.{RecoveryStatement, encode, digest}
use perch.Encode.Fields.{Fits, to_be-injective, to_be-injective_last}
use perch.Recovery.Statement.Injective.{FitsStatement, encode-injective}
use perch.Recovery.World.{ZkEvidence}
use perch.Adapter.{Surroundings, public_inputs, fields_of, verify}
use perch.Adapter.Accepts.{Inputs, preimage, verify_iff}

halves : (x y : ℕ) → x / 2 ^ 128 ≡ y / 2 ^ 128 → x % 2 ^ 128 ≡ y % 2 ^ 128 → x ≡ y
halves x y h l = omega arith

fields_of-injective :
    (a m d b n f : Bytes32)
    → auth_preimage (fields_of a m d) ≡ auth_preimage (fields_of b n f)
    → (a ≡ b) × (m ≡ n) × (d ≡ f)
unfolding auth_preimage split_hi_lo
fields_of-injective a m d b n f h = (
  halves a b (ap (λ l. get_or l 1 0) h) (ap (λ l. get_or l 2 0) h),
  halves m n (ap (λ l. get_or l 3 0) h) (ap (λ l. get_or l 4 0) h),
  halves d f (ap (λ l. get_or l 5 0) h) (ap (λ l. get_or l 6 0) h),
)

pub public_inputs-injective :
    (r n h s m k : Bytes32)
    → Fits 32 r
    → Fits 32 n
    → Fits 32 h
    → Fits 32 s
    → Fits 32 m
    → Fits 32 k
    → public_inputs r n h ≡ public_inputs s m k
    → (r ≡ s) × (n ≡ m) × (h ≡ k)
unfolding public_inputs
public_inputs-injective r n h s m k fr fn fh fs fm fk e =
    let (er, d) = to_be-injective 32 r s _ _ fr fs e in
    let (en, l) = to_be-injective 32 n m _ _ fn fm d in
    (er, en, to_be-injective_last 32 h k fh fk l)

-- Two strings of public inputs have the same field elements.
abbrev pub SameFields : Bytes32 → Bytes32 → Bytes32 → Bytes32 → Bytes32 → Bytes32 → Type 0
SameFields r n h s m k =
    (r % field_modulus ≡ s % field_modulus)
    × (n % field_modulus ≡ m % field_modulus)
    × (h % field_modulus ≡ k % field_modulus)

SameFields-canonical :
    (r n h s m k : Bytes32)
    → r < field_modulus
    → n < field_modulus
    → h < field_modulus
    → s < field_modulus
    → m < field_modulus
    → k < field_modulus
    → SameFields r n h s m k
    → (r ≡ s) × (n ≡ m) × (h ≡ k)
SameFields-canonical r n h s m k fr fn fh fs fm fk (er, en, eh) =
    (omega (arith, er), omega (arith, en), omega (arith, eh))

canonical-Fits : (x : Bytes32) → x < field_modulus → Fits 32 x
canonical-Fits x h = omega arith

digest-ok :
    (o : Surroundings) (s : RecoveryStatement) (d : Bytes32)
    → digest o.sha256 o.to_xdr s ≡ ok d
    → (b : Bytes) × (encode o.to_xdr s ≡ ok b) × (o.sha256 b ≡ d)
unfolding digest
digest-ok o s d h = let (b, eb, q) = >>=-eq-ok (encode o.to_xdr s) _ h in (b, eb, cc)

Inputs-binds :
    (o : Surroundings) (s t : RecoveryStatement) (m n : Bytes32) (e f : ZkEvidence) (x y : Bytes)
    (i : Inputs o s m e x) (j : Inputs o t n f y)
    → SameFields e.root e.nullifier
        (o.sponge (preimage i))
        f.root
        f.nullifier
        (o.sponge (preimage j))
    → ((a : Address) (id : Bytes32) → contract_id (o.to_xdr a) ≡ some id → Fits 32 id)
    → ((xs : List Bytes32) → o.sponge xs < field_modulus)
    → (o.sponge (preimage i) ≡ o.sponge (preimage j) → preimage i ≡ preimage j)
    → ((x y : Bytes)
        → encode o.to_xdr s ≡ ok x
        → encode o.to_xdr t ≡ ok y
        → o.sha256 x ≡ o.sha256 y
        → x ≡ y)
    → FitsStatement s
    → FitsStatement t
    → e.root < field_modulus
    → e.nullifier < field_modulus
    → f.root < field_modulus
    → f.nullifier < field_modulus
    → (e.root ≡ f.root)
      × (e.nullifier ≡ f.nullifier)
      × (m ≡ n)
      × (contract_id (o.to_xdr s.account) ≡ contract_id (o.to_xdr t.account))
      × (contract_id (o.to_xdr s.controller) ≡ contract_id (o.to_xdr t.controller))
      × (s.network_id ≡ t.network_id)
      × (s.config ≡ t.config)
      × (s.timing ≡ t.timing)
      × (s.subject ≡ t.subject)
unfolding statement_hash
Inputs-binds o s t b c e f u w i j same host field sponge_free sha_free fs ft er en fr fn =
    let (hr, hn, hh) =
      SameFields-canonical e.root e.nullifier (o.sponge (preimage i)) f.root f.nullifier
        (o.sponge (preimage j)) er en (field (preimage i)) fr fn (field (preimage j)) same in
    let (ha, hm, hd) = fields_of-injective _ _ _ _ _ _ (sponge_free hh) in
    let (x, ex, dx) = digest-ok o s i.digest_of i.of_statement in
    let (y, ey, dy) = digest-ok o t j.digest_of j.of_statement in
    let xy = sha_free x y ex ey (dx ∙ hd ∙ sym dy) in
    let (ea, ec, nw, cf, tm, sj) = encode-injective o.to_xdr s t y host fs ft (ex ∙ ap ok xy) ey in
    (hr, hn, hm, ea, ec, nw, cf, tm, sj)

accepts-joined :
    (o : Surroundings) (s : RecoveryStatement) (m : Bytes32) (e : ZkEvidence)
    (accept : Bytes → Bool) (x : Bytes) (i : Inputs o s m e x)
    → accept x ≡ true
    → accept (public_inputs e.root e.nullifier (o.sponge (preimage i))) ≡ true
unfolding statement_hash
accepts-joined o s m e accept x i h = ap accept (sym i.joined) ∙ h

-- A proof that the adapter accepts for two statements is for one statement: the statements are for the
-- same enrollment, account and controller, on the same network, with the same configuration, timing and
-- subject, and the root and the nullifier are the same. The verifier reads each 32-byte public input
-- modulo the field's order and accepts the proof for one triple of field elements only, whose other
-- representations it accepts too; the hashes have no collision on these two preimages and encodings;
-- the sponge gives field elements; and the statements' numbers have their types' widths.
pub verify-binds :
    (o : Surroundings) (s t : RecoveryStatement) (b c : ZkBinding) (e f : ZkEvidence)
    → ((a : Address) (id : Bytes32) → contract_id (o.to_xdr a) ≡ some id → Fits 32 id)
    → ((xs : List Bytes32) → o.sponge xs < field_modulus)
    → ((x y : Bytes) (i : Inputs o s b.enrollment_id e x) (j : Inputs o t c.enrollment_id f y)
        → o.sponge (preimage i) ≡ o.sponge (preimage j)
        → preimage i ≡ preimage j)
    → ((x y : Bytes)
        → encode o.to_xdr s ≡ ok x
        → encode o.to_xdr t ≡ ok y
        → o.sha256 x ≡ o.sha256 y
        → x ≡ y)
    → ((verifier : Bytes → Bytes → Bool) (r n h r' n' h' : Bytes32)
        → o.new_verifier o.vk ≡ some verifier
        → (Fits 32 r × Fits 32 n × Fits 32 h)
        → (Fits 32 r' × Fits 32 n' × Fits 32 h')
        → verifier e.proof (public_inputs r n h) ≡ true
        → verifier e.proof (public_inputs r' n' h') ≡ true
        → SameFields r n h r' n' h')
    → FitsStatement s
    → FitsStatement t
    → e.proof ≡ f.proof
    → verify o s b e ≡ ok tt
    → verify o t c f ≡ ok tt
    → (e.root ≡ f.root)
      × (e.nullifier ≡ f.nullifier)
      × (b.enrollment_id ≡ c.enrollment_id)
      × (contract_id (o.to_xdr s.account) ≡ contract_id (o.to_xdr t.account))
      × (contract_id (o.to_xdr s.controller) ≡ contract_id (o.to_xdr t.controller))
      × (s.network_id ≡ t.network_id)
      × (s.config ≡ t.config)
      × (s.timing ≡ t.timing)
      × (s.subject ≡ t.subject)
verify-binds o s t b c e f host field sponge_free sha_free sound fs ft same p q =
    let (_, er, en, _, _, (v, x, ev, i, vx)) = (verify_iff o s b e).0 p in
    let (_, fr, fn, _, _, (w, y, ew, j, wy)) = (verify_iff o t c f).0 q in
    let vw : v ≡ w = cc in
    let same_fields =
      sound v e.root e.nullifier (o.sponge (preimage i)) f.root f.nullifier (o.sponge (preimage j))
        ev (canonical-Fits e.root er, canonical-Fits e.nullifier en, canonical-Fits _ (field _))
        (canonical-Fits f.root fr, canonical-Fits f.nullifier fn, canonical-Fits _ (field _))
        (accepts-joined o s b.enrollment_id e (v e.proof) x i vx)
        (accepts-joined o t c.enrollment_id f (v e.proof) y j cc) in
    Inputs-binds o s t b.enrollment_id c.enrollment_id e f x y i j same_fields host field
      (sponge_free x y i j) sha_free fs ft er en fr fn
