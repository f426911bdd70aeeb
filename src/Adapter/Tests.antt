-- ===== src/Adapter/Tests.antt =====
-- The adapter on a concrete statement, with a verifier that accepts two strings for one triple of
-- field elements.
use perch.Common.{
  ℕ, Address, Bytes, Bytes32, true, Option, some, [], ◌∷◌, ◌++◌, ◌≡◌, refl, sym, ap, ◌∙◌, arith,
  Bool, Bool-cases, inl, inr, ◌||◌, ◌%◌, list_eq→eq, ◌+◌, ◌<◌, ◌≤◌, length, ◌↔◌, ◌==◌, ok, err,
  Result, list_eq,
}
use perch.Encode.{contract_id, contract_header, address_payload, to_be, field_modulus, is_canonical}
use perch.Hasher.{statement_hash, auth_preimage}
use perch.Recovery.Config.{ZkBinding}
use perch.Recovery.Statement.{
  RecoveryStatement, cancel_of, encode, encode_body, encode_subject, digest,
}
use perch.Encode.Fields.{Fits}
use perch.Recovery.Statement.Injective.{FitsStatement}
use perch.Recovery.World.{ZkEvidence}
use perch.Adapter.{
  Surroundings, non_canonical_field, unknown_root, public_inputs, zk_statement_fields, circuit_id,
  verify, fields_of,
}
use perch.Adapter.Accepts.{preimage, Inputs, Accepts, verify_iff}
use perch.Adapter.Binds.{SameFields, public_inputs-injective, verify-binds}
use perch.Adapter.Member.{verify-member}
use perch.Pool.{is_known_root, append, climb, current_tree, record_enrollment}
use perch.Pool.Layers.{merkle_root}
use perch.Pool.Invariant.{prefix, state_of}
use perch.Pool.Tests as Pool

ok-injective : {E : Type 0} {A : Type 0} {x : Result E A} {a b : A} → x ≡ ok a → x ≡ ok b → a ≡ b
ok-injective h k = cc

some-injective : {A : Type 0} {x : Option A} {a b : A} → x ≡ some a → x ≡ some b → a ≡ b
some-injective h k = cc

abbrev inputs : Bytes
inputs = to_be 32 3 ++ (to_be 32 5 ++ to_be 32 21)

-- Another representation of the same field elements.
abbrev aliased : Bytes
aliased = to_be 32 3 ++ (to_be 32 (field_modulus + 5) ++ to_be 32 21)

-- The verifier's answer for one triple of field elements.
abbrev accepts_triple : Bytes → Bytes → Bool
accepts_triple proof public = list_eq public inputs || list_eq public aliased

abbrev around : Surroundings
around = record {
  sha256 = λ bs. 90;
  to_xdr = λ a. contract_header ++ to_be 32 7;
  sponge = λ xs. 21;
  vk = 1 ∷ [];
  proof_bytes = 2;
  new_verifier = λ vk. some accepts_triple;
  try_is_known_root = λ pool tree root. some (root == 3);
}

abbrev cancellation : RecoveryStatement
cancellation = record {
  network_id = 1;
  account = 4;
  controller = 5;
  config = record { epoch = 2; config_hash = 41 };
  timing = record { delay_ledgers = 10; expiry_ledgers = 20; valid_until_ledger = 100 };
  subject = cancel_of (record { attempt_id = 1; attempt_statement = 77 });
}

abbrev bound : ZkBinding
bound = record { pool = 6; enrollment_id = 70; circuit_id = 90 }

abbrev evidence : ZkEvidence
evidence = record { tree_id = 0; root = 3; nullifier = 5; proof = 8 ∷ 9 ∷ [] }

accepted : verify around cancellation bound evidence ≡ ok tt
unfolding verify circuit_id zk_statement_fields contract_id address_payload digest encode
    encode_body encode_subject is_canonical public_inputs statement_hash to_be
accepted = refl

-- The verifier reduces its inputs, so a nullifier past the modulus must be refused.
not_canonical :
    verify around cancellation bound (record evidence { nullifier = field_modulus + 5 })
    ≡ err non_canonical_field
unfolding verify circuit_id zk_statement_fields contract_id address_payload digest encode
    encode_body encode_subject is_canonical to_be
not_canonical = refl

not_known : verify around cancellation bound (record evidence { root = 4 }) ≡ err unknown_root
unfolding verify circuit_id zk_statement_fields contract_id address_payload digest encode
    encode_body encode_subject is_canonical to_be
not_known = refl

verify_iff_example :
    (verify around cancellation bound evidence ≡ ok tt) ↔ Accepts around cancellation bound evidence
verify_iff_example = verify_iff around cancellation bound evidence

-- The same proof, said to be of another tree.
abbrev again : ZkEvidence
again = record { tree_id = 1; root = 3; nullifier = 5; proof = 8 ∷ 9 ∷ [] }

accepted_again : verify around cancellation bound again ≡ ok tt
unfolding verify circuit_id zk_statement_fields contract_id address_payload digest encode
    encode_body encode_subject is_canonical public_inputs statement_hash to_be
accepted_again = refl

read-host : (a : Address) (id : Bytes32) → contract_id (around.to_xdr a) ≡ some id → Fits 32 id
unfolding contract_id address_payload to_be
read-host a id h = let e : 7 ≡ id = cc in omega (arith, e)

cancellation-Fits : FitsStatement cancellation
cancellation-Fits = (
  omega arith,
  omega arith,
  omega arith,
  omega arith,
  omega arith,
  omega arith,
  (omega arith, omega arith),
)

one_preimage :
    (b c : Bytes) (i : Inputs around cancellation 70 evidence b)
    (j : Inputs around cancellation 70 again c)
    → preimage i ≡ preimage j
one_preimage b c i j =
    let a : i.account ≡ j.account = some-injective i.of_contract j.of_contract in
    let d : i.digest_of ≡ j.digest_of = ok-injective i.of_statement j.of_statement in
    λ k. auth_preimage (fields_of (a k) 70 (d k))

inputs_eq : inputs ≡ public_inputs 3 5 21
unfolding public_inputs
inputs_eq = refl

aliased_eq : aliased ≡ public_inputs 3 (field_modulus + 5) 21
unfolding public_inputs
aliased_eq = refl

-- What the verifier accepts has these field elements.
triple_of :
    (proof : Bytes) (r n h : Bytes32)
    → (Fits 32 r × Fits 32 n × Fits 32 h)
    → accepts_triple proof (public_inputs r n h) ≡ true
    → (r % field_modulus ≡ 3) × (n % field_modulus ≡ 5) × (h % field_modulus ≡ 21)
triple_of proof r n h (fr, fn, fh) a = elim (Bool-cases (list_eq (public_inputs r n h) inputs)) [
  | inl t ↦
      let (er, en, eh) =
        public_inputs-injective r n h 3 5 21 fr fn fh (omega arith) (omega arith) (omega arith)
          (list_eq→eq (public_inputs r n h) inputs t ∙ inputs_eq) in
      (omega (arith, er), omega (arith, en), omega (arith, eh))
  | inr f ↦
      let (er, en, eh) =
        public_inputs-injective r n h 3 (field_modulus + 5) 21 fr fn fh (omega arith) (omega arith)
          (omega arith)
          (list_eq→eq (public_inputs r n h) aliased (ground (arith, a, f)) ∙ aliased_eq) in
      (omega (arith, er), omega (arith, en), omega (arith, eh))
]

one_triple :
    (verifier : Bytes → Bytes → Bool) (r n h r' n' h' : Bytes32)
    → around.new_verifier around.vk ≡ some verifier
    → (Fits 32 r × Fits 32 n × Fits 32 h)
    → (Fits 32 r' × Fits 32 n' × Fits 32 h')
    → verifier evidence.proof (public_inputs r n h) ≡ true
    → verifier evidence.proof (public_inputs r' n' h') ≡ true
    → SameFields r n h r' n' h'
one_triple verifier r n h r' n' h' v f g p q =
    let e : accepts_triple ≡ verifier = some-injective refl v in
    let (er, en, eh) =
      triple_of evidence.proof r n h f (ap (λ w. w evidence.proof (public_inputs r n h)) e ∙ p) in
    let (er', en', eh') =
      triple_of evidence.proof r' n' h' g
        (ap (λ w. w evidence.proof (public_inputs r' n' h')) e ∙ q) in
    (er ∙ sym er', en ∙ sym en', eh ∙ sym eh')

-- The verifier itself accepts the other representation.
aliased_accepted : accepts_triple evidence.proof (public_inputs 3 (field_modulus + 5) 21) ≡ true
unfolding public_inputs to_be
aliased_accepted = refl

verify-binds_example :
    (evidence.root ≡ again.root)
    × (evidence.nullifier ≡ again.nullifier)
    × (bound.enrollment_id ≡ bound.enrollment_id)
    × (contract_id (around.to_xdr cancellation.account)
        ≡ contract_id (around.to_xdr cancellation.account))
    × (contract_id (around.to_xdr cancellation.controller)
        ≡ contract_id (around.to_xdr cancellation.controller))
    × (cancellation.network_id ≡ cancellation.network_id)
    × (cancellation.config ≡ cancellation.config)
    × (cancellation.timing ≡ cancellation.timing)
    × (cancellation.subject ≡ cancellation.subject)
verify-binds_example =
    verify-binds around cancellation cancellation bound bound evidence again read-host
      (λ xs. omega arith) (λ b c i j h. one_preimage b c i j) (λ x y p q h. ok-injective p q)
      one_triple cancellation-Fits cancellation-Fits refl accepted accepted_again

-- The adapter beside a pool of depth 2 that holds one leaf.
abbrev with_pool : Surroundings
with_pool = record around {
  sponge = Pool.sponge;
  new_verifier = λ vk. some (λ proof public. length proof == 2);
  try_is_known_root = λ pool tree root. some (is_known_root Pool.inserted tree root);
}

abbrev member : ZkEvidence
member = record evidence { root = 7 }

accepted_member : verify with_pool cancellation bound member ≡ ok tt
unfolding verify circuit_id zk_statement_fields contract_id address_payload digest encode
    encode_body encode_subject is_canonical to_be is_known_root append climb current_tree
    record_enrollment
accepted_member = refl

verify-member_example :
    (k : ℕ) × (0 < k)
    × (k ≤ (state_of Pool.sponge 2 Pool.inserted 0).size)
    × (7 ≡ merkle_root Pool.sponge (prefix k (Pool.inserted.leaves 0)) 2)
verify-member_example =
    verify-member with_pool Pool.xdr 2 Pool.inserted cancellation bound member
      Pool.sponge-ZerosMatch Pool.inserted-Reachable refl accepted_member
