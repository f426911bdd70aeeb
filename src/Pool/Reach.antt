-- ===== src/Pool/Reach.antt =====
-- The pool under any sequence of insertions: what its storage always stands for.
use native.Mathlib.Nat.{zero-div, one-le-pow}
use perch.Common.{
  ℕ, zero, suc, ◌+◌, ◌≤◌, ◌<◌, ◌≡◌, ◌↔◌, refl, ap, sym, arith, Address, Bytes, Bytes32, inl, inr,
  none, some, length, true, Bool, ok, Option-cases, Result-cases,
}
use perch.Encode.{contract_id, is_canonical}
use perch.Hasher.{Sponge, leaf}
use perch.Pool.{
  Storage, Insertion, append, current_tree, empty_tree, zeros, rcv_insert, is_known_root,
  record_enrollment, claim_enrollment,
}
use perch.Pool.Layers.{ZerosMatch, merkle_root, layer-nothing, above, is_even}
use perch.Pool.Invariant.{sequence, prefix, IsPool, state_of}
use perch.Pool.Append.{append-Appended, Appended-IsPool}

abbrev pub no_entries : Storage
no_entries = record {
  current = none;
  trees = λ t. none;
  roots = λ t r. none;
  leaves = λ t i. none;
  enrollments = λ a n. none;
}

length-zeros : (n level : ℕ) → length (zeros n level) ≡ n
unfolding zeros
length-zeros zero level = refl
length-zeros (suc n) level = ap suc (length-zeros n (level + 1))

above_nothing : (level : ℕ) → is_even (above 0 level) ≡ true
above_nothing level = rw zero-div

no_entries-IsPool :
    (sponge : Sponge) (depth : ℕ) → ZerosMatch sponge depth → IsPool sponge depth no_entries
unfolding empty_tree current_tree merkle_root
no_entries-IsPool sponge depth z = record {
  trees_hold = λ t. record {
    root_eq = sym (layer-nothing sponge depth z depth 0 (omega arith));
    sized = length-zeros depth 0;
    frontier_holds = λ level l o. ground (arith, above_nothing level, o);
    filled = λ i p. absurd (omega arith);
    vacant = λ i p. refl;
    fits = omega arith;
  };
  roots_hold =
      λ t. record { sound = λ r k p. ground arith; complete = λ k p q. absurd (omega arith) };
  room = one-le-pow depth 2 (omega arith);
  future = λ t l. refl;
}

module _ (sponge : Sponge) (to_xdr : Address → Bytes) (depth : ℕ) where
  -- An insertion that succeeds, whoever authorized it; one that fails is rolled back.
  pub record Inserts (before after : Storage) : Type 0 where
    pub auth : Address → Bool
    pub account : Address
    pub enrollment_id : Bytes32
    pub commitment : Bytes32
    pub at : Insertion
    pub succeeds :
        rcv_insert sponge to_xdr auth depth account enrollment_id commitment before ≡ ok (after, at)

  pub data Reachable : Storage → Type 0 where
    deployed : Reachable no_entries
    then_insert :
        {before after : Storage} → Reachable before → Inserts before after → Reachable after

  -- The parts of a successful `rcv_insert`.
  pub record Enrolled (auth : Address → Bool) (account : Address)
      (enrollment_id commitment : Bytes32) (s s' : Storage) (at : Insertion) : Type 0 where
    pub authorized : auth account ≡ true
    pub account_id : Bytes32
    pub is_contract : contract_id (to_xdr account) ≡ some account_id
    pub canonical : is_canonical commitment ≡ true
    pub fresh : s.enrollments account enrollment_id ≡ none
    pub appended : Storage
    pub appends :
        append sponge depth (leaf sponge account_id enrollment_id commitment) s ≡ ok (appended, at)
    pub after_eq : s' ≡ record_enrollment appended account enrollment_id at

  pub rcv_insert-Enrolled :
      (auth : Address → Bool) (account : Address) (enrollment_id commitment : Bytes32)
      (s s' : Storage) (at : Insertion)
      → rcv_insert sponge to_xdr auth depth account enrollment_id commitment s ≡ ok (s', at)
      → Enrolled auth account enrollment_id commitment s s' at
  unfolding rcv_insert claim_enrollment
  rcv_insert-Enrolled auth account enrollment_id commitment s s' at h =
      elim (Option-cases (contract_id (to_xdr account))) [
        | inl n ↦ absurd (ground (arith, n))
        | inr (id, e) ↦
            elim (Result-cases (append sponge depth (leaf sponge id enrollment_id commitment) s)) [
              | inr (er, p) ↦ absurd (ground (arith, e, p))
              | inl ((s₁, at₁), p) ↦
                  let q : at₁ ≡ at = ground (arith, e, p) in
                  record {
                    authorized = ground arith;
                    account_id = id;
                    is_contract = e;
                    canonical = ground arith;
                    fresh = ground arith;
                    appended = s₁;
                    appends = rw q at p;
                    after_eq = ground (arith, e, p);
                  }
            ]
      ]

  record_enrollment-IsPool :
      (s : Storage) (account : Address) (enrollment_id : Bytes32) (at : Insertion)
      → IsPool sponge depth s
      → IsPool sponge depth (record_enrollment s account enrollment_id at)
  unfolding record_enrollment current_tree
  record_enrollment-IsPool s account enrollment_id at h = record {
    trees_hold = h.trees_hold;
    roots_hold = h.roots_hold;
    room = h.room;
    future = h.future;
  }

  module _ (zero_match : ZerosMatch sponge depth) where
    pub Reachable-IsPool : {s : Storage} → Reachable s → IsPool sponge depth s
    Reachable-IsPool deployed = no_entries-IsPool sponge depth zero_match
    Reachable-IsPool (then_insert {before = s} {after = s'} r i) =
        let c =
          rcv_insert-Enrolled i.auth i.account i.enrollment_id i.commitment s s' i.at i.succeeds in
        let a =
          append-Appended sponge depth (leaf sponge c.account_id i.enrollment_id i.commitment) s
            c.appended i.at c.appends in
        rw c.after_eq (
          record_enrollment-IsPool c.appended i.account i.enrollment_id i.at
            (Appended-IsPool sponge depth _ s c.appended i.at a zero_match (Reachable-IsPool r)))

    -- In every reachable pool the root of each tree is the Merkle root of the leaves stored for
    -- it, and a root is accepted for a tree exactly when it is the Merkle root of one of the tree's
    -- nonempty prefixes: every historical root stays acceptable, and no other root ever is.
    pub is_known_root_iff :
        (s : Storage) (t : ℕ) (r : Bytes32)
        → Reachable s
        → ((state_of sponge depth s t).root ≡ merkle_root sponge (sequence (s.leaves t)) depth)
          × ((is_known_root s t r ≡ true) ↔ (
              (k : ℕ) × (0 < k)
              × (k ≤ (state_of sponge depth s t).size)
              × (r ≡ merkle_root sponge (prefix k (s.leaves t)) depth)))
    unfolding is_known_root
    is_known_root_iff s t r h =
        let p = Reachable-IsPool h in
        let q = p.roots_hold t in
        (
          (p.trees_hold t).root_eq,
          (
            λ e. elim (Option-cases (s.roots t r)) [
              | inl n ↦ absurd (ground (arith, n, e))
              | inr (k, w) ↦ let (a, b, c) = q.sound r k w in (k, a, b, c)
            ],
            λ (k, a, b, c). rw c (q.complete k a b),
          ),
        )
