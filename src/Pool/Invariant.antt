-- ===== src/Pool/Invariant.antt =====
-- What the pool's entries stand for: each tree's state is that of the Merkle tree over its leaves,
-- and the recorded roots are those of the tree's prefixes.
use mathlib.Core.Path.{fun_ext, subst}
use perch.Common.{
  unwrap_or, ℕ, ◌+◌, ◌^◌, ◌≤◌, ◌<◌, ◌≡◌, ap, sym, ◌∙◌, arith, Bytes32, ◌==◌, if◌then◌else◌, ◌⊎◌,
  inl, inr, Option, none, some, is_some, length, true, Bool-cases, update, ltb,
}
use perch.Hasher.{Sponge, zero_hash}
use perch.Pool.{Storage, TreeState, climb, current_tree, empty_tree}
use perch.Pool.Layers.{ZerosMatch, put, EmptyFrom, FrontierHolds, merkle_root}
use perch.Pool.Climb.{climb_total}

-- A tree's leaves as a sequence, empty where none was written.
abbrev pub sequence : (ℕ → Option Bytes32) → ℕ → Bytes32
sequence leaves i = unwrap_or (leaves i) (zero_hash 0)

-- The first `k` of them.
abbrev pub prefix : ℕ → (ℕ → Option Bytes32) → ℕ → Bytes32
prefix k leaves i = if ltb i k then sequence leaves i else zero_hash 0

module _ (sponge : Sponge) (depth : ℕ) where
  pub record IsTree (leaves : ℕ → Option Bytes32) (st : TreeState) : Type 0 where
    pub root_eq : st.root ≡ merkle_root sponge (sequence leaves) depth
    pub sized : length st.frontier ≡ depth
    pub frontier_holds : FrontierHolds sponge (sequence leaves) st.size depth st.frontier
    pub filled : (i : ℕ) → i < st.size → is_some (leaves i) ≡ true
    pub vacant : (i : ℕ) → st.size ≤ i → leaves i ≡ none
    pub fits : st.size ≤ 2 ^ depth

  -- A tree's state, that of the empty tree before any insertion.
  abbrev pub state_of : Storage → ℕ → TreeState
  state_of s t = unwrap_or (s.trees t) (empty_tree depth)

  -- The recorded roots of a tree are those of its nonempty prefixes.
  pub record RootsHold (leaves : ℕ → Option Bytes32) (size : ℕ) (roots : Bytes32 → Option ℕ)
      : Type 0 where
    pub sound :
        (r : Bytes32) (k : ℕ)
        → roots r ≡ some k
        → (0 < k) × (k ≤ size) × (r ≡ merkle_root sponge (prefix k leaves) depth)
    pub complete :
        (k : ℕ)
        → 0 < k
        → k ≤ size
        → is_some (roots (merkle_root sponge (prefix k leaves) depth)) ≡ true

  pub record IsPool (s : Storage) : Type 0 where
    pub trees_hold : (t : ℕ) → IsTree (s.leaves t) (state_of s t)
    pub roots_hold : (t : ℕ) → RootsHold (s.leaves t) (state_of s t).size (s.roots t)
    pub room : (state_of s (current_tree s)).size < 2 ^ depth
    pub future : (t : ℕ) → current_tree s < t → s.trees t ≡ none

module _ (leaves : ℕ → Option Bytes32) (n : ℕ) (x : Bytes32) where
  abbrev pub grown : ℕ → Option Bytes32
  grown = update leaves n (some x)

  pub sequence-grown : sequence grown ≡ put (sequence leaves) n x
  sequence-grown = fun_ext λ i. ground arith

  pub prefix-below : (k : ℕ) → k ≤ n → prefix k grown ≡ prefix k leaves
  prefix-below k h = fun_ext λ i. ground arith

  pub prefix-all : ((i : ℕ) → n ≤ i → leaves i ≡ none) → prefix (n + 1) grown ≡ sequence grown
  prefix-all v = fun_ext λ i. ground (arith, v i)

module _ (sponge : Sponge) (depth : ℕ) (zero_match : ZerosMatch sponge depth) where
  -- One more leaf on a tree.
  pub IsTree-grown :
      (leaves : ℕ → Option Bytes32) (st : TreeState) (x : Bytes32)
      → IsTree sponge depth leaves st
      → st.size < 2 ^ depth
      → let out = climb sponge depth 0 st.size st.frontier x in
        IsTree sponge depth
          (grown leaves st.size x)
          (record { size = st.size + 1; root = out.1; frontier = out.0 })
  IsTree-grown leaves st x h room =
      let f = sequence leaves in
      let empty : EmptyFrom st.size f = λ i p. rw (h.vacant i p) in
      let (e, l, fr) =
        climb_total sponge f st.size x depth zero_match empty st.frontier h.sized room
          h.frontier_holds in
      record {
        root_eq = rw (sequence-grown leaves st.size x) e;
        sized = l;
        frontier_holds = rw (sequence-grown leaves st.size x) fr;
        filled = λ i p. ground (arith, h.filled i);
        vacant = λ i p. ground (arith, h.vacant i);
        fits = omega arith;
      }

  abbrev root_of : (ℕ → Bytes32) → Bytes32
  root_of f = merkle_root sponge f depth

  is_some-update :
      (roots : Bytes32 → Option ℕ) (r j : Bytes32) (v : ℕ)
      → (r ≡ j) ⊎ (is_some (roots j) ≡ true)
      → is_some (update roots r (some v) j) ≡ true
  is_some-update roots r j v h = ground arith

  module _ (leaves : ℕ → Option Bytes32) (n : ℕ) (x root : Bytes32) (roots : Bytes32 → Option ℕ)
      (v : (i : ℕ) → n ≤ i → leaves i ≡ none)
      (e : root ≡ root_of (sequence (grown leaves n x))) where
    root-prefix : root ≡ root_of (prefix (n + 1) (grown leaves n x))
    root-prefix = e ∙ ap root_of (sym (prefix-all leaves n x v))

    grown_sound :
        RootsHold sponge depth leaves n roots
        → (r : Bytes32) (k : ℕ) → update roots root (some (n + 1)) r ≡ some k
        → (0 < k) × (k ≤ n + 1) × (r ≡ root_of (prefix k (grown leaves n x)))
    grown_sound h r k p = elim (Bool-cases (root == r)) [
      | inl t ↦
          let q : n + 1 ≡ k = ground (arith, p, t) in
          let w : r ≡ root = ground (arith, t) in
          (
            omega arith,
            omega arith,
            subst (λ j. r ≡ root_of (prefix j (grown leaves n x))) q (w ∙ root-prefix),
          )
      | inr f ↦
          let (a, b, c) = h.sound r k (ground (arith, p, f)) in
          (a, omega arith, c ∙ ap root_of (sym (prefix-below leaves n x k b)))
    ]

    -- Its new root joins the recorded ones.
    pub RootsHold-grown :
        RootsHold sponge depth leaves n roots
        → RootsHold sponge depth (grown leaves n x) (n + 1) (update roots root (some (n + 1)))
    RootsHold-grown h = record {
      sound = grown_sound h;
      complete = λ k p q.
          is_some-update roots root (root_of (prefix k (grown leaves n x))) (n + 1)
            (elim (Bool-cases (ltb n k)) [
              | inl t ↦
                  let w : n + 1 ≡ k = ground (arith, t) in
                  inl (subst (λ j. root ≡ root_of (prefix j (grown leaves n x))) w root-prefix)
              | inr f ↦
                  let b : k ≤ n = ground (arith, f) in
                  inr (rw (prefix-below leaves n x k b) (h.complete k p b))
            ]);
    }
