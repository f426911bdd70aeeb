-- ===== src/Pool/Climb.antt =====
-- The loop of `append`: it carries the new leaf's node from level to level, and leaves in the
-- frontier the left children that it passed.
use native.Mathlib.Nat.{add-zero, div-eq_of_lt}
use mathlib.Core.Path.{subst}
use native.Mathlib.Numerals.{add-one}
use native.Mathlib.Decide.{ℕ_discrete}
use perch.Common.{
  ℕ, zero, suc, ◌+◌, ◌-◌, ◌*◌, ◌^◌, ◌≤◌, ◌<◌, ◌≡◌, ◌≢◌, refl, ap, ◌∙◌, arith, Bytes32,
  if◌then◌else◌, ◌⊎◌, inl, inr, List, get_or, set, length, length-set, get_or-set_self,
  get_or-set_ne, true, false, Bool-cases,
}
use perch.Hasher.{Sponge, node, zero_hash}
use perch.Pool.{climb}
use perch.Pool.Layers.{
  ZerosMatch, above, above-zero, above-suc, layer, put, EmptyFrom, layer-put, layer-empty,
  FrontierHolds, is_even, merkle_root,
}

module _ (sponge : Sponge) (f : ℕ → Bytes32) (n : ℕ) (x : Bytes32) (depth : ℕ) where
  abbrev pub new_node : ℕ → Bytes32
  new_node level = layer sponge (put f n x) level (above n level)

  -- What the loop has made of an entry of the frontier.
  abbrev pub entry_after : List Bytes32 → ℕ → Bytes32
  entry_after frontier level =
      if is_even (above n level) then new_node level else get_or frontier level 0

  module _ (zeros : ZerosMatch sponge depth) (empty : EmptyFrom n f) where
    right_empty :
        (level : ℕ)
        → level < depth
        → layer sponge (put f n x) level (above n level + 1) ≡ zero_hash level
    right_empty level l =
        let p : above n level ≢ above n level + 1 = λ q. omega arith in
        rw (layer-put sponge f n x level (above n level + 1) p)
          (layer-empty sponge f n depth level _ zeros empty (omega arith) (omega arith))

    left_known :
        (frontier : List Bytes32) (level : ℕ)
        → is_even (above n level) ≡ false
        → get_or frontier level 0 ≡ layer sponge f level (above n level - 1)
        → get_or frontier level 0 ≡ layer sponge (put f n x) level (above n level - 1)
    left_known frontier level o h =
        let p : above n level ≢ above n level - 1 = λ q. ground (arith, o) in
        rw (layer-put sponge f n x level (above n level - 1) p) h

    -- The node of the next level, as the loop computes it.
    new_node-suc :
        (frontier : List Bytes32) (level : ℕ)
        → level < depth
        → (is_even (above n level) ≡ false
            → get_or frontier level 0 ≡ layer sponge f level (above n level - 1))
        → (if is_even (above n level)
            then node sponge (new_node level) (zero_hash level)
            else node sponge (get_or frontier level 0) (new_node level))
          ≡ new_node (suc level)
    unfolding layer
    new_node-suc frontier level l h =
        let s = above-suc n level in
        elim (Bool-cases (is_even (above n level))) [
          | inl e ↦
              let p : 2 * above n (suc level) ≡ above n level = ground (arith, e, s) in
              rw (e, p, right_empty level l)
          | inr o ↦
              let p : 2 * above n (suc level) ≡ above n level - 1 = ground (arith, o, s) in
              let q : above n level - 1 + 1 ≡ above n level = ground (arith, o) in
              rw (o, p, q, left_known frontier level o (h o))
        ]

    abbrev new_frontier : List Bytes32 → ℕ → List Bytes32
    new_frontier frontier level =
        if is_even (above n level) then set frontier level (new_node level) else frontier

    new_frontier-other :
        (frontier : List Bytes32) (level k : ℕ)
        → level ≢ k
        → get_or (new_frontier frontier level) k 0 ≡ get_or frontier k 0
    new_frontier-other frontier level k h = elim (Bool-cases (is_even (above n level))) [
      | inl e ↦ rw e (get_or-set_ne frontier level k (new_node level) 0 h)
      | inr o ↦ rw o
    ]

    new_frontier_self :
        (frontier : List Bytes32) (level : ℕ)
        → level < length frontier
        → get_or (new_frontier frontier level) level 0 ≡ entry_after frontier level
    new_frontier_self frontier level h = elim (Bool-cases (is_even (above n level))) [
      | inl e ↦ rw e (get_or-set_self frontier level (new_node level) 0 h)
      | inr o ↦ rw o
    ]

    length-new_frontier :
        (frontier : List Bytes32) (level : ℕ)
        → length (new_frontier frontier level) ≡ length frontier
    length-new_frontier frontier level = elim (Bool-cases (is_even (above n level))) [
      | inl e ↦ rw e (length-set frontier level (new_node level))
      | inr o ↦ rw o
    ]

    -- The frontier and the node that `r` levels from `level` on leave.
    record Climbed (frontier : List Bytes32) (level r : ℕ) (out : List Bytes32 × Bytes32)
        : Type 0 where
      node_eq : out.1 ≡ new_node (level + r)
      sized : length out.0 ≡ length frontier
      below : (k : ℕ) → k < level → get_or out.0 k 0 ≡ get_or frontier k 0
      passed : (k : ℕ) → level ≤ k → k < level + r → get_or out.0 k 0 ≡ entry_after frontier k

    Climbed-step :
        (r level : ℕ) (frontier : List Bytes32) (out : List Bytes32 × Bytes32)
        → length frontier ≡ depth
        → level < depth
        → Climbed (new_frontier frontier level) (level + 1) r out
        → Climbed frontier level (suc r) out
    Climbed-step r level frontier out l lt c = record {
      node_eq = let e : level + 1 + r ≡ level + suc r = omega arith in c.node_eq ∙ ap new_node e;
      sized = c.sized ∙ length-new_frontier frontier level;
      below =
          λ k p. c.below k (omega arith) ∙ new_frontier-other frontier level k (λ e. omega arith);
      passed = λ k p q. elim (ℕ_discrete level k) [
        | yes e ↦
            subst (λ j. get_or out.0 j 0 ≡ entry_after frontier j) e
              (c.below level (omega arith) ∙ new_frontier_self frontier level (omega arith))
        | no h ↦
            c.passed k (omega arith) (omega arith)
            ∙ ap (λ (v : Bytes32). if is_even (above n k) then new_node k else v)
                (new_frontier-other frontier level k h)
      ];
    }

    climb-Climbed :
        (r level : ℕ) (frontier : List Bytes32)
        → level + r ≡ depth
        → length frontier ≡ depth
        → ((k : ℕ)
            → level ≤ k
            → k < depth
            → is_even (above n k) ≡ false
            → get_or frontier k 0 ≡ layer sponge f k (above n k - 1))
        → Climbed frontier level r (climb sponge r level n frontier (new_node level))
    unfolding climb
    climb-Climbed zero level frontier d l h = record {
      node_eq = rw add-zero;
      sized = refl;
      below = λ k p. refl;
      passed = λ k p q. absurd (omega arith);
    }
    climb-Climbed (suc r) level frontier d l h =
        let fr = new_frontier frontier level in
        let step : (if is_even (above n level)
              then node sponge (new_node level) (zero_hash level)
              else node sponge (get_or frontier level 0) (new_node level))
            ≡ new_node (level + 1) =
          rw add-one
            (new_node-suc frontier level (omega arith) (h level (omega arith) (omega arith))) in
        let ih =
          climb-Climbed r (level + 1) fr (omega arith) (length-new_frontier frontier level ∙ l)
            (λ k p q o.
              new_frontier-other frontier level k (λ e. omega arith) ∙ h k (omega arith) q o) in
        rw step (Climbed-step r level frontier _ l (omega arith) ih)

    above-next :
        (level : ℕ)
        → (above (n + 1) level ≡ above n level) ⊎ (above (n + 1) level ≡ above n level + 1)
    above-next zero = inr (omega (arith, above-zero n, above-zero (n + 1)))
    above-next (suc level) =
        let s = above-suc n level in
        let s' = above-suc (n + 1) level in ground (arith, above-next level)

    -- The frontier that the loop leaves serves the next insertion.
    next_frontier :
        (frontier : List Bytes32) (out : List Bytes32 × Bytes32)
        → FrontierHolds sponge f n depth frontier
        → ((k : ℕ) → k < depth → get_or out.0 k 0 ≡ entry_after frontier k)
        → FrontierHolds sponge (put f n x) (n + 1) depth out.0
    next_frontier frontier out h e level l o = elim (above-next level) [
      | inl p ↦
          let o' : is_even (above n level) ≡ false = rw p at o in
          rw p (e level l ∙ (rw o' (left_known frontier level o' (h level l o'))))
      | inr p ↦
          let o' : is_even (above n level) ≡ true = ground (arith, o, p) in
          let q : above n level + 1 - 1 ≡ above n level = omega arith in
          rw (p, q) (e level l ∙ (rw o'))
    ]

    new_node-zero : new_node 0 ≡ x
    unfolding layer
    new_node-zero = rw above-zero (ground arith)

    -- The whole loop: its node is the root of the tree with the new leaf, and its frontier serves
    -- the next insertion.
    pub climb_total :
        (frontier : List Bytes32)
        → length frontier ≡ depth
        → n < 2 ^ depth
        → FrontierHolds sponge f n depth frontier
        → let out = climb sponge depth 0 n frontier x in
          (out.1 ≡ merkle_root sponge (put f n x) depth)
          × (length out.0 ≡ depth)
          × FrontierHolds sponge (put f n x) (n + 1) depth out.0
    unfolding merkle_root
    climb_total frontier l b h =
        let c = climb-Climbed depth 0 frontier (omega arith) l (λ k p q. h k q) in
        let c' : Climbed frontier 0 depth (climb sponge depth 0 n frontier x) =
          rw new_node-zero at c in
        let e : 0 + depth ≡ depth = omega arith in
        (
          c'.node_eq ∙ (ap new_node e ∙ ap (layer sponge (put f n x) depth) (div-eq_of_lt b)),
          c'.sized ∙ l,
          next_frontier frontier (climb sponge depth 0 n frontier x) h
              (λ k p. c'.passed k (omega arith) (omega arith)),
        )

pub put-empty :
    (f : ℕ → Bytes32) (n : ℕ) (x : Bytes32) → EmptyFrom n f → EmptyFrom (n + 1) (put f n x)
put-empty f n x e i h = ground (arith, e i)
