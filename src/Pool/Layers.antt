-- ===== src/Pool/Layers.antt =====
-- The Merkle tree over a sequence of leaves by its layers, and what one more leaf changes.
use native.Mathlib.Nat.{div-div-eq-div-mul, pow-suc, div-one}
use perch.Common.{
  ℕ, zero, suc, ◌+◌, ◌-◌, ◌*◌, ◌/◌, ◌%◌, ◌^◌, ◌≤◌, ◌<◌, ◌≡◌, ◌≢◌, refl, sym, arith, Bytes32, ◌==◌,
  if◌then◌else◌, List, get_or, Bool, false,
}
use perch.Hasher.{Sponge, node, zero_hash}

-- The pinned constants are the empty subtree roots of the sponge, up to a depth.
abbrev pub ZerosMatch : Sponge → ℕ → Type 0
ZerosMatch sponge depth =
    (level : ℕ)
    → level < depth
    → zero_hash (suc level) ≡ node sponge (zero_hash level) (zero_hash level)

-- The index of the node above a leaf at a level.
abbrev pub above : ℕ → ℕ → ℕ
above index level = index / 2 ^ level

pub above-zero : (i : ℕ) → above i 0 ≡ i
above-zero i = div-one i

pub above-suc : (i level : ℕ) → above i (suc level) ≡ above i level / 2
above-suc i level = rw pow-suc (sym (div-div-eq-div-mul i (2 ^ level) 2))

module _ (sponge : Sponge) where
  -- The nodes of a level, by position.
  unfoldable pub layer : (ℕ → Bytes32) → ℕ → ℕ → Bytes32
  layer f zero i = f i
  layer f (suc level) i = node sponge (layer f level (2 * i)) (layer f level (2 * i + 1))

  -- The root of the tree of a depth.
  unfoldable pub merkle_root : (ℕ → Bytes32) → ℕ → Bytes32
  merkle_root f depth = layer f depth 0

  pub layer-ext :
      (f g : ℕ → Bytes32)
      → ((i : ℕ) → f i ≡ g i)
      → (level i : ℕ) → layer f level i ≡ layer g level i
  unfolding layer
  layer-ext f g h zero i = h i
  layer-ext f g h (suc level) i = rw (layer-ext f g h level, layer-ext f g h level)

-- The sequence with one leaf more.
abbrev pub put : (ℕ → Bytes32) → ℕ → Bytes32 → ℕ → Bytes32
put f n x i = if n == i then x else f i

-- Whether a node is a left child.
abbrev pub is_even : ℕ → Bool
is_even n = n % 2 == 0

-- Nothing from `n` on.
abbrev pub EmptyFrom : ℕ → (ℕ → Bytes32) → Type 0
EmptyFrom n f = (i : ℕ) → n ≤ i → f i ≡ zero_hash 0

module _ (sponge : Sponge) (f : ℕ → Bytes32) (n : ℕ) (x : Bytes32) where
  -- A new leaf changes one node of each level, the one above it.
  pub layer-put :
      (level i : ℕ) → above n level ≢ i → layer sponge (put f n x) level i ≡ layer sponge f level i
  unfolding layer
  layer-put zero i h = ground (arith, above-zero n, h)
  layer-put (suc level) i h =
      let e = above-suc n level in
      let p : above n level ≢ 2 * i = λ q. h (omega arith) in
      let q : above n level ≢ 2 * i + 1 = λ q. h (omega arith) in
      rw (layer-put level (2 * i) p, layer-put level (2 * i + 1) q)

module _ (sponge : Sponge) (f : ℕ → Bytes32) (n depth : ℕ) where
  -- Above what is empty stand the constants.
  pub layer-empty :
      (level i : ℕ)
      → ZerosMatch sponge depth
      → EmptyFrom n f
      → level ≤ depth
      → above n level < i
      → layer sponge f level i ≡ zero_hash level
  unfolding layer
  layer-empty zero i z e l h = e i (omega (arith, above-zero n))
  layer-empty (suc level) i z e l h =
      let s = above-suc n level in
      rw
        (
          layer-empty level (2 * i) z e (omega arith) (omega arith),
          layer-empty level (2 * i + 1) z e (omega arith) (omega arith),
        )
        (sym (z level (omega arith)))

  -- Before leaf `n` the frontier holds the left sibling wherever one is needed.
  abbrev pub FrontierHolds : List Bytes32 → Type 0
  FrontierHolds frontier =
      (level : ℕ)
      → level < depth
      → is_even (above n level) ≡ false
      → get_or frontier level 0 ≡ layer sponge f level (above n level - 1)

-- A tree with no leaves.
pub layer-nothing :
    (sponge : Sponge) (depth : ℕ)
    → ZerosMatch sponge depth
    → (level i : ℕ) → level ≤ depth
    → layer sponge (λ j. zero_hash 0) level i ≡ zero_hash level
unfolding layer
layer-nothing sponge depth z zero i l = refl
layer-nothing sponge depth z (suc level) i l =
    rw
      (
        layer-nothing sponge depth z level (2 * i) (omega arith),
        layer-nothing sponge depth z level (2 * i + 1) (omega arith),
      )
      (sym (z level (omega arith)))
