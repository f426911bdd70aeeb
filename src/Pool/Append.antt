-- ===== src/Pool/Append.antt =====
-- `append` keeps the pool's invariant.
use mathlib.Core.Path.{subst, fun_ext}
use native.Mathlib.Decide.{ℕ_discrete}
use perch.Common.{
  ℕ, ◌+◌, ◌^◌, ◌≤◌, ◌<◌, ◌≡◌, ◌≢◌, refl, ◌∙◌, arith, Bytes32, ◌==◌, if◌then◌else◌, inl, inr, List,
  some, Bool-cases, ok, update,
}
use perch.Hasher.{Sponge}
use perch.Pool.{
  Storage, TreeState, Insertion, climb, append, current_tree, empty_tree, update₂, capacity,
}
use perch.Pool.Layers.{ZerosMatch, merkle_root}
use perch.Pool.Invariant.{
  sequence, grown, IsTree, RootsHold, IsPool, state_of, IsTree-grown, RootsHold-grown,
}

pub size-empty_tree : (depth : ℕ) → (empty_tree depth).size ≡ 0
unfolding empty_tree
size-empty_tree depth = refl

-- What a successful `append` returns and writes.
module _ (sponge : Sponge) (depth : ℕ) (x : Bytes32) (s : Storage) where
  abbrev pub active : ℕ
  active = current_tree s

  abbrev pub before : TreeState
  before = state_of sponge depth s active

  abbrev pub out : List Bytes32 × Bytes32
  out = climb sponge depth 0 before.size before.frontier x

  abbrev pub after : TreeState
  after = record { size = before.size + 1; root = out.1; frontier = out.0 }

  pub record Appended (s' : Storage) (at : Insertion) : Type 0 where
    pub trees_eq : s'.trees ≡ update s.trees active (some after)
    pub leaves_eq : s'.leaves ≡ update₂ s.leaves active before.size (some x)
    pub roots_eq : s'.roots ≡ update₂ s.roots active out.1 (some (before.size + 1))
    pub enrollments_eq : s'.enrollments ≡ s.enrollments
    pub current_eq : current_tree s' ≡ (if before.size + 1 == 2 ^ depth then active + 1 else active)
    pub at_eq : at ≡ record { tree_id = active; index = before.size; leaf = x; root = out.1 }

  pub append-Appended :
      (s' : Storage) (at : Insertion) → append sponge depth x s ≡ ok (s', at) → Appended s' at
  unfolding append capacity current_tree
  append-Appended s' at h = ground arith

  module _ (s' : Storage) (at : Insertion) (a : Appended s' at) where
    state-active : state_of sponge depth s' active ≡ after
    state-active = rw a.trees_eq (ground arith)

    leaves-active : s'.leaves active ≡ grown (s.leaves active) before.size x
    leaves-active = rw a.leaves_eq (fun_ext λ i. ground arith)

    roots-active : s'.roots active ≡ update (s.roots active) out.1 (some (before.size + 1))
    roots-active = rw a.roots_eq (fun_ext λ i. ground arith)

    state-other : (t : ℕ) → active ≢ t → state_of sponge depth s' t ≡ state_of sponge depth s t
    state-other t h = rw a.trees_eq (ground arith)

    leaves-other : (t : ℕ) → active ≢ t → s'.leaves t ≡ s.leaves t
    leaves-other t h = rw a.leaves_eq (fun_ext λ i. ground arith)

    roots-other : (t : ℕ) → active ≢ t → s'.roots t ≡ s.roots t
    roots-other t h = rw a.roots_eq (fun_ext λ i. ground arith)

    trees-other : (t : ℕ) → active ≢ t → s'.trees t ≡ s.trees t
    trees-other t h = rw a.trees_eq (ground arith)

    module _ (zero_match : ZerosMatch sponge depth) (h : IsPool sponge depth s) where
      kept_trees : (t : ℕ) → IsTree sponge depth (s'.leaves t) (state_of sponge depth s' t)
      kept_trees t = elim (ℕ_discrete active t) [
        | yes e ↦
            subst (λ t. IsTree sponge depth (s'.leaves t) (state_of sponge depth s' t)) e
              (rw (leaves-active, state-active)
                (IsTree-grown sponge depth zero_match (s.leaves active) before x
                  (h.trees_hold active) h.room))
        | no n ↦ rw (leaves-other t n, state-other t n) (h.trees_hold t)
      ]

      root_after :
          out.1 ≡ merkle_root sponge (sequence (grown (s.leaves active) before.size x)) depth
      root_after =
          (IsTree-grown sponge depth zero_match (s.leaves active) before x (h.trees_hold active)
            h.room).root_eq

      kept_roots :
          (t : ℕ)
          → RootsHold sponge depth (s'.leaves t) (state_of sponge depth s' t).size (s'.roots t)
      kept_roots t = elim (ℕ_discrete active t) [
        | yes e ↦
            subst
              (λ t.
                RootsHold sponge depth (s'.leaves t) (state_of sponge depth s' t).size (s'.roots t))
              e
              (rw (leaves-active, state-active, roots-active)
                (RootsHold-grown sponge depth zero_match (s.leaves active) before.size x out.1
                  (s.roots active) (h.trees_hold active).vacant root_after (h.roots_hold active)))
        | no n ↦ rw (leaves-other t n, state-other t n, roots-other t n) (h.roots_hold t)
      ]

      kept_room : (state_of sponge depth s' (current_tree s')).size < 2 ^ depth
      kept_room = elim (Bool-cases (before.size + 1 == 2 ^ depth)) [
        | inl full ↦
            let c : current_tree s' ≡ active + 1 = a.current_eq ∙ (rw full) in
            let n : active ≢ active + 1 = λ e. omega arith in
            rw (c, state-other (active + 1) n, h.future (active + 1) (omega arith), size-empty_tree)
              (omega (arith, h.room))
        | inr part ↦
            let c : current_tree s' ≡ active = a.current_eq ∙ (rw part) in
            rw (c, state-active) (ground (arith, h.room, part))
      ]

      active-le : active ≤ current_tree s'
      active-le = rw a.current_eq (ground arith)

      pub Appended-IsPool : IsPool sponge depth s'
      Appended-IsPool = record {
        trees_hold = kept_trees;
        roots_hold = kept_roots;
        room = kept_room;
        future = λ t l.
            trees-other t (λ e. omega (arith, active-le)) ∙ h.future t (omega (arith, active-le));
      }
