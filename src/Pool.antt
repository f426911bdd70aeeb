-- ===== src/Pool.antt =====
-- crates/perch-zk-pool: the membership pool. Its persistent entries are maps; an extension of an
-- entry's time to live changes none of them.
pub mod Layers
pub mod Climb
pub mod Invariant
pub mod Append
pub mod Reach
pub mod History
pub mod Tests
use perch.Common.{
  ℕ, zero, suc, ◌+◌, ◌-◌, ◌/◌, ◌%◌, ◌^◌, min, Address, Bytes, Bytes32, Bool, true, false, Option,
  none, some, List, [], ◌∷◌, ltb, leb, ◌==◌, ◌&&◌, if◌then◌else◌, length, get_or, set, not, Result,
  ok, err, ◌>>=◌, ◌>>◌, guard, ok_or, is_some, unwrap_or, update, u32_max, u64_max,
}
use perch.Encode.{contract_id, is_canonical}
use perch.Hasher.{Sponge, node, leaf, zero_hash}

pub data PoolError : Type 0 where
  non_canonical_commitment account_not_contract enrollment_id_taken unknown_tree : PoolError
  page_too_large tree_id_overflow : PoolError
  -- The host's failure of `require_auth`.
  unauthorized : PoolError

pub record Insertion : Type 0 where
  pub tree_id : ℕ
  pub index : ℕ
  pub leaf : Bytes32
  pub root : Bytes32

pub record LeafPosition : Type 0 where
  pub tree_id : ℕ
  pub index : ℕ

pub record TreeInfo : Type 0 where
  pub tree_id : ℕ
  pub size : ℕ
  pub capacity : ℕ
  pub root : Bytes32
  pub sealed : Bool

pub record TreeState : Type 0 where
  pub size : ℕ
  pub root : Bytes32
  pub frontier : List Bytes32

-- The entries by `PoolKey`.
pub record Storage : Type 0 where
  pub current : Option ℕ
  pub trees : ℕ → Option TreeState
  pub roots : ℕ → Bytes32 → Option ℕ
  pub leaves : ℕ → ℕ → Option Bytes32
  pub enrollments : Address → Bytes32 → Option LeafPosition

abbrev pub max_page : ℕ
max_page = 64

abbrev pub tree_depth : ℕ
tree_depth = 32

abbrev pub version : ℕ
version = 1

unfoldable pub capacity : ℕ → ℕ
capacity depth = 2 ^ depth

unfoldable pub current_tree : Storage → ℕ
current_tree s = unwrap_or s.current 0

unfoldable pub require_opened : Storage → ℕ → Result PoolError (Unit {0})
require_opened s tree_id = guard (not (ltb (current_tree s) tree_id)) unknown_tree

-- `zero(0), ..., zero(depth - 1)`, from a level on.
unfoldable pub zeros : ℕ → ℕ → List Bytes32
zeros zero level = []
zeros (suc n) level = zero_hash level ∷ zeros n (level + 1)

unfoldable pub empty_tree : ℕ → TreeState
empty_tree depth = record { size = 0; root = zero_hash depth; frontier = zeros depth 0 }

-- An entry under two keys replaced.
abbrev pub update₂ {ℓ} : {A : Type ℓ} → (ℕ → ℕ → A) → ℕ → ℕ → A → ℕ → ℕ → A
update₂ f k l v i j = if (k == i) && (l == j) then v else f i j

module _ (sponge : Sponge) where
  -- The loop of `append`: `n` levels from `level` on, with the frontier and the current node.
  unfoldable pub climb : ℕ → ℕ → ℕ → List Bytes32 → Bytes32 → List Bytes32 × Bytes32
  climb zero level index frontier cur = (frontier, cur)
  climb (suc n) level index frontier cur =
      let is_left = (index / 2 ^ level) % 2 == 0 in
      climb n (level + 1) index (if is_left then set frontier level cur else frontier) (
        if is_left
        then node sponge cur (zero_hash level)
        else node sponge (get_or frontier level 0) cur)

  -- `merkle::append`.
  unfoldable pub append : ℕ → Bytes32 → Storage → Result PoolError (Storage × Insertion)
  append depth new_leaf s =
      let tree_id = current_tree s in
      let st = unwrap_or (s.trees tree_id) (empty_tree depth) in
      let index = st.size in
      let (frontier, cur) = climb depth 0 index st.frontier new_leaf in
      let st' : TreeState = record { size = index + 1; root = cur; frontier = frontier } in
      let s' = record s {
        trees = update s.trees tree_id (some st');
        leaves = update₂ s.leaves tree_id index (some new_leaf);
        roots = update₂ s.roots tree_id cur (some (index + 1));
      } in
      let at : Insertion = record {
        tree_id = tree_id;
        index = index;
        leaf = new_leaf;
        root = cur;
      } in
      if index + 1 == capacity depth
      then if ltb tree_id u32_max
        then ok (record s' { current = some (tree_id + 1) }, at)
        else err tree_id_overflow
      else ok (s', at)

unfoldable pub is_known_root : Storage → ℕ → Bytes32 → Bool
is_known_root s tree_id root = is_some (s.roots tree_id root)

unfoldable pub tree_info : ℕ → Storage → ℕ → Result PoolError TreeInfo
tree_info depth s tree_id = do
  require_opened s tree_id
  let st = unwrap_or (s.trees tree_id) (empty_tree depth)
  ok (record {
    tree_id = tree_id;
    size = st.size;
    capacity = capacity depth;
    root = st.root;
    sealed = st.size == capacity depth;
  })

-- `state(e, tree_id).map_or(0, |st| st.size)`.
abbrev pub stored_size : Storage → ℕ → ℕ
stored_size s tree_id = elim (s.trees tree_id) [ none ↦ 0 | some st ↦ st.size ]

-- The start of a page and its length, clamped to the tree's size.
unfoldable pub page : Storage → ℕ → ℕ → ℕ → Result PoolError (ℕ × ℕ)
page s tree_id start count = do
  require_opened s tree_id
  guard (not (ltb max_page count)) page_too_large
  let size = stored_size s tree_id
  let end = min (min (start + count) u64_max) size
  let from = min start end
  ok (from, end - from)

-- The loop of `leaves`; `none` is the panic of `expect` on a missing leaf.
unfoldable pub read_leaves : Storage → ℕ → ℕ → ℕ → Option (List Bytes32)
read_leaves s tree_id start zero = some []
read_leaves s tree_id start (suc n) = elim (s.leaves tree_id start) [
  | none ↦ none
  | some x ↦ elim (read_leaves s tree_id (start + 1) n) [ none ↦ none | some xs ↦ some (x ∷ xs) ]
]

unfoldable pub leaves : Storage → ℕ → ℕ → ℕ → Result PoolError (Option (List Bytes32))
leaves s tree_id start count = do
  (from, n) ← page s tree_id start count
  ok (read_leaves s tree_id from n)

-- `claim_enrollment`: the key is free.
unfoldable pub claim_enrollment : Storage → Address → Bytes32 → Result PoolError (Unit {0})
claim_enrollment s account enrollment_id =
    guard (not (is_some (s.enrollments account enrollment_id))) enrollment_id_taken

unfoldable pub record_enrollment : Storage → Address → Bytes32 → Insertion → Storage
record_enrollment s account enrollment_id at = record s {
  enrollments =
      update₂ s.enrollments account enrollment_id
        (some (record { tree_id = at.tree_id; index = at.index }));
}

unfoldable pub enrollment : Storage → Address → Bytes32 → Option LeafPosition
enrollment s account enrollment_id = s.enrollments account enrollment_id

-- `PerchZkPool::rcv_insert`, at a tree depth. `to_xdr` is the host's encoding of an address, and
-- `auth` says who authorized the call.
unfoldable pub rcv_insert :
    Sponge
    → (Address → Bytes)
    → (Address → Bool)
    → ℕ
    → Address
    → Bytes32
    → Bytes32
    → Storage
    → Result PoolError (Storage × Insertion)
rcv_insert sponge to_xdr auth depth account enrollment_id commitment s = do
  guard (auth account) unauthorized
  account_id ← ok_or (contract_id (to_xdr account)) account_not_contract
  guard (is_canonical commitment) non_canonical_commitment
  claim_enrollment s account enrollment_id
  (s', at) ← append sponge depth (leaf sponge account_id enrollment_id commitment) s
  ok (record_enrollment s' account enrollment_id at, at)
