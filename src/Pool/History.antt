-- ===== src/Pool/History.antt =====
-- The pool only grows, and an enrollment happens once.
use native.Mathlib.Nat.{add-zero}
use perch.Common.{
  ℕ, zero, suc, ◌+◌, ◌-◌, ◌≤◌, ◌<◌, ◌≡◌, ◌≢◌, refl, ap, sym, ◌∙◌, arith, Address, Bytes, Bytes32,
  List, [], ◌∷◌, Option, none, some, is_some, length, true, Bool, ok, get_elem?, inl, inr,
  Option-cases, min, u64_max,
}
use perch.Encode.{contract_id}
use perch.Hasher.{Sponge, leaf}
use perch.Pool.{
  Storage, Insertion, LeafPosition, rcv_insert, record_enrollment, is_known_root, enrollment,
  leaves, page, read_leaves, stored_size, require_opened, current_tree, max_page,
}
use perch.Pool.Layers.{ZerosMatch}
use perch.Pool.Invariant.{state_of, IsPool}
use perch.Pool.Append.{Appended, append-Appended, size-empty_tree}
use perch.Pool.Reach.{Reachable, then_insert, Inserts, rcv_insert-Enrolled, Reachable-IsPool}

-- Every leaf, known root and enrollment of one pool is in another.
pub record Extends (s s' : Storage) : Type 0 where
  pub leaves_kept : (t i : ℕ) (x : Bytes32) → s.leaves t i ≡ some x → s'.leaves t i ≡ some x
  pub roots_kept : (t : ℕ) (r : Bytes32) → is_known_root s t r ≡ true → is_known_root s' t r ≡ true
  pub enrollments_kept :
      (a : Address) (n : Bytes32) (p : LeafPosition)
      → s.enrollments a n ≡ some p
      → s'.enrollments a n ≡ some p

module _ (sponge : Sponge) (depth : ℕ) (x : Bytes32) (s s₁ : Storage) (at : Insertion)
    (a : Appended sponge depth x s s₁ at) (h : IsPool sponge depth s) (account : Address)
    (enrollment_id : Bytes32) (fresh : s.enrollments account enrollment_id ≡ none) where
  recorded-Extends : Extends s (record_enrollment s₁ account enrollment_id at)
  unfolding record_enrollment is_known_root
  recorded-Extends = record {
    leaves_kept = λ t i y e. rw a.leaves_eq (ground (arith, e, (h.trees_hold t).vacant i));
    roots_kept = λ t r e. rw a.roots_eq (ground (arith, e));
    enrollments_kept = λ c n p e. rw a.enrollments_eq (ground (arith, e, fresh));
  }

  recorded-position :
      (enrollment (record_enrollment s₁ account enrollment_id at) account enrollment_id
        ≡ some (record { tree_id = at.tree_id; index = at.index }))
      × ((record_enrollment s₁ account enrollment_id at).leaves at.tree_id at.index ≡ some x)
  unfolding record_enrollment enrollment
  recorded-position = (ground arith, rw (a.leaves_eq, a.at_eq) (ground arith))

enrolled-not-fresh :
    (s : Storage) (a : Address) (n : Bytes32) (p : LeafPosition)
    → enrollment s a n ≡ some p
    → s.enrollments a n ≡ none
    → ⊥
unfolding enrollment
enrolled-not-fresh s a n p e f = ground (arith, e, f)

module _ (sponge : Sponge) (to_xdr : Address → Bytes) (depth : ℕ) where
  -- The states that successful insertions by any accounts reach from one state.
  pub data After (s : Storage) : Storage → Type 0 where
    same : After s s
    then_more :
        {before after : Storage}
        → After s before
        → Inserts sponge to_xdr depth before after
        → After s after

module _ (sponge : Sponge) (to_xdr : Address → Bytes) (depth : ℕ)
    (zero_match : ZerosMatch sponge depth) (auth : Address → Bool) (account : Address)
    (enrollment_id commitment : Bytes32) (s s' : Storage) (at : Insertion)
    (reach : Reachable sponge to_xdr depth s)
    (h : rcv_insert sponge to_xdr auth depth account enrollment_id commitment s ≡ ok (s', at)) where
  -- A successful insertion into a reachable pool keeps every leaf at its position, every accepted
  -- root and every enrollment.
  pub rcv_insert-Extends : Extends s s'
  rcv_insert-Extends =
      let c =
        rcv_insert-Enrolled sponge to_xdr depth auth account enrollment_id commitment s s' at h in
      let a =
        append-Appended sponge depth (leaf sponge c.account_id enrollment_id commitment) s
          c.appended at c.appends in
      rw c.after_eq (
        recorded-Extends sponge depth _ s c.appended at a
          (Reachable-IsPool sponge to_xdr depth zero_match reach) account enrollment_id c.fresh)

-- An enrollment is never forgotten.
After-enrolled :
    (sponge : Sponge) (to_xdr : Address → Bytes) (depth : ℕ) (zero_match : ZerosMatch sponge depth)
    (s later : Storage) (account : Address) (enrollment_id : Bytes32) (p : LeafPosition)
    → Reachable sponge to_xdr depth s
    → After sponge to_xdr depth s later
    → enrollment s account enrollment_id ≡ some p
    → Reachable sponge to_xdr depth later × (enrollment later account enrollment_id ≡ some p)
unfolding enrollment
After-enrolled sponge to_xdr depth z s _ account enrollment_id p reach same e = (reach, e)
After-enrolled sponge to_xdr depth z s _ account enrollment_id p reach
      (then_more {before} {after} more c) e =
    let (r, f) =
      After-enrolled sponge to_xdr depth z s before account enrollment_id p reach more e in
    (
      then_insert r c,
      (rcv_insert-Extends sponge to_xdr depth z c.auth c.account c.enrollment_id c.commitment before
            after c.at r c.succeeds).enrollments_kept
          account enrollment_id p f,
    )

module _ (sponge : Sponge) (to_xdr : Address → Bytes) (depth : ℕ)
    (zero_match : ZerosMatch sponge depth) (auth : Address → Bool) (account : Address)
    (enrollment_id commitment : Bytes32) (s s' : Storage) (at : Insertion)
    (reach : Reachable sponge to_xdr depth s)
    (h : rcv_insert sponge to_xdr auth depth account enrollment_id commitment s ≡ ok (s', at)) where
  -- A successful insertion was authorized by the account, which is a contract; it stores the leaf
  -- that binds the account's id, the enrollment id and the commitment at the position that
  -- the enrollment then names; and after any further successful insertions no call inserts under
  -- the same account and id.
  pub rcv_insert-enrolled :
      (auth account ≡ true)
      × ((id : Bytes32) × (contract_id (to_xdr account) ≡ some id)
          × (s'.leaves at.tree_id at.index ≡ some (leaf sponge id enrollment_id commitment)))
      × (enrollment s' account enrollment_id
          ≡ some (record { tree_id = at.tree_id; index = at.index }))
      × ((later : Storage) (auth' : Address → Bool) (commitment' : Bytes32)
            (r : Storage × Insertion)
          → After sponge to_xdr depth s' later
          → rcv_insert sponge to_xdr auth' depth account enrollment_id commitment' later ≢ ok r)
  rcv_insert-enrolled =
      let c =
        rcv_insert-Enrolled sponge to_xdr depth auth account enrollment_id commitment s s' at h in
      let a =
        append-Appended sponge depth (leaf sponge c.account_id enrollment_id commitment) s
          c.appended at c.appends in
      let (p, q) =
        recorded-position sponge depth _ s c.appended at a
          (Reachable-IsPool sponge to_xdr depth zero_match reach) account enrollment_id c.fresh in
      let p' : enrollment s' account enrollment_id
          ≡ some (record { tree_id = at.tree_id; index = at.index }) =
        rw c.after_eq p in
      (
        c.authorized,
        (c.account_id, c.is_contract, rw c.after_eq q),
        p',
        λ later auth' commitment' r more e.
            let d =
              rcv_insert-Enrolled sponge to_xdr depth auth' account enrollment_id commitment' later
                r.0 r.1 e in
            let now : Reachable sponge to_xdr depth s' = then_insert reach (record {
              auth = auth;
              account = account;
              enrollment_id = enrollment_id;
              commitment = commitment;
              at = at;
              succeeds = h;
            }) in
            enrolled-not-fresh later account enrollment_id _
              (After-enrolled sponge to_xdr depth zero_match s' later account enrollment_id _ now
                more p').1
              d.fresh,
      )

get_shift :
    (f : ℕ → Option Bytes32) (start n : ℕ) (x : Bytes32) (xs : List Bytes32)
    → f start ≡ some x
    → ((i : ℕ) → i < n → get_elem? xs i ≡ f (start + 1 + i))
    → (i : ℕ) → i < suc n
    → get_elem? (x ∷ xs) i ≡ f (start + i)
get_shift f start n x xs e h zero p = rw add-zero (sym e)
get_shift f start n x xs e h (suc i) p =
    let q : start + 1 + i ≡ start + suc i = omega arith in h i (omega arith) ∙ ap f q

read_leaves_total :
    (s : Storage) (t start n : ℕ)
    → ((i : ℕ) → start ≤ i → i < start + n → is_some (s.leaves t i) ≡ true)
    → (xs : List Bytes32) × (read_leaves s t start n ≡ some xs)
      × (length xs ≡ n)
      × ((i : ℕ) → i < n → get_elem? xs i ≡ s.leaves t (start + i))
unfolding read_leaves
read_leaves_total s t start zero h = ([], refl, refl, λ i p. absurd (omega arith))
read_leaves_total s t start (suc n) h =
    let (xs, e, l, g) =
      read_leaves_total s t (start + 1) n (λ i p q. h i (omega arith) (omega arith)) in
    elim (Option-cases (s.leaves t start)) [
      | inl n ↦ absurd (ground (arith, n, h start (omega arith) (omega arith)))
      | inr (x, w) ↦
          (x ∷ xs, ground (arith, w, e), omega arith, get_shift (s.leaves t) start n x xs w g)
    ]

stored_size-state_of :
    (sponge : Sponge) (depth : ℕ) (s : Storage) (t : ℕ)
    → stored_size s t ≡ (state_of sponge depth s t).size
stored_size-state_of sponge depth s t = ground (arith, size-empty_tree depth)

-- The end of a page.
abbrev page_end : Storage → ℕ → ℕ → ℕ → ℕ
page_end s t start count = min (min (start + count) u64_max) (stored_size s t)

page_total :
    (s : Storage) (t start count : ℕ)
    → t ≤ current_tree s
    → count ≤ max_page
    → page s t start count
      ≡ ok (
        min start (page_end s t start count),
        page_end s t start count - min start (page_end s t start count),
      )
unfolding page require_opened
page_total s t start count o c = ground arith

-- Reading a page of a reachable pool never meets a missing leaf: whenever the tree is open and the
-- page is not too large, `leaves` returns the stored leaves from `start` on, as many as
-- the tree has of the `count` asked for.
pub leaves_total :
    (sponge : Sponge) (to_xdr : Address → Bytes) (depth : ℕ) (s : Storage) (t start count : ℕ)
    → ZerosMatch sponge depth
    → Reachable sponge to_xdr depth s
    → t ≤ current_tree s
    → count ≤ max_page
    → (xs : List Bytes32) × (leaves s t start count ≡ ok (some xs))
      × (length xs ≡ min (min (start + count) u64_max) (state_of sponge depth s t).size - start)
      × ((i : ℕ) → i < length xs → get_elem? xs i ≡ s.leaves t (start + i))
unfolding leaves
leaves_total sponge to_xdr depth s t start count z r o c =
    let e = page_end s t start count in
    let tree = (Reachable-IsPool sponge to_xdr depth z r).trees_hold t in
    let q = stored_size-state_of sponge depth s t in
    let (xs, w, l, g) =
      read_leaves_total s t (min start e) (e - min start e)
        (λ i a b. tree.filled i (omega arith)) in
    (
      xs,
      rw (page_total s t start count o c, w),
      omega arith,
      λ i p.
          let f : min start e ≡ start = omega arith in
          g i (omega arith) ∙ ap (λ j. s.leaves t (j + i)) f,
    )
