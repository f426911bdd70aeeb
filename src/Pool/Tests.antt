-- ===== src/Pool/Tests.antt =====
-- Runs of the membership pool of depth 2 over a sponge with the pinned empty subtrees.
use perch.Common.{
  ℕ, zero, suc, ◌+◌, ◌-◌, ◌≤◌, ◌<◌, ◌≡◌, ◌≢◌, ◌↔◌, refl, arith, Address, Bytes, Bytes32, Bool, true,
  some, List, [], ◌∷◌, ◌++◌, ◌==◌, ◌&&◌, if◌then◌else◌, ok, length, get_elem?, min, update, u64_max,
}
use perch.Encode.{contract_header, contract_id, address_payload, is_canonical, split_hi_lo}
use perch.Hasher.{Sponge, node, zero_hash, leaf}
use perch.Pool.{
  Storage, Insertion, rcv_insert, append, climb, current_tree, claim_enrollment, record_enrollment,
  update₂, is_known_root, zeros, empty_tree, capacity, leaves, enrollment,
}
use perch.Pool.Layers.{ZerosMatch, merkle_root}
use perch.Pool.Invariant.{sequence, prefix, state_of}
use perch.Pool.Reach.{no_entries, Reachable, deployed, then_insert, is_known_root_iff}
use perch.Pool.History.{After, Extends, rcv_insert-Extends, rcv_insert-enrolled, leaves_total}

abbrev zero_one : Bytes32
zero_one = 0xb63a53787021a4a962a452c2921b3663aff1ffd8d5510540f8e659e782956f1

abbrev zero_two : Bytes32
zero_two = 0xe34ac2c09f45a503d2908bcb12f1cbae5fa4065759c88d501c097506a8b2290

-- A pair of empty subtrees gives the next one, and anything else 7.
abbrev pub sponge : Sponge
sponge (l ∷ r ∷ []) =
    if (l == 0) && (r == 0)
    then zero_one
    else if (l == zero_one) && (r == zero_one)
    then zero_two
    else 7
sponge _ = 7

abbrev pub xdr : Address → Bytes
xdr a =
    contract_header
    ++ (0 ∷ 0 ∷ 0 ∷ 0 ∷ 0 ∷ 0 ∷ 0 ∷ 0 ∷ 0 ∷ 0 ∷ 0 ∷ 0 ∷ 0 ∷ 0 ∷ 0 ∷ 0 ∷ 0 ∷ 0 ∷ 0 ∷ 0 ∷ 0 ∷ 0 ∷ 0
        ∷ 0 ∷ 0 ∷ 0 ∷ 0 ∷ 0 ∷ 0 ∷ 0 ∷ 0 ∷ a ∷ [])

pub sponge-ZerosMatch : ZerosMatch sponge 2
unfolding zero_hash node
sponge-ZerosMatch zero h = refl
sponge-ZerosMatch (suc zero) h = refl
sponge-ZerosMatch (suc (suc n)) h = absurd (omega arith)

abbrev at : Insertion
at = record { tree_id = 0; index = 0; leaf = 7; root = 7 }

abbrev pub inserted : Storage
inserted = record no_entries {
  trees = update no_entries.trees 0 (some (record { size = 1; root = 7; frontier = 7 ∷ 7 ∷ [] }));
  leaves = update₂ no_entries.leaves 0 0 (some 7);
  roots = update₂ no_entries.roots 0 7 (some 1);
  enrollments = update₂ no_entries.enrollments 30 5 (some (record { tree_id = 0; index = 0 }));
}

insert_run : rcv_insert sponge xdr (λ a. true) 2 30 5 6 no_entries ≡ ok (inserted, at)
unfolding rcv_insert contract_id address_payload is_canonical claim_enrollment append current_tree
    empty_tree zeros climb leaf split_hi_lo zero_hash node record_enrollment capacity
insert_run = refl

pub inserted-Reachable : Reachable sponge xdr 2 inserted
inserted-Reachable = then_insert deployed (record {
  auth = λ a. true;
  account = 30;
  enrollment_id = 5;
  commitment = 6;
  at = at;
  succeeds = insert_run;
})

is_known_root_iff_example :
    ((state_of sponge 2 inserted 0).root ≡ merkle_root sponge (sequence (inserted.leaves 0)) 2)
    × ((is_known_root inserted 0 7 ≡ true) ↔ (
        (k : ℕ) × (0 < k)
        × (k ≤ (state_of sponge 2 inserted 0).size)
        × (7 ≡ merkle_root sponge (prefix k (inserted.leaves 0)) 2)))
is_known_root_iff_example =
    is_known_root_iff sponge xdr 2 sponge-ZerosMatch inserted 0 7 inserted-Reachable

rcv_insert-Extends_example : Extends no_entries inserted
rcv_insert-Extends_example =
    rcv_insert-Extends sponge xdr 2 sponge-ZerosMatch (λ a. true) 30 5 6 no_entries inserted at
      deployed insert_run

rcv_insert-enrolled_example :
    (true ≡ true)
    × ((id : Bytes32) × (contract_id (xdr 30) ≡ some id) × (some 7 ≡ some (leaf sponge id 5 6)))
    × (enrollment inserted 30 5 ≡ some (record { tree_id = 0; index = 0 }))
    × ((later : Storage) (auth : Address → Bool) (commitment : Bytes32) (r : Storage × Insertion)
        → After sponge xdr 2 inserted later
        → rcv_insert sponge xdr auth 2 30 5 commitment later ≢ ok r)
rcv_insert-enrolled_example =
    rcv_insert-enrolled sponge xdr 2 sponge-ZerosMatch (λ a. true) 30 5 6 no_entries inserted at
      deployed insert_run

zero_open : 0 ≤ current_tree inserted
unfolding current_tree
zero_open = omega arith

leaves_total_example :
    (xs : List Bytes32) × (leaves inserted 0 0 4 ≡ ok (some xs))
    × (length xs ≡ min (min (0 + 4) u64_max) (state_of sponge 2 inserted 0).size - 0)
    × ((i : ℕ) → i < length xs → get_elem? xs i ≡ inserted.leaves 0 (0 + i))
leaves_total_example =
    leaves_total sponge xdr 2 inserted 0 0 4 sponge-ZerosMatch inserted-Reachable zero_open
      (omega arith)
