-- ===== src/Adapter/Member.antt =====
-- crates/perch-zk-adapter/src/contract.rs beside crates/perch-zk-pool: the root of accepted evidence.
use perch.Common.{ℕ, Address, Bytes, some, ◌≡◌, ◌<◌, ◌≤◌, ok}
use perch.Pool.{Storage, is_known_root}
use perch.Pool.Layers.{ZerosMatch, merkle_root}
use perch.Pool.Invariant.{prefix, state_of}
use perch.Pool.Reach.{Reachable, is_known_root_iff}
use perch.Recovery.Config.{ZkBinding}
use perch.Recovery.Statement.{RecoveryStatement}
use perch.Recovery.World.{ZkEvidence}
use perch.Adapter.{Surroundings, verify}
use perch.Adapter.Accepts.{verify_iff}

-- When the bound pool is one of this repository in a reachable state, with the adapter's sponge and
-- matching empty subtree roots, the root of accepted evidence is the Merkle root of a nonempty
-- prefix of the leaves that were inserted into the evidence's tree.
pub verify-member :
    (o : Surroundings) (pool_xdr : Address → Bytes) (depth : ℕ) (pool : Storage)
    (s : RecoveryStatement) (b : ZkBinding) (e : ZkEvidence)
    → ZerosMatch o.sponge depth
    → Reachable o.sponge pool_xdr depth pool
    → o.try_is_known_root b.pool e.tree_id e.root ≡ some (is_known_root pool e.tree_id e.root)
    → verify o s b e ≡ ok tt
    → (k : ℕ) × (0 < k)
      × (k ≤ (state_of o.sponge depth pool e.tree_id).size)
      × (e.root ≡ merkle_root o.sponge (prefix k (pool.leaves e.tree_id)) depth)
verify-member o pool_xdr depth pool s b e z h answer p =
    let (_, _, _, _, known, _) = (verify_iff o s b e).0 p in
    (is_known_root_iff o.sponge pool_xdr depth z pool e.tree_id e.root h).1.0 cc
