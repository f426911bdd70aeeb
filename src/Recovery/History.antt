-- ===== src/Recovery/History.antt =====
-- crates/perch-recovery/src/contract.rs: what no call takes back. The epoch, the attempt ids and the
-- spent nullifiers only grow, and a call counts at most one cancellation.
pub mod Attempts
pub mod Hooks
pub mod Changes
pub mod Steps
use perch.Common.{
  ℕ, ◌+◌, ◌≤◌, ◌<◌, Bytes32, Bool, true, Option, some, ◌≡◌, refl, ◌⊎◌, inl, unwrap_or, arith,
  Ensures, >>=-Ensures, u64_max,
}
use perch.Recovery.Config.{CompiledRecoveryConfig}
use perch.Recovery.World.{next}
use perch.Recovery.State.{Entries, epoch_of, bump_epoch}
use perch.Recovery.Invariant.Calls.{next-eq}

abbrev pub cancel_count : Entries → ℕ
cancel_count s = unwrap_or s.cancels 0

-- No cancellation is counted, or one is, within the stored configuration's maximum.
abbrev pub Counts : Entries → Entries → Type 0
Counts s t =
    (cancel_count t ≡ cancel_count s)
    ⊎ ((c : CompiledRecoveryConfig) × (s.config ≡ some c)
        × (cancel_count s < c.max_cancels)
        × (cancel_count t ≡ cancel_count s + 1))

abbrev pub Later : Entries → Entries → Type 0
Later s t =
    (epoch_of s ≤ epoch_of t)
    × (unwrap_or s.next_attempt 0 ≤ unwrap_or t.next_attempt 0)
    × ((n : Bytes32) → s.nullifier n ≡ true → t.nullifier n ≡ true)
    × Counts s t

pub Later-self : (s : Entries) → Later s s
Later-self s = (omega arith, omega arith, (λ n h. h), inl refl)

-- A new epoch, over entries that are later already.
pub bump_epoch-Later : (s t : Entries) → Later s t → Ensures (Later s) (bump_epoch t)
unfolding bump_epoch
bump_epoch-Later s t (e, i, n, k) =
    >>=-Ensures (Later s) (next u64_max (epoch_of t)) _
      (λ m h. (omega (arith, e, next-eq u64_max (epoch_of t) m h), i, n, k))
