-- ===== src/Recovery/State.antt =====
-- crates/perch-recovery/src/storage.rs and the state helpers of src/contract.rs: the entries of one
-- account. Every entry is keyed by the account, and none of the code reads another account's.
use perch.Common.{
  ℕ, ◌+◌, ◌-◌, Bytes, Bytes32, Bool, true, false, ◌&&◌, ◌||◌, not, Option, none, some, List, leb,
  ltb, ◌==◌, opt_eq, if◌then◌else◌, is_some, unwrap_or, update, Result, ok, ◌>>=◌, ◌>>◌, guard,
  ok_or, min, u64_max, u32_max,
}
use perch.Recovery.Config.{CompiledRecoveryConfig}
use perch.Recovery.Types.{
  Attempt, AttemptState, collecting, authorized, completed, cancelled, invalidated, ChangeApproval,
  CompletionMarker, RecoveryError, not_enrolled, no_such_attempt, attempt_not_live,
  attempt_authorized,
}
use perch.Recovery.World.{next}

-- `RecoveryStorage`, and the calls of the account's `rcv_gate` so far, the latest first.
pub record Entries : Type 0 where
  pub config : Option CompiledRecoveryConfig
  pub epoch : Option ℕ
  pub next_attempt : Option ℕ
  pub invalidate_below : Option ℕ
  pub authorized : Option ℕ
  pub cancels : Option ℕ
  pub attempt : ℕ → Option Attempt
  pub collecting : ℕ → Option Attempt
  pub completing : Option CompletionMarker
  pub nullifier : Bytes32 → Bool
  pub approval : Bytes32 → Option ChangeApproval
  pub baseline : Bytes32 → Option Bytes
  pub gates : List (ℕ × ℕ)

abbrev pub require_config : Entries → Result RecoveryError CompiledRecoveryConfig
require_config s = ok_or s.config not_enrolled

abbrev pub epoch_of : Entries → ℕ
epoch_of s = unwrap_or s.epoch 0

unfoldable pub bump_epoch : Entries → Result RecoveryError Entries
bump_epoch s = do n ← next u64_max (epoch_of s); ok (record s { epoch = some n })

unfoldable pub store_config : CompiledRecoveryConfig → Entries → Result RecoveryError Entries
store_config c s = bump_epoch (record s { config = some c })

abbrev pub or_else {ℓ} : {A : Type ℓ} → Option A → Option A → Option A
or_else (some a) o = some a
or_else none o = o

unfoldable pub load : Entries → ℕ → Option Attempt
load s id = or_else (s.attempt id) (s.collecting id)

unfoldable pub is_live : ℕ → Entries → Attempt → Bool
is_live now s a = (a.epoch == epoch_of s) && elim a.state [
  | collecting ↦ leb (unwrap_or s.invalidate_below 0) a.id && leb now a.evidence_deadline
  | authorized ↦ opt_eq s.authorized (some a.id) && ltb now a.expires_at
  | completed ↦ false
  | cancelled ↦ false
  | invalidated ↦ false
]

unfoldable pub load_live : ℕ → Entries → ℕ → Result RecoveryError Attempt
load_live now s id = do
  a ← ok_or (load s id) no_such_attempt
  guard (is_live now s a) attempt_not_live
  ok a

-- `is_live(..).then_some(attempt)`.
abbrev pub then_some {ℓ} : {A : Type ℓ} → Bool → A → Option A
then_some true a = some a
then_some false a = none

abbrev pub and_then {ℓ κ} : {A : Type ℓ} {B : Type κ} → Option A → (A → Option B) → Option B
and_then none f = none
and_then (some a) f = f a

unfoldable pub authorized_live : ℕ → Entries → Option Attempt
authorized_live now s =
    and_then s.authorized (λ id. and_then (s.attempt id) (λ a. then_some (is_live now s a) a))

unfoldable pub refuse_in_window : ℕ → Entries → Result RecoveryError (Unit {0})
refuse_in_window now s = guard (not (is_some (authorized_live now s))) attempt_authorized

-- Saturating at both ends of `u32`.
unfoldable pub evidence_window : ℕ → Attempt → ℕ
evidence_window now a = min (a.evidence_deadline - now + 1) u32_max

abbrev pub was_authorized : AttemptState → Bool
was_authorized authorized = true
was_authorized completed = true
was_authorized _ = false

unfoldable pub is_persistent : ℕ → ℕ → Entries → Attempt → Bool
is_persistent now max_ttl s a =
    was_authorized a.state || (ltb max_ttl (evidence_window now a) || is_some (s.attempt a.id))

unfoldable pub save : ℕ → ℕ → Attempt → Entries → Entries
save now max_ttl a s =
    let persistent = is_persistent now max_ttl s a in
    record s {
      attempt = if persistent then update s.attempt a.id (some a) else s.attempt;
      collecting = update s.collecting a.id (if persistent then none else some a);
    }

unfoldable pub store_approval : Bytes32 → ChangeApproval → Entries → Entries
store_approval digest r s = record s { approval = update s.approval digest (some r) }
