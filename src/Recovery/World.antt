-- ===== src/Recovery/World.antt =====
-- What one invocation of crates/perch-recovery reads of the host, of the account and of the
-- contracts it calls, none of which are the controller's own code.
use perch.Common.{
  ℕ, ◌+◌, Address, Bytes, Bytes32, Val, Bool, true, false, ◌&&◌, not, Option, List, [], ◌∷◌, leb,
  ◌||◌, Result, ok, err, guard, u32_max, is_some,
}
use perch.Recovery.Config.{ZkBinding}
use perch.Recovery.Statement.{RecoveryAction, RecoveryStatement}
use perch.Recovery.Credential.{Credential, ReplacementSet}
use perch.Recovery.Types.{RecoveryError, ledger_overflow, trapped}

-- What `derive_target` returns.
pub record Derived : Type 0 where
  pub canonical : Bytes
  pub doc_hash : Bytes32
  pub config_hash : Bytes32
  pub fingerprints : List Bytes32
  pub replaced : List Credential

-- `RuleScope`, as far as the code tells it apart, and the parts of `CompiledRule` it reads.
pub data RuleScope : Type 0 where
  self_admin other_scope : RuleScope

pub record CompiledRule : Type 0 where
  pub scope : RuleScope
  pub valid_until : Option ℕ
  pub signers : List ℕ
  pub install : List ℕ
  pub cap : List ℕ

-- The parts of what `compile_doc` returns that the controller reads.
pub record Compiled : Type 0 where
  pub doc_hash : Bytes32
  pub canonical : Bytes
  pub rules : List CompiledRule

-- `ZkEvidence`.
pub record ZkEvidence : Type 0 where
  pub tree_id : ℕ
  pub root : Bytes32
  pub nullifier : Bytes32
  pub proof : Bytes

pub record World : Type 0 where
  -- The host: the ledger, this contract and the network, hashes and encodings, authorizations.
  pub now : ℕ
  pub here : Address
  pub network_id : Bytes32
  pub max_ttl : ℕ
  pub sha256 : Bytes → Bytes32
  pub to_xdr : Address → Bytes
  pub as_bytes : Val → Option Bytes
  pub auth : Address → Bool
  pub auth_for : Address → Bytes32 → Bool
  -- The account's views and whether it accepts `rcv_gate`.
  pub applied_doc : Option Bytes
  pub applied_doc_hash : Option Bytes32
  pub is_enrolled_id : Bytes32 → Bool
  pub is_revoked : Bytes32 → Bool
  pub accepts_gate : ℕ → ℕ → Bool
  -- The account's compiler; `none` is a refusal.
  pub derive_target : Bytes → Bytes → RecoveryAction → ReplacementSet → Option Derived
  pub compile_doc : Bytes → Option Compiled
  -- The adapters and pools, by address.
  pub verify : Address → RecoveryStatement → ZkBinding → ZkEvidence → Bool
  pub circuit_id : Address → Option Bytes32
  pub adapter_depth : Address → Option ℕ
  pub pool_depth : Address → Option ℕ

abbrev pub is_empty : List ℕ → Bool
is_empty [] = true
is_empty _ = false

abbrev pub is_self_admin : RuleScope → Bool
is_self_admin self_admin = true
is_self_admin other_scope = false

-- `admin_survives` of crates/perch-doc-compiler.
unfoldable pub admin_survives : List CompiledRule → Bool
admin_survives [] = false
admin_survives (r ∷ rs) =
    (is_self_admin r.scope
      && (not (is_some r.valid_until)
          && (not (is_empty r.signers) && (is_empty r.install && is_empty r.cap))))
    || admin_survives rs

-- `account.require_auth()` and `guardian.require_auth_for_args((digest,))`.
abbrev pub require_auth : World → Address → Result RecoveryError (Unit {0})
require_auth w account = guard (w.auth account) trapped

abbrev pub require_auth_for : World → Address → Bytes32 → Result RecoveryError (Unit {0})
require_auth_for w guardian digest = guard (w.auth_for guardian digest) trapped

abbrev pub if_fits : Bool → ℕ → RecoveryError → Result RecoveryError ℕ
if_fits true n e = ok n
if_fits false n e = err e

-- `add`.
unfoldable pub add : ℕ → ℕ → Result RecoveryError ℕ
add a b = if_fits (leb (a + b) u32_max) (a + b) ledger_overflow

-- A sum that the arithmetic's overflow check ends the invocation for.
unfoldable pub next : ℕ → ℕ → Result RecoveryError ℕ
next bound a = if_fits (leb (a + 1) bound) (a + 1) trapped
