-- ===== src/Recovery/Config.antt =====
-- crates/perch-recovery-interface/src/config.rs: the compiled recovery configuration.
use perch.Common.{
  ℕ, Address, Bytes32, Str, Bool, true, false, ◌&&◌, ◌||◌, not, Option, none, some, List, ◌==◌, ◌≡◌,
  arith, refl, ◌↔◌, ◌⊎◌, inl, inr, ap,
}

pub data RecoveryProfile : Type 0 where
  loss protected : RecoveryProfile

abbrev pub is_protected : RecoveryProfile → Bool
is_protected loss = false
is_protected protected = true

pub record CompiledGuardianSet : Type 0 where
  pub guardians : List Address
  pub quorum : ℕ

pub record CompiledZkFactor : Type 0 where
  pub adapter : Address
  pub circuit_id : Bytes32
  pub pool : Address
  pub enrollment_id : Bytes32
  pub commitment : Bytes32

-- The derived equality of two factors.
abbrev pub factor_eq : CompiledZkFactor → CompiledZkFactor → Bool
factor_eq a b =
    (a.adapter == b.adapter)
    && ((a.circuit_id == b.circuit_id)
        && ((a.pool == b.pool)
            && ((a.enrollment_id == b.enrollment_id) && (a.commitment == b.commitment))))

-- `ZkBinding`.
pub record ZkBinding : Type 0 where
  pub pool : Address
  pub enrollment_id : Bytes32
  pub circuit_id : Bytes32

-- `CompiledZkFactor::binding`.
unfoldable pub binding : CompiledZkFactor → ZkBinding
binding f = record { pool = f.pool; enrollment_id = f.enrollment_id; circuit_id = f.circuit_id }

pub data CompiledRecoveryMode : Type 0 where
  guardian_only : CompiledGuardianSet → CompiledRecoveryMode
  zk_only : CompiledZkFactor → CompiledRecoveryMode
  combined : CompiledGuardianSet → CompiledZkFactor → CompiledRecoveryMode

pub record CompiledRecoveryConfig : Type 0 where
  pub config_hash : Bytes32
  pub profile : RecoveryProfile
  pub mode : CompiledRecoveryMode
  pub controller : Address
  pub baseline : Option Bytes32
  pub replaceable : List Str
  pub delay_ledgers : ℕ
  pub expiry_ledgers : ℕ
  pub max_cancels : ℕ

abbrev pub mode_guardians : CompiledRecoveryMode → Option CompiledGuardianSet
mode_guardians (guardian_only g) = some g
mode_guardians (zk_only z) = none
mode_guardians (combined g z) = some g

abbrev pub mode_zk : CompiledRecoveryMode → Option CompiledZkFactor
mode_zk (guardian_only g) = none
mode_zk (zk_only z) = some z
mode_zk (combined g z) = some z

-- `CompiledRecoveryConfig::guardians` and `zk`.
abbrev pub guardians : CompiledRecoveryConfig → Option CompiledGuardianSet
guardians c = mode_guardians c.mode

abbrev pub zk : CompiledRecoveryConfig → Option CompiledZkFactor
zk c = mode_zk c.mode

unfoldable pub zk_factor_transition_ok : Option CompiledZkFactor → Option CompiledZkFactor → Bool
zk_factor_transition_ok (some a) (some b) =
    factor_eq a b || not (a.enrollment_id == b.enrollment_id)
zk_factor_transition_ok _ _ = true

unfoldable pub leaf_to_insert :
    Option CompiledZkFactor → Option CompiledZkFactor → Option CompiledZkFactor
leaf_to_insert old none = none
leaf_to_insert none (some new) = some new
leaf_to_insert (some o) (some new) = elim (o.enrollment_id == new.enrollment_id) [
  | true ↦ none
  | false ↦ some new
]

-- Across a permitted transition no leaf is inserted exactly when the new configuration has no
-- factor or the factor is unchanged, and a leaf that is inserted is the new factor's.
pub transition-leaf :
    (a b : Option CompiledZkFactor)
    → zk_factor_transition_ok a b ≡ true
    → ((leaf_to_insert a b ≡ none) ↔ ((b ≡ none) ⊎ (a ≡ b)))
      × ((z : CompiledZkFactor) → leaf_to_insert a b ≡ some z → b ≡ some z)
unfolding zk_factor_transition_ok leaf_to_insert
transition-leaf a none h = (((λ _. inl refl), (λ _. refl)), λ z e. absurd cc)
transition-leaf none (some b) h =
    (((λ e. absurd cc), (λ c. elim c [ inl e ↦ absurd cc | inr e ↦ absurd cc ])), λ z e. e)
transition-leaf (some a) (some b) h = (
  (
    (λ k. let q : a ≡ b = ground arith in inr (ap some q)),
    (λ c. elim c [ inl e ↦ absurd cc | inr e ↦ let q : a ≡ b = cc in ground (arith, q) ]),
  ),
  λ z e. ground (arith, e),
)
