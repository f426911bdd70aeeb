-- ===== src/Recovery/CredentialTests.antt =====
-- Credentials, factors and statements at concrete inputs.
use perch.Common.{
  Address, Bytes, Bytes32, true, false, none, some, [], ◌∷◌, ◌++◌, ◌≡◌, ◌↔◌, ◌⊎◌, refl, arith, ok,
  contains,
}
use perch.Encode.{contract_id, address_payload}
use perch.Recovery.Config.{
  CompiledZkFactor, zk_factor_transition_ok, leaf_to_insert, transition-leaf,
}
use perch.Recovery.Statement.{RecoveryStatement, cancel_of, encode, encode_body}
use perch.Encode.Fields.{Fits}
use perch.Recovery.Statement.Injective.{FitsStatement, encode-injective}
use perch.Recovery.Credential.{replaced_credentials_leave, revocations}
use perch.Recovery.Credential.Revocations.{contains-revocations, revocations-leave}
use perch.Recovery.Conditions as Conditions
use perch.Recovery.Statement.{statement_domain}
use perch.Recovery.Tests.{xdr, world, account, config}

-- One credential is replaced, another one leaves with it.
contains-revocations_example :
    contains (revocations (1 ∷ []) (1 ∷ 2 ∷ 3 ∷ []) (3 ∷ 4 ∷ [])) 2 ≡ true
contains-revocations_example = contains-revocations (1 ∷ []) (1 ∷ 2 ∷ 3 ∷ []) (3 ∷ 4 ∷ []) 2

leave_run : replaced_credentials_leave (1 ∷ []) (3 ∷ 4 ∷ []) ≡ true
unfolding replaced_credentials_leave
leave_run = refl

revocations-leave_example : contains (3 ∷ 4 ∷ []) 2 ≡ false
revocations-leave_example =
    revocations-leave (1 ∷ []) (1 ∷ 2 ∷ 3 ∷ []) (3 ∷ 4 ∷ []) 2 leave_run
      contains-revocations_example

-- A factor and itself.
abbrev pub factor : CompiledZkFactor
factor = record { adapter = 60; circuit_id = 61; pool = 62; enrollment_id = 63; commitment = 64 }

-- The factor that replaces it.
abbrev next_factor : CompiledZkFactor
next_factor = record factor { enrollment_id = 65; commitment = 66 }

transition_run : zk_factor_transition_ok (some factor) (some next_factor) ≡ true
unfolding zk_factor_transition_ok
transition_run = refl

transition-leaf_example :
    ((leaf_to_insert (some factor) (some next_factor) ≡ none)
      ↔ ((some next_factor ≡ none) ⊎ (some factor ≡ some next_factor)))
    × ((z : CompiledZkFactor)
        → leaf_to_insert (some factor) (some next_factor) ≡ some z
        → some next_factor ≡ some z)
transition-leaf_example = transition-leaf (some factor) (some next_factor) transition_run

-- One contract for every address.
abbrev one_xdr : Address → Bytes
one_xdr a = xdr 7

one_xdr-Fits : (a : Address) (id : Bytes32) → contract_id (one_xdr a) ≡ some id → Fits 32 id
unfolding contract_id address_payload
one_xdr-Fits a id h = let e : 7 ≡ id = cc in omega (arith, e)

abbrev cancellation : RecoveryStatement
cancellation =
    Conditions.statement (world 100) account config 1 150
      (cancel_of (record { attempt_id = 0; attempt_statement = 5 }))

cancellation-Fits : FitsStatement cancellation
unfolding Conditions.statement
cancellation-Fits = (
  omega arith,
  omega arith,
  omega arith,
  omega arith,
  omega arith,
  omega arith,
  (omega arith, omega arith),
)

cancellation_run :
    encode one_xdr cancellation ≡ ok (statement_domain ++ encode_body 7 7 cancellation)
unfolding encode contract_id address_payload Conditions.statement
cancellation_run = refl

encode-injective_example :
    (contract_id (one_xdr account) ≡ contract_id (one_xdr account))
    × (contract_id (one_xdr 50) ≡ contract_id (one_xdr 50))
    × (cancellation.network_id ≡ cancellation.network_id)
    × (cancellation.config ≡ cancellation.config)
    × (cancellation.timing ≡ cancellation.timing)
    × (cancellation.subject ≡ cancellation.subject)
unfolding Conditions.statement
encode-injective_example =
    encode-injective one_xdr cancellation cancellation
      (statement_domain ++ encode_body 7 7 cancellation) one_xdr-Fits cancellation-Fits
      cancellation-Fits cancellation_run cancellation_run
