-- ===== src/Compile/Attenuation.antt =====
-- crates/perch-compile/src/attenuation.rs: whether a plan only narrows another one.
pub mod Narrows
use perch.Common.{
  ℕ, Bytes32, Str, Symbol, Bool, true, false, ◌&&◌, List, [], ◌∷◌, list_eq, if◌then◌else◌, Result,
  ok, err, ◌>>=◌, ◌>>◌,
}
use perch.Document.{PolicyDoc}
use perch.Compile.{
  Sdk, ScopeSpec, contract_spec, self_admin, Plan, LowerError, compile, doc_hash_onchain,
}
use perch.Compile.Analysis.{FnSet, any_fn, only, ReachableScope, has_symbol, reachable_calls}

pub data AttenuationError : Type 0 where
  not_a_narrowing : Str → AttenuationError
  compile_error : LowerError → AttenuationError

pub record Attenuation : Type 0 where
  pub parent_hash : Bytes32
  pub child_hash : Bytes32

-- The derived equality of scopes.
abbrev pub scope_eq : ScopeSpec → ScopeSpec → Bool
scope_eq (contract_spec a) (contract_spec b) = list_eq a b
scope_eq self_admin self_admin = true
scope_eq _ _ = false

-- `c.iter().all(|f| p.contains(f))`.
unfoldable pub contains_all : List Symbol → List Symbol → Bool
contains_all p [] = true
contains_all p (f ∷ fs) = has_symbol p f && contains_all p fs

unfoldable pub fn_covers : FnSet → FnSet → Bool
fn_covers any_fn child = true
fn_covers (only p) any_fn = false
fn_covers (only p) (only c) = contains_all p c

unfoldable pub is_covered : List ReachableScope → ReachableScope → Bool
is_covered [] cs = false
is_covered (ps ∷ parent) cs =
    if scope_eq ps.scope cs.scope && fn_covers ps.functions cs.functions
    then true
    else is_covered parent cs

unfoldable pub check_reach :
    List ReachableScope → List ReachableScope → Result AttenuationError (Unit {0})
check_reach parent [] = ok tt
check_reach parent (cs ∷ child) =
    if is_covered parent cs then check_reach parent child else err (not_a_narrowing cs.rule)

unfoldable pub is_narrowing : Plan → Plan → Result AttenuationError (Unit {0})
is_narrowing parent child = check_reach (reachable_calls parent) (reachable_calls child)

abbrev pub compiled {ℓ} : {A : Type ℓ} → Result LowerError A → Result AttenuationError A
compiled (ok a) = ok a
compiled (err e) = err (compile_error e)

unfoldable pub attenuate :
    Sdk → PolicyDoc → PolicyDoc → Bytes32 → Result AttenuationError Attenuation
attenuate sdk parent child wasm_hash = do
  parent_plan ← compiled (compile sdk parent wasm_hash)
  child_plan ← compiled (compile sdk child wasm_hash)
  is_narrowing parent_plan child_plan
  ok (record { parent_hash = doc_hash_onchain sdk parent; child_hash = doc_hash_onchain sdk child })
