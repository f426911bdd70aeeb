-- ===== src/Interpreter.antt =====
-- crates/perch-interpreter/src/lib.rs: the policy contract that stores a program for each account
-- and rule and authorizes the calls for which it evaluates to `True`.
pub mod Laws
pub mod Reach
mod Tests
use perch.Common.{
  ℕ, Address, Bool, true, false, Option, none, some, List, [], ◌∷◌, ◌==◌, ◌&&◌, if◌then◌else◌,
  length, Result, ok, err, ◌>>=◌, ◌>>◌, guard, ok_or, is_some, not,
}
use perch.Program.Verdict.{Verdict, allows}
use perch.Program.Leaf.{Env, Context}
use perch.Program.Rpn.{InstallParams, validate, eval, program_version, ValidationError}

-- `unauthorized` is the host's own failure of `require_auth`; the others are the contract's.
pub data Error : Type 0 where
  denied not_installed already_installed invalid_program unauthorized : Error

-- The persistent entries `DataKey::Program(account, rule)`.
abbrev pub Programs : Type 0
Programs = Address → ℕ → Option InstallParams

-- Which addresses have authorized the call, as the host decides.
abbrev pub Authority : Type 0
Authority = Address → Bool

-- A signer that OZ passes, which the contract only counts.
abbrev pub Signer : Type 0
Signer = ℕ

abbrev pub require_auth : Authority → Address → Result Error (Unit {0})
require_auth auth account = guard (auth account) unauthorized

abbrev pub at : Programs → Address → ℕ → Option InstallParams → Programs
at programs account rule entry a r = if (account == a) && (rule == r) then entry else programs a r

unfoldable pub get_program : Programs → Address → ℕ → Option InstallParams
get_program programs account rule = programs account rule

abbrev pub is_valid : Result ValidationError (Unit {0}) → Bool
is_valid (ok _) = true
is_valid (err _) = false

unfoldable pub enforce :
    Authority → Env → Programs → Context → List Signer → ℕ → Address → Result Error (Unit {0})
enforce auth env programs context signers rule account = do
  require_auth auth account
  guard (not (length signers == 0)) denied
  params ← ok_or (programs account rule) not_installed
  guard
      (allows (
        eval env params.program
          (record { context = context; signer_count = length signers; self_addr = account })))
      denied

unfoldable pub install : Authority → InstallParams → ℕ → Address → Programs → Result Error Programs
install auth params rule account programs = do
  require_auth auth account
  guard (not (is_some (programs account rule))) already_installed
  guard (is_valid (validate params.program)) invalid_program
  ok (at programs account rule (some params))

unfoldable pub uninstall : Authority → ℕ → Address → Programs → Result Error Programs
uninstall auth rule account programs = do
  require_auth auth account
  guard (is_some (programs account rule)) not_installed
  ok (at programs account rule none)
