-- ===== src/Interpreter/Laws.antt =====
-- What each entry point of the interpreter requires and changes.
use perch.Common.{
  ℕ, Address, true, Option, none, some, List, ◌≡◌, ◌≢◌, ◌↔◌, arith, ◌==◌, ◌<◌, length, ok, ◌⊎◌, inl,
  inr, Option-cases, Bool-cases, ◌&&◌,
}
use perch.Program.Verdict.{true_v, allows}
use perch.Program.Leaf.{Env, Context}
use perch.Program.Rpn.{InstallParams, validate, eval}
use perch.Interpreter.{Programs, Authority, Signer, enforce, install, uninstall, at}

-- `enforce` lets a context pass exactly when the account authorized the call, at least one signer
-- authenticated, a program is installed for the rule, and it evaluates to `True` with the count of
-- the authenticated signers. A missing program, an empty signer set, `False` and `Unknown`
-- all deny.
pub enforce_iff :
    (auth : Authority) (env : Env) (programs : Programs) (context : Context) (signers : List Signer)
    (rule : ℕ) (account : Address)
    → (enforce auth env programs context signers rule account ≡ ok tt) ↔ (
        (auth account ≡ true)
        × (0 < length signers)
        × ((params : InstallParams) × (programs account rule ≡ some params)
            × (eval env params.program
                  (record { context = context; signer_count = length signers; self_addr = account })
                ≡ true_v)))
unfolding enforce allows
enforce_iff auth env programs context signers rule account = (
  elim (Option-cases (programs account rule)) [
    | inl n ↦ λ h. absurd (ground (arith, n))
    | inr (p, e) ↦ λ h. (ground (arith, e), ground (arith, e), (p, e, ground (arith, e)))
  ],
  λ (a, b, (p, e, q)). ground (arith, e, q),
)

-- The entry at an account and a rule is the only one that a call changes.
abbrev pub OnlyAt : Address → ℕ → Programs → Programs → Type 0
OnlyAt account rule before after =
    (a : Address) (r : ℕ) → ((a ≡ account) × (r ≡ rule)) ⊎ (after a r ≡ before a r)

OnlyAt-at :
    (programs : Programs) (account : Address) (rule : ℕ) (entry : Option InstallParams)
    → OnlyAt account rule programs (at programs account rule entry)
OnlyAt-at programs account rule entry a r = elim (Bool-cases ((account == a) && (rule == r))) [
  | inl e ↦ inl (ground arith, ground arith)
  | inr e ↦ inr (rw e)
]

-- A successful `install` was authorized by the account, found no program for the rule, was given a
-- program that validates, stores exactly the given parameters, and changes no other entry.
pub install-ok :
    (auth : Authority) (params : InstallParams) (rule : ℕ) (account : Address)
    (before after : Programs)
    → install auth params rule account before ≡ ok after
    → (auth account ≡ true)
      × (before account rule ≡ none)
      × (validate params.program ≡ ok tt)
      × (after account rule ≡ some params)
      × OnlyAt account rule before after
unfolding install
install-ok auth params rule account before after h =
    let e : after ≡ at before account rule (some params) = ground arith in
    (
      ground arith,
      ground arith,
      ground arith,
      ground (arith, e),
      rw e (OnlyAt-at before account rule (some params)),
    )

-- A successful `uninstall` was authorized by the account, found a program for the rule, leaves
-- none there, and changes no other entry.
pub uninstall-ok :
    (auth : Authority) (rule : ℕ) (account : Address) (before after : Programs)
    → uninstall auth rule account before ≡ ok after
    → (auth account ≡ true)
      × (before account rule ≢ none)
      × (after account rule ≡ none)
      × OnlyAt account rule before after
unfolding uninstall
uninstall-ok auth rule account before after h =
    let e : after ≡ at before account rule none = ground arith in
    (ground arith, ground arith, ground (arith, e), rw e (OnlyAt-at before account rule none))
