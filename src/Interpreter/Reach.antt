-- ===== src/Interpreter/Reach.antt =====
-- The interpreter under any sequence of calls, by any accounts, with any authorizations.
use perch.Common.{ℕ, Address, false, none, some, List, ◌≡◌, inl, inr, arith, ok, length}
use perch.Program.Verdict.{true_v}
use perch.Program.Leaf.{Env, Context}
use perch.Program.Rpn.{InstallParams, validate}
use perch.Program.Rpn.Tree.{Tree, denote}
use perch.Program.Rpn.Ops.{leaves}
use perch.Program.Rpn.Meaning.{Denotes, validate-Denotes}
use perch.Interpreter.{Programs, Authority, Signer, enforce, install, uninstall}
use perch.Interpreter.Laws.{OnlyAt, install-ok, uninstall-ok, enforce_iff}

abbrev pub no_programs : Programs
no_programs account rule = none

-- A call that succeeds; one that fails is rolled back.
pub data Call (auth : Authority) (before : Programs) : Programs → Type 0 where
  installs :
      {after : Programs} (params : InstallParams) (rule : ℕ) (account : Address)
      → install auth params rule account before ≡ ok after
      → Call auth before after
  uninstalls :
      {after : Programs} (rule : ℕ) (account : Address)
      → uninstall auth rule account before ≡ ok after
      → Call auth before after

pub data Reachable : Programs → Type 0 where
  deployed : Reachable no_programs
  then_call :
      {auth : Authority} {before after : Programs}
      → Reachable before
      → Call auth before after
      → Reachable after

-- Every stored program validates.
abbrev pub AllValid : Programs → Type 0
AllValid programs =
    (account : Address) (rule : ℕ) (params : InstallParams)
    → programs account rule ≡ some params
    → validate params.program ≡ ok tt

OnlyAt-AllValid :
    (account : Address) (rule : ℕ) (before after : Programs)
    → OnlyAt account rule before after
    → ((params : InstallParams)
        → after account rule ≡ some params
        → validate params.program ≡ ok tt)
    → AllValid before
    → AllValid after
OnlyAt-AllValid account rule before after o here v a r params e = elim (o a r) [
  | inl (p, q) ↦ here params (ground (arith, p, q, e))
  | inr p ↦ v a r params (ground (arith, p, e))
]

Call-AllValid :
    {auth : Authority} {before after : Programs}
    → Call auth before after
    → AllValid before
    → AllValid after
Call-AllValid {auth} {before} {after} (installs params rule account h) v =
    let (_, _, valid, stored, o) = install-ok auth params rule account before after h in
    OnlyAt-AllValid account rule before after o (λ p e. ground (arith, stored, e, valid)) v
Call-AllValid {auth} {before} {after} (uninstalls rule account h) v =
    let (_, _, gone, o) = uninstall-ok auth rule account before after h in
    OnlyAt-AllValid account rule before after o (λ p e. ground (arith, gone, e)) v

pub Reachable-AllValid : {programs : Programs} → Reachable programs → AllValid programs
Reachable-AllValid deployed = λ account rule params e. cc
Reachable-AllValid (then_call r c) = Call-AllValid c (Reachable-AllValid r)

-- In every state that a deployed interpreter reaches, by whatever calls, a context that `enforce`
-- lets pass satisfies the expression that the installed program spells: the expression's
-- three-valued meaning at this context, with the count of authenticated signers, is `True`.
pub enforce_sound :
    (auth : Authority) (env : Env) (programs : Programs) (context : Context) (signers : List Signer)
    (rule : ℕ) (account : Address)
    → Reachable programs
    → enforce auth env programs context signers rule account ≡ ok tt
    → (params : InstallParams) × (t : Tree) × (programs account rule ≡ some params)
      × Denotes params.program t
      × (denote
            (leaves env
              (record { context = context; signer_count = length signers; self_addr = account }))
            t
          ≡ true_v)
enforce_sound auth env programs context signers rule account r h =
    let (_, _, (params, e, q)) = (enforce_iff auth env programs context signers rule account).0 h in
    let (t, d) = validate-Denotes params.program (Reachable-AllValid r account rule params e) in
    (
      params,
      t,
      e,
      d,
      ground (
        arith,
        q,
        d.2 env (record { context = context; signer_count = length signers; self_addr = account }),
      ),
    )

-- A call that an account did not authorize changes none of the account's programs, whichever
-- entry point it is and whatever account and rule it names.
pub Call-isolated :
    (auth : Authority) (before after : Programs) (account : Address) (rule : ℕ)
    → Call auth before after
    → auth account ≡ false
    → after account rule ≡ before account rule
Call-isolated auth before after account rule (installs params r a h) unauth =
    let (y, _, _, _, o) = install-ok auth params r a before after h in
    elim (o account rule) [ inl (p, q) ↦ ground (arith, p, y, unauth) | inr e ↦ e ]
Call-isolated auth before after account rule (uninstalls r a h) unauth =
    let (y, _, _, o) = uninstall-ok auth r a before after h in
    elim (o account rule) [ inl (p, q) ↦ ground (arith, p, y, unauth) | inr e ↦ e ]
