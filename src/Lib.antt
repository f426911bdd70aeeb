-- ===== src/Lib.antt =====
-- Perch: policies and recovery for Soroban smart accounts.
--
-- A perch account is an OpenZeppelin smart account whose rules come from a policy document. A rule may
-- attach the interpreter, which evaluates a small program on every call that the rule authorizes. An
-- account may also enroll recovery at the controller, which opens, authorizes and completes attempts
-- on evidence of guardians and of a membership proof in the pool.
--
-- Program models crates/perch-program: Program/Verdict the three verdicts (src/lib.rs), Program/Leaf the
-- predicates (src/leaf.rs), Program/Rpn the validator and the stack machine (src/rpn.rs; `eval` as `run`
-- and `step`, one round of the loop). The machine's stack is a function from positions, and the bounds
-- of the array are the code's own guards. Loops over a program recurse on its list of ops; the two pop
-- loops recurse on the count.
--
-- Interpreter models crates/perch-interpreter/src/lib.rs: the stored programs as a map from account and
-- rule. A panic is an error, and the host's failed authorization is one more.
--
-- Encode models crates/perch-recovery-interface/src/encode.rs and the field helpers of src/zk.rs: a
-- 32-byte value is the number that it is big-endian. Hasher models crates/perch-zk-primitives/src/lib.rs
-- over a sponge that is a parameter. Pool models crates/perch-zk-pool (src/contract.rs, src/merkle.rs,
-- src/lib.rs) at any depth; `climb` is the loop of `append` and recurses on the number of levels. The
-- theorems assume that the pinned empty subtree roots are those of the sponge.
--
-- Recovery models the controller, crates/perch-recovery, and crates/perch-recovery-interface: Config
-- (src/config.rs), Statement (src/statement.rs), Credential (src/credential.rs), Types (src/types.rs of
-- the controller and src/controller.rs of the interface), State (src/storage.rs and the state helpers of
-- src/contract.rs), Conditions, Transitions and Entry (the parts of src/contract.rs). World is what an
-- invocation reads of the host, of the account's views, of its compiler and of the adapters: a
-- parameter, which may differ at every call. Entries are those of one account, since no code reads
-- another's. The calls are functions from entries to a result with entries; an error rolls back.
-- Invariant has what every call keeps, History what no call takes back, Completion what a completing call has checked, Reach the steps:
-- any call with any world, and the expiry of temporary entries.
--
-- Adapter models crates/perch-zk-adapter/src/contract.rs and the projection of a statement onto the
-- circuit's inputs (src/zk.rs of the interface). Surroundings is what it reads of the host, of its build,
-- of the vendored verifier and of the pools: a parameter. The controller's World has the adapter's
-- answer as a parameter of its own.
--
-- Document models crates/perch-ir: the types of src/doc.rs, in Document/Canon the canonical form of
-- src/canon.rs, in Document/Strkey the address and name shapes and in Document/Validate the checks of
-- src/validate.rs. A check returns the errors that it pushes, in order; the sets and maps of a loop are
-- lists, and its decoder of hex text is a parameter. Document/Text has what the code uses of the standard
-- library's text: a string is its bytes.
--
-- Compile models crates/perch-compile: the lowering of a document to a plan (src/lib.rs), in
-- Compile/Analysis src/analysis.rs, in Compile/Attenuation src/attenuation.rs, and in Compile/Activation
-- src/activation.rs. Sdk has the host's hash and its constructors of symbols and addresses; a panic is the
-- error `trapped`. Compile/Meaning says what a rule of a document allows in its own terms. The compiled
-- programs are those of Program, and the document's canonical form is Document's.
--
-- Account models crates/perch-smart-account/src/rules.rs: Account the records and the desired rules,
-- Account/Effects the trait of operations as a record, with the meter and the application as its
-- instances, Account/Reconcile `edit`, `run` and the oracle `replace_all`. The smart account library is the
-- record Oz over a state of its own, and a panic is an error that ends the call. Account/Slot and
-- Account/Additions follow a rule's policies through an edit. Account/Library gives the library's laws,
-- Account/Performed, Account/InPlace, Account/Added and Account/Settled follow its rules through the
-- performed operations, and Account/Slots is about the slots of rules. The dry run, which only tests use, is
-- left out, and the meter's counters are not bounded. Account/Entry models the calls of src/lib.rs over
-- the account's storage, with the compiler, the controllers and the pools as functions in Around, which
-- may differ at every call; an error rolls back. `apply` is split into its checks (`checked_doc`), the
-- controllers' calls (`sync`) and the changes (`change_all`). Account/Entry/Upgrades has the calls as steps.
--
-- Numbers are natural. Additions of ledgers have the code's checked bound, and the counters that
-- the build's overflow checks guard end the call at the bound of u64. The counter of cancellations is
-- bounded by its guard, the saturating window of an attempt is written out, and the two sides of a
-- comparison of ledgers are compared as they are.
--
-- Not modelled: events; times to live, except that temporary entries may expire at any time; the renew
-- entry points, which only extend them; the parser of documents, the authorization check and
-- `execute` of the smart account, the signature verifiers and the tools around them, which are other parts of the repository.
pub mod Common
pub mod Program
pub mod Interpreter
pub mod Encode
pub mod Hasher
pub mod Pool
pub mod Recovery
pub mod Adapter
pub mod Document
pub mod Compile
pub mod Account
