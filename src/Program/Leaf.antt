-- ===== src/Program/Leaf.antt =====
-- crates/perch-program/src/leaf.rs: the leaf predicates, with the inputs that they inspect.
pub mod Strings
use perch.Common.{
  ℕ, Address, Bytes, Str, Symbol, Val, Bool, true, false, ◌&&◌, Option, none, some, List, [], ◌∷◌,
  leb, ltb, ◌==◌, if◌then◌else◌, length, get_elem?, take, list_eq,
}
use perch.Common.Int.{ℤ, int_eq}
use perch.Program.Verdict.{Verdict, false_v, true_v, unknown, from_bool}

-- `soroban_sdk::auth::ContractContext`.
pub record ContractContext : Type 0 where
  pub contract : Address
  pub fn_name : Symbol
  pub args : List Val

-- `soroban_sdk::auth::Context`.
pub data Context : Type 0 where
  contract : ContractContext → Context
  create_contract_host_fn create_contract_with_ctor_host_fn : Context

-- The host's conversions of a value (`TryFromVal`), which are not the program's own.
pub record Host : Type 0 where
  pub as_address : Val → Option Address
  pub as_symbol : Val → Option Symbol
  pub as_u32 : Val → Option ℕ
  pub as_i128 : Val → Option ℤ
  pub as_bytes : Val → Option Bytes
  pub as_string : Val → Option Str

-- What an evaluation reads of the environment.
pub record Env : Type 0 where
  pub host : Host
  pub sequence : ℕ

-- `EvalInputs`.
pub record EvalInputs : Type 0 where
  pub context : Context
  pub signer_count : ℕ
  pub self_addr : Address

abbrev pub max_str_arg_len : ℕ
max_str_arg_len = 256

-- `arg::<T>`: the argument at an index, converted.
unfoldable pub arg {ℓ} : {A : Type ℓ} → (Val → Option A) → Context → ℕ → Option A
arg decode (contract c) i = elim (get_elem? c.args i) [ none ↦ none | some v ↦ decode v ]
arg decode _ i = none

-- `Some(a) => Verdict::from(test(a)), None => Verdict::Unknown`.
abbrev pub decide_arg {ℓ} : {A : Type ℓ} → Option A → (A → Bool) → Verdict
decide_arg (some a) test = from_bool (test a)
decide_arg none test = unknown

unfoldable pub min_signers : EvalInputs → ℕ → Verdict
min_signers inputs n = from_bool (leb n inputs.signer_count)

-- `fns.iter().any(|f| f == c.fn_name)`.
unfoldable pub any_symbol : List Symbol → Symbol → Bool
any_symbol [] name = false
any_symbol (f ∷ fns) name = if list_eq f name then true else any_symbol fns name

unfoldable pub fn_in : EvalInputs → List Symbol → Verdict
fn_in inputs fns = elim inputs.context [
  | contract c ↦ from_bool (any_symbol fns c.fn_name)
  | _ ↦ unknown
]

unfoldable pub arg_addr_eq : Env → EvalInputs → ℕ → Address → Verdict
arg_addr_eq env inputs i want =
    decide_arg (arg env.host.as_address inputs.context i) (λ a. a == want)

unfoldable pub arg_addr_is_self : Env → EvalInputs → ℕ → Verdict
arg_addr_is_self env inputs i =
    decide_arg (arg env.host.as_address inputs.context i) (λ a. a == inputs.self_addr)

unfoldable pub arg_sym_eq : Env → EvalInputs → ℕ → Symbol → Verdict
arg_sym_eq env inputs i want =
    decide_arg (arg env.host.as_symbol inputs.context i) (λ s. list_eq s want)

unfoldable pub arg_u32_eq : Env → EvalInputs → ℕ → ℕ → Verdict
arg_u32_eq env inputs i want = decide_arg (arg env.host.as_u32 inputs.context i) (λ n. n == want)

unfoldable pub arg_i128_eq : Env → EvalInputs → ℕ → ℤ → Verdict
arg_i128_eq env inputs i want =
    decide_arg (arg env.host.as_i128 inputs.context i) (λ n. int_eq n want)

unfoldable pub arg_bytes_eq : Env → EvalInputs → ℕ → Bytes → Verdict
arg_bytes_eq env inputs i want =
    decide_arg (arg env.host.as_bytes inputs.context i) (λ b. list_eq b want)

-- The filled part of the buffer, or `none` for a string over the limit.
unfoldable pub str_bytes : Str → Option Bytes
str_bytes s = if ltb max_str_arg_len (length s) then none else some s

-- The first `n` bytes, or `none` for a shorter string.
unfoldable pub str_head : Str → ℕ → Option Bytes
str_head s n = if ltb (length s) n then none else some (take n s)

-- Equality of the filled parts of two buffers.
unfoldable pub buf_eq : Bytes → Bytes → Bool
buf_eq a b = (length a == length b) && list_eq a b

-- The loop over the candidates: an over-long one never matches.
unfoldable pub any_str : List Str → Bytes → Bool
any_str [] s = false
any_str (want ∷ set) s =
    let rest = any_str set s in
    elim (str_bytes want) [ some cand ↦ if buf_eq cand s then true else rest | none ↦ rest ]

unfoldable pub arg_str_in : Env → EvalInputs → ℕ → List Str → Verdict
arg_str_in env inputs i set = elim (arg env.host.as_string inputs.context i) [
  | none ↦ unknown
  | some s ↦ elim (str_bytes s) [
    | none ↦ unknown
    | some sbuf ↦ if any_str set sbuf then true_v else false_v
  ]
]

unfoldable pub arg_str_prefix : Env → EvalInputs → ℕ → Str → Verdict
arg_str_prefix env inputs i prefix = elim (arg env.host.as_string inputs.context i) [
  | none ↦ unknown
  | some s ↦ elim (str_bytes prefix) [
    | none ↦ unknown
    | some pbuf ↦ elim (str_head s (length pbuf)) [
      | none ↦ false_v
      | some sbuf ↦ from_bool (list_eq sbuf pbuf)
    ]
  ]
]

unfoldable pub arg_count : EvalInputs → ℕ → Verdict
arg_count inputs n = elim inputs.context [
  | contract c ↦ from_bool (length c.args == n)
  | _ ↦ unknown
]

unfoldable pub ledger_before : Env → ℕ → Verdict
ledger_before env n = from_bool (ltb env.sequence n)

unfoldable pub ledger_at_or_after : Env → ℕ → Verdict
ledger_at_or_after env n = from_bool (leb n env.sequence)
