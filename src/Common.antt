-- ===== src/Common.antt =====
-- The names that the components share: the libraries', passed on, and those of three children.
-- An address, a 32-byte hash and a host value are numbers: the code only compares them.
mod Tests
mod Lists
mod Results
pub mod Int
pub use Tests.*
pub use Lists.*
pub use Results.*
pub use Prim.Native.Nat.{ℕ, zero, suc, ◌+◌, ◌-◌, ◌*◌, ◌/◌, ◌%◌, ◌^◌, ◌≤◌, ◌<◌, min}
pub use mathlib.Core.Path.{◌≡◌, refl, sym, ap, ◌∙◌}
pub use mathlib.Core.Logic.{◌≢◌, ◌↔◌, ◌⊎◌, inl, inr}
pub use mathlib.Core.Bool.{Bool, true, false, not, ◌&&◌, ◌||◌}
pub use mathlib.Core.Option.{Option, none, some}
pub use mathlib.Core.List.{List, [], ◌∷◌, ◌++◌, map}
pub use native.Mathlib.Omega.{arith}

-- `Address`: a G-account or a contract.
abbrev pub Address : Type 0
Address = ℕ

-- `BytesN<32>`: a hash, an identifier or a field element.
abbrev pub Bytes32 : Type 0
Bytes32 = ℕ

-- `Bytes`, `String` and `Symbol` are their bytes.
abbrev pub Bytes : Type 0
Bytes = List ℕ

abbrev pub Str : Type 0
Str = List ℕ

abbrev pub Symbol : Type 0
Symbol = List ℕ

-- `Val`: a host value, which the host's conversions read.
abbrev pub Val : Type 0
Val = ℕ

abbrev pub u32_max : ℕ
u32_max = 0xffff_ffff

abbrev pub u64_max : ℕ
u64_max = 0xffff_ffff_ffff_ffff
