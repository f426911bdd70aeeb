-- ===== src/Encode.antt =====
-- crates/perch-recovery-interface/src/encode.rs and the field helpers of src/zk.rs: how addresses
-- and 32-byte values become field elements.
pub mod Fields
use perch.Common.{
  ℕ, zero, suc, ◌+◌, ◌*◌, ◌/◌, ◌%◌, ◌^◌, Bytes, Bytes32, Bool, Option, none, some, [], ◌∷◌, ◌++◌,
  ltb, ◌==◌, if◌then◌else◌, length, take, drop, list_eq,
}

pub data AddressKind : Type 0 where
  account contract : AddressKind

abbrev pub contract_header : Bytes
contract_header = 0 ∷ 0 ∷ 0 ∷ 18 ∷ 0 ∷ 0 ∷ 0 ∷ 1 ∷ []

abbrev pub account_header : Bytes
account_header = 0 ∷ 0 ∷ 0 ∷ 18 ∷ 0 ∷ 0 ∷ 0 ∷ 0 ∷ 0 ∷ 0 ∷ 0 ∷ 0 ∷ []

-- A fixed array of bytes as the number that it is big-endian.
abbrev pub from_be : Bytes → ℕ → ℕ
from_be [] acc = acc
from_be (b ∷ bs) acc = from_be bs (acc * 256 + b)

-- The payload behind the header that the length announces.
abbrev pub payload_after : AddressKind → Bytes → Bytes → Option (AddressKind × Bytes32)
payload_after kind header xdr =
    if list_eq (take (length header) xdr) header
    then some (kind, from_be (drop (length header) xdr) 0)
    else none

-- `xdr` is what the host's `to_xdr` gives for the address.
unfoldable pub address_payload : Bytes → Option (AddressKind × Bytes32)
address_payload xdr =
    if length xdr == 40
    then payload_after contract contract_header xdr
    else if length xdr == 44
    then payload_after account account_header xdr
    else none

unfoldable pub contract_id : Bytes → Option Bytes32
contract_id xdr = elim (address_payload xdr) [
  | none ↦ none
  | some (kind, id) ↦ elim kind [ contract ↦ some id | account ↦ none ]
]

-- `BN254_SCALAR_MODULUS`.
abbrev pub field_modulus : ℕ
field_modulus = 0x30644e72e131a029b85045b68181585d2833e84879b9709143e1f593f0000001

-- `is_canonical_field`: the lexicographic comparison of big-endian bytes is that of the numbers.
unfoldable pub is_canonical : Bytes32 → Bool
is_canonical x = ltb x field_modulus

-- `split_hi_lo`: the upper and the lower sixteen bytes.
unfoldable pub split_hi_lo : Bytes32 → ℕ × ℕ
split_hi_lo x = (x / 2 ^ 128, x % 2 ^ 128)

-- `to_be_bytes` and `to_array`: a number as so many bytes, big-endian.
unfoldable pub to_be : ℕ → ℕ → Bytes
to_be zero x = []
to_be (suc n) x = to_be n (x / 256) ++ (x % 256) ∷ []

-- `tagged_address`: the kind's code and the payload.
unfoldable pub tagged_address : Bytes → Option Bytes
tagged_address xdr = elim (address_payload xdr) [
  | none ↦ none
  | some (kind, payload) ↦ some (elim kind [ account ↦ 0 | contract ↦ 1 ] ∷ to_be 32 payload)
]
