-- ===== src/Document/Strkey.antt =====
-- crates/perch-ir/src/validate.rs: the shapes of addresses and names.
use Prim.Native.Nat.{bit_xor, bit_and}
use perch.Common.{
  ℕ, zero, suc, ◌+◌, ◌-◌, ◌*◌, ◌/◌, ◌%◌, ◌^◌, Bytes, Str, Bool, true, false, ◌&&◌, ◌||◌, not,
  Option, none, some, List, [], ◌∷◌, ◌++◌, leb, ltb, ◌==◌, if◌then◌else◌, length, contains, get_or,
  take,
}
use perch.Document.Text.{codes, str_lt, is_digit}

-- The bytes satisfy the test.
abbrev pub all_bytes : (ℕ → Bool) → Str → Bool
all_bytes test [] = true
all_bytes test (c ∷ cs) = test c && all_bytes test cs

abbrev pub is_upper : ℕ → Bool
is_upper c = leb b'A' c && leb c b'Z'

abbrev pub is_lower : ℕ → Bool
is_lower c = leb b'a' c && leb c b'z'

abbrev pub is_base32 : ℕ → Bool
is_base32 c = is_upper c || (leb b'2' c && leb c b'7')

-- The variables of the decoding loop, with the decoded bytes in order.
pub record Decoding : Type 0 where
  pub buf : ℕ
  pub bits : ℕ
  pub data_bytes : Bytes

abbrev pub base32_value : ℕ → Option ℕ
base32_value c =
    if is_upper c
    then some (c - b'A')
    else if leb b'2' c && leb c b'7'
    then some (c - b'2' + 26)
    else none

-- One round: `buf` is a `u32`, whose shift drops the bits that leave it.
unfoldable pub decode_step : Decoding → ℕ → Option Decoding
decode_step d v =
    let buf = (d.buf * 32 + v) % 2 ^ 32 in
    let bits = d.bits + 5 in
    if ltb bits 8
    then some (record d { buf = buf; bits = bits })
    else if leb 35 (length d.data_bytes)
    then none
    else some (record {
      buf = buf;
      bits = bits - 8;
      data_bytes = d.data_bytes ++ (buf / 2 ^ (bits - 8) % 256) ∷ [];
    })

unfoldable pub base32_decode : Str → Decoding → Option Decoding
base32_decode [] d = some d
base32_decode (c ∷ cs) d = elim (base32_value c) [
  | none ↦ none
  | some v ↦ elim (decode_step d v) [ none ↦ none | some d' ↦ base32_decode cs d' ]
]

-- The inner loop over the bits of a byte, of a `u16`.
unfoldable pub crc_bits : ℕ → ℕ → ℕ
crc_bits zero crc = crc
crc_bits (suc n) crc =
    crc_bits n
      (if bit_and crc 0x8000 == 0 then crc * 2 % 2 ^ 16 else bit_xor (crc * 2 % 2 ^ 16) 0x1021)

unfoldable pub crc16 : Bytes → ℕ → ℕ
crc16 [] crc = crc
crc16 (b ∷ bs) crc = crc16 bs (crc_bits 8 (bit_xor crc (b * 256)))

unfoldable pub strkey_checksum_ok : Str → Bool
strkey_checksum_ok s =
    if not (length s == 56)
    then false
    else elim (base32_decode s (record { buf = 0; bits = 0; data_bytes = [] })) [
      | none ↦ false
      | some d ↦
          (length d.data_bytes == 35)
          && (crc16 (take 33 d.data_bytes) 0
              == get_or d.data_bytes 33 0 + get_or d.data_bytes 34 0 * 256)
    ]

unfoldable pub is_strkey_shape : Str → List ℕ → Bool
is_strkey_shape s leads =
    (length s == 56)
    && (contains leads (get_or s 0 0) && (all_bytes is_base32 s && strkey_checksum_ok s))

unfoldable pub is_contract_address_shape : Str → Bool
is_contract_address_shape s = is_strkey_shape s (b'C' ∷ [])

unfoldable pub is_address_shape : Str → Bool
is_address_shape s = is_strkey_shape s (b'C' ∷ b'G' ∷ [])

abbrev pub is_symbol_byte : ℕ → Bool
is_symbol_byte c = is_lower c || (is_upper c || (is_digit c || c == b'_'))

unfoldable pub is_valid_symbol : Str → Bool
is_valid_symbol s = leb 1 (length s) && (leb (length s) 32 && all_bytes is_symbol_byte s)

unfoldable pub is_sha256_hex : Str → Bool
is_sha256_hex s = (length s == 64) && all_bytes (λ b. is_digit b || (leb b'a' b && leb b b'f')) s

-- `BN254_SCALAR_MODULUS_HEX`.
abbrev pub bn254_scalar_modulus_hex : Str
bn254_scalar_modulus_hex = codes "30644e72e131a029b85045b68181585d2833e84879b9709143e1f593f0000001"

-- The commitment's check in `validate_zk_factor`.
unfoldable pub is_canonical_hex : Str → Bool
is_canonical_hex s = is_sha256_hex s && str_lt s bn254_scalar_modulus_hex
