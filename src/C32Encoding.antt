-- ===== src/C32Encoding.antt =====
-- app/rust/src/parser/c32.rs: addresses in base 32, with a checksum.
pub mod Digits
pub mod Steps
pub mod Encode
pub mod Address
use ledger_stacks.Base.{
  ℕ, ◌+◌, ◌-◌, ◌*◌, ◌/◌, ◌%◌, ◌^◌, List, [], ◌∷◌, ◌++◌, length, take, drop, ltb, leb, ◌==◌, not,
  if◌then◌else◌, codes, replicate, Option, none, some,
}
use mathlib.Core.List.{reverse}
use ledger_stacks.Error.{
  Result, ok, err, panic, out_of_fuel, ◌>>=◌, parser_unexpected_buffer_end,
  parser_invalid_address_version,
}
use ledger_stacks.Slice.{index}
use ledger_stacks.Crates.{Bytes}
use ledger_stacks.Common.Limits.{hash160_len, c32_encoded_addrs_length}
use ledger_stacks.Device.{Device, sha256}

abbrev pub c32_characters : Bytes
c32_characters = codes "0123456789ABCDEFGHJKMNPQRSTVWXYZ"

-- An `ArrayVec` while it is filled, the last element first, so that `reverse` is for free.
unfoldable pub try_push : Bytes → ℕ → Result Bytes
try_push result v =
    if ltb (length result) c32_encoded_addrs_length
    then ok (v ∷ result)
    else err parser_unexpected_buffer_end

unfoldable pub push_char : Bytes → ℕ → Result Bytes
unfolding try_push
push_char result c32_value = do v ← index c32_characters c32_value; try_push result v

pub record Encoder : Type 0 where
  pub result : Bytes
  pub carry : ℕ
  pub carry_bits : ℕ

-- One round of the loop over the bytes. The shifts of a byte never lose a bit here.
unfoldable pub encode_byte : Encoder → ℕ → Result Encoder
encode_byte e current_value =
    let low_bits = current_value % 2 ^ (5 - e.carry_bits) in
    let bits = 8 + e.carry_bits - 5 in
    let carry = current_value / 2 ^ (8 - bits) in
    do
      result ← push_char e.result (low_bits * 2 ^ e.carry_bits + e.carry)
      if leb 5 bits
          then (do
            result' ← push_char result (carry % 2 ^ 5)
            ok (record { result = result'; carry = carry / 2 ^ 5; carry_bits = bits - 5 }))
          else ok (record { result = result; carry = carry; carry_bits = bits })

unfoldable pub encode_bytes : Encoder → Bytes → Result Encoder
encode_bytes e [] = ok e
encode_bytes e (b ∷ bs) = do e' ← encode_byte e b; encode_bytes e' bs

-- `while let Some(v) = result.pop()`
unfoldable pub strip_zeros : Bytes → Result Bytes
strip_zeros [] = ok []
strip_zeros (v ∷ result) = if not (v == b'0') then try_push result v else strip_zeros result

unfoldable pub add_zeros : Bytes → Bytes → Result Bytes
add_zeros [] result = ok result
add_zeros (b ∷ bs) result =
    let rest = (do result' ← try_push result b'0'; add_zeros bs result') in
    if b == 0 then rest else ok result

-- On an empty result, as its one caller calls it.
unfoldable pub c32_encode : Bytes → Result Bytes
c32_encode input_bytes = do
  e ← encode_bytes (record { result = []; carry = 0; carry_bits = 0 }) (reverse input_bytes)
  result ← (if ltb 0 e.carry_bits then push_char e.result e.carry else ok e.result)
  stripped ← strip_zeros result
  add_zeros input_bytes stripped

-- `insert(0, v)` panics on a full array.
unfoldable pub insert_front : ℕ → Bytes → Result Bytes
insert_front v text = if ltb (length text) c32_encoded_addrs_length then ok (v ∷ text) else panic

module _ ⦃device : Device⦄ where
  -- The buffer after the call: a hash, with the start of its own hash at place 20.
  unfoldable pub double_sha256_checksum : Bytes → Bytes
  double_sha256_checksum bytes =
      let digest = sha256 (take 21 bytes) in
      take 20 digest ++ (take 4 (sha256 digest) ++ drop 24 digest)

  -- `copy_from_slice` panics when the lengths differ.
  unfoldable pub c32_check_encode : ℕ → Bytes → Result Bytes
  c32_check_encode version hash =
      let check_data = double_sha256_checksum (version ∷ hash ++ replicate 11 0) in
      if leb 32 version
      then err parser_invalid_address_version
      else if not (length hash == hash160_len)
      then panic
      else (do
        text ← c32_encode (take 24 (hash ++ drop 20 check_data))
        version_char ← index c32_characters version
        insert_front version_char text)

  unfoldable pub c32_address : ℕ → Bytes → Result Bytes
  c32_address version hash = do
    c32_string ← c32_check_encode version hash
    insert_front b'S' c32_string

  -- What the C part calls. A pointer that may be null is an option, and `input` has the bytes of a
  -- hash. The output after the call and the length that is returned.
  unfoldable pub rs_c32_address : Option Bytes → ℕ → Option Bytes → Result (Option Bytes × ℕ)
  rs_c32_address (some input) version (some output) = elim (c32_address version input) [
    | ok res ↦
        if ltb (length output) (length res)
        then ok (some output, 0)
        else ok (some (res ++ replicate (length output - length res) 0), length res)
    | err _ ↦ ok (some output, 0)
    | panic ↦ panic
    | out_of_fuel ↦ out_of_fuel
  ]
  rs_c32_address _ version output = ok (output, 0)
