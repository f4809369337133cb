-- ===== src/Jwt.antt =====
-- app/rust/src/parser/jwt.rs: a JSON web token, whose hash is signed.
pub mod Parts
use ledger_stacks.Base
use ledger_stacks.Base.{
  ℕ, ◌+◌, ◌*◌, ◌/◌, ◌==◌, ◌&&◌, not, List, [], ◌∷◌, length, ltb, Bool, true, false, bytes_eq,
  if◌then◌else◌, codes, Option, none, some,
}
use ledger_stacks.Error.{
  Result, ok, err, ok_or, to_option, ◌>>=◌, parser_unexpected_buffer_end, parser_unexpected_type,
  parser_invalid_jwt, parser_display_idx_out_of_range, parser_unexpected_error,
}
use ledger_stacks.Slice.{is_ascii}
use ledger_stacks.Crates.{Bytes}
use ledger_stacks.Device.{Device, sha256, sha256_len}
use ledger_stacks.Format.Item.{Shown, write_key, show_value}

pub record Header : Type 0 where
  pub typ : Bytes
  pub alg : Bytes

-- The crates base64 0.13, with the URL-safe alphabet, and serde-json-core 0.4.
pub record TokenCrates : Type 0 where
  pub decode_config_slice : Bytes → Option Bytes
  pub from_slice : Bytes → Option Header

pub record Jwt : Type 0 where
  pub jwt_data : Bytes

pub record JwtHeader : Type 0 where
  pub bytes : Bytes

abbrev pub max_base64_header_len : ℕ
max_base64_header_len = 250

unfoldable pub is_valid : Header → Bool
is_valid h = bytes_eq h.typ (codes "JWT") && bytes_eq h.alg (codes "ES256K")

-- What stands before the first dot, and what stands behind it, if there is a dot.
abbrev pub split_dot : Bytes → Bytes × Option Bytes
split_dot [] = ([], none)
split_dot (b ∷ bs) =
    let rest = split_dot bs in if b == b'.' then ([], some bs) else (b ∷ rest.0, rest.1)

-- The parts between dots: a second dot is refused.
abbrev pub payload_part : Option Bytes → Result Bytes
payload_part none = err parser_invalid_jwt
payload_part (some rest) =
    let parts = split_dot rest in
    elim parts.1 [ none ↦ ok parts.0 | some _ ↦ err parser_invalid_jwt ]

module _ ⦃token : TokenCrates⦄ where
  -- On a buffer of so many bytes.
  unfoldable pub decode_data : Bytes → ℕ → Result Bytes
  decode_data input room =
      if ltb room ((length input + 3) / 4 * 3)
      then err parser_unexpected_buffer_end
      else ok_or parser_unexpected_type (token.decode_config_slice input)

  unfoldable pub header_from_bytes : Bytes → Result JwtHeader
  unfolding is_valid
  header_from_bytes bytes = if not (is_ascii bytes) then err parser_unexpected_type else do
    header_bytes ← decode_data bytes max_base64_header_len
    header ← ok_or parser_invalid_jwt (token.from_slice header_bytes)
    if not (is_valid header) then err parser_invalid_jwt else ok (record { bytes = bytes })

  unfoldable pub parse_header_payload : Bytes → Result (JwtHeader × Bytes)
  parse_header_payload bytes = if not (is_ascii bytes) then err parser_invalid_jwt else do
    let parts = split_dot bytes
    header ← header_from_bytes parts.0
    payload ← payload_part parts.1
    ok (header, payload)

  unfoldable pub from_bytes : Bytes → Result Jwt
  from_bytes bytes = do _ ← parse_header_payload bytes; ok (record { jwt_data = bytes })

  -- The token after the call.
  unfoldable pub read : Jwt → Bytes → Result Jwt
  read j bytes = do _ ← parse_header_payload bytes; ok (record j { jwt_data = bytes })

  unfoldable pub is_jwt : Bytes → Result Bool
  is_jwt bytes = do
    found ← to_option (parse_header_payload bytes)
    elim found [ none ↦ ok false | some _ ↦ ok true ]

abbrev pub num_items : Jwt → ℕ
num_items j = 1

module _ ⦃device : Device⦄ where
  unfoldable pub get_hash : Jwt → Bytes
  get_hash j = sha256 j.jwt_data

  unfoldable pub get_item : Jwt → ℕ → Bytes → Bytes → ℕ → Result Shown
  get_item j display_idx out_key out_value page_idx =
      if ltb 0 display_idx then err parser_display_idx_out_of_range else do
        key ← write_key out_key (codes "JWT hash:")
        hash_str ←
            ok_or parser_unexpected_error (device.encode_to_slice (get_hash j) (2 * sha256_len))
        show_value key out_value hash_str page_idx
