-- ===== src/Value/Int.antt =====
-- value/int.rs: `Int128` and `UInt128`, and the readers of `Value` for them and for strings.
use ledger_stacks.Base.{ℕ, ◌-◌, ◌^◌, [], ◌∷◌, ltb, Bool, true, false, not, Option, if◌then◌else◌}
use ledger_stacks.Error.{
  Result, ok, err, to_option, ◌>>=◌, parser_unexpected_type, parser_unexpected_buffer_end,
}
use ledger_stacks.Crates.{Crates, Bytes, IResult}
use ledger_stacks.Device.{Signed, non_negative, negative}
use ledger_stacks.Value.Id
use ledger_stacks.Value.Id.{ValueId}
use ledger_stacks.Value.Parse.{
  Value, value_id, payload, new_string_ascii, new_string_utf8, string_from_bytes,
  string_from_bytes_ascii, is_string_ascii, is_string_utf8,
}

-- 128 bits as a signed number, in two's complement.
unfoldable pub to_signed : ℕ → Signed
to_signed n = if ltb n (2 ^ 127) then non_negative n else negative (2 ^ 128 - n)

abbrev pub is_int : ValueId → Bool
is_int ValueId.int = true
is_int _ = false

abbrev pub is_uint : ValueId → Bool
is_uint ValueId.uint = true
is_uint _ = false

module _ ⦃crates : Crates⦄ where
  -- nom's `be_i128` is `be_u128` with the bits read as a signed number.
  abbrev pub be_i128 : Bytes → IResult Signed
  be_i128 bytes = do (rem, n) ← crates.be_u128 bytes; ok (rem, to_signed n)

  -- `Int128::new`
  unfoldable pub new_int : Value → Result Signed
  unfolding to_signed
  new_int v = do
    id ← value_id v
    if not (is_int id)
        then err parser_unexpected_type
        else do bytes ← payload v; (_, n) ← be_i128 bytes; ok n

  unfoldable pub int : Value → Result (Option Signed)
  int v = to_option (new_int v)

  -- `Int128::from_bytes` and `UInt128::from_bytes`
  unfoldable pub int_from_bytes : Bytes → IResult Signed
  unfolding to_signed
  int_from_bytes [] = err parser_unexpected_buffer_end
  int_from_bytes (b ∷ bs) = do
    id ← Id.try_from b
    if not (is_int id) then err parser_unexpected_type else be_i128 bs

  unfoldable pub uint_from_bytes : Bytes → IResult ℕ
  uint_from_bytes [] = err parser_unexpected_buffer_end
  uint_from_bytes (b ∷ bs) = do
    id ← Id.try_from b
    if not (is_uint id) then err parser_unexpected_type else crates.be_u128 bs

  unfoldable pub string_ascii : Value → Result (Option Bytes)
  string_ascii v = to_option (new_string_ascii v)

  unfoldable pub string_utf8 : Value → Result (Option Bytes)
  string_utf8 v = to_option (new_string_utf8 v)

  -- `StringAscii::from_bytes` and `StringUtf8::from_bytes`
  unfoldable pub ascii_from_bytes : Bytes → IResult Bytes
  ascii_from_bytes bytes = do
    (rem, id) ← Id.from_bytes bytes
    if not (is_string_ascii id) then err parser_unexpected_type else string_from_bytes_ascii rem

  unfoldable pub utf8_from_bytes : Bytes → IResult Bytes
  utf8_from_bytes bytes = do
    (rem, id) ← Id.from_bytes bytes
    if not (is_string_utf8 id) then err parser_unexpected_type else string_from_bytes rem
