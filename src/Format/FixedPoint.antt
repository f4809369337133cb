-- ===== src/Format/FixedPoint.antt =====
-- zxformat.rs: a number with a decimal point, `fpstr_to_str` and `fpu64_to_str`.
pub mod Exact
use ledger_stacks.Base.{
  List, ℕ, ◌+◌, ◌-◌, ◌*◌, ◌^◌, ◌≤◌, ◌<◌, ◌≡◌, refl, [], ◌∷◌, ◌++◌, length, take, drop, replicate,
  leb, ltb, ◌&&◌, not, ◌==◌, if◌then◌else◌, arith, Bool, Option, get_elem?, none, some,
}
use ledger_stacks.Error.{
  Result, ok, err, ok_or, ◌>>=◌, panic, parser_unexpected_buffer_end, parser_context_invalid_chars,
}
use ledger_stacks.Slice.{slice_to, zeroed}
use ledger_stacks.Crates.{Bytes}
use ledger_stacks.Format.Utf8.{is_utf8, char_count, starts_char}
use ledger_stacks.Format.Writer.{Writer, new_writer, write_str, write_fmt}
use ledger_stacks.Format.Decimal.{u64_to_str}
use ledger_stacks.Device.{Signed, signed_text}

abbrev pub max_str_buff_len : ℕ
max_str_buff_len = 30

-- `{:0>1$}`: zeros in front, up to a width in characters.
abbrev pub pad_zeros : Bytes → ℕ → Bytes
pad_zeros text width = replicate (width - char_count text) b'0'

abbrev pub starts_with_minus : Bytes → Bool
starts_with_minus [] = Bool.false
starts_with_minus (c ∷ cs) = c == b'-'

-- What is written of the value, piece by piece.
abbrev pub pieces : Bytes → ℕ → List Bytes
pieces value decimals =
    if decimals == 0
    then (if length value == 0 then (b'0' ∷ []) ∷ [] else value ∷ [])
    else if leb (length value) decimals
    then (if starts_with_minus value
        then (b'-' ∷ b'0' ∷ b'.' ∷ []) ∷ pad_zeros (drop 1 value) decimals ∷ drop 1 value ∷ []
        else (b'0' ∷ b'.' ∷ []) ∷ pad_zeros value decimals ∷ value ∷ [])
    else take (length value - decimals) value
      ∷ (b'.' ∷ [])
      ∷ drop (length value - decimals) value
      ∷ []

-- The `unwrap`s of the two parts panic where the cut is inside of a character.
abbrev pub cuts_character : Bytes → ℕ → Bool
cuts_character value decimals =
    (not (decimals == 0) && not (leb (length value) decimals))
    && not (starts_char (drop (length value - decimals) value))

unfoldable pub fpstr_to_str : Bytes → Bytes → ℕ → Result (Bytes × ℕ)
fpstr_to_str out value decimals =
    if not (is_utf8 value)
    then err parser_context_invalid_chars
    else if cuts_character value decimals
    then panic
    else (do
      written ← write_fmt (new_writer (zeroed out)) (pieces value decimals)
      w ← ok_or parser_unexpected_buffer_end written
      ok (w.buf, w.offset))

unfoldable pub fpu64_to_str : Bytes → ℕ → ℕ → Result (Bytes × ℕ)
fpu64_to_str out value decimals = do
  (temp, len) ← u64_to_str (replicate max_str_buff_len 0) value
  text ← slice_to len temp
  fpstr_to_str out text decimals

unfoldable pub i64_to_str : Bytes → Signed → Result (Bytes × ℕ)
i64_to_str output number = if ltb (length output) 2 then err parser_unexpected_buffer_end else do
  written ← write_str (new_writer output) (signed_text number)
  w ← ok_or parser_unexpected_buffer_end written
  ok (w.buf, w.offset)

unfoldable pub fpi64_to_str : Bytes → Signed → ℕ → Result (Bytes × ℕ)
fpi64_to_str out value decimals = do
  (temp, len) ← i64_to_str (replicate max_str_buff_len 0) value
  text ← slice_to len temp
  fpstr_to_str out text decimals

-- A number's text in an array of 30 bytes that is cut to its length.
unfoldable pub u64_text : ℕ → Result Bytes
u64_text number = do
  (output, len) ← u64_to_str (replicate max_str_buff_len 0) number
  ok (take len output)

unfoldable pub fpu64_text : ℕ → ℕ → Result Bytes
unfolding fpu64_to_str
fpu64_text number decimals = do
  (output, len) ← fpu64_to_str (replicate max_str_buff_len 0) number decimals
  ok (take len output)
