-- ===== src/Message.antt =====
-- app/rust/src/parser/message.rs: a text message to sign, and the length before it (utils.rs).
pub mod Varint
pub mod Shown
use ledger_stacks.Base.{
  ℕ, ◌+◌, [], ◌∷◌, ◌++◌, length, take, drop, replicate, ltb, leb, ◌==◌, ◌&&◌, not, Bool, bytes_eq,
  if◌then◌else◌, ◌%◌, ◌^◌,
}
use ledger_stacks.Error.{
  Result, ok, err, ◌>>=◌, map_err, parser_unexpected_buffer_end, parser_invalid_bytestr_message,
  parser_display_idx_out_of_range,
}
use ledger_stacks.Slice.{is_ascii, slice_from, slice_to}
use ledger_stacks.Crates.{Crates, Bytes}
use ledger_stacks.Format.{page_string}
use ledger_stacks.Format.Writer.{new_writer, write_str}
use ledger_stacks.Error.{ok_or}
use ledger_stacks.Message.Varint.{read_varint}

pub record ByteString : Type 0 where
  pub bytes : Bytes

-- "\x17Stacks Signed Message:\n"
abbrev pub header : Bytes
header =
    0x17 ∷ b'S' ∷ b't' ∷ b'a' ∷ b'c' ∷ b'k' ∷ b's' ∷ 0x20 ∷ b'S' ∷ b'i' ∷ b'g' ∷ b'n' ∷ b'e' ∷ b'd'
    ∷ 0x20 ∷ b'M' ∷ b'e' ∷ b's' ∷ b's' ∷ b'a' ∷ b'g' ∷ b'e' ∷ b':' ∷ 0x0a ∷ []

abbrev pub byte_string_header_len : ℕ
byte_string_header_len = length header

abbrev pub max_ascii_len : ℕ
max_ascii_len = 270

unfoldable pub contain_header : Bytes → Bool
contain_header bs =
    ltb byte_string_header_len (length bs) && bytes_eq (take byte_string_header_len bs) header

-- A character of [\b..=\r] becomes a space.
unfoldable pub clean : ℕ → ℕ
clean c = if leb 0x08 c && leb c 0x0d then 0x20 else c

abbrev pub clean_all : Bytes → Bytes
clean_all [] = []
clean_all (c ∷ cs) = clean c ∷ clean_all cs

-- The first bytes of the buffer are replaced by those of the message.
abbrev pub overwrite : Bytes → Bytes → Bytes
overwrite bs buf = bs ++ drop (length bs) buf

-- `msg` before the message is copied: zeros, with the dots of a message that is cut.
abbrev pub template : Bytes → Bytes
template bs =
    if ltb max_ascii_len (length bs)
    then replicate max_ascii_len 0 ++ replicate 3 b'.'
    else replicate (max_ascii_len + 3) 0

abbrev pub copy_len : Bytes → ℕ
copy_len bs = if ltb max_ascii_len (length bs) then max_ascii_len else length bs

-- `&msg[..copy_len]`
unfoldable pub shown_text : Bytes → Result Bytes
shown_text bs =
    let msg = overwrite (take (copy_len bs) (clean_all bs)) (template bs) in
    slice_to (if leb max_ascii_len (copy_len bs) then copy_len bs + 3 else copy_len bs) msg

abbrev pub num_items : ByteString → ℕ
num_items m = 1

-- Key, value and number of pages.
unfoldable pub get_item : ByteString → ℕ → Bytes → Bytes → ℕ → Result (Bytes × (Bytes × ℕ))
get_item m display_idx out_key out_value page_idx =
    if not (display_idx == 0) then err parser_display_idx_out_of_range else do
      text ← shown_text m.bytes
      written ←
          write_str (new_writer out_key)
            (b'S' ∷ b'i' ∷ b'g' ∷ b'n' ∷ 0x20 ∷ b'M' ∷ b'e' ∷ b's' ∷ b's' ∷ b'a' ∷ b'g' ∷ b'e' ∷ [])
      w ← ok_or parser_unexpected_buffer_end written
      (value, pages) ← page_string out_value text page_idx
      ok (w.buf, (value, pages))

module _ ⦃crates : Crates⦄ where
  unfoldable pub get_msg : Bytes → Result Bytes
  get_msg [] = err parser_unexpected_buffer_end
  get_msg (b ∷ bs) = do
    (rem, len) ← map_err parser_invalid_bytestr_message (read_varint (b ∷ bs))
    (_, message_content) ← map_err parser_invalid_bytestr_message (crates.take (len % 2 ^ 32) rem)
    if not (is_ascii message_content)
        then err parser_invalid_bytestr_message
        else ok message_content

  unfoldable pub from_bytes : Bytes → Result ByteString
  from_bytes bs = if not (contain_header bs) then err parser_invalid_bytestr_message else do
    rest ← slice_from byte_string_header_len bs
    message ← get_msg rest
    ok (record { bytes = message })

  -- `Message::read`: the message after the call.
  unfoldable pub read : ByteString → Bytes → Result ByteString
  read m bs = do message ← from_bytes bs; ok (record m { bytes = message.bytes })
