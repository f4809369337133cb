-- ===== src/Tests/Message.antt =====
-- The theorems on messages and pages at concrete inputs.
use ledger_stacks.Base.{
  ◌≡◌, ◌-◌, ◌*◌, [], ◌∷◌, ◌++◌, arith, length, take, drop, replicate, ltb, if◌then◌else◌,
}
use ledger_stacks.Error.{ok, err, parser_invalid_bytestr_message}
use ledger_stacks.Slice.{is_ascii}
use ledger_stacks.Crates.{Bytes}
use ledger_stacks.Tests.Data.{crates}
use ledger_stacks.Format.{page_string}
use ledger_stacks.Format.Pages.{page_string-page}
use ledger_stacks.Message
use ledger_stacks.Message.{header, shown_text}
use ledger_stacks.Message.Varint
use ledger_stacks.Message.Varint.{read_varint, read_varint-encode}
use ledger_stacks.Message.Shown.{Spaced, message_from_bytes-encode, shown_text_lem}

abbrev text : Bytes
text = b'h' ∷ b'i' ∷ 0x0a ∷ []

abbrev seven : Bytes
seven = replicate 7 5

message_from_bytes-encode_example :
    Message.from_bytes (header ++ (Varint.encode (length text) ++ (text ++ 9 ∷ [])))
    ≡ (if is_ascii text then ok (record { bytes = text }) else err parser_invalid_bytestr_message)
message_from_bytes-encode_example = message_from_bytes-encode text (9 ∷ []) (omega arith)

shown_text_lem_example :
    (shown : Bytes) × (Spaced text shown
      × (shown_text text
          ≡ ok (
              if ltb (length text) 270
              then shown
              else take 270 shown
                ++ (if ltb 270 (length text) then replicate 3 b'.' else replicate 3 0))))
shown_text_lem_example = shown_text_lem text

page_string-page_example :
    page_string (replicate 4 1) seven 2
    ≡ ok (take 3 (drop (2 * 3) seven) ++ replicate (4 - length (take 3 (drop (2 * 3) seven))) 0, 3)
page_string-page_example =
    page_string-page 3 2 (replicate 4 1) seven 2 (omega arith) (omega arith) (omega arith)
      (omega arith) (omega arith) (omega arith)
