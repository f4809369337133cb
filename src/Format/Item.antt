-- ===== src/Format/Item.antt =====
-- What every `get_item` of the parsers does with a line of the display: the key is written, the text
-- is made and one of its pages is put in the value.
use ledger_stacks.Base.{ℕ, ◌≡◌, ◌≤◌, ◌++◌, length, drop}
use ledger_stacks.Error.{Result, ok, ok_or, ◌>>=◌, parser_unexpected_buffer_end}
use ledger_stacks.Crates.{Bytes}
use ledger_stacks.Format.{page_string}
use ledger_stacks.Format.Writer.{new_writer, write_str, write_str-new_writer}

-- The key, the value, and the number of pages.
abbrev pub Shown : Type 0
Shown = Bytes × (Bytes × ℕ)

-- `writer_key.write_str(label)` on a new writer.
unfoldable pub write_key : Bytes → Bytes → Result Bytes
write_key out_key label = do
  written ← write_str (new_writer out_key) label
  w ← ok_or parser_unexpected_buffer_end written
  ok w.buf

unfoldable pub show_value : Bytes → Bytes → Bytes → ℕ → Result Shown
show_value key out_value text page_idx = do
  (value, pages) ← page_string out_value text page_idx
  ok (key, (value, pages))

-- The text is made after the key is written.
unfoldable pub show_item : Bytes → Result Bytes → Bytes → Bytes → ℕ → Result Shown
unfolding write_key show_value
show_item label text out_key out_value page_idx = do
  key ← write_key out_key label
  content ← text
  show_value key out_value content page_idx

-- A label that fits is written to the front of the key.
pub write_key-fits :
    (out_key label : Bytes)
    → length label ≤ length out_key
    → write_key out_key label ≡ ok (label ++ drop (length label) out_key)
unfolding write_key
write_key-fits out_key label h = rw (write_str-new_writer out_key label h)

-- What a line of the display says.
pub record Line : Type 0 where
  pub label : Bytes
  pub text : Result Bytes

abbrev pub show_line : Line → Bytes → Bytes → ℕ → Result Shown
show_line l = show_item l.label l.text
