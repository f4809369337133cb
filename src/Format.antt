-- ===== src/Format.antt =====
-- app/rust/src/zxformat.rs: the writer of a key, and the pages of a value.
pub mod Writer
pub mod Decimal
pub mod Utf8
pub mod FixedPoint
pub mod Item
pub mod Pages
use ledger_stacks.Base.{
  ℕ, ◌+◌, ◌-◌, ◌*◌, ◌/◌, ◌%◌, ◌^◌, ◌++◌, length, take, drop, replicate, ltb, ◌==◌, ◌&&◌, ◌||◌,
  Option, none, some, if◌then◌else◌,
}
use ledger_stacks.Error.{Result, ok, err, panic, ◌>>=◌, parser_no_data}
use ledger_stacks.Slice.{slice, slice_from, slice_to}
use ledger_stacks.Crates.{Bytes}

-- The number of pages, in a byte.
abbrev pub page_count_of : ℕ → ℕ → ℕ
page_count_of in_len out_len =
    if ltb 0 (in_len % out_len)
    then (in_len / out_len % 2 ^ 8 + 1) % 2 ^ 8
    else in_len / out_len % 2 ^ 8

-- Where the page ends: the last page may be shorter.
abbrev pub page_end : ℕ → ℕ → ℕ → ℕ
page_end in_len out_len page_idx =
    if ltb 0 (in_len % out_len) && page_idx == (page_count_of in_len out_len + 2 ^ 8 - 1) % 2 ^ 8
    then page_idx * out_len + in_len % out_len
    else page_idx * out_len + out_len

-- `pageString`: the buffer after the call, and the number of pages. The buffer's last byte is left
-- as the end of a C string.
unfoldable pub page_string : Bytes → Bytes → ℕ → Result (Bytes × ℕ)
page_string out_value in_value page_idx =
    let out_len = length out_value - 1 in
    let in_len = length in_value in
    let output : Bytes = replicate out_len 0 in
    if length out_value == 0
    then panic
    else if out_len == 0 || in_len == 0
    then err parser_no_data
    else if ltb page_idx (page_count_of in_len out_len)
    then (do
      chunk ← slice (page_idx * out_len) (page_end in_len out_len page_idx) in_value
      _ ← slice_to (length chunk) output
      ok (chunk ++ replicate (length out_value - length chunk) 0, page_count_of in_len out_len))
    else ok (replicate (length out_value) 0, page_count_of in_len out_len)
