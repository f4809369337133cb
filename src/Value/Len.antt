-- ===== src/Value/Len.antt =====
-- value.rs: `value_len` and the functions below it. `depth` is the counter behind `&mut u8`, and is
-- returned with the length; a `usize` has 32 bits on the device.
pub mod Measure
pub mod Payloads
pub mod Exact
pub mod Total
use ledger_stacks.Base.{
  ℕ, zero, suc, ◌+◌, ◌-◌, ◌%◌, ◌^◌, ◌&&◌, Bool, true, false, not, List, [], ◌∷◌, length, ltb,
  if◌then◌else◌,
}
use ledger_stacks.Error.{
  Result, ok, err, panic, out_of_fuel, ◌>>=◌, ◌>>◌, map_err, parser_unexpected_buffer_end,
  parser_unexpected_type, parser_unexpected_value, parser_recursion_limit,
}
use ledger_stacks.Slice.{is_ascii, slice_to}
use ledger_stacks.Crates.{Crates, Bytes, IResult}
use ledger_stacks.Common.ClarityName
use ledger_stacks.Principal.Contract
use ledger_stacks.Principal.Standard
use ledger_stacks.Value.Id
use ledger_stacks.Value.Id.{
  ValueId, int, uint, buffer, bool_true, bool_false, standard_principal, contract_principal,
  response_ok, response_err, optional_none, optional_some, list, tuple, string_ascii, string_utf8,
  is_list, is_tuple, is_ascii_id,
}

-- A sum of two `usize` in a release build.
abbrev pub add_usize : ℕ → ℕ → ℕ
add_usize a b = (a + b) % 2 ^ 32

-- `*depth += 1` on a `u8`.
abbrev pub increased : ℕ → ℕ
increased depth = (depth + 1) % 2 ^ 8

abbrev pub big_int_size : ℕ
big_int_size = 16

-- The counter after a call, and the length that it found.
abbrev pub Measured : Type 0
Measured = Result (ℕ × ℕ)

unfoldable pub check_recursion_limit : ℕ → ℕ → Result (Unit {0})
check_recursion_limit max depth = if ltb max depth then err parser_recursion_limit else ok tt

-- `if let Ok(true) = ValueId::from_bytes(rem).map(|(_, id)| id == …)`
unfoldable pub holds_id : (ValueId → Bool) → IResult ValueId → Bool
holds_id p (ok (_, id)) = p id
holds_id p _ = false

module _ ⦃crates : Crates⦄ where
  unfoldable pub string_len : ValueId → Bytes → Result ℕ
  string_len id rem = do
    (rem', len) ← crates.be_u32 rem
    if ltb (length rem') len then err parser_unexpected_buffer_end else do
      content ← slice_to len rem'
      if is_ascii_id id && not (is_ascii content)
          then err parser_unexpected_type
          else ok (add_usize len 4)

  -- The loops take `rec`, the recursive call of `value_len_impl`.
  module _ (rec : ℕ → Bytes → Measured) where
    pub list_loop : ℕ → ℕ → Bytes → ℕ → Measured
    list_loop zero depth remain len = ok (depth, len)
    list_loop (suc n) depth remain len = do
      (depth', item_len) ←
          rec (if holds_id is_list (Id.from_bytes remain) then increased depth else depth) remain
      (rem, _) ← crates.take item_len remain
      list_loop n depth' rem (add_usize len item_len)

    unfoldable pub tuple_loop : ℕ → ℕ → Bytes → ℕ → Measured
    tuple_loop zero depth remain len = ok (depth, len)
    tuple_loop (suc n) depth remain len = do
      (rem, key) ← ClarityName.read_as_bytes remain
      (depth', value_len) ←
          rec (if holds_id is_tuple (Id.from_bytes rem) then increased depth else depth) rem
      (rem', _) ← crates.take (add_usize (length key) value_len) remain
      tuple_loop n depth' rem' (add_usize len (add_usize (length key) value_len))

    pub list_len : ℕ → ℕ → Bytes → Measured
    list_len max depth bytes = do
      check_recursion_limit max depth
      (rem, num_items) ← crates.be_u32 bytes
      (depth', len) ← list_loop num_items depth rem 0
      ok (depth', add_usize len 4)

    unfoldable pub tuple_len : ℕ → ℕ → Bytes → Measured
    tuple_len max depth bytes = do
      check_recursion_limit max depth
      (rem, num_pairs) ← crates.be_u32 bytes
      (depth', len) ← tuple_loop num_pairs depth rem 0
      ok (depth', add_usize len 4)

    -- The types that hold one more value: `rem` must not be empty.
    pub nested_len : ℕ → Bytes → Measured
    nested_len depth [] = err parser_unexpected_buffer_end
    nested_len depth (b ∷ bs) = rec (increased depth) (b ∷ bs)

    -- The `match` on the type byte.
    unfoldable pub payload_len : ℕ → ℕ → ValueId → Bytes → Measured
    payload_len max depth int rem = ok (depth, big_int_size)
    payload_len max depth uint rem = ok (depth, big_int_size)
    payload_len max depth buffer rem = do (_, len) ← crates.be_u32 rem; ok (depth, add_usize len 4)
    payload_len max depth bool_true rem = ok (depth, 0)
    payload_len max depth bool_false rem = ok (depth, 0)
    payload_len max depth standard_principal rem = ok (depth, Standard.bytes_len)
    payload_len max depth contract_principal rem = do
      (remain, _) ← Contract.read_as_bytes rem
      ok (depth, length rem - length remain)
    payload_len max depth optional_none rem = ok (depth, 0)
    payload_len max depth list rem = list_len max depth rem
    payload_len max depth tuple rem = tuple_len max depth rem
    payload_len max depth string_ascii rem = do len ← string_len string_ascii rem; ok (depth, len)
    payload_len max depth string_utf8 rem = do len ← string_len string_utf8 rem; ok (depth, len)
    payload_len max depth response_err rem = nested_len depth rem
    payload_len max depth response_ok rem = nested_len depth rem
    payload_len max depth optional_some rem = nested_len depth rem

  unfoldable pub value_len_impl : ℕ → ℕ → ℕ → Bytes → Measured
  value_len_impl zero max depth bytes = out_of_fuel
  value_len_impl (suc f) max depth [] = do check_recursion_limit max depth; ok (depth, 0)
  value_len_impl (suc f) max depth (b ∷ bs) = do
    check_recursion_limit max depth
    (rem, id) ← map_err parser_unexpected_value (Id.from_bytes (b ∷ bs))
    (depth', len) ← payload_len (value_len_impl f max) max depth id rem
    ok (depth', add_usize len 1)

  -- Each call takes a byte at least, so one call for each byte and one more are enough.
  unfoldable pub value_len : ℕ → Bytes → Result ℕ
  value_len max [] = err parser_unexpected_buffer_end
  value_len max (b ∷ bs) = do
    (_, len) ← value_len_impl (suc (length (b ∷ bs))) max 0 (b ∷ bs)
    ok len
