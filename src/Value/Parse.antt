-- ===== src/Value/Parse.antt =====
-- value.rs: `Value`, the bytes of a Clarity value, and its readers; value/int.rs, value/string.rs and
-- value/tuple.rs for what it wraps.
use ledger_stacks.Base.{
  ℕ, ◌^◌, ◌<◌, ◌≡◌, refl, Bool, true, false, ◌++◌, length, leb, not, if◌then◌else◌, Option,
  Bool-cases, inl, inr,
}
use ledger_stacks.Error.{
  unwrap, to_option, >>=-eq-ok, Result, ok, err, ◌>>=◌, parser_recursion_limit,
  parser_unexpected_type, parser_unexpected_value,
}
use ledger_stacks.Slice.{index, slice_from, is_ascii}
use ledger_stacks.Crates.{Crates, Bytes, IResult, take-append_ok, take_splits}
use ledger_stacks.Value.Id
use ledger_stacks.Value.Id.{ValueId, is_tuple}
use ledger_stacks.Value.Len.{value_len}
use ledger_stacks.Value.Len.Exact.{value_len-encode}
use ledger_stacks.Value.Encoding.{Clarity, encode, cost, IsValid}

pub record Value : Type 0 where
  pub bytes : Bytes

unfoldable pub value_id : Value → Result ValueId
unfolding Id.try_from
value_id v = do b ← index v.bytes 0; unwrap (Id.try_from b)

unfoldable pub payload : Value → Result Bytes
payload v = slice_from 1 v.bytes

abbrev is_uint : ValueId → Bool
is_uint ValueId.uint = true
is_uint _ = false

abbrev pub is_string_ascii : ValueId → Bool
is_string_ascii ValueId.string_ascii = true
is_string_ascii _ = false

abbrev pub is_string_utf8 : ValueId → Bool
is_string_utf8 ValueId.string_utf8 = true
is_string_utf8 _ = false

-- `Tuple::new`: the tuple's bytes without the type byte.
unfoldable pub new_tuple : Value → Result Bytes
new_tuple v = do
  id ← value_id v
  if not (is_tuple id) then err parser_unexpected_type else payload v

unfoldable pub tuple : Value → Result (Option Bytes)
tuple v = to_option (new_tuple v)

module _ ⦃crates : Crates⦄ where
  unfoldable pub from_bytes : ℕ → Bytes → IResult Value
  from_bytes max bytes = do
    len ← value_len max bytes
    (rem, v) ← crates.take len bytes
    ok (rem, record { bytes = v })

  -- `UInt128::new`
  unfoldable pub new_uint : Value → Result ℕ
  new_uint v = do
    id ← value_id v
    if not (is_uint id)
        then err parser_unexpected_type
        else do bytes ← payload v; (_, n) ← crates.be_u128 bytes; ok n

  unfoldable pub uint : Value → Result (Option ℕ)
  uint v = to_option (new_uint v)

  -- `String::from_bytes` and `String::from_bytes_ascii`
  unfoldable pub string_from_bytes : Bytes → IResult Bytes
  string_from_bytes bytes = do
    (rem, len) ← crates.be_u32 bytes
    (rem', string) ← crates.take len rem
    ok (rem', string)

  unfoldable pub string_from_bytes_ascii : Bytes → IResult Bytes
  string_from_bytes_ascii bytes = do
    (rem, s) ← string_from_bytes bytes
    if not (is_ascii s) then err parser_unexpected_value else ok (rem, s)

  -- `StringAscii::new` and `StringUtf8::new`
  unfoldable pub new_string_ascii : Value → Result Bytes
  new_string_ascii v = do
    id ← value_id v
    if not (is_string_ascii id)
        then err parser_unexpected_type
        else do bytes ← payload v; (_, s) ← string_from_bytes_ascii bytes; ok s

  unfoldable pub new_string_utf8 : Value → Result Bytes
  new_string_utf8 v = do
    id ← value_id v
    if not (is_string_utf8 id)
        then err parser_unexpected_type
        else do bytes ← payload v; (_, s) ← string_from_bytes bytes; ok s

  -- For a limit below 255, a valid value whose encoding has less than 2^32 bytes is taken off the
  -- front of any input, as it stands, when its counter stays within the limit; otherwise the
  -- answer is the recursion limit's error.
  pub value_from_bytes-encode :
      (max : ℕ) (v : Clarity) (rest : Bytes)
      → max < 255
      → IsValid v
      → length (encode v) < 2 ^ 32
      → from_bytes max (encode v ++ rest) ≡ (
          if leb (cost v) max
          then ok (rest, record { bytes = encode v })
          else err parser_recursion_limit)
  unfolding from_bytes
  value_from_bytes-encode max v rest hm valid hl = elim (Bool-cases (leb (cost v) max)) [
    | inl under ↦
        rw (value_len-encode max v rest hm valid hl, under, take-append_ok _ (encode v) rest refl)
    | inr over ↦ rw (value_len-encode max v rest hm valid hl, over)
  ]

  -- A value that is read is the front of the input.
  pub value_splits :
      (max : ℕ) (bs rem : Bytes) (v : Value) → from_bytes max bs ≡ ok (rem, v) → v.bytes ++ rem ≡ bs
  unfolding from_bytes
  value_splits max bs rem v e =
      let (len, hl, rest) = >>=-eq-ok (value_len max bs) _ e in
      let ((r, raw), ht, last) = >>=-eq-ok (crates.take len bs) _ rest in
      cut len bs r rem raw v (take_splits len bs ht).0 last
    where
      cut :
          (len : ℕ) (bs r rem raw : Bytes) (v : Value)
          → raw ++ r ≡ bs
          → ◌≡◌ {A = IResult Value} (ok (r, record { bytes = raw })) (ok (rem, v))
          → v.bytes ++ rem ≡ bs
      cut len bs r rem raw v s e =
          let same : r ≡ rem = cc in
          let whole : ◌≡◌ {A = Value} (record { bytes = raw }) v = cc in rw (← whole, ← same) s
