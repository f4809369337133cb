-- ===== src/Spending/Multisig.antt =====
-- spending_condition.rs: `MultisigSpendingCondition`, the auth fields and the number of signatures.
pub mod Fields
use ledger_stacks.Base.{
  ℕ, zero, suc, ◌+◌, ◌-◌, ◌≡◌, refl, ◌∷◌, ◌++◌, [], length, ◌==◌, ltb, leb, ◌||◌, if◌then◌else◌,
  get_elem?, none, some, ◌^◌,
}
use ledger_stacks.Error.{
  Result, ok, err, panic, ◌>>=◌, map_err, parser_value_out_of_range, parser_unexpected_value,
  parser_unexpected_buffer_end,
}
use ledger_stacks.Slice.{slice_from, slice_to}
use ledger_stacks.Crates.{Crates, Bytes, IResult}
use ledger_stacks.Spending.Singlesig.{write_bytes}

pub record MultisigSpendingCondition : Type 0 where
  pub bytes : Bytes

-- The bytes of a field with its type byte: a public key or a signature.
unfoldable pub field_len : ℕ → Result ℕ
field_len b =
    if b == 0x00 || b == 0x01
    then ok (33 + 1)
    else if b == 0x02 || b == 0x03
    then ok (65 + 1)
    else err parser_unexpected_value

-- The loop. The counter stays below the input's length plus 66.
unfoldable pub fields_len : ℕ → ℕ → Bytes → Result ℕ
fields_len zero bytes_count bytes = ok bytes_count
fields_len (suc n) bytes_count bytes = elim (get_elem? bytes bytes_count) [
  | none ↦ err parser_value_out_of_range
  | some b ↦ field_len b >>= λ len. fields_len n (bytes_count + len) bytes
]

-- All but the last two bytes; an underflow of the length is a write that is out of range.
unfoldable pub clear_signature : MultisigSpendingCondition → Result MultisigSpendingCondition
clear_signature m =
    if ltb (length m.bytes) 2
    then panic
    else ok (record { bytes = write_bytes 0 (length m.bytes - 2) m.bytes })

module _ ⦃crates : Crates⦄ where
  unfoldable pub from_bytes : Bytes → IResult MultisigSpendingCondition
  from_bytes bytes = do
    (_, num_fields) ← crates.be_u32 bytes
    bytes_count ← fields_len num_fields 4 bytes
    (raw, fields) ← crates.take (bytes_count + 2) bytes
    ok (raw, record { bytes = fields })

  unfoldable pub required_signatures : MultisigSpendingCondition → Result ℕ
  required_signatures m = if ltb (length m.bytes) 2 then err parser_unexpected_buffer_end else do
    tail ← slice_from (length m.bytes - 2) m.bytes
    map_err parser_unexpected_value (do (_, n) ← crates.be_u16 tail; ok n)

  unfoldable pub num_fields : MultisigSpendingCondition → Result ℕ
  num_fields m = do
    head ← slice_to 4 m.bytes
    map_err parser_unexpected_value (do (_, n) ← crates.be_u32 head; ok n)
