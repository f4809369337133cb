-- ===== src/StructuredMsg/Domain.antt =====
-- structured_msg.rs: `Domain`, a tuple with a name, a version and the number of a chain.
pub mod Fuel
use ledger_stacks.Base.{
  ℕ, zero, suc, ◌+◌, ◌==◌, ◌||◌, not, ◌++◌, length, drop, ltb, Bool, true, false, bytes_eq,
  if◌then◌else◌, codes, Option, none, some,
}
use ledger_stacks.Error.{
  Result, ok, err, panic, out_of_fuel, ok_or, ◌>>=◌, parser_invalid_structured_msg,
  parser_unexpected_buffer_end, parser_unexpected_number_items,
}
use ledger_stacks.Crates.{Crates, Bytes, IResult}
use ledger_stacks.Device.{Device, non_negative}
use ledger_stacks.Format.Item.{Shown, show_value}
use ledger_stacks.Common.Limits.{max_depth}
use ledger_stacks.Common.ClarityName.{ClarityName}
use ledger_stacks.Value.Id.{ValueId}
use ledger_stacks.Value.Parse
use ledger_stacks.Value.Parse.{Value, value_id, uint, tuple}
use ledger_stacks.Value.Int.{string_ascii}
use ledger_stacks.Value.Tuple
use ledger_stacks.Value.Tuple.{TupleIter, next}

pub record Domain : Type 0 where
  pub value : Value

abbrev pub len : ℕ
len = 3

abbrev pub bytes : Domain → Bytes
bytes d = d.value.bytes

abbrev pub num_items : Domain → ℕ
num_items d = 3

-- The patterns of the loop of `from_bytes`.
abbrev pub is_field : Bytes → ValueId → Bool
is_field key ValueId.string_ascii = bytes_eq key (codes "name") || bytes_eq key (codes "version")
is_field key ValueId.uint = bytes_eq key (codes "chain-id")
is_field key _ = false

-- `.unwrap()` of an option
abbrev pub unwrap_some : {A : Type 0} → Option A → Result A
unwrap_some none = panic
unwrap_some (some a) = ok a

module _ ⦃crates : Crates⦄ where
  -- The loop over the fields, which counts them.
  unfoldable pub check_fields : ℕ → TupleIter → ℕ → Result ℕ
  check_fields zero it items = out_of_fuel
  check_fields (suc fuel) it items = do
    found ← next it
    elim found [
      | none ↦ ok items
      | some ((key, value), it') ↦ value_id value >>= λ id. elim (is_field key.bytes id) [
        | true ↦ check_fields fuel it' (items + 1)
        | false ↦ err parser_invalid_structured_msg
      ]
    ]

  unfoldable pub from_bytes : Bytes → IResult Domain
  from_bytes bytes = do
    (rem, value) ← Parse.from_bytes max_depth bytes
    found ← tuple value
    raw ← ok_or parser_invalid_structured_msg found
    let fields : Tuple.Tuple = record { bytes = raw }
    payload ← Tuple.payload fields
    items ← check_fields (suc (length payload)) (record { bytes = payload; position = 0 }) 0
    n ← Tuple.num_elements fields
    if not (items == n) || not (items == len)
        then err parser_invalid_structured_msg
        else ok (rem, record { value = value })

  -- `iter().nth(n)`
  unfoldable pub nth : ℕ → TupleIter → Result (Option (ClarityName × Value))
  nth zero it = do
    found ← next it
    elim found [ none ↦ ok none | some (field, _) ↦ ok (some field) ]
  nth (suc n) it = do found ← next it; elim found [ none ↦ ok none | some (_, it') ↦ nth n it' ]

module _ ⦃crates : Crates⦄ ⦃device : Device⦄ where
  -- A number in decimal digits, or a string.
  unfoldable pub field_text : ValueId → Value → Result Bytes
  field_text ValueId.uint value = do
    found ← uint value
    n ← unwrap_some found
    device.numtoa_str 39 (non_negative n)
  field_text _ value = do found ← string_ascii value; unwrap_some found

  unfoldable pub get_item : Domain → ℕ → Bytes → Bytes → ℕ → Result Shown
  get_item d display_idx out_key out_value page_idx = do
    found ← tuple d.value
    raw ← unwrap_some found
    payload ← Tuple.payload (record { bytes = raw })
    field ← nth display_idx (record { bytes = payload; position = 0 })
    (name, value) ← ok_or parser_unexpected_number_items field
    if ltb (length out_key) (length name.bytes) then err parser_unexpected_buffer_end else (do
      id ← value_id value
      text ← field_text id value
      show_value (name.bytes ++ drop (length name.bytes) out_key) out_value text page_idx)
