-- ===== src/Payload/Display/Arguments.antt =====
-- transaction_payload.rs: the lines of a contract call's arguments.
pub mod Texts
pub mod Keys
pub mod Lines
use ledger_stacks.Base.{
  ℕ, ◌+◌, ◌-◌, ◌%◌, ◌^◌, ◌==◌, ◌∷◌, [], ◌++◌, length, ltb, codes, Bool, if◌then◌else◌, Option, none,
  some,
}
use ledger_stacks.Error.{
  Result, ok, err, panic, ◌>>=◌, ok_or, parser_display_idx_out_of_range, parser_unexpected_error,
  parser_unexpected_buffer_end,
}
use ledger_stacks.Slice.{slice}
use ledger_stacks.Crates.{Crates, Bytes}
use ledger_stacks.Device.{Device, non_negative}
use ledger_stacks.Format.Writer.{new_writer, write_fmt}
use ledger_stacks.Format.Item.{Shown, show_value}
use ledger_stacks.Common.Limits.{c32_encoded_addrs_length}
use ledger_stacks.Common.ClarityName
use ledger_stacks.Common.ContractName
use ledger_stacks.Principal
use ledger_stacks.Principal.{PrincipalData}
use ledger_stacks.Value.Id.{ValueId}
use ledger_stacks.Value.Parse.{Value, value_id, uint}
use ledger_stacks.Value.Parse
use ledger_stacks.Value.Int.{int}
use ledger_stacks.Payload.ContractCall
use ledger_stacks.Payload.ContractCall.{TransactionContractCall, contract_call_base_items}
use ledger_stacks.Payload.Display.{get_base_items, label_stacking_value}

abbrev pub max_string_ascii_to_show : ℕ
max_string_ascii_to_show = 60

-- `payload.len() - 4` wraps on a shorter payload.
unfoldable pub ascii_end : Bytes → ℕ
ascii_end payload =
    if ltb max_string_ascii_to_show ((length payload + 2 ^ 32 - 4) % 2 ^ 32)
    then max_string_ascii_to_show
    else length payload

-- `None.apdu_unwrap()` never comes back.
abbrev pub some_or_panic : {A : Type 0} → Option A → Result A
some_or_panic none = panic
some_or_panic (some a) = ok a

module _ ⦃crates : Crates⦄ ⦃device : Device⦄ where
  -- "arg" and the argument's number.
  unfoldable pub argument_key : Bytes → ℕ → Result Bytes
  argument_key out_key arg_num = do
    arg_num_str ← device.numtoa_str 3 (non_negative arg_num)
    written ← write_fmt (new_writer out_key) (codes "arg" ∷ arg_num_str ∷ [])
    w ← ok_or parser_unexpected_buffer_end written
    ok w.buf

  -- An address, and a dot with a name behind it, in a buffer that holds the longest of both.
  unfoldable pub contract_principal_text : PrincipalData → Result Bytes
  contract_principal_text principal = do
    address ← Principal.encoded_address principal
    name ← some_or_panic (Principal.contract_name principal)
    let text = address ++ b'.' ∷ ContractName.name name
    if ltb (c32_encoded_addrs_length + ClarityName.max_len + 1) (length text)
        then panic
        else ok text

  -- The text of a value by its type, but for an unsigned number.
  unfoldable pub argument_text : ValueId → Value → Bytes → Result Bytes
  argument_text ValueId.int value payload = do
    found ← int value
    n ← ok_or parser_unexpected_error found
    device.numtoa_str 39 n
  argument_text ValueId.uint value payload = do
    found ← uint value
    n ← ok_or parser_unexpected_error found
    device.numtoa_str 39 (non_negative n)
  argument_text ValueId.bool_true value payload = ok (codes "is bool: true")
  argument_text ValueId.bool_false value payload = ok (codes "is bool: false")
  argument_text ValueId.optional_none value payload = ok (codes "is Option: None")
  argument_text ValueId.optional_some value payload = ok (codes "is Option: Some")
  argument_text ValueId.response_ok value payload = ok (codes "is Result: Ok")
  argument_text ValueId.response_err value payload = ok (codes "is Result: Err")
  argument_text ValueId.standard_principal value payload = do
    (_, principal) ← Principal.standard_from_bytes payload
    Principal.encoded_address principal
  argument_text ValueId.contract_principal value payload = do
    (_, principal) ← Principal.contract_principal_from_bytes payload
    contract_principal_text principal
  argument_text ValueId.buffer value payload = ok (codes "is Buffer")
  argument_text ValueId.list value payload = ok (codes "is List")
  argument_text ValueId.tuple value payload = ok (codes "is Tuple")
  argument_text ValueId.string_ascii value payload = slice 4 (ascii_end payload) payload
  argument_text ValueId.string_utf8 value payload = ok (codes "is StringUtf8")

  -- The first argument of a stacking call has its own key, if it is an unsigned number.
  unfoldable pub relabel : ValueId → ℕ → TransactionContractCall → Bytes → Result Bytes
  relabel ValueId.uint arg_num c key = if arg_num == 0 then label_stacking_value c key else ok key
  relabel _ arg_num c key = ok key

  -- The number is written in its buffer before the key is changed, which changes no result.
  unfoldable pub get_contract_call_args :
      Bool → TransactionContractCall → ℕ → Bytes → Bytes → ℕ → Result Shown
  get_contract_call_args expert c display_idx out_key out_value page_idx =
      let arg_num = display_idx - contract_call_base_items in
      if ltb display_idx contract_call_base_items then err parser_display_idx_out_of_range else (do
        args ← ContractCall.function_args expert c
        value ← ContractCall.argument_at args arg_num
        key ← argument_key out_key arg_num
        payload ← Parse.payload value
        id ← value_id value
        text ← argument_text id value payload
        key' ← relabel id arg_num c key
        show_value key' out_value text page_idx)

  unfoldable pub get_contract_call_items :
      Bool → TransactionContractCall → ℕ → Bytes → Bytes → ℕ → Result Shown
  get_contract_call_items expert c display_idx out_key out_value page_idx =
      if ltb display_idx contract_call_base_items
      then get_base_items c display_idx out_key out_value page_idx
      else get_contract_call_args expert c display_idx out_key out_value page_idx
