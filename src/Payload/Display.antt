-- ===== src/Payload/Display.antt =====
-- transaction_payload.rs: the lines that a token transfer, a smart contract and the base of a
-- contract call show.
pub mod Arguments
use ledger_stacks.Base.{ℕ, ◌==◌, ◌&&◌, ◌||◌, bytes_eq, codes, ltb, Bool, if◌then◌else◌, ◌-◌, take}
use ledger_stacks.Error.{
  Result, ok, err, ◌>>=◌, ok_or, parser_display_idx_out_of_range, parser_value_out_of_range,
  parser_no_data, parser_invalid_address,
}
use ledger_stacks.Base
use ledger_stacks.Slice.{index, slice, zeroed}
use ledger_stacks.Crates.{Crates, Bytes}
use ledger_stacks.Device.{Device}
use ledger_stacks.C32Encoding.{c32_address}
use ledger_stacks.Format.FixedPoint.{u64_text}
use ledger_stacks.Format.Item.{Shown, show_item, write_key}
use ledger_stacks.Common.ContractName
use ledger_stacks.Payload.TokenTransfer
use ledger_stacks.Payload.TokenTransfer.{StxTokenTransfer}
use ledger_stacks.Payload.ContractCall
use ledger_stacks.Payload.ContractCall.{TransactionContractCall, contract_call_base_items}
use ledger_stacks.Payload.Data.{TransactionSmartContract, smart_contract_name}

-- `.get(2..22).ok_or(e)`
abbrev pub hash_of : Bytes → Result Bytes
hash_of bs =
    if ltb (Base.length bs) 22 then err parser_invalid_address else ok (take 20 (Base.drop 2 bs))

module _ ⦃crates : Crates⦄ ⦃device : Device⦄ where
  unfoldable pub encoded_address : StxTokenTransfer → Result Bytes
  encoded_address t = do
    version ← ok_or parser_no_data (Base.get_elem? t.bytes 1)
    hash ← hash_of t.bytes
    c32_address version hash

  unfoldable pub amount_stx : StxTokenTransfer → Result Bytes
  amount_stx t = do amount ← TokenTransfer.amount t; u64_text amount

  unfoldable pub get_token_transfer_items : StxTokenTransfer → ℕ → Bytes → Bytes → ℕ → Result Shown
  get_token_transfer_items t display_idx out_key out_value page_idx =
      if display_idx == 0
      then show_item (codes "Amount uSTX") (amount_stx t) out_key out_value page_idx
      else if display_idx == 1
      then show_item (codes "To") (encoded_address t) out_key out_value page_idx
      else if display_idx == 2
      then show_item (codes "Memo") (TokenTransfer.memo t) out_key out_value page_idx
      else err parser_display_idx_out_of_range

  abbrev pub contract_name_line : TransactionSmartContract → Result Bytes
  contract_name_line c = do name ← smart_contract_name c; ok (ContractName.name name)

  unfoldable pub get_contract_items :
      TransactionSmartContract → ℕ → Bytes → Bytes → ℕ → Result Shown
  get_contract_items c display_idx out_key out_value page_idx =
      if display_idx == 0
      then show_item (codes "Contract Name") (contract_name_line c) out_key out_value page_idx
      else err parser_value_out_of_range

  unfoldable pub contract_address : TransactionContractCall → Result Bytes
  contract_address c = do
    version ← index c.bytes 0
    hash ← slice 1 21 c.bytes
    c32_address version hash

  abbrev pub called_contract_line : TransactionContractCall → Result Bytes
  called_contract_line c = do name ← ContractCall.contract_name c; ok (ContractName.name name)

  unfoldable pub get_base_items : TransactionContractCall → ℕ → Bytes → Bytes → ℕ → Result Shown
  get_base_items c display_idx out_key out_value page_idx =
      if ltb contract_call_base_items display_idx
      then err parser_display_idx_out_of_range
      else if display_idx == 0
      then show_item (codes "Contract address") (contract_address c) out_key out_value page_idx
      else if display_idx == 1
      then show_item (codes "Contract name") (called_contract_line c) out_key out_value page_idx
      else if display_idx == 2
      then show_item (codes "Function name") (ContractCall.function_name c) out_key out_value
          page_idx
      else err parser_display_idx_out_of_range

  -- The test for the contract "pox" of one of the two boot addresses.
  abbrev pub is_pox : Bytes → Bytes → Bool
  is_pox address name =
      (bytes_eq address (codes "SP000000000000000000002Q6VF78")
        || bytes_eq address (codes "ST000000000000000000002AMW42H"))
      && bytes_eq name (codes "pox")

  -- The key after the call.
  unfoldable pub label_stacking_value : TransactionContractCall → Bytes → Result Bytes
  unfolding write_key
  label_stacking_value c key = do
    address ← contract_address c
    name ← called_contract_line c
    if is_pox address name
        then (do
          function ← ContractCall.function_name c
          if bytes_eq function (codes "stack-stx")
              then write_key (zeroed key) (codes "stacked uSTX")
              else if bytes_eq function (codes "delegate-stx")
              then write_key (zeroed key) (codes "delegated uSTX")
              else ok key)
        else ok key
