-- ===== src/Payload/Items.antt =====
-- transaction_payload.rs: `TransactionPayload::get_items`, and the addresses of a payload.
use ledger_stacks.Base.{ℕ, Bool, Option, none}
use ledger_stacks.Error.{Result, ok, to_option, ◌>>=◌}
use ledger_stacks.Crates.{Crates, Bytes}
use ledger_stacks.Device.{Device}
use ledger_stacks.Format.Item.{Shown}
use ledger_stacks.Payload.Data.{
  TransactionPayload, token_transfer, smart_contract, contract_call, num_items,
}
use ledger_stacks.Payload.Display.{
  encoded_address, contract_address, get_token_transfer_items, get_contract_items,
}
use ledger_stacks.Payload.Display.Arguments.{get_contract_call_items}
use ledger_stacks.Common.Bytes.{sub_u8}

module _ ⦃crates : Crates⦄ ⦃device : Device⦄ where
  unfoldable pub recipient_address : TransactionPayload → Result (Option Bytes)
  recipient_address (token_transfer token) = to_option (encoded_address token)
  recipient_address _ = ok none

  unfoldable pub call_address : TransactionPayload → Result (Option Bytes)
  call_address (contract_call call) = to_option (contract_address call)
  call_address _ = ok none

  -- The `match` of `get_items`.
  abbrev pub kind_items : Bool → TransactionPayload → ℕ → Bytes → Bytes → ℕ → Result Shown
  kind_items expert (token_transfer token) = get_token_transfer_items token
  kind_items expert (smart_contract contract) = get_contract_items contract
  kind_items expert (contract_call call) = get_contract_call_items expert call

  -- The payload's items are the last before `total_items`.
  unfoldable pub get_items : Bool → TransactionPayload → ℕ → Bytes → Bytes → ℕ → ℕ → Result Shown
  get_items expert p display_idx out_key out_value page_idx total_items = do
    n ← num_items expert p
    kind_items expert p (sub_u8 n (sub_u8 total_items display_idx)) out_key out_value page_idx
