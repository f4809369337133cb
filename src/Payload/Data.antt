-- ===== src/Payload/Data.antt =====
-- transaction_payload.rs: `TransactionPayload`.
use ledger_stacks.Base.{ℕ, [], ◌==◌, Bool, true, false, Option, none, some, if◌then◌else◌}
use ledger_stacks.Error.{Result, ok, err, ◌>>=◌, parser_invalid_transaction_payload}
use ledger_stacks.Crates.{Crates, Bytes, IResult}
use ledger_stacks.Common.ContractName
use ledger_stacks.Common.ContractName.{ContractName}
use ledger_stacks.Error.{to_option}
use ledger_stacks.Error.{unwrap_or}
use ledger_stacks.Payload.TokenTransfer
use ledger_stacks.Payload.TokenTransfer.{StxTokenTransfer}
use ledger_stacks.Payload.ContractCall
use ledger_stacks.Payload.ContractCall.{TransactionContractCall, contract_call_base_items}

pub record TransactionSmartContract : Type 0 where
  pub bytes : Bytes

pub data TransactionPayload : Type 0 where
  token_transfer : StxTokenTransfer → TransactionPayload
  smart_contract : TransactionSmartContract → TransactionPayload
  contract_call : TransactionContractCall → TransactionPayload

pub data TransactionPayloadId : Type 0 where
  token_transfer_id smart_contract_id contract_call_id : TransactionPayloadId

unfoldable pub id_from_u8 : ℕ → Result TransactionPayloadId
id_from_u8 v =
    if v == 0
    then ok token_transfer_id
    else if v == 1
    then ok smart_contract_id
    else if v == 2
    then ok contract_call_id
    else err parser_invalid_transaction_payload

unfoldable pub is_token_transfer_payload : TransactionPayload → Bool
is_token_transfer_payload (token_transfer _) = true
is_token_transfer_payload _ = false

unfoldable pub is_smart_contract_payload : TransactionPayload → Bool
is_smart_contract_payload (smart_contract _) = true
is_smart_contract_payload _ = false

unfoldable pub is_contract_call_payload : TransactionPayload → Bool
is_contract_call_payload (contract_call _) = true
is_contract_call_payload _ = false

-- All the bytes are the contract's, and none are left.
abbrev pub smart_contract_from_bytes : Bytes → IResult TransactionSmartContract
smart_contract_from_bytes bytes = ok ([], record { bytes = bytes })

module _ ⦃crates : Crates⦄ where
  unfoldable pub smart_contract_name : TransactionSmartContract → Result ContractName
  smart_contract_name c = do (_, name) ← ContractName.from_bytes c.bytes; ok name

  -- The `match` on the payload's id.
  abbrev pub body : Bool → TransactionPayloadId → Bytes → IResult TransactionPayload
  body expert token_transfer_id rem = do
    (rem', token) ← TokenTransfer.from_bytes rem
    ok (rem', token_transfer token)
  body expert smart_contract_id rem = do
    (rem', contract) ← smart_contract_from_bytes rem
    ok (rem', smart_contract contract)
  body expert contract_call_id rem = do
    (rem', call) ← ContractCall.from_bytes expert rem
    ok (rem', contract_call call)

  unfoldable pub payload_from_bytes : Bool → Bytes → IResult TransactionPayload
  payload_from_bytes expert bytes = do
    (rem, id) ← crates.le_u8 bytes
    payload_id ← id_from_u8 id
    body expert payload_id rem

  unfoldable pub contract_name : TransactionPayload → Result (Option ContractName)
  contract_name (smart_contract contract) = to_option (smart_contract_name contract)
  contract_name (contract_call contract) = to_option (ContractCall.contract_name contract)
  contract_name _ = ok none

  unfoldable pub function_name : TransactionPayload → Result (Option Bytes)
  function_name (contract_call contract) = to_option (ContractCall.function_name contract)
  function_name _ = ok none

  unfoldable pub num_args : Bool → TransactionPayload → Result (Option ℕ)
  num_args expert (contract_call contract) = to_option (ContractCall.num_args expert contract)
  num_args expert _ = ok none

  unfoldable pub amount : TransactionPayload → Result (Option ℕ)
  amount (token_transfer token) = to_option (TokenTransfer.amount token)
  amount _ = ok none

  unfoldable pub memo : TransactionPayload → Result (Option Bytes)
  memo (token_transfer token) = do m ← TokenTransfer.memo token; ok (some m)
  memo _ = ok none

  unfoldable pub num_items : Bool → TransactionPayload → Result ℕ
  num_items expert (token_transfer _) = ok 3
  num_items expert (smart_contract _) = ok 1
  num_items expert (contract_call call) =
      unwrap_or contract_call_base_items (ContractCall.num_items expert call)
