-- ===== src/Payload/ContractCall.antt =====
-- transaction_payload.rs: `Arguments` and `TransactionContractCall`, kept as their bytes.
pub mod RoundTrip
use ledger_stacks.Base.{
  ℕ, zero, suc, ◌+◌, ◌-◌, ◌%◌, ◌^◌, ◌≡◌, refl, ◌++◌, [], length, ltb, leb, ◌==◌, ◌&&◌, not, Bool,
  if◌then◌else◌,
}
use ledger_stacks.Error.{
  Result, ok, err, panic, ◌>>=◌, map_err, parser_invalid_transaction_payload,
  parser_unexpected_error, parser_invalid_argument_id, parser_display_idx_out_of_range,
  parser_value_out_of_range,
}
use ledger_stacks.Slice.{slice_from, index}
use ledger_stacks.Crates.{Crates, Bytes, IResult}
use ledger_stacks.Common.Limits.{hash160_len, tx_depth_limit}
use ledger_stacks.Common.ClarityName
use ledger_stacks.Common.ClarityName.{ClarityName}
use ledger_stacks.Common.ContractName
use ledger_stacks.Common.ContractName.{ContractName}
use ledger_stacks.Common.StacksAddress
use ledger_stacks.Value.Parse
use ledger_stacks.Value.Parse.{Value}

abbrev pub max_num_args : ℕ
max_num_args = 10

abbrev pub contract_call_base_items : ℕ
contract_call_base_items = 3

pub record Arguments : Type 0 where
  pub bytes : Bytes

pub record TransactionContractCall : Type 0 where
  pub bytes : Bytes

module _ ⦃crates : Crates⦄ where
  -- `expert` is the setting that `is_expert_mode` reads.
  unfoldable pub arguments_from_bytes : Bool → Bytes → IResult Arguments
  arguments_from_bytes expert bytes = do
    (_, num_args) ← crates.be_u32 bytes
    if ltb max_num_args num_args && not expert
        then err parser_invalid_transaction_payload
        else do (raw, args) ← crates.take (length bytes) bytes; ok (raw, record { bytes = args })

  unfoldable pub arguments_num_args : Arguments → Result ℕ
  arguments_num_args a = map_err parser_unexpected_error (do (_, n) ← crates.be_u32 a.bytes; ok n)

  -- The loop: `left` arguments are still to be read, and `at` of them are skipped.
  unfoldable pub skip_to : ℕ → ℕ → Bytes → Result Value
  skip_to zero at leftover = err parser_display_idx_out_of_range
  skip_to (suc left) at leftover = do
    (bytes, value) ← map_err parser_invalid_argument_id (Parse.from_bytes tx_depth_limit leftover)
    elim at [ zero ↦ ok value | suc at' ↦ skip_to left at' bytes ]

  unfoldable pub argument_at : Arguments → ℕ → Result Value
  argument_at a at = do
    num_args ← arguments_num_args a
    leftover ← slice_from 4 a.bytes
    skip_to num_args at leftover

  unfoldable pub from_bytes : Bool → Bytes → IResult TransactionContractCall
  from_bytes expert bytes = do
    (raw, _) ← StacksAddress.from_bytes bytes
    (raw1, _) ← ContractName.from_bytes raw
    (raw2, _) ← ClarityName.from_bytes raw1
    (leftover, _) ← arguments_from_bytes expert raw2
    (_, taken) ← crates.take (length bytes - length leftover) bytes
    ok (leftover, record { bytes = taken })

  -- `e.into()` keeps the parser's error.
  unfoldable pub contract_name : TransactionContractCall → Result ContractName
  contract_name c = do
    rest ← slice_from (hash160_len + 1) c.bytes
    (_, name) ← ContractName.from_bytes rest
    ok name

  unfoldable pub function_name : TransactionContractCall → Result Bytes
  function_name c = do
    rest ← slice_from (hash160_len + 1) c.bytes
    map_err parser_unexpected_error do
      (rem, _) ← ContractName.from_bytes rest
      (_, name) ← ClarityName.from_bytes rem
      ok name.bytes

  unfoldable pub function_args : Bool → TransactionContractCall → Result Arguments
  function_args expert c = do
    rest ← slice_from (hash160_len + 1) c.bytes
    map_err parser_invalid_argument_id do
      (rem, _) ← ContractName.from_bytes rest
      (rem', _) ← ClarityName.from_bytes rem
      (_, args) ← arguments_from_bytes expert rem'
      ok args

  unfoldable pub num_args : Bool → TransactionContractCall → Result ℕ
  num_args expert c = do args ← function_args expert c; arguments_num_args args

  -- The count is cut to a byte before 3 is added with a check.
  unfoldable pub num_items : Bool → TransactionContractCall → Result ℕ
  num_items expert c = do
    n ← num_args expert c
    if ltb (n % 2 ^ 8) (2 ^ 8 - contract_call_base_items)
        then ok (n % 2 ^ 8 + contract_call_base_items)
        else err parser_value_out_of_range
