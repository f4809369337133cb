-- ===== src/Spending/Display.antt =====
-- spending_condition.rs: the address and the numbers of a signer, as they are shown.
use ledger_stacks.Error.{Result, ◌>>=◌}
use ledger_stacks.Slice.{slice}
use ledger_stacks.Crates.{Crates, Bytes}
use ledger_stacks.Device.{Device}
use ledger_stacks.C32Encoding.{c32_address}
use ledger_stacks.Format.FixedPoint.{u64_text}
use ledger_stacks.Common.TransactionVersion.{TransactionVersion, mainnet, testnet}
use ledger_stacks.Common.HashMode.{HashMode, to_version_mainnet, to_version_testnet}
use ledger_stacks.Spending.Signer
use ledger_stacks.Spending.Signer.{SpendingConditionSigner, hash_mode}
use ledger_stacks.Spending.Condition.{TransactionSpendingCondition}

module _ ⦃device : Device⦄ where
  unfoldable pub to_mainnet_address : SpendingConditionSigner → HashMode → Result Bytes
  to_mainnet_address s mode = do
    hash ← slice 1 21 s.bytes
    c32_address (to_version_mainnet mode) hash

  unfoldable pub to_testnet_address : SpendingConditionSigner → HashMode → Result Bytes
  to_testnet_address s mode = do
    hash ← slice 1 21 s.bytes
    c32_address (to_version_testnet mode) hash

  unfoldable pub signer_address : SpendingConditionSigner → TransactionVersion → Result Bytes
  signer_address s chain = do
    mode ← hash_mode s
    elim chain [ testnet ↦ to_testnet_address s mode | mainnet ↦ to_mainnet_address s mode ]

  unfoldable pub condition_signer_address :
      TransactionSpendingCondition → TransactionVersion → Result Bytes
  condition_signer_address c chain = signer_address c.signer chain

module _ ⦃crates : Crates⦄ where
  unfoldable pub nonce_str : SpendingConditionSigner → Result Bytes
  nonce_str s = do nonce ← Signer.nonce s; u64_text nonce

  unfoldable pub fee_str : SpendingConditionSigner → Result Bytes
  fee_str s = do fee ← Signer.fee s; u64_text fee

  unfoldable pub condition_nonce_str : TransactionSpendingCondition → Result Bytes
  condition_nonce_str c = nonce_str c.signer

  unfoldable pub condition_fee_str : TransactionSpendingCondition → Result Bytes
  condition_fee_str c = fee_str c.signer
