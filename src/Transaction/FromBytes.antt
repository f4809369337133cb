-- ===== src/Transaction/FromBytes.antt =====
-- transaction.rs: `Transaction::from_bytes`, which rests on nom's `permutation`.
pub mod Agree
use ledger_stacks.Base.{ℕ, ◌≡◌, ◌&&◌, not, Bool, if◌then◌else◌}
use ledger_stacks.Error.{
  Result, ok, err, panic, out_of_fuel, ◌>>=◌, parser_unexpected_error,
  parser_invalid_transaction_payload,
}
use ledger_stacks.Crates.{Crates, Iterator, Bytes, IResult}
use ledger_stacks.Common.HashMode.{invalid}
use ledger_stacks.Common.TransactionVersion
use ledger_stacks.Common.TransactionVersion.{TransactionVersion}
use ledger_stacks.Auth
use ledger_stacks.Auth.{TransactionAuth}
use ledger_stacks.Payload
use ledger_stacks.Payload.{TransactionPayload}
use ledger_stacks.Transaction.PostConditions
use ledger_stacks.Transaction.PostConditions.{PostConditions}
use ledger_stacks.Transaction.State.{Transaction}

pub record TxTuple : Type 0 where
  pub version : TransactionVersion
  pub chain_id : ℕ
  pub auth : TransactionAuth
  pub modes : Bytes
  pub conditions : PostConditions
  pub payload : TransactionPayload

-- Six parsers that succeed one after the other, in the order in which they are listed.
abbrev pub in_sequence :
    (Bytes → IResult TransactionVersion)
    → (Bytes → IResult ℕ)
    → (Bytes → IResult TransactionAuth)
    → (Bytes → IResult Bytes)
    → (Bytes → IResult PostConditions)
    → (Bytes → IResult TransactionPayload)
    → Bytes
    → IResult TxTuple
in_sequence version chain_id auth modes conditions payload bytes = do
  (r1, a1) ← version bytes
  (r2, a2) ← chain_id r1
  (r3, a3) ← auth r2
  (r4, a4) ← modes r3
  (r5, a5) ← conditions r4
  (r6, a6) ← payload r5
  ok (
    r6,
    record { version = a1; chain_id = a2; auth = a3; modes = a4; conditions = a5; payload = a6 },
  )

-- nom's `permutation` on a tuple of six parsers. It applies them in any order that succeeds, and
-- tries first the first one that is left.
pub record Permutation : Type 0 where
  pub permutation :
      (Bytes → IResult TransactionVersion)
      → (Bytes → IResult ℕ)
      → (Bytes → IResult TransactionAuth)
      → (Bytes → IResult Bytes)
      → (Bytes → IResult PostConditions)
      → (Bytes → IResult TransactionPayload)
      → Bytes
      → IResult TxTuple
  pub permutation_law :
      (version : Bytes → IResult TransactionVersion) (chain_id : Bytes → IResult ℕ)
      (auth : Bytes → IResult TransactionAuth) (modes : Bytes → IResult Bytes)
      (conditions : Bytes → IResult PostConditions) (payload : Bytes → IResult TransactionPayload)
      (bytes : Bytes) (r : Bytes × TxTuple)
      → in_sequence version chain_id auth modes conditions payload bytes ≡ ok r
      → permutation version chain_id auth modes conditions payload bytes ≡ ok r

module _ ⦃crates : Crates⦄ where
  -- `Transaction::from`
  unfoldable pub from_tuple : Bytes → TxTuple → Result Transaction
  from_tuple raw tuple = do
    modes ← crates.array_ref 0 2 tuple.modes
    ok (record {
      version = tuple.version;
      chain_id = tuple.chain_id;
      transaction_auth = tuple.auth;
      transaction_modes = modes;
      post_conditions = tuple.conditions;
      payload = tuple.payload;
      signer = invalid;
      remainder = raw;
    })

  -- The `match` on the result: every error is one error.
  abbrev pub checked : IResult TxTuple → Result Transaction
  checked (ok (raw, tuple)) =
      if Payload.is_token_transfer_payload tuple.payload && not (Auth.is_standard_auth tuple.auth)
      then err parser_invalid_transaction_payload
      else from_tuple raw tuple
  checked (err _) = err parser_unexpected_error
  checked panic = panic
  checked out_of_fuel = out_of_fuel

module _ ⦃crates : Crates⦄ ⦃iterator : Iterator⦄ where
  unfoldable pub from_bytes : ⦃p : Permutation⦄ → Bool → Bytes → Result Transaction
  unfolding from_tuple
  from_bytes ⦃p⦄ expert bytes = checked (
      p.permutation TransactionVersion.from_bytes crates.be_u32 Auth.from_bytes (crates.take 2)
        PostConditions.from_bytes (Payload.payload_from_bytes expert) bytes)
