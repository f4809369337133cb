-- ===== src/Transaction/State.antt =====
-- transaction.rs: `Transaction`, its fields and the steps that fill them.
use ledger_stacks.Base.{
  ℕ, ◌+◌, ◌^◌, length, take, leb, ◌&&◌, not, Bool, Option, none, some, if◌then◌else◌,
}
use ledger_stacks.Error.{
  Result, ok, err, ◌>>=◌, map_err, with_state, parser_unexpected_value, parser_invalid_auth_type,
  parser_unexpected_buffer_end, parser_post_condition_failed, parser_invalid_transaction_payload,
  parser_value_out_of_range, parser_ok, ParserError,
}
use ledger_stacks.Crates.{Crates, Iterator, Bytes}
use ledger_stacks.Common.HashMode.{SignerId, origin, sponsor, invalid}
use ledger_stacks.Common.TransactionVersion
use ledger_stacks.Common.TransactionVersion.{TransactionVersion}
use ledger_stacks.Auth
use ledger_stacks.Auth.{TransactionAuth}
use ledger_stacks.Payload
use ledger_stacks.Payload.{TransactionPayload}
use ledger_stacks.Transaction.PostConditions
use ledger_stacks.Transaction.PostConditions.{PostConditions}

pub record Transaction : Type 0 where
  pub version : TransactionVersion
  pub chain_id : ℕ
  pub transaction_auth : TransactionAuth
  pub transaction_modes : Bytes
  pub post_conditions : PostConditions
  pub payload : TransactionPayload
  pub signer : SignerId
  pub remainder : Bytes

abbrev pub multisig_previous_signer_data_len : ℕ
multisig_previous_signer_data_len = 98

unfoldable pub is_multisig : Transaction → Bool
is_multisig t = Auth.is_multisig t.transaction_auth

-- `TransactionAuthFlags`
pub data TransactionAuthFlags : Type 0 where
  standard_flag sponsored_flag : TransactionAuthFlags

unfoldable pub auth_flag : Transaction → TransactionAuthFlags
auth_flag t = if Auth.is_standard_auth t.transaction_auth then standard_flag else sponsored_flag

unfoldable pub previous_signer_data : Transaction → Option Bytes
previous_signer_data t =
    if is_multisig t && leb multisig_previous_signer_data_len (length t.remainder)
    then some (take multisig_previous_signer_data_len t.remainder)
    else none

-- The answer, with the transaction after the call.
unfoldable pub check_signer_pk_hash : Transaction → Bytes → Result (Transaction × ParserError)
check_signer_pk_hash t signer_pk = do
  id ← Auth.check_signer t.transaction_auth signer_pk
  ok (record t { signer = id }, elim id [ invalid ↦ parser_invalid_auth_type | _ ↦ parser_ok ])

module _ ⦃crates : Crates⦄ where
  unfoldable pub read_header : Transaction → Result Transaction
  read_header t = do
    (next_data, version) ←
        map_err parser_unexpected_value (TransactionVersion.from_bytes t.remainder)
    (next_data', chain_id) ← map_err parser_unexpected_value (crates.be_u32 next_data)
    ok (record t { version = version; chain_id = chain_id; remainder = next_data' })

  unfoldable pub read_auth : Transaction → Result Transaction
  read_auth t = do
    (next_data, auth) ← map_err parser_invalid_auth_type (Auth.from_bytes t.remainder)
    ok (record t { transaction_auth = auth; remainder = next_data })

  unfoldable pub read_transaction_modes : Transaction → Result Transaction
  read_transaction_modes t = do
    (raw, _) ← map_err parser_unexpected_buffer_end (crates.take 2 t.remainder)
    modes ← crates.array_ref 0 2 t.remainder
    ok (record t { transaction_modes = modes; remainder = raw })

  unfoldable pub read_payload : Bool → Transaction → Result Transaction
  read_payload expert t = do
    (raw, payload) ←
        map_err parser_invalid_transaction_payload (Payload.payload_from_bytes expert t.remainder)
    ok (record t { payload = payload; remainder = raw })

  -- Nonce, origin, fee, the payload's items and those of the conditions, added with checks.
  unfoldable pub num_items : Bool → Transaction → Result ℕ
  num_items expert t = do
    n ← Payload.num_items expert t.payload
    if leb (2 ^ 8) (3 + n)
        then err parser_value_out_of_range
        else if leb (2 ^ 8) (3 + n + t.post_conditions.num_items)
        then err parser_value_out_of_range
        else ok (3 + n + t.post_conditions.num_items)

  unfoldable pub origin_fee : Transaction → Result ℕ
  origin_fee t = Auth.origin_fee t.transaction_auth

  unfoldable pub origin_nonce : Transaction → Result ℕ
  origin_nonce t = Auth.origin_nonce t.transaction_auth

  unfoldable pub sponsor_fee : Transaction → Result (Option ℕ)
  sponsor_fee t = Auth.sponsor_fee t.transaction_auth

  unfoldable pub sponsor_nonce : Transaction → Result (Option ℕ)
  sponsor_nonce t = Auth.sponsor_nonce t.transaction_auth

  unfoldable pub nonce : Transaction → Result (Option ℕ)
  nonce t = elim t.signer [
    | origin ↦ Auth.origin_nonce t.transaction_auth >>= λ n. ok (some n)
    | sponsor ↦ Auth.sponsor_nonce t.transaction_auth
    | invalid ↦ ok none
  ]

  unfoldable pub fee : Transaction → Result (Option ℕ)
  fee t = elim t.signer [
    | origin ↦ Auth.origin_fee t.transaction_auth >>= λ n. ok (some n)
    | sponsor ↦ Auth.sponsor_fee t.transaction_auth
    | invalid ↦ ok none
  ]

module _ ⦃crates : Crates⦄ ⦃iterator : Iterator⦄ where
  unfoldable pub read_post_conditions : Transaction → Result Transaction
  read_post_conditions t = do
    (raw, conditions) ← map_err parser_post_condition_failed (PostConditions.from_bytes t.remainder)
    ok (record t { post_conditions = conditions; remainder = raw })

  -- The transaction after the call and the answer. The steps change nothing when they fail, and what
  -- the steps before have written stays. A token transfer must not be sponsored.
  unfoldable pub read : Bool → Transaction → Bytes → Transaction × Result (Unit {0})
  read expert t bytes =
      let t0 = record t { remainder = bytes } in
      with_state t0 (read_header t0) λ t1. with_state t1 (read_auth t1) λ t2.
        with_state t2 (read_transaction_modes t2) λ t3.
          with_state t3 (read_post_conditions t3) λ t4. with_state t4 (read_payload expert t4) λ t5.
            if Payload.is_token_transfer_payload t5.payload
              && not (Auth.is_standard_auth t5.transaction_auth)
            then (t5, err parser_invalid_transaction_payload)
            else (record t5 { signer = invalid }, ok tt)
