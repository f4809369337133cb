-- ===== src/Auth.antt =====
-- app/rust/src/parser/transaction_auth.rs: `TransactionAuth`, the origin's condition and, for a
-- sponsored transaction, the sponsor's.
pub mod Wire
pub mod Signers
pub mod Sighash
use ledger_stacks.Base.{
  ℕ, ◌+◌, ◌-◌, ◌++◌, length, ltb, ◌==◌, ◌||◌, Bool, true, false, Option, none, some, if◌then◌else◌,
  take, drop, replicate, bytes_eq,
}
use ledger_stacks.Error.{Result, ok, err, ◌>>=◌, parser_invalid_auth_type, parser_no_data}
use ledger_stacks.Slice.{slice_from}
use ledger_stacks.Crates.{Crates, Bytes, IResult}
use ledger_stacks.Common.HashMode.{SignerId, origin, sponsor, invalid}
use ledger_stacks.Spending.Signer.{SpendingConditionSigner}
use ledger_stacks.Spending.Condition
use ledger_stacks.Spending.Condition.{TransactionSpendingCondition}

abbrev pub sponsor_sentinel_len : ℕ
sponsor_sentinel_len = 21 + 16 + 66

pub data TransactionAuth : Type 0 where
  standard : TransactionSpendingCondition → TransactionAuth
  sponsored : TransactionSpendingCondition → TransactionSpendingCondition → TransactionAuth

unfoldable pub is_standard_auth : TransactionAuth → Bool
is_standard_auth (standard _) = true
is_standard_auth (sponsored _ _) = false

unfoldable pub is_multisig : TransactionAuth → Bool
is_multisig (standard o) = Condition.is_multisig o
is_multisig (sponsored o _) = Condition.is_multisig o

unfoldable pub origin_signer : TransactionAuth → SpendingConditionSigner
origin_signer (standard o) = o.signer
origin_signer (sponsored o _) = o.signer

unfoldable pub sponsor_signer : TransactionAuth → Option SpendingConditionSigner
sponsor_signer (standard _) = none
sponsor_signer (sponsored _ s) = some s.signer

unfoldable pub num_spending_conditions : TransactionAuth → ℕ
num_spending_conditions a = if is_standard_auth a then 1 else 2

unfoldable pub check_signer : TransactionAuth → Bytes → Result SignerId
check_signer (standard o) signer_pk = do
  hash ← Condition.signer_pub_key_hash o
  if bytes_eq signer_pk hash || Condition.is_multisig o then ok origin else ok invalid
check_signer (sponsored o s) signer_pk = do
  hash ← Condition.signer_pub_key_hash o
  if bytes_eq signer_pk hash then ok origin else do
    sponsor_hash ← Condition.signer_pub_key_hash s
    if bytes_eq signer_pk sponsor_hash then ok sponsor else ok invalid

-- The buffer after the call, and the number of bytes that the caller is told.
unfoldable pub write_sponsor_sentinel : Bytes → Result (Bytes × ℕ)
write_sponsor_sentinel buf =
    if ltb (length buf) sponsor_sentinel_len
    then err parser_no_data
    else ok
        (replicate sponsor_sentinel_len 0 ++ drop sponsor_sentinel_len buf, sponsor_sentinel_len)

module _ ⦃crates : Crates⦄ where
  abbrev pub standard_from_bytes : Bytes → IResult TransactionAuth
  standard_from_bytes bytes = do (rem, o) ← Condition.from_bytes bytes; ok (rem, standard o)

  abbrev pub sponsored_from_bytes : Bytes → IResult TransactionAuth
  sponsored_from_bytes bytes = do
    (rem, o) ← Condition.from_bytes bytes
    (rem', s) ← Condition.from_bytes rem
    ok (rem', sponsored o s)

  unfoldable pub from_bytes : Bytes → IResult TransactionAuth
  from_bytes bytes = do
    (rem, auth_type) ← crates.le_u8 bytes
    if auth_type == 0x04
        then standard_from_bytes rem
        else if auth_type == 0x05
        then sponsored_from_bytes rem
        else err parser_invalid_auth_type

  unfoldable pub origin_fee : TransactionAuth → Result ℕ
  origin_fee (standard o) = Condition.fee o
  origin_fee (sponsored o _) = Condition.fee o

  unfoldable pub origin_nonce : TransactionAuth → Result ℕ
  origin_nonce (standard o) = Condition.nonce o
  origin_nonce (sponsored o _) = Condition.nonce o

  unfoldable pub sponsor_fee : TransactionAuth → Result (Option ℕ)
  sponsor_fee (standard _) = ok none
  sponsor_fee (sponsored _ s) = do n ← Condition.fee s; ok (some n)

  unfoldable pub sponsor_nonce : TransactionAuth → Result (Option ℕ)
  sponsor_nonce (standard _) = ok none
  sponsor_nonce (sponsored _ s) = do n ← Condition.nonce s; ok (some n)

  -- The sentinel is written behind the origin's part; the length is the sentinel's.
  unfoldable pub initial_sighash_auth : TransactionAuth → Bytes → Result (Bytes × ℕ)
  initial_sighash_auth (standard o) buf = Condition.init_sighash o buf
  initial_sighash_auth (sponsored o _) buf = do
    (buf', len) ← Condition.init_sighash o buf
    tail ← slice_from len buf'
    (tail', n) ← write_sponsor_sentinel tail
    ok (take len buf' ++ tail', n)
