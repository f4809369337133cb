-- ===== src/Spending/Condition.antt =====
-- spending_condition.rs: `TransactionSpendingCondition`, a signer with its signature.
pub mod RoundTrip
pub mod WellFormed
pub mod Sighash
use ledger_stacks.Base.{
  ℕ, ◌+◌, ◌≡◌, refl, ◌++◌, [], length, not, leb, ◌&&◌, Bool, true, false, Option, none, some,
  if◌then◌else◌, replicate, drop,
}
use ledger_stacks.Error.{
  Result, ok, err, panic, out_of_fuel, ◌>>=◌, parser_invalid_pubkey_encoding, parser_no_data,
  ParserError,
}
use ledger_stacks.Crates.{Crates, Bytes, IResult, to_be}
use ledger_stacks.Common.HashMode
use ledger_stacks.Common.HashMode.{HashMode, p2pkh, p2sh, p2wpkh, p2wsh}
use ledger_stacks.Error.{to_option, ok_or, unwrap_or}
use ledger_stacks.Spending.Signer
use ledger_stacks.Spending.Signer.{SpendingConditionSigner}
use ledger_stacks.Spending.Singlesig
use ledger_stacks.Spending.Singlesig.{SinglesigSpendingCondition, key_encoding, is_valid_hash_mode}
use ledger_stacks.Spending.Multisig
use ledger_stacks.Spending.Multisig.{MultisigSpendingCondition}

pub data SpendingConditionSignature : Type 0 where
  singlesig : SinglesigSpendingCondition → SpendingConditionSignature
  multisig : MultisigSpendingCondition → SpendingConditionSignature

pub record TransactionSpendingCondition : Type 0 where
  pub signer : SpendingConditionSigner
  pub signature : SpendingConditionSignature

abbrev pub standard_singlesig_auth_len : ℕ
standard_singlesig_auth_len = 82

abbrev pub standard_multisig_auth_len : ℕ
standard_multisig_auth_len = 22

unfoldable pub is_singlesig : TransactionSpendingCondition → Bool
is_singlesig c = elim c.signature [ singlesig _ ↦ true | multisig _ ↦ false ]

unfoldable pub is_multisig : TransactionSpendingCondition → Bool
is_multisig c = elim c.signature [ singlesig _ ↦ false | multisig _ ↦ true ]

unfoldable pub signer_pub_key_hash : TransactionSpendingCondition → Result Bytes
signer_pub_key_hash c = Signer.pub_key_hash c.signer

-- `SpendingConditionSignature::clear_signature`
unfoldable pub clear_signature : SpendingConditionSignature → Result SpendingConditionSignature
clear_signature (singlesig s) = ok (singlesig (Singlesig.clear_signature s))
clear_signature (multisig m) = do m' ← Multisig.clear_signature m; ok (multisig m')

module _ ⦃crates : Crates⦄ where
  abbrev pub read_singlesig : HashMode → Bytes → IResult SpendingConditionSignature
  read_singlesig mode raw = do
    (raw', sig) ← Singlesig.from_bytes raw
    encoding ← key_encoding sig
    if not (is_valid_hash_mode encoding mode)
        then err parser_invalid_pubkey_encoding
        else ok (raw', singlesig sig)

  abbrev pub read_multisig : Bytes → IResult SpendingConditionSignature
  read_multisig raw = do (raw', sig) ← Multisig.from_bytes raw; ok (raw', multisig sig)

  -- The `match` on the hash mode.
  abbrev pub read_signature : HashMode → Bytes → IResult SpendingConditionSignature
  read_signature p2pkh raw = read_singlesig p2pkh raw
  read_signature p2wpkh raw = read_singlesig p2wpkh raw
  read_signature p2wsh raw = read_multisig raw
  read_signature p2sh raw = read_multisig raw

  unfoldable pub from_bytes : Bytes → IResult TransactionSpendingCondition
  from_bytes bytes = do
    (raw, signer) ← Signer.from_bytes bytes
    hash_mode ← Signer.hash_mode signer
    (leftover, signature) ← read_signature hash_mode raw
    ok (leftover, record { signer = signer; signature = signature })

  unfoldable pub nonce : TransactionSpendingCondition → Result ℕ
  nonce c = unwrap_or 0 (Signer.nonce c.signer)

  unfoldable pub fee : TransactionSpendingCondition → Result ℕ
  fee c = unwrap_or 0 (Signer.fee c.signer)

  unfoldable pub num_auth_fields : TransactionSpendingCondition → Result (Option ℕ)
  num_auth_fields c = elim c.signature [
    | singlesig _ ↦ ok none
    | multisig sig ↦ to_option (Multisig.num_fields sig)
  ]

  -- Of the signature alone.
  unfoldable pub signature_required : SpendingConditionSignature → Result (Option ℕ)
  signature_required (multisig sig) = to_option (Multisig.required_signatures sig)
  signature_required _ = ok none

  unfoldable pub required_signatures : TransactionSpendingCondition → Result (Option ℕ)
  required_signatures c = elim c.signature [
    | singlesig _ ↦ ok none
    | multisig sig ↦ to_option (Multisig.required_signatures sig)
  ]

  -- The buffer after the call, and the number of bytes that it holds.
  unfoldable pub init_sighash : TransactionSpendingCondition → Bytes → Result (Bytes × ℕ)
  init_sighash c buf =
      if is_singlesig c && leb standard_singlesig_auth_len (length buf)
      then ok (
        replicate standard_singlesig_auth_len 0 ++ drop standard_singlesig_auth_len buf,
        standard_singlesig_auth_len,
      )
      else if is_multisig c && leb standard_multisig_auth_len (length buf)
      then (do
        found ← required_signatures c
        count ← ok_or parser_no_data found
        ok (
          replicate 20 0 ++ (to_be 2 count ++ drop standard_multisig_auth_len buf),
          standard_multisig_auth_len,
        ))
      else err parser_no_data
