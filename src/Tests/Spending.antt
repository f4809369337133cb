-- ===== src/Tests/Spending.antt =====
-- The theorems on signers, signatures and authorizations at concrete inputs.
use ledger_stacks.Base.{
  ◌≡◌, refl, ◌+◌, [], ◌∷◌, ◌++◌, length, arith, replicate, drop, take, get_elem?, true,
}
use ledger_stacks.Error.{ok}
use ledger_stacks.Common.HashMode
use ledger_stacks.Common.HashMode.{origin}
use ledger_stacks.Common.Limits.{signature_len}
use ledger_stacks.Tests.Data.{parsed, checked, crates, hash, account, fields, together}
use ledger_stacks.Spending.Signer
use ledger_stacks.Spending.Signer.{
  SpendingConditionSigner, signer-encode, hash_mode, pub_key_hash, nonce, fee,
}
use ledger_stacks.Spending.Singlesig
use ledger_stacks.Spending.Singlesig.{
  SinglesigSpendingCondition, clear_signature, clear_signature-bytes,
}
use ledger_stacks.Spending.Multisig
use ledger_stacks.Spending.Multisig.{MultisigSpendingCondition}
use ledger_stacks.Spending.Multisig.Fields
use ledger_stacks.Spending.Multisig.Fields.{multisig_from_bytes-encode}
use ledger_stacks.Spending.Condition
use ledger_stacks.Spending.Condition.{
  TransactionSpendingCondition, singlesig, init_sighash, standard_singlesig_auth_len,
}
use ledger_stacks.Spending.Condition.RoundTrip
use ledger_stacks.Spending.Condition.RoundTrip.{spending_from_bytes-encode}
use ledger_stacks.Spending.Condition.WellFormed.{IsWellFormed, from_bytes-IsWellFormed}
use ledger_stacks.Spending.Condition.Sighash.{FrontWritten, init_sighash_writes}
use ledger_stacks.Auth
use ledger_stacks.Auth.{
  TransactionAuth, standard, sponsored, initial_sighash_auth, sponsor_sentinel_len,
}
use ledger_stacks.Auth.Wire
use ledger_stacks.Auth.Wire.{auth_from_bytes-encode}
use ledger_stacks.Auth.Signers.{Entitles, check_signer-Entitles}
use ledger_stacks.Auth.Sighash.{sponsored_sighash}

parsed_run : Condition.from_bytes (RoundTrip.encode account) ≡ ok ([], parsed)
unfolding Condition.from_bytes Signer.from_bytes Singlesig.from_bytes Signer.hash_mode
    HashMode.try_from Singlesig.key_encoding Singlesig.is_valid_hash_mode
parsed_run = refl

parsed-is_singlesig : Condition.is_singlesig parsed ≡ true
unfolding Condition.is_singlesig
parsed-is_singlesig = refl

filled : init_sighash parsed (replicate 90 1) ≡ ok (replicate 82 0 ++ replicate 8 1, 82)
unfolding init_sighash Condition.is_singlesig
filled = refl

clear_signature-bytes_example :
    (take signature_len (clear_signature (record { bytes = replicate 66 1 })).bytes
      ≡ replicate signature_len 0)
    × ((get_elem? (clear_signature (record { bytes = replicate 66 1 })).bytes signature_len
          ≡ get_elem? (replicate 66 1) signature_len)
        × Singlesig.IsValid (clear_signature (record { bytes = replicate 66 1 })))
clear_signature-bytes_example = clear_signature-bytes (record { bytes = replicate 66 1 }) refl

multisig_from_bytes-encode_example :
    (m : MultisigSpendingCondition) × ((Multisig.from_bytes (Fields.encode fields 1 ++ 1 ∷ [])
        ≡ ok (1 ∷ [], m))
      × ((Multisig.num_fields m ≡ ok (length fields)) × (Multisig.required_signatures m ≡ ok 1)))
multisig_from_bytes-encode_example =
    multisig_from_bytes-encode fields 1 (1 ∷ []) ((refl, tt), (omega arith, omega arith))

spending_from_bytes-encode_example :
    (c : TransactionSpendingCondition) × ((Condition.from_bytes (RoundTrip.encode account ++ 1 ∷ [])
        ≡ ok (1 ∷ [], c))
      × RoundTrip.Shows c account)
spending_from_bytes-encode_example =
    spending_from_bytes-encode account (1 ∷ []) ((refl, (omega arith, omega arith)), refl)

from_bytes-IsWellFormed_example : IsWellFormed parsed
from_bytes-IsWellFormed_example =
    from_bytes-IsWellFormed (RoundTrip.encode account) [] parsed parsed_run

auth_from_bytes-encode_example :
    (a : TransactionAuth) × ((Auth.from_bytes (Wire.encode together ++ 1 ∷ []) ≡ ok (1 ∷ [], a))
      × Wire.Shows a together)
auth_from_bytes-encode_example = auth_from_bytes-encode together (1 ∷ []) (
  ((refl, (omega arith, omega arith)), refl),
  ((refl, (omega arith, omega arith)), ((refl, tt), (omega arith, omega arith))),
)

sponsored_sighash_example :
    initial_sighash_auth (sponsored parsed parsed) (replicate 200 1)
    ≡ ok (
      replicate (standard_singlesig_auth_len + sponsor_sentinel_len) 0
          ++ drop (standard_singlesig_auth_len + sponsor_sentinel_len) (replicate 200 1),
      sponsor_sentinel_len,
    )
sponsored_sighash_example =
    sponsored_sighash parsed parsed (replicate 200 1) parsed-is_singlesig (omega arith)

init_sighash_writes_example : FrontWritten (replicate 90 1) (replicate 82 0 ++ replicate 8 1) 82
init_sighash_writes_example =
    init_sighash_writes parsed (replicate 90 1) (replicate 82 0 ++ replicate 8 1) 82 filled

check_signer-Entitles_example : Entitles (standard parsed) hash origin
check_signer-Entitles_example = check_signer-Entitles (standard parsed) hash origin checked
