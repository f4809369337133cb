-- ===== src/Tests/Transaction.antt =====
-- The theorems on payloads and on whole transactions at concrete inputs.
use ledger_stacks.Base.{◌≡◌, refl, [], ◌∷◌, ◌++◌, arith, false, ◌&&◌, not, if◌then◌else◌}
use ledger_stacks.Error.{ok, err, parser_invalid_transaction_payload}
use ledger_stacks.Common.HashMode.{invalid}
use ledger_stacks.Crates.{Bytes}
use ledger_stacks.Tests.Data.{name-is_ascii, parsed, crates, iterator, transfer, preamble}
use ledger_stacks.Auth
use ledger_stacks.Auth.{TransactionAuth}
use ledger_stacks.Auth.Wire
use ledger_stacks.Payload
use ledger_stacks.Payload.{token_transfer, smart_contract}
use ledger_stacks.Payload.TokenTransfer
use ledger_stacks.Payload.TokenTransfer.{StxTokenTransfer}
use ledger_stacks.Payload.TokenTransfer.RoundTrip
use ledger_stacks.Payload.TokenTransfer.RoundTrip.{transfer_from_bytes-encode}
use ledger_stacks.Transaction.State.{Transaction, read}
use ledger_stacks.Transaction.Read
use ledger_stacks.Transaction.Read.{kept, read-guard, read-encode, read-guard}
use ledger_stacks.Transaction.FromBytes
use ledger_stacks.Transaction.FromBytes.{Permutation, TxTuple, in_sequence}
use ledger_stacks.Transaction.FromBytes.Agree.{
  parts_of, result_of, parts_of-encode, from_bytes-read,
}

transfer_from_bytes-encode_example :
    (t : StxTokenTransfer) × ((TokenTransfer.from_bytes (RoundTrip.encode transfer ++ 1 ∷ [])
        ≡ ok (1 ∷ [], t))
      × RoundTrip.Shows t transfer)
transfer_from_bytes-encode_example =
    transfer_from_bytes-encode transfer (1 ∷ []) (refl, (omega arith, refl))

abbrev contract : Payload.TransactionPayload
contract = smart_contract (record { bytes = 2 ∷ b'a' ∷ b'b' ∷ [] })

abbrev unread : TransactionAuth → Transaction
unread a = record {
  version = preamble.version;
  chain_id = 0;
  transaction_auth = a;
  transaction_modes = [];
  post_conditions = kept [];
  payload = contract;
  signer = invalid;
  remainder = [];
}

abbrev signed : TransactionAuth
signed = TransactionAuth.standard parsed

read_payload_run : Payload.payload_from_bytes false (1 ∷ 2 ∷ b'a' ∷ b'b' ∷ []) ≡ ok ([], contract)
unfolding Payload.payload_from_bytes Payload.id_from_u8
read_payload_run = refl

preamble-IsValid : Read.IsValid preamble
preamble-IsValid = (
  omega arith,
  (
    ((refl, (omega arith, omega arith)), refl),
    (
      refl,
      (
        (
          (tt, omega arith),
          (
            (
              (refl, (omega arith, name-is_ascii)),
              (((refl, (omega arith, name-is_ascii)), omega arith), omega arith),
            ),
            tt,
          ),
        ),
        omega arith,
      ),
    ),
  ),
)

read-encode_example :
    (a : TransactionAuth) × (Wire.Shows a preamble.authorization
      × (read false (unread signed) (Read.encode preamble (1 ∷ 2 ∷ b'a' ∷ b'b' ∷ [])) ≡ (
          if Payload.is_token_transfer_payload contract && not (Auth.is_standard_auth a)
          then (
            record {
              version = preamble.version;
              chain_id = preamble.chain;
              transaction_auth = a;
              transaction_modes = preamble.modes;
              post_conditions = kept preamble.conditions;
              payload = contract;
              signer = (unread signed).signer;
              remainder = [];
            },
            err parser_invalid_transaction_payload,
          )
          else (
            record {
              version = preamble.version;
              chain_id = preamble.chain;
              transaction_auth = a;
              transaction_modes = preamble.modes;
              post_conditions = kept preamble.conditions;
              payload = contract;
              signer = invalid;
              remainder = [];
            },
            ok tt,
          ))))
read-encode_example =
    read-encode false (unread signed) preamble (1 ∷ 2 ∷ b'a' ∷ b'b' ∷ []) [] contract
      preamble-IsValid (omega arith) read_payload_run

abbrev whole : Bytes
whole = Read.encode preamble (1 ∷ 2 ∷ b'a' ∷ b'b' ∷ [])

abbrev after : TransactionAuth → Transaction
after a = record {
  version = preamble.version;
  chain_id = preamble.chain;
  transaction_auth = a;
  transaction_modes = preamble.modes;
  post_conditions = kept preamble.conditions;
  payload = contract;
  signer = invalid;
  remainder = [];
}

read_run : (a : TransactionAuth) × (read false (unread signed) whole ≡ (after a, ok tt))
unfolding Payload.is_token_transfer_payload
read_run =
    let (a, (_, e)) =
      read-encode false (unread signed) preamble (1 ∷ 2 ∷ b'a' ∷ b'b' ∷ []) [] contract
        preamble-IsValid (omega arith) read_payload_run in
    (a, e)

read-guard_example :
    ((Payload.is_token_transfer_payload contract && not (Auth.is_standard_auth read_run.0)) ≡ false)
    × (invalid ≡ invalid)
read-guard_example = read-guard false (unread signed) (after read_run.0) whole read_run.1

-- The parsers one after the other, and in no other order.
instance abbrev one_after_one : Permutation
one_after_one = record {
  permutation = in_sequence;
  permutation_law = λ version chain_id auth modes conditions payload bytes r h. h;
}

abbrev parts : TransactionAuth → Bytes × TxTuple
parts a = (
  [],
  record {
    version = preamble.version;
    chain_id = preamble.chain;
    auth = a;
    modes = preamble.modes;
    conditions = kept preamble.conditions;
    payload = contract;
  },
)

whole_run : (a : TransactionAuth) × (parts_of false whole ≡ ok (parts a))
whole_run =
    parts_of-encode false preamble (1 ∷ 2 ∷ b'a' ∷ b'b' ∷ []) [] contract preamble-IsValid
      (omega arith) read_payload_run

from_bytes-read_example :
    FromBytes.from_bytes false whole ≡ result_of (read false (unread signed) whole)
from_bytes-read_example =
    from_bytes-read false (unread signed) whole (parts whole_run.0) whole_run.1
