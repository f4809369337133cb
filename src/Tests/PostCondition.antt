-- ===== src/Tests/PostCondition.antt =====
-- The theorems on post-conditions at concrete inputs.
use ledger_stacks.Base.{◌≡◌, refl, [], ◌∷◌, ◌++◌, arith}
use ledger_stacks.Error.{ok}
use ledger_stacks.Tests.Data.{name-is_ascii, crates, iterator, gives_asset, pays_stx, pays_tokens}
use ledger_stacks.PostCondition.Principal
use ledger_stacks.PostCondition.Principal.{read_bytes_of}
use ledger_stacks.PostCondition.Condition
use ledger_stacks.PostCondition.Condition.{
  inner, is_origin_principal, is_standard_principal, is_contract_principal,
}
use ledger_stacks.PostCondition.Condition.Wire.{condition, encode, principal}
use ledger_stacks.PostCondition.Condition.RoundTrip.{condition-from_bytes-encode}
use ledger_stacks.PostCondition.Condition.Agree.{type_byte, read_as_bytes-from_bytes}
use ledger_stacks.PostCondition.Condition.Fields.{
  ShowsFields, fields-encode, principal_tests-condition,
}
use ledger_stacks.Transaction.PostConditions
use ledger_stacks.Transaction.PostConditions.RoundTrip
use ledger_stacks.Transaction.PostConditions.RoundTrip.{from_bytes-encode-All, encodings}

condition-from_bytes-encode_example :
    Condition.from_bytes (encode gives_asset ++ 1 ∷ []) ≡ ok (1 ∷ [], condition gives_asset)
condition-from_bytes-encode_example =
    condition-from_bytes-encode gives_asset (1 ∷ [])
      (refl, (((refl, (omega arith, name-is_ascii)), omega arith), (omega arith, omega arith)))
      (omega arith)

fields-encode_example : ShowsFields (condition pays_tokens) pays_tokens
fields-encode_example = fields-encode pays_tokens (
  (refl, (omega arith, name-is_ascii)),
  (((refl, (omega arith, name-is_ascii)), omega arith), omega arith),
)

principal_tests-condition_example :
    (is_origin_principal (condition pays_tokens) ≡ ok (Principal.is_origin (principal pays_tokens)))
    × ((is_standard_principal (condition pays_tokens)
          ≡ ok (Principal.is_standard (principal pays_tokens)))
        × (is_contract_principal (condition pays_tokens)
            ≡ ok (Principal.is_origin (principal pays_tokens))))
principal_tests-condition_example = principal_tests-condition pays_tokens

read_as_bytes-from_bytes_example :
    Condition.read_as_bytes (encode pays_stx ++ 1 ∷ [])
    ≡ ok (1 ∷ [], type_byte (condition pays_stx) ∷ inner (condition pays_stx))
read_as_bytes-from_bytes_example =
    read_as_bytes-from_bytes (encode pays_stx ++ 1 ∷ []) (1 ∷ []) (condition pays_stx) (omega arith)
      (condition-from_bytes-encode pays_stx (1 ∷ []) (tt, omega arith) (omega arith))

from_bytes-encode-All_example :
    PostConditions.from_bytes (RoundTrip.encode (pays_stx ∷ []) ++ 1 ∷ [])
    ≡ ok (1 ∷ [], record { conditions = encodings (pays_stx ∷ []); num_items = 3; current_idx = 0 })
from_bytes-encode-All_example =
    from_bytes-encode-All (pays_stx ∷ []) (1 ∷ []) ((tt, omega arith), tt) (omega arith)
      (omega arith)
