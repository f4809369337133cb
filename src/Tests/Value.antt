-- ===== src/Tests/Value.antt =====
-- The theorems on values, names and principals at concrete inputs.
use ledger_stacks.Base.{◌≡◌, [], ◌∷◌, ◌++◌, arith}
use ledger_stacks.Error.{ok, Returns}
use ledger_stacks.Value.Len.{value_len}
use ledger_stacks.Value.Len.Exact.{value_len-encode}
use ledger_stacks.Value.Len.Total.{Returns-value_len}
use ledger_stacks.Value.Encoding.{encode}
use ledger_stacks.Tests.Data.{crates, one_some}
use ledger_stacks.Value.Encoding.{list}
use ledger_stacks.Value.Parse
use ledger_stacks.Value.Parse.{value_from_bytes-encode}
use ledger_stacks.Value.Nesting.{
  alternating, empty_lists, nesting, alternating_accepted, empty_lists_refused,
}
use ledger_stacks.Base.{◌≤◌, ◌*◌, ◌+◌, length}
use ledger_stacks.Error.{err, parser_recursion_limit}

value_len-encode_example : value_len 3 (encode one_some ++ 9 ∷ []) ≡ ok 18
value_len-encode_example =
    value_len-encode 3 one_some (9 ∷ []) (omega arith) (omega arith) (omega arith)

Returns-value_len_example : Returns (value_len 3 (0x0b ∷ 0 ∷ 0 ∷ 0 ∷ 200 ∷ []))
Returns-value_len_example = Returns-value_len 3 (0x0b ∷ 0 ∷ 0 ∷ 0 ∷ 200 ∷ [])

value_from_bytes-encode_example :
    Parse.from_bytes 3 (encode one_some ++ 9 ∷ []) ≡ ok (9 ∷ [], record { bytes = encode one_some })
value_from_bytes-encode_example =
    value_from_bytes-encode 3 one_some (9 ∷ []) (omega arith) (omega arith) (omega arith)

alternating_accepted_example :
    (nesting (alternating 2) ≡ 2 * 2 + 1)
    × (value_len 0 (encode (alternating 2)) ≡ ok (length (encode (alternating 2))))
alternating_accepted_example = alternating_accepted 0 2 (omega arith) (omega arith)

empty_lists_refused_example :
    (nesting (list (empty_lists 4)) ≤ 2)
    × (value_len 3 (encode (list (empty_lists 4))) ≡ err parser_recursion_limit)
empty_lists_refused_example = empty_lists_refused 3 4 (omega arith) (omega arith) (omega arith)
