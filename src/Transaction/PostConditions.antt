-- ===== src/Transaction/PostConditions.antt =====
-- transaction.rs: `PostConditions`, the conditions of a transaction and the one on display.
pub mod RoundTrip
pub mod Display
pub mod Walk
pub mod Moves
pub mod Review
use ledger_stacks.Base.{
  ℕ, ◌+◌, ◌-◌, ◌*◌, ◌/◌, ◌%◌, ◌^◌, ◌≡◌, List, [], ◌∷◌, length, ltb, leb, ◌==◌, ◌&&◌, Option, none,
  some, if◌then◌else◌,
}
use ledger_stacks.Error.{
  Result, ok, err, panic, ◌>>=◌, map_err, parser_value_out_of_range, parser_unexpected_error,
  parser_post_condition_failed,
}
use ledger_stacks.Slice.{index, slice_to}
use ledger_stacks.Crates.{Crates, Iterator, Bytes, IResult}
use ledger_stacks.Common.Bytes.{add_u8, sub_u8}
use ledger_stacks.Common.Limits.{num_supported_post_conditions}
use ledger_stacks.Error.{to_option}
use ledger_stacks.PostCondition.Condition
use ledger_stacks.PostCondition.Condition.{TransactionPostCondition}

pub record PostConditions : Type 0 where
  pub conditions : List Bytes
  pub num_items : ℕ
  pub current_idx : ℕ

-- A division by zero is a panic.
unfoldable pub map_idx : PostConditions → ℕ → ℕ → ℕ → Result ℕ
map_idx p display_idx in_start in_end =
    if sub_u8 in_end in_start == 0
    then panic
    else ok ((p.num_items / sub_u8 in_end in_start * sub_u8 display_idx in_start) % 2 ^ 8)

abbrev pub items_or_none : Option (Bytes × TransactionPostCondition) → ℕ
items_or_none none = 0
items_or_none (some (_, c)) = Condition.num_items c

module _ ⦃crates : Crates⦄ where
  -- The items of the conditions that parse, summed.
  unfoldable pub get_num_items : List Bytes → Result ℕ
  get_num_items [] = ok 0
  get_num_items (bs ∷ conditions) = do
    found ← to_option (Condition.from_bytes bs)
    n ← get_num_items conditions
    ok (add_u8 (items_or_none found) n)

  unfoldable pub current_post_condition : PostConditions → Result TransactionPostCondition
  current_post_condition p = do
    bs ← index p.conditions p.current_idx
    (_, c) ← map_err parser_post_condition_failed (Condition.from_bytes bs)
    ok c

  unfoldable pub get_current_limit : PostConditions → Result ℕ
  get_current_limit p = do before ← slice_to p.current_idx p.conditions; get_num_items before

  -- The conditions after the call, and the index among their items or an error. The index of the
  -- current condition stays incremented when it is too large; other errors come before any change.
  unfoldable pub update_postcondition : PostConditions → ℕ → ℕ → Result (PostConditions × Result ℕ)
  update_postcondition p total_items display_idx = do
    idx ← map_idx p display_idx (sub_u8 total_items p.num_items) total_items
    limit ← get_current_limit p
    current ← current_post_condition p
    if leb (add_u8 limit (Condition.num_items current)) idx
        then (if ltb p.num_items (add_u8 p.current_idx 1)
            then ok (record p { current_idx = add_u8 p.current_idx 1 }, err parser_unexpected_error)
            else ok (record p { current_idx = add_u8 p.current_idx 1 }, ok idx))
        else if ltb idx limit && ltb 0 idx
        then ok (record p { current_idx = sub_u8 p.current_idx 1 }, ok idx)
        else ok (p, ok idx)

module _ ⦃crates : Crates⦄ ⦃iterator : Iterator⦄ where
  unfoldable pub from_bytes : Bytes → IResult PostConditions
  from_bytes bytes = do
    (raw, len) ← crates.be_u32 bytes
    if ltb num_supported_post_conditions len then err parser_value_out_of_range else do
      (rem, conditions) ← iterator.iterate Condition.read_as_bytes len raw
      num_items ← get_num_items conditions
      ok (rem, record { conditions = conditions; num_items = num_items; current_idx = 0 })
