-- ===== src/PostCondition/Display.antt =====
-- post_condition.rs: the lines that a condition shows.
use ledger_stacks.Base.{ℕ, ◌%◌, ◌==◌, Option, none, some, if◌then◌else◌, codes}
use ledger_stacks.Error.{
  Result, ok, err, panic, ok_or, map_err, to_option, ◌>>=◌, parser_invalid_post_condition,
  parser_invalid_fungible_code, parser_invalid_non_fungible_code, parser_invalid_asset_name,
  parser_unexpected_value, parser_unexpected_error, parser_display_idx_out_of_range,
}
use ledger_stacks.Crates.{Crates, Bytes}
use ledger_stacks.Device.{Device}
use ledger_stacks.Format.FixedPoint.{u64_text, fpu64_text}
use ledger_stacks.Format.Item.{Shown, show_item}
use ledger_stacks.Common.Limits.{stx_decimals}
use ledger_stacks.Common.StacksAddress
use ledger_stacks.PostCondition.Principal
use ledger_stacks.PostCondition.Principal.{PostConditionPrincipal, origin, standard, contract}
use ledger_stacks.PostCondition.Codes.{
  FungibleConditionCode, NonfungibleConditionCode, sent_eq, sent_gt, sent_ge, sent_lt, sent_le,
  sent, not_sent,
}
use ledger_stacks.PostCondition.Condition
use ledger_stacks.PostCondition.Condition.{
  TransactionPostCondition, stx, fungible, nonfungible, inner, tokens_amount, amount_stx,
  fungible_condition_code, non_fungible_condition_code, asset_name,
}

unfoldable pub fungible_to_str : FungibleConditionCode → Bytes
fungible_to_str sent_eq = codes "SentEq"
fungible_to_str sent_gt = codes "SentGt"
fungible_to_str sent_ge = codes "SentGe"
fungible_to_str sent_lt = codes "SentLt"
fungible_to_str sent_le = codes "SentLe"

unfoldable pub nonfungible_to_str : NonfungibleConditionCode → Bytes
nonfungible_to_str sent = codes "Sent"
nonfungible_to_str not_sent = codes "NotSent"

abbrev pub origin_address : Result Bytes
origin_address = ok (codes "Origin")

-- An `Option` step: nothing stays nothing.
abbrev pub then_some : {A : Type 0} → Result (Option A) → (A → Result Bytes) → Result (Option Bytes)
then_some found make = do o ← found; elim o [ none ↦ ok none | some a ↦ to_option (make a) ]

module _ ⦃device : Device⦄ where
  unfoldable pub principal_address : PostConditionPrincipal → Result Bytes
  principal_address origin = origin_address
  principal_address (standard a) = StacksAddress.encoded_address a
  principal_address (contract a _) = StacksAddress.encoded_address a

module _ ⦃crates : Crates⦄ where
  unfoldable pub tokens_amount_str : TransactionPostCondition → Result (Option Bytes)
  tokens_amount_str c = then_some (tokens_amount c) u64_text

  unfoldable pub amount_stx_str : TransactionPostCondition → Result (Option Bytes)
  amount_stx_str c = then_some (amount_stx c) λ n. fpu64_text n stx_decimals

  -- `.unwrap()`
  abbrev pub stx_amount_line : TransactionPostCondition → Result Bytes
  stx_amount_line c = do o ← amount_stx_str c; elim o [ none ↦ panic | some text ↦ ok text ]

  abbrev pub fungible_code_line : TransactionPostCondition → Result Bytes
  fungible_code_line c = do
    o ← fungible_condition_code c
    code ← ok_or parser_invalid_fungible_code o
    ok (fungible_to_str code)

  abbrev pub non_fungible_code_line : TransactionPostCondition → Result Bytes
  non_fungible_code_line c = do
    o ← non_fungible_condition_code c
    code ← ok_or parser_invalid_non_fungible_code o
    ok (nonfungible_to_str code)

  abbrev pub asset_name_line : TransactionPostCondition → Result Bytes
  asset_name_line c = do o ← asset_name c; ok_or parser_invalid_asset_name o

  abbrev pub tokens_amount_line : TransactionPostCondition → Result Bytes
  tokens_amount_line c = do o ← tokens_amount_str c; ok_or parser_unexpected_value o

  unfoldable pub get_stx_items : TransactionPostCondition → ℕ → Bytes → Bytes → ℕ → Result Shown
  get_stx_items (stx bs) display_idx out_key out_value page_idx =
      if display_idx == 1
      then show_item (codes "Fungi. Code") (fungible_code_line (stx bs)) out_key out_value page_idx
      else if display_idx == 2
      then show_item (codes "STX amount") (stx_amount_line (stx bs)) out_key out_value page_idx
      else err parser_display_idx_out_of_range
  get_stx_items _ display_idx out_key out_value page_idx = err parser_unexpected_error

  unfoldable pub get_fungible_items :
      TransactionPostCondition → ℕ → Bytes → Bytes → ℕ → Result Shown
  get_fungible_items (fungible bs) display_idx out_key out_value page_idx =
      if display_idx == 1
      then show_item (codes "Asset name") (asset_name_line (fungible bs)) out_key out_value page_idx
      else if display_idx == 2
      then show_item (codes "Fungi. Code") (fungible_code_line (fungible bs)) out_key out_value
          page_idx
      else if display_idx == 3
      then show_item (codes "Token amount") (tokens_amount_line (fungible bs)) out_key out_value
          page_idx
      else err parser_display_idx_out_of_range
  get_fungible_items _ display_idx out_key out_value page_idx = err parser_unexpected_error

  unfoldable pub get_non_fungible_items :
      TransactionPostCondition → ℕ → Bytes → Bytes → ℕ → Result Shown
  get_non_fungible_items (nonfungible bs) display_idx out_key out_value page_idx =
      if display_idx == 1
      then show_item (codes "Asset name") (asset_name_line (nonfungible bs)) out_key out_value
          page_idx
      else if display_idx == 2
      then show_item (codes "NonFungi. Code") (non_fungible_code_line (nonfungible bs)) out_key
          out_value page_idx
      else err parser_display_idx_out_of_range
  get_non_fungible_items _ display_idx out_key out_value page_idx = err parser_unexpected_error

module _ ⦃crates : Crates⦄ ⦃device : Device⦄ where
  unfoldable pub get_principal_address : TransactionPostCondition → Result Bytes
  get_principal_address c = do
    (_, principal) ← map_err parser_invalid_post_condition (Principal.from_bytes (inner c))
    principal_address principal

  unfoldable pub write_principal_address :
      TransactionPostCondition → Bytes → Bytes → ℕ → Result Shown
  write_principal_address c out_key out_value page_idx =
      show_item (codes "Principal") (get_principal_address c) out_key out_value page_idx

  -- The `match` of `get_items` on the kind of condition.
  abbrev pub kind_items : TransactionPostCondition → ℕ → Bytes → Bytes → ℕ → Result Shown
  kind_items (stx bs) = get_stx_items (stx bs)
  kind_items (fungible bs) = get_fungible_items (fungible bs)
  kind_items (nonfungible bs) = get_non_fungible_items (nonfungible bs)

  unfoldable pub get_items : TransactionPostCondition → ℕ → Bytes → Bytes → ℕ → Result Shown
  get_items c display_idx out_key out_value page_idx =
      if display_idx % Condition.num_items c == 0
      then write_principal_address c out_key out_value page_idx
      else kind_items c (display_idx % Condition.num_items c) out_key out_value page_idx
