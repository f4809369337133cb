-- ===== src/Transaction/Items.antt =====
-- transaction.rs: the lines that a transaction shows.
pub mod Lines
pub mod Conditions
pub mod Arguments
pub mod Checked
use ledger_stacks.Base.{ℕ, ◌==◌, ltb, leb, Bool, Option, if◌then◌else◌, codes}
use ledger_stacks.Error.{
  Result, with_state, ok, err, panic, ok_or, ◌>>=◌, parser_invalid_auth_type,
  parser_display_idx_out_of_range,
}
use ledger_stacks.Crates.{Crates, Bytes}
use ledger_stacks.Device.{Device}
use ledger_stacks.Format.Item.{Shown, show_item}
use ledger_stacks.Common.Bytes.{sub_u8}
use ledger_stacks.Common.HashMode.{origin, sponsor, invalid}
use ledger_stacks.Spending.Signer.{SpendingConditionSigner}
use ledger_stacks.Spending.Display.{signer_address, nonce_str, fee_str}
use ledger_stacks.Auth
use ledger_stacks.Payload.Items as PayloadItems
use ledger_stacks.PostCondition.Display as ConditionDisplay
use ledger_stacks.Transaction.PostConditions.{
  PostConditions, update_postcondition, current_post_condition,
}
use ledger_stacks.Transaction.State.{Transaction, num_items}

-- The party whose account is shown.
unfoldable pub shown_signer : Transaction → Result SpendingConditionSigner
shown_signer t = elim t.signer [
  | origin ↦ ok (Auth.origin_signer t.transaction_auth)
  | sponsor ↦ ok_or parser_invalid_auth_type (Auth.sponsor_signer t.transaction_auth)
  | invalid ↦ err parser_invalid_auth_type
]

module _ ⦃crates : Crates⦄ ⦃device : Device⦄ where
  unfoldable pub recipient_address : Transaction → Result (Option Bytes)
  recipient_address t = PayloadItems.recipient_address t.payload

  unfoldable pub get_origin_items : Transaction → ℕ → Bytes → Bytes → ℕ → Result Shown
  get_origin_items t display_idx out_key out_value page_idx = do
    signer ← shown_signer t
    if display_idx == 0
        then show_item (codes "Origin") (signer_address signer t.version) out_key out_value page_idx
        else if display_idx == 1
        then show_item (codes "Nonce") (nonce_str signer) out_key out_value page_idx
        else if display_idx == 2
        then show_item (codes "Fee (uSTX)") (fee_str signer) out_key out_value page_idx
        else panic

  -- The conditions after the call, and what is shown.
  unfoldable pub conditions_get_items :
      PostConditions → ℕ → Bytes → Bytes → ℕ → ℕ → PostConditions × Result Shown
  conditions_get_items p display_idx out_key out_value page_idx num_items =
      with_state p (update_postcondition p num_items display_idx) λ (p', updated).
        let shown = (do
          idx ← updated
          current ← current_post_condition p'
          ConditionDisplay.get_items current idx out_key out_value page_idx) in
        (p', shown)

  unfoldable pub get_other_items :
      Bool → Transaction → ℕ → Bytes → Bytes → ℕ → Transaction × Result Shown
  get_other_items expert t display_idx out_key out_value page_idx =
      with_state t (num_items expert t) λ n.
        if leb (sub_u8 n t.post_conditions.num_items) display_idx
        then (if t.post_conditions.num_items == 0
            then (t, err parser_display_idx_out_of_range)
            else (let (conditions, shown) =
                  conditions_get_items t.post_conditions display_idx out_key out_value page_idx n in
                (record t { post_conditions = conditions }, shown)))
        else (
          t,
          PayloadItems.get_items expert t.payload display_idx out_key out_value page_idx
              (sub_u8 n t.post_conditions.num_items),
        )

  -- The transaction after the call, and what is shown.
  unfoldable pub get_item : Bool → Transaction → ℕ → Bytes → Bytes → ℕ → Transaction × Result Shown
  get_item expert t display_idx out_key out_value page_idx = with_state t (num_items expert t) λ n.
      if leb n display_idx
      then (t, err parser_display_idx_out_of_range)
      else if ltb display_idx 3
      then (t, get_origin_items t display_idx out_key out_value page_idx)
      else get_other_items expert t display_idx out_key out_value page_idx
