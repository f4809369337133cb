-- ===== src/PostCondition/Lines.antt =====
-- post_condition.rs: the lines of a condition as a list, and `get_items` against it.
use ledger_stacks.Base.{
  ℕ, zero, suc, ◌%◌, ◌==◌, ◌≡◌, refl, List, [], ◌∷◌, some, get_elem?, codes, if◌then◌else◌, length,
}
use ledger_stacks.Error.{Result}
use ledger_stacks.Crates.{Crates, Bytes}
use ledger_stacks.Device.{Device}
use ledger_stacks.Format.Item.{Line, show_line}
use ledger_stacks.PostCondition.Condition.{
  TransactionPostCondition, stx, fungible, nonfungible, num_items,
}
use ledger_stacks.PostCondition.Display.{
  get_items, get_stx_items, get_fungible_items, get_non_fungible_items, write_principal_address,
  get_principal_address, fungible_code_line, stx_amount_line, asset_name_line, tokens_amount_line,
  non_fungible_code_line, kind_items,
}

module _ ⦃crates : Crates⦄ ⦃device : Device⦄ where
  abbrev line : List ℕ → Result Bytes → Line
  line label text = record { label = label; text = text }

  -- What a condition has to say, in order.
  abbrev pub condition_lines : TransactionPostCondition → List Line
  condition_lines (stx bs) =
      line (codes "Principal") (get_principal_address (stx bs))
      ∷ line (codes "Fungi. Code") (fungible_code_line (stx bs))
      ∷ line (codes "STX amount") (stx_amount_line (stx bs))
      ∷ []
  condition_lines (fungible bs) =
      line (codes "Principal") (get_principal_address (fungible bs))
      ∷ line (codes "Asset name") (asset_name_line (fungible bs))
      ∷ line (codes "Fungi. Code") (fungible_code_line (fungible bs))
      ∷ line (codes "Token amount") (tokens_amount_line (fungible bs))
      ∷ []
  condition_lines (nonfungible bs) =
      line (codes "Principal") (get_principal_address (nonfungible bs))
      ∷ line (codes "Asset name") (asset_name_line (nonfungible bs))
      ∷ line (codes "NonFungi. Code") (non_fungible_code_line (nonfungible bs))
      ∷ []

  -- `get_items` after the remainder is taken.
  by_index :
      (c : TransactionPostCondition) (r : ℕ) (l : Line) (key value : Bytes) (page_idx : ℕ)
      → get_elem? (condition_lines c) r ≡ some l
      → (if r == 0
          then write_principal_address c key value page_idx
          else kind_items c r key value page_idx)
        ≡ show_line l key value page_idx
  unfolding write_principal_address get_stx_items get_fungible_items get_non_fungible_items
  by_index (stx bs) zero l key value page_idx e = cc
  by_index (stx bs) (suc zero) l key value page_idx e = cc
  by_index (stx bs) (suc (suc zero)) l key value page_idx e = cc
  by_index (stx bs) (suc (suc (suc r))) l key value page_idx e = cc
  by_index (fungible bs) zero l key value page_idx e = cc
  by_index (fungible bs) (suc zero) l key value page_idx e = cc
  by_index (fungible bs) (suc (suc zero)) l key value page_idx e = cc
  by_index (fungible bs) (suc (suc (suc zero))) l key value page_idx e = cc
  by_index (fungible bs) (suc (suc (suc (suc r)))) l key value page_idx e = cc
  by_index (nonfungible bs) zero l key value page_idx e = cc
  by_index (nonfungible bs) (suc zero) l key value page_idx e = cc
  by_index (nonfungible bs) (suc (suc zero)) l key value page_idx e = cc
  by_index (nonfungible bs) (suc (suc (suc r))) l key value page_idx e = cc

  -- A condition shows the line at the remainder of the index by the number of its lines.
  pub get_items-lines :
      (c : TransactionPostCondition) (d : ℕ) (l : Line) (key value : Bytes) (page_idx : ℕ)
      → get_elem? (condition_lines c) (d % num_items c) ≡ some l
      → get_items c d key value page_idx ≡ show_line l key value page_idx
  unfolding get_items
  get_items-lines c d l key value page_idx e = by_index c (d % num_items c) l key value page_idx e

  pub length-condition_lines :
      (c : TransactionPostCondition) → length (condition_lines c) ≡ num_items c
  unfolding num_items
  length-condition_lines (stx bs) = refl
  length-condition_lines _ = refl
