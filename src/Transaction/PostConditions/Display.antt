-- ===== src/Transaction/PostConditions/Display.antt =====
-- transaction.rs: `map_idx`, from an index of the display to an index among the conditions' items.
use ledger_stacks.Base.{ℕ, ◌-◌, ◌/◌, ◌^◌, ◌<◌, ◌≤◌, ◌≡◌, ap, arith, ◌==◌, false}
use native.Mathlib.Nat.{div_self}
use ledger_stacks.Error.{ok}
use ledger_stacks.Common.Bytes.{sub_u8}
use ledger_stacks.Transaction.PostConditions.{PostConditions, map_idx}

differs : (m : ℕ) → 0 < m → (m == 0) ≡ false
differs m h = ground arith

ratio : (m : ℕ) → 0 < m → m / m ≡ 1
ratio m h = div_self h

-- Where the conditions have an item at least, and all items of the display are counted in a byte,
-- the last items of the display are those of the conditions, in order.
pub map_idx-in_range :
    (p : PostConditions) (total display_idx : ℕ)
    → total < 2 ^ 8
    → 0 < p.num_items
    → p.num_items ≤ total
    → total - p.num_items ≤ display_idx
    → display_idx < total
    → map_idx p display_idx (total - p.num_items) total ≡ ok (display_idx - (total - p.num_items))
unfolding map_idx
map_idx-in_range p total display_idx small some_items fits start stop =
    let range : sub_u8 total (total - p.num_items) ≡ p.num_items = omega arith in
    let offset : sub_u8 display_idx (total - p.num_items) ≡ display_idx - (total - p.num_items) =
      omega arith in
    rw (range, differs p.num_items some_items, ratio p.num_items some_items, offset)
      (ap ok (omega arith))
