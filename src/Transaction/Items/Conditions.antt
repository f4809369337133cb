-- ===== src/Transaction/Items/Conditions.antt =====
-- transaction.rs: what a transaction shows of its conditions.
use ledger_stacks.Base.{
  zero, suc, length, [], ◌∷◌, ℕ, ◌+◌, ◌-◌, ◌%◌, ◌==◌, ◌≡◌, ◌<◌, refl, List, some, get_elem?, arith,
  false, Bool, lt→leb, le→leb, le→ltb,
}
use ledger_stacks.Error.{ok}
use ledger_stacks.Crates.{Crates, Bytes}
use ledger_stacks.Device.{Device}
use ledger_stacks.Format.Item.{Line, show_line}
use ledger_stacks.Common.Bytes.{sub_u8}
use ledger_stacks.PostCondition.Condition
use ledger_stacks.PostCondition.Condition.{TransactionPostCondition}
use ledger_stacks.PostCondition.Lines.{condition_lines, length-condition_lines, get_items-lines}
use native.Mathlib.Nat.{mod-lt}
use ledger_stacks.Transaction.PostConditions.{PostConditions}
use ledger_stacks.Transaction.PostConditions.Walk.{IsRead, Holds, current_lem, num_items_bounds}
use ledger_stacks.Transaction.PostConditions.Moves.{Beside, follow}
use ledger_stacks.Transaction.State.{Transaction, num_items}
use ledger_stacks.Transaction.Items.{get_item, get_other_items, conditions_get_items}
use ledger_stacks.Transaction.Items.Lines.{counted}

module _ ⦃crates : Crates⦄ ⦃device : Device⦄ where
  -- The transaction after the call and the condition that it shows.
  pub record ShowsCondition (expert : Bool) (t : Transaction) (cs : List TransactionPostCondition)
      (n k : ℕ) (key value : Bytes) (page_idx : ℕ) : Type 0 where
    pub conditions : PostConditions
    pub has_line : Holds conditions cs k
    pub shown : Line
    pub stands :
        get_elem? (condition_lines has_line.current) (k % Condition.num_items has_line.current)
        ≡ some shown
    pub shows :
        get_item expert t (n - t.post_conditions.num_items + k) key value page_idx
        ≡ (record t { post_conditions = conditions }, show_line shown key value page_idx)

  line_at : (xs : List Line) (i : ℕ) → i < length xs → (l : Line) × (get_elem? xs i ≡ some l)
  line_at [] i h = absurd (omega arith)
  line_at (x ∷ xs) zero h = (x, refl)
  line_at (x ∷ xs) (suc i) h = line_at xs i (omega arith)

  place :
      (c : TransactionPostCondition) (k : ℕ)
      → k % Condition.num_items c < length (condition_lines c)
  place c k = rw (length-condition_lines c) (mod-lt k (omega (arith, num_items_bounds c)))

  some_items_lem : (m : ℕ) → 0 < m → (m == 0) ≡ false
  some_items_lem m h = ground arith

  -- While the numbers of lines are counted in a byte, and the line asked for is the one on display or
  -- a neighbour of it, the last indices of the display show the lines of the conditions: the
  -- condition that has the line comes on display, and of its list of lines the one is shown whose
  -- place is the remainder of the index by the length of the list.
  pub get_item-condition_lines :
      (expert : Bool) (t : Transaction) (cs : List TransactionPostCondition) (n j k : ℕ)
      (key value : Bytes) (page_idx : ℕ)
      → num_items expert t ≡ ok n
      → IsRead t.post_conditions cs
      → Holds t.post_conditions cs j
      → Beside j k
      → k < t.post_conditions.num_items
      → ShowsCondition expert t cs n k key value page_idx
  unfolding get_item get_other_items conditions_get_items
  get_item-condition_lines expert t cs n j k key value page_idx e r h beside within =
      let p = t.post_conditions in
      let c = counted expert t n e in
      let f = follow p cs j k n r h beside (omega (arith, c.total)) c.small within in
      let front : sub_u8 n p.num_items ≡ n - p.num_items = omega (arith, c.total, c.small) in
      let (l, el) =
        line_at (condition_lines f.holds.current) (k % Condition.num_items f.holds.current)
          (place f.holds.current k) in
      record {
        conditions = f.after;
        has_line = f.holds;
        shown = l;
        stands = el;
        shows = rw (
          e,
          lt→leb n (n - p.num_items + k) (omega (arith, c.total)),
          le→ltb (n - p.num_items + k) 3 (omega (arith, c.total)),
          front,
          le→leb (n - p.num_items) (n - p.num_items + k) (omega arith),
          some_items_lem p.num_items (omega arith),
          f.answers,
          current_lem f.after cs f.holds.current f.reads f.holds.found,
          get_items-lines f.holds.current k l key value page_idx el,
        );
      }
