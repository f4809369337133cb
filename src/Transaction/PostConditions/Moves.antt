-- ===== src/Transaction/PostConditions/Moves.antt =====
-- transaction.rs: `update_postcondition` follows the display from line to line.
use ledger_stacks.Base.{
  ℕ, zero, suc, ◌+◌, ◌-◌, ◌^◌, ◌≤◌, ◌<◌, ◌≡◌, refl, List, some, take, get_elem?, leb, ltb, ◌&&◌,
  arith, Bool-cases, inl, inr, le→leb, lt→leb, leb→le, leb→lt, le→ltb, lt→ltb, ltb→lt,
  if◌then◌else◌,
}
use ledger_stacks.Error.{ok, err, parser_unexpected_error}
use ledger_stacks.Crates.{Crates}
use ledger_stacks.Common.Bytes.{add_u8, sub_u8}
use ledger_stacks.PostCondition.Condition
use ledger_stacks.PostCondition.Condition.{TransactionPostCondition}
use ledger_stacks.Transaction.PostConditions.{PostConditions, update_postcondition}
use ledger_stacks.Transaction.PostConditions.Display.{map_idx-in_range}
use ledger_stacks.Transaction.PostConditions.Walk.{
  lines, num_items_bounds, lines-take-le, lines-take_suc, more_lines, get_elem?-pred, lt_of_found,
  index-le-lines, limit_lem, current_lem, IsRead, Holds,
}

module _ ⦃crates : Crates⦄ where
  -- What `update_postcondition` decides, for the line `k` of the conditions.
  pub update_reads :
      (p : PostConditions) (cs : List TransactionPostCondition) (c : TransactionPostCondition)
      (total k : ℕ)
      → IsRead p cs
      → get_elem? cs p.current_idx ≡ some c
      → p.num_items ≤ total
      → total < 2 ^ 8
      → k < p.num_items
      → update_postcondition p total (total - p.num_items + k) ≡ (
          if leb (add_u8 (lines (take p.current_idx cs)) (Condition.num_items c)) k
          then (if ltb p.num_items (add_u8 p.current_idx 1)
              then ok
                  (record p { current_idx = add_u8 p.current_idx 1 }, err parser_unexpected_error)
              else ok (record p { current_idx = add_u8 p.current_idx 1 }, ok k))
          else if ltb k (lines (take p.current_idx cs)) && ltb 0 k
          then ok (record p { current_idx = sub_u8 p.current_idx 1 }, ok k)
          else ok (p, ok k))
  unfolding update_postcondition
  update_reads p cs c total k r e fits small within =
      let start : sub_u8 total p.num_items ≡ total - p.num_items = omega arith in
      let mapped =
        map_idx-in_range p total (total - p.num_items + k) small (omega arith) fits (omega arith)
          (omega arith) in
      let line : total - p.num_items + k - (total - p.num_items) ≡ k = omega arith in
      rw (start, mapped, line, limit_lem p cs c r e, current_lem p cs c r e)

  -- A line that the condition on display does not have, before or behind its own by one.
  abbrev pub Beside : ℕ → ℕ → Type 0
  Beside k k' = (k' ≤ k + 1) × (k ≤ k' + 1)

  -- The call succeeds on the line, the condition on display has it, and the conditions are the same.
  pub record Follows (p : PostConditions) (cs : List TransactionPostCondition) (total k : ℕ)
      : Type 0 where
    pub after : PostConditions
    pub answers : update_postcondition p total (total - p.num_items + k) ≡ ok (after, ok k)
    pub holds : Holds after cs k
    pub reads : IsRead after cs
    pub same_items : after.num_items ≡ p.num_items

  advance :
      (p : PostConditions) (cs : List TransactionPostCondition) (k k' total : ℕ)
      → IsRead p cs
      → (h : Holds p cs k) → Beside k k'
      → p.num_items ≤ total
      → total < 2 ^ 8
      → k' < p.num_items
      → lines (take p.current_idx cs) + Condition.num_items h.current ≤ k'
      → Follows p cs total k'
  advance p cs k k' total r h beside fits small within past =
      let next = lines-take_suc p.current_idx cs h.current h.found in
      let few =
        index-le-lines (suc p.current_idx) cs (lt_of_found p.current_idx cs h.current h.found) in
      let (c', found') =
        more_lines (suc p.current_idx) cs (omega (arith, next, r.counted, h.stops)) in
      let step : add_u8 p.current_idx 1 ≡ suc p.current_idx = omega (arith, few, r.small) in
      let bound = lines-take-le (suc p.current_idx) cs in
      let sum : add_u8 (lines (take p.current_idx cs)) (Condition.num_items h.current)
          ≡ lines (take p.current_idx cs) + Condition.num_items h.current =
        omega (arith, bound, next, r.small) in
      record {
        after = record p { current_idx = suc p.current_idx };
        answers = rw (
          update_reads p cs h.current total k' r h.found fits small within,
          sum,
          le→leb (lines (take p.current_idx cs) + Condition.num_items h.current) k' past,
          step,
          le→ltb p.num_items (suc p.current_idx) (omega (arith, few, r.counted)),
        );
        holds = record {
          current = c';
          found = found';
          starts = omega (arith, next, h.stops, beside.0);
          stops = omega (arith, next, h.stops, beside.0, num_items_bounds c');
        };
        reads = record { parsed = r.parsed; counted = r.counted; small = r.small };
        same_items = refl;
      }

  -- The lines up to the condition on display and its own are counted in a byte.
  pub no_wrap :
      (p : PostConditions) (cs : List TransactionPostCondition) (c : TransactionPostCondition)
      → IsRead p cs
      → get_elem? cs p.current_idx ≡ some c
      → add_u8 (lines (take p.current_idx cs)) (Condition.num_items c)
        ≡ lines (take p.current_idx cs) + Condition.num_items c
  no_wrap p cs c r e =
      omega
        (arith, lines-take-le (suc p.current_idx) cs, lines-take_suc p.current_idx cs c e, r.small)

  keep :
      (p : PostConditions) (cs : List TransactionPostCondition) (k k' total : ℕ)
      → IsRead p cs
      → (h : Holds p cs k) → p.num_items ≤ total
      → total < 2 ^ 8
      → k' < p.num_items
      → k' < lines (take p.current_idx cs) + Condition.num_items h.current
      → lines (take p.current_idx cs) ≤ k'
      → Follows p cs total k'
  keep p cs k k' total r h fits small within stops starts = record {
    after = p;
    answers = rw (
      update_reads p cs h.current total k' r h.found fits small within,
      no_wrap p cs h.current r h.found,
      lt→leb (lines (take p.current_idx cs) + Condition.num_items h.current) k' stops,
      le→ltb k' (lines (take p.current_idx cs)) starts,
    );
    holds = record { current = h.current; found = h.found; starts = starts; stops = stops };
    reads = r;
    same_items = refl;
  }

  retreat :
      (i : ℕ) (p : PostConditions) (cs : List TransactionPostCondition) (k k' total : ℕ)
      → p.current_idx ≡ i
      → IsRead p cs
      → (h : Holds p cs k) → Beside k k'
      → p.num_items ≤ total
      → total < 2 ^ 8
      → k' < p.num_items
      → k' < lines (take p.current_idx cs)
      → Follows p cs total k'
  retreat zero p cs k k' total e r h beside fits small within before =
      absurd (omega (arith, no_lines p.current_idx cs e))
    where
      no_lines : (j : ℕ) (cs : List TransactionPostCondition) → j ≡ 0 → lines (take j cs) ≡ 0
      no_lines j cs e = rw e refl
  retreat (suc i) p cs k k' total e r h beside fits small within before =
      let (b, found) = get_elem?-pred i cs h.current (rw (← e) h.found) in
      let previous = lines-take_suc i cs b found in
      let here : lines (take p.current_idx cs) ≡ lines (take (suc i) cs) = rw e refl in
      let few =
        index-le-lines p.current_idx cs
          (omega (arith, lt_of_found p.current_idx cs h.current h.found)) in
      let step : sub_u8 p.current_idx 1 ≡ i = omega (arith, few, r.small, e) in
      record {
        after = record p { current_idx = i };
        answers = rw (
          update_reads p cs h.current total k' r h.found fits small within,
          no_wrap p cs h.current r h.found,
          lt→leb (lines (take p.current_idx cs) + Condition.num_items h.current) k' (omega arith),
          lt→ltb k' (lines (take p.current_idx cs)) before,
          lt→ltb 0 k' (omega (arith, previous, here, h.starts, beside.1, num_items_bounds b)),
          step,
        );
        holds = record {
          current = b;
          found = found;
          starts = omega (arith, previous, here, h.starts, beside.1, num_items_bounds b);
          stops = omega (arith, previous, here);
        };
        reads = record { parsed = r.parsed; counted = r.counted; small = r.small };
        same_items = refl;
      }

  -- From a line that the condition on display has, the call goes to the next line, to the one
  -- before or to the same line: the condition on display then has that line.
  pub follow :
      (p : PostConditions) (cs : List TransactionPostCondition) (k k' total : ℕ)
      → IsRead p cs
      → Holds p cs k
      → Beside k k'
      → p.num_items ≤ total
      → total < 2 ^ 8
      → k' < p.num_items
      → Follows p cs total k'
  follow p cs k k' total r h beside fits small within =
      let limit = lines (take p.current_idx cs) in
      elim (Bool-cases (leb (limit + Condition.num_items h.current) k')) [
        | inl past ↦
            advance p cs k k' total r h beside fits small within
              (leb→le (limit + Condition.num_items h.current) k' past)
        | inr inside ↦ elim (Bool-cases (ltb k' limit)) [
          | inl before ↦
              retreat p.current_idx p cs k k' total refl r h beside fits small within
                (ltb→lt k' limit before)
          | inr on ↦
              keep p cs k k' total r h fits small within
                (leb→lt (limit + Condition.num_items h.current) k' inside) (ground arith)
        ]
      ]
