-- ===== src/Transaction/PostConditions/Review.antt =====
-- transaction.rs: the conditions during a review of the transaction, which turns from line to line.
use ledger_stacks.Base.{
  ℕ, zero, suc, ◌+◌, ◌-◌, ◌^◌, ◌≤◌, ◌<◌, ◌≡◌, ◌∙◌, refl, sym, ap, subst, List, [], ◌∷◌, some, take,
  get_elem?, arith, lt→leb, lt→ltb,
}
use ledger_stacks.Error
use ledger_stacks.Error.{ok}
use ledger_stacks.Crates.{Crates}
use ledger_stacks.PostCondition.Condition
use ledger_stacks.PostCondition.Condition.{TransactionPostCondition}
use ledger_stacks.Transaction.PostConditions.{
  PostConditions, update_postcondition, current_post_condition,
}
use ledger_stacks.Transaction.PostConditions.Walk.{
  lines, num_items_bounds, lines-take_suc, get_elem?-pred, current_lem, IsRead, Holds,
}
use ledger_stacks.Transaction.PostConditions.Moves.{Beside, follow, update_reads, no_wrap}

module _ ⦃crates : Crates⦄ where
  -- The conditions `p` after a review of `origin` has turned from line to neighbouring line, up to
  -- the line `k` of the conditions.
  pub data Reviewed (origin : PostConditions) (total : ℕ) : PostConditions → ℕ → Type 0 where
    open_review : Reviewed origin total origin 0
    turn :
        {p p' : PostConditions} {k k' : ℕ}
        → Reviewed origin total p k
        → Beside k k'
        → k' < p.num_items
        → update_postcondition p total (total - p.num_items + k') ≡ ok (p', ok k')
        → Reviewed origin total p' k'

  first_line :
      (p : PostConditions) (cs : List TransactionPostCondition)
      → IsRead p cs
      → p.current_idx ≡ 0
      → 0 < p.num_items
      → Holds p cs 0
  first_line p [] r e some_items = absurd (omega (arith, r.counted))
  first_line p (c ∷ cs) r e some_items = record {
    current = c;
    found = ap (λ (i : ℕ). get_elem? (c ∷ cs) i) e;
    starts = omega (arith, ap (λ (i : ℕ). lines (take i (c ∷ cs))) e);
    stops = omega (arith, num_items_bounds c);
  }

  same_after :
      {q q' : PostConditions} {k : ℕ}
      → ◌≡◌ {A = Error.Result (PostConditions × Error.Result ℕ)} (ok (q, ok k)) (ok (q', ok k))
      → q ≡ q'
  same_after e = cc

  -- The invariant of a review, kept by each turn.
  kept :
      {origin : PostConditions} {total : ℕ} {p : PostConditions} {k : ℕ}
      (cs : List TransactionPostCondition)
      → IsRead origin cs
      → origin.current_idx ≡ 0
      → 0 < origin.num_items
      → origin.num_items ≤ total
      → total < 2 ^ 8
      → Reviewed origin total p k
      → (IsRead p cs × Holds p cs k) × (p.num_items ≡ origin.num_items)
  kept {origin} cs r e some_items fits small open_review =
      ((r, first_line origin cs r e some_items), refl)
  kept {origin} {total} {p = p'} cs r e some_items fits small
        (turn {p = p} {k = k} {k' = k'} walk beside within answer) =
      let ((reads, holds), same) = kept cs r e some_items fits small walk in
      let f = follow p cs k k' total reads holds beside (omega arith) small within in
      let after : f.after ≡ p' = same_after (sym f.answers ∙ answer) in
      (
        (subst (λ q. IsRead q cs) after f.reads, subst (λ q. Holds q cs k') after f.holds),
        subst (λ (q : PostConditions). q.num_items ≡ origin.num_items) after (f.same_items ∙ same),
      )

  -- However a review has turned from line to neighbouring line, the condition on display is the one
  -- that has the line, and it parses: for conditions that were read, at least one of them, with all
  -- lines of the display counted in a byte.
  pub Reviewed-Holds :
      {origin : PostConditions} {total : ℕ} {p : PostConditions} {k : ℕ}
      (cs : List TransactionPostCondition)
      → IsRead origin cs
      → origin.current_idx ≡ 0
      → 0 < origin.num_items
      → origin.num_items ≤ total
      → total < 2 ^ 8
      → Reviewed origin total p k
      → (h : Holds p cs k) × (current_post_condition p ≡ ok h.current)
  Reviewed-Holds {p = p} cs r e some_items fits small walk =
      let ((reads, holds), same) = kept cs r e some_items fits small walk in
      (holds, current_lem p cs holds.current reads holds.found)

  -- A review that turns forward comes to every line of the conditions: no turn fails.
  pub review_reaches :
      (k : ℕ) (origin : PostConditions) (total : ℕ) (cs : List TransactionPostCondition)
      → IsRead origin cs
      → origin.current_idx ≡ 0
      → origin.num_items ≤ total
      → total < 2 ^ 8
      → k < origin.num_items
      → (p : PostConditions) × (Reviewed origin total p k × Holds p cs k)
  review_reaches zero origin total cs r e fits small within =
      (origin, (open_review, first_line origin cs r e within))
  review_reaches (suc k) origin total cs r e fits small within =
      let (p, (walk, _)) = review_reaches k origin total cs r e fits small (omega arith) in
      let ((reads, holds), same) = kept cs r e (omega arith) fits small walk in
      let f =
        follow p cs k (suc k) total reads holds (omega arith, omega arith) (omega arith) small
          (omega arith) in
      (f.after, (turn walk (omega arith, omega arith) (omega arith) f.answers, f.holds))

  before_all :
      (i : ℕ) (cs : List TransactionPostCondition) (c : TransactionPostCondition)
      → get_elem? cs i ≡ some c
      → 0 < i
      → 0 < lines (take i cs)
  before_all zero cs c e pos = absurd (omega arith)
  before_all (suc i) cs c e pos =
      let (b, found) = get_elem?-pred i cs c e in
      omega (arith, lines-take_suc i cs b found, num_items_bounds b)

  -- A review that starts over while a later condition than the first is on display keeps that
  -- condition: what is shown first is no line of the first condition.
  pub restart_keeps :
      (p : PostConditions) (cs : List TransactionPostCondition) (c : TransactionPostCondition)
      (total : ℕ)
      → IsRead p cs
      → get_elem? cs p.current_idx ≡ some c
      → 0 < p.current_idx
      → 0 < p.num_items
      → p.num_items ≤ total
      → total < 2 ^ 8
      → (update_postcondition p total (total - p.num_items) ≡ ok (p, ok 0)) × ¬ Holds p cs 0
  restart_keeps p cs c total r found later some_items fits small =
      let limit = lines (take p.current_idx cs) in
      let before = before_all p.current_idx cs c found later in
      let line : total - p.num_items + 0 ≡ total - p.num_items = omega arith in
      (
        ap (λ (d : ℕ). update_postcondition p total d) (sym line)
            ∙ rw (
              update_reads p cs c total 0 r found fits small some_items,
              no_wrap p cs c r found,
              lt→leb (limit + Condition.num_items c) 0 (omega (arith, before)),
              lt→ltb 0 limit before,
            ),
        λ h. omega (arith, h.starts, before),
      )
