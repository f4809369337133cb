-- ===== src/Transaction/PostConditions/Walk.antt =====
-- transaction.rs: the condition on display while the display goes from line to line.
use ledger_stacks.Base.{
  ℕ, zero, suc, ◌+◌, ◌^◌, ◌≤◌, ◌<◌, ◌≡◌, refl, ap, List, [], ◌∷◌, some, length, take, get_elem?,
  arith, le→leb,
}
use ledger_stacks.Error.{ok, ◌>>=◌, map_err, parser_post_condition_failed}
use ledger_stacks.Slice.{index-some}
use ledger_stacks.Crates.{Crates, Bytes, IResult}
use ledger_stacks.PostCondition.Condition
use ledger_stacks.PostCondition.Condition.{TransactionPostCondition, stx, fungible, nonfungible}
use ledger_stacks.Transaction.PostConditions.{
  PostConditions, get_num_items, current_post_condition, get_current_limit,
}

-- The lines of some conditions.
abbrev pub lines : List TransactionPostCondition → ℕ
lines [] = 0
lines (c ∷ cs) = Condition.num_items c + lines cs

-- Each condition has at least three lines, and four at most.
pub num_items_bounds :
    (c : TransactionPostCondition) → (3 ≤ Condition.num_items c) × (Condition.num_items c ≤ 4)
unfolding Condition.num_items
num_items_bounds (stx bs) = (omega arith, omega arith)
num_items_bounds (fungible bs) = (omega arith, omega arith)
num_items_bounds (nonfungible bs) = (omega arith, omega arith)

pub lines-take-le : (k : ℕ) (cs : List TransactionPostCondition) → lines (take k cs) ≤ lines cs
lines-take-le zero cs = omega arith
lines-take-le (suc k) [] = omega arith
lines-take-le (suc k) (c ∷ cs) = omega (arith, lines-take-le k cs)

-- The lines up to a condition and the condition's own.
pub lines-take_suc :
    (k : ℕ) (cs : List TransactionPostCondition) (c : TransactionPostCondition)
    → get_elem? cs k ≡ some c
    → lines (take (suc k) cs) ≡ lines (take k cs) + Condition.num_items c
lines-take_suc k [] c e = cc
lines-take_suc zero (x ∷ xs) c e = let same : x ≡ c = cc in rw (same) (omega arith)
lines-take_suc (suc k) (x ∷ xs) c e = omega (arith, lines-take_suc k xs c e)

-- Where some lines are left there is a condition.
pub more_lines :
    (k : ℕ) (cs : List TransactionPostCondition)
    → lines (take k cs) < lines cs
    → (c : TransactionPostCondition) × (get_elem? cs k ≡ some c)
more_lines k [] h = absurd (omega (arith, lines-take-le k []))
more_lines zero (c ∷ cs) h = (c, refl)
more_lines (suc k) (c ∷ cs) h = more_lines k cs (omega arith)

pub get_elem?-pred :
    (k : ℕ) (cs : List TransactionPostCondition) (c : TransactionPostCondition)
    → get_elem? cs (suc k) ≡ some c
    → (b : TransactionPostCondition) × (get_elem? cs k ≡ some b)
get_elem?-pred k [] c e = cc
get_elem?-pred zero (x ∷ xs) c e = (x, refl)
get_elem?-pred (suc k) (x ∷ xs) c e = get_elem?-pred k xs c e

get_elem?-lt : (k : ℕ) (xs : List Bytes) (x : Bytes) → get_elem? xs k ≡ some x → k < length xs
get_elem?-lt k [] x e = cc
get_elem?-lt zero (y ∷ ys) x e = omega arith
get_elem?-lt (suc k) (y ∷ ys) x e = omega (arith, get_elem?-lt k ys x e)

pub lt_of_found :
    (k : ℕ) (cs : List TransactionPostCondition) (c : TransactionPostCondition)
    → get_elem? cs k ≡ some c
    → suc k ≤ length cs
lt_of_found k [] c e = cc
lt_of_found zero (x ∷ xs) c e = omega arith
lt_of_found (suc k) (x ∷ xs) c e = omega (arith, lt_of_found k xs c e)

-- A condition has a line at least, so that an index is no more than the lines before it.
pub index-le-lines : (k : ℕ) (cs : List TransactionPostCondition) → k ≤ length cs → k ≤ lines cs
index-le-lines zero cs h = omega arith
index-le-lines (suc k) [] h = absurd (omega arith)
index-le-lines (suc k) (c ∷ cs) h =
    omega (arith, index-le-lines k cs (omega arith), num_items_bounds c)

module _ ⦃crates : Crates⦄ where
  -- The bytes of each condition parse, as the condition beside them.
  abbrev pub Parsed : List Bytes → List TransactionPostCondition → Type 0
  Parsed [] [] = Unit
  Parsed [] (c ∷ cs) = ⊥
  Parsed (bs ∷ bss) [] = ⊥
  Parsed (bs ∷ bss) (c ∷ cs) =
      ((rem : Bytes) × (Condition.from_bytes bs ≡ ok (rem, c))) × Parsed bss cs

  Parsed-take :
      (k : ℕ) (bss : List Bytes) (cs : List TransactionPostCondition)
      → Parsed bss cs
      → Parsed (take k bss) (take k cs)
  Parsed-take zero bss cs h = tt
  Parsed-take (suc k) [] [] h = tt
  Parsed-take (suc k) [] (c ∷ cs) h = absurd h
  Parsed-take (suc k) (bs ∷ bss) [] h = absurd h
  Parsed-take (suc k) (bs ∷ bss) (c ∷ cs) (hc, h) = (hc, Parsed-take k bss cs h)

  get_num_items-Parsed :
      (bss : List Bytes) (cs : List TransactionPostCondition)
      → Parsed bss cs
      → lines cs < 2 ^ 8
      → get_num_items bss ≡ ok (lines cs)
  unfolding get_num_items
  get_num_items-Parsed [] [] h small = refl
  get_num_items-Parsed [] (c ∷ cs) h small = absurd h
  get_num_items-Parsed (bs ∷ bss) [] h small = absurd h
  get_num_items-Parsed (bs ∷ bss) (c ∷ cs) ((rem, e), h) small =
      rw (e, get_num_items-Parsed bss cs h (omega arith)) (ap ok (omega arith))

  Parsed-get_elem? :
      (k : ℕ) (bss : List Bytes) (cs : List TransactionPostCondition) (c : TransactionPostCondition)
      → Parsed bss cs
      → get_elem? cs k ≡ some c
      → (bs : Bytes) × ((rem : Bytes) × ((get_elem? bss k ≡ some bs)
            × (Condition.from_bytes bs ≡ ok (rem, c))))
  Parsed-get_elem? k bss [] c h e = cc
  Parsed-get_elem? k [] (x ∷ xs) c h e = absurd h
  Parsed-get_elem? zero (bs ∷ bss) (x ∷ xs) c ((rem, p), h) e =
      let same : x ≡ c = cc in (bs, (rem, (refl, rw (← same) p)))
  Parsed-get_elem? (suc k) (bs ∷ bss) (x ∷ xs) c (p, h) e = Parsed-get_elem? k bss xs c h e

  length-Parsed :
      (bss : List Bytes) (cs : List TransactionPostCondition)
      → Parsed bss cs
      → length bss ≡ length cs
  length-Parsed [] [] h = refl
  length-Parsed [] (c ∷ cs) h = absurd h
  length-Parsed (bs ∷ bss) [] h = absurd h
  length-Parsed (bs ∷ bss) (c ∷ cs) (p, h) = ap suc (length-Parsed bss cs h)

  -- The conditions as they are after a reading: they parse, and their lines are counted.
  pub record IsRead (p : PostConditions) (cs : List TransactionPostCondition) : Type 0 where
    pub parsed : Parsed p.conditions cs
    pub counted : p.num_items ≡ lines cs
    pub small : lines cs < 2 ^ 8

  -- The condition on display has the line `k`.
  pub record Holds (p : PostConditions) (cs : List TransactionPostCondition) (k : ℕ) : Type 0 where
    pub current : TransactionPostCondition
    pub found : get_elem? cs p.current_idx ≡ some current
    pub starts : lines (take p.current_idx cs) ≤ k
    pub stops : k < lines (take p.current_idx cs) + Condition.num_items current

  pub limit_lem :
      (p : PostConditions) (cs : List TransactionPostCondition) (c : TransactionPostCondition)
      → IsRead p cs
      → get_elem? cs p.current_idx ≡ some c
      → get_current_limit p ≡ ok (lines (take p.current_idx cs))
  unfolding get_current_limit
  limit_lem p cs c r e =
      let (bs, (rem, (at, parses))) = Parsed-get_elem? p.current_idx p.conditions cs c r.parsed e in
      let front = Parsed-take p.current_idx p.conditions cs r.parsed in
      let in_range = get_elem?-lt p.current_idx p.conditions bs at in
      rw (le→leb p.current_idx (length p.conditions) (omega (arith, in_range))) (
        get_num_items-Parsed (take p.current_idx p.conditions) (take p.current_idx cs) front
          (omega (arith, lines-take-le p.current_idx cs, r.small)))

  pub current_lem :
      (p : PostConditions) (cs : List TransactionPostCondition) (c : TransactionPostCondition)
      → IsRead p cs
      → get_elem? cs p.current_idx ≡ some c
      → current_post_condition p ≡ ok c
  unfolding current_post_condition
  current_lem p cs c r e =
      let (bs, (rem, (at, parses))) = Parsed-get_elem? p.current_idx p.conditions cs c r.parsed e in
      rw (index-some p.conditions p.current_idx bs at) (
        ap
          (λ (m : IResult TransactionPostCondition).
            map_err parser_post_condition_failed m >>= λ (_, c). ok c)
          parses)
