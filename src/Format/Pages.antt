-- ===== src/Format/Pages.antt =====
-- zxformat.rs: `pageString` cuts a value into pages of equal length.
use ledger_stacks.Base.{
  ℕ, suc, ◌+◌, ◌-◌, ◌*◌, ◌/◌, ◌%◌, ◌^◌, ◌<◌, ◌≤◌, ◌≡◌, ◌⊎◌, inl, inr, ap, ◌++◌, length, take, drop,
  replicate, ltb, leb, ◌==◌, true, false, Bool-cases, arith, lt→ltb, le→leb, ltb→lt, take_all,
  length-take, length-drop, length-replicate,
}
use native.Mathlib.Nat.{
  div-add-mod', mod-lt, mul-le-mul_right, le_of_mul-le-mul_right, lt_of_mul-lt-mul_right,
}
use ledger_stacks.Error.{ok}
use ledger_stacks.Slice.{slice}
use ledger_stacks.Crates.{Bytes}
use ledger_stacks.Format.{page_string, page_count_of, page_end}

-- A slice that ends after `n` bytes or with the input.
chunk :
    (n a e : ℕ) (bs : Bytes)
    → ((e ≡ a + n) × (a + n ≤ length bs))
      ⊎ ((e ≡ length bs) × ((a ≤ length bs) × (length bs ≤ a + n)))
    → slice a e bs ≡ ok (take n (drop a bs))
chunk n a e bs (inl (same, fits)) =
    let width : a + n - a ≡ n = omega arith in
    rw (same, le→leb a (a + n) (omega arith), le→leb (a + n) (length bs) fits, width)
chunk n a e bs (inr (same, (starts, short))) =
    let rest = length-drop a bs in
    rw (
      same,
      le→leb a (length bs) starts,
      le→leb (length bs) (length bs) (omega arith),
      take_all (length bs - a) (drop a bs) (omega (arith, rest)),
      take_all n (drop a bs) (omega (arith, rest, short)),
    )

nonzero : (a : ℕ) → 0 < a → (a == 0) ≡ false
nonzero a h = ground arith

module _ (n p len : ℕ) (some_room : 0 < n) (covers : len ≤ suc p * n) (needed : p * n < len)
    (few : p < 255) where
  whole : len / n * n + len % n ≡ len
  whole = div-add-mod' len n

  -- The last page is full, or it is shorter.
  quotient :
      ((len % n ≡ 0) × ((len / n ≡ suc p) × (suc p * n ≡ len)))
      ⊎ ((0 < len % n) × ((len / n ≡ p) × (p * n + len % n ≡ len)))
  quotient = elim (Bool-cases (ltb 0 (len % n))) [
    | inl short ↦
        let r = ltb→lt 0 (len % n) short in
        let below : len / n * n < suc p * n = omega (arith, whole, r, covers) in
        let above : p * n < suc (len / n) * n =
          omega (arith, whole, mod-lt len some_room, needed) in
        let q : len / n ≡ p =
          omega (arith, lt_of_mul-lt-mul_right n below, lt_of_mul-lt-mul_right n above) in
        inr (r, (q, omega (arith, whole, ap (λ k. k * n) q)))
    | inr full ↦
        let none : len % n ≡ 0 = ground (arith, full) in
        let below : len / n * n ≤ suc p * n = omega (arith, whole, none, covers) in
        let above : p * n < len / n * n = omega (arith, whole, none, needed) in
        let q : len / n ≡ suc p =
          omega (arith, le_of_mul-le-mul_right below some_room, lt_of_mul-lt-mul_right n above) in
        inl (none, (q, omega (arith, whole, none, ap (λ k. k * n) q)))
  ]

  counted : page_count_of len n ≡ suc p
  counted = elim quotient [
    | inl (none, (q, _)) ↦ rw (none, q) (omega (arith, few))
    | inr (short, (q, _)) ↦ rw (lt→ltb 0 (len % n) short, q) (omega (arith, few))
  ]

  -- The same with the test for a shorter page decided.
  last_of :
      ltb 0 (len % n) ≡ true
      → (page_count_of len n + 2 ^ 8 - 1) % 2 ^ 8 ≡ p
      → ((len / n % 2 ^ 8 + 1) % 2 ^ 8 + 2 ^ 8 - 1) % 2 ^ 8 ≡ p
  last_of more e = rw more at e

  -- Where a page ends.
  ends :
      (page_idx : ℕ)
      → page_idx ≤ p
      → ((page_end len n page_idx ≡ page_idx * n + n) × (page_idx * n + n ≤ len))
        ⊎ ((page_end len n page_idx ≡ len) × ((page_idx * n ≤ len) × (len ≤ page_idx * n + n)))
  ends page_idx inside = elim quotient [
    | inl (none, (q, whole)) ↦ inl (rw none, omega (arith, whole, mul-le-mul_right n inside))
    | inr (short, (q, whole)) ↦
        let last : (page_count_of len n + 2 ^ 8 - 1) % 2 ^ 8 ≡ p =
          omega (arith, ap (λ k. k) counted, few) in
        let more = lt→ltb 0 (len % n) short in
        elim (Bool-cases (page_idx == p)) [
          | inl at_last ↦
              let same : page_idx ≡ p = ground (arith, at_last) in
              let start : page_idx * n ≡ p * n = ap (λ k. k * n) same in
              inr (
                rw (more, last_of more last, at_last) (omega (arith, start, whole)),
                (omega (arith, start, whole), omega (arith, start, whole, mod-lt len some_room)),
              )
          | inr before ↦
              let earlier : suc page_idx ≤ p = ground (arith, before, inside) in
              inl (
                rw (more, last_of more last, before),
                omega (arith, whole, mul-le-mul_right n earlier),
              )
        ]
  ]

-- With room for `n` bytes beside the terminator, and a value that needs `p + 1` pages, at most 255, page
-- number `page_idx` of them holds the bytes of the value from `page_idx * n` on, `n` at most, and
-- zeros behind them.
pub page_string-page :
    (n p : ℕ) (out_value in_value : Bytes) (page_idx : ℕ)
    → length out_value ≡ suc n
    → 0 < n
    → length in_value ≤ suc p * n
    → p * n < length in_value
    → p < 255
    → page_idx ≤ p
    → page_string out_value in_value page_idx
      ≡ ok (
        take n (drop (page_idx * n) in_value)
            ++ replicate (suc n - length (take n (drop (page_idx * n) in_value))) 0,
        suc p,
      )
unfolding page_string
page_string-page n p out_value in_value page_idx room some_room covers needed few inside =
    let len = length in_value in
    let cut =
      chunk n (page_idx * n) (page_end len n page_idx) in_value
        (ends n p len some_room covers needed few page_idx inside) in
    let pages = counted n p len some_room covers needed few in
    let page = take n (drop (page_idx * n) in_value) in
    let size : suc n - 1 ≡ n = omega arith in
    let fits : leb (length page) (length (replicate {A = ℕ} n 0)) ≡ true =
      le→leb (length page) (length (replicate {A = ℕ} n 0)) (
        omega
          (arith, length-take n (drop (page_idx * n) in_value), length-replicate {A = ℕ} n 0)) in
    rw (
      room,
      nonzero (suc n) (omega arith),
      size,
      nonzero n some_room,
      nonzero len (omega (arith, needed)),
      cut,
      fits,
      pages,
      lt→ltb page_idx (suc p) (omega (arith, inside)),
    )
