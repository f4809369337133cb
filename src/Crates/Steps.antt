-- ===== src/Crates/Steps.antt =====
-- What each parser of the interface does on an input whose front is known, and what a success says.
use ledger_stacks.Base.{
  ◌≤◌, ℕ, length-append, take-append, ◌^◌, ◌<◌, ◌≡◌, [], ◌∷◌, ◌++◌, arith, leb, lt→leb, length,
  le→leb, Bool-cases, inl, inr, ap, drop, length-drop, suc, leb→le, leb→lt,
}
use ledger_stacks.Error.{ok, err, parser_unexpected_buffer_end, Returns, ◌>>=◌}
use ledger_stacks.Crates.Reads.{Bytes, to_be, read_bytes, read_be}
use ledger_stacks.Crates.Interface.{Crates, read_bytes-append, read_be-append, read_bytes_splits}

pub Returns-read_bytes : (n : ℕ) (bs : Bytes) → Returns (read_bytes n bs)
Returns-read_bytes n bs = elim (Bool-cases (leb n (length bs))) [
  | inl e ↦ rw e tt
  | inr e ↦ rw e tt
]

pub Returns-read_be : (k : ℕ) (bs : Bytes) → Returns (read_be k bs)
Returns-read_be k bs = elim (Bool-cases (leb k (length bs))) [ inl e ↦ rw e tt | inr e ↦ rw e tt ]

module _ ⦃crates : Crates⦄ where
  pub take-append_ok :
      (n : ℕ) (xs rest : Bytes) → length xs ≡ n → crates.take n (xs ++ rest) ≡ ok (rest, xs)
  take-append_ok n xs rest e = rw crates.take_law (read_bytes-append n xs rest e)

  pub take_short :
      (n : ℕ) (bs : Bytes) → length bs < n → crates.take n bs ≡ err parser_unexpected_buffer_end
  take_short n bs h = rw (crates.take_law, lt→leb n (length bs) h)

  pub take_splits :
      (n : ℕ) (bs : Bytes) {rem x : Bytes}
      → crates.take n bs ≡ ok (rem, x)
      → (x ++ rem ≡ bs) × (length x ≡ n)
  take_splits n bs h = read_bytes_splits n bs (rw crates.take_law at h)

  pub Returns-take : (n : ℕ) (bs : Bytes) → Returns (crates.take n bs)
  Returns-take n bs = rw crates.take_law (Returns-read_bytes n bs)

  pub le_u8-nil : crates.le_u8 [] ≡ err parser_unexpected_buffer_end
  le_u8-nil = rw crates.le_u8_law

  pub le_u8-cons : (b : ℕ) (bs : Bytes) → crates.le_u8 (b ∷ bs) ≡ ok (bs, b)
  le_u8-cons b bs = rw (crates.le_u8_law, le→leb 1 (length (b ∷ bs)) (omega arith)) (ground arith)

  pub Returns-le_u8 : (bs : Bytes) → Returns (crates.le_u8 bs)
  Returns-le_u8 bs = rw crates.le_u8_law (Returns-read_be 1 bs)

  pub be_u32-append :
      (n : ℕ) (rest : Bytes) → n < 2 ^ 32 → crates.be_u32 (to_be 4 n ++ rest) ≡ ok (rest, n)
  be_u32-append n rest h = rw crates.be_u32_law (read_be-append 4 n rest h)

  pub be_u64-append :
      (n : ℕ) (rest : Bytes) → n < 2 ^ 64 → crates.be_u64 (to_be 8 n ++ rest) ≡ ok (rest, n)
  be_u64-append n rest h = rw crates.be_u64_law (read_be-append 8 n rest h)

  pub Returns-be_u32 : (bs : Bytes) → Returns (crates.be_u32 bs)
  Returns-be_u32 bs = rw crates.be_u32_law (Returns-read_be 4 bs)

  pub array_ref-append :
      (n : ℕ) (xs rest : Bytes) → length xs ≡ n → crates.array_ref 0 n (xs ++ rest) ≡ ok xs
  array_ref-append n xs rest e = rw (
    crates.array_ref_law,
    le→leb n (length (xs ++ rest)) (omega (arith, length-append xs rest)),
    take-append n xs rest e,
  )

  -- What a successful read leaves is no longer than the input.
  pub take_shorter :
      (n : ℕ) (bs : Bytes) {rem x : Bytes} → crates.take n bs ≡ ok (rem, x) → length rem ≤ length bs
  take_shorter n bs {rem} {x} h =
      let (e, _) = take_splits n bs h in omega (arith, ap length e, length-append x rem)

  pub be_u32_shorter :
      (bs : Bytes) {rem : Bytes} {n : ℕ} → crates.be_u32 bs ≡ ok (rem, n) → length rem ≤ length bs
  be_u32_shorter bs {rem} h = elim (Bool-cases (leb 4 (length bs))) [
    | inl enough ↦
        let e : drop 4 bs ≡ rem = cc (rw (crates.be_u32_law, enough) at h) in
        omega (arith, ap length e, length-drop 4 bs)
    | inr short ↦ cc (rw (crates.be_u32_law, short) at h)
  ]

  pub take-cons :
      (n m b : ℕ) (bs : Bytes)
      → m ≡ suc n
      → crates.take m (b ∷ bs) ≡ (do (rem, x) ← crates.take n bs; ok (rem, b ∷ x))
  take-cons n m b bs e = elim (Bool-cases (leb n (length bs))) [
    | inl enough ↦
        let more = le→leb (suc n) (suc (length bs)) (omega (arith, leb→le n (length bs) enough)) in
        rw (e, crates.take_law, crates.take_law, enough, more)
    | inr short ↦
        let less = lt→leb (suc n) (suc (length bs)) (omega (arith, leb→lt n (length bs) short)) in
        rw (e, crates.take_law, crates.take_law, short, less)
  ]
