-- ===== src/Message/Varint.antt =====
-- app/rust/src/parser/utils.rs: `read_varint`, the variable-length integer of Bitcoin.
use ledger_stacks.Base.{
  length, ℕ, ◌^◌, ◌<◌, ◌≡◌, ◌∷◌, ◌++◌, [], ltb, ◌==◌, arith, if◌then◌else◌, Bool-cases, inl, inr,
  ltb→lt,
}
use ledger_stacks.Error.{err, parser_unexpected_buffer_end, ok, ◌>>=◌}
use ledger_stacks.Crates.{le_u8-nil, Crates, Bytes, IResult, to_le, le_u8-cons, read_le-append}

module _ ⦃crates : Crates⦄ where
  unfoldable pub read_varint : Bytes → IResult ℕ
  read_varint input = do
    (rem, prefix) ← crates.le_u8 input
    if prefix == 0xfd
        then crates.le_u16 rem
        else if prefix == 0xfe
        then crates.le_u32 rem
        else if prefix == 0xff
        then crates.le_u64 rem
        else ok (rem, prefix)

prefix_alone :
    (n : ℕ) (rest : Bytes) (m k l : IResult ℕ)
    → n < 0xfd
    → (if n == 0xfd then m else if n == 0xfe then k else if n == 0xff then l else ok (rest, n))
      ≡ ok (rest, n)
prefix_alone n rest m k l h = ground arith

-- The shortest form of a number.
abbrev pub encode : ℕ → Bytes
encode n =
    if ltb n 0xfd
    then n ∷ []
    else if ltb n (2 ^ 16)
    then 0xfd ∷ to_le 2 n
    else if ltb n (2 ^ 32)
    then 0xfe ∷ to_le 4 n
    else 0xff ∷ to_le 8 n

module _ ⦃crates : Crates⦄ where
  -- A number below 2^64 is read from its shortest form, off the front of any input.
  pub read_varint-encode :
      (n : ℕ) (rest : Bytes) → n < 2 ^ 64 → read_varint (encode n ++ rest) ≡ ok (rest, n)
  unfolding read_varint
  read_varint-encode n rest h = elim (Bool-cases (ltb n 0xfd)) [
    | inl one ↦ rw (one, le_u8-cons) (prefix_alone n rest _ _ _ (ltb→lt n 0xfd one))
    | inr more ↦ elim (Bool-cases (ltb n (2 ^ 16))) [
      | inl two ↦
          rw (more, two, le_u8-cons, crates.le_u16_law)
            (read_le-append 2 n rest (omega (arith, ltb→lt n (2 ^ 16) two)))
      | inr more' ↦ elim (Bool-cases (ltb n (2 ^ 32))) [
        | inl four ↦
            rw (more, more', four, le_u8-cons, crates.le_u32_law)
              (read_le-append 4 n rest (omega (arith, ltb→lt n (2 ^ 32) four)))
        | inr more'' ↦
            rw (more, more', more'', le_u8-cons, crates.le_u64_law) (read_le-append 8 n rest h)
      ]
    ]
  ]

  pub read_varint-nil : read_varint [] ≡ err parser_unexpected_buffer_end
  unfolding read_varint
  read_varint-nil = rw le_u8-nil

pub encode_pos : (n : ℕ) → 0 < length (encode n)
encode_pos n = ground arith
