-- ===== src/Common/ClarityName.antt =====
-- parser_common.rs: `ClarityName`, a byte string behind its length byte.
use ledger_stacks.Base.{
  ℕ, ◌+◌, ◌%◌, ◌^◌, ◌≤◌, ◌<◌, ◌≡◌, refl, ap, [], ◌∷◌, ◌++◌, arith, leb, length, length-append,
  le→leb, lt→leb, if◌then◌else◌, Bool-cases, inl, inr,
}
use ledger_stacks.Error.{
  ok, err, ◌>>=◌, panic, out_of_fuel, Returns, Returns->>=, >>=-eq-ok, parser_value_out_of_range,
}
use ledger_stacks.Slice.{slice_from}
use ledger_stacks.Crates.{
  Crates, Codec, Bytes, IResult, le_u8-cons, le_u8-nil, take-append_ok, take_splits, Returns-take,
  Returns-le_u8,
}

pub record ClarityName : Type 0 where
  pub bytes : Bytes

abbrev pub max_len : ℕ
max_len = 128

-- A name as it stands on the wire.
abbrev pub encode : ClarityName → Bytes
encode n = length n.bytes ∷ n.bytes

abbrev pub Fits : ClarityName → Type 0
Fits n = length n.bytes < max_len

module _ ⦃crates : Crates⦄ where
  unfoldable pub read_as_bytes : Bytes → IResult Bytes
  read_as_bytes bytes = do
    (_, len) ← crates.le_u8 bytes
    if leb max_len len then err parser_value_out_of_range else crates.take ((len + 1) % 2 ^ 8) bytes

  unfoldable pub from_bytes : Bytes → IResult ClarityName
  from_bytes bytes = do
    (rem, name) ← read_as_bytes bytes
    name' ← slice_from 1 name
    ok (rem, record { bytes = name' })

  pub read_as_bytes-encode :
      (n : ClarityName) (rest : Bytes)
      → Fits n
      → read_as_bytes (encode n ++ rest) ≡ ok (rest, encode n)
  unfolding read_as_bytes
  read_as_bytes-encode n rest h =
      rw (le_u8-cons, lt→leb max_len (length n.bytes) h)
        (take-append_ok ((length n.bytes + 1) % 2 ^ 8) (encode n) rest (omega arith))

  -- What was taken is one length byte and as many bytes as it says.
  taken_name :
      (b : ℕ) (bs x : Bytes) {rem : Bytes}
      → b < max_len
      → (x ++ rem ≡ b ∷ bs) × (length x ≡ (b + 1) % 2 ^ 8)
      → (n : ClarityName) × (x ≡ encode n) × (encode n ++ rem ≡ b ∷ bs) × Fits n
  taken_name b bs [] h (e, l) = absurd (omega arith)
  taken_name b bs (y ∷ ys) h (e, l) =
      (record { bytes = ys }, ground (arith, e, l), ground (arith, e, l), ground (arith, e, l))

  pub read_as_bytes_splits :
      (bs : Bytes) {rem x : Bytes}
      → read_as_bytes bs ≡ ok (rem, x)
      → (n : ClarityName) × (x ≡ encode n) × (encode n ++ rem ≡ bs) × Fits n
  unfolding read_as_bytes
  read_as_bytes_splits [] h = cc (rw le_u8-nil at h)
  read_as_bytes_splits (b ∷ bs) {rem} {x} h = elim (Bool-cases (leb max_len b)) [
    | inl long ↦ cc (rw (le_u8-cons, long) at h)
    | inr short ↦
        taken_name b bs x (ground arith) (take_splits _ (b ∷ bs) (rw (le_u8-cons, short) at h))
  ]

  pub read_as_bytes_shorter :
      (bs : Bytes) {rem x : Bytes} → read_as_bytes bs ≡ ok (rem, x) → length rem ≤ length bs
  read_as_bytes_shorter bs {rem} h =
      let (n, _, e, _) = read_as_bytes_splits bs h in
      omega (arith, ap length e, length-append n.bytes rem)

  pub from_bytes-encode :
      (n : ClarityName) (rest : Bytes) → Fits n → from_bytes (encode n ++ rest) ≡ ok (rest, n)
  unfolding from_bytes
  from_bytes-encode n rest h =
      rw (read_as_bytes-encode n rest h, le→leb 1 (length (encode n)) (omega arith))

  pub from_bytes_splits :
      (bs : Bytes) {rem : Bytes} {n : ClarityName}
      → from_bytes bs ≡ ok (rem, n)
      → (encode n ++ rem ≡ bs) × Fits n
  unfolding from_bytes
  from_bytes_splits bs {rem} {n} h =
      let ((r, x), taken, rest) = >>=-eq-ok (read_as_bytes bs) _ h in
      let (m, e, split, fits) = read_as_bytes_splits bs taken in
      let rest' = rw (e, le→leb 1 (length (encode m)) (omega arith)) at rest in
      (ground (arith, split, rest'), ground (arith, fits, rest'))

  pub Returns-read_as_bytes : (bs : Bytes) → Returns (read_as_bytes bs)
  unfolding read_as_bytes
  Returns-read_as_bytes bs = Returns->>= (crates.le_u8 bs) _ (Returns-le_u8 bs) λ (_, len) e.
      elim (Bool-cases (leb max_len len)) [
        | inl long ↦ rw long tt
        | inr short ↦ rw short (Returns-take _ bs)
      ]

  pub Returns-from_bytes : (bs : Bytes) → Returns (from_bytes bs)
  unfolding from_bytes
  Returns-from_bytes bs = Returns->>= (read_as_bytes bs) _ (Returns-read_as_bytes bs) λ (rem, x) e.
      let (n, shape, _, _) = read_as_bytes_splits bs e in
      rw (shape, le→leb 1 (length (encode n)) (omega arith)) tt

  pub ClarityName-Codec : Codec from_bytes encode Fits
  ClarityName-Codec = record {
    decodes = from_bytes-encode;
    splits = λ bs rem n. from_bytes_splits bs;
    returns = Returns-from_bytes;
  }

  -- The raw form of a name that was read.
  pub read_as_bytes-eq :
      (bs : Bytes) → read_as_bytes bs ≡ (do (rem, n) ← from_bytes bs; ok (rem, encode n))
  unfolding from_bytes
  read_as_bytes-eq bs = go (read_as_bytes bs) refl
    where
      go :
          (r : IResult Bytes)
          → read_as_bytes bs ≡ r
          → r ≡ (
              (r >>= λ (rem, name).
              slice_from 1 name >>= λ name'. ok (rem, record { bytes = name' }))
              >>= λ (rem, n). ok (rem, encode n))
      go (ok (rem, x)) e =
          let (n, shape, _, _) = read_as_bytes_splits bs e in
          rw (shape, le→leb 1 (length (encode n)) (omega arith))
      go (err e) _ = refl
      go panic _ = refl
      go out_of_fuel _ = refl
