-- ===== src/Crates/Interface.antt =====
-- The third-party calls of the parsers, with their laws.
use ledger_stacks.Base
use ledger_stacks.Base.{
  ℕ, ◌^◌, ◌<◌, ◌≡◌, refl, ◌++◌, arith, leb, Bool-cases, inl, inr, length, length-append,
  length-take, take-append-drop, take-append, drop-append, le→leb, bytes_eq, if◌then◌else◌,
}
use ledger_stacks.Error.{Result, ok, err, from_error_kind, other}
use ledger_stacks.Slice.{slice_to}
use ledger_stacks.Crates.Reads.{
  Bytes, IResult, read_bytes, read_be, read_le, to_be, to_le, length-to_be, of_be-to_be,
  length-to_le, of_le-to_le,
}

-- The calls of nom 5.1 and arrayref 0.3. Each law is the documented result of the call, on enough input and on too little.
pub record Crates : Type 0 where
  pub take : ℕ → Bytes → IResult Bytes
  pub le_u8 : Bytes → IResult ℕ
  pub be_u16 : Bytes → IResult ℕ
  pub be_u32 : Bytes → IResult ℕ
  pub be_u64 : Bytes → IResult ℕ
  pub be_u128 : Bytes → IResult ℕ
  pub le_u16 : Bytes → IResult ℕ
  pub le_u32 : Bytes → IResult ℕ
  pub le_u64 : Bytes → IResult ℕ
  -- `array_ref!(s, at, len)` of arrayref
  pub array_ref : ℕ → ℕ → Bytes → Result Bytes
  -- `tag(t)(s)`
  pub tag : Bytes → Bytes → IResult Bytes
  pub tag_law :
      (t bs : Bytes)
      → tag t bs ≡ (
          if bytes_eq (Base.take (length t) bs) t
          then ok (Base.drop (length t) bs, t)
          else err (from_error_kind other))
  pub take_law : (n : ℕ) (bs : Bytes) → take n bs ≡ read_bytes n bs
  pub le_u8_law : (bs : Bytes) → le_u8 bs ≡ read_be 1 bs
  pub be_u16_law : (bs : Bytes) → be_u16 bs ≡ read_be 2 bs
  pub be_u32_law : (bs : Bytes) → be_u32 bs ≡ read_be 4 bs
  pub be_u64_law : (bs : Bytes) → be_u64 bs ≡ read_be 8 bs
  pub be_u128_law : (bs : Bytes) → be_u128 bs ≡ read_be 16 bs
  pub le_u16_law : (bs : Bytes) → le_u16 bs ≡ read_le 2 bs
  pub le_u32_law : (bs : Bytes) → le_u32 bs ≡ read_le 4 bs
  pub le_u64_law : (bs : Bytes) → le_u64 bs ≡ read_le 8 bs
  pub array_ref_law : (len : ℕ) (bs : Bytes) → array_ref 0 len bs ≡ slice_to len bs

-- The laws can be met.
abbrev pub crates_model : Crates
crates_model = record {
  take = read_bytes;
  le_u8 = read_be 1;
  be_u16 = read_be 2;
  be_u32 = read_be 4;
  be_u64 = read_be 8;
  be_u128 = read_be 16;
  le_u16 = read_le 2;
  le_u32 = read_le 4;
  le_u64 = read_le 8;
  array_ref = λ at len bs. slice_to len (Base.drop at bs);
  tag = λ t bs.
      if bytes_eq (Base.take (length t) bs) t
      then ok (Base.drop (length t) bs, t)
      else err (from_error_kind other);
  tag_law = λ t bs. refl;
  take_law = λ n bs. refl;
  le_u8_law = λ bs. refl;
  be_u16_law = λ bs. refl;
  be_u32_law = λ bs. refl;
  be_u64_law = λ bs. refl;
  be_u128_law = λ bs. refl;
  le_u16_law = λ bs. refl;
  le_u32_law = λ bs. refl;
  le_u64_law = λ bs. refl;
  array_ref_law = λ len bs. refl;
}

pub read_bytes-append :
    (n : ℕ) (xs rest : Bytes) → length xs ≡ n → read_bytes n (xs ++ rest) ≡ ok (rest, xs)
read_bytes-append n xs rest e = rw (
  le→leb n (length (xs ++ rest)) (omega (arith, length-append xs rest)),
  drop-append n xs rest e,
  take-append n xs rest e,
)

pub read_be-append :
    (k n : ℕ) (rest : Bytes) → n < 256 ^ k → read_be k (to_be k n ++ rest) ≡ ok (rest, n)
read_be-append k n rest h =
    let e = length-to_be k n in
    rw (
      le→leb k (length (to_be k n ++ rest)) (omega (arith, length-append (to_be k n) rest)),
      drop-append k (to_be k n) rest e,
      take-append k (to_be k n) rest e,
      of_be-to_be k n h,
    )

pub read_le-append :
    (k n : ℕ) (rest : Bytes) → n < 256 ^ k → read_le k (to_le k n ++ rest) ≡ ok (rest, n)
read_le-append k n rest h =
    let e = length-to_le k n in
    rw (
      le→leb k (length (to_le k n ++ rest)) (omega (arith, length-append (to_le k n) rest)),
      drop-append k (to_le k n) rest e,
      take-append k (to_le k n) rest e,
      of_le-to_le k n h,
    )

-- A successful read splits the input.
pub read_bytes_splits :
    (n : ℕ) (bs : Bytes) {rem x : Bytes}
    → read_bytes n bs ≡ ok (rem, x)
    → (x ++ rem ≡ bs) × (length x ≡ n)
read_bytes_splits n bs {rem} {x} h = elim (Bool-cases (leb n (length bs))) [
  | inl enough ↦ let e = rw enough at h in ground (arith, take-append-drop n bs, length-take n bs)
  | inr short ↦ ground arith
]
