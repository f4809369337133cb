-- ===== src/Format/Decimal.antt =====
-- Numbers as decimal text: what `core::fmt` writes for `{}`, and `u64_to_str` of zxformat.rs.
use ledger_stacks.Base.{
  ℕ, zero, suc, ◌+◌, ◌-◌, ◌*◌, ◌/◌, ◌%◌, ◌^◌, ◌≤◌, ◌<◌, ◌≡◌, refl, [], ◌∷◌, ◌++◌, length,
  length-append, ltb, ltb→lt, if◌then◌else◌, arith, All, false, Bool-cases, inl, inr,
}
use native.Mathlib.Nat.{pow-suc}
use ledger_stacks.Error.{Result, ok, err, ok_or, ◌>>=◌, parser_unexpected_buffer_end}
use ledger_stacks.Crates.{Bytes}
use ledger_stacks.Format.Writer.{new_writer, write_str}

-- At most `k` digits, without zeros in front.
unfoldable pub to_digits : ℕ → ℕ → Bytes
to_digits zero n = []
to_digits (suc k) n =
    if ltb n 10 then (n + b'0') ∷ [] else to_digits k (n / 10) ++ (n % 10 + b'0') ∷ []

-- 39 digits hold every number below 2^128.
abbrev pub max_digits : ℕ
max_digits = 39

unfoldable pub decimal : ℕ → Bytes
decimal n = to_digits max_digits n

-- The number that decimal digits stand for.
abbrev pub of_decimal_from : ℕ → Bytes → ℕ
of_decimal_from acc [] = acc
of_decimal_from acc (c ∷ cs) = of_decimal_from (acc * 10 + (c - b'0')) cs

abbrev pub of_decimal : Bytes → ℕ
of_decimal cs = of_decimal_from 0 cs

abbrev pub IsDigit : ℕ → Type 0
IsDigit c = (b'0' ≤ c) × (c ≤ b'9')

-- The buffer after the call, and the number of bytes written.
unfoldable pub u64_to_str : Bytes → ℕ → Result (Bytes × ℕ)
u64_to_str output number = if ltb (length output) 2 then err parser_unexpected_buffer_end else do
  written ← write_str (new_writer output) (decimal number)
  w ← ok_or parser_unexpected_buffer_end written
  ok (w.buf, w.offset)

pub of_decimal_from-append :
    (acc : ℕ) (xs ys : Bytes)
    → of_decimal_from acc (xs ++ ys) ≡ of_decimal_from (of_decimal_from acc xs) ys
of_decimal_from-append acc [] ys = refl
of_decimal_from-append acc (x ∷ xs) ys = of_decimal_from-append (acc * 10 + (x - b'0')) xs ys

pow_ten : (k : ℕ) → 10 ^ suc k ≡ 10 * 10 ^ k
pow_ten k = omega (arith, pow-suc 10 k)

pub IsDigit-append : (xs ys : Bytes) → All IsDigit xs → All IsDigit ys → All IsDigit (xs ++ ys)
IsDigit-append [] ys hx hy = hy
IsDigit-append (x ∷ xs) ys (h, hx) hy = (h, IsDigit-append xs ys hx hy)

of_decimal-to_digits : (k n : ℕ) → n < 10 ^ k → 0 < k → of_decimal (to_digits k n) ≡ n
unfolding to_digits
of_decimal-to_digits zero n h pos = absurd (omega arith)
of_decimal-to_digits (suc zero) n h pos = ground arith
of_decimal-to_digits (suc (suc k)) n h pos = elim (Bool-cases (ltb n 10)) [
  | inl small ↦ rw small (omega arith)
  | inr large ↦
      rw
        (
          large,
          of_decimal_from-append 0 (to_digits (suc k) (n / 10)) ((n % 10 + b'0') ∷ []),
          of_decimal-to_digits (suc k) (n / 10) (omega (arith, pow_ten (suc k))) (omega arith),
        )
        (omega arith)
]

length-to_digits-le : (k j n : ℕ) → n < 10 ^ j → 0 < j → length (to_digits k n) ≤ j
unfolding to_digits
length-to_digits-le zero j n h pos = omega arith
length-to_digits-le (suc k) zero n h pos = absurd (omega arith)
length-to_digits-le (suc k) (suc j) n h pos = elim (Bool-cases (ltb n 10)) [
  | inl small ↦ rw small (omega arith)
  | inr large ↦
      rw (large, length-append (to_digits k (n / 10)) ((n % 10 + b'0') ∷ []))
        (omega
          (arith, length-to_digits-le k j (n / 10) (omega (arith, pow_ten j)) (longer j n large h)))
]
  where
    longer : (j n : ℕ) → ltb n 10 ≡ false → n < 10 ^ suc j → 0 < j
    longer zero n large h = absurd (ground arith)
    longer (suc j) n large h = omega arith

to_digits-IsDigit : (k n : ℕ) → All IsDigit (to_digits k n)
unfolding to_digits
to_digits-IsDigit zero n = tt
to_digits-IsDigit (suc k) n = elim (Bool-cases (ltb n 10)) [
  | inl small ↦ rw small ((omega arith, omega (arith, ltb→lt n 10 small)), tt)
  | inr large ↦ rw large (
      IsDigit-append (to_digits k (n / 10)) ((n % 10 + b'0') ∷ []) (to_digits-IsDigit k (n / 10))
        ((omega arith, omega arith), tt))
]

length-to_digits-pos : (k n : ℕ) → 0 < length (to_digits (suc k) n)
unfolding to_digits
length-to_digits-pos k n = elim (Bool-cases (ltb n 10)) [
  | inl small ↦ rw small (omega arith)
  | inr large ↦
      rw (large, length-append (to_digits k (n / 10)) ((n % 10 + b'0') ∷ [])) (omega arith)
]

pub of_decimal-decimal : (n : ℕ) → n < 2 ^ 128 → of_decimal (decimal n) ≡ n
unfolding decimal
of_decimal-decimal n h = of_decimal-to_digits max_digits n (omega arith) (omega arith)

pub length-decimal-le : (n : ℕ) → n < 2 ^ 64 → length (decimal n) ≤ 20
unfolding decimal
length-decimal-le n h = length-to_digits-le max_digits 20 n (omega arith) (omega arith)

pub length-decimal-pos : (n : ℕ) → 0 < length (decimal n)
unfolding decimal
length-decimal-pos n = length-to_digits-pos 38 n

pub decimal-IsDigit : (n : ℕ) → All IsDigit (decimal n)
unfolding decimal
decimal-IsDigit n = to_digits-IsDigit max_digits n
