-- ===== src/Format/FixedPoint/Exact.antt =====
-- zxformat.rs: the text with a decimal point stands for the number.
use ledger_stacks.Base.{
  ℕ, zero, suc, ◌+◌, ◌-◌, ◌*◌, ◌^◌, ◌≤◌, ◌<◌, ◌≡◌, ◌∙◌, refl, ap, sym, [], ◌∷◌, ◌++◌, append-nil,
  length, take, drop, replicate, leb, ◌==◌, ◌&&◌, not, Bool, true, false, arith, All, Bool-cases,
  inl, inr, leb→lt, leb→le, length-append, length-replicate, length-take, length-drop,
  take-append-drop, take-append, le→leb,
}
use native.Mathlib.Nat.{pow-suc}
use ledger_stacks.Error.{ok}
use ledger_stacks.Slice.{zeroed}
use ledger_stacks.Crates.{Bytes}
use ledger_stacks.Format.Writer.{write_fmt-new_writer, write_str-new_writer, concat}
use ledger_stacks.Format.Decimal.{
  IsDigit, of_decimal, of_decimal_from, of_decimal_from-append, decimal, decimal-IsDigit,
  of_decimal-decimal, length-decimal-le, u64_to_str, IsDigit-append,
}
use ledger_stacks.Format.Utf8.{char_count, is_utf8-digits, char_count-digits, starts_char-digits}
use ledger_stacks.Format.FixedPoint.{
  cuts_character, fpstr_to_str, fpu64_to_str, pieces, pad_zeros, starts_with_minus,
  max_str_buff_len,
}

-- The digits before and behind the point, what they stand for, and how long they are.
abbrev pub Splits : ℕ → ℕ → Bytes → Bytes → Type 0
Splits n d whole frac =
    (All IsDigit whole × All IsDigit frac)
    × ((length frac ≡ d) × (of_decimal whole * 10 ^ d + of_decimal frac ≡ n))

power : (k : ℕ) → 10 ^ suc k ≡ 10 * 10 ^ k
power k = omega (arith, pow-suc 10 k)

from_accumulator :
    (acc : ℕ) (cs : Bytes) → of_decimal_from acc cs ≡ acc * 10 ^ length cs + of_decimal cs
from_accumulator acc [] = omega arith
from_accumulator acc (c ∷ cs) = omega (
  arith,
  from_accumulator (acc * 10 + (c - b'0')) cs,
  from_accumulator (0 * 10 + (c - b'0')) cs,
  ap (λ (t : ℕ). acc * t) (power (length cs)),
)

of_decimal-zeros : (k : ℕ) (cs : Bytes) → of_decimal (replicate k b'0' ++ cs) ≡ of_decimal cs
of_decimal-zeros zero cs = refl
of_decimal-zeros (suc k) cs = of_decimal-zeros k cs

zeros-IsDigit : (k : ℕ) → All IsDigit (replicate k b'0')
zeros-IsDigit zero = tt
zeros-IsDigit (suc k) = ((omega arith, omega arith), zeros-IsDigit k)

take-IsDigit : (k : ℕ) (cs : Bytes) → All IsDigit cs → All IsDigit (take k cs)
take-IsDigit zero cs h = tt
take-IsDigit (suc k) [] h = tt
take-IsDigit (suc k) (c ∷ cs) (hc, h) = (hc, take-IsDigit k cs h)

drop-IsDigit : (k : ℕ) (cs : Bytes) → All IsDigit cs → All IsDigit (drop k cs)
drop-IsDigit zero cs h = h
drop-IsDigit (suc k) [] h = tt
drop-IsDigit (suc k) (c ∷ cs) (hc, h) = drop-IsDigit k cs h

no_minus : (cs : Bytes) → All IsDigit cs → starts_with_minus cs ≡ false
no_minus [] h = refl
no_minus (c ∷ cs) ((low, high), h) = ground arith

not_zero : (d : ℕ) → 0 < d → (d == 0) ≡ false
not_zero d h = ground arith

joined :
    (at d : ℕ) (s : Bytes)
    → length (drop at s) ≡ d
    → of_decimal (take at s) * 10 ^ d + of_decimal (drop at s) ≡ of_decimal s
joined at d s e =
    let whole = of_decimal (take at s) in
    rw (← e) (
      sym (from_accumulator whole (drop at s))
      ∙ sym (of_decimal_from-append 0 (take at s) (drop at s))
      ∙ ap of_decimal (take-append-drop at s))

-- The digits of a number, and the point among them.
parts :
    (s : Bytes) (d : ℕ)
    → 0 < d
    → All IsDigit s
    → (whole : Bytes) × ((frac : Bytes) × ((concat (pieces s d) ≡ whole ++ b'.' ∷ frac)
          × ((length whole ≤ length s + 1) × Splits (of_decimal s) d whole frac)))
parts s d pos digits = elim (Bool-cases (leb (length s) d)) [
  | inl short ↦
      let zeros = pad_zeros s d in
      let size = length-append zeros s in
      (
        b'0' ∷ [],
        (
          zeros ++ s,
          (
            rw (not_zero d pos, short, no_minus s digits, append-nil),
            (
              omega arith,
              (
                (
                  ((omega arith, omega arith), tt),
                  IsDigit-append zeros s (zeros-IsDigit (d - char_count s)) digits,
                ),
                (
                  omega (
                    arith,
                    size,
                    length-replicate {A = ℕ} (d - char_count s) b'0',
                    char_count-digits s digits,
                    leb→le (length s) d short,
                  ),
                  omega (arith, of_decimal-zeros (d - char_count s) s),
                ),
              ),
            ),
          ),
        ),
      )
  | inr long ↦
      let at = length s - d in
      let width = length-drop at s in
      let more = leb→lt (length s) d long in
      let same : length (drop at s) ≡ d = omega (arith, width, more) in
      (
        take at s,
        (
          drop at s,
          (
            rw (not_zero d pos, long, append-nil),
            (
              omega (arith, length-take at s),
              ((take-IsDigit at s digits, drop-IsDigit at s digits), (same, joined at d s same)),
            ),
          ),
        ),
      )
]

-- Every cut of digits is between two characters.
no_cut : (s : Bytes) (d : ℕ) → All IsDigit s → cuts_character s d ≡ false
no_cut s d digits =
    rw (starts_char-digits (drop (length s - d) s) (drop-IsDigit (length s - d) s digits))
      (never (not (d == 0) && not (leb (length s) d)))
  where
    never : (b : Bool) → (b && false) ≡ false
    never true = refl
    never false = refl

drop-zeroed : (k : ℕ) (out : Bytes) → drop k (zeroed out) ≡ replicate (length out - k) 0
drop-zeroed zero out = ap (λ (t : ℕ). replicate t 0) {x = length out} (omega arith)
drop-zeroed (suc k) [] = ap (λ (t : ℕ). replicate t 0) {x = 0} (omega arith)
drop-zeroed (suc k) (x ∷ out) =
    drop-zeroed k out ∙ ap (λ (t : ℕ). replicate t 0) {x = length out - k} (omega arith)

-- The device's buffer of 30 bytes is enough for the digits.
digits_first :
    (out : Bytes) (n d : ℕ) → n < 2 ^ 64 → fpu64_to_str out n d ≡ fpstr_to_str out (decimal n) d
unfolding fpu64_to_str u64_to_str
digits_first out n d h =
    let short = length-decimal-le n h in
    let temp = replicate max_str_buff_len 0 in
    let whole = length-append (decimal n) (drop (length (decimal n)) temp) in
    rw (
      write_str-new_writer temp (decimal n) (omega (arith, short)),
      le→leb (length (decimal n)) (length (decimal n ++ drop (length (decimal n)) temp))
          (omega (arith, whole)),
      take-append (length (decimal n)) (decimal n) (drop (length (decimal n)) temp) refl,
    )

-- A number below 2^64 is written with `d` digits behind the point, zeros among them where it has
-- fewer, if the buffer has 22 bytes more than that: what stands before and behind the point are
-- digits, they stand for the number, the rest of the buffer is zero, and the length is returned.
pub fpu64_to_str-exact :
    (out : Bytes) (n d : ℕ)
    → n < 2 ^ 64
    → 0 < d
    → d + 22 ≤ length out
    → (whole : Bytes) × ((frac : Bytes) × (Splits n d whole frac
          × (fpu64_to_str out n d
              ≡ ok (
                (whole ++ b'.' ∷ frac) ++ replicate (length out - length (whole ++ b'.' ∷ frac)) 0,
                length (whole ++ b'.' ∷ frac),
              ))))
unfolding fpstr_to_str
fpu64_to_str-exact out n d h pos room =
    let (whole, (frac, (text, (short, splits)))) = parts (decimal n) d pos (decimal-IsDigit n) in
    let size = length-append whole (b'.' ∷ frac) in
    let digits = length-decimal-le n h in
    let value : of_decimal (decimal n) ≡ n = of_decimal-decimal n (omega arith) in
    let fits : length (concat (pieces (decimal n) d)) ≤ length (zeroed out) =
      rw (text, length-replicate {A = ℕ} (length out) 0)
        (omega (arith, size, digits, short, splits.1.0)) in
    (
      whole,
      (
        frac,
        (
          (splits.0, (splits.1.0, splits.1.1 ∙ value)),
          rw (
            digits_first out n d h,
            is_utf8-digits (decimal n) (decimal-IsDigit n),
            no_cut (decimal n) d (decimal-IsDigit n),
            write_fmt-new_writer (zeroed out) (pieces (decimal n) d) fits,
            text,
            drop-zeroed (length (whole ++ b'.' ∷ frac)) out,
          ),
        ),
      ),
    )
