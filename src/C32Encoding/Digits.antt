-- ===== src/C32Encoding/Digits.antt =====
-- c32.rs: the digits of base 32 and the numbers that they stand for.
use ledger_stacks.Base.{
  subst, sym, ℕ, zero, suc, ◌+◌, ◌*◌, ◌^◌, ◌<◌, ◌≡◌, refl, ap, [], ◌∷◌, ◌++◌, length, get_elem?,
  none, some, ◌==◌, ◌&&◌, Bool, true, false, arith, if◌then◌else◌, ==_iff, lt→ltb, All,
  length-append, Bool-cases, inl, inr,
}
use mathlib.Core.List.{reverse, reverse-cons}
use native.Mathlib.Nat.{pow-suc}
use ledger_stacks.Error.{ok}
use ledger_stacks.Slice.{index}
use ledger_stacks.Crates.{Bytes, IsByte, of_be, of_be_from, of_le}
use ledger_stacks.Common.Limits.{c32_encoded_addrs_length}
use ledger_stacks.C32Encoding.{c32_characters, push_char, try_push}

-- The character of a digit, and the digit of a character.
unfoldable pub char_of : ℕ → ℕ
char_of d = elim (get_elem? c32_characters d) [ none ↦ 0 | some v ↦ v ]

unfoldable position : Bytes → ℕ → ℕ
position [] c = 0
position (x ∷ xs) c = let rest = suc (position xs c) in if x == c then 0 else rest

unfoldable pub digit_of : ℕ → ℕ
unfolding position
digit_of c = position c32_characters c

-- Whether the digits below a bound come back from their characters.
unfoldable comes_back : ℕ → Bool
unfolding digit_of char_of
comes_back zero = true
comes_back (suc last) = comes_back last && (digit_of (char_of last) == last)

both_true : (a b : Bool) → (a && b) ≡ true → (a ≡ true) × (b ≡ true)
both_true true b e = (refl, e)
both_true false b e = cc

comes_back_at :
    (bound d : ℕ) → d < bound → comes_back bound ≡ true → (digit_of (char_of d) == d) ≡ true
unfolding comes_back
comes_back_at zero d h e = absurd (omega arith)
comes_back_at (suc last) d h e = elim (Bool-cases (d == last)) [
  | inl same ↦
      subst (λ (k : ℕ). (digit_of (char_of k) == k) ≡ true) (sym ((==_iff d last).0 same))
        (both_true (comes_back last) _ e).1
  | inr other ↦
      comes_back_at last d (ground (arith, ==_iff d last)) (both_true (comes_back last) _ e).0
]

all_come_back : comes_back 32 ≡ true
unfolding comes_back digit_of char_of position
all_come_back = refl

pub digit_of-char_of : (d : ℕ) → d < 32 → digit_of (char_of d) ≡ d
digit_of-char_of d h = (==_iff (digit_of (char_of d)) d).0 (comes_back_at 32 d h all_come_back)

-- The number that a text stands for, its first character the highest digit.
abbrev pub of_c32 : Bytes → ℕ
of_c32 [] = 0
of_c32 (c ∷ cs) = digit_of c * 32 ^ length cs + of_c32 cs

pub pow_32 : (k : ℕ) → 32 ^ suc k ≡ 32 * 32 ^ k
pow_32 k = omega (arith, pow-suc 32 k)

pub pow_256 : (k : ℕ) → 256 ^ suc k ≡ 256 * 256 ^ k
pow_256 k = omega (arith, pow-suc 256 k)

index_char :
    (s : Bytes) (d : ℕ)
    → d < length s
    → index s d ≡ ok (elim (get_elem? s d) [ none ↦ 0 | some v ↦ v ])
index_char [] d h = absurd (omega arith)
index_char (x ∷ xs) zero h = refl
index_char (x ∷ xs) (suc d) h = index_char xs d (omega arith)

pub char-index : (d : ℕ) → d < 32 → index c32_characters d ≡ ok (char_of d)
unfolding char_of
char-index d h = index_char c32_characters d h

pub push_char-fits :
    (result : Bytes) (d : ℕ)
    → d < 32
    → length result < c32_encoded_addrs_length
    → push_char result d ≡ ok (char_of d ∷ result)
unfolding push_char try_push
push_char-fits result d h room =
    rw (char-index d h, lt→ltb (length result) c32_encoded_addrs_length room)

-- Little-endian bytes backwards are big-endian bytes.
of_le-append : (xs ys : Bytes) → of_le (xs ++ ys) ≡ of_le xs + 256 ^ length xs * of_le ys
of_le-append [] ys = omega arith
of_le-append (x ∷ xs) ys =
    omega (arith, of_le-append xs ys, ap (λ (t : ℕ). t * of_le ys) (pow_256 (length xs)))

of_be_from-acc : (acc : ℕ) (xs : Bytes) → of_be_from acc xs ≡ acc * 256 ^ length xs + of_be xs
of_be_from-acc acc [] = omega arith
of_be_from-acc acc (x ∷ xs) = omega (
  arith,
  of_be_from-acc (acc * 256 + x) xs,
  of_be_from-acc (0 * 256 + x) xs,
  ap (λ (t : ℕ). acc * t) (pow_256 (length xs)),
)

pub length-reverse : (xs : Bytes) → length (reverse xs) ≡ length xs
length-reverse [] = refl
length-reverse (x ∷ xs) =
    rw (reverse-cons x xs) (omega (arith, length-append (reverse xs) (x ∷ []), length-reverse xs))

pub of_le-reverse : (xs : Bytes) → of_le (reverse xs) ≡ of_be xs
of_le-reverse [] = refl
of_le-reverse (x ∷ xs) =
    rw (reverse-cons x xs, of_le-append (reverse xs) (x ∷ []), length-reverse xs)
      (omega (arith, of_le-reverse xs, of_be_from-acc (0 * 256 + x) xs))

IsByte-append : (xs ys : Bytes) → All IsByte xs → All IsByte ys → All IsByte (xs ++ ys)
IsByte-append [] ys hx hy = hy
IsByte-append (x ∷ xs) ys (h, hx) hy = (h, IsByte-append xs ys hx hy)

pub reverse-IsByte : (xs : Bytes) → All IsByte xs → All IsByte (reverse xs)
reverse-IsByte [] h = tt
reverse-IsByte (x ∷ xs) (hx, h) =
    rw (reverse-cons x xs) (IsByte-append (reverse xs) (x ∷ []) (reverse-IsByte xs h) (hx, tt))

pub digit_of-zero : digit_of b'0' ≡ 0
unfolding digit_of
digit_of-zero = refl

-- Every character but the zero stands for a digit above zero.
pub position-pos : (c : ℕ) → (c == b'0') ≡ false → 0 < digit_of c
unfolding digit_of
position-pos c h = elim (Bool-cases (b'0' == c)) [
  | inl same ↦ absurd (ground arith)
  | inr other ↦ rw other (omega arith)
]
