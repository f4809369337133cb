-- ===== src/Crates/Reads.antt =====
-- What nom's complete parsers read: byte strings, and unsigned numbers in either byte order.
use ledger_stacks.Base
use ledger_stacks.Base.{
  ℕ, zero, suc, ◌+◌, ◌*◌, ◌/◌, ◌%◌, ◌^◌, ◌≤◌, ◌<◌, ◌≡◌, refl, ap, List, [], ◌∷◌, ◌++◌, arith, leb,
  length, length-append, All, if◌then◌else◌, append_assoc,
}
use ledger_stacks.Error.{Result, ok, err, from_error_kind, eof}
use native.Mathlib.Nat.{pow-suc}

abbrev pub Bytes : Type 0
Bytes = List ℕ

abbrev pub IsByte : ℕ → Type 0
IsByte b = b < 256

-- The value and what is left, in nom's order.
abbrev pub IResult : Type 0 → Type 0
IResult A = Result (Bytes × A)

-- The number that a big-endian byte string stands for, and `to_be_bytes` at a width of `k` bytes.
abbrev pub of_be_from : ℕ → Bytes → ℕ
of_be_from acc [] = acc
of_be_from acc (b ∷ bs) = of_be_from (acc * 256 + b) bs

abbrev pub of_be : Bytes → ℕ
of_be bs = of_be_from 0 bs

abbrev pub to_be : ℕ → ℕ → Bytes
to_be zero n = []
to_be (suc k) n = to_be k (n / 256) ++ (n % 256) ∷ []

abbrev pub of_le : Bytes → ℕ
of_le [] = 0
of_le (b ∷ bs) = b + 256 * of_le bs

abbrev pub to_le : ℕ → ℕ → Bytes
to_le zero n = []
to_le (suc k) n = (n % 256) ∷ to_le k (n / 256)

-- The first `n` bytes, or the end-of-input error.
abbrev pub read_bytes : ℕ → Bytes → IResult Bytes
read_bytes n bs =
    if leb n (length bs) then ok (Base.drop n bs, Base.take n bs) else err (from_error_kind eof)

abbrev pub read_be : ℕ → Bytes → IResult ℕ
read_be k bs =
    if leb k (length bs)
    then ok (Base.drop k bs, of_be (Base.take k bs))
    else err (from_error_kind eof)

abbrev pub read_le : ℕ → Bytes → IResult ℕ
read_le k bs =
    if leb k (length bs)
    then ok (Base.drop k bs, of_le (Base.take k bs))
    else err (from_error_kind eof)

pub length-to_be : (k n : ℕ) → length (to_be k n) ≡ k
length-to_be zero n = refl
length-to_be (suc k) n =
    omega (arith, length-append (to_be k (n / 256)) ((n % 256) ∷ []), length-to_be k (n / 256))

pub length-to_le : (k n : ℕ) → length (to_le k n) ≡ k
length-to_le zero n = refl
length-to_le (suc k) n = ap suc (length-to_le k (n / 256))

of_be_from-append :
    (acc : ℕ) (xs : Bytes) (b : ℕ) → of_be_from acc (xs ++ b ∷ []) ≡ of_be_from acc xs * 256 + b
of_be_from-append acc [] b = refl
of_be_from-append acc (x ∷ xs) b = of_be_from-append (acc * 256 + x) xs b

pow_step : (k : ℕ) → 256 ^ suc k ≡ 256 * 256 ^ k
pow_step k = omega (arith, pow-suc 256 k)

pub of_be-to_be : (k n : ℕ) → n < 256 ^ k → of_be (to_be k n) ≡ n
of_be-to_be zero n h = omega arith
of_be-to_be (suc k) n h =
    rw (of_be_from-append 0 (to_be k (n / 256)) (n % 256))
      (omega (arith, of_be-to_be k (n / 256) (omega (arith, pow_step k))))

pub of_le-to_le : (k n : ℕ) → n < 256 ^ k → of_le (to_le k n) ≡ n
of_le-to_le zero n h = omega arith
of_le-to_le (suc k) n h = omega (arith, of_le-to_le k (n / 256) (omega (arith, pow_step k)))

of_be_from-lt :
    (acc m : ℕ) (xs : Bytes) → All IsByte xs → acc < m → of_be_from acc xs < m * 256 ^ length xs
of_be_from-lt acc m [] h a = omega arith
of_be_from-lt acc m (x ∷ xs) (hx, hs) a = omega (
  arith,
  of_be_from-lt (acc * 256 + x) (m * 256) xs hs (omega arith),
  ap (λ (t : ℕ). m * t) (pow_step (length xs)),
)

-- What is read from `k` bytes fits in `k` bytes.
pub of_be-lt : (xs : Bytes) → All IsByte xs → of_be xs < 256 ^ length xs
of_be-lt xs h = omega (arith, of_be_from-lt 0 1 xs h (omega arith))

pub to_be-IsByte : (k n : ℕ) → All IsByte (to_be k n)
to_be-IsByte zero n = tt
to_be-IsByte (suc k) n = go (to_be k (n / 256)) (to_be-IsByte k (n / 256))
  where
    go : (xs : Bytes) → All IsByte xs → All IsByte (xs ++ (n % 256) ∷ [])
    go [] h = (omega arith, tt)
    go (x ∷ xs) (hx, hs) = (hx, go xs hs)
