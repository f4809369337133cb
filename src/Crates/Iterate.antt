-- ===== src/Crates/Iterate.antt =====
-- nom's `iterator`, with the `take` and the `finish` of its caller.
use ledger_stacks.Base.{ℕ, zero, suc, ◌≡◌, List, [], ◌∷◌, length}
use ledger_stacks.Error.{ok, err, panic, out_of_fuel, ◌>>=◌}
use ledger_stacks.Crates.Reads.{Bytes, IResult}

-- The parser succeeds once for each item, one after the other.
abbrev pub AllRead : (Bytes → IResult Bytes) → List Bytes → Bytes → Bytes → Type 0
AllRead p [] bs rem = bs ≡ rem
AllRead p (x ∷ xs) bs rem = (mid : Bytes) × ((p bs ≡ ok (mid, x)) × AllRead p xs mid rem)

-- `iterate p n bs` stands for `iterator(bs, p)`, `n` items taken of it, and `finish()`. The law says
-- what is documented of a parser that does not fail.
pub record Iterator : Type 0 where
  pub iterate : (Bytes → IResult Bytes) → ℕ → Bytes → IResult (List Bytes)
  pub iterate_law :
      (p : Bytes → IResult Bytes) (xs : List Bytes) (bs rem : Bytes)
      → AllRead p xs bs rem
      → iterate p (length xs) bs ≡ ok (rem, xs)

-- A parser that fails ends the iteration.
abbrev iterate_model : (Bytes → IResult Bytes) → ℕ → Bytes → IResult (List Bytes)
iterate_model p zero bs = ok (bs, [])
iterate_model p (suc n) bs = elim (p bs) [
  | ok read ↦ iterate_model p n read.0 >>= λ (rem, xs). ok (rem, read.1 ∷ xs)
  | err _ ↦ ok (bs, [])
  | panic ↦ panic
  | out_of_fuel ↦ out_of_fuel
]

abbrev iterate_model_law :
    (p : Bytes → IResult Bytes) (xs : List Bytes) (bs rem : Bytes)
    → AllRead p xs bs rem
    → iterate_model p (length xs) bs ≡ ok (rem, xs)
iterate_model_law p [] bs rem e = rw e
iterate_model_law p (x ∷ xs) bs rem (mid, (e, h)) = rw (e, iterate_model_law p xs mid rem h)

-- The law can be met.
abbrev pub iterator_model : Iterator
iterator_model = record { iterate = iterate_model; iterate_law = iterate_model_law }
