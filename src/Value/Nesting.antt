-- ===== src/Value/Nesting.antt =====
-- What the counter of value.rs counts, against how deep a value is nested.
use ledger_stacks.Base.{
  ℕ, zero, suc, ◌+◌, ◌*◌, ◌^◌, ◌≤◌, ◌<◌, ◌≡◌, refl, [], ◌∷◌, length, arith, leb, lt→leb, append-nil,
  if◌then◌else◌, true, le→leb, false,
}
use Prim.Native.Nat.{max}
use ledger_stacks.Error.{ok, err, parser_recursion_limit}
use ledger_stacks.Crates.{Crates}
use ledger_stacks.Value.Len.{value_len}
use ledger_stacks.Value.Len.Exact.{value_len-encode}
use ledger_stacks.Value.Encoding.{
  Clarity, Items, Fields, encode, cost, cost_items, IsValid, AreItems, tuple_step, list, tuple,
  no_items, item, no_fields, field, some, response_ok, response_err,
}

-- How many values stand inside one another.
abbrev mutual
  pub nesting : Clarity → ℕ
  nesting (response_ok v) = suc (nesting v)
  nesting (response_err v) = suc (nesting v)
  nesting (some v) = suc (nesting v)
  nesting (list xs) = suc (nesting_items xs)
  nesting (tuple fs) = suc (nesting_fields fs)
  nesting _ = 1

  nesting_items : Items → ℕ
  nesting_items no_items = 0
  nesting_items (item v xs) = max (nesting v) (nesting_items xs)

  nesting_fields : Fields → ℕ
  nesting_fields no_fields = 0
  nesting_fields (field _ v fs) = max (nesting v) (nesting_fields fs)

-- A list with one tuple, whose one field is again such a list, `n` times.
abbrev pub alternating : ℕ → Clarity
alternating zero = list no_items
alternating (suc n) =
    list (item (tuple (field (record { bytes = b'a' ∷ [] }) (alternating n) no_fields)) no_items)

-- A list of `n` empty lists.
abbrev pub empty_lists : ℕ → Items
empty_lists zero = no_items
empty_lists (suc n) = item (list no_items) (empty_lists n)

alternating-IsValid : (n : ℕ) → IsValid (alternating n)
alternating-IsValid zero = tt
alternating-IsValid (suc n) = ((omega arith, (alternating-IsValid n, tt)), tt)

tuple_step-alternating : (n : ℕ) → tuple_step (alternating n) ≡ 0
tuple_step-alternating zero = refl
tuple_step-alternating (suc n) = refl

cost-alternating : (n : ℕ) → cost (alternating n) ≡ 0
cost-alternating zero = refl
cost-alternating (suc n) = omega (arith, cost-alternating n, tuple_step-alternating n)

nesting-alternating : (n : ℕ) → nesting (alternating n) ≡ 2 * n + 1
nesting-alternating zero = refl
nesting-alternating (suc n) = omega (arith, nesting-alternating n)

empty_lists-AreItems : (n : ℕ) → AreItems (empty_lists n)
empty_lists-AreItems zero = tt
empty_lists-AreItems (suc n) = (tt, empty_lists-AreItems n)

cost-empty_lists : (n : ℕ) → cost_items (empty_lists n) ≡ n
cost-empty_lists zero = refl
cost-empty_lists (suc n) = omega (arith, cost-empty_lists n)

nesting-empty_lists : (n : ℕ) → nesting (list (empty_lists n)) ≤ 2
nesting-empty_lists zero = omega arith
nesting-empty_lists (suc n) = omega (arith, nesting-empty_lists n)

module _ ⦃crates : Crates⦄ where
  module _ (limit : ℕ) (v : Clarity) (hl : limit < 255) (valid : IsValid v)
      (small : length (encode v) < 2 ^ 32) where
    whole :
        value_len limit (encode v)
        ≡ (if leb (cost v) limit then ok (length (encode v)) else err parser_recursion_limit)
    whole = rw append-nil at (value_len-encode limit v [] hl valid small)

    within : leb (cost v) limit ≡ true → value_len limit (encode v) ≡ ok (length (encode v))
    within e = rw e at whole

    beyond : leb (cost v) limit ≡ false → value_len limit (encode v) ≡ err parser_recursion_limit
    beyond e = rw e at whole

  -- Lists and tuples that alternate, in less than 2^32 bytes, are measured under every limit below
  -- 255, also 0, though they are nested 2n + 1 deep: the counter does not bound the recursion.
  pub alternating_accepted :
      (limit n : ℕ)
      → limit < 255
      → length (encode (alternating n)) < 2 ^ 32
      → (nesting (alternating n) ≡ 2 * n + 1)
        × (value_len limit (encode (alternating n)) ≡ ok (length (encode (alternating n))))
  alternating_accepted limit n hl small = (
    nesting-alternating n,
    within limit (alternating n) hl (alternating-IsValid n) small
        (le→leb _ _ (omega (arith, cost-alternating n))),
  )

  -- A list of more empty lists than the limit, which is below 255, in less than 2^32 bytes, is
  -- refused, though it is nested 2 deep at most.
  pub empty_lists_refused :
      (limit n : ℕ)
      → limit < 255
      → limit < n
      → length (encode (list (empty_lists n))) < 2 ^ 32
      → (nesting (list (empty_lists n)) ≤ 2)
        × (value_len limit (encode (list (empty_lists n))) ≡ err parser_recursion_limit)
  empty_lists_refused limit n hl more small = (
    nesting-empty_lists n,
    beyond limit (list (empty_lists n)) hl (empty_lists-AreItems n) small
        (lt→leb _ _ (omega (arith, cost-empty_lists n))),
  )
