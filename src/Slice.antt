-- ===== src/Slice.antt =====
-- Rust's slice expressions. An index out of range is a panic.
use ledger_stacks.Base.{
  ℕ, ◌-◌, ◌≡◌, List, [], ◌∷◌, ◌&&◌, arith, leb, ltb, length, drop, take, replicate, if◌then◌else◌,
  Bool, none, some, get_elem?, ◌++◌, le→leb, length-append, drop-append,
}
use ledger_stacks.Error.{Result, ok, panic}

module _ {ℓ} {A : Type ℓ} where
  -- `&s[n..]`, `&s[..n]` and `&s[a..b]`
  abbrev pub slice_from : ℕ → List A → Result (List A)
  slice_from n s = if leb n (length s) then ok (drop n s) else panic

  abbrev pub slice_to : ℕ → List A → Result (List A)
  slice_to n s = if leb n (length s) then ok (take n s) else panic

  abbrev pub slice : ℕ → ℕ → List A → Result (List A)
  slice a b s = if leb a b && leb b (length s) then ok (take (b - a) (drop a s)) else panic

  -- `s[i]`
  abbrev pub index : List A → ℕ → Result A
  index s i = elim (get_elem? s i) [ none ↦ panic | some x ↦ ok x ]

-- `s.is_ascii()`
unfoldable pub is_ascii : List ℕ → Bool
is_ascii [] = Bool.true
is_ascii (b ∷ bs) = ltb b 128 && is_ascii bs

-- Every byte of the buffer is set to zero.
abbrev pub zeroed : List ℕ → List ℕ
zeroed buf = replicate (length buf) 0

module _ {ℓ} {A : Type ℓ} where
  pub slice_from-append : (n : ℕ) (xs ys : List A) → length xs ≡ n → slice_from n (xs ++ ys) ≡ ok ys
  slice_from-append n xs ys e =
      rw (
        le→leb n (length (xs ++ ys)) (omega (arith, e, length-append xs ys)),
        drop-append n xs ys e,
      )

  pub index-some : (s : List A) (i : ℕ) (x : A) → get_elem? s i ≡ some x → index s i ≡ ok x
  index-some s i x e = rw (e, index)
