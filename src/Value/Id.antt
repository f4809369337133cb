-- ===== src/Value/Id.antt =====
-- app/rust/src/parser/value.rs: `ValueId`, the type byte of a Clarity value.
use ledger_stacks.Base.{
  ℕ, ◌≡◌, refl, [], ◌∷◌, arith, Bool, true, false, ◌+◌, ap, ◌∙◌, List, get_elem?, Option, none,
  some, suc, zero,
}
use ledger_stacks.Error.{Result, ok, err, ◌>>=◌, parser_unexpected_type, Returns}
use ledger_stacks.Crates.{Crates, Bytes, IResult, Codec, Codec-byte, le_u8-cons}

pub data ValueId : Type 0 where
  int uint buffer bool_true bool_false standard_principal contract_principal : ValueId
  response_ok response_err optional_none optional_some list tuple string_ascii string_utf8 : ValueId

-- The discriminants.
abbrev pub to_u8 : ValueId → ℕ
to_u8 int = 0x00
to_u8 uint = 0x01
to_u8 buffer = 0x02
to_u8 bool_true = 0x03
to_u8 bool_false = 0x04
to_u8 standard_principal = 0x05
to_u8 contract_principal = 0x06
to_u8 response_ok = 0x07
to_u8 response_err = 0x08
to_u8 optional_none = 0x09
to_u8 optional_some = 0x0a
to_u8 list = 0x0b
to_u8 tuple = 0x0c
to_u8 string_ascii = 0x0d
to_u8 string_utf8 = 0x0e

-- The value at each discriminant, as `transmute` reads it.
abbrev ids : List ValueId
ids =
    int ∷ uint ∷ buffer ∷ bool_true ∷ bool_false ∷ standard_principal ∷ contract_principal
    ∷ response_ok ∷ response_err ∷ optional_none ∷ optional_some ∷ list ∷ tuple ∷ string_ascii
    ∷ string_utf8 ∷ []

or_unexpected : Option ValueId → Result ValueId
or_unexpected none = err parser_unexpected_type
or_unexpected (some id) = ok id

unfoldable pub try_from : ℕ → Result ValueId
unfolding or_unexpected
try_from value = or_unexpected (get_elem? ids value)

pub try_from-to_u8 : (id : ValueId) → try_from (to_u8 id) ≡ ok id
unfolding try_from
try_from-to_u8 int = refl
try_from-to_u8 _ = refl

-- The entries of a table have the discriminants from `k` on.
abbrev Numbered : ℕ → List ValueId → Type 0
Numbered k [] = Unit
Numbered k (x ∷ xs) = (to_u8 x ≡ k) × Numbered (suc k) xs

at_index :
    (k : ℕ) (xs : List ValueId) (n : ℕ) (id : ValueId)
    → Numbered k xs
    → get_elem? xs n ≡ some id
    → to_u8 id ≡ k + n
at_index k [] n id h e = cc
at_index k (x ∷ xs) zero id (h, _) e =
    let same : x ≡ id = cc in let number : to_u8 id ≡ k = cc in omega arith
at_index k (x ∷ xs) (suc n) id (_, hs) e = omega (arith, at_index (suc k) xs n id hs e)

pub to_u8_unique : (n : ℕ) (id : ValueId) → try_from n ≡ ok id → to_u8 id ≡ n
unfolding try_from
to_u8_unique n id h = go (get_elem? ids n) refl h
  where
    go : (o : Option ValueId) → get_elem? ids n ≡ o → or_unexpected o ≡ ok id → to_u8 id ≡ n
    go none _ h = cc
    go (some x) e h = omega (arith, at_index 0 ids n id (omega arith) (e ∙ ap some (some_of x h)))
      where
        some_of : (x : ValueId) → or_unexpected (some x) ≡ ok id → x ≡ id
        some_of x h = cc

pub Returns-try_from : (n : ℕ) → Returns (try_from n)
unfolding try_from
Returns-try_from n = go (get_elem? ids n)
  where
    go : (o : Option ValueId) → Returns (or_unexpected o)
    go none = tt
    go (some id) = tt

-- Equality of type bytes, `id == ValueId::Tuple`.
abbrev pub is_list : ValueId → Bool
is_list list = true
is_list _ = false

abbrev pub is_tuple : ValueId → Bool
is_tuple tuple = true
is_tuple _ = false

abbrev pub is_ascii_id : ValueId → Bool
is_ascii_id string_ascii = true
is_ascii_id _ = false

module _ ⦃crates : Crates⦄ where
  unfoldable pub from_bytes : Bytes → IResult ValueId
  from_bytes bytes = do (rem, id) ← crates.le_u8 bytes; value_id ← try_from id; ok (rem, value_id)

  pub from_bytes-cons :
      (b : ℕ) (bs : Bytes) → from_bytes (b ∷ bs) ≡ (do id ← try_from b; ok (bs, id))
  unfolding from_bytes
  from_bytes-cons b bs = rw le_u8-cons

  pub ValueId-Codec : Codec from_bytes (λ id. to_u8 id ∷ []) (λ _. Unit {0})
  unfolding from_bytes
  ValueId-Codec = Codec-byte try_from to_u8 try_from-to_u8 to_u8_unique Returns-try_from
