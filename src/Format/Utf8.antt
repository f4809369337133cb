-- ===== src/Format/Utf8.antt =====
-- The language's `core::str::from_utf8`, and the characters of a `str`.
use ledger_stacks.Base.{
  ℕ, zero, suc, ◌≡◌, refl, ap, [], ◌∷◌, length, leb, ltb, ◌==◌, ◌&&◌, not, Bool, true, false,
  Option, none, some, if◌then◌else◌, All, arith, lt→leb, lt→ltb,
}
use ledger_stacks.Crates.{Bytes}
use ledger_stacks.Format.Decimal.{IsDigit}

-- A byte that is not the first one of its character.
abbrev pub continues : ℕ → Bool
continues c = leb 0x80 c && leb c 0xbf

-- How many bytes follow the first one of a character, and the bounds of the next.
unfoldable pub after_lead : ℕ → Option (ℕ × (ℕ × ℕ))
after_lead c =
    if ltb c 0x80
    then some (0, (0, 0))
    else if leb 0xc2 c && leb c 0xdf
    then some (1, (0x80, 0xbf))
    else if c == 0xe0
    then some (2, (0xa0, 0xbf))
    else if c == 0xed
    then some (2, (0x80, 0x9f))
    else if leb 0xe1 c && leb c 0xef
    then some (2, (0x80, 0xbf))
    else if c == 0xf0
    then some (3, (0x90, 0xbf))
    else if leb 0xf1 c && leb c 0xf3
    then some (3, (0x80, 0xbf))
    else if c == 0xf4
    then some (3, (0x80, 0x8f))
    else none

-- The bytes are characters behind the rest of one that has so many bytes left, the next of them
-- within the bounds.
unfoldable pub utf8_from : ℕ → ℕ × ℕ → Bytes → Bool
utf8_from zero bounds [] = true
utf8_from (suc n) bounds [] = false
utf8_from zero bounds (c ∷ cs) = elim (after_lead c) [
  | none ↦ false
  | some (n, next) ↦ utf8_from n next cs
]
utf8_from (suc n) (low, high) (c ∷ cs) = (leb low c && leb c high) && utf8_from n (0x80, 0xbf) cs

unfoldable pub is_utf8 : Bytes → Bool
is_utf8 bs = utf8_from 0 (0, 0) bs

-- `chars().count()`
abbrev pub char_count : Bytes → ℕ
char_count [] = 0
char_count (c ∷ cs) = if continues c then char_count cs else suc (char_count cs)

-- `is_char_boundary` at the front of what is left.
abbrev pub starts_char : Bytes → Bool
starts_char [] = true
starts_char (c ∷ cs) = not (continues c)

low_byte : (c : ℕ) → IsDigit c → continues c ≡ false
low_byte c (_, high) = rw (lt→leb 0x80 c (omega (arith, high))) refl

pub is_utf8-digits : (bs : Bytes) → All IsDigit bs → is_utf8 bs ≡ true
unfolding is_utf8 utf8_from after_lead
is_utf8-digits bs h = from_front bs (0, 0) h
  where
    from_front : (bs : Bytes) (bounds : ℕ × ℕ) → All IsDigit bs → utf8_from 0 bounds bs ≡ true
    from_front [] bounds h = refl
    from_front (c ∷ cs) bounds ((_, high), h) =
        rw (utf8_from, lt→ltb c 0x80 (omega (arith, high))) (from_front cs (0, 0) h)

pub char_count-digits : (bs : Bytes) → All IsDigit bs → char_count bs ≡ length bs
char_count-digits [] h = refl
char_count-digits (c ∷ cs) (hc, h) =
    rw (low_byte c hc) (ap (λ (n : ℕ). suc n) (char_count-digits cs h))

pub starts_char-digits : (bs : Bytes) → All IsDigit bs → starts_char bs ≡ true
starts_char-digits [] h = refl
starts_char-digits (c ∷ cs) (hc, h) = rw (low_byte c hc) refl
