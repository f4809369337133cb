-- ===== src/C32Encoding/Encode.antt =====
-- c32.rs: `c32_encode` gives the base 32 digits of its bytes, a zero for each zero byte in front.
use ledger_stacks.Base.{
  ℕ, zero, suc, ◌+◌, ◌*◌, ◌^◌, ◌≤◌, ◌<◌, ◌≡◌, ◌∙◌, refl, ap, [], ◌∷◌, ◌++◌, length, ltb, ◌==◌, true,
  false, Bool-cases, inl, inr, replicate, arith, All, if◌then◌else◌, lt→ltb, ltb→lt,
}
use ledger_stacks.Error.{Result, ok}
use ledger_stacks.Crates.{Bytes, IsByte, of_le}
use ledger_stacks.Common.Limits.{c32_encoded_addrs_length}
use ledger_stacks.C32Encoding.{Encoder, encode_bytes, push_char, try_push, strip_zeros, add_zeros}
use ledger_stacks.C32Encoding.Digits.{
  char_of, digit_of, of_c32, pow_256, push_char-fits, digit_of-zero,
}
use ledger_stacks.C32Encoding.Steps.{
  Encodes, Steps, at, digit_value, step_zero, step_one, step_two, step_three, step_four,
}

step :
    (r : Bytes) (c bits b m v : ℕ)
    → Encodes (at r c bits) m v
    → b < 256
    → m < 24
    → Steps (at r c bits) b m v
step r c zero b m v i hb hm = step_zero r c b m v i hb hm
step r c (suc zero) b m v i hb hm = step_one r c b m v i hb hm
step r c (suc (suc zero)) b m v i hb hm = step_two r c b m v i hb hm
step r c (suc (suc (suc zero))) b m v i hb hm = step_three r c b m v i hb hm
step r c (suc (suc (suc (suc zero)))) b m v i hb hm = step_four r c b m v i hb hm
step r c (suc (suc (suc (suc (suc bits))))) b m v i hb hm = absurd (omega (arith, i.few))

-- The loop over all bytes.
pub loop :
    (bs : Bytes) (e : Encoder) (m v : ℕ)
    → Encodes e m v
    → All IsByte bs
    → m + length bs ≤ 24
    → (e' : Encoder) × ((encode_bytes e bs ≡ ok e')
        × Encodes e' (m + length bs) (v + 256 ^ m * of_le bs))
unfolding encode_bytes
loop [] e m v i h fits = (
  e,
  (
    refl,
    record {
      value = omega (arith, i.value);
      small = i.small;
      few = i.few;
      bits = omega (arith, i.bits);
      scale = i.scale ∙ ap (λ (t : ℕ). 256 ^ t) {x = m} (omega arith);
    },
  ),
)
loop (b ∷ bs) e m v i (hb, h) fits =
    let (e1, (s, i1)) = step e.result e.carry e.carry_bits b m v i hb (omega arith) in
    let (e2, (run, i2)) = loop bs e1 (suc m) (v + b * 256 ^ m) i1 h (omega arith) in
    (
      e2,
      (
        rw s run,
        record {
          value = i2.value ∙ omega (arith, ap (λ (t : ℕ). t * of_le bs) (pow_256 m));
          small = i2.small;
          few = i2.few;
          bits = omega (arith, i2.bits);
          scale = i2.scale ∙ ap (λ (t : ℕ). 256 ^ t) {x = suc m + length bs} (omega arith);
        },
      ),
    )

-- The digits after the last bits are written.
abbrev pub flush : Encoder → Result Bytes
flush e = if ltb 0 e.carry_bits then push_char e.result e.carry else ok e.result

small_pow : (k : ℕ) → k < 5 → 2 ^ k ≤ 16
small_pow zero h = omega arith
small_pow (suc zero) h = omega arith
small_pow (suc (suc zero)) h = omega arith
small_pow (suc (suc (suc zero))) h = omega arith
small_pow (suc (suc (suc (suc zero)))) h = omega arith
small_pow (suc (suc (suc (suc (suc k))))) h = absurd (omega arith)

pub flushed :
    (e : Encoder) (m v : ℕ)
    → Encodes e m v
    → m ≤ 24
    → (r : Bytes) × ((flush e ≡ ok r) × ((of_c32 r ≡ v) × (length r ≤ 39)))
flushed e m v i fits = elim (Bool-cases (ltb 0 e.carry_bits)) [
  | inl left ↦
      let low : e.carry < 32 = omega (arith, i.small, small_pow e.carry_bits i.few) in
      (
        char_of e.carry ∷ e.result,
        (
          rw left (push_char-fits e.result e.carry low (omega (arith, i.bits))),
          (
            omega (arith, digit_value e.carry e.result low, i.value),
            omega (arith, i.bits, ltb→lt 0 e.carry_bits left),
          ),
        ),
      )
  | inr done ↦
      let none_left : e.carry_bits ≡ 0 = ground arith in
      let nothing : e.carry ≡ 0 = omega (arith, i.small, ap (λ (t : ℕ). 2 ^ t) none_left) in
      (
        e.result,
        (
          rw done refl,
          (
            omega (arith, i.value, ap (λ (t : ℕ). t * 32 ^ length e.result) nothing),
            omega (arith, i.bits),
          ),
        ),
      )
]

-- No zero stands in front.
abbrev pub Leads : Bytes → Type 0
Leads [] = Unit {0}
Leads (c ∷ cs) = (c == b'0') ≡ false

zero_digit : (c : ℕ) → (c == b'0') ≡ true → digit_of c ≡ 0
zero_digit c h = let same : c ≡ b'0' = ground arith in rw same zero_is
  where
    zero_is : digit_of b'0' ≡ 0
    zero_is = digit_of-zero

pub stripped :
    (r : Bytes)
    → length r ≤ c32_encoded_addrs_length
    → (s : Bytes) × ((strip_zeros r ≡ ok s)
        × ((of_c32 s ≡ of_c32 r) × ((length s ≤ length r) × Leads s)))
unfolding strip_zeros try_push
stripped [] h = ([], (refl, (refl, (omega arith, tt))))
stripped (c ∷ cs) h = elim (Bool-cases (c == b'0')) [
  | inl none_of_it ↦
      let (s, (run, (value, (short, leads)))) = stripped cs (omega arith) in
      (
        s,
        (
          rw none_of_it run,
          (
            omega (arith, value, ap (λ (t : ℕ). t * 32 ^ length cs) (zero_digit c none_of_it)),
            (omega arith, leads),
          ),
        ),
      )
  | inr first ↦ (
    c ∷ cs,
    (
      rw (first, lt→ltb (length cs) c32_encoded_addrs_length (omega arith)),
      (refl, (omega arith, first)),
    ),
  )
]

-- The zero bytes in front of some bytes.
abbrev pub zeros : Bytes → ℕ
zeros [] = 0
zeros (b ∷ bs) = let rest = suc (zeros bs) in if b == 0 then rest else 0

replicate_swap :
    (k : ℕ) (xs : Bytes) → replicate k b'0' ++ b'0' ∷ xs ≡ b'0' ∷ (replicate k b'0' ++ xs)
replicate_swap zero xs = refl
replicate_swap (suc k) xs = ap (λ t. b'0' ∷ t) (replicate_swap k xs)

pub padded :
    (bs r : Bytes)
    → zeros bs + length r ≤ c32_encoded_addrs_length
    → add_zeros bs r ≡ ok (replicate (zeros bs) b'0' ++ r)
unfolding add_zeros try_push
padded [] r h = refl
padded (b ∷ bs) r h = elim (Bool-cases (b == 0)) [
  | inl nought ↦
      let room : zeros bs + length (b'0' ∷ r) ≤ c32_encoded_addrs_length =
        omega (arith, rw nought at h) in
      rw
        (
          nought,
          lt→ltb (length r) c32_encoded_addrs_length (omega arith),
          padded bs (b'0' ∷ r) room,
        )
        (ap ok (replicate_swap (zeros bs) r))
  | inr other ↦ rw other refl
]
