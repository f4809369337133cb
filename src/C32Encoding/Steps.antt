-- ===== src/C32Encoding/Steps.antt =====
-- c32.rs: what the loop of `c32_encode` keeps.
use ledger_stacks.Base.{ℕ, suc, ◌+◌, ◌*◌, ◌/◌, ◌%◌, ◌^◌, ◌<◌, ◌≡◌, ◌∙◌, ap, sym, ◌∷◌, length, arith}
use ledger_stacks.Error.{ok}
use ledger_stacks.Crates.{Bytes}
use ledger_stacks.C32Encoding.{Encoder, encode_byte}
use ledger_stacks.C32Encoding.Digits.{
  char_of, digit_of-char_of, of_c32, pow_32, pow_256, push_char-fits,
}

-- After `m` bytes that stand for `v`, lowest byte first: the digits and the bits not yet written.
pub record Encodes (e : Encoder) (m v : ℕ) : Type 0 where
  pub value : of_c32 e.result + e.carry * 32 ^ length e.result ≡ v
  pub small : e.carry < 2 ^ e.carry_bits
  pub few : e.carry_bits < 5
  pub bits : 5 * length e.result + e.carry_bits ≡ 8 * m
  pub scale : 32 ^ length e.result * 2 ^ e.carry_bits ≡ 256 ^ m

-- The value of one digit more.
pub digit_value :
    (d : ℕ) (r : Bytes) → d < 32 → of_c32 (char_of d ∷ r) ≡ d * 32 ^ length r + of_c32 r
digit_value d r h = ap (λ (t : ℕ). t * 32 ^ length r + of_c32 r) (digit_of-char_of d h)

abbrev pub at : Bytes → ℕ → ℕ → Encoder
at r c bits = record { result = r; carry = c; carry_bits = bits }

-- One byte more.
abbrev pub Steps : Encoder → ℕ → ℕ → ℕ → Type 0
Steps e b m v = (e' : Encoder) × ((encode_byte e b ≡ ok e') × Encodes e' (suc m) (v + b * 256 ^ m))

pub step_zero :
    (r : Bytes) (c b m v : ℕ) → Encodes (at r c 0) m v → b < 256 → m < 24 → Steps (at r c 0) b m v
unfolding encode_byte
step_zero r c b m v i hb hm =
    let d = b % 32 * 1 + c in
    let low : d < 32 = omega (arith, i.small) in
    let r1 = char_of d ∷ r in
    let place = pow_32 (length r) in
    let split : b * 32 ^ length r ≡ (b % 32 + 32 * (b / 32)) * 32 ^ length r =
      ap (λ (t : ℕ). t * 32 ^ length r) (omega arith) in
    let moved : b * 256 ^ m ≡ 1 * (b * 32 ^ length r) =
      ap (λ (t : ℕ). b * t) (sym i.scale) ∙ (omega arith) in
    (
      at r1 (b / 32) 3,
      (
        rw (push_char-fits r d low (omega (arith, i.bits))),
        record {
          value = omega (
            arith,
            digit_value d r low,
            place,
            split,
            moved,
            i.value,
            ap (λ (t : ℕ). b / 32 * t) place,
          );
          small = omega arith;
          few = omega arith;
          bits = omega (arith, i.bits);
          scale = omega (arith, place, i.scale, pow_256 m);
        },
      ),
    )

pub step_one :
    (r : Bytes) (c b m v : ℕ) → Encodes (at r c 1) m v → b < 256 → m < 24 → Steps (at r c 1) b m v
unfolding encode_byte
step_one r c b m v i hb hm =
    let d = b % 16 * 2 + c in
    let low : d < 32 = omega (arith, i.small) in
    let r1 = char_of d ∷ r in
    let place = pow_32 (length r) in
    let split : b * 32 ^ length r ≡ (b % 16 + 16 * (b / 16)) * 32 ^ length r =
      ap (λ (t : ℕ). t * 32 ^ length r) (omega arith) in
    let moved : b * 256 ^ m ≡ 2 * (b * 32 ^ length r) =
      ap (λ (t : ℕ). b * t) (sym i.scale) ∙ (omega arith) in
    (
      at r1 (b / 16) 4,
      (
        rw (push_char-fits r d low (omega (arith, i.bits))),
        record {
          value = omega (
            arith,
            digit_value d r low,
            place,
            split,
            moved,
            i.value,
            ap (λ (t : ℕ). b / 16 * t) place,
          );
          small = omega arith;
          few = omega arith;
          bits = omega (arith, i.bits);
          scale = omega (arith, place, i.scale, pow_256 m);
        },
      ),
    )

pub step_two :
    (r : Bytes) (c b m v : ℕ) → Encodes (at r c 2) m v → b < 256 → m < 24 → Steps (at r c 2) b m v
unfolding encode_byte
step_two r c b m v i hb hm =
    let d = b % 8 * 4 + c in
    let low : d < 32 = omega (arith, i.small) in
    let r1 = char_of d ∷ r in
    let place = pow_32 (length r) in
    let split : b * 32 ^ length r ≡ (b % 8 + 8 * (b / 8)) * 32 ^ length r =
      ap (λ (t : ℕ). t * 32 ^ length r) (omega arith) in
    let moved : b * 256 ^ m ≡ 4 * (b * 32 ^ length r) =
      ap (λ (t : ℕ). b * t) (sym i.scale) ∙ (omega arith) in
    let q = b / 8 in
    let high : q % 32 < 32 = omega arith in
    let place1 = pow_32 (length r1) in
    let parted : q * 32 ^ length r ≡ (q % 32 + 32 * (q / 32)) * 32 ^ length r =
      ap (λ (t : ℕ). t * 32 ^ length r) (omega arith) in
    (
      at (char_of (q % 32) ∷ r1) (q / 32) 0,
      (
        rw (
          push_char-fits r d low (omega (arith, i.bits)),
          push_char-fits r1 (q % 32) high (omega (arith, i.bits)),
        ),
        record {
          value = omega (
            arith,
            digit_value d r low,
            digit_value (q % 32) r1 high,
            ap (λ (t : ℕ). q % 32 * t) place,
            ap (λ (t : ℕ). q / 32 * t) place1,
            ap (λ (t : ℕ). q / 32 * t) place,
            split,
            parted,
            moved,
            i.value,
          );
          small = omega arith;
          few = omega arith;
          bits = omega (arith, i.bits);
          scale = omega (arith, place, place1, i.scale, pow_256 m);
        },
      ),
    )

pub step_three :
    (r : Bytes) (c b m v : ℕ) → Encodes (at r c 3) m v → b < 256 → m < 24 → Steps (at r c 3) b m v
unfolding encode_byte
step_three r c b m v i hb hm =
    let d = b % 4 * 8 + c in
    let low : d < 32 = omega (arith, i.small) in
    let r1 = char_of d ∷ r in
    let place = pow_32 (length r) in
    let split : b * 32 ^ length r ≡ (b % 4 + 4 * (b / 4)) * 32 ^ length r =
      ap (λ (t : ℕ). t * 32 ^ length r) (omega arith) in
    let moved : b * 256 ^ m ≡ 8 * (b * 32 ^ length r) =
      ap (λ (t : ℕ). b * t) (sym i.scale) ∙ (omega arith) in
    let q = b / 4 in
    let high : q % 32 < 32 = omega arith in
    let place1 = pow_32 (length r1) in
    let parted : q * 32 ^ length r ≡ (q % 32 + 32 * (q / 32)) * 32 ^ length r =
      ap (λ (t : ℕ). t * 32 ^ length r) (omega arith) in
    (
      at (char_of (q % 32) ∷ r1) (q / 32) 1,
      (
        rw (
          push_char-fits r d low (omega (arith, i.bits)),
          push_char-fits r1 (q % 32) high (omega (arith, i.bits)),
        ),
        record {
          value = omega (
            arith,
            digit_value d r low,
            digit_value (q % 32) r1 high,
            ap (λ (t : ℕ). q % 32 * t) place,
            ap (λ (t : ℕ). q / 32 * t) place1,
            ap (λ (t : ℕ). q / 32 * t) place,
            split,
            parted,
            moved,
            i.value,
          );
          small = omega arith;
          few = omega arith;
          bits = omega (arith, i.bits);
          scale = omega (arith, place, place1, i.scale, pow_256 m);
        },
      ),
    )

pub step_four :
    (r : Bytes) (c b m v : ℕ) → Encodes (at r c 4) m v → b < 256 → m < 24 → Steps (at r c 4) b m v
unfolding encode_byte
step_four r c b m v i hb hm =
    let d = b % 2 * 16 + c in
    let low : d < 32 = omega (arith, i.small) in
    let r1 = char_of d ∷ r in
    let place = pow_32 (length r) in
    let split : b * 32 ^ length r ≡ (b % 2 + 2 * (b / 2)) * 32 ^ length r =
      ap (λ (t : ℕ). t * 32 ^ length r) (omega arith) in
    let moved : b * 256 ^ m ≡ 16 * (b * 32 ^ length r) =
      ap (λ (t : ℕ). b * t) (sym i.scale) ∙ (omega arith) in
    let q = b / 2 in
    let high : q % 32 < 32 = omega arith in
    let place1 = pow_32 (length r1) in
    let parted : q * 32 ^ length r ≡ (q % 32 + 32 * (q / 32)) * 32 ^ length r =
      ap (λ (t : ℕ). t * 32 ^ length r) (omega arith) in
    (
      at (char_of (q % 32) ∷ r1) (q / 32) 2,
      (
        rw (
          push_char-fits r d low (omega (arith, i.bits)),
          push_char-fits r1 (q % 32) high (omega (arith, i.bits)),
        ),
        record {
          value = omega (
            arith,
            digit_value d r low,
            digit_value (q % 32) r1 high,
            ap (λ (t : ℕ). q % 32 * t) place,
            ap (λ (t : ℕ). q / 32 * t) place1,
            ap (λ (t : ℕ). q / 32 * t) place,
            split,
            parted,
            moved,
            i.value,
          );
          small = omega arith;
          few = omega arith;
          bits = omega (arith, i.bits);
          scale = omega (arith, place, place1, i.scale, pow_256 m);
        },
      ),
    )
