-- ===== src/C32Encoding/Address.antt =====
-- c32.rs: every address has its text: `c32_address` is total on a version and a hash.
use ledger_stacks.Base.{
  ℕ, zero, suc, ◌+◌, ◌-◌, ◌*◌, ◌^◌, ◌≤◌, ◌<◌, ◌≡◌, refl, ap, [], ◌∷◌, ◌++◌, length, take, drop, leb,
  ◌==◌, true, false, Bool-cases, inl, inr, replicate, arith, All, append_assoc, length-append,
  length-replicate, length-take, take-append, drop-append, lt→leb, lt→ltb, leb→le, leb→lt,
}
use mathlib.Core.List.{reverse}
use ledger_stacks.Error.{ok}
use ledger_stacks.Crates.{Bytes, IsByte, of_le, of_be, of_be-lt}
use ledger_stacks.Device.{Device, sha256, length-sha256, sha256-IsByte}
use ledger_stacks.Common.Limits.{c32_encoded_addrs_length, hash160_len}
use ledger_stacks.C32Encoding.{
  c32_encode, c32_check_encode, c32_address, double_sha256_checksum, insert_front,
}
use ledger_stacks.C32Encoding.Digits.{
  char_of, char-index, of_c32, pow_32, pow_256, length-reverse, of_le-reverse, reverse-IsByte,
  position-pos,
}
use ledger_stacks.C32Encoding.Encode.{loop, flushed, stripped, Leads, zeros, padded}
use ledger_stacks.C32Encoding.Steps.{at}

pow_mono : (a b : ℕ) → a ≤ b → 32 ^ a ≤ 32 ^ b
pow_mono zero zero h = omega arith
pow_mono zero (suc b) h = omega (arith, pow_mono zero b (omega arith), pow_32 b)
pow_mono (suc a) zero h = absurd (omega arith)
pow_mono (suc a) (suc b) h = omega (arith, pow_mono a b (omega arith), pow_32 a, pow_32 b)

two_digits : (k : ℕ) → 256 ^ k ≤ 32 ^ (k + k)
two_digits zero = omega arith
two_digits (suc k) =
    let index : 32 ^ (suc k + suc k) ≡ 32 ^ suc (suc (k + k)) =
      ap (λ (t : ℕ). 32 ^ t) (omega arith) in
    omega (arith, two_digits k, pow_256 k, index, pow_32 (suc (k + k)), pow_32 (k + k))

value_ge : (c : ℕ) (cs : Bytes) → (c == b'0') ≡ false → 32 ^ length cs ≤ of_c32 (c ∷ cs)
value_ge c cs h = grind (arith, position-pos c h)

value_lt : (bs : Bytes) → All IsByte bs → of_be bs < 256 ^ (length bs - zeros bs)
value_lt [] h = omega arith
value_lt (b ∷ bs) (hb, h) = elim (Bool-cases (b == 0)) [
  | inl nought ↦
      let same : b ≡ 0 = ground arith in
      let width : 256 ^ (length bs - zeros bs) ≡ 256 ^ (suc (length bs) - suc (zeros bs)) =
        ap (λ (t : ℕ). 256 ^ t) (omega arith) in
      rw (nought, same) (omega (arith, value_lt bs h, width))
  | inr other ↦
      let width : 256 ^ (suc (length bs) - 0) ≡ 256 ^ suc (length bs) =
        ap (λ (t : ℕ). 256 ^ t) (omega arith) in
      rw other (omega (arith, of_be-lt (b ∷ bs) (hb, h), width))
]

-- The text of 24 bytes leaves room for two characters more.
room :
    (bs s : Bytes)
    → All IsByte bs
    → length bs ≤ 24
    → of_c32 s ≡ of_be bs
    → Leads s
    → length s ≤ 39
    → zeros bs + length s ≤ 46
room bs [] h fits e leads short = omega (arith, zeros-le bs)
  where
    zeros-le : (bs : Bytes) → zeros bs ≤ length bs
    zeros-le [] = omega arith
    zeros-le (b ∷ bs) = ground (arith, zeros-le bs)
room bs (c ∷ cs) h fits e leads short = elim (Bool-cases (leb (zeros bs + length (c ∷ cs)) 46)) [
  | inl within ↦ leb→le (zeros bs + length (c ∷ cs)) 46 within
  | inr beyond ↦
      let more = leb→lt (zeros bs + length (c ∷ cs)) 46 beyond in
      let k = length bs - zeros bs in
      absurd (
        omega (
          arith,
          value_lt bs h,
          two_digits k,
          pow_mono (k + k) (length cs) (omega arith),
          value_ge c cs leads,
          e,
        ))
]

-- The digits of some bytes.
pub record Digits (bs : Bytes) (text : Bytes) : Type 0 where
  pub digits : Bytes
  pub value : of_c32 digits ≡ of_be bs
  pub leads : Leads digits
  pub spelled : text ≡ replicate (zeros bs) b'0' ++ digits
  pub fits : length text ≤ 46

-- At most 24 bytes are written as the base 32 digits of the number that they stand for, without a
-- zero in front of them but one for each zero byte in front of the bytes. No buffer is too short.
pub c32_encode-Digits :
    (bs : Bytes)
    → All IsByte bs
    → length bs ≤ 24
    → (text : Bytes) × ((c32_encode bs ≡ ok text) × Digits bs text)
unfolding c32_encode
c32_encode-Digits bs h fits =
    let start = at [] 0 0 in
    let (e, (run, i)) =
      loop (reverse bs) start 0 0
        (record {
          value = omega arith;
          small = omega arith;
          few = omega arith;
          bits = omega arith;
          scale = omega arith;
        })
        (reverse-IsByte bs h) (omega (arith, length-reverse bs)) in
    let (r, (out, (value, short))) =
      flushed e (0 + length (reverse bs)) (0 + 256 ^ 0 * of_le (reverse bs)) i
        (omega (arith, length-reverse bs)) in
    let (s, (strip, (same, (shorter, leads)))) = stripped r (omega arith) in
    let number : of_c32 s ≡ of_be bs = omega (arith, same, value, of_le-reverse bs) in
    let space = room bs s h fits number leads (omega arith) in
    let zero_chars = replicate (zeros bs) b'0' in
    (
      zero_chars ++ s,
      (
        rw (run, out, strip, padded bs s (omega arith)),
        record {
          digits = s;
          value = number;
          leads = leads;
          spelled = refl {a = zero_chars ++ s};
          fits =
              omega (
                arith,
                space,
                length-append zero_chars s,
                length-replicate {A = ℕ} (zeros bs) b'0',
              );
        },
      ),
    )

take-IsByte : (k : ℕ) (bs : Bytes) → All IsByte bs → All IsByte (take k bs)
take-IsByte zero bs h = tt
take-IsByte (suc k) [] h = tt
take-IsByte (suc k) (b ∷ bs) (hb, h) = (hb, take-IsByte k bs h)

IsByte-append : (xs ys : Bytes) → All IsByte xs → All IsByte ys → All IsByte (xs ++ ys)
IsByte-append [] ys hx hy = hy
IsByte-append (x ∷ xs) ys (h, hx) hy = (h, IsByte-append xs ys hx hy)

module _ ⦃device : Device⦄ where
  -- The first four bytes of the hash of the hash of version and key hash.
  abbrev pub checksum : ℕ → Bytes → Bytes
  checksum version hash = take 4 (sha256 (sha256 (version ∷ hash)))

  length-checksum : (version : ℕ) (hash : Bytes) → length (checksum version hash) ≡ 4
  length-checksum version hash = omega (
    arith,
    length-take 4 (sha256 (sha256 (version ∷ hash))),
    length-sha256 (sha256 (version ∷ hash)),
  )

  -- What is encoded is the key hash with its checksum behind it.
  check_data_lem :
      (version : ℕ) (hash : Bytes)
      → length hash ≡ 20
      → take 24 (hash ++ drop 20 (double_sha256_checksum (version ∷ hash ++ replicate 11 0)))
        ≡ hash ++ checksum version hash
  unfolding double_sha256_checksum
  check_data_lem version hash size =
      let digest = sha256 (version ∷ hash) in
      let rest = take 4 (sha256 digest) ++ drop 24 digest in
      let first : take 21 (version ∷ hash ++ replicate 11 0) ≡ version ∷ hash =
        take-append 21 (version ∷ hash) (replicate 11 0) (omega (arith, size)) in
      let front : length (take 20 digest) ≡ 20 =
        omega (arith, length-take 20 digest, length-sha256 (version ∷ hash)) in
      let whole = append_assoc hash (take 4 (sha256 digest)) (drop 24 digest) in
      let count = length-append hash (checksum version hash) in
      rw (first, drop-append 20 (take 20 digest) rest front, ← whole)
        (take-append 24 (hash ++ checksum version hash) (drop 24 digest)
          (omega (arith, count, size, length-checksum version hash)))

  -- The parts of an address.
  pub record AddressOf (version : ℕ) (hash text : Bytes) : Type 0 where
    pub body : Bytes
    pub spelled : text ≡ b'S' ∷ char_of version ∷ body
    pub digits : Digits (hash ++ checksum version hash) body

  -- For a version below 32 and a key hash of 20 bytes there is an address: an S, the character of the
  -- version, and the digits of the hash with its checksum. No panic and no error stops it.
  pub c32_address-AddressOf :
      (version : ℕ) (hash : Bytes)
      → version < 32
      → length hash ≡ hash160_len
      → All IsByte hash
      → (text : Bytes) × ((c32_address version hash ≡ ok text) × AddressOf version hash text)
  unfolding c32_address c32_check_encode insert_front
  c32_address-AddressOf version hash low size bytes =
      let payload = hash ++ checksum version hash in
      let valid = IsByte-append hash (checksum version hash) bytes (
        take-IsByte 4 (sha256 (sha256 (version ∷ hash)))
          (sha256-IsByte (sha256 (version ∷ hash)))) in
      let count = length-append hash (checksum version hash) in
      let (text, (run, d)) =
        c32_encode-Digits payload valid
          (omega (arith, count, size, length-checksum version hash)) in
      let right : (length hash == hash160_len) ≡ true = rw size refl in
      (
        b'S' ∷ char_of version ∷ text,
        (
          rw (
            lt→leb 32 version low,
            right,
            check_data_lem version hash size,
            run,
            char-index version low,
            lt→ltb (length text) c32_encoded_addrs_length (omega (arith, d.fits)),
            lt→ltb (suc (length text)) c32_encoded_addrs_length (omega (arith, d.fits)),
          ),
          record { body = text; spelled = refl; digits = d },
        ),
      )
