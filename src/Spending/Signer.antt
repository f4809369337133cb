-- ===== src/Spending/Signer.antt =====
-- spending_condition.rs: `SpendingConditionSigner`, 37 bytes: hash mode, key hash, nonce and fee.
use ledger_stacks.Base.{
  ℕ, ◌≡◌, ◌<◌, ◌^◌, refl, ◌∷◌, ◌++◌, [], length, append_assoc, length-append, arith, le→leb,
  drop-append, take-append,
}
use mathlib.Core.Path.{subst}
use ledger_stacks.Error.{Result, ok, ◌>>=◌, map_err, parser_unexpected_value}
use ledger_stacks.Slice.{index, slice, slice_from}
use ledger_stacks.Crates.{
  Crates, Bytes, IResult, Codec, Codec-take, Codec-map, Codec-eq, take-array_ref, to_be,
  length-to_be, be_u64-append,
}
use ledger_stacks.Common.Limits.{hash160_len}
use ledger_stacks.Common.HashMode
use ledger_stacks.Common.HashMode.{HashMode}

abbrev pub spending_condition_signer_len : ℕ
spending_condition_signer_len = 37

pub record SpendingConditionSigner : Type 0 where
  pub bytes : Bytes

abbrev pub IsValid : SpendingConditionSigner → Type 0
IsValid s = length s.bytes ≡ spending_condition_signer_len

unfoldable pub hash_mode : SpendingConditionSigner → Result HashMode
hash_mode s = do b ← index s.bytes 0; HashMode.try_from b

unfoldable pub pub_key_hash : SpendingConditionSigner → Result Bytes
pub_key_hash s = slice 1 21 s.bytes

module _ ⦃crates : Crates⦄ where
  unfoldable pub from_bytes : Bytes → IResult SpendingConditionSigner
  from_bytes bytes = do
    (raw, _) ← crates.take spending_condition_signer_len bytes
    array ← crates.array_ref 0 spending_condition_signer_len bytes
    ok (raw, record { bytes = array })

  unfoldable pub nonce : SpendingConditionSigner → Result ℕ
  nonce s = do
    bytes ← slice_from 21 s.bytes
    map_err parser_unexpected_value (do (_, n) ← crates.be_u64 bytes; ok n)

  unfoldable pub fee : SpendingConditionSigner → Result ℕ
  fee s = do
    bytes ← slice_from 29 s.bytes
    map_err parser_unexpected_value (do (_, n) ← crates.be_u64 bytes; ok n)

  pub Signer-Codec : Codec from_bytes (λ s. s.bytes) IsValid
  unfolding from_bytes
  Signer-Codec =
      Codec-eq
        (Codec-map (Codec-take spending_condition_signer_len) (λ bs. record { bytes = bs })
          (λ s. s.bytes) (λ _. refl) (λ _. refl))
        λ bs. take-array_ref spending_condition_signer_len bs _

-- A signer by its fields, and its bytes.
pub record SignerFields : Type 0 where
  pub mode : HashMode
  pub key_hash : Bytes
  pub sequence : ℕ
  pub rate : ℕ

abbrev pub encode : SignerFields → Bytes
encode f = HashMode.to_u8 f.mode ∷ f.key_hash ++ (to_be 8 f.sequence ++ to_be 8 f.rate)

abbrev pub Fits : SignerFields → Type 0
Fits f = (length f.key_hash ≡ hash160_len) × ((f.sequence < 2 ^ 64) × (f.rate < 2 ^ 64))

length-encode : (f : SignerFields) → Fits f → length (encode f) ≡ spending_condition_signer_len
length-encode f (h, _) = omega (
  arith,
  h,
  length-append f.key_hash (to_be 8 f.sequence ++ to_be 8 f.rate),
  length-append (to_be 8 f.sequence) (to_be 8 f.rate),
  length-to_be 8 f.sequence,
  length-to_be 8 f.rate,
)

module _ ⦃crates : Crates⦄ where
  -- A number that stands after `front`.
  be_u64_at :
      (at n : ℕ) (front rest : Bytes)
      → length front ≡ at
      → n < 2 ^ 64
      → (do
        bytes ← slice_from at (front ++ (to_be 8 n ++ rest))
        map_err parser_unexpected_value (do (_, n) ← crates.be_u64 bytes; ok n))
        ≡ ok n
  be_u64_at at n front rest size small =
      let enough =
        le→leb at (length (front ++ (to_be 8 n ++ rest)))
          (omega (arith, size, length-append front (to_be 8 n ++ rest))) in
      rw (enough, drop-append at front (to_be 8 n ++ rest) size, be_u64-append n rest small)

  -- The bytes of a signer whose fields fit their places are read, off the front of any input, as
  -- the signer's fields.
  pub signer-encode :
      (f : SignerFields) (rest : Bytes)
      → Fits f
      → (s : SpendingConditionSigner) × ((from_bytes (encode f ++ rest) ≡ ok (rest, s))
          × ((hash_mode s ≡ ok f.mode)
              × ((pub_key_hash s ≡ ok f.key_hash)
                  × ((nonce s ≡ ok f.sequence) × (fee s ≡ ok f.rate)))))
  unfolding hash_mode pub_key_hash nonce fee
  signer-encode f rest (h, (hs, hr)) =
      let tail = to_be 8 f.sequence ++ to_be 8 f.rate in
      let front = HashMode.to_u8 f.mode ∷ f.key_hash in
      let size = length-encode f (h, (hs, hr)) in
      let split : (front ++ to_be 8 f.sequence) ++ (to_be 8 f.rate ++ []) ≡ encode f =
        append_assoc front (to_be 8 f.sequence) (to_be 8 f.rate) in
      let hash : slice 1 21 (encode f) ≡ ok f.key_hash =
        rw
          (le→leb 21 (length (encode f)) (omega (arith, size)), take-append 20 f.key_hash tail h) in
      let front_size = length-append front (to_be 8 f.sequence) in
      (
        record { bytes = encode f },
        (
          Signer-Codec.decodes (record { bytes = encode f }) rest (length-encode f (h, (hs, hr))),
          (
            HashMode.try_from-to_u8 f.mode,
            (
              hash,
              (
                be_u64_at 21 f.sequence front (to_be 8 f.rate) (omega (arith, h)) hs,
                subst (λ bs. fee (record { bytes = bs }) ≡ ok f.rate) split
                    (be_u64_at 29 f.rate (front ++ to_be 8 f.sequence) []
                      (omega (arith, h, front_size, length-to_be 8 f.sequence)) hr),
              ),
            ),
          ),
        ),
      )
