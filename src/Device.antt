-- ===== src/Device.antt =====
-- app/rust/src/bolos.rs: the hash of the device. The hash itself, and the crates numtoa 0.2 and hex
-- 0.4 that write numbers and bytes, are not in the repository: they are an instance argument, with laws.
use ledger_stacks.Base.{Option, some, ◌*◌, ℕ, ◌%◌, ◌^◌, ◌≤◌, ◌≡◌, ◌∷◌, length, take, All}
use ledger_stacks.Error.{Result, ok}
use ledger_stacks.Crates.{Bytes, IsByte}
use ledger_stacks.Format.Decimal.{decimal}

abbrev pub sha256_len : ℕ
sha256_len = 32

-- A number and its sign; `negative n` is -n.
pub data Signed : Type 0 where
  non_negative negative : ℕ → Signed

abbrev pub signed_text : Signed → Bytes
signed_text (non_negative n) = decimal n
signed_text (negative n) = b'-' ∷ decimal n

-- `hash_sha256` of the SDK, and `numtoa_str(10, buffer)` on a buffer of so many bytes. A number
-- that does not fit its buffer is no documented use.
pub record Device : Type 0 where
  pub hash_sha256 : Bytes → Bytes
  pub numtoa_str : ℕ → Signed → Result Bytes
  -- `hex::encode_to_slice(bytes, buffer)` on a buffer of so many bytes
  pub encode_to_slice : Bytes → ℕ → Option Bytes
  pub encode_law :
      (bs : Bytes)
      → (text : Bytes) × ((encode_to_slice bs (2 * length bs) ≡ some text)
          × (length text ≡ 2 * length bs))
  pub hash_length : (bs : Bytes) → length (hash_sha256 bs) ≡ sha256_len
  pub hash_bytes : (bs : Bytes) → All IsByte (hash_sha256 bs)
  pub numtoa_law :
      (size : ℕ) (n : Signed)
      → length (signed_text n) ≤ size
      → numtoa_str size n ≡ ok (signed_text n)

module _ ⦃device : Device⦄ where
  -- The length goes to the SDK as 16 bits.
  unfoldable pub sha256 : Bytes → Bytes
  sha256 bytes = device.hash_sha256 (take (length bytes % 2 ^ 16) bytes)

  pub length-sha256 : (bs : Bytes) → length (sha256 bs) ≡ sha256_len
  unfolding sha256
  length-sha256 bs = device.hash_length (take (length bs % 2 ^ 16) bs)

  pub sha256-IsByte : (bs : Bytes) → All IsByte (sha256 bs)
  unfolding sha256
  sha256-IsByte bs = device.hash_bytes (take (length bs % 2 ^ 16) bs)
