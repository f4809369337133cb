-- ===== src/Spending/Singlesig.antt =====
-- spending_condition.rs: `SinglesigSpendingCondition`, a key encoding byte and a signature.
use ledger_stacks.Base.{
  get_elem?-drop, length-drop, drop-drop, ap, arith, ℕ, ◌+◌, ◌≡◌, refl, ◌++◌, length, ◌==◌,
  if◌then◌else◌, Bool, true, false, drop, replicate, take, get_elem?,
}
use ledger_stacks.Error.{Result, ok, err, ◌>>=◌, parser_invalid_pubkey_encoding}
use ledger_stacks.Slice.{index}
use ledger_stacks.Crates.{
  Crates, Bytes, IResult, Codec, Codec-take, Codec-map, Codec-eq, take-array_ref,
}
use ledger_stacks.Common.Limits.{signature_len}
use ledger_stacks.Common.HashMode.{HashMode, p2wpkh}

pub data TransactionPublicKeyEncoding : Type 0 where
  compressed uncompressed : TransactionPublicKeyEncoding

abbrev pub to_u8 : TransactionPublicKeyEncoding → ℕ
to_u8 compressed = 0x00
to_u8 uncompressed = 0x01

-- `mode == HashMode::P2WPKH && self != Self::Compressed` is refused.
unfoldable pub is_valid_hash_mode : TransactionPublicKeyEncoding → HashMode → Bool
is_valid_hash_mode uncompressed p2wpkh = false
is_valid_hash_mode _ _ = true

abbrev pub single_spending_condition_len : ℕ
single_spending_condition_len = 66

pub record SinglesigSpendingCondition : Type 0 where
  pub bytes : Bytes

abbrev pub IsValid : SinglesigSpendingCondition → Type 0
IsValid s = length s.bytes ≡ single_spending_condition_len

unfoldable pub key_encoding : SinglesigSpendingCondition → Result TransactionPublicKeyEncoding
key_encoding s = do
  x ← index s.bytes 0
  if x == to_u8 compressed
      then ok compressed
      else if x == to_u8 uncompressed
      then ok uncompressed
      else err parser_invalid_pubkey_encoding

-- `ptr.write_bytes(val, count)` on the start of a buffer that is long enough.
abbrev pub write_bytes : ℕ → ℕ → Bytes → Bytes
write_bytes val count buf = replicate count val ++ drop count buf

-- Both writes start at the first byte.
unfoldable pub clear_signature : SinglesigSpendingCondition → SinglesigSpendingCondition
clear_signature s = record {
  bytes = write_bytes 0 signature_len (write_bytes (to_u8 compressed) 1 s.bytes);
}

module _ ⦃crates : Crates⦄ where
  unfoldable pub from_bytes : Bytes → IResult SinglesigSpendingCondition
  from_bytes bytes = do
    (raw, _) ← crates.take (signature_len + 1) bytes
    array ← crates.array_ref 0 single_spending_condition_len bytes
    ok (raw, record { bytes = array })

  pub Singlesig-Codec : Codec from_bytes (λ s. s.bytes) IsValid
  unfolding from_bytes
  Singlesig-Codec =
      Codec-eq
        (Codec-map (Codec-take single_spending_condition_len) (λ bs. record { bytes = bs })
          (λ s. s.bytes) (λ _. refl) (λ _. refl))
        λ bs. take-array_ref single_spending_condition_len bs _

-- Of the 66 bytes of a signature the writes clear the first 65 and keep the last one, and 66 bytes
-- are left.
pub clear_signature-bytes :
    (s : SinglesigSpendingCondition)
    → IsValid s
    → (take signature_len (clear_signature s).bytes ≡ replicate signature_len 0)
      × ((get_elem? (clear_signature s).bytes signature_len ≡ get_elem? s.bytes signature_len)
          × IsValid (clear_signature s))
unfolding clear_signature
clear_signature-bytes s size =
    let last : drop 64 (drop 1 s.bytes) ≡ drop 65 s.bytes = drop-drop 1 64 65 s.bytes refl in
    (
      refl,
      (
        rw last (get_elem?-drop 65 s.bytes),
        omega (arith, size, length-drop 65 s.bytes, ap length last),
      ),
    )
