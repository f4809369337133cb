-- ===== src/Spending/Condition/RoundTrip.antt =====
-- spending_condition.rs: `TransactionSpendingCondition::from_bytes` on the wire format of SIP-005.
use ledger_stacks.Base.{
  ℕ, ◌≡◌, refl, ◌∷◌, ◌++◌, List, length, true, Option, none, some, append_assoc, arith,
}
use ledger_stacks.Error.{ok}
use ledger_stacks.Crates.{Crates, Bytes}
use ledger_stacks.Common.HashMode.{HashMode, p2pkh, p2sh, p2wpkh, p2wsh}
use ledger_stacks.Common.Limits.{signature_len}
use ledger_stacks.Spending.Signer
use ledger_stacks.Spending.Signer.{SignerFields}
use ledger_stacks.Spending.Singlesig
use ledger_stacks.Spending.Singlesig.{
  TransactionPublicKeyEncoding, compressed, uncompressed, is_valid_hash_mode, key_encoding, to_u8,
}
use ledger_stacks.Spending.Multisig
use ledger_stacks.Spending.Multisig.Fields
use ledger_stacks.Spending.Multisig.Fields.{AuthField}
use ledger_stacks.Spending.Condition.{
  TransactionSpendingCondition, SpendingConditionSignature, read_singlesig, singlesig, multisig,
  from_bytes, read_signature, nonce, fee, signer_pub_key_hash, required_signatures, num_auth_fields,
  SpendingConditionSigner,
}

pub data Signature : Type 0 where
  one : TransactionPublicKeyEncoding → Bytes → Signature
  many : List AuthField → ℕ → Signature

pub record Account : Type 0 where
  pub signer : SignerFields
  pub signature : Signature

abbrev pub encode_signature : Signature → Bytes
encode_signature (one key sig) = to_u8 key ∷ sig
encode_signature (many fs required) = Fields.encode fs required

abbrev pub encode : Account → Bytes
encode a = Signer.encode a.signer ++ encode_signature a.signature

-- One signature goes with the pay-to-public-key modes, many with the pay-to-script modes.
abbrev pub Agrees : HashMode → Signature → Type 0
Agrees p2pkh (one key sig) = length sig ≡ signature_len
Agrees p2wpkh (one compressed sig) = length sig ≡ signature_len
Agrees p2sh (many fs required) = Fields.Fits fs required
Agrees p2wsh (many fs required) = Fields.Fits fs required
Agrees _ _ = ⊥

abbrev pub IsValid : Account → Type 0
IsValid a = Signer.Fits a.signer × Agrees a.signer.mode a.signature

abbrev pub required : Signature → Option ℕ
required (one _ _) = none
required (many _ n) = some n

abbrev pub field_count : Signature → Option ℕ
field_count (one _ _) = none
field_count (many fs _) = some (length fs)

module _ ⦃crates : Crates⦄ where
  -- What a parsed condition shows of the account.
  abbrev pub Shows : TransactionSpendingCondition → Account → Type 0
  Shows c a =
      (nonce c ≡ ok a.signer.sequence)
      × ((fee c ≡ ok a.signer.rate)
          × ((signer_pub_key_hash c ≡ ok a.signer.key_hash)
              × ((required_signatures c ≡ ok (required a.signature))
                  × (num_auth_fields c ≡ ok (field_count a.signature)))))

  key_encoding-to_u8 :
      (key : TransactionPublicKeyEncoding) (sig : Bytes)
      → key_encoding (record { bytes = to_u8 key ∷ sig }) ≡ ok key
  unfolding key_encoding
  key_encoding-to_u8 compressed sig = refl
  key_encoding-to_u8 uncompressed sig = refl

  abbrev Read : Signature → SpendingConditionSignature → Type 0
  Read (one key sig) (singlesig s) = s.bytes ≡ to_u8 key ∷ sig
  Read (many fs n) (multisig m) =
      (Multisig.num_fields m ≡ ok (length fs)) × (Multisig.required_signatures m ≡ ok n)
  Read _ _ = ⊥

  read_one :
      (mode : HashMode) (key : TransactionPublicKeyEncoding) (sig rest : Bytes)
      → length sig ≡ signature_len
      → is_valid_hash_mode key mode ≡ true
      → read_singlesig mode ((to_u8 key ∷ sig) ++ rest)
        ≡ ok (rest, singlesig (record { bytes = to_u8 key ∷ sig }))
  read_one mode key sig rest size valid = rw (
    Singlesig.Singlesig-Codec.decodes (record { bytes = to_u8 key ∷ sig }) rest
        (omega (arith, size)),
    key_encoding-to_u8 key sig,
    valid,
  )

  read_signature-encode :
      (mode : HashMode) (s : Signature) (rest : Bytes)
      → Agrees mode s
      → (c : SpendingConditionSignature) × ((read_signature mode (encode_signature s ++ rest)
            ≡ ok (rest, c))
          × Read s c)
  unfolding is_valid_hash_mode
  read_signature-encode p2pkh (one compressed sig) rest h =
      (_, (read_one p2pkh compressed sig rest h refl, refl))
  read_signature-encode p2pkh (one uncompressed sig) rest h =
      (_, (read_one p2pkh uncompressed sig rest h refl, refl))
  read_signature-encode p2wpkh (one compressed sig) rest h =
      (_, (read_one p2wpkh compressed sig rest h refl, refl))
  read_signature-encode p2sh (many fs n) rest h =
      let (m, (e, shows)) = Fields.multisig_from_bytes-encode fs n rest h in
      (multisig m, (rw e, shows))
  read_signature-encode p2wsh (many fs n) rest h =
      let (m, (e, shows)) = Fields.multisig_from_bytes-encode fs n rest h in
      (multisig m, (rw e, shows))
  read_signature-encode p2pkh (many fs n) rest h = absurd h
  read_signature-encode p2sh (one _ sig) rest h = absurd h
  read_signature-encode p2wpkh (one uncompressed sig) rest h = absurd h
  read_signature-encode p2wpkh (many fs n) rest h = absurd h
  read_signature-encode p2wsh (one _ sig) rest h = absurd h

  shown :
      (signer : SpendingConditionSigner) (s : Signature) (c : SpendingConditionSignature)
      → Read s c
      → (required_signatures (record { signer = signer; signature = c }) ≡ ok (required s))
        × (num_auth_fields (record { signer = signer; signature = c }) ≡ ok (field_count s))
  unfolding required_signatures num_auth_fields
  shown signer (one key sig) (singlesig _) h = (refl, refl)
  shown signer (many fs n) (multisig m) (count, last) = (rw last, rw count)
  shown signer (one key sig) (multisig m) h = absurd h
  shown signer (many fs n) (singlesig _) h = absurd h

  -- A valid account is read off the front of any input, and the condition shows its parts.
  pub spending_from_bytes-encode :
      (a : Account) (rest : Bytes)
      → IsValid a
      → (c : TransactionSpendingCondition) × ((from_bytes (encode a ++ rest) ≡ ok (rest, c))
          × Shows c a)
  unfolding from_bytes nonce fee signer_pub_key_hash
  spending_from_bytes-encode a rest (fits, agrees) =
      let tail = encode_signature a.signature ++ rest in
      let (s, (read, (mode, (hash, (sequence, rate))))) = Signer.signer-encode a.signer tail fits in
      let (sig, (signed, shows)) = read_signature-encode a.signer.mode a.signature rest agrees in
      (
        record { signer = s; signature = sig },
        (
          rw (append_assoc, read, mode, signed),
          (rw sequence, (rw rate, (hash, shown s a.signature sig shows))),
        ),
      )
