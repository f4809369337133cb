-- ===== src/Spending/Multisig/Fields.antt =====
-- The auth fields of a multisig condition as SIP-005 writes them.
use ledger_stacks.Base.{
  ℕ, suc, ◌+◌, ◌-◌, ◌≡◌, ◌<◌, ◌^◌, refl, ap, ◌∷◌, ◌++◌, [], List, All, length, arith, append_assoc,
  length-append, get_elem?-append, drop-append, le→leb, le→ltb,
}
use ledger_stacks.Error.{ok}
use ledger_stacks.Crates.{
  Crates, Bytes, to_be, length-to_be, be_u32-append, take-append_ok, read_be-append,
}
use ledger_stacks.Spending.Multisig.{
  MultisigSpendingCondition, field_len, fields_len, from_bytes, required_signatures, num_fields,
}

pub data AuthField : Type 0 where
  public_key_compressed public_key_uncompressed signature_compressed signature_uncompressed :
      Bytes → AuthField

abbrev pub encode_field : AuthField → Bytes
encode_field (public_key_compressed bs) = 0x00 ∷ bs
encode_field (public_key_uncompressed bs) = 0x01 ∷ bs
encode_field (signature_compressed bs) = 0x02 ∷ bs
encode_field (signature_uncompressed bs) = 0x03 ∷ bs

abbrev pub IsField : AuthField → Type 0
IsField (public_key_compressed bs) = length bs ≡ 33
IsField (public_key_uncompressed bs) = length bs ≡ 33
IsField (signature_compressed bs) = length bs ≡ 65
IsField (signature_uncompressed bs) = length bs ≡ 65

abbrev pub encode_fields : List AuthField → Bytes
encode_fields [] = []
encode_fields (f ∷ fs) = encode_field f ++ encode_fields fs

abbrev pub encode : List AuthField → ℕ → Bytes
encode fs required = to_be 4 (length fs) ++ (encode_fields fs ++ to_be 2 required)

-- The loop adds the field at its place.
byte_step :
    (b len : ℕ) (bs : Bytes) (n : ℕ) (front back : Bytes)
    → field_len b ≡ ok len
    → suc (length bs) ≡ len
    → fields_len (suc n) (length front) (front ++ (b ∷ bs ++ back))
      ≡ fields_len n (length (front ++ b ∷ bs)) (front ++ (b ∷ bs ++ back))
unfolding fields_len
byte_step b len bs n front back e size =
    let next : length (front ++ b ∷ bs) ≡ length front + len =
      omega (arith, size, length-append front (b ∷ bs)) in
    rw (next, fields_len, get_elem?-append front b (bs ++ back), e)

field_step :
    (f : AuthField) (n : ℕ) (front back : Bytes)
    → IsField f
    → fields_len (suc n) (length front) (front ++ (encode_field f ++ back))
      ≡ fields_len n (length (front ++ encode_field f)) (front ++ (encode_field f ++ back))
unfolding field_len
field_step (public_key_compressed bs) n front back h =
    byte_step 0x00 34 bs n front back refl (omega (arith, h))
field_step (public_key_uncompressed bs) n front back h =
    byte_step 0x01 34 bs n front back refl (omega (arith, h))
field_step (signature_compressed bs) n front back h =
    byte_step 0x02 66 bs n front back refl (omega (arith, h))
field_step (signature_uncompressed bs) n front back h =
    byte_step 0x03 66 bs n front back refl (omega (arith, h))

fields_len-encode :
    (fs : List AuthField) (front back : Bytes)
    → All IsField fs
    → fields_len (length fs) (length front) (front ++ (encode_fields fs ++ back))
      ≡ ok (length front + length (encode_fields fs))
unfolding fields_len
fields_len-encode [] front back h = ap ok (omega arith)
fields_len-encode (f ∷ fs) front back (h, hs) =
    let outer = append_assoc front (encode_field f) (encode_fields fs ++ back) in
    let step = field_step f (length fs) front (encode_fields fs ++ back) h in
    let rest = fields_len-encode fs (front ++ encode_field f) back hs in
    let total : length (front ++ encode_field f) + length (encode_fields fs)
        ≡ length front + length (encode_field f ++ encode_fields fs) =
      omega (
        arith,
        length-append front (encode_field f),
        length-append (encode_field f) (encode_fields fs),
      ) in
    rw (append_assoc (encode_field f) (encode_fields fs) back, step, ← outer, rest) (ap ok total)

abbrev pub Fits : List AuthField → ℕ → Type 0
Fits fs required = All IsField fs × ((length fs < 2 ^ 32) × (required < 2 ^ 16))

module _ ⦃crates : Crates⦄ where
  counted_fields :
      (n count : ℕ) (enc rest whole : Bytes) {r : Bytes}
      → crates.be_u32 whole ≡ ok (r, n)
      → fields_len n 4 whole ≡ ok count
      → enc ++ rest ≡ whole
      → length enc ≡ count + 2
      → from_bytes whole ≡ ok (rest, record { bytes = enc })
  unfolding from_bytes
  counted_fields n count enc rest whole hn hc e size =
      let taken : crates.take (count + 2) whole ≡ ok (rest, enc) =
        rw (← e) (take-append_ok (count + 2) enc rest size) in
      rw (hn, hc, taken)

  number_at_end :
      (n : ℕ) (front back whole : Bytes)
      → crates.be_u16 back ≡ ok ([], n)
      → length back ≡ 2
      → front ++ back ≡ whole
      → required_signatures (record { bytes = whole }) ≡ ok n
  unfolding required_signatures
  number_at_end n front back whole read size e =
      let total = length-append front back in
      let at : length front ≡ length (front ++ back) - 2 = omega (arith, size, total) in
      rw (
        ← e,
        le→ltb (length (front ++ back)) 2 (omega (arith, size, total)),
        le→leb (length (front ++ back) - 2) (length (front ++ back)) (omega arith),
        drop-append _ front back at,
        read,
      )

  -- Less than 2^32 auth fields, each of its length, are taken as they stand off the front of any
  -- input, and their number and the 16-bit number of signatures are read back from what was taken.
  pub multisig_from_bytes-encode :
      (fs : List AuthField) (required : ℕ) (rest : Bytes)
      → Fits fs required
      → (m : MultisigSpendingCondition) × ((from_bytes (encode fs required ++ rest) ≡ ok (rest, m))
          × ((num_fields m ≡ ok (length fs)) × (required_signatures m ≡ ok required)))
  unfolding num_fields
  multisig_from_bytes-encode fs required rest (h, (few, hr)) =
      let head = to_be 4 (length fs) in
      let tail = encode_fields fs ++ to_be 2 required in
      let fields = fields_len-encode fs head (to_be 2 required ++ rest) h in
      let split = append_assoc (encode_fields fs) (to_be 2 required) rest in
      let size : length (encode fs required) ≡ 4 + length (encode_fields fs) + 2 = omega (
        arith,
        length-append head tail,
        length-append (encode_fields fs) (to_be 2 required),
        length-to_be 4 (length fs),
        length-to_be 2 required,
      ) in
      let read : crates.be_u32 head ≡ ok ([], length fs) = be_u32-append (length fs) [] few in
      let last : crates.be_u16 (to_be 2 required) ≡ ok ([], required) =
        rw crates.be_u16_law (read_be-append 2 required [] hr) in
      (
        record { bytes = encode fs required },
        (
          counted_fields (length fs) (4 + length (encode_fields fs)) (encode fs required) rest _
              (be_u32-append (length fs) (tail ++ rest) few) (rw split fields) refl size,
          (
            rw (le→leb 4 (length (encode fs required)) (omega (arith, size)), read),
            number_at_end required (head ++ encode_fields fs) (to_be 2 required)
                (encode fs required) last (length-to_be 2 required) refl,
          ),
        ),
      )
