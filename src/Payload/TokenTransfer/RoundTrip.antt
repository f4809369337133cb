-- ===== src/Payload/TokenTransfer/RoundTrip.antt =====
-- transaction_payload.rs: `StxTokenTransfer` on the wire format of SIP-005.
use ledger_stacks.Base.{
  drop-append, subst, ℕ, ◌+◌, ◌-◌, ◌^◌, ◌<◌, ◌≡◌, refl, ◌∷◌, ◌++◌, [], length, le→leb, arith,
  append_assoc, append-nil, length-append, take-append,
}
use ledger_stacks.Error.{ok}
use ledger_stacks.Slice.{slice_from-append}
use ledger_stacks.Crates.{
  Crates, Bytes, to_be, length-to_be, be_u64-append, le_u8-cons, take-append_ok,
}
use ledger_stacks.Common.Limits.{hash160_len}
use ledger_stacks.Common.ContractName
use ledger_stacks.Common.ContractName.{ContractName}
use ledger_stacks.Principal.{PrincipalData, standard_from_bytes, contract_principal_from_bytes}
use ledger_stacks.Principal.Standard
use ledger_stacks.Principal.Standard.{StandardPrincipal}
use ledger_stacks.Principal.Contract
use ledger_stacks.Principal.Contract.{ContractPrincipal}
use ledger_stacks.Payload.TokenTransfer.{
  StxTokenTransfer, TokenTranferPrincipal, principal_from_u8, principal_from_bytes, from_bytes,
  amount, memo, raw_address, standard, contract,
}

-- A principal with its version byte, its hash, and a contract's name.
pub data Recipient : Type 0 where
  to_standard : ℕ → Bytes → Recipient
  to_contract : ℕ → Bytes → ContractName → Recipient

abbrev pub hash : Recipient → Bytes
hash (to_standard _ h) = h
hash (to_contract _ h _) = h

abbrev pub version : Recipient → ℕ
version (to_standard v _) = v
version (to_contract v _ _) = v

-- The type byte, and what follows the hash.
abbrev pub type_byte : Recipient → ℕ
type_byte (to_standard _ _) = 5
type_byte (to_contract _ _ _) = 6

abbrev pub name_bytes : Recipient → Bytes
name_bytes (to_standard _ _) = []
name_bytes (to_contract _ _ n) = ContractName.encode n

abbrev pub encode_recipient : Recipient → Bytes
encode_recipient r = version r ∷ hash r ++ name_bytes r

abbrev pub Fits : Recipient → Type 0
Fits (to_standard _ h) = length h ≡ hash160_len
Fits (to_contract _ h n) = (length h ≡ hash160_len) × ContractName.IsValid n

pub record Transfer : Type 0 where
  pub recipient : Recipient
  pub micro_stx : ℕ
  pub note : Bytes

abbrev pub encode : Transfer → Bytes
encode t = type_byte t.recipient ∷ encode_recipient t.recipient ++ (to_be 8 t.micro_stx ++ t.note)

abbrev pub IsValid : Transfer → Type 0
IsValid t = Fits t.recipient × ((t.micro_stx < 2 ^ 64) × (length t.note ≡ 34))

Fits-hash : (r : Recipient) → Fits r → length (hash r) ≡ hash160_len
Fits-hash (to_standard _ h) e = e
Fits-hash (to_contract _ h n) (e, _) = e

module _ ⦃crates : Crates⦄ where
  abbrev pub Shows : StxTokenTransfer → Transfer → Type 0
  Shows t w =
      (amount t ≡ ok w.micro_stx) × ((memo t ≡ ok w.note) × (raw_address t ≡ ok (hash w.recipient)))

  abbrev kind : Recipient → TokenTranferPrincipal
  kind (to_standard _ _) = standard
  kind (to_contract _ _ _) = contract

  principal_from_u8-type_byte : (r : Recipient) → principal_from_u8 (type_byte r) ≡ ok (kind r)
  unfolding principal_from_u8
  principal_from_u8-type_byte (to_standard _ _) = refl
  principal_from_u8-type_byte (to_contract _ _ _) = refl

  read_recipient :
      (r : Recipient) (rest : Bytes)
      → Fits r
      → (p : PrincipalData) × (principal_from_bytes (kind r) (encode_recipient r ++ rest)
          ≡ ok (rest, p))
  unfolding standard_from_bytes contract_principal_from_bytes
  read_recipient (to_standard v h) rest e = (
    PrincipalData.standard (record { bytes = v ∷ h }),
    rw (
      append-nil h,
      Standard.StandardPrincipal-Codec.decodes (record { bytes = v ∷ h }) rest (omega (arith, e)),
    ),
  )
  read_recipient (to_contract v h n) rest (e, valid) =
      let p : ContractPrincipal = record { address = record { bytes = v ∷ h }; name = n } in
      (
        PrincipalData.contract p,
        rw (Contract.ContractPrincipal-Codec.decodes p rest (omega (arith, e), valid)),
      )

  memo_at_end :
      (front note : Bytes) → length note ≡ 34 → memo (record { bytes = front ++ note }) ≡ ok note
  unfolding memo
  memo_at_end front note size =
      let total = length-append front note in
      let enough = le→leb 34 (length (front ++ note)) (omega (arith, size, total)) in
      let at : length front ≡ length (front ++ note) - 34 = omega (arith, size, total) in
      rw (enough, slice_from-append (length (front ++ note) - 34) front note at)

  amount_at :
      (n : ℕ) (front tail rem : Bytes)
      → crates.be_u64 tail ≡ ok (rem, n)
      → length tail ≡ 42
      → amount (record { bytes = front ++ tail }) ≡ ok n
  unfolding amount
  amount_at n front tail rem read size =
      let total = length-append front tail in
      let enough = le→leb 42 (length (front ++ tail)) (omega (arith, size, total)) in
      let at : length front ≡ length (front ++ tail) - 42 = omega (arith, size, total) in
      let inside = le→leb (length (front ++ tail) - 42) (length (front ++ tail)) (omega arith) in
      rw (enough, inside, drop-append (length (front ++ tail) - 42) front tail at, read)

  raw_address_at :
      (a v : ℕ) (h rest : Bytes)
      → length h ≡ hash160_len
      → raw_address (record { bytes = a ∷ v ∷ h ++ rest }) ≡ ok h
  unfolding raw_address
  raw_address_at a v h rest size =
      let enough =
        le→leb 22 (length (a ∷ v ∷ h ++ rest)) (omega (arith, size, length-append h rest)) in
      rw (enough, take-append 20 h rest size)

  taken :
      (r : Recipient) (body rest : Bytes)
      → Fits r
      → length body ≡ 42
      → from_bytes ((type_byte r ∷ encode_recipient r ++ body) ++ rest)
        ≡ ok (rest, record { bytes = type_byte r ∷ encode_recipient r ++ body })
  unfolding from_bytes
  taken r body rest fits size =
      let enc = type_byte r ∷ encode_recipient r ++ body in
      let (p, read) = read_recipient r (body ++ rest) fits in
      let split = append_assoc (encode_recipient r) body rest in
      let n = length (enc ++ rest) - length (body ++ rest) + 34 + 8 in
      let fits_n : length enc ≡ n = omega (
        arith,
        size,
        length-append enc rest,
        length-append body rest,
        length-append (encode_recipient r) body,
      ) in
      let whole : crates.take n (type_byte r ∷ encode_recipient r ++ (body ++ rest))
          ≡ ok (rest, enc) =
        rw (← split) (take-append_ok n enc rest fits_n) in
      rw (le_u8-cons, principal_from_u8-type_byte r, split, read, whole)

  -- A valid transfer is read off the front of any input, with its amount, its note and the hash it goes to.
  pub transfer_from_bytes-encode :
      (w : Transfer) (rest : Bytes)
      → IsValid w
      → (t : StxTokenTransfer) × ((from_bytes (encode w ++ rest) ≡ ok (rest, t)) × Shows t w)
  transfer_from_bytes-encode w rest (fits, (small, size)) =
      let coins = to_be 8 w.micro_stx in
      let body_size : length (coins ++ w.note) ≡ 42 =
        omega (arith, size, length-append coins w.note, length-to_be 8 w.micro_stx) in
      let front = type_byte w.recipient ∷ encode_recipient w.recipient in
      let name = append_assoc (hash w.recipient) (name_bytes w.recipient) (coins ++ w.note) in
      let split = append_assoc front coins w.note in
      (
        record { bytes = encode w },
        (
          taken w.recipient (coins ++ w.note) rest fits body_size,
          (
            amount_at w.micro_stx front (coins ++ w.note) w.note
                (be_u64-append w.micro_stx w.note small) body_size,
            (
              subst (λ bs. memo (record { bytes = bs }) ≡ ok w.note) split
                  (memo_at_end (front ++ coins) w.note size),
              rw name (
                  raw_address_at (type_byte w.recipient) (version w.recipient) (hash w.recipient)
                    (name_bytes w.recipient ++ (coins ++ w.note)) (Fits-hash w.recipient fits)),
            ),
          ),
        ),
      )
