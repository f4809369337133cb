-- ===== src/Payload/Display/Arguments/Texts.antt =====
-- transaction_payload.rs: which text an argument of a contract call has.
use ledger_stacks.Base.{
  ℕ, ◌+◌, ◌-◌, ◌%◌, ◌^◌, ◌≤◌, ◌<◌, ◌≡◌, refl, ap, [], ◌∷◌, ◌++◌, length, length-append, take,
  take_all, drop, ltb, ltb→lt, le→ltb, le→leb, append-nil, Bool-cases, inl, inr, arith, codes,
  if◌then◌else◌,
}
use ledger_stacks.Error.{Result, ok, panic, ◌>>=◌, >>=-eq-ok}
use ledger_stacks.Slice.{slice, slice_from-append}
use ledger_stacks.Crates.{Crates, Bytes, to_be, read_be-append}
use ledger_stacks.Device.{Device, signed_text, non_negative}
use ledger_stacks.Format.Decimal.{decimal}
use ledger_stacks.Common.ContractName
use ledger_stacks.Common.ClarityName
use ledger_stacks.Common.Limits.{c32_encoded_addrs_length}
use ledger_stacks.C32Encoding.{c32_address, c32_check_encode, insert_front}
use ledger_stacks.Principal
use ledger_stacks.Principal.{PrincipalData}
use ledger_stacks.Principal.Standard
use ledger_stacks.Principal.Contract
use ledger_stacks.Value.Id
use ledger_stacks.Value.Id.{ValueId}
use ledger_stacks.Value.Encoding
use ledger_stacks.Value.Encoding.{Clarity}
use ledger_stacks.Value.Parse
use ledger_stacks.Value.Parse.{Value, value_id, uint, new_uint}
use ledger_stacks.Value.Int.{to_signed, int, new_int}
use ledger_stacks.Payload.Display.Arguments.{argument_text, contract_principal_text, ascii_end}

-- The type byte of a value.
abbrev pub id_of : Clarity → ValueId
id_of (Clarity.int _) = ValueId.int
id_of (Clarity.uint _) = ValueId.uint
id_of (Clarity.buffer _) = ValueId.buffer
id_of Clarity.bool_true = ValueId.bool_true
id_of Clarity.bool_false = ValueId.bool_false
id_of (Clarity.standard_principal _) = ValueId.standard_principal
id_of (Clarity.contract_principal _) = ValueId.contract_principal
id_of (Clarity.response_ok _) = ValueId.response_ok
id_of (Clarity.response_err _) = ValueId.response_err
id_of Clarity.none = ValueId.optional_none
id_of (Clarity.some _) = ValueId.optional_some
id_of (Clarity.list _) = ValueId.list
id_of (Clarity.tuple _) = ValueId.tuple
id_of (Clarity.string_ascii _) = ValueId.string_ascii
id_of (Clarity.string_utf8 _) = ValueId.string_utf8

-- Its number has 39 characters at most.
abbrev pub FitsBuffer : Clarity → Type 0
FitsBuffer (Clarity.int n) = length (signed_text (to_signed n)) ≤ 39
FitsBuffer (Clarity.uint n) = length (decimal n) ≤ 39
FitsBuffer _ = Unit {0}

module _ ⦃crates : Crates⦄ ⦃device : Device⦄ where
  -- The text of a value.
  abbrev pub text_of : Clarity → Result Bytes
  text_of (Clarity.int n) = ok (signed_text (to_signed n))
  text_of (Clarity.uint n) = ok (decimal n)
  text_of (Clarity.buffer _) = ok (codes "is Buffer")
  text_of Clarity.bool_true = ok (codes "is bool: true")
  text_of Clarity.bool_false = ok (codes "is bool: false")
  text_of (Clarity.standard_principal p) = Principal.encoded_address (Principal.standard p)
  text_of (Clarity.contract_principal p) = do
    address ← Principal.encoded_address (Principal.contract p)
    ok (address ++ b'.' ∷ ContractName.name p.name)
  text_of (Clarity.response_ok _) = ok (codes "is Result: Ok")
  text_of (Clarity.response_err _) = ok (codes "is Result: Err")
  text_of Clarity.none = ok (codes "is Option: None")
  text_of (Clarity.some _) = ok (codes "is Option: Some")
  text_of (Clarity.list _) = ok (codes "is List")
  text_of (Clarity.tuple _) = ok (codes "is Tuple")
  text_of (Clarity.string_ascii bs) = ok (if ltb 60 (length bs) then take 56 bs else bs)
  text_of (Clarity.string_utf8 _) = ok (codes "is StringUtf8")

  number : (n : ℕ) → n < 2 ^ 128 → crates.be_u128 (to_be 16 n) ≡ ok ([], n)
  number n h = rw crates.be_u128_law (read_be-append 16 n [] (omega (arith, h)))

  address_fits :
      (version : ℕ) (hash text : Bytes)
      → c32_address version hash ≡ ok text
      → length text ≤ c32_encoded_addrs_length
  unfolding c32_address insert_front
  address_fits version hash text e =
      let (inner, _, last) = >>=-eq-ok (c32_check_encode version hash) _ e in
      elim (Bool-cases (ltb (length inner) c32_encoded_addrs_length)) [
        | inl room ↦
            let front : ◌≡◌ {A = Bytes} (b'S' ∷ inner) text = cc (rw room at last) in
            rw (← front) (omega (arith, ltb→lt (length inner) c32_encoded_addrs_length room))
        | inr full ↦ cc (rw full at last)
      ]

  encoded_fits :
      (p : PrincipalData) (text : Bytes)
      → Principal.encoded_address p ≡ ok text
      → length text ≤ c32_encoded_addrs_length
  unfolding Principal.encoded_address
  encoded_fits p text e =
      let (v, _, rest) = >>=-eq-ok (Principal.version p) _ e in
      let (hash, _, last) = >>=-eq-ok (Principal.raw_address p) _ rest in
      address_fits v hash text last

  -- The buffer holds the longest address and the longest name.
  dotted :
      (m : Result Bytes) (name : Bytes)
      → ((text : Bytes) → m ≡ ok text → length text ≤ c32_encoded_addrs_length)
      → length name < ClarityName.max_len
      → (m >>= λ address.
          if ltb
            (c32_encoded_addrs_length + ClarityName.max_len + 1)
            (length (address ++ b'.' ∷ name))
          then panic
          else ok (address ++ b'.' ∷ name))
        ≡ (m >>= λ address. ok (address ++ b'.' ∷ name))
  dotted (ok text) name fits short = rw (
      le→ltb (c32_encoded_addrs_length + ClarityName.max_len + 1) (length (text ++ b'.' ∷ name))
        (omega (arith, fits text refl, short, length-append text (b'.' ∷ name))))
  dotted _ name fits short = refl

  -- Behind the four bytes of the length.
  ascii_text :
      (a b c d : ℕ) (bs : Bytes)
      → length bs < 2 ^ 32
      → slice 4 (ascii_end (a ∷ b ∷ c ∷ d ∷ bs)) (a ∷ b ∷ c ∷ d ∷ bs)
        ≡ ok (if ltb 60 (length bs) then take 56 bs else bs)
  unfolding ascii_end
  ascii_text a b c d bs small =
      let wrapped : (length (a ∷ b ∷ c ∷ d ∷ bs) + 2 ^ 32 - 4) % 2 ^ 32 ≡ length bs =
        omega (arith, small) in
      elim (Bool-cases (ltb 60 (length bs))) [
        | inl long ↦ rw (
          wrapped,
          long,
          le→leb 60 (length (a ∷ b ∷ c ∷ d ∷ bs)) (omega (arith, ltb→lt 60 (length bs) long)),
        )
        | inr whole ↦
            rw
              (
                wrapped,
                whole,
                le→leb 4 (length (a ∷ b ∷ c ∷ d ∷ bs)) (omega arith),
                le→leb (length (a ∷ b ∷ c ∷ d ∷ bs)) (length (a ∷ b ∷ c ∷ d ∷ bs)) (omega arith),
              )
              (ap (λ (t : Bytes). ok t)
                (take_all (length (a ∷ b ∷ c ∷ d ∷ bs) - 4) bs (omega arith)))
      ]

  -- A valid value whose number fits the buffer has its text.
  pub argument_text-encode :
      (v : Clarity)
      → Encoding.IsValid v
      → length (Encoding.encode v) < 2 ^ 32
      → FitsBuffer v
      → argument_text (id_of v) (record { bytes = Encoding.encode v }) (drop 1 (Encoding.encode v))
        ≡ text_of v
  unfolding argument_text Parse.payload int new_int uint new_uint value_id Id.try_from
      Principal.standard_from_bytes Principal.contract_principal_from_bytes contract_principal_text
      Principal.contract_name
  argument_text-encode (Clarity.int n) valid small fits =
      rw (number n valid, device.numtoa_law 39 (to_signed n) fits)
  argument_text-encode (Clarity.uint n) valid small fits =
      rw (number n valid, device.numtoa_law 39 (non_negative n) fits)
  argument_text-encode (Clarity.standard_principal p) valid small fits =
      rw (rw append-nil at (Standard.StandardPrincipal-Codec.decodes p [] valid))
  argument_text-encode (Clarity.contract_principal p) valid small fits =
      rw (rw append-nil at (Contract.ContractPrincipal-Codec.decodes p [] valid)) (
        dotted (Principal.encoded_address (Principal.contract p)) (ContractName.name p.name)
          (encoded_fits (Principal.contract p)) valid.1.0)
  argument_text-encode (Clarity.string_ascii bs) valid small fits =
      ascii_text _ _ _ _ bs (omega (arith, small))
  argument_text-encode _ valid small fits = refl

encode-id_of : (v : Clarity) → Id.to_u8 (id_of v) ∷ drop 1 (Encoding.encode v) ≡ Encoding.encode v
encode-id_of (Clarity.int n) = refl
encode-id_of _ = refl

-- The two parts of a value.
pub value_id-encode : (v : Clarity) → value_id (record { bytes = Encoding.encode v }) ≡ ok (id_of v)
unfolding value_id
value_id-encode v = rw (← encode-id_of v, Id.try_from-to_u8)

pub payload-encode :
    (v : Clarity)
    → Parse.payload (record { bytes = Encoding.encode v }) ≡ ok (drop 1 (Encoding.encode v))
unfolding Parse.payload
payload-encode v =
    rw (← encode-id_of v)
      (slice_from-append 1 (Id.to_u8 (id_of v) ∷ []) (drop 1 (Encoding.encode v)) refl)
