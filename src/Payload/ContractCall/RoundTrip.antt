-- ===== src/Payload/ContractCall/RoundTrip.antt =====
-- transaction_payload.rs: the arguments of a contract call on the wire format of SIP-005.
use ledger_stacks.Base.{
  ℕ, zero, suc, ◌^◌, ◌<◌, ◌≤◌, ◌≡◌, refl, ◌∷◌, ◌++◌, [], List, All, Option, none, some, get_elem?,
  length, leb, Bool, true, false, le→leb, lt→ltb, le→ltb, arith, append_assoc, append-nil,
  if◌then◌else◌, ◌||◌, not, Bool-cases, inl, leb→le, inr, leb→lt,
}
use ledger_stacks.Error.{
  Result, ok, err, parser_display_idx_out_of_range, parser_invalid_transaction_payload, ParserError,
}
use ledger_stacks.Crates.{Crates, Bytes, to_be, be_u32-append, take-append_ok}
use ledger_stacks.Common.Limits.{tx_depth_limit}
use ledger_stacks.Value.Encoding
use ledger_stacks.Value.Encoding.{Clarity, cost}
use ledger_stacks.Value.Parse
use ledger_stacks.Value.Parse.{Value, value_from_bytes-encode}
use ledger_stacks.Payload.ContractCall.{
  arguments_from_bytes, arguments_num_args, argument_at, skip_to, max_num_args,
}

abbrev pub encode_values : List Clarity → Bytes
encode_values [] = []
encode_values (v ∷ vs) = Encoding.encode v ++ encode_values vs

abbrev pub encode : List Clarity → Bytes
encode vs = to_be 4 (length vs) ++ encode_values vs

-- A value that the device can show as an argument.
abbrev pub IsArgument : Clarity → Type 0
IsArgument v =
    Encoding.IsValid v × ((cost v ≤ tx_depth_limit) × (length (Encoding.encode v) < 2 ^ 32))

-- The argument that stands at a place.
abbrev pub value_at : Option Clarity → Result Value
value_at none = err parser_display_idx_out_of_range
value_at (some v) = ok (record { bytes = Encoding.encode v })

refused :
    {A : Type 0} (expert : Bool) (e : ParserError) (m x : Result A)
    → m ≡ x
    → (if not expert then err e else m) ≡ (if expert then x else err e)
refused true e m x h = h
refused false e m x h = refl

module _ ⦃crates : Crates⦄ where
  read_value :
      (v : Clarity) (rest : Bytes)
      → IsArgument v
      → Parse.from_bytes tx_depth_limit (Encoding.encode v ++ rest)
        ≡ ok (rest, record { bytes = Encoding.encode v })
  read_value v rest (valid, (shallow, small)) = rw (
    value_from_bytes-encode tx_depth_limit v rest (omega arith) valid small,
    le→leb (cost v) tx_depth_limit shallow,
  )

  skip_to-encode :
      (vs : List Clarity) (at : ℕ) (rest : Bytes)
      → All IsArgument vs
      → skip_to (length vs) at (encode_values vs ++ rest) ≡ value_at (get_elem? vs at)
  unfolding skip_to
  skip_to-encode [] at rest h = refl
  skip_to-encode (v ∷ vs) zero rest (hv, h) = rw (
    append_assoc (Encoding.encode v) (encode_values vs) rest,
    read_value v (encode_values vs ++ rest) hv,
  )
  skip_to-encode (v ∷ vs) (suc at) rest (hv, h) =
      rw
        (
          append_assoc (Encoding.encode v) (encode_values vs) rest,
          read_value v (encode_values vs ++ rest) hv,
        )
        (skip_to-encode vs at rest h)

  -- Of valid arguments that each stay within the depth limit, the argument at a place is the
  -- encoding of the value that stands there, also with bytes behind the arguments, and a place
  -- behind the last argument is out of range.
  pub argument_at-encode :
      (vs : List Clarity) (at : ℕ) (rest : Bytes)
      → All IsArgument vs
      → length vs < 2 ^ 32
      → argument_at (record { bytes = encode vs ++ rest }) at ≡ value_at (get_elem? vs at)
  unfolding argument_at arguments_num_args
  argument_at-encode vs at rest h few =
      let inside = le→leb 4 (length (encode vs ++ rest)) (omega arith) in
      rw (be_u32-append (length vs) (encode_values vs ++ rest) few, inside)
        (skip_to-encode vs at rest h)

  counted :
      (expert : Bool) (bs : Bytes) (n : ℕ) {r : Bytes}
      → crates.be_u32 bs ≡ ok (r, n)
      → arguments_from_bytes expert bs ≡ (
          if leb n max_num_args || expert
          then ok ([], record { bytes = bs })
          else err parser_invalid_transaction_payload)
  unfolding arguments_from_bytes
  counted expert bs n read =
      let all : crates.take (length bs) bs ≡ ok ([], bs) =
        rw (append-nil bs) at (take-append_ok (length bs) bs [] refl) in
      elim (Bool-cases (leb n max_num_args)) [
        | inl few ↦ rw (read, few, le→ltb max_num_args n (leb→le n max_num_args few), all)
        | inr many ↦
            rw (read, many, lt→ltb max_num_args n (leb→lt n max_num_args many))
              (refused expert _ _ _ (rw all))
      ]

  -- The arguments are refused when there are more than ten outside of the expert mode, and take all
  -- the rest of the input else.
  pub arguments_from_bytes-encode :
      (expert : Bool) (vs : List Clarity) (rest : Bytes)
      → length vs < 2 ^ 32
      → arguments_from_bytes expert (encode vs ++ rest) ≡ (
          if leb (length vs) max_num_args || expert
          then ok ([], record { bytes = encode vs ++ rest })
          else err parser_invalid_transaction_payload)
  unfolding arguments_from_bytes
  arguments_from_bytes-encode expert vs rest few =
      counted expert (encode vs ++ rest) (length vs)
        (be_u32-append (length vs) (encode_values vs ++ rest) few)
