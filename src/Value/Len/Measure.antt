-- ===== src/Value/Len/Measure.antt =====
-- The length that the parser finds for an encoded value, and when it stops at the limit.
use ledger_stacks.Base.{
  ℕ, zero, suc, ◌+◌, ◌-◌, ◌^◌, ◌≤◌, ◌<◌, ◌≡◌, refl, Bool-cases, inl, inr, ◌∷◌, ◌++◌, append_assoc,
  length, length-append, leb, ltb, arith, if◌then◌else◌,
}
use ledger_stacks.Error.{ok, err, parser_recursion_limit}
use ledger_stacks.Crates.{Crates, Bytes, take-append_ok}
use ledger_stacks.Common.ClarityName
use ledger_stacks.Value.Id
use ledger_stacks.Value.Id.{ValueId, from_bytes-cons, try_from-to_u8, to_u8, is_list, is_tuple}
use ledger_stacks.Value.Len.{
  Measured, add_usize, increased, check_recursion_limit, holds_id, list_loop, tuple_loop,
  payload_len, value_len_impl,
}
use ledger_stacks.Value.Encoding.{Clarity, encode, list_step, tuple_step}

-- The counter's last value and the length, or the limit's error.
abbrev pub within : ℕ → ℕ → ℕ → Measured
within max d len = if leb d max then ok (d, len) else err parser_recursion_limit

module _ ⦃crates : Crates⦄ where
  -- The type byte and the check come first; the payload adds `c` to the counter.
  spent :
      (id : ValueId) (bs : Bytes) (f max depth c len : ℕ)
      → (depth ≤ max
          → payload_len (value_len_impl f max) max depth id bs ≡ within max (depth + c) len)
      → suc len < 2 ^ 32
      → value_len_impl (suc f) max depth (to_u8 id ∷ bs) ≡ within max (depth + c) (suc len)
  unfolding value_len_impl check_recursion_limit
  spent id bs f max depth c len payload h = elim (Bool-cases (ltb max depth)) [
    | inl over ↦ rw over (ground arith)
    | inr under ↦
        rw (under, from_bytes-cons, try_from-to_u8 id, payload (ground arith)) (ground arith)
  ]

  -- The same with the fuel that is left for the payload, and the length as the caller writes it.
  pub measured :
      (id : ValueId) (bs : Bytes) (f max depth c len total : ℕ)
      → 0 < f
      → suc len ≡ total
      → total < 2 ^ 32
      → (depth ≤ max
          → payload_len (value_len_impl (f - 1) max) max depth id bs ≡ within max (depth + c) len)
      → value_len_impl f max depth (to_u8 id ∷ bs) ≡ within max (depth + c) total
  measured id bs zero max depth c len total pos e h payload = elim pos [ ]
  measured id bs (suc f) max depth c len total pos e h payload =
      let same : suc f - 1 ≡ f = omega arith in
      rw (← e) (spent id bs f max depth c len (λ under. rw (← same) (payload under)) (omega arith))

  holds_id-list :
      (v : Clarity) (rest : Bytes) (depth : ℕ)
      → depth < 255
      → (if holds_id is_list (Id.from_bytes (encode v ++ rest)) then increased depth else depth)
        ≡ depth + list_step v
  unfolding holds_id Id.try_from
  holds_id-list (Clarity.list xs) rest depth h = rw from_bytes-cons (omega arith)
  holds_id-list (Clarity.int n) rest depth h = rw from_bytes-cons (omega arith)
  holds_id-list _ rest depth h = rw from_bytes-cons (omega arith)

  holds_id-tuple :
      (v : Clarity) (rest : Bytes) (depth : ℕ)
      → depth < 255
      → (if holds_id is_tuple (Id.from_bytes (encode v ++ rest)) then increased depth else depth)
        ≡ depth + tuple_step v
  unfolding holds_id Id.try_from
  holds_id-tuple (Clarity.tuple xs) rest depth h = rw from_bytes-cons (omega arith)
  holds_id-tuple _ rest depth h = rw from_bytes-cons (omega arith)

  -- One round of each loop, on an encoded item and on an encoded field.
  pub list_loop-item :
      (rec : ℕ → Bytes → Measured) (v : Clarity) (rest : Bytes) (n max depth d len : ℕ)
      → depth < 255
      → rec (depth + list_step v) (encode v ++ rest) ≡ within max d (length (encode v))
      → list_loop rec (suc n) depth (encode v ++ rest) len ≡ (
          if leb d max
          then list_loop rec n d rest (add_usize len (length (encode v)))
          else err parser_recursion_limit)
  unfolding list_loop
  list_loop-item rec v rest n max depth d len small measure = elim (Bool-cases (leb d max)) [
    | inl fits ↦
        rw (holds_id-list v rest depth small, measure, fits, take-append_ok _ (encode v) rest refl)
    | inr over ↦ rw (holds_id-list v rest depth small, measure, over)
  ]

  pub tuple_loop-field :
      (rec : ℕ → Bytes → Measured) (k : ClarityName.ClarityName) (v : Clarity) (rest : Bytes)
      (n max depth d len : ℕ)
      → depth < 255
      → ClarityName.Fits k
      → length (ClarityName.encode k) + length (encode v) < 2 ^ 32
      → rec (depth + tuple_step v) (encode v ++ rest) ≡ within max d (length (encode v))
      → tuple_loop rec (suc n) depth (ClarityName.encode k ++ (encode v ++ rest)) len ≡ (
          if leb d max
          then tuple_loop rec n d rest
              (add_usize len (add_usize (length (ClarityName.encode k)) (length (encode v))))
          else err parser_recursion_limit)
  unfolding tuple_loop
  tuple_loop-field rec k v rest n max depth d len small fits bound measure =
      let joined : crates.take (add_usize (length (ClarityName.encode k)) (length (encode v)))
            (ClarityName.encode k ++ (encode v ++ rest))
          ≡ ok (rest, ClarityName.encode k ++ encode v) =
        rw (← append_assoc (ClarityName.encode k) (encode v) rest) (
          take-append_ok _ (ClarityName.encode k ++ encode v) rest
            (omega (arith, length-append (ClarityName.encode k) (encode v)))) in
      elim (Bool-cases (leb d max)) [
        | inl under ↦ rw (
          ClarityName.read_as_bytes-encode k (encode v ++ rest) fits,
          holds_id-tuple v rest depth small,
          measure,
          under,
          joined,
        )
        | inr over ↦ rw (
          ClarityName.read_as_bytes-encode k (encode v ++ rest) fits,
          holds_id-tuple v rest depth small,
          measure,
          over,
        )
      ]
