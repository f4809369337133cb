-- ===== src/Value/Len/Total.antt =====
-- `value_len` returns on every input: it neither panics nor recurs without end.
use ledger_stacks.Base.{
  ℕ, zero, suc, ◌<◌, ◌≡◌, ap, not, ◌&&◌, Bool-cases, inl, inr, [], take, ◌∷◌, length, ltb, arith,
  le→leb,
}
use ledger_stacks.Error.{
  Result, ok, err, map_err, Returns, Returns->>=, Returns-if, parser_unexpected_value,
}
use ledger_stacks.Slice.{is_ascii}
use ledger_stacks.Crates.{Crates, Bytes, take_shorter, be_u32_shorter, Returns-take, Returns-be_u32}
use ledger_stacks.Common.ClarityName
use ledger_stacks.Principal.Contract
use ledger_stacks.Value.Id
use ledger_stacks.Value.Id.{
  ValueId, int, uint, buffer, bool_true, bool_false, standard_principal, contract_principal,
  response_ok, response_err, optional_none, optional_some, list, tuple, string_ascii, string_utf8,
  is_list, is_tuple, is_ascii_id,
}
use ledger_stacks.Value.Len.{
  Measured, increased, check_recursion_limit, string_len, list_loop, tuple_loop, list_len,
  tuple_len, nested_len, payload_len, value_len_impl, value_len,
}

Returns-check : (max depth : ℕ) → Returns (check_recursion_limit max depth)
unfolding check_recursion_limit
Returns-check max depth = elim (Bool-cases (ltb max depth)) [
  | inl over ↦ rw over tt
  | inr under ↦ rw under tt
]

Returns-map_err :
    {A : Type 0} (m : Result A) → Returns m → Returns (map_err parser_unexpected_value m)
Returns-map_err (ok a) h = tt
Returns-map_err (err e) h = tt
Returns-map_err Result.panic h = h
Returns-map_err Result.out_of_fuel h = h

map_err-ok :
    {A : Type 0} (m : Result A) {a : A} → map_err parser_unexpected_value m ≡ ok a → m ≡ ok a
map_err-ok (ok a) h = h
map_err-ok (err e) h = cc
map_err-ok Result.panic h = cc
map_err-ok Result.out_of_fuel h = cc

module _ ⦃crates : Crates⦄ where
  Returns-string_len : (id : ValueId) (rem : Bytes) → Returns (string_len id rem)
  unfolding string_len
  Returns-string_len id rem =
      Returns->>= (crates.be_u32 rem) _ (Returns-be_u32 rem) λ (rem', len) _.
        elim (Bool-cases (ltb (length rem') len)) [
          | inl short ↦ rw short tt
          | inr enough ↦
              rw (enough, le→leb len (length rem') (ground arith))
                (Returns-if (is_ascii_id id && not (is_ascii (take len rem'))) _ _ tt tt)
        ]

  -- The recursive call returns on every input of fewer than `n` bytes.
  module _ (rec : ℕ → Bytes → Measured) (n : ℕ)
      (returns : (depth : ℕ) (bs : Bytes) → length bs < n → Returns (rec depth bs)) where
    Returns-list_loop :
        (k depth : ℕ) (remain : Bytes) (len : ℕ)
        → length remain < n
        → Returns (list_loop rec k depth remain len)
    unfolding list_loop
    Returns-list_loop zero depth remain len h = tt
    Returns-list_loop (suc k) depth remain len h =
        Returns->>= (rec _ remain) _ (returns _ remain h) λ (depth', item_len) _.
          Returns->>= (crates.take item_len remain) _ (Returns-take item_len remain) λ (rem, _) e.
            Returns-list_loop k depth' rem _ (omega (arith, take_shorter item_len remain e))

    Returns-tuple_loop :
        (k depth : ℕ) (remain : Bytes) (len : ℕ)
        → length remain < n
        → Returns (tuple_loop rec k depth remain len)
    unfolding tuple_loop
    Returns-tuple_loop zero depth remain len h = tt
    Returns-tuple_loop (suc k) depth remain len h =
        Returns->>= (ClarityName.read_as_bytes remain) _ (ClarityName.Returns-read_as_bytes remain)
          λ (rem, key) e.
            Returns->>= (rec _ rem) _
              (returns _ rem (omega (arith, ClarityName.read_as_bytes_shorter remain e)))
              λ (depth', value_len) _.
                Returns->>= (crates.take _ remain) _ (Returns-take _ remain) λ (rem', _) e'.
                  Returns-tuple_loop k depth' rem' _ (omega (arith, take_shorter _ remain e'))

    Returns-list_len :
        (max depth : ℕ) (bs : Bytes) → length bs < n → Returns (list_len rec max depth bs)
    unfolding list_len
    Returns-list_len max depth bs h =
        Returns->>= (check_recursion_limit max depth) _ (Returns-check max depth) λ _ _.
          Returns->>= (crates.be_u32 bs) _ (Returns-be_u32 bs) λ (rem, k) e.
            Returns->>= (list_loop rec k depth rem 0) _
              (Returns-list_loop k depth rem 0 (omega (arith, be_u32_shorter bs e))) λ _ _. tt

    Returns-tuple_len :
        (max depth : ℕ) (bs : Bytes) → length bs < n → Returns (tuple_len rec max depth bs)
    unfolding tuple_len
    Returns-tuple_len max depth bs h =
        Returns->>= (check_recursion_limit max depth) _ (Returns-check max depth) λ _ _.
          Returns->>= (crates.be_u32 bs) _ (Returns-be_u32 bs) λ (rem, k) e.
            Returns->>= (tuple_loop rec k depth rem 0) _
              (Returns-tuple_loop k depth rem 0 (omega (arith, be_u32_shorter bs e))) λ _ _. tt

    Returns-nested_len :
        (depth : ℕ) (bs : Bytes) → length bs < n → Returns (nested_len rec depth bs)
    unfolding nested_len
    Returns-nested_len depth [] h = tt
    Returns-nested_len depth (b ∷ bs) h = returns (increased depth) (b ∷ bs) h

    Returns-payload_len :
        (max depth : ℕ) (id : ValueId) (rem : Bytes)
        → length rem < n
        → Returns (payload_len rec max depth id rem)
    unfolding payload_len
    Returns-payload_len max depth list rem h = Returns-list_len max depth rem h
    Returns-payload_len max depth tuple rem h = Returns-tuple_len max depth rem h
    Returns-payload_len max depth response_ok rem h = Returns-nested_len depth rem h
    Returns-payload_len max depth response_err rem h = Returns-nested_len depth rem h
    Returns-payload_len max depth optional_some rem h = Returns-nested_len depth rem h
    Returns-payload_len max depth buffer rem h =
        Returns->>= (crates.be_u32 rem) _ (Returns-be_u32 rem) λ _ _. tt
    Returns-payload_len max depth contract_principal rem h =
        Returns->>= (Contract.read_as_bytes rem) _ (Contract.Returns-read_as_bytes rem) λ _ _. tt
    Returns-payload_len max depth string_ascii rem h =
        Returns->>= (string_len string_ascii rem) _ (Returns-string_len string_ascii rem) λ _ _. tt
    Returns-payload_len max depth string_utf8 rem h =
        Returns->>= (string_len string_utf8 rem) _ (Returns-string_len string_utf8 rem) λ _ _. tt
    Returns-payload_len max depth _ rem h = tt

  id_shorter :
      (bs : Bytes) {rem : Bytes} {id : ValueId}
      → Id.from_bytes bs ≡ ok (rem, id)
      → length rem < length bs
  id_shorter bs {rem} {id} e = omega (arith, ap length (Id.ValueId-Codec.splits bs rem id e).0)

  Returns-value_len_impl :
      (f max depth : ℕ) (bs : Bytes) → length bs < f → Returns (value_len_impl f max depth bs)
  unfolding value_len_impl
  Returns-value_len_impl zero max depth bs h = absurd (omega arith)
  Returns-value_len_impl (suc f) max depth [] h =
      Returns->>= (check_recursion_limit max depth) _ (Returns-check max depth) λ _ _. tt
  Returns-value_len_impl (suc f) max depth (b ∷ bs) h =
      Returns->>= (check_recursion_limit max depth) _ (Returns-check max depth) λ _ _.
        Returns->>= (map_err parser_unexpected_value (Id.from_bytes (b ∷ bs))) _
          (Returns-map_err _ (Id.ValueId-Codec.returns (b ∷ bs)))
          λ (rem, id) e.
            Returns->>= (payload_len (value_len_impl f max) max depth id rem) _
              (Returns-payload_len (value_len_impl f max) (length (b ∷ bs))
                (λ d bs' h'. Returns-value_len_impl f max d bs' (omega arith)) max depth id rem
                (omega (arith, id_shorter (b ∷ bs) (map_err-ok _ e))))
              λ _ _. tt

  -- On every input the length is found or an error is returned: the loops and the recursion end, and
  -- no slice is out of range.
  pub Returns-value_len : (max : ℕ) (bs : Bytes) → Returns (value_len max bs)
  unfolding value_len
  Returns-value_len max [] = tt
  Returns-value_len max (b ∷ bs) =
      Returns->>= (value_len_impl (suc (length (b ∷ bs))) max 0 (b ∷ bs)) _
        (Returns-value_len_impl (suc (length (b ∷ bs))) max 0 (b ∷ bs) (omega arith)) λ _ _. tt
