-- ===== src/Value/Len/Payloads.antt =====
-- value.rs: the length of each kind of payload, from the lengths of its parts.
use ledger_stacks.Base.{
  ℕ, suc, ◌+◌, ◌-◌, ◌^◌, ◌≤◌, ◌<◌, ◌≡◌, refl, ap, ◌∙◌, not, ◌&&◌, true, false, Bool-cases, inl, inr,
  ◌∷◌, ◌++◌, append_assoc, length, length-append, leb, ltb, arith, if◌then◌else◌, take-append,
  le→leb, leb→le,
}
use ledger_stacks.Error.{ok, err, parser_recursion_limit}
use ledger_stacks.Slice.{is_ascii, slice_to}
use ledger_stacks.Crates.{Crates, Bytes, be_u32-append, to_be, length-to_be}
use ledger_stacks.Principal.Contract
use ledger_stacks.Value.Id
use ledger_stacks.Value.Id.{ValueId, is_ascii_id}
use ledger_stacks.Value.Len.{
  Measured, increased, check_recursion_limit, string_len, list_loop, tuple_loop, list_len,
  tuple_len, nested_len, payload_len, value_len_impl,
}
use ledger_stacks.Value.Len.Measure.{within, measured}
use ledger_stacks.Value.Encoding.{
  Clarity, Items, Fields, encode, encode_items, encode_fields, count_items, count_fields, counted,
  no_items, item, no_fields, field, int,
}

-- Every encoded item takes a byte at least.
pub encode_pos : (v : Clarity) → 0 < length (encode v)
encode_pos (int n) = omega arith
encode_pos _ = omega arith

pub count_items-le : (xs : Items) → count_items xs ≤ length (encode_items xs)
count_items-le no_items = omega arith
count_items-le (item v xs) =
    omega (arith, count_items-le xs, encode_pos v, length-append (encode v) (encode_items xs))

pub count_fields-le : (fs : Fields) → count_fields fs ≤ length (encode_fields fs)
count_fields-le no_fields = omega arith
count_fields-le (field k v fs) = omega (
  arith,
  count_fields-le fs,
  encode_pos v,
  length-append (encode v) (encode_fields fs),
  length-append k.bytes (encode v ++ encode_fields fs),
)

pub length-counted : (bs : Bytes) → length (counted bs) ≡ 4 + length bs
length-counted bs =
    omega (arith, length-append (to_be 4 (length bs)) bs, length-to_be 4 (length bs))

-- Once past the limit, past it for good.
pub join :
    (max d d' len : ℕ) (next : Measured)
    → (d ≤ max → next ≡ within max d' len)
    → d ≤ d'
    → (if leb d max then next else err parser_recursion_limit) ≡ within max d' len
join max d d' len next run h = elim (Bool-cases (leb d max)) [
  | inl under ↦ rw under (run (leb→le d max under))
  | inr over ↦ rw over (ground arith)
]

pub within-eq :
    (max : ℕ) {d d' len len' : ℕ} → d ≡ d' → len ≡ len' → within max d len ≡ within max d' len'
within-eq max p q = rw (p, q)

module _ ⦃crates : Crates⦄ where
  pub string_len-counted :
      (id : ValueId) (bs rest : Bytes)
      → length bs + 4 < 2 ^ 32
      → (is_ascii_id id ≡ true → is_ascii bs ≡ true)
      → string_len id (counted bs ++ rest) ≡ ok (4 + length bs)
  unfolding string_len
  string_len-counted id bs rest h ascii =
      let cut : slice_to (length bs) (bs ++ rest) ≡ ok bs = rw (
        le→leb (length bs) (length (bs ++ rest)) (omega (arith, length-append bs rest)),
        take-append _ bs rest refl,
      ) in
      let long : ltb (length (bs ++ rest)) (length bs) ≡ false =
        ground (arith, length-append bs rest) in
      let kept : (is_ascii_id id && not (is_ascii bs)) ≡ false = ground arith in
      rw (append_assoc, be_u32-append (length bs) (bs ++ rest) (omega arith), long, cut, kept)
        (ground arith)

  pub plain : (max depth len : ℕ) → depth ≤ max → ok (depth, len) ≡ within max (depth + 0) len
  plain max depth len h = rw (le→leb (depth + 0) max (omega arith)) (ground arith)

  pub increased-lt : (depth : ℕ) → depth < 255 → increased depth ≡ suc depth
  increased-lt depth h = omega arith

  pub nested_len-encode :
      (v : Clarity) (rec : ℕ → Bytes → Measured) (depth : ℕ) (rest : Bytes)
      → depth < 255
      → nested_len rec depth (encode v ++ rest) ≡ rec (suc depth) (encode v ++ rest)
  unfolding nested_len
  nested_len-encode (int n) rec depth rest h = rw (increased-lt depth h)
  nested_len-encode _ rec depth rest h = rw (increased-lt depth h)

  -- The count in front of the items and of the fields.
  pub list_len-counted :
      (rec : ℕ → Bytes → Measured) (n max depth d len : ℕ) (body : Bytes)
      → depth ≤ max
      → n < 2 ^ 32
      → len + 4 < 2 ^ 32
      → list_loop rec n depth body 0 ≡ within max d (0 + len)
      → list_len rec max depth (to_be 4 n ++ body) ≡ within max d (4 + len)
  unfolding list_len check_recursion_limit
  list_len-counted rec n max depth d len body hd hn hl loop =
      let open_limit : ltb max depth ≡ false = ground arith in
      rw (open_limit, be_u32-append n body hn, loop) (ground arith)

  pub tuple_len-counted :
      (rec : ℕ → Bytes → Measured) (n max depth d len : ℕ) (body : Bytes)
      → depth ≤ max
      → n < 2 ^ 32
      → len + 4 < 2 ^ 32
      → tuple_loop rec n depth body 0 ≡ within max d (0 + len)
      → tuple_len rec max depth (to_be 4 n ++ body) ≡ within max d (4 + len)
  unfolding tuple_len check_recursion_limit
  tuple_len-counted rec n max depth d len body hd hn hl loop =
      let open_limit : ltb max depth ≡ false = ground arith in
      rw (open_limit, be_u32-append n body hn, loop) (ground arith)

  -- A value whose payload holds no other value.
  pub leaf :
      (id : ValueId) (bs : Bytes) (f max depth len total : ℕ)
      → 0 < f
      → suc len ≡ total
      → total < 2 ^ 32
      → payload_len (value_len_impl (f - 1) max) max depth id bs ≡ ok (depth, len)
      → value_len_impl f max depth (Id.to_u8 id ∷ bs) ≡ within max (depth + 0) total
  leaf id bs f max depth len total pos e small payload =
      measured id bs f max depth 0 len total pos e small (λ h. payload ∙ plain max depth len h)

  pub contract_payload :
      (p : Contract.ContractPrincipal) (rec : ℕ → Bytes → Measured) (max depth : ℕ) (rest : Bytes)
      → Contract.IsValid p
      → payload_len rec max depth ValueId.contract_principal (Contract.encode p ++ rest)
        ≡ ok (depth, length (Contract.encode p))
  unfolding payload_len
  contract_payload p rec max depth rest valid =
      rw (Contract.contract_read_as_bytes-eq, Contract.ContractPrincipal-Codec.decodes p rest valid)
        (ground (arith, length-append (Contract.encode p) rest))

  pub no_items-within :
      (rec : ℕ → Bytes → Measured) (max depth len : ℕ) (rest : Bytes)
      → depth ≤ max
      → list_loop rec 0 depth rest len ≡ within max (depth + 0) (len + 0)
  unfolding list_loop
  no_items-within rec max depth len rest h =
      plain max depth len h ∙ ap (λ (l : ℕ). within max (depth + 0) l) (omega arith)

  pub no_fields-within :
      (rec : ℕ → Bytes → Measured) (max depth len : ℕ) (rest : Bytes)
      → depth ≤ max
      → tuple_loop rec 0 depth rest len ≡ within max (depth + 0) (len + 0)
  unfolding tuple_loop
  no_fields-within rec max depth len rest h =
      plain max depth len h ∙ ap (λ (l : ℕ). within max (depth + 0) l) (omega arith)
