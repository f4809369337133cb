-- ===== src/Value/Len/Exact.antt =====
-- On every encoded value the parser finds its length, or stops when the counter passes the limit.
use ledger_stacks.Base.{
  ℕ, suc, ◌+◌, ◌-◌, ◌^◌, ◌≤◌, ◌<◌, ◌≡◌, refl, ap, ◌∙◌, ◌∷◌, ◌++◌, append_assoc, length,
  length-append, leb, arith, if◌then◌else◌,
}
use ledger_stacks.Error.{ok, err, ◌>>=◌, parser_recursion_limit}
use ledger_stacks.Crates.{Crates, Bytes, be_u32-append, to_be}
use ledger_stacks.Common.ClarityName
use ledger_stacks.Principal.Contract
use ledger_stacks.Value.Id.{ValueId}
use ledger_stacks.Value.Len.{
  add_usize, list_loop, tuple_loop, payload_len, value_len_impl, value_len,
}
use ledger_stacks.Value.Len.Measure.{within, measured, list_loop-item, tuple_loop-field}
use ledger_stacks.Value.Encoding.{
  Clarity, Items, Fields, encode, encode_items, encode_fields, count_items, count_fields, counted,
  cost, cost_items, cost_fields, list_step, tuple_step, IsValid, AreItems, AreFields, no_items,
  item, no_fields, field, int, uint, buffer, string_ascii, string_utf8, bool_true, bool_false, none,
  standard_principal, contract_principal, response_ok, response_err, some, list, tuple,
}
use ledger_stacks.Value.Len.Payloads.{
  count_items-le, count_fields-le, join, within-eq, string_len-counted, nested_len-encode,
  list_len-counted, tuple_len-counted, leaf, contract_payload, no_items-within, no_fields-within,
}

module _ ⦃crates : Crates⦄ where
  mutual
    unfolding payload_len

    pub value_len_impl-encode :
        (v : Clarity) (f max depth : ℕ) (rest : Bytes)
        → length (encode v) < f
        → length (encode v) < 2 ^ 32
        → max < 255
        → IsValid v
        → value_len_impl f max depth (encode v ++ rest)
          ≡ within max (depth + cost v) (length (encode v))
    value_len_impl-encode bool_true f max depth rest hf hl hm valid =
        leaf ValueId.bool_true rest f max depth 0 _ (omega arith) (omega arith) hl refl
    value_len_impl-encode bool_false f max depth rest hf hl hm valid =
        leaf ValueId.bool_false rest f max depth 0 _ (omega arith) (omega arith) hl refl
    value_len_impl-encode none f max depth rest hf hl hm valid =
        leaf ValueId.optional_none rest f max depth 0 _ (omega arith) (omega arith) hl refl
    value_len_impl-encode (int n) f max depth rest hf hl hm valid =
        leaf ValueId.int (to_be 16 n ++ rest) f max depth 16 _ (omega arith) (omega arith) hl refl
    value_len_impl-encode (uint n) f max depth rest hf hl hm valid =
        leaf ValueId.uint (to_be 16 n ++ rest) f max depth 16 _ (omega arith) (omega arith) hl refl
    value_len_impl-encode (standard_principal p) f max depth rest hf hl hm valid =
        leaf ValueId.standard_principal (p.bytes ++ rest) f max depth (length p.bytes) _
          (omega arith) (omega arith) hl (rw valid)
    value_len_impl-encode (contract_principal p) f max depth rest hf hl hm valid =
        leaf ValueId.contract_principal (Contract.encode p ++ rest) f max depth
          (length (Contract.encode p)) _ (omega arith) (omega arith) hl
          (contract_payload p (value_len_impl (f - 1) max) max depth rest valid)
    value_len_impl-encode (buffer bs) f max depth rest hf hl hm valid =
        leaf ValueId.buffer (counted bs ++ rest) f max depth (4 + length bs) _ (omega arith)
          (omega arith) hl
          (rw (be_u32-append (length bs) (bs ++ rest) (omega arith)) (ground arith))
    value_len_impl-encode (string_ascii bs) f max depth rest hf hl hm valid =
        leaf ValueId.string_ascii (counted bs ++ rest) f max depth (4 + length bs) _ (omega arith)
          (omega arith) hl
          (rw (string_len-counted ValueId.string_ascii bs rest (omega arith) (λ h. valid)))
    value_len_impl-encode (string_utf8 bs) f max depth rest hf hl hm valid =
        leaf ValueId.string_utf8 (counted bs ++ rest) f max depth (4 + length bs) _ (omega arith)
          (omega arith) hl
          (rw (string_len-counted ValueId.string_utf8 bs rest (omega arith) (λ h. cc)))
    value_len_impl-encode (some v) f max depth rest hf hl hm valid =
        measured ValueId.optional_some (encode v ++ rest) f max depth (suc (cost v))
          (length (encode v)) _ (omega arith) refl hl
          (λ h.
            nested_len-encode v _ depth rest (omega arith)
            ∙ value_len_impl-encode v (f - 1) max (suc depth) rest (omega arith) (omega arith) hm
                valid
            ∙ ap (λ (d : ℕ). within max d (length (encode v))) (omega arith))
    value_len_impl-encode (response_ok v) f max depth rest hf hl hm valid =
        measured ValueId.response_ok (encode v ++ rest) f max depth (suc (cost v))
          (length (encode v)) _ (omega arith) refl hl
          (λ h.
            nested_len-encode v _ depth rest (omega arith)
            ∙ value_len_impl-encode v (f - 1) max (suc depth) rest (omega arith) (omega arith) hm
                valid
            ∙ ap (λ (d : ℕ). within max d (length (encode v))) (omega arith))
    value_len_impl-encode (response_err v) f max depth rest hf hl hm valid =
        measured ValueId.response_err (encode v ++ rest) f max depth (suc (cost v))
          (length (encode v)) _ (omega arith) refl hl
          (λ h.
            nested_len-encode v _ depth rest (omega arith)
            ∙ value_len_impl-encode v (f - 1) max (suc depth) rest (omega arith) (omega arith) hm
                valid
            ∙ ap (λ (d : ℕ). within max d (length (encode v))) (omega arith))
    value_len_impl-encode (list xs) f max depth rest hf hl hm valid =
        measured ValueId.list (to_be 4 (count_items xs) ++ (encode_items xs ++ rest)) f max depth
          (cost_items xs) (4 + length (encode_items xs)) _ (omega arith) (omega arith) hl
          (λ h.
            list_len-counted _ (count_items xs) max depth (depth + cost_items xs)
              (length (encode_items xs)) (encode_items xs ++ rest) h
              (omega (arith, count_items-le xs)) (omega arith)
              (list_loop-encode xs (f - 1) max depth 0 rest (omega arith) (omega arith) hm h valid))
    value_len_impl-encode (tuple xs) f max depth rest hf hl hm valid =
        measured ValueId.tuple (to_be 4 (count_fields xs) ++ (encode_fields xs ++ rest)) f max depth
          (cost_fields xs) (4 + length (encode_fields xs)) _ (omega arith) (omega arith) hl
          (λ h.
            tuple_len-counted _ (count_fields xs) max depth (depth + cost_fields xs)
              (length (encode_fields xs)) (encode_fields xs ++ rest) h
              (omega (arith, count_fields-le xs)) (omega arith)
              (tuple_loop-encode xs (f - 1) max depth 0 rest (omega arith) (omega arith) hm h
                valid))

    list_loop-encode :
        (xs : Items) (f max depth len : ℕ) (rest : Bytes)
        → length (encode_items xs) < f
        → len + length (encode_items xs) < 2 ^ 32
        → max < 255
        → depth ≤ max
        → AreItems xs
        → list_loop (value_len_impl f max) (count_items xs) depth (encode_items xs ++ rest) len
          ≡ within max (depth + cost_items xs) (len + length (encode_items xs))
    list_loop-encode no_items f max depth len rest hf hl hm hd valid =
        no_items-within _ max depth len rest hd
    list_loop-encode (item v xs) f max depth len rest hf hl hm hd (valid, valids) =
        let sizes = length-append (encode v) (encode_items xs) in
        let d : ℕ = depth + list_step v + cost v in
        rw (append_assoc (encode v) (encode_items xs) rest) (
          list_loop-item (value_len_impl f max) v (encode_items xs ++ rest) (count_items xs) max
            depth d len (omega arith)
            (value_len_impl-encode v f max (depth + list_step v) (encode_items xs ++ rest)
              (omega (arith, sizes)) (omega (arith, sizes)) hm valid)
          ∙ join max d (d + cost_items xs) _ _
              (λ h.
                list_loop-encode xs f max d (add_usize len (length (encode v))) rest
                  (omega (arith, sizes)) (omega (arith, sizes)) hm h valids)
              (omega arith)
          ∙ within-eq max (omega arith) (omega (arith, sizes)))

    tuple_loop-encode :
        (fs : Fields) (f max depth len : ℕ) (rest : Bytes)
        → length (encode_fields fs) < f
        → len + length (encode_fields fs) < 2 ^ 32
        → max < 255
        → depth ≤ max
        → AreFields fs
        → tuple_loop (value_len_impl f max) (count_fields fs) depth (encode_fields fs ++ rest) len
          ≡ within max (depth + cost_fields fs) (len + length (encode_fields fs))
    tuple_loop-encode no_fields f max depth len rest hf hl hm hd valid =
        no_fields-within _ max depth len rest hd
    tuple_loop-encode (field k v fs) f max depth len rest hf hl hm hd (fits, (valid, valids)) =
        let tail = encode v ++ encode_fields fs in
        let sizes = length-append (encode v) (encode_fields fs) in
        let sizes' = length-append k.bytes tail in
        let d : ℕ = depth + tuple_step v + cost v in
        rw (append_assoc k.bytes tail rest, append_assoc (encode v) (encode_fields fs) rest)
          (tuple_loop-field (value_len_impl f max) k v (encode_fields fs ++ rest) (count_fields fs)
              max depth d len (omega arith) fits (omega (arith, sizes, sizes'))
              (value_len_impl-encode v f max (depth + tuple_step v) (encode_fields fs ++ rest)
                (omega (arith, sizes, sizes')) (omega (arith, sizes, sizes')) hm valid)
            ∙ join max d (d + cost_fields fs) _ _
                (λ h.
                  tuple_loop-encode fs f max d
                    (add_usize len (add_usize (length (ClarityName.encode k)) (length (encode v))))
                    rest (omega (arith, sizes, sizes')) (omega (arith, sizes, sizes')) hm h valids)
                (omega arith)
            ∙ within-eq max (omega arith) (omega (arith, sizes, sizes')))

  value_len-cons :
      (max b : ℕ) (bs : Bytes)
      → value_len max (b ∷ bs)
        ≡ (do (_, len) ← value_len_impl (suc (length (b ∷ bs))) max 0 (b ∷ bs); ok len)
  unfolding value_len
  value_len-cons max b bs = refl

  value_len-run :
      (max : ℕ) (v : Clarity) (rest : Bytes)
      → value_len max (encode v ++ rest) ≡ (do
        (_, len) ← value_len_impl (suc (length (encode v ++ rest))) max 0 (encode v ++ rest)
        ok len)
  value_len-run max (int n) rest = value_len-cons max 0 (to_be 16 n ++ rest)
  value_len-run max _ rest = value_len-cons max _ _

  -- For a limit below 255, the length of a valid value whose encoding has less than 2^32 bytes is
  -- found, whatever follows the value, exactly when its counter stays within the limit. Otherwise
  -- the answer is the recursion limit's error.
  pub value_len-encode :
      (max : ℕ) (v : Clarity) (rest : Bytes)
      → max < 255
      → IsValid v
      → length (encode v) < 2 ^ 32
      → value_len max (encode v ++ rest)
        ≡ (if leb (cost v) max then ok (length (encode v)) else err parser_recursion_limit)
  value_len-encode max v rest hm valid hl =
      let run =
        value_len_impl-encode v (suc (length (encode v ++ rest))) max 0 rest
          (omega (arith, length-append (encode v) rest)) hl hm valid in
      rw (value_len-run, run) (ground arith)
