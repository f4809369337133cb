-- ===== src/PostCondition/Condition/RoundTrip.antt =====
-- post_condition.rs: `TransactionPostCondition::from_bytes` and `read_as_bytes` on the wire format.
use ledger_stacks.Base.{
  ℕ, ◌+◌, ◌-◌, ◌^◌, ◌<◌, ◌≤◌, ◌≡◌, refl, ap, ◌∷◌, ◌++◌, [], length, arith, append_assoc,
  length-append, le→leb, sym,
}
use ledger_stacks.Error.{ok}
use ledger_stacks.Crates.{Crates, Bytes, le_u8-cons, take-append_ok, to_be, length-to_be}
use ledger_stacks.Common.Limits.{tx_depth_limit}
use ledger_stacks.Common.AssetInfo
use ledger_stacks.Common.AssetInfo.{AssetInfo}
use ledger_stacks.Value.Len.{add_usize}
use ledger_stacks.Value.Encoding
use ledger_stacks.Value.Encoding.{Clarity, cost}
use ledger_stacks.Value.Len.Exact.{value_len-encode}
use ledger_stacks.PostCondition.Principal
use ledger_stacks.PostCondition.Principal.{PostConditionPrincipal}
use ledger_stacks.PostCondition.Principal.RoundTrip
use ledger_stacks.PostCondition.Codes.{
  PostConditionType, type_to_u8, type_try_from-to_u8, fungible_to_u8, nonfungible_to_u8,
  fungible_token, non_fungible_token,
}
use ledger_stacks.PostCondition.Condition.{TransactionPostCondition, body, from_bytes, inner}
use ledger_stacks.PostCondition.Condition.Wire.{
  PostCondition, on_stx, on_fungible, on_nonfungible, encode, encode_inner, encode_rest, condition,
  IsValid,
}

module _ ⦃crates : Crates⦄ where
  after_principal :
      (t : PostConditionType) (p : PostConditionPrincipal) (raw rem : Bytes)
      → Principal.IsValid p
      → Principal.encode p ++ rem ≡ raw
      → from_bytes (type_to_u8 t ∷ raw) ≡ body t raw rem
  unfolding from_bytes
  after_principal t p raw rem v e = rw (
    le_u8-cons,
    ← e,
    RoundTrip.principal_read_as_bytes-eq,
    RoundTrip.Principal-Codec.decodes p rem v,
    type_try_from-to_u8 t,
  )

  read_asset :
      (a : AssetInfo) (rest : Bytes)
      → AssetInfo.IsValid a
      → AssetInfo.read_as_bytes (AssetInfo.encode a ++ rest) ≡ ok (rest, AssetInfo.encode a)
  read_asset a rest v =
      rw (AssetInfo.asset_read_as_bytes-eq, AssetInfo.AssetInfo-Codec.decodes a rest v)

  take_inner :
      (n : ℕ) (inner rest raw : Bytes)
      → inner ++ rest ≡ raw
      → length inner ≡ n
      → crates.take n raw ≡ ok (rest, inner)
  take_inner n inner rest raw e size = rw (← e) (take-append_ok n inner rest size)

  -- The three bodies on a principal's encoding `p` and what follows it.
  module _ (p raw rest : Bytes) where
    stx_body :
        (tail : Bytes)
        → (p ++ tail) ++ rest ≡ raw
        → length tail ≡ 9
        → body PostConditionType.stx raw (tail ++ rest)
          ≡ ok (rest, TransactionPostCondition.stx (p ++ tail))
    stx_body tail e size =
        let n = length raw - length (tail ++ rest) + 1 + 8 in
        let fits : length (p ++ tail) ≡ n = omega (
          arith,
          ap length e,
          length-append (p ++ tail) rest,
          length-append p tail,
          length-append tail rest,
          size,
        ) in
        rw (take_inner n (p ++ tail) rest raw e fits)

    fungible_body :
        (a : AssetInfo) (tail : Bytes)
        → AssetInfo.IsValid a
        → (p ++ (AssetInfo.encode a ++ tail)) ++ rest ≡ raw
        → length tail ≡ 9
        → body fungible_token raw ((AssetInfo.encode a ++ tail) ++ rest)
          ≡ ok (rest, TransactionPostCondition.fungible (p ++ (AssetInfo.encode a ++ tail)))
    fungible_body a tail va e size =
        let asset = read_asset a (tail ++ rest) va in
        let body = AssetInfo.encode a ++ tail in
        let n =
          length raw
          - length (AssetInfo.encode a ++ (tail ++ rest))
          + length (AssetInfo.encode a)
          + 1
          + 8 in
        let fits : length (p ++ body) ≡ n = omega (
          arith,
          ap length e,
          length-append (p ++ body) rest,
          length-append p body,
          length-append (AssetInfo.encode a) tail,
          length-append (AssetInfo.encode a) (tail ++ rest),
          length-append tail rest,
          size,
        ) in
        rw (
          append_assoc (AssetInfo.encode a) tail rest,
          asset,
          take_inner n (p ++ body) rest raw e fits,
        )

    nonfungible_body :
        (a : AssetInfo) (v : Clarity) (code : ℕ)
        → AssetInfo.IsValid a
        → Encoding.IsValid v × (cost v ≤ tx_depth_limit)
        → (p ++ (AssetInfo.encode a ++ (Encoding.encode v ++ (code ∷ [])))) ++ rest ≡ raw
        → length (p ++ (AssetInfo.encode a ++ (Encoding.encode v ++ (code ∷ [])))) < 2 ^ 32
        → body non_fungible_token raw
            ((AssetInfo.encode a ++ (Encoding.encode v ++ (code ∷ []))) ++ rest)
          ≡ ok (
            rest,
            TransactionPostCondition.nonfungible
                (p ++ (AssetInfo.encode a ++ (Encoding.encode v ++ (code ∷ [])))),
          )
    nonfungible_body a v code va (vv, vc) e small =
        let asset = AssetInfo.encode a in
        let value = Encoding.encode v in
        let after = (code ∷ []) ++ rest in
        let body = asset ++ (value ++ (code ∷ [])) in
        let split = length-append asset (value ++ (code ∷ [])) in
        let split_value = length-append value (code ∷ []) in
        let split_tail = length-append p body in
        let fits : length (p ++ body)
            ≡ add_usize
                (add_usize (length raw - length (asset ++ (value ++ after)) + length asset)
                  (length value))
                1 =
          omega (
            arith,
            small,
            ap length e,
            length-append (p ++ body) rest,
            split_tail,
            split,
            split_value,
            length-append asset (value ++ after),
            length-append value after,
          ) in
        rw (
          append_assoc asset (value ++ (code ∷ [])) rest,
          append_assoc value (code ∷ []) rest,
          read_asset a (value ++ after) va,
          value_len-encode tx_depth_limit v after (omega arith) vv
              (omega (arith, small, split_tail, split, split_value)),
          le→leb (cost v) tx_depth_limit vc,
          take_inner _ (p ++ body) rest raw e fits,
        )

  -- A valid post-condition of less than 2^32 bytes is read off the front of any input as the bytes
  -- behind its type byte.
  pub condition-from_bytes-encode :
      (pc : PostCondition) (rest : Bytes)
      → IsValid pc
      → length (encode pc) < 2 ^ 32
      → from_bytes (encode pc ++ rest) ≡ ok (rest, condition pc)
  condition-from_bytes-encode (on_stx p c n) rest (vp, vn) small =
      let tail = encode_rest (on_stx p c n) in
      rw
        (after_principal PostConditionType.stx p (encode_inner (on_stx p c n) ++ rest)
          (tail ++ rest) vp (sym (append_assoc (Principal.encode p) tail rest)))
        (stx_body (Principal.encode p) _ rest tail refl (omega (arith, length-to_be 8 n)))
  condition-from_bytes-encode (on_fungible p a c n) rest (vp, (va, vn)) small =
      let tail = fungible_to_u8 c ∷ to_be 8 n in
      rw
        (after_principal fungible_token p (encode_inner (on_fungible p a c n) ++ rest)
          ((AssetInfo.encode a ++ tail) ++ rest) vp
          (sym (append_assoc (Principal.encode p) (AssetInfo.encode a ++ tail) rest)))
        (fungible_body (Principal.encode p) _ rest a tail va refl (omega (arith, length-to_be 8 n)))
  condition-from_bytes-encode (on_nonfungible p a v c) rest (vp, (va, (vv, vc))) small =
      rw
        (after_principal non_fungible_token p (encode_inner (on_nonfungible p a v c) ++ rest)
          (encode_rest (on_nonfungible p a v c) ++ rest) vp
          (sym (append_assoc (Principal.encode p) (encode_rest (on_nonfungible p a v c)) rest)))
        (nonfungible_body (Principal.encode p) _ rest a v (nonfungible_to_u8 c) va (vv, vc) refl
          (omega arith))
