-- ===== src/PostCondition/Condition/Fields.antt =====
-- post_condition.rs: the fields that a parsed condition shows.
use ledger_stacks.PostCondition.Principal.{PostConditionPrincipal, origin, standard, contract}
use ledger_stacks.Base.{
  ◌==◌, ℕ, suc, ◌-◌, ◌^◌, ◌<◌, ◌≡◌, refl, ap, ◌∷◌, ◌++◌, [], length, arith, append_assoc,
  append-nil, length-append, some, le→leb, get_elem?-append, drop-append,
}
use ledger_stacks.Error.{ok, ◌>>=◌}
use ledger_stacks.Slice.{index, slice_from}
use ledger_stacks.Crates.{Crates, Bytes, to_be, length-to_be, be_u64-append}
use ledger_stacks.Common.AssetInfo
use ledger_stacks.Common.AssetInfo.{AssetInfo}
use ledger_stacks.Value.Encoding
use ledger_stacks.Error.{to_option}
use ledger_stacks.PostCondition.Codes.{FungibleConditionCode}
use ledger_stacks.PostCondition.Principal
use ledger_stacks.PostCondition.Principal.{PostConditionPrincipal, origin, standard, contract}
use ledger_stacks.PostCondition.Principal.RoundTrip
use ledger_stacks.PostCondition.Codes.{
  fungible_to_u8, nonfungible_to_u8, fungible_from_u8-to_u8, nonfungible_from_u8-to_u8,
  FungibleConditionCode,
}
use ledger_stacks.PostCondition.Condition.{
  TransactionPostCondition, from_end, tokens_amount, fungible_condition_code,
  non_fungible_condition_code, asset_name, is_origin_principal, inner, is_standard_principal,
  is_contract_principal,
}
use ledger_stacks.PostCondition.Condition.Wire.{
  PostCondition, on_stx, on_fungible, on_nonfungible, condition, encode_inner, IsValid, amount,
  fungible_code, nonfungible_code, name_of_asset, principal,
}

abbrev id_byte : PostConditionPrincipal → ℕ
id_byte origin = 0x01
id_byte (standard _) = 0x02
id_byte (contract _ _) = 0x03

-- The byte that stands `n` before the end.
index-from_end :
    (n b : ℕ) (front back : Bytes)
    → suc (length back) ≡ n
    → index (front ++ b ∷ back) (from_end n (front ++ b ∷ back)) ≡ ok b
index-from_end n b front back e =
    let size = length-append front (b ∷ back) in
    let enough = le→leb n (length (front ++ b ∷ back)) (omega (arith, size)) in
    let place : length (front ++ b ∷ back) - n ≡ length front = omega (arith, size) in
    rw (enough, place, index, get_elem?-append front b back)

-- The last `n` bytes.
slice_from-from_end :
    (n : ℕ) (front back : Bytes)
    → length back ≡ n
    → slice_from (from_end n (front ++ back)) (front ++ back) ≡ ok back
slice_from-from_end n front back e =
    let size = length-append front back in
    let enough = le→leb n (length (front ++ back)) (omega (arith, size)) in
    let place : length front ≡ length (front ++ back) - n = omega (arith, size) in
    rw (
      enough,
      le→leb (length (front ++ back) - n) (length (front ++ back)) (omega arith),
      drop-append _ front back place,
    )

module _ ⦃crates : Crates⦄ where
  -- The fields that a condition shows are those of the post-condition.
  abbrev pub ShowsFields : TransactionPostCondition → PostCondition → Type 0
  ShowsFields c pc =
      (tokens_amount c ≡ ok (amount pc))
      × ((fungible_condition_code c ≡ ok (fungible_code pc))
          × ((non_fungible_condition_code c ≡ ok (nonfungible_code pc))
              × (asset_name c ≡ ok (name_of_asset pc))))

  name_read :
      (p : PostConditionPrincipal) (a : AssetInfo) (tail : Bytes)
      → Principal.IsValid p
      → AssetInfo.IsValid a
      → (do
        (rem, _) ← Principal.from_bytes (Principal.encode p ++ (AssetInfo.encode a ++ tail))
        (_, asset) ← AssetInfo.from_bytes rem
        ok asset.asset_name.bytes)
        ≡ ok a.asset_name.bytes
  name_read p a tail vp va = rw (
    RoundTrip.Principal-Codec.decodes p (AssetInfo.encode a ++ tail) vp,
    AssetInfo.AssetInfo-Codec.decodes a tail va,
  )

  -- A code and an amount that stand last.
  ends :
      (front : Bytes) (c : FungibleConditionCode) (n : ℕ)
      → n < 2 ^ 64
      → (tokens_amount (TransactionPostCondition.stx (front ++ fungible_to_u8 c ∷ to_be 8 n))
          ≡ ok (some n))
        × (fungible_condition_code
              (TransactionPostCondition.stx (front ++ fungible_to_u8 c ∷ to_be 8 n))
            ≡ ok (some c))
  unfolding tokens_amount fungible_condition_code
  ends front c n h =
      let tail = fungible_to_u8 c ∷ [] in
      let split : (front ++ tail) ++ to_be 8 n ≡ front ++ fungible_to_u8 c ∷ to_be 8 n =
        append_assoc front tail (to_be 8 n) in
      let read : crates.be_u64 (to_be 8 n) ≡ ok ([], n) = rw append-nil at (be_u64-append n [] h) in
      (
        rw (← split, slice_from-from_end 8 (front ++ tail) (to_be 8 n) (length-to_be 8 n), read),
        rw (
          index-from_end 9 (fungible_to_u8 c) front (to_be 8 n) (omega (arith, length-to_be 8 n)),
          fungible_from_u8-to_u8 c,
        ),
      )

  -- The amount, the codes and the asset's name that a parsed condition shows are those of the valid
  -- post-condition that it was read from.
  pub fields-encode : (pc : PostCondition) → IsValid pc → ShowsFields (condition pc) pc
  unfolding tokens_amount fungible_condition_code non_fungible_condition_code asset_name
  fields-encode (on_stx p c n) (vp, vn) =
      let (shows_amount, shows_code) = ends (Principal.encode p) c n vn in
      (shows_amount, (shows_code, (refl, refl)))
  fields-encode (on_fungible p a c n) (vp, (va, vn)) =
      let tail = fungible_to_u8 c ∷ to_be 8 n in
      let (shows_amount, shows_code) = ends (Principal.encode p ++ AssetInfo.encode a) c n vn in
      let split = append_assoc (Principal.encode p) (AssetInfo.encode a) tail in
      (
        rw (← split) shows_amount,
        (rw (← split) shows_code, (refl, ap to_option (name_read p a tail vp va))),
      )
  fields-encode (on_nonfungible p a v c) (vp, (va, _)) =
      let front = Principal.encode p ++ (AssetInfo.encode a ++ Encoding.encode v) in
      let last = nonfungible_to_u8 c ∷ [] in
      let split : front ++ last ≡ encode_inner (on_nonfungible p a v c) = simp append_assoc in
      let code = index-from_end 1 (nonfungible_to_u8 c) front [] refl in
      (
        refl,
        (
          refl,
          (rw (← split, code, nonfungible_from_u8-to_u8 c), ap to_option (name_read p a _ vp va)),
        ),
      )

-- The principal's type byte is the first of a condition's bytes.
first_byte : (pc : PostCondition) → index (inner (condition pc)) 0 ≡ ok (id_byte (principal pc))
first_byte (on_stx origin _ _) = refl
first_byte (on_stx (standard _) _ _) = refl
first_byte (on_stx (contract _ _) _ _) = refl
first_byte (on_fungible origin _ _ _) = refl
first_byte (on_fungible (standard _) _ _ _) = refl
first_byte (on_fungible (contract _ _) _ _ _) = refl
first_byte (on_nonfungible origin _ _ _) = refl
first_byte (on_nonfungible (standard _) _ _ _) = refl
first_byte (on_nonfungible (contract _ _) _ _ _) = refl

-- The tests for the origin and for a standard principal answer as the principal is; the test for a
-- contract answers as the one for the origin does.
pub principal_tests-condition :
    (pc : PostCondition)
    → (is_origin_principal (condition pc) ≡ ok (Principal.is_origin (principal pc)))
      × ((is_standard_principal (condition pc) ≡ ok (Principal.is_standard (principal pc)))
          × (is_contract_principal (condition pc) ≡ ok (Principal.is_origin (principal pc))))
unfolding is_origin_principal is_standard_principal is_contract_principal Principal.is_origin
    Principal.is_standard
principal_tests-condition pc = rw (first_byte pc) (by_principal (principal pc))
  where
    by_principal :
        (p : PostConditionPrincipal)
        → (ok (id_byte p == 0x01) ≡ ok (Principal.is_origin p))
          × ((ok (id_byte p == 0x02) ≡ ok (Principal.is_standard p))
              × (ok (id_byte p == 0x01) ≡ ok (Principal.is_origin p)))
    by_principal origin = (refl, (refl, refl))
    by_principal (standard _) = (refl, (refl, refl))
    by_principal (contract _ _) = (refl, (refl, refl))
