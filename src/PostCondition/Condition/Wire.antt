-- ===== src/PostCondition/Condition/Wire.antt =====
-- The post-conditions of SIP-005 and their encoding.
use ledger_stacks.Base.{ℕ, ◌^◌, ◌<◌, ◌≤◌, ◌∷◌, ◌++◌, Option, none, some, []}
use ledger_stacks.Crates.{Bytes, to_be}
use ledger_stacks.Common.Limits.{tx_depth_limit}
use ledger_stacks.Common.AssetInfo
use ledger_stacks.Common.AssetInfo.{AssetInfo}
use ledger_stacks.Value.Encoding
use ledger_stacks.Value.Encoding.{Clarity, cost}
use ledger_stacks.PostCondition.Principal
use ledger_stacks.PostCondition.Principal.{PostConditionPrincipal}
use ledger_stacks.PostCondition.Codes.{
  PostConditionType, FungibleConditionCode, NonfungibleConditionCode, fungible_to_u8,
  nonfungible_to_u8, type_to_u8, fungible_token, non_fungible_token,
}
use ledger_stacks.PostCondition.Condition.{TransactionPostCondition}

pub data PostCondition : Type 0 where
  on_stx : PostConditionPrincipal → FungibleConditionCode → ℕ → PostCondition
  on_fungible : PostConditionPrincipal → AssetInfo → FungibleConditionCode → ℕ → PostCondition
  on_nonfungible :
      PostConditionPrincipal → AssetInfo → Clarity → NonfungibleConditionCode → PostCondition

abbrev pub principal : PostCondition → PostConditionPrincipal
principal (on_stx p _ _) = p
principal (on_fungible p _ _ _) = p
principal (on_nonfungible p _ _ _) = p

abbrev pub condition_type : PostCondition → PostConditionType
condition_type (on_stx _ _ _) = PostConditionType.stx
condition_type (on_fungible _ _ _ _) = fungible_token
condition_type (on_nonfungible _ _ _ _) = non_fungible_token

-- What follows the principal.
abbrev pub encode_rest : PostCondition → Bytes
encode_rest (on_stx _ c n) = fungible_to_u8 c ∷ to_be 8 n
encode_rest (on_fungible _ a c n) = AssetInfo.encode a ++ (fungible_to_u8 c ∷ to_be 8 n)
encode_rest (on_nonfungible _ a v c) =
    AssetInfo.encode a ++ (Encoding.encode v ++ (nonfungible_to_u8 c ∷ []))

abbrev pub encode_inner : PostCondition → Bytes
encode_inner pc = Principal.encode (principal pc) ++ encode_rest pc

abbrev pub encode : PostCondition → Bytes
encode pc = type_to_u8 (condition_type pc) ∷ encode_inner pc

-- What the parser keeps of a post-condition.
abbrev pub condition : PostCondition → TransactionPostCondition
condition pc = elim (condition_type pc) [
  | PostConditionType.stx ↦ TransactionPostCondition.stx (encode_inner pc)
  | fungible_token ↦ TransactionPostCondition.fungible (encode_inner pc)
  | non_fungible_token ↦ TransactionPostCondition.nonfungible (encode_inner pc)
]

abbrev pub IsValid : PostCondition → Type 0
IsValid (on_stx p _ n) = Principal.IsValid p × (n < 2 ^ 64)
IsValid (on_fungible p a _ n) = Principal.IsValid p × (AssetInfo.IsValid a × (n < 2 ^ 64))
IsValid (on_nonfungible p a v _) =
    Principal.IsValid p × (AssetInfo.IsValid a × (Encoding.IsValid v × (cost v ≤ tx_depth_limit)))

abbrev pub amount : PostCondition → Option ℕ
amount (on_stx _ _ n) = some n
amount (on_fungible _ _ _ n) = some n
amount (on_nonfungible _ _ _ _) = none

abbrev pub fungible_code : PostCondition → Option FungibleConditionCode
fungible_code (on_stx _ c _) = some c
fungible_code (on_fungible _ _ c _) = some c
fungible_code (on_nonfungible _ _ _ _) = none

abbrev pub nonfungible_code : PostCondition → Option NonfungibleConditionCode
nonfungible_code (on_nonfungible _ _ _ c) = some c
nonfungible_code _ = none

abbrev pub name_of_asset : PostCondition → Option Bytes
name_of_asset (on_stx _ _ _) = none
name_of_asset (on_fungible _ a _ _) = some a.asset_name.bytes
name_of_asset (on_nonfungible _ a _ _) = some a.asset_name.bytes
