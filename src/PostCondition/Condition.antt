-- ===== src/PostCondition/Condition.antt =====
-- post_condition.rs: `TransactionPostCondition`, kept as the bytes behind its type byte.
pub mod Wire
pub mod RoundTrip
pub mod Fields
pub mod Agree
use ledger_stacks.Base.{
  ℕ, ◌+◌, ◌-◌, ◌==◌, Bool, true, false, Option, none, length, if◌then◌else◌, leb, ◌^◌,
}
use ledger_stacks.Error.{Result, ok, ◌>>=◌}
use ledger_stacks.Slice.{index, slice_from}
use ledger_stacks.Crates.{Crates, Bytes, IResult}
use ledger_stacks.Common.Limits.{tx_depth_limit}
use ledger_stacks.Common.AssetInfo
use ledger_stacks.Value.Len.{value_len, add_usize}
use ledger_stacks.Error.{to_option}
use ledger_stacks.PostCondition.Principal
use ledger_stacks.PostCondition.Codes.{
  PostConditionType, FungibleConditionCode, NonfungibleConditionCode, fungible_from_u8,
  nonfungible_from_u8, type_try_from, fungible_token, non_fungible_token,
}

pub data TransactionPostCondition : Type 0 where
  stx fungible nonfungible : Bytes → TransactionPostCondition

abbrev pub inner : TransactionPostCondition → Bytes
inner (stx bs) = bs
inner (fungible bs) = bs
inner (nonfungible bs) = bs

unfoldable pub num_items : TransactionPostCondition → ℕ
num_items (stx _) = 3
num_items (nonfungible _) = 3
num_items (fungible _) = 4

abbrev pub is_stx : TransactionPostCondition → Bool
is_stx (stx _) = true
is_stx _ = false

abbrev pub is_fungible : TransactionPostCondition → Bool
is_fungible (fungible _) = true
is_fungible _ = false

abbrev pub is_non_fungible : TransactionPostCondition → Bool
is_non_fungible (nonfungible _) = true
is_non_fungible _ = false

unfoldable pub is_origin_principal : TransactionPostCondition → Result Bool
is_origin_principal c = do b ← index (inner c) 0; ok (b == Principal.to_u8 Principal.origin_id)

unfoldable pub is_standard_principal : TransactionPostCondition → Result Bool
is_standard_principal c = do b ← index (inner c) 0; ok (b == Principal.to_u8 Principal.standard_id)

-- The source compares with the origin's byte here too.
unfoldable pub is_contract_principal : TransactionPostCondition → Result Bool
is_contract_principal c = do b ← index (inner c) 0; ok (b == Principal.to_u8 Principal.origin_id)

-- `len() - n` on a shorter slice wraps, and what it indexes is out of range.
abbrev pub from_end : ℕ → Bytes → ℕ
from_end n bs = if leb n (length bs) then length bs - n else 2 ^ 32 - n + length bs

unfoldable pub fungible_condition_code :
    TransactionPostCondition → Result (Option FungibleConditionCode)
fungible_condition_code (nonfungible _) = ok none
fungible_condition_code (stx bs) = do code ← index bs (from_end 9 bs); ok (fungible_from_u8 code)
fungible_condition_code (fungible bs) = do
  code ← index bs (from_end 9 bs)
  ok (fungible_from_u8 code)

unfoldable pub non_fungible_condition_code :
    TransactionPostCondition → Result (Option NonfungibleConditionCode)
non_fungible_condition_code (nonfungible bs) = do
  code ← index bs (from_end 1 bs)
  ok (nonfungible_from_u8 code)
non_fungible_condition_code _ = ok none

module _ ⦃crates : Crates⦄ where
  -- The `match` on the type byte; `raw` follows that byte, and `rem` the principal.
  abbrev pub body : PostConditionType → Bytes → Bytes → IResult TransactionPostCondition
  body PostConditionType.stx raw rem = do
    (raw', inner) ← crates.take (length raw - length rem + 1 + 8) raw
    ok (raw', stx inner)
  body fungible_token raw rem = do
    (_, asset) ← AssetInfo.read_as_bytes rem
    (raw', inner) ← crates.take (length raw - length rem + length asset + 1 + 8) raw
    ok (raw', fungible inner)
  body non_fungible_token raw rem = do
    (value, asset) ← AssetInfo.read_as_bytes rem
    len ← value_len tx_depth_limit value
    (raw', inner) ←
        crates.take (add_usize (add_usize (length raw - length rem + length asset) len) 1) raw
    ok (raw', nonfungible inner)

  unfoldable pub from_bytes : Bytes → IResult TransactionPostCondition
  from_bytes bytes = do
    (raw, cond_type) ← crates.le_u8 bytes
    (rem, _) ← Principal.read_as_bytes raw
    t ← type_try_from cond_type
    body t raw rem

  -- The length that the `match` of `read_as_bytes` adds.
  abbrev pub body_len : PostConditionType → Bytes → Result ℕ
  body_len PostConditionType.stx raw = ok 9
  body_len fungible_token raw = do (_, asset) ← AssetInfo.read_as_bytes raw; ok (length asset + 9)
  body_len non_fungible_token raw = do
    (asset_raw, asset) ← AssetInfo.read_as_bytes raw
    len ← value_len tx_depth_limit asset_raw
    ok (add_usize (add_usize (length asset) len) 1)

  unfoldable pub read_as_bytes : Bytes → IResult Bytes
  read_as_bytes bytes = do
    (rem, cond_type) ← crates.le_u8 bytes
    (raw, _) ← Principal.read_as_bytes rem
    t ← type_try_from cond_type
    len ← body_len t raw
    crates.take (add_usize (length bytes - length raw) len) bytes

  -- The amount of a condition on STX or on a fungible token: the last 8 bytes.
  abbrev amount_at_end : Bytes → Result (Option ℕ)
  amount_at_end bs = do
    tail ← slice_from (from_end 8 bs) bs
    to_option (do (_, n) ← crates.be_u64 tail; ok n)

  unfoldable pub tokens_amount : TransactionPostCondition → Result (Option ℕ)
  tokens_amount (nonfungible _) = ok none
  tokens_amount (stx bs) = amount_at_end bs
  tokens_amount (fungible bs) = amount_at_end bs

  unfoldable pub amount_stx : TransactionPostCondition → Result (Option ℕ)
  amount_stx (stx bs) = amount_at_end bs
  amount_stx _ = ok none

  unfoldable pub asset_name : TransactionPostCondition → Result (Option Bytes)
  asset_name (stx _) = ok none
  asset_name c = to_option do
    (rem, _) ← Principal.from_bytes (inner c)
    (_, asset) ← AssetInfo.from_bytes rem
    ok asset.asset_name.bytes
