-- ===== src/PostCondition/Principal.antt =====
-- post_condition.rs: `PostConditionPrincipal`, whose transfers a condition is about.
pub mod RoundTrip
use ledger_stacks.Base.{
  ℕ, ◌+◌, ◌==◌, ◌∷◌, ◌++◌, [], Bool, true, false, Option, none, some, if◌then◌else◌,
}
use ledger_stacks.Error.{Result, ok, err, ◌>>=◌, parser_unexpected_value}
use ledger_stacks.Crates.{Crates, Bytes, IResult}
use ledger_stacks.Common.Limits.{hash160_len}
use ledger_stacks.Common.StacksAddress
use ledger_stacks.Common.StacksAddress.{StacksAddress}
use ledger_stacks.Common.ContractName
use ledger_stacks.Common.ContractName.{ContractName}

pub data PostConditionPrincipalId : Type 0 where
  origin_id standard_id contract_id : PostConditionPrincipalId

abbrev pub to_u8 : PostConditionPrincipalId → ℕ
to_u8 origin_id = 0x01
to_u8 standard_id = 0x02
to_u8 contract_id = 0x03

unfoldable pub try_from : ℕ → Result PostConditionPrincipalId
try_from value =
    if value == 1
    then ok origin_id
    else if value == 2
    then ok standard_id
    else if value == 3
    then ok contract_id
    else err parser_unexpected_value

pub data PostConditionPrincipal : Type 0 where
  origin : PostConditionPrincipal
  standard : StacksAddress → PostConditionPrincipal
  contract : StacksAddress → ContractName → PostConditionPrincipal

unfoldable pub is_origin : PostConditionPrincipal → Bool
is_origin origin = true
is_origin _ = false

unfoldable pub is_standard : PostConditionPrincipal → Bool
is_standard (standard _) = true
is_standard _ = false

unfoldable pub is_contract : PostConditionPrincipal → Bool
is_contract (contract _ _) = true
is_contract _ = false

unfoldable pub get_contract_name : PostConditionPrincipal → Option Bytes
get_contract_name (contract _ n) = some (ContractName.name n)
get_contract_name _ = none

abbrev pub encode : PostConditionPrincipal → Bytes
encode origin = 0x01 ∷ []
encode (standard a) = 0x02 ∷ a.bytes
encode (contract a n) = 0x03 ∷ a.bytes ++ ContractName.encode n

abbrev pub IsValid : PostConditionPrincipal → Type 0
IsValid origin = Unit
IsValid (standard a) = StacksAddress.IsValid a
IsValid (contract a n) = StacksAddress.IsValid a × ContractName.IsValid n

-- What `read_as_bytes` returns of a principal: of the origin, nothing.
abbrev pub read_bytes_of : PostConditionPrincipal → Bytes
read_bytes_of origin = []
read_bytes_of p = encode p

module _ ⦃crates : Crates⦄ where
  -- The `match` of `from_bytes`, on what follows the type byte.
  abbrev pub payload : PostConditionPrincipalId → Bytes → IResult PostConditionPrincipal
  payload origin_id rem = ok (rem, origin)
  payload standard_id rem = do (rem', a) ← StacksAddress.from_bytes rem; ok (rem', standard a)
  payload contract_id rem = do
    (rem', a) ← StacksAddress.from_bytes rem
    (rem'', n) ← ContractName.from_bytes rem'
    ok (rem'', contract a n)

  unfoldable pub from_bytes : Bytes → IResult PostConditionPrincipal
  from_bytes bytes = do
    (rem, id) ← crates.le_u8 bytes
    principal_id ← try_from id
    payload principal_id rem

  -- The `match` of `read_as_bytes`.
  abbrev pub payload_bytes : PostConditionPrincipalId → Bytes → Bytes → IResult Bytes
  payload_bytes origin_id rem bytes = ok (rem, [])
  payload_bytes standard_id rem bytes = do
    (raw, addr) ← crates.take (hash160_len + 2) bytes
    ok (raw, addr)
  payload_bytes contract_id rem bytes = do
    (rem', _) ← StacksAddress.from_bytes rem
    (_, name) ← ContractName.from_bytes rem'
    (rem'', contract_bytes) ← crates.take (hash160_len + ContractName.len name + 3) bytes
    ok (rem'', contract_bytes)

  unfoldable pub read_as_bytes : Bytes → IResult Bytes
  read_as_bytes bytes = do
    (rem, id) ← crates.le_u8 bytes
    principal_id ← try_from id
    payload_bytes principal_id rem bytes
