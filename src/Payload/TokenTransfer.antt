-- ===== src/Payload/TokenTransfer.antt =====
-- transaction_payload.rs: `StxTokenTransfer`, kept as its bytes.
pub mod RoundTrip
use ledger_stacks.Base.{ℕ, ◌+◌, ◌-◌, ◌^◌, length, leb, ◌==◌, if◌then◌else◌}
use ledger_stacks.Error.{
  Result, ok, err, ◌>>=◌, map_err, parser_invalid_token_transfer_principal, parser_no_data,
  parser_unexpected_buffer_end, ParserError,
}
use ledger_stacks.Slice.{slice, slice_from}
use ledger_stacks.Crates.{Crates, Bytes, IResult}
use ledger_stacks.Principal
use ledger_stacks.Principal.{PrincipalData}

pub data TokenTranferPrincipal : Type 0 where
  standard contract : TokenTranferPrincipal

unfoldable pub principal_from_u8 : ℕ → Result TokenTranferPrincipal
principal_from_u8 v =
    if v == 5
    then ok standard
    else if v == 6
    then ok contract
    else err parser_invalid_token_transfer_principal

pub record StxTokenTransfer : Type 0 where
  pub bytes : Bytes

-- `.get(at..).ok_or(e)`
abbrev pub get_from : ParserError → ℕ → Bytes → Result Bytes
get_from e at bs = if leb at (length bs) then slice_from at bs else err e

-- `len() - n` on fewer bytes wraps, and is out of range.
abbrev pub back_from : ℕ → Bytes → ℕ
back_from n bs = if leb n (length bs) then length bs - n else 2 ^ 32 - n + length bs

-- `apdu_unwrap` never comes back from a failure.
unfoldable pub memo : StxTokenTransfer → Result Bytes
memo t = slice_from (back_from 34 t.bytes) t.bytes

unfoldable pub raw_address : StxTokenTransfer → Result Bytes
raw_address t = slice 2 22 t.bytes

module _ ⦃crates : Crates⦄ where
  abbrev pub principal_from_bytes : TokenTranferPrincipal → Bytes → IResult PrincipalData
  principal_from_bytes standard bytes = Principal.standard_from_bytes bytes
  principal_from_bytes contract bytes = Principal.contract_principal_from_bytes bytes

  unfoldable pub from_bytes : Bytes → IResult StxTokenTransfer
  from_bytes bytes = do
    (rem, id) ← crates.le_u8 bytes
    kind ← principal_from_u8 id
    (raw, _) ← principal_from_bytes kind rem
    (raw', taken) ← crates.take (length bytes - length raw + 34 + 8) bytes
    ok (raw', record { bytes = taken })

  unfoldable pub amount : StxTokenTransfer → Result ℕ
  amount t = do
    bytes ← get_from parser_no_data (back_from (34 + 8) t.bytes) t.bytes
    map_err parser_unexpected_buffer_end (do (_, n) ← crates.be_u64 bytes; ok n)
