-- ===== src/StructuredMsg.antt =====
-- app/rust/src/parser/structured_msg.rs: a structured message to sign, SIP-018: a prefix, the domain
-- that it is for, and a Clarity value.
pub mod Domain
pub mod Hash
pub mod Fuel
use ledger_stacks.Base
use ledger_stacks.Base.{
  ℕ, ◌+◌, ◌*◌, ◌==◌, [], ◌∷◌, ◌++◌, length, drop, ltb, leb, Bool, true, false, if◌then◌else◌, codes,
  Option, none, some,
}
use ledger_stacks.Error.{
  Result, ok, err, panic, unwrap, ok_or, to_option, ◌>>=◌, parser_unexpected_buffer_end,
  parser_unexpected_value, parser_unexpected_number_items,
}
use ledger_stacks.Slice.{slice_from}
use ledger_stacks.Crates.{Crates, Bytes}
use ledger_stacks.Device.{Device, sha256, sha256_len}
use ledger_stacks.Format.Item.{Shown, write_key, show_value}
use ledger_stacks.Common.Limits.{max_depth}
use ledger_stacks.Value.Parse
use ledger_stacks.StructuredMsg.Domain

pub record StructuredMsg : Type 0 where
  pub bytes : Bytes

abbrev pub prefix : Bytes
prefix = codes "SIP018"

abbrev pub prefix_len : ℕ
prefix_len = 6

module _ ⦃crates : Crates⦄ where
  unfoldable pub parse_prefix : Bytes → Result Bytes
  parse_prefix bytes = do (rem, _) ← crates.tag prefix bytes; ok rem

  -- `is_ok()`
  unfoldable pub has_prefix : Bytes → Result Bool
  has_prefix bytes = do
    found ← to_option (parse_prefix bytes)
    elim found [ none ↦ ok false | some _ ↦ ok true ]

  unfoldable pub is_msg : Bytes → Result Bool
  is_msg bytes = has_prefix bytes

  -- The message is one value, with nothing behind it.
  unfoldable pub validate : Bytes → Result (Unit {0})
  validate bytes = do
    (rem, _) ← Parse.from_bytes max_depth bytes
    if length rem == 0 then ok tt else err parser_unexpected_value

  unfoldable pub verify : Bytes → Result (Unit {0})
  verify input = do rem ← parse_prefix input; (msg, _) ← Domain.from_bytes rem; validate msg

  unfoldable pub from_bytes : Bytes → Result StructuredMsg
  from_bytes input = do _ ← verify input; ok (record { bytes = input })

  -- The message after the call.
  unfoldable pub read : StructuredMsg → Bytes → Result StructuredMsg
  read m input = do _ ← verify input; ok (record m { bytes = input })

  unfoldable pub msg : StructuredMsg → Result Bytes
  msg m = do
    rest ← slice_from prefix_len m.bytes
    (msg, _) ← unwrap (Domain.from_bytes rest)
    ok msg

  unfoldable pub domain : StructuredMsg → Result Domain.Domain
  domain m = do rest ← slice_from prefix_len m.bytes; (_, d) ← unwrap (Domain.from_bytes rest); ok d

  unfoldable pub num_items : StructuredMsg → Result ℕ
  num_items m = do d ← domain m; ok (Domain.num_items d + 1)

module _ ⦃crates : Crates⦄ ⦃device : Device⦄ where
  -- The buffer after the call.
  unfoldable pub get_hash : StructuredMsg → Bytes → Result Bytes
  get_hash m out = if ltb (length out) sha256_len then err parser_unexpected_buffer_end else do
    d ← domain m
    content ← msg m
    let to_hash = prefix ++ (sha256 (Domain.bytes d) ++ sha256 content)
    ok (sha256 to_hash ++ drop sha256_len out)

  unfoldable pub get_item : StructuredMsg → ℕ → Bytes → Bytes → ℕ → Result Shown
  get_item m display_idx out_key out_value page_idx =
      if leb display_idx 2
      then (do d ← domain m; Domain.get_item d display_idx out_key out_value page_idx)
      else if display_idx == 3
      then (do
        key ← write_key out_key (codes "Message Hash")
        hash ← unwrap (get_hash m (Base.replicate sha256_len 0))
        hex ← ok_or parser_unexpected_buffer_end (device.encode_to_slice hash (2 * sha256_len))
        show_value key out_value hex page_idx)
      else err parser_unexpected_number_items
