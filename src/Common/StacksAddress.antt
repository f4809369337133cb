-- ===== src/Common/StacksAddress.antt =====
-- parser_common.rs: `StacksAddress`, a version byte and a hash.
use ledger_stacks.Base.{◌≡◌, refl, length}
use ledger_stacks.Error.{Result, ok, ◌>>=◌}
use ledger_stacks.Slice.{index, slice_from}
use ledger_stacks.Device.{Device}
use ledger_stacks.C32Encoding.{c32_address}
use ledger_stacks.Crates.{
  Crates, Bytes, IResult, Codec, Codec-take, Codec-map, Codec-eq, take-array_ref,
}
use ledger_stacks.Common.Limits.{stacks_addr_len}

pub record StacksAddress : Type 0 where
  pub bytes : Bytes

abbrev pub IsValid : StacksAddress → Type 0
IsValid a = length a.bytes ≡ stacks_addr_len

unfoldable pub encoded_address : ⦃device : Device⦄ → StacksAddress → Result Bytes
encoded_address a = do
  version ← index a.bytes 0
  hash ← slice_from 1 a.bytes
  c32_address version hash

module _ ⦃crates : Crates⦄ where
  pub from_bytes : Bytes → IResult StacksAddress
  from_bytes bytes = do
    (raw, _) ← crates.take stacks_addr_len bytes
    address ← crates.array_ref 0 stacks_addr_len bytes
    ok (raw, record { bytes = address })

  pub from_bytes-eq :
      (bs : Bytes)
      → from_bytes bs
        ≡ (do (raw, x) ← crates.take stacks_addr_len bs; ok (raw, record { bytes = x }))
  unfolding from_bytes
  from_bytes-eq bs = take-array_ref stacks_addr_len bs _

  pub StacksAddress-Codec : Codec from_bytes (λ a. a.bytes) IsValid
  unfolding from_bytes
  StacksAddress-Codec =
      Codec-eq
        (Codec-map (Codec-take stacks_addr_len) (λ bs. record { bytes = bs }) (λ a. a.bytes)
          (λ _. refl) (λ _. refl))
        from_bytes-eq
