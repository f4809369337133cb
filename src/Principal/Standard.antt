-- ===== src/Principal/Standard.antt =====
-- principal.rs: `StandardPrincipal`, a version byte and a hash.
use ledger_stacks.Base.{ℕ, ◌+◌, ◌≡◌, refl, length}
use ledger_stacks.Error.{Result, ok, ◌>>=◌}
use ledger_stacks.Slice.{index, slice_from}
use ledger_stacks.Crates.{Crates, Bytes, IResult, Codec, Codec-take, Codec-map}
use ledger_stacks.Common.Limits.{hash160_len}

pub record StandardPrincipal : Type 0 where
  pub bytes : Bytes

abbrev pub bytes_len : ℕ
bytes_len = hash160_len + 1

abbrev pub IsValid : StandardPrincipal → Type 0
IsValid p = length p.bytes ≡ bytes_len

unfoldable pub version : StandardPrincipal → Result ℕ
version p = index p.bytes 0

unfoldable pub raw_address : StandardPrincipal → Result Bytes
raw_address p = slice_from 1 p.bytes

module _ ⦃crates : Crates⦄ where
  pub from_bytes : Bytes → IResult StandardPrincipal
  from_bytes bytes = do
    (raw, address) ← crates.take bytes_len bytes
    ok (raw, record { bytes = address })

  pub StandardPrincipal-Codec : Codec from_bytes (λ p. p.bytes) IsValid
  unfolding from_bytes
  StandardPrincipal-Codec =
      Codec-map (Codec-take bytes_len) (λ bs. record { bytes = bs }) (λ p. p.bytes) (λ _. refl)
        (λ _. refl)
