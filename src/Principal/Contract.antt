-- ===== src/Principal/Contract.antt =====
-- principal.rs: `ContractPrincipal`, a standard principal and a contract name.
use ledger_stacks.Base.{ℕ, ◌-◌, ◌≡◌, refl, ◌++◌, length, ◌↔◌}
use ledger_stacks.Error.{Result, ok, ◌>>=◌, >>=-ok, Returns, Returns->>=}
use ledger_stacks.Crates.{Crates, Bytes, IResult, Codec, Codec-sequence, take-consumed, Codec-iff}
use ledger_stacks.Common.ContractName
use ledger_stacks.Common.ContractName.{ContractName}
use ledger_stacks.Principal.Standard
use ledger_stacks.Principal.Standard.{StandardPrincipal}

pub record ContractPrincipal : Type 0 where
  pub address : StandardPrincipal
  pub name : ContractName

abbrev pub encode : ContractPrincipal → Bytes
encode p = p.address.bytes ++ ContractName.encode p.name

abbrev pub IsValid : ContractPrincipal → Type 0
IsValid p = Standard.IsValid p.address × ContractName.IsValid p.name

unfoldable pub version : ContractPrincipal → Result ℕ
version p = Standard.version p.address

unfoldable pub raw_address : ContractPrincipal → Result Bytes
raw_address p = Standard.raw_address p.address

module _ ⦃crates : Crates⦄ where
  pub from_bytes : Bytes → IResult ContractPrincipal
  from_bytes bytes = do
    (rem, address) ← Standard.from_bytes bytes
    (rem', name) ← ContractName.from_bytes rem
    ok (rem', record { address = address; name = name })

  pub read_as_bytes : Bytes → IResult Bytes
  read_as_bytes bytes = do
    (rem, _) ← from_bytes bytes
    (rem', self_bytes) ← crates.take (length bytes - length rem) bytes
    ok (rem', self_bytes)

  pub ContractPrincipal-Codec : Codec from_bytes encode IsValid
  unfolding from_bytes
  ContractPrincipal-Codec =
      Codec-sequence Standard.StandardPrincipal-Codec ContractName.ContractName-Codec
        (λ a n. record { address = a; name = n }) (λ p. p.address) (λ p. p.name) (λ _ _. refl)
        (λ _ _. refl) (λ _. refl)

  -- The parser reads a principal exactly where its encoding stands, with an ASCII name that fits.
  pub contract_from_bytes_iff :
      (bs rem : Bytes) (p : ContractPrincipal)
      → (from_bytes bs ≡ ok (rem, p)) ↔ ((encode p ++ rem ≡ bs) × IsValid p)
  contract_from_bytes_iff bs rem p = Codec-iff ContractPrincipal-Codec bs rem p

  -- The reader takes the bytes of the principal that the parser reads, and fails as the parser
  -- does.
  pub contract_read_as_bytes-eq :
      (bs : Bytes) → read_as_bytes bs ≡ (do (rem, p) ← from_bytes bs; ok (rem, encode p))
  unfolding read_as_bytes
  contract_read_as_bytes-eq bs = simp >>=-ok (take-consumed ContractPrincipal-Codec bs)

  pub Returns-read_as_bytes : (bs : Bytes) → Returns (read_as_bytes bs)
  Returns-read_as_bytes bs =
      rw contract_read_as_bytes-eq
        (Returns->>= (from_bytes bs) _ (ContractPrincipal-Codec.returns bs) λ _ _. tt)
