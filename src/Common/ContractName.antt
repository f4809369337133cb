-- ===== src/Common/ContractName.antt =====
-- parser_common.rs: `ContractName`, a name of ASCII characters.
use ledger_stacks.Base.{ℕ, ◌≡◌, refl, false, not, length, if◌then◌else◌}
use ledger_stacks.Error.{ok, err, ◌>>=◌, parser_invalid_contract_name}
use ledger_stacks.Slice.{is_ascii}
use ledger_stacks.Crates.{Crates, Bytes, IResult, Codec, Codec-check}
use ledger_stacks.Common.ClarityName
use ledger_stacks.Common.ClarityName.{ClarityName}

pub record ContractName : Type 0 where
  pub inner : ClarityName

abbrev pub name : ContractName → Bytes
name c = c.inner.bytes

abbrev pub len : ContractName → ℕ
len c = length (name c)

abbrev pub encode : ContractName → Bytes
encode c = ClarityName.encode c.inner

abbrev pub IsValid : ContractName → Type 0
IsValid c = ClarityName.Fits c.inner × (not (is_ascii (name c)) ≡ false)

module _ ⦃crates : Crates⦄ where
  unfoldable pub from_bytes : Bytes → IResult ContractName
  from_bytes bytes = do
    (rem, name) ← ClarityName.from_bytes bytes
    if not (is_ascii name.bytes)
        then err parser_invalid_contract_name
        else ok (rem, record { inner = name })

  pub ContractName-Codec : Codec from_bytes encode IsValid
  unfolding from_bytes
  ContractName-Codec =
      Codec-check ClarityName.ClarityName-Codec (λ n. record { inner = n }) (λ c. c.inner)
        (λ _. refl) (λ _. refl) (λ n. not (is_ascii n.bytes)) parser_invalid_contract_name
