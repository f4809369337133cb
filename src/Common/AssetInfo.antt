-- ===== src/Common/AssetInfo.antt =====
-- parser_common.rs: `AssetInfo`, an asset that a contract defines, and `AssetInfoId`.
use ledger_stacks.Base.{ℕ, ◌-◌, ◌≡◌, refl, ◌++◌, length, ◌==◌, if◌then◌else◌, ◌↔◌}
use ledger_stacks.Error.{Result, ok, err, ◌>>=◌, >>=-assoc, >>=-ok, parser_unexpected_value}
use ledger_stacks.Crates.{Crates, Bytes, IResult, Codec, Codec-sequence₃, take-consumed, Codec-iff}
use ledger_stacks.Common.ClarityName
use ledger_stacks.Common.ClarityName.{ClarityName}
use ledger_stacks.Common.ContractName
use ledger_stacks.Common.ContractName.{ContractName}
use ledger_stacks.Common.StacksAddress
use ledger_stacks.Common.StacksAddress.{StacksAddress}

pub data AssetInfoId : Type 0 where
  stx fungible_asset nonfungible_asset : AssetInfoId

pub try_from : ℕ → Result AssetInfoId
try_from value =
    if value == 0
    then ok stx
    else if value == 1
    then ok fungible_asset
    else if value == 2
    then ok nonfungible_asset
    else err parser_unexpected_value

pub record AssetInfo : Type 0 where
  pub address : StacksAddress
  pub contract_name : ContractName
  pub asset_name : ClarityName

abbrev pub encode : AssetInfo → Bytes
encode a =
    (a.address.bytes ++ ContractName.encode a.contract_name) ++ ClarityName.encode a.asset_name

abbrev pub IsValid : AssetInfo → Type 0
IsValid a =
    (StacksAddress.IsValid a.address × ContractName.IsValid a.contract_name)
    × ClarityName.Fits a.asset_name

module _ ⦃crates : Crates⦄ where
  pub from_bytes : Bytes → IResult AssetInfo
  from_bytes bytes = do
    address ← StacksAddress.from_bytes bytes
    (raw, contract_name) ← ContractName.from_bytes address.0
    asset_name ← ClarityName.from_bytes raw
    ok (
      asset_name.0,
      record { address = address.1; contract_name = contract_name; asset_name = asset_name.1 },
    )

  pub read_as_bytes : Bytes → IResult Bytes
  read_as_bytes bytes = do
    (raw, _) ← StacksAddress.from_bytes bytes
    (raw1, _) ← ContractName.from_bytes raw
    (raw2, _) ← ClarityName.from_bytes raw1
    (left, inner) ← crates.take (length bytes - length raw2) bytes
    ok (left, inner)

  pub AssetInfo-Codec : Codec from_bytes encode IsValid
  unfolding from_bytes
  AssetInfo-Codec =
      Codec-sequence₃ StacksAddress.StacksAddress-Codec ContractName.ContractName-Codec
        ClarityName.ClarityName-Codec
        (λ a c n. record { address = a; contract_name = c; asset_name = n }) (λ i. i.address)
        (λ i. i.contract_name) (λ i. i.asset_name) (λ _ _ _. refl) (λ _ _ _. refl) (λ _ _ _. refl)
        (λ _. refl)

  -- The parser reads an asset exactly where its encoding stands, with names that fit.
  pub asset_from_bytes_iff :
      (bs rem : Bytes) (a : AssetInfo)
      → (from_bytes bs ≡ ok (rem, a)) ↔ ((encode a ++ rem ≡ bs) × IsValid a)
  asset_from_bytes_iff bs rem a = Codec-iff AssetInfo-Codec bs rem a

  -- The reader takes the bytes of the asset that the parser reads, and fails as the parser does.
  pub asset_read_as_bytes-eq :
      (bs : Bytes) → read_as_bytes bs ≡ (do (rem, a) ← from_bytes bs; ok (rem, encode a))
  unfolding read_as_bytes from_bytes
  asset_read_as_bytes-eq bs =
      let same = take-consumed {p = from_bytes} {enc = encode} {V = IsValid} AssetInfo-Codec bs in
      simp (>>=-assoc, >>=-ok) (simp >>=-assoc at same)
