-- ===== src/Principal/Data.antt =====
-- principal.rs: `PrincipalData`, one of the two kinds of principal.
use ledger_stacks.Base.{ℕ, Option, none, some}
use ledger_stacks.Error.{Result, ok, ◌>>=◌}
use ledger_stacks.Device.{Device}
use ledger_stacks.C32Encoding.{c32_address}
use ledger_stacks.Crates.{Crates, Bytes, IResult}
use ledger_stacks.Common.ContractName.{ContractName}
use ledger_stacks.Principal.Standard
use ledger_stacks.Principal.Standard.{StandardPrincipal}
use ledger_stacks.Principal.Contract
use ledger_stacks.Principal.Contract.{ContractPrincipal}

pub data PrincipalData : Type 0 where
  standard : StandardPrincipal → PrincipalData
  contract : ContractPrincipal → PrincipalData

unfoldable pub version : PrincipalData → Result ℕ
version (standard p) = Standard.version p
version (contract p) = Contract.version p

unfoldable pub raw_address : PrincipalData → Result Bytes
raw_address (standard p) = Standard.raw_address p
raw_address (contract p) = Contract.raw_address p

unfoldable pub contract_name : PrincipalData → Option ContractName
contract_name (standard _) = none
contract_name (contract p) = some p.name

unfoldable pub encoded_address : ⦃device : Device⦄ → PrincipalData → Result Bytes
unfolding version raw_address
encoded_address p = do v ← version p; address ← raw_address p; c32_address v address

module _ ⦃crates : Crates⦄ where
  unfoldable pub standard_from_bytes : Bytes → IResult PrincipalData
  standard_from_bytes bytes = do (r, p) ← Standard.from_bytes bytes; ok (r, standard p)

  unfoldable pub contract_principal_from_bytes : Bytes → IResult PrincipalData
  contract_principal_from_bytes bytes = do (r, p) ← Contract.from_bytes bytes; ok (r, contract p)
