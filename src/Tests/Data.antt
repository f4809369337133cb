-- ===== src/Tests/Data.antt =====
-- The inputs of the tests.
use ledger_stacks.Auth
use ledger_stacks.Auth.{standard}
use ledger_stacks.Base.{bytes_eq}
use ledger_stacks.Common.HashMode.{origin}
use ledger_stacks.Error.{ok}
use ledger_stacks.Spending.Condition
use ledger_stacks.Spending.Condition.{TransactionSpendingCondition, singlesig}
use ledger_stacks.Spending.Signer
use ledger_stacks.Slice.{is_ascii}
use ledger_stacks.Common.ContractName
use ledger_stacks.Base.{not, false, ◌≡◌, refl, List, [], ◌∷◌, replicate}
use ledger_stacks.Crates.{Crates, crates_model, Iterator, iterator_model, Bytes}
use ledger_stacks.Common.ClarityName.{ClarityName}
use ledger_stacks.Common.ContractName.{ContractName}
use ledger_stacks.Common.StacksAddress.{StacksAddress}
use ledger_stacks.Common.HashMode.{p2pkh, p2sh}
use ledger_stacks.Common.AssetInfo.{AssetInfo}
use ledger_stacks.Common.TransactionVersion.{mainnet}
use ledger_stacks.Principal.Contract.{ContractPrincipal}
use ledger_stacks.Value.Encoding.{Clarity}
use ledger_stacks.PostCondition.Principal.{PostConditionPrincipal}
use ledger_stacks.PostCondition.Codes.{sent_eq, sent}
use ledger_stacks.PostCondition.Condition.Wire.{PostCondition, on_stx, on_fungible, on_nonfungible}
use ledger_stacks.Spending.Signer.{SignerFields}
use ledger_stacks.Spending.Singlesig.{compressed}
use ledger_stacks.Spending.Multisig.Fields.{AuthField, public_key_compressed}
use ledger_stacks.Spending.Condition.RoundTrip.{Account, one, many}
use ledger_stacks.Auth.Wire.{Authorization, by_origin, by_sponsor}
use ledger_stacks.Payload.TokenTransfer.RoundTrip.{Transfer, to_standard}
use ledger_stacks.Transaction.Read.{Preamble}

instance abbrev pub crates : Crates
crates = crates_model

instance abbrev pub iterator : Iterator
iterator = iterator_model

abbrev pub hash : Bytes
hash = replicate 20 7

abbrev pub address : StacksAddress
address = record { bytes = 22 ∷ hash }

abbrev pub name : ClarityName
name = record { bytes = b'a' ∷ b'b' ∷ [] }

abbrev pub contract_name : ContractName
contract_name = record { inner = name }

abbrev pub asset : AssetInfo
asset = record { address = address; contract_name = contract_name; asset_name = name }

abbrev pub contract : ContractPrincipal
contract = record { address = record { bytes = 22 ∷ hash }; name = contract_name }

abbrev pub to_contract : PostConditionPrincipal
to_contract = PostConditionPrincipal.contract address contract_name

abbrev pub one_some : Clarity
one_some = Clarity.some (Clarity.uint 5)

abbrev pub pays_stx : PostCondition
pays_stx = on_stx PostConditionPrincipal.origin sent_eq 1000

abbrev pub pays_tokens : PostCondition
pays_tokens = on_fungible to_contract asset sent_eq 7

abbrev pub gives_asset : PostCondition
gives_asset = on_nonfungible (PostConditionPrincipal.standard address) asset one_some sent

abbrev pub signer : SignerFields
signer = record { mode = p2pkh; key_hash = hash; sequence = 9; rate = 180 }

abbrev pub script_signer : SignerFields
script_signer = record { mode = p2sh; key_hash = hash; sequence = 1; rate = 2 }

abbrev pub account : Account
account = record { signer = signer; signature = one compressed (replicate 65 3) }

abbrev pub fields : List AuthField
fields = public_key_compressed (replicate 33 2) ∷ []

abbrev pub shared : Account
shared = record { signer = script_signer; signature = many fields 1 }

abbrev pub alone : Authorization
alone = by_origin account

abbrev pub together : Authorization
together = by_sponsor account shared

abbrev pub transfer : Transfer
transfer = record { recipient = to_standard 22 hash; micro_stx = 250; note = replicate 34 0 }

abbrev pub preamble : Preamble
preamble = record {
  version = mainnet;
  chain = 1;
  authorization = alone;
  modes = 1 ∷ 2 ∷ [];
  conditions = pays_stx ∷ pays_tokens ∷ [];
}

pub name-is_ascii : not (is_ascii (ContractName.name contract_name)) ≡ false
unfolding is_ascii
name-is_ascii = refl

-- The account as it is parsed.
abbrev pub parsed : TransactionSpendingCondition
parsed = record {
  signer = record { bytes = Signer.encode signer };
  signature = singlesig (record { bytes = 0 ∷ replicate 65 3 });
}

pub checked : Auth.check_signer (standard parsed) hash ≡ ok origin
unfolding Auth.check_signer Condition.signer_pub_key_hash Signer.pub_key_hash bytes_eq
checked = refl
