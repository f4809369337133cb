-- ===== src/Tests/Arguments.antt =====
-- The theorem on the arguments of a contract call at a concrete call.
use ledger_stacks.Base.{◌≡◌, refl, List, [], ◌∷◌, ◌++◌, replicate, arith, codes, false}
use ledger_stacks.Error.{ok}
use ledger_stacks.Slice.{is_ascii}
use ledger_stacks.Tests.Data.{crates, iterator, hash, parsed, preamble}
use ledger_stacks.Tests.Device.{device}
use ledger_stacks.Common.HashMode.{origin}
use ledger_stacks.Common.ClarityName
use ledger_stacks.Common.ContractName
use ledger_stacks.Auth.{TransactionAuth}
use ledger_stacks.Format.Decimal.{decimal, to_digits}
use ledger_stacks.Value.Encoding.{Clarity}
use ledger_stacks.Payload
use ledger_stacks.Payload.{contract_call}
use ledger_stacks.Payload.ContractCall
use ledger_stacks.Payload.ContractCall.{
  TransactionContractCall, arguments_from_bytes, arguments_num_args,
}
use ledger_stacks.Payload.ContractCall.RoundTrip
use ledger_stacks.Payload.Display.Arguments.Keys.{Parts, Keyed}
use ledger_stacks.Payload.Display.Arguments.Lines.{show_text}
use ledger_stacks.Payload.Display.{contract_address}
use ledger_stacks.C32Encoding.Address.{c32_address-AddressOf}
use ledger_stacks.Crates.{Bytes}
use ledger_stacks.Transaction.State
use ledger_stacks.Transaction.State.{Transaction}
use ledger_stacks.Transaction.Items.{get_item}
use ledger_stacks.Transaction.Items.Arguments.{get_item-argument}

abbrev values : List Clarity
values = Clarity.uint 250 ∷ Clarity.bool_true ∷ []

abbrev called : TransactionContractCall
called = record {
  bytes = 22 ∷ hash ++ 3 ∷ codes "pox" ++ 9 ∷ codes "stack-stx" ++ RoundTrip.encode values;
}

abbrev calls : Transaction
calls = record {
  version = preamble.version;
  chain_id = 1;
  transaction_auth = TransactionAuth.standard parsed;
  transaction_modes = 1 ∷ 2 ∷ [];
  post_conditions = record { conditions = []; num_items = 0; current_idx = 0 };
  payload = contract_call called;
  signer = origin;
  remainder = [];
}

called_args :
    ContractCall.function_args false called ≡ ok (record { bytes = RoundTrip.encode values ++ [] })
unfolding ContractCall.function_args arguments_from_bytes ContractName.from_bytes
    ClarityName.from_bytes ClarityName.read_as_bytes is_ascii
called_args = refl

eight_items : State.num_items false calls ≡ ok 8
unfolding State.num_items Payload.num_items ContractCall.num_items ContractCall.num_args
    arguments_num_args ContractCall.function_args arguments_from_bytes ContractName.from_bytes
    ClarityName.from_bytes ClarityName.read_as_bytes is_ascii
eight_items = refl

called_parts : Parts called
unfolding contract_address ContractCall.contract_name ContractCall.function_name
    ContractName.from_bytes ClarityName.from_bytes ClarityName.read_as_bytes is_ascii
called_parts =
    let (address, (address_read, _)) =
      c32_address-AddressOf 22 hash (omega arith) refl (omega arith) in
    record {
      address = address;
      name = codes "pox";
      function = codes "stack-stx";
      address_read = address_read;
      name_read = refl;
      function_read = refl;
    }

get_item-argument_example :
    (k : Bytes) × (Keyed called called_parts (replicate 30 0) (Clarity.uint 250) 0 k
      × (get_item false calls 6 (replicate 30 0) (replicate 30 0) 0
          ≡ (calls, show_text (Clarity.uint 250) k (replicate 30 0) 0)))
unfolding decimal to_digits
get_item-argument_example =
    get_item-argument false calls called called_parts values [] (Clarity.uint 250) 8 0
      (replicate 30 0) (replicate 30 0) 0 refl eight_items called_args
      ((omega arith, (omega arith, omega arith)), ((tt, (omega arith, omega arith)), tt))
      (omega arith) refl (omega arith) (omega arith)
