-- ===== src/Tests/Objects.antt =====
-- The theorems on the parsed objects, on structured messages and on tokens at concrete inputs.
use ledger_stacks.Base.{
  ◌≡◌, ◌↔◌, ◌⊎◌, refl, [], ◌∷◌, ◌++◌, length, replicate, arith, codes, false, bytes_eq,
}
use ledger_stacks.Error.{ok, err, parser_no_data, parser_invalid_auth_type}
use ledger_stacks.Slice.{is_ascii}
use ledger_stacks.Crates.{Bytes}
use ledger_stacks.Tests.Data.{crates, iterator, hash, parsed, preamble}
use ledger_stacks.Tests.Device.{device, token}
use ledger_stacks.Common.HashMode.{origin}
use ledger_stacks.Auth
use ledger_stacks.Auth.{TransactionAuth}
use ledger_stacks.Common.TransactionVersion
use ledger_stacks.Common.TransactionVersion.{mainnet, testnet}
use ledger_stacks.Transaction.State as State
use ledger_stacks.Jwt
use ledger_stacks.Payload.{token_transfer}
use ledger_stacks.Transaction.State.{Transaction}
use ledger_stacks.Message
use ledger_stacks.Message.{header}
use ledger_stacks.Message.Varint.{read_varint}
use ledger_stacks.Common.ClarityName
use ledger_stacks.Value.Id
use ledger_stacks.Value.Len.{
  value_len, value_len_impl, payload_len, tuple_len, tuple_loop, string_len, check_recursion_limit,
  holds_id,
}
use ledger_stacks.Value.Parse
use ledger_stacks.Value.Parse.{value_id, tuple, new_tuple}
use ledger_stacks.Value.Tuple as Tuple
use ledger_stacks.StructuredMsg
use ledger_stacks.StructuredMsg.{StructuredMsg, parse_prefix, verify, validate}
use ledger_stacks.StructuredMsg.Domain
use ledger_stacks.StructuredMsg.Domain.{check_fields}
use ledger_stacks.Value.Tuple.Fuel.{HasFuel}
use ledger_stacks.StructuredMsg.Fuel.{HasFuel-message}
use ledger_stacks.StructuredMsg.Hash.{HashOf, from_bytes-HashOf}
use ledger_stacks.Jwt.{parse_header_payload}
use ledger_stacks.Jwt.Parts.{IsToken, parse_header_payload_iff}
use ledger_stacks.ParsedObj.{
  ParsedObj, message_tag, tx, msg, transaction_tag, read, read_obj, held, kind_of,
}
use ledger_stacks.ParsedObj.Consistent.{Matches, Parses, read-Matches}
use ledger_stacks.ParsedObj.Failed.{Fails, read-Fails}

abbrev before : Transaction
before = record {
  version = preamble.version;
  chain_id = 1;
  transaction_auth = TransactionAuth.standard parsed;
  transaction_modes = 1 ∷ 2 ∷ [];
  post_conditions = record { conditions = []; num_items = 0; current_idx = 0 };
  payload = token_transfer (record { bytes = 5 ∷ 22 ∷ hash ++ replicate 42 0 });
  signer = origin;
  remainder = [];
}

abbrev fresh : ParsedObj
fresh = record { tag = transaction_tag; obj = tx before }

abbrev greeting : Bytes
greeting = header ++ 2 ∷ b'h' ∷ b'i' ∷ []

abbrev greeted : ParsedObj
greeted = record { tag = message_tag; obj = msg (record { bytes = b'h' ∷ b'i' ∷ [] }) }

read-greeting : read false before fresh greeting ≡ ok (greeted, ok tt)
unfolding read read_obj kind_of Message.contain_header Message.from_bytes Message.get_msg
    read_varint is_ascii bytes_eq
read-greeting = refl

read-Matches_example :
    (kind_of greeting ≡ ok message_tag)
    × (Matches message_tag greeted.obj
        × Parses false (held before fresh.obj) greeting message_tag greeted.obj)
read-Matches_example = read-Matches false before fresh greeted greeting read-greeting

-- The data ends behind the chain's number.
abbrev cut : Bytes
cut = TransactionVersion.to_u8 mainnet ∷ 0 ∷ 0 ∷ 0 ∷ 7 ∷ []

abbrev partly : ParsedObj
partly = record {
  tag = transaction_tag;
  obj = tx (record before { version = mainnet; chain_id = 7; remainder = [] });
}

kind_of-cut : kind_of cut ≡ ok transaction_tag
unfolding kind_of Message.contain_header Jwt.is_jwt parse_header_payload is_ascii
    StructuredMsg.is_msg StructuredMsg.has_prefix parse_prefix bytes_eq Jwt.header_from_bytes
    Jwt.decode_data
kind_of-cut = refl

state-cut : State.read false before cut ≡ (
  record before { version = mainnet; chain_id = 7; remainder = [] },
  err parser_invalid_auth_type,
)
unfolding State.read State.read_header State.read_auth Auth.from_bytes
state-cut = rw (TransactionVersion.TransactionVersion-Codec.decodes mainnet (0 ∷ 0 ∷ 0 ∷ 7 ∷ []) tt)

read-cut : read false before fresh cut ≡ ok (partly, err parser_invalid_auth_type)
unfolding read read_obj
read-cut = rw (kind_of-cut, state-cut)

read-Fails_example :
    ((length cut ≡ 0) × ((fresh ≡ partly) × (parser_no_data ≡ parser_invalid_auth_type)))
    ⊎ ((kind_of cut ≡ ok transaction_tag)
        × Fails false before cut transaction_tag fresh.obj partly.obj parser_invalid_auth_type)
read-Fails_example = read-Fails false before fresh partly cut parser_invalid_auth_type read-cut

parse_header_payload_iff_example :
    (parse_header_payload (codes "a.b") ≡ ok (record { bytes = codes "a" }, codes "b"))
    ↔ IsToken (codes "a.b") (record { bytes = codes "a" }) (codes "b")
parse_header_payload_iff_example =
    parse_header_payload_iff (codes "a.b") (record { bytes = codes "a" }) (codes "b")

-- A domain on chain 1, and the value `true`.
abbrev structured : Bytes
structured =
    codes "SIP018"
    ++ 0x0c ∷ 0 ∷ 0 ∷ 0 ∷ 3 ∷ 8 ∷ codes "chain-id"
    ++ 1 ∷ replicate 15 0
    ++ 1 ∷ 4 ∷ codes "name"
    ++ 0x0d ∷ 0 ∷ 0 ∷ 0 ∷ 1 ∷ b'x' ∷ 7 ∷ codes "version"
    ++ 0x0d ∷ 0 ∷ 0 ∷ 0 ∷ 1 ∷ b'1' ∷ 3 ∷ []

structured_taken : StructuredMsg.from_bytes structured ≡ ok (record { bytes = structured })
unfolding StructuredMsg.from_bytes verify validate parse_prefix Domain.from_bytes check_fields
    Tuple.payload Tuple.next Tuple.num_elements Parse.from_bytes value_id tuple new_tuple
    Parse.payload value_len value_len_impl payload_len tuple_len tuple_loop string_len
    check_recursion_limit holds_id Id.from_bytes Id.try_from ClarityName.from_bytes
    ClarityName.read_as_bytes is_ascii bytes_eq
structured_taken = refl

from_bytes-HashOf_example : HashOf structured (replicate 40 0) (record { bytes = structured })
from_bytes-HashOf_example =
    from_bytes-HashOf structured (replicate 40 0) (record { bytes = structured }) structured_taken
      (omega arith) (omega arith)

HasFuel-message_example : HasFuel (StructuredMsg.from_bytes structured)
HasFuel-message_example = HasFuel-message structured
