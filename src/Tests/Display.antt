-- ===== src/Tests/Display.antt =====
-- The theorems on addresses, numbers and the display at concrete inputs.
use ledger_stacks.Base.{
  codes, ◌+◌, ◌-◌, ◌≡◌, refl, List, [], ◌∷◌, ◌++◌, length, replicate, arith, false,
}
use ledger_stacks.Error.{ok, parser_ok}
use ledger_stacks.Crates.{Bytes}
use ledger_stacks.Tests.Data.{crates, iterator, hash, parsed, preamble, checked}
use ledger_stacks.Tests.Device.{device}
use ledger_stacks.Common.HashMode.{origin}
use ledger_stacks.Format.Item.{Line, show_line}
use ledger_stacks.Format.Writer.{write_str, write_fmt}
use ledger_stacks.Format.Decimal.{decimal, to_digits}
use ledger_stacks.Format.Utf8.{is_utf8, utf8_from, after_lead}
use ledger_stacks.Device.{negative}
use ledger_stacks.Format.FixedPoint.{i64_to_str, fpi64_to_str, fpstr_to_str, fpu64_to_str}
use ledger_stacks.Format.FixedPoint.Exact.{Splits, fpu64_to_str-exact}
use ledger_stacks.C32Encoding.{c32_encode, c32_address}
use ledger_stacks.C32Encoding.Address.{Digits, AddressOf, c32_encode-Digits, c32_address-AddressOf}
use ledger_stacks.Auth.{TransactionAuth}
use ledger_stacks.Payload
use ledger_stacks.Payload.{token_transfer}
use ledger_stacks.PostCondition.Condition
use ledger_stacks.PostCondition.Condition.{TransactionPostCondition, stx, num_items}
use ledger_stacks.PostCondition.Principal
use ledger_stacks.PostCondition.Codes.{type_try_from}
use ledger_stacks.Transaction.PostConditions.{
  PostConditions, update_postcondition, current_post_condition, map_idx, get_current_limit,
  get_num_items,
}
use ledger_stacks.Transaction.PostConditions.Walk.{IsRead, Holds}
use ledger_stacks.Transaction.PostConditions.Review.{
  Reviewed, open_review, turn, Reviewed-Holds, review_reaches, restart_keeps,
}
use ledger_stacks.Transaction.State
use ledger_stacks.Transaction.State.{Transaction, check_signer_pk_hash}
use ledger_stacks.Transaction.Items.{get_item}
use ledger_stacks.Transaction.Items.Lines.{get_item-lines}
use ledger_stacks.Transaction.Items.Checked.{ShowsAccount, check_signer_pk_hash-shown}
use ledger_stacks.Transaction.Items.Conditions.{ShowsCondition, get_item-condition_lines}

fpu64_to_str-exact_example :
    (whole : Bytes) × ((frac : Bytes) × (Splits 1234567 6 whole frac
        × (fpu64_to_str (replicate 30 1) 1234567 6
            ≡ ok (
              (whole ++ b'.' ∷ frac) ++ replicate (30 - length (whole ++ b'.' ∷ frac)) 0,
              length (whole ++ b'.' ∷ frac),
            ))))
fpu64_to_str-exact_example =
    fpu64_to_str-exact (replicate 30 1) 1234567 6 (omega arith) (omega arith) (omega arith)

-- A number with as many digits as are behind the point, and a sign, gets no zero before the point.
fpi64_to_str-negative :
    fpi64_to_str (replicate 12 1) (negative 12345678) 8 ≡ ok (codes "-.12345678" ++ 0 ∷ 0 ∷ [], 10)
unfolding fpi64_to_str i64_to_str fpstr_to_str write_str write_fmt decimal to_digits is_utf8
    utf8_from after_lead
fpi64_to_str-negative = refl

c32_encode-Digits_example :
    (text : Bytes) × ((c32_encode (0 ∷ 1 ∷ 200 ∷ []) ≡ ok text) × Digits (0 ∷ 1 ∷ 200 ∷ []) text)
c32_encode-Digits_example = c32_encode-Digits (0 ∷ 1 ∷ 200 ∷ []) (omega arith) (omega arith)

c32_address-AddressOf_example :
    (text : Bytes) × ((c32_address 22 hash ≡ ok text) × AddressOf 22 hash text)
c32_address-AddressOf_example = c32_address-AddressOf 22 hash (omega arith) refl (omega arith)

-- Two conditions on STX of the origin.
abbrev amount : Bytes
amount = 1 ∷ 1 ∷ 0 ∷ 0 ∷ 0 ∷ 0 ∷ 0 ∷ 0 ∷ 3 ∷ 232 ∷ []

abbrev two : PostConditions
two = record { conditions = (0 ∷ amount) ∷ (0 ∷ amount) ∷ []; num_items = 6; current_idx = 0 }

abbrev both : List TransactionPostCondition
both = stx amount ∷ stx amount ∷ []

parses : Condition.from_bytes (0 ∷ amount) ≡ ok ([], stx amount)
unfolding Condition.from_bytes Principal.read_as_bytes Principal.try_from type_try_from
parses = refl

two-IsRead : IsRead two both
unfolding num_items
two-IsRead = record {
  parsed = (([], parses), (([], parses), tt));
  counted = refl;
  small = omega arith;
}

later-IsRead : IsRead (record two { current_idx = 1 }) both
unfolding num_items
later-IsRead = record {
  parsed = (([], parses), (([], parses), tt));
  counted = refl;
  small = omega arith;
}

first_turn : update_postcondition two 12 (12 - 6 + 1) ≡ ok (two, ok 1)
unfolding update_postcondition map_idx get_current_limit get_num_items current_post_condition
    num_items Condition.from_bytes Principal.read_as_bytes Principal.try_from type_try_from
first_turn = refl

Reviewed-Holds_example : (h : Holds two both 1) × (current_post_condition two ≡ ok h.current)
Reviewed-Holds_example =
    Reviewed-Holds both two-IsRead refl (omega arith) (omega arith) (omega arith)
      (turn {p = two} {k = 0} open_review (omega arith, omega arith) (omega arith) first_turn)

review_reaches_example : (p : PostConditions) × (Reviewed two 12 p 4 × Holds p both 4)
review_reaches_example =
    review_reaches 4 two 12 both two-IsRead refl (omega arith) (omega arith) (omega arith)

restart_keeps_example :
    (update_postcondition (record two { current_idx = 1 }) 12 (12 - 6)
      ≡ ok (record two { current_idx = 1 }, ok 0))
    × ¬ Holds (record two { current_idx = 1 }) both 0
restart_keeps_example =
    restart_keeps (record two { current_idx = 1 }) both (stx amount) 12 later-IsRead refl
      (omega arith) (omega arith) (omega arith) (omega arith)

-- A transfer that its origin signs, with the two conditions.
abbrev sent : Transaction
sent = record {
  version = preamble.version;
  chain_id = 1;
  transaction_auth = TransactionAuth.standard parsed;
  transaction_modes = 1 ∷ 2 ∷ [];
  post_conditions = two;
  payload = token_transfer (record { bytes = 5 ∷ 22 ∷ hash ++ replicate 42 0 });
  signer = origin;
  remainder = [];
}

twelve_items : State.num_items false sent ≡ ok 12
unfolding State.num_items Payload.num_items
twelve_items = refl

abbrev recipient_line : Line
recipient_line = record {
  label = b'T' ∷ b'o' ∷ [];
  text = Payload.Display.encoded_address (record { bytes = 5 ∷ 22 ∷ hash ++ replicate 42 0 });
}

get_item-lines_example :
    get_item false sent 4 (replicate 30 0) (replicate 30 0) 0
    ≡ (sent, show_line recipient_line (replicate 30 0) (replicate 30 0) 0)
get_item-lines_example =
    get_item-lines false sent parsed 12 4 recipient_line (replicate 30 0) (replicate 30 0) 0
      twelve_items refl refl

-- The signer is known again after the check.
checks : check_signer_pk_hash sent hash ≡ ok (sent, parser_ok)
unfolding check_signer_pk_hash
checks = rw checked

check_signer_pk_hash-shown_example :
    ShowsAccount false sent sent hash (replicate 30 0) (replicate 30 0) 0
check_signer_pk_hash-shown_example =
    check_signer_pk_hash-shown false sent sent hash 12 (replicate 30 0) (replicate 30 0) 0 checks
      twelve_items

first_holds : Holds two both 0
unfolding num_items
first_holds = record {
  current = stx amount;
  found = refl;
  starts = omega arith;
  stops = omega arith;
}

get_item-condition_lines_example :
    ShowsCondition false sent both 12 1 (replicate 30 0) (replicate 30 0) 0
get_item-condition_lines_example =
    get_item-condition_lines false sent both 12 0 1 (replicate 30 0) (replicate 30 0) 0 twelve_items
      two-IsRead first_holds (omega arith, omega arith) (omega arith)
