-- ===== src/ParsedObj.antt =====
-- app/rust/src/parser/parsed_obj.rs: the one object that is parsed and shown, of four kinds.
pub mod Consistent
pub mod Failed
use ledger_stacks.Base.{ℕ, ◌==◌, length, Bool, true, false, if◌then◌else◌, Option, none, some}
use ledger_stacks.Error.{
  Result, with_state, ok, err, panic, out_of_fuel, ◌>>=◌, parser_no_data, parser_unexpected_error,
  parser_unexpected_type,
}
use ledger_stacks.Crates.{Crates, Iterator, Bytes}
use ledger_stacks.Device.{Device}
use ledger_stacks.Format.Item.{Shown}
use ledger_stacks.Message
use ledger_stacks.Message.{ByteString}
use ledger_stacks.Jwt
use ledger_stacks.Jwt.{Jwt, TokenCrates}
use ledger_stacks.StructuredMsg
use ledger_stacks.StructuredMsg.{StructuredMsg}
use ledger_stacks.Transaction.State as State
use ledger_stacks.Transaction.State.{Transaction}
use ledger_stacks.Transaction.Items as Items
use ledger_stacks.Transaction.FromBytes as FromBytes
use ledger_stacks.Transaction.FromBytes.{Permutation}

pub data Tag : Type 0 where
  transaction_tag message_tag jwt_tag structured_tag invalid_tag : Tag

-- The union.
pub data Obj : Type 0 where
  tx : Transaction → Obj
  msg : ByteString → Obj
  jwt : Jwt → Obj
  structured_msg : StructuredMsg → Obj

pub record ParsedObj : Type 0 where
  pub tag : Tag
  pub obj : Obj

-- The members of the union. To read another member than the one that was written is a panic.
abbrev pub as_transaction : Obj → Result Transaction
as_transaction (tx t) = ok t
as_transaction _ = panic

abbrev pub as_message : Obj → Result ByteString
as_message (msg m) = ok m
as_message _ = panic

abbrev pub as_jwt : Obj → Result Jwt
as_jwt (jwt j) = ok j
as_jwt _ = panic

abbrev pub as_structured : Obj → Result StructuredMsg
as_structured (structured_msg m) = ok m
as_structured _ = panic

unfoldable pub is_transaction : ParsedObj → Bool
is_transaction p = elim p.tag [ transaction_tag ↦ true | _ ↦ false ]

unfoldable pub is_message : ParsedObj → Bool
is_message p = elim p.tag [ message_tag ↦ true | _ ↦ false ]

unfoldable pub is_jwt : ParsedObj → Bool
is_jwt p = elim p.tag [ jwt_tag ↦ true | _ ↦ false ]

abbrev pub get_type : ParsedObj → Tag
get_type p = p.tag

-- `Some(..)` under the tag, and nothing else.
unfoldable pub transaction : ParsedObj → Result (Option Transaction)
transaction p = elim p.tag [
  | transaction_tag ↦ as_transaction p.obj >>= λ t. ok (some t)
  | _ ↦ ok none
]

unfoldable pub message : ParsedObj → Result (Option ByteString)
message p = elim p.tag [ message_tag ↦ as_message p.obj >>= λ m. ok (some m) | _ ↦ ok none ]

unfoldable pub web_token : ParsedObj → Result (Option Jwt)
web_token p = elim p.tag [ jwt_tag ↦ as_jwt p.obj >>= λ j. ok (some j) | _ ↦ ok none ]

unfoldable pub structured : ParsedObj → Result (Option StructuredMsg)
structured p = elim p.tag [
  | structured_tag ↦ as_structured p.obj >>= λ m. ok (some m)
  | _ ↦ ok none
]

-- The kind of some bytes, by the tests of `read` and `from_bytes` in their order.
module _ ⦃crates : Crates⦄ ⦃token : TokenCrates⦄ where
  unfoldable pub kind_of : Bytes → Result Tag
  kind_of bytes = if Message.contain_header bytes then ok message_tag else do
    token_found ← Jwt.is_jwt bytes
    if token_found then ok jwt_tag else do
      message_found ← StructuredMsg.is_msg bytes
      if message_found then ok structured_tag else ok transaction_tag

module _ ⦃crates : Crates⦄ ⦃iterator : Iterator⦄ ⦃token : TokenCrates⦄ where
  -- The object after the call, and its answer.
  abbrev pub kept : Obj → (Result Obj) → Result (Obj × Result (Unit {0}))
  kept old (ok new) = ok (new, ok tt)
  kept old (err e) = ok (old, err e)
  kept old panic = panic
  kept old out_of_fuel = out_of_fuel

  -- `&mut *self.tx`: the transaction in the union. Where another member was written last, it is what
  -- that memory is as a transaction, `stale`.
  abbrev pub held : Transaction → Obj → Transaction
  held stale (tx t) = t
  held stale _ = stale

  -- The transaction in the union is the one that the reading changes, and it stays when the reading
  -- fails.
  abbrev pub left_by : Transaction × Result (Unit {0}) → Result (Obj × Result (Unit {0}))
  left_by (t, ok _) = ok (tx t, ok tt)
  left_by (t, err e) = ok (tx t, err e)
  left_by (t, panic) = panic
  left_by (t, out_of_fuel) = out_of_fuel

  unfoldable pub read_obj :
      Bool → Transaction → Tag → Obj → Bytes → Result (Obj × Result (Unit {0}))
  read_obj expert stale transaction_tag o bytes = left_by (State.read expert (held stale o) bytes)
  read_obj expert stale message_tag o bytes = kept o (Message.from_bytes bytes >>= λ m. ok (msg m))
  read_obj expert stale jwt_tag o bytes = kept o (Jwt.from_bytes bytes >>= λ j. ok (jwt j))
  read_obj expert stale structured_tag o bytes =
      kept o (StructuredMsg.from_bytes bytes >>= λ m. ok (structured_msg m))
  read_obj expert stale invalid_tag o bytes = ok (o, err parser_unexpected_error)

  -- Without data nothing is changed.
  unfoldable pub read :
      Bool → Transaction → ParsedObj → Bytes → Result (ParsedObj × Result (Unit {0}))
  read expert stale p bytes = if length bytes == 0 then ok (p, err parser_no_data) else (do
    tag ← kind_of bytes
    (o, answer) ← read_obj expert stale tag p.obj bytes
    ok (record { tag = tag; obj = o }, answer))

module _ ⦃crates : Crates⦄ ⦃iterator : Iterator⦄ ⦃token : TokenCrates⦄ ⦃p : Permutation⦄ where
  unfoldable pub obj_from_bytes : Bool → Bytes → Tag → Result Obj
  obj_from_bytes expert bytes transaction_tag = do t ← FromBytes.from_bytes expert bytes; ok (tx t)
  obj_from_bytes expert bytes message_tag = do m ← Message.from_bytes bytes; ok (msg m)
  obj_from_bytes expert bytes structured_tag = do
    m ← StructuredMsg.from_bytes bytes
    ok (structured_msg m)
  obj_from_bytes expert bytes jwt_tag = do j ← Jwt.from_bytes bytes; ok (jwt j)
  obj_from_bytes expert bytes invalid_tag = err parser_unexpected_type

  unfoldable pub from_bytes : Bool → Bytes → Result ParsedObj
  from_bytes expert bytes = if length bytes == 0 then err parser_no_data else do
    tag ← kind_of bytes
    o ← obj_from_bytes expert bytes tag
    ok (record { tag = tag; obj = o })

module _ ⦃crates : Crates⦄ where
  unfoldable pub num_items : Bool → ParsedObj → Result ℕ
  num_items expert p = elim p.tag [
    | transaction_tag ↦ as_transaction p.obj >>= λ t. State.num_items expert t
    | message_tag ↦ as_message p.obj >>= λ m. ok (Message.num_items m)
    | structured_tag ↦ as_structured p.obj >>= λ m. StructuredMsg.num_items m
    | jwt_tag ↦ as_jwt p.obj >>= λ j. ok (Jwt.num_items j)
    | invalid_tag ↦ err parser_unexpected_error
  ]

  -- The object after the call, and what is shown.
  unfoldable pub get_item :
      ⦃device : Device⦄ → Bool → ParsedObj → ℕ → Bytes → Bytes → ℕ → ParsedObj × Result Shown
  get_item expert p display_idx key value page_idx = elim p.tag [
    | transaction_tag ↦ with_state p (as_transaction p.obj) λ t.
        (let (t', shown) = Items.get_item expert t display_idx key value page_idx in
          (record p { obj = tx t' }, shown))
    | message_tag ↦ (p, as_message p.obj >>= λ m. Message.get_item m display_idx key value page_idx)
    | structured_tag ↦
        (p, as_structured p.obj >>= λ m. StructuredMsg.get_item m display_idx key value page_idx)
    | jwt_tag ↦ (p, as_jwt p.obj >>= λ j. Jwt.get_item j display_idx key value page_idx)
    | invalid_tag ↦ (p, err parser_unexpected_error)
  ]
