-- ===== src/Ffi.antt =====
-- app/rust/src/parser/ffi.rs: what the C part of the application calls. A pointer that may be null is
-- an option; what a call writes through a pointer is part of its result.
use ledger_stacks.Base.{
  ℕ, ◌==◌, ◌%◌, ◌^◌, ◌++◌, length, drop, leb, Bool, true, false, if◌then◌else◌, Option, none, some,
}
use ledger_stacks.Error.{
  Result, ok, err, panic, out_of_fuel, ◌>>=◌, ParserError, parser_ok, parser_no_data,
  parser_no_memory_for_state, parser_init_context_empty, parser_context_mismatch,
  parser_unexpected_error, to_option,
}
use ledger_stacks.Crates.{Crates, Iterator, Bytes, to_be}
use ledger_stacks.Device.{Device}
use ledger_stacks.Format.Item.{Shown}
use ledger_stacks.Auth
use ledger_stacks.Jwt.{TokenCrates}
use ledger_stacks.StructuredMsg
use ledger_stacks.Transaction.State as State
use ledger_stacks.Transaction.State.{
  Transaction, TransactionAuthFlags, standard_flag, sponsored_flag, previous_signer_data,
}
use ledger_stacks.ParsedObj
use ledger_stacks.ParsedObj.{
  ParsedObj, Tag, invalid_tag, transaction_tag, transaction, structured, tx,
}

-- `buffer` and `bufferLen`; the buffer of an empty context is null.
pub record ParserContext : Type 0 where
  pub buffer : Option Bytes
  pub offset : ℕ

-- The memory behind `parse_tx_t`, null before it is allocated.
abbrev pub ParseTx : Type 0
ParseTx = Option ParsedObj

abbrev pub empty_context : ParserContext
empty_context = record { buffer = none; offset = 0 }

-- `bufferSize` is the length of the buffer.
unfoldable pub parser_init_context : Option Bytes → ParserContext × ParserError
parser_init_context none = (empty_context, parser_init_context_empty)
parser_init_context (some buffer) =
    if length buffer == 0
    then (empty_context, parser_init_context_empty)
    else (record { buffer = some buffer; offset = 0 }, parser_ok)

-- `alloc_size` is written where it is no null pointer; `has_alloc_size` says whether it is one.
unfoldable pub parser_init : ParserContext → Bool → Option Bytes → ParserContext × ParserError
parser_init ctx has_alloc_size buffer =
    if has_alloc_size then parser_init_context buffer else (ctx, parser_no_memory_for_state)

-- An answer as its code.
abbrev pub to_code : Result (Unit {0}) → Result ParserError
to_code (ok _) = ok parser_ok
to_code (err e) = ok e
to_code panic = panic
to_code out_of_fuel = out_of_fuel

-- The transaction behind the pointer, if there is one.
unfoldable pub current_transaction : ParseTx → Result (Option Transaction)
unfolding transaction
current_transaction none = ok none
current_transaction (some p) = transaction p

-- A number's eight bytes in a buffer that has room for them: the buffer and the bytes written.
abbrev pub write_u64 : Option ℕ → Bytes → Bytes × ℕ
write_u64 none out = (out, 0)
write_u64 (some n) out = if leb 8 (length out) then (to_be 8 n ++ drop 8 out, 8) else (out, 0)

module _ ⦃crates : Crates⦄ ⦃iterator : Iterator⦄ ⦃token : TokenCrates⦄ where
  -- A null buffer is no documented use: `_parser_init` has refused it.
  unfoldable pub read :
      Bool → Transaction → ParserContext → ParseTx → Result (ParseTx × ParserError)
  read expert stale ctx none = ok (none, parser_no_memory_for_state)
  read expert stale ctx (some p) = elim ctx.buffer [
    | none ↦ panic
    | some bytes ↦ ParsedObj.read expert stale p bytes >>= λ (p', answer).
        to_code answer >>= λ code. ok (some p', code)
  ]

module _ ⦃crates : Crates⦄ where
  -- The code, and the number of items where it is written.
  unfoldable pub get_num_items : Bool → ParseTx → Bool → Result (ParserError × Option ℕ)
  get_num_items expert none has_num_items = ok (parser_no_data, none)
  get_num_items expert (some p) false = ok (parser_no_data, none)
  get_num_items expert (some p) true = elim (ParsedObj.num_items expert p) [
    | ok n ↦ ok (parser_ok, some n)
    | err e ↦ ok (e, none)
    | panic ↦ panic
    | out_of_fuel ↦ out_of_fuel
  ]

  unfoldable pub fee_bytes : ParseTx → Bytes → Result (Bytes × ℕ)
  fee_bytes p out = do
    found ← current_transaction p
    elim found [ none ↦ ok (out, 0) | some t ↦ State.fee t >>= λ fee. ok (write_u64 fee out) ]

  unfoldable pub nonce_bytes : ParseTx → Bytes → Result (Bytes × ℕ)
  nonce_bytes p out = do
    found ← current_transaction p
    elim found [ none ↦ ok (out, 0) | some t ↦ State.nonce t >>= λ nonce. ok (write_u64 nonce out) ]

  -- The code, the number of pages and, with a page, what is shown.
  unfoldable pub get_item :
      ⦃device : Device⦄
      → Bool
      → ParseTx
      → ℕ
      → Bytes
      → Bytes
      → ℕ
      → Result (ParseTx × (ParserError × (ℕ × Option Shown)))
  get_item expert none display_idx key value page_idx =
      ok (none, (parser_context_mismatch, (0, none)))
  get_item expert (some p) display_idx key value page_idx =
      let (p', shown) = ParsedObj.get_item expert p display_idx key value page_idx in
      elim shown [
        | ok (k, (v, pages)) ↦ ok (some p', (parser_ok, (pages, some (k, (v, pages)))))
        | err e ↦ ok (some p', (e, (0, none)))
        | panic ↦ panic
        | out_of_fuel ↦ out_of_fuel
      ]

  -- The buffer after a call that succeeds, and the length that is returned, which is 0 otherwise.
  unfoldable pub presig_hash_data : ParseTx → Bytes → Result (Option Bytes × ℕ)
  presig_hash_data p buf = do
    found ← current_transaction p
    elim found [
      | none ↦ ok (none, 0)
      | some t ↦ to_option (Auth.initial_sighash_auth t.transaction_auth buf) >>= λ r. elim r [
        | none ↦ ok (none, 0)
        | some (out, len) ↦ ok (some out, len % 2 ^ 16)
      ]
    ]

  unfoldable pub structured_msg_hash :
      ⦃device : Device⦄ → ParseTx → Bytes → Result (Bytes × ParserError)
  structured_msg_hash none out = ok (out, parser_unexpected_error)
  structured_msg_hash (some p) out = structured p >>= λ found. elim found [
    | none ↦ ok (out, parser_unexpected_error)
    | some m ↦ to_option (StructuredMsg.get_hash m out) >>= λ r. elim r [
      | none ↦ ok (out, parser_unexpected_error)
      | some out' ↦ ok (out', parser_ok)
    ]
  ]

unfoldable pub auth_flag : ParseTx → Result (Option TransactionAuthFlags × ParserError)
auth_flag p = do
  found ← current_transaction p
  elim found [
    | none ↦ ok (none, parser_context_mismatch)
    | some t ↦ ok (some (State.auth_flag t), parser_ok)
  ]

-- The state after the call, in which the signer is known, and the code.
unfoldable pub check_pubkey_hash : ParseTx → Option Bytes → Result (ParseTx × ParserError)
check_pubkey_hash p pub_key = do
  found ← current_transaction p
  elim found [
    | none ↦ ok (p, parser_context_mismatch)
    | some t ↦ elim pub_key [
      | none ↦ ok (p, parser_no_data)
      | some pk ↦ State.check_signer_pk_hash t pk >>= λ (t', code).
          ok (some (record { tag = transaction_tag; obj = tx t' }), code)
    ]
  ]

unfoldable pub is_multisig : ParseTx → Result Bool
is_multisig p = do
  found ← current_transaction p
  elim found [ none ↦ ok false | some t ↦ ok (State.is_multisig t) ]

unfoldable pub transaction_type : ParseTx → Tag
transaction_type none = invalid_tag
transaction_type (some p) = p.tag

-- The bytes that the pointer is set to, where there are some, and their number.
unfoldable pub previous_signer : ParseTx → Result (Option Bytes × ℕ)
previous_signer p = do
  found ← current_transaction p
  elim found [
    | none ↦ ok (none, 0)
    | some t ↦ elim (previous_signer_data t) [
      | none ↦ ok (none, 0)
      | some bytes ↦ ok (some bytes, length bytes)
    ]
  ]
