-- ===== src/Transaction/Failed.antt =====
-- transaction.rs: what a `Transaction::read` that fails has written.
pub mod Steps
pub mod Stops
use ledger_stacks.Base.{◌≡◌, Bool}
use ledger_stacks.Error.{
  ok, ParserError, parser_unexpected_value, parser_invalid_auth_type, parser_unexpected_buffer_end,
  parser_post_condition_failed, parser_invalid_transaction_payload,
}
use ledger_stacks.Crates.{Crates, Iterator, Bytes}
use ledger_stacks.Common.TransactionVersion
use ledger_stacks.Auth
use ledger_stacks.Payload
use ledger_stacks.Transaction.PostConditions
use ledger_stacks.Transaction.State.{Transaction}

-- Where a reading stops: at one of the five parts, or at the test for a sponsored token transfer.
pub data Stage : Type 0 where
  at_header at_auth at_modes at_conditions at_payload at_guard : Stage

-- The error that a reading ends with there.
abbrev pub refused : Stage → ParserError
refused at_header = parser_unexpected_value
refused at_auth = parser_invalid_auth_type
refused at_modes = parser_unexpected_buffer_end
refused at_conditions = parser_post_condition_failed
refused at_payload = parser_invalid_transaction_payload
refused at_guard = parser_invalid_transaction_payload

-- The fields that are still those of the transaction before.
abbrev pub Kept : Stage → Transaction → Transaction → Type 0
Kept at_guard old new = old.signer ≡ new.signer
Kept at_payload old new = (old.payload ≡ new.payload) × (old.signer ≡ new.signer)
Kept at_conditions old new =
    (old.post_conditions ≡ new.post_conditions)
    × ((old.payload ≡ new.payload) × (old.signer ≡ new.signer))
Kept at_modes old new =
    (old.transaction_modes ≡ new.transaction_modes)
    × ((old.post_conditions ≡ new.post_conditions)
        × ((old.payload ≡ new.payload) × (old.signer ≡ new.signer)))
Kept at_auth old new =
    (old.transaction_auth ≡ new.transaction_auth)
    × ((old.transaction_modes ≡ new.transaction_modes)
        × ((old.post_conditions ≡ new.post_conditions)
            × ((old.payload ≡ new.payload) × (old.signer ≡ new.signer))))
Kept at_header old new =
    (old.version ≡ new.version)
    × ((old.chain_id ≡ new.chain_id)
        × ((old.transaction_auth ≡ new.transaction_auth)
            × ((old.transaction_modes ≡ new.transaction_modes)
                × ((old.post_conditions ≡ new.post_conditions)
                    × ((old.payload ≡ new.payload) × (old.signer ≡ new.signer))))))

module _ ⦃crates : Crates⦄ ⦃iterator : Iterator⦄ where
  abbrev pub Header : Bytes → Transaction → Bytes → Type 0
  Header bytes new rest =
      (mid : Bytes) × ((TransactionVersion.from_bytes bytes ≡ ok (mid, new.version))
        × (crates.be_u32 mid ≡ ok (rest, new.chain_id)))

  abbrev pub HeaderAuth : Bytes → Transaction → Bytes → Type 0
  HeaderAuth bytes new rest =
      (mid : Bytes) × (Header bytes new mid
        × (Auth.from_bytes mid ≡ ok (rest, new.transaction_auth)))

  abbrev pub UpToModes : Bytes → Transaction → Bytes → Type 0
  UpToModes bytes new rest =
      (mid : Bytes) × (HeaderAuth bytes new mid
        × (crates.take 2 mid ≡ ok (rest, new.transaction_modes)))

  abbrev pub UpToConditions : Bytes → Transaction → Bytes → Type 0
  UpToConditions bytes new rest =
      (mid : Bytes) × (UpToModes bytes new mid
        × (PostConditions.from_bytes mid ≡ ok (rest, new.post_conditions)))

  abbrev pub AllParts : Bool → Bytes → Transaction → Bytes → Type 0
  AllParts expert bytes new rest =
      (mid : Bytes) × (UpToConditions bytes new mid
        × (Payload.payload_from_bytes expert mid ≡ ok (rest, new.payload)))

  -- The parts in front of the stage are those that their parsers read off the data one after the
  -- other, and leave the rest.
  abbrev pub Reads : Stage → Bool → Bytes → Transaction → Bytes → Type 0
  Reads at_header expert bytes new rest = bytes ≡ rest
  Reads at_auth expert bytes new rest = Header bytes new rest
  Reads at_modes expert bytes new rest = HeaderAuth bytes new rest
  Reads at_conditions expert bytes new rest = UpToModes bytes new rest
  Reads at_payload expert bytes new rest = UpToConditions bytes new rest
  Reads at_guard expert bytes new rest = AllParts expert bytes new rest

  -- The transaction at a stage.
  abbrev pub At : Stage → Bool → Bytes → Transaction → Transaction → Type 0
  At s expert bytes old t = Kept s old t × Reads s expert bytes t t.remainder

  -- The stage at which a reading stopped that left `new`, and its error.
  abbrev pub Stopped : Bool → Bytes → Transaction → Transaction → ParserError → Type 0
  Stopped expert bytes old new e =
      (s : Stage) × (Kept s old new × (Reads s expert bytes new new.remainder × (e ≡ refused s)))
