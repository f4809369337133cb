-- ===== src/Transaction/Modes.antt =====
-- transaction.rs: the two bytes of modes, by their own parsers. `read` takes the bytes as they are.
use ledger_stacks.Base.{ℕ, ◌==◌, Option, none, some, if◌then◌else◌}
use ledger_stacks.Error.{ok, ok_or, ◌>>=◌, parser_unexpected_error}
use ledger_stacks.Crates.{Crates, Bytes, IResult}

pub data TransactionPostConditionMode : Type 0 where
  allow deny : TransactionPostConditionMode

pub data TransactionAnchorMode : Type 0 where
  on_chain_only off_chain_only any : TransactionAnchorMode

unfoldable pub post_condition_mode : ℕ → Option TransactionPostConditionMode
post_condition_mode v = if v == 1 then some allow else if v == 2 then some deny else none

unfoldable pub anchor_mode : ℕ → Option TransactionAnchorMode
anchor_mode v =
    if v == 1
    then some on_chain_only
    else if v == 2
    then some off_chain_only
    else if v == 3
    then some any
    else none

module _ ⦃crates : Crates⦄ where
  unfoldable pub post_condition_mode_from_bytes : Bytes → IResult TransactionPostConditionMode
  post_condition_mode_from_bytes bytes = do
    (rem, v) ← crates.le_u8 bytes
    mode ← ok_or parser_unexpected_error (post_condition_mode v)
    ok (rem, mode)

  unfoldable pub anchor_mode_from_bytes : Bytes → IResult TransactionAnchorMode
  anchor_mode_from_bytes bytes = do
    (rem, v) ← crates.le_u8 bytes
    mode ← ok_or parser_unexpected_error (anchor_mode v)
    ok (rem, mode)
