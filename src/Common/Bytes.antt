-- ===== src/Common/Bytes.antt =====
-- `u8` arithmetic of a release build, which wraps.
use ledger_stacks.Base.{ℕ, ◌+◌, ◌-◌, ◌%◌, ◌^◌}

abbrev pub add_u8 : ℕ → ℕ → ℕ
add_u8 a b = (a + b) % 2 ^ 8

abbrev pub sub_u8 : ℕ → ℕ → ℕ
sub_u8 a b = (a + 2 ^ 8 - b) % 2 ^ 8
