-- ===== src/Common/Limits.antt =====
-- The constants of parser_common.rs.
use ledger_stacks.Base.{ℕ, ◌+◌}

abbrev pub hash160_len : ℕ
hash160_len = 20

abbrev pub stacks_addr_len : ℕ
stacks_addr_len = hash160_len + 1

abbrev pub stx_decimals : ℕ
stx_decimals = 6

abbrev pub c32_encoded_addrs_length : ℕ
c32_encoded_addrs_length = 48

abbrev pub num_supported_post_conditions : ℕ
num_supported_post_conditions = 16

abbrev pub signature_len : ℕ
signature_len = 65

abbrev pub tx_depth_limit : ℕ
tx_depth_limit = 3

abbrev pub max_depth : ℕ
max_depth = 20
