-- ===== src/Common/HashMode.antt =====
-- parser_common.rs: `HashMode`, how a signer's address is derived, and `SignerId`.
use ledger_stacks.Base.{ℕ, ◌≡◌, refl, ◌==◌, if◌then◌else◌, arith}
use ledger_stacks.Error.{Result, ok, err, parser_invalid_hash_mode, Returns}

pub data HashMode : Type 0 where
  p2pkh p2sh p2wpkh p2wsh : HashMode

pub data SignerId : Type 0 where
  origin sponsor invalid : SignerId

abbrev pub to_u8 : HashMode → ℕ
to_u8 p2pkh = 0x00
to_u8 p2sh = 0x01
to_u8 p2wpkh = 0x02
to_u8 p2wsh = 0x03

unfoldable pub try_from : ℕ → Result HashMode
try_from value =
    if value == to_u8 p2pkh
    then ok p2pkh
    else if value == to_u8 p2wpkh
    then ok p2wpkh
    else if value == to_u8 p2sh
    then ok p2sh
    else if value == to_u8 p2wsh
    then ok p2wsh
    else err parser_invalid_hash_mode

pub try_from-to_u8 : (m : HashMode) → try_from (to_u8 m) ≡ ok m
unfolding try_from
try_from-to_u8 p2pkh = refl
try_from-to_u8 _ = refl

pub to_u8_unique : (n : ℕ) (m : HashMode) → try_from n ≡ ok m → to_u8 m ≡ n
unfolding try_from
to_u8_unique n m h = ground arith

pub Returns-try_from : (n : ℕ) → Returns (try_from n)
unfolding try_from
Returns-try_from n = ground arith

-- The c32 address versions of c32.rs.
abbrev pub c32_address_version_mainnet_singlesig : ℕ
c32_address_version_mainnet_singlesig = 22

abbrev pub c32_address_version_mainnet_multisig : ℕ
c32_address_version_mainnet_multisig = 20

abbrev pub c32_address_version_testnet_singlesig : ℕ
c32_address_version_testnet_singlesig = 26

abbrev pub c32_address_version_testnet_multisig : ℕ
c32_address_version_testnet_multisig = 21

unfoldable pub to_version_mainnet : HashMode → ℕ
to_version_mainnet p2pkh = c32_address_version_mainnet_singlesig
to_version_mainnet _ = c32_address_version_mainnet_multisig

unfoldable pub to_version_testnet : HashMode → ℕ
to_version_testnet p2pkh = c32_address_version_testnet_singlesig
to_version_testnet _ = c32_address_version_testnet_multisig
