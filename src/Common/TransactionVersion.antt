-- ===== src/Common/TransactionVersion.antt =====
-- parser_common.rs: `TransactionVersion`, the network that a transaction is for.
use ledger_stacks.Base.{ℕ, ◌≡◌, refl, [], ◌∷◌, ◌==◌, if◌then◌else◌, arith}
use ledger_stacks.Error.{Result, ok, err, ◌>>=◌, parser_unexpected_value, Returns}
use ledger_stacks.Crates.{Crates, Bytes, IResult, Codec, Codec-byte}

pub data TransactionVersion : Type 0 where
  mainnet testnet : TransactionVersion

abbrev pub to_u8 : TransactionVersion → ℕ
to_u8 mainnet = 0x00
to_u8 testnet = 0x80

pub try_from : ℕ → Result TransactionVersion
try_from value =
    if value == 0x00
    then ok mainnet
    else if value == 0x80
    then ok testnet
    else err parser_unexpected_value

try_from-to_u8 : (v : TransactionVersion) → try_from (to_u8 v) ≡ ok v
unfolding try_from
try_from-to_u8 mainnet = refl
try_from-to_u8 testnet = refl

to_u8_unique : (n : ℕ) (v : TransactionVersion) → try_from n ≡ ok v → to_u8 v ≡ n
unfolding try_from
to_u8_unique n v h = ground arith

Returns-try_from : (n : ℕ) → Returns (try_from n)
unfolding try_from
Returns-try_from n = ground arith

module _ ⦃crates : Crates⦄ where
  pub from_bytes : Bytes → IResult TransactionVersion
  from_bytes bytes = do
    (rem, version) ← crates.le_u8 bytes
    tx_version ← try_from version
    ok (rem, tx_version)

  pub TransactionVersion-Codec : Codec from_bytes (λ v. to_u8 v ∷ []) (λ _. Unit {0})
  unfolding from_bytes
  TransactionVersion-Codec = Codec-byte try_from to_u8 try_from-to_u8 to_u8_unique Returns-try_from
