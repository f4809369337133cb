-- ===== src/Tests/Device.antt =====
-- The device and the crates for tokens, as the tests take them.
use ledger_stacks.Base.{
  ℕ, zero, suc, ◌*◌, ◌≤◌, ◌≡◌, refl, length, replicate, length-replicate, leb, le→leb, ◌==◌,
  ==_self, Option, none, some, if◌then◌else◌, codes, All, arith,
}
use ledger_stacks.Error.{Result, ok, panic}
use ledger_stacks.Crates.{Bytes, IsByte}
use ledger_stacks.Device.{Device, Signed, signed_text, sha256_len}
use ledger_stacks.Jwt.{TokenCrates}

pub sevens : (n : ℕ) → All IsByte (replicate n 7)
sevens zero = tt
sevens (suc n) = (omega arith, sevens n)

abbrev pub number_text : ℕ → Signed → Result Bytes
number_text size n = if leb (length (signed_text n)) size then ok (signed_text n) else panic

pub number_text-fits :
    (size : ℕ) (n : Signed)
    → length (signed_text n) ≤ size
    → number_text size n ≡ ok (signed_text n)
number_text-fits size n h = rw (le→leb (length (signed_text n)) size h)

abbrev pub hex_text : Bytes → ℕ → Option Bytes
hex_text bs size = if size == 2 * length bs then some (replicate size b'a') else none

pub hex_text-fits :
    (bs : Bytes)
    → (text : Bytes) × ((hex_text bs (2 * length bs) ≡ some text) × (length text ≡ 2 * length bs))
hex_text-fits bs = (
  replicate (2 * length bs) b'a',
  (rw (==_self (2 * length bs)), length-replicate (2 * length bs) b'a'),
)

-- Every hash is the same.
instance abbrev pub device : Device
device = record {
  hash_sha256 = λ bs. replicate sha256_len 7;
  numtoa_str = number_text;
  encode_to_slice = hex_text;
  encode_law = hex_text-fits;
  hash_length = λ bs. refl;
  hash_bytes = λ bs. sevens sha256_len;
  numtoa_law = number_text-fits;
}

-- Every header is one for ES256K.
instance abbrev pub token : TokenCrates
token = record {
  decode_config_slice = λ bs. some bs;
  from_slice = λ bs. some (record { typ = codes "JWT"; alg = codes "ES256K" });
}
