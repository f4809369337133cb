-- ===== src/Auth/Wire.antt =====
-- transaction_auth.rs: `TransactionAuth::from_bytes` on the wire format of SIP-005.
use ledger_stacks.Base.{ℕ, ◌≡◌, refl, ◌∷◌, ◌++◌, Option, none, some, append_assoc}
use ledger_stacks.Error.{ok}
use ledger_stacks.Crates.{Crates, Bytes, le_u8-cons}
use ledger_stacks.Spending.Condition.RoundTrip
use ledger_stacks.Spending.Condition.RoundTrip.{Account}
use ledger_stacks.Auth.{
  TransactionAuth, standard, sponsored, from_bytes, origin_fee, origin_nonce, sponsor_fee,
  sponsor_nonce,
}

pub data Authorization : Type 0 where
  by_origin : Account → Authorization
  by_sponsor : Account → Account → Authorization

abbrev pub encode : Authorization → Bytes
encode (by_origin o) = 0x04 ∷ RoundTrip.encode o
encode (by_sponsor o s) = 0x05 ∷ RoundTrip.encode o ++ RoundTrip.encode s

abbrev pub IsValid : Authorization → Type 0
IsValid (by_origin o) = RoundTrip.IsValid o
IsValid (by_sponsor o s) = RoundTrip.IsValid o × RoundTrip.IsValid s

abbrev pub from_origin : Authorization → Account
from_origin (by_origin o) = o
from_origin (by_sponsor o _) = o

abbrev pub from_sponsor : Authorization → Option Account
from_sponsor (by_origin _) = none
from_sponsor (by_sponsor _ s) = some s

abbrev pub sponsor_sequence : Authorization → Option ℕ
sponsor_sequence (by_origin _) = none
sponsor_sequence (by_sponsor _ s) = some s.signer.sequence

abbrev pub sponsor_rate : Authorization → Option ℕ
sponsor_rate (by_origin _) = none
sponsor_rate (by_sponsor _ s) = some s.signer.rate

module _ ⦃crates : Crates⦄ where
  abbrev pub Conditions : Authorization → TransactionAuth → Type 0
  Conditions (by_origin o) (standard c) = RoundTrip.Shows c o
  Conditions (by_sponsor o s) (sponsored c d) = RoundTrip.Shows c o × RoundTrip.Shows d s
  Conditions _ _ = ⊥

  -- What a parsed authorization shows.
  abbrev pub Shows : TransactionAuth → Authorization → Type 0
  Shows a w =
      (origin_nonce a ≡ ok (from_origin w).signer.sequence)
      × ((origin_fee a ≡ ok (from_origin w).signer.rate)
          × ((sponsor_nonce a ≡ ok (sponsor_sequence w)) × (sponsor_fee a ≡ ok (sponsor_rate w))))

  parsed :
      (w : Authorization) (rest : Bytes)
      → IsValid w
      → (a : TransactionAuth) × ((from_bytes (encode w ++ rest) ≡ ok (rest, a)) × Conditions w a)
  unfolding from_bytes
  parsed (by_origin o) rest v =
      let (c, (e, shows)) = RoundTrip.spending_from_bytes-encode o rest v in
      (standard c, (rw (le_u8-cons, e), shows))
  parsed (by_sponsor o s) rest (vo, vs) =
      let (c, (e, shows)) =
        RoundTrip.spending_from_bytes-encode o (RoundTrip.encode s ++ rest) vo in
      let (d, (e', shows')) = RoundTrip.spending_from_bytes-encode s rest vs in
      (
        sponsored c d,
        (
          rw (le_u8-cons, append_assoc (RoundTrip.encode o) (RoundTrip.encode s) rest, e, e'),
          (shows, shows'),
        ),
      )

  shown : (w : Authorization) (a : TransactionAuth) → Conditions w a → Shows a w
  unfolding origin_nonce origin_fee sponsor_nonce sponsor_fee
  shown (by_origin o) (standard c) (nonce, (fee, _)) = (nonce, (fee, (refl, refl)))
  shown (by_sponsor o s) (sponsored c d) ((nonce, (fee, _)), (nonce', (fee', _))) =
      (nonce, (fee, (rw nonce', rw fee')))
  shown (by_origin o) (sponsored c d) h = absurd h
  shown (by_sponsor o s) (standard c) h = absurd h

  -- A valid authorization is read off the front of any input, with the fees and nonces of its accounts.
  pub auth_from_bytes-encode :
      (w : Authorization) (rest : Bytes)
      → IsValid w
      → (a : TransactionAuth) × ((from_bytes (encode w ++ rest) ≡ ok (rest, a)) × Shows a w)
  auth_from_bytes-encode w rest v =
      let (a, (e, conditions)) = parsed w rest v in (a, (e, shown w a conditions))
