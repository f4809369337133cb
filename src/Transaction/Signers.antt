-- ===== src/Transaction/Signers.antt =====
-- transaction.rs: `check_signer_pk_hash`, and the nonce and the fee of the signer that it finds.
use ledger_stacks.Base.{ℕ, ◌≡◌, refl, Option, none, some}
use ledger_stacks.Error.{
  Result, ok, ◌>>=◌, >>=-eq-ok, ok-subst, ParserError, parser_ok, parser_invalid_auth_type,
}
use ledger_stacks.Crates.{Crates, Bytes}
use ledger_stacks.Common.HashMode.{SignerId, origin, sponsor, invalid}
use ledger_stacks.Auth
use ledger_stacks.Auth.{TransactionAuth, standard, sponsored, check_signer}
use ledger_stacks.Auth.Signers.{Entitles, check_signer-Entitles}
use ledger_stacks.Spending.Condition
use ledger_stacks.Spending.Condition.{TransactionSpendingCondition}
use ledger_stacks.Transaction.State.{Transaction, check_signer_pk_hash, nonce, fee}

-- The code that the caller gets.
abbrev pub answer : SignerId → ParserError
answer invalid = parser_invalid_auth_type
answer _ = parser_ok

-- The transaction names the signer that the key hash entitles, and all else is as it was.
pub checked_signer :
    (t t' : Transaction) (pk : Bytes) (code : ParserError)
    → check_signer_pk_hash t pk ≡ ok (t', code)
    → (id : SignerId) × ((t' ≡ record t { signer = id })
        × (Entitles t.transaction_auth pk id × (code ≡ answer id)))
unfolding check_signer_pk_hash
checked_signer t t' pk code h =
    let (id, hid, e) = >>=-eq-ok (check_signer t.transaction_auth pk) _ h in
    (
      id,
      ok-subst
          (λ u c.
            (u ≡ record t { signer = id }) × (Entitles t.transaction_auth pk id × (c ≡ answer id)))
          (refl, (check_signer-Entitles t.transaction_auth pk id hid, answered id)) e,
    )
  where
    answered :
        (id : SignerId)
        → (elim id [ invalid ↦ parser_invalid_auth_type | _ ↦ parser_ok ]) ≡ answer id
    answered origin = refl
    answered sponsor = refl
    answered invalid = refl

-- The condition of the party that signs.
abbrev pub signs_with : TransactionAuth → SignerId → Option TransactionSpendingCondition
signs_with (standard o) origin = some o
signs_with (sponsored o _) origin = some o
signs_with (sponsored _ s) sponsor = some s
signs_with _ _ = none

module _ ⦃crates : Crates⦄ where
  abbrev field_of :
      (TransactionSpendingCondition → Result ℕ)
      → Option TransactionSpendingCondition
      → Result (Option ℕ)
  field_of f none = ok none
  field_of f (some c) = f c >>= λ n. ok (some n)

  -- The nonce and the fee are those of the signing party, and there are none without one.
  pub nonce-fee-signer :
      (t : Transaction)
      → (nonce t ≡ field_of Condition.nonce (signs_with t.transaction_auth t.signer))
        × (fee t ≡ field_of Condition.fee (signs_with t.transaction_auth t.signer))
  unfolding nonce fee Auth.origin_nonce Auth.origin_fee Auth.sponsor_nonce Auth.sponsor_fee
  nonce-fee-signer t = go t.transaction_auth t.signer
    where
      go :
          (a : TransactionAuth) (id : SignerId)
          → (nonce (record t { transaction_auth = a; signer = id })
              ≡ field_of Condition.nonce (signs_with a id))
            × (fee (record t { transaction_auth = a; signer = id })
                ≡ field_of Condition.fee (signs_with a id))
      go (standard o) origin = (refl, refl)
      go (standard o) sponsor = (refl, refl)
      go (standard o) invalid = (refl, refl)
      go (sponsored o s) origin = (refl, refl)
      go (sponsored o s) sponsor = (refl, refl)
      go (sponsored o s) invalid = (refl, refl)
