-- ===== src/Transaction/Items/Checked.antt =====
-- transaction.rs: what is shown after `check_signer_pk_hash`.
use ledger_stacks.Base.{ℕ, ◌≡◌, refl, ◌⊎◌, inl, inr, true, codes, some, Bool}
use ledger_stacks.Error.{ok, parser_ok}
use ledger_stacks.Crates.{Crates, Bytes}
use ledger_stacks.Device.{Device}
use ledger_stacks.Common.HashMode.{SignerId, origin, sponsor, invalid}
use ledger_stacks.Format.Item.{show_line}
use ledger_stacks.Auth.{TransactionAuth, standard, sponsored}
use ledger_stacks.Auth.Signers.{Holds, Entitles}
use ledger_stacks.Spending.Condition
use ledger_stacks.Spending.Condition.{TransactionSpendingCondition}
use ledger_stacks.Spending.Display.{signer_address, nonce_str, fee_str}
use ledger_stacks.Transaction.State.{Transaction, check_signer_pk_hash, num_items}
use ledger_stacks.Transaction.Signers.{answer, checked_signer, signs_with}
use ledger_stacks.Transaction.Items.{get_item}
use ledger_stacks.Transaction.Items.Lines.{get_item-lines}

-- The account that a key hash may sign for: that of a standard transaction, if it is the account's
-- or the transaction has many signatures, and of a sponsored one the first that it is the hash of.
abbrev pub SignsFor : TransactionAuth → Bytes → TransactionSpendingCondition → Type 0
SignsFor (standard o) pk c = (o ≡ c) × (Holds o pk ⊎ (Condition.is_multisig o ≡ true))
SignsFor (sponsored o s) pk c = (Holds o pk × (o ≡ c)) ⊎ ((Holds o pk → ⊥) × (Holds s pk × (s ≡ c)))

account :
    (a : TransactionAuth) (pk : Bytes) (id : SignerId)
    → Entitles a pk id
    → parser_ok ≡ answer id
    → (c : TransactionSpendingCondition) × (SignsFor a pk c × (signs_with a id ≡ some c))
account (standard o) pk origin h e = (o, ((refl, h), refl))
account (sponsored o s) pk origin h e = (o, (inl (h, refl), refl))
account (sponsored o s) pk sponsor (other, h) e = (s, (inr (other, (h, refl)), refl))
account (standard o) pk sponsor h e = elim h [ ]
account (standard o) pk invalid h e = cc
account (sponsored o s) pk invalid h e = cc

module _ ⦃crates : Crates⦄ ⦃device : Device⦄ where
  -- Of `t` and what is left of it, `t'`: an account that the key hash may sign for, and its address,
  -- nonce and fee in the first three lines of the display.
  abbrev pub ShowsAccount : Bool → Transaction → Transaction → Bytes → Bytes → Bytes → ℕ → Type 0
  ShowsAccount expert t t' pk key value page_idx =
      (c : TransactionSpendingCondition) × (SignsFor t.transaction_auth pk c
        × ((t' ≡ record t { signer = t'.signer })
            × ((get_item expert t' 0 key value page_idx ≡ (
              t',
              show_line
                  (record { label = codes "Origin"; text = signer_address c.signer t'.version }) key
                  value page_idx,
            ))
                × ((get_item expert t' 1 key value page_idx ≡ (
                  t',
                  show_line (record { label = codes "Nonce"; text = nonce_str c.signer }) key value
                      page_idx,
                ))
                    × (get_item expert t' 2 key value page_idx ≡ (
                      t',
                      show_line (record { label = codes "Fee (uSTX)"; text = fee_str c.signer }) key
                          value page_idx,
                    ))))))

  -- After a check that is passed, the first three lines of the display are the address, the nonce and
  -- the fee of the account that the key hash may sign for, whatever signer the transaction named
  -- before: the account of a standard transaction, if the hash is the account's or the transaction
  -- has many signatures, and of a sponsored one the origin's or else the sponsor's, if the hash is
  -- theirs. The transaction is left as it is but for its signer.
  pub check_signer_pk_hash-shown :
      (expert : Bool) (t t' : Transaction) (pk : Bytes) (n : ℕ) (key value : Bytes) (page_idx : ℕ)
      → check_signer_pk_hash t pk ≡ ok (t', parser_ok)
      → num_items expert t' ≡ ok n
      → ShowsAccount expert t t' pk key value page_idx
  check_signer_pk_hash-shown expert t t' pk n key value page_idx h count =
      let (id, (same, (entitled, passed))) = checked_signer t t' pk parser_ok h in
      let (c, (may, signs)) = account t.transaction_auth pk id entitled passed in
      let named : signs_with t'.transaction_auth t'.signer ≡ some c = rw same signs in
      let kept : t' ≡ record t { signer = t'.signer } = rw same refl in
      (
        c,
        (
          may,
          (
            kept,
            (
              get_item-lines expert t' c n 0 _ key value page_idx count named refl,
              (
                get_item-lines expert t' c n 1 _ key value page_idx count named refl,
                get_item-lines expert t' c n 2 _ key value page_idx count named refl,
              ),
            ),
          ),
        ),
      )
