-- ===== src/Spending/Condition/WellFormed.antt =====
-- spending_condition.rs: what holds of every condition that `from_bytes` returns.
use ledger_stacks.Base.{◌≡◌, true, Bool-cases, inl, inr}
use ledger_stacks.Error.{ok, >>=-eq-ok, ok-subst}
use ledger_stacks.Crates.{Crates, Bytes, IResult}
use ledger_stacks.Common.HashMode.{HashMode, p2pkh, p2sh, p2wpkh, p2wsh}
use ledger_stacks.Spending.Signer
use ledger_stacks.Spending.Singlesig
use ledger_stacks.Spending.Singlesig.{
  SinglesigSpendingCondition, TransactionPublicKeyEncoding, compressed, uncompressed, key_encoding,
  is_valid_hash_mode,
}
use ledger_stacks.Spending.Multisig
use ledger_stacks.Spending.Condition.{
  TransactionSpendingCondition, SpendingConditionSignature, singlesig, multisig, from_bytes,
  read_signature, read_singlesig,
}

-- A public-key mode has one signature, with a known key encoding that the mode permits, and a script
-- mode has many.
abbrev pub Permits : HashMode → SpendingConditionSignature → Type 0
Permits p2pkh (singlesig s) =
    Singlesig.IsValid s × ((key : TransactionPublicKeyEncoding) × (key_encoding s ≡ ok key))
Permits p2wpkh (singlesig s) = Singlesig.IsValid s × (key_encoding s ≡ ok compressed)
Permits p2sh (multisig m) = Unit
Permits p2wsh (multisig m) = Unit
Permits _ _ = ⊥

abbrev pub IsWellFormed : TransactionSpendingCondition → Type 0
IsWellFormed c =
    Signer.IsValid c.signer
    × ((mode : HashMode) × ((Signer.hash_mode c.signer ≡ ok mode) × Permits mode c.signature))

only_compressed :
    (s : SinglesigSpendingCondition) (key : TransactionPublicKeyEncoding)
    → key_encoding s ≡ ok key
    → is_valid_hash_mode key p2wpkh ≡ true
    → key_encoding s ≡ ok compressed
unfolding is_valid_hash_mode
only_compressed s compressed hk valid = hk
only_compressed s uncompressed hk valid = cc

module _ ⦃crates : Crates⦄ where
  single :
      (mode : HashMode) (bs rem : Bytes) (c : SpendingConditionSignature)
      → read_singlesig mode bs ≡ ok (rem, c)
      → (s : SinglesigSpendingCondition) × ((c ≡ singlesig s)
          × (Singlesig.IsValid s
              × ((key : TransactionPublicKeyEncoding) × ((key_encoding s ≡ ok key)
                    × (is_valid_hash_mode key mode ≡ true)))))
  single mode bs rem c h =
      let ((r, s), hs, h') = >>=-eq-ok (Singlesig.from_bytes bs) _ h in
      let (_, v) = Singlesig.Singlesig-Codec.splits bs r s hs in
      let (key, hk, h'') = >>=-eq-ok (key_encoding s) _ h' in
      elim (Bool-cases (is_valid_hash_mode key mode)) [
        | inl valid ↦
            let e : ◌≡◌ {A = IResult SpendingConditionSignature} (ok (r, singlesig s))
                (ok (rem, c)) =
              rw valid at h'' in
            (s, (cc, (v, (key, (hk, valid)))))
        | inr invalid ↦ cc (rw invalid at h'')
      ]

  permits :
      (mode : HashMode) (bs rem : Bytes) (c : SpendingConditionSignature)
      → read_signature mode bs ≡ ok (rem, c)
      → Permits mode c
  unfolding is_valid_hash_mode
  permits p2pkh bs rem c h =
      let (s, (e, (v, (key, (hk, _))))) = single p2pkh bs rem c h in rw e (v, (key, hk))
  permits p2wpkh bs rem c h =
      let (s, (e, (v, (key, (hk, valid))))) = single p2wpkh bs rem c h in
      rw e (v, only_compressed s key hk valid)
  permits p2sh bs rem c h =
      let ((r, m), hm, e) = >>=-eq-ok (Multisig.from_bytes bs) _ h in
      ok-subst (λ rem c. Permits p2sh c) tt e
  permits p2wsh bs rem c h =
      let ((r, m), hm, e) = >>=-eq-ok (Multisig.from_bytes bs) _ h in
      ok-subst (λ rem c. Permits p2wsh c) tt e

  -- Every condition that is read has a whole signer, a known hash mode, and a signature of the kind
  -- that the mode asks for: under P2WPKH the key is compressed.
  pub from_bytes-IsWellFormed :
      (bs rem : Bytes) (c : TransactionSpendingCondition)
      → from_bytes bs ≡ ok (rem, c)
      → IsWellFormed c
  unfolding from_bytes
  from_bytes-IsWellFormed bs rem c h =
      let ((r, signer), hs, h') = >>=-eq-ok (Signer.from_bytes bs) _ h in
      let (_, v) = Signer.Signer-Codec.splits bs r signer hs in
      let (mode, hm, h'') = >>=-eq-ok (Signer.hash_mode signer) _ h' in
      let ((r', sig), hsig, e) = >>=-eq-ok (read_signature mode r) _ h'' in
      ok-subst (λ _ c. IsWellFormed c) (v, (mode, (hm, permits mode r r' sig hsig))) e
