-- ===== src/Auth/Sighash.antt =====
-- transaction_auth.rs: `initial_sighash_auth` of a sponsored transaction.
use ledger_stacks.Base.{
  ◌+◌, ◌≡◌, ◌≤◌, refl, ◌++◌, length, drop, replicate, true, le→leb, le→ltb, arith, length-drop,
  drop-drop,
}
use ledger_stacks.Error.{ok}
use ledger_stacks.Slice.{slice_from-append}
use ledger_stacks.Crates.{Crates, Bytes}
use ledger_stacks.Spending.Condition.{
  TransactionSpendingCondition, is_singlesig, init_sighash, standard_singlesig_auth_len,
}
use ledger_stacks.Auth.{
  sponsored, initial_sighash_auth, write_sponsor_sentinel, sponsor_sentinel_len,
}

module _ ⦃crates : Crates⦄ where
  -- For a sponsored transaction whose origin signs alone, a buffer of 185 bytes or more is cleared on
  -- its first 185 bytes, 82 for the origin and 103 for the sponsor, and the length returned is 103.
  pub sponsored_sighash :
      (o s : TransactionSpendingCondition) (buf : Bytes)
      → is_singlesig o ≡ true
      → standard_singlesig_auth_len + sponsor_sentinel_len ≤ length buf
      → initial_sighash_auth (sponsored o s) buf
        ≡ ok (
          replicate (standard_singlesig_auth_len + sponsor_sentinel_len) 0
              ++ drop (standard_singlesig_auth_len + sponsor_sentinel_len) buf,
          sponsor_sentinel_len,
        )
  unfolding initial_sighash_auth write_sponsor_sentinel init_sighash
  sponsored_sighash o s buf single enough =
      let rest = length-drop 82 buf in
      let cleared : init_sighash o buf ≡ ok (replicate 82 0 ++ drop 82 buf, 82) =
        rw (init_sighash, single, le→leb 82 (length buf) (omega (arith, enough))) in
      let sentinel : write_sponsor_sentinel (drop 82 buf)
          ≡ ok (replicate 103 0 ++ drop 185 buf, 103) =
        rw (
          le→ltb (length (drop 82 buf)) 103 (omega (arith, enough, rest)),
          drop-drop 82 103 185 buf refl,
        ) in
      rw (cleared, slice_from-append 82 (replicate 82 0) (drop 82 buf) refl, sentinel)
