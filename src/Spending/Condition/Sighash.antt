-- ===== src/Spending/Condition/Sighash.antt =====
-- spending_condition.rs: `init_sighash`, the condition as it stands before anyone has signed.
use ledger_stacks.Base.{
  ℕ, ◌≡◌, ◌≤◌, ◌&&◌, refl, ◌++◌, length, true, Bool-cases, inl, inr, arith, leb, leb→le,
  length-append, length-drop, drop, replicate, drop-append,
}
use ledger_stacks.Error.{ok_or, ok, >>=-eq-ok, ok-subst, parser_no_data}
use ledger_stacks.Crates.{Crates, Bytes, IResult, to_be}
use ledger_stacks.Spending.Condition.{
  TransactionSpendingCondition, init_sighash, is_singlesig, is_multisig, required_signatures,
  standard_singlesig_auth_len, standard_multisig_auth_len,
}

-- `n` bytes at the front were written, and nothing else.
abbrev pub FrontWritten : Bytes → Bytes → ℕ → Type 0
FrontWritten buf buf' n =
    (n ≤ length buf) × ((length buf' ≡ length buf) × (drop n buf' ≡ drop n buf))

pub front_written :
    (n : ℕ) (front buf : Bytes)
    → length front ≡ n
    → n ≤ length buf
    → FrontWritten buf (front ++ drop n buf) n
front_written n front buf size enough = (
  enough,
  (
    omega (arith, size, length-append front (drop n buf), length-drop n buf),
    drop-append n front (drop n buf) size,
  ),
)

module _ ⦃crates : Crates⦄ where
  multisig_written :
      (buf buf' : Bytes) (count n : ℕ)
      → leb standard_multisig_auth_len (length buf) ≡ true
      → ◌≡◌ {A = IResult ℕ}
          (ok (
            replicate 20 0 ++ (to_be 2 count ++ drop standard_multisig_auth_len buf),
            standard_multisig_auth_len,
          ))
          (ok (buf', n))
      → FrontWritten buf buf' n
  multisig_written buf buf' count n enough e =
      let front = replicate 20 0 ++ to_be 2 count in
      let size : length front ≡ 22 = refl in
      ok-subst (λ b n. FrontWritten buf b n)
        (front_written 22 front buf size (leb→le 22 (length buf) enough)) e

  -- A buffer that is filled keeps its length and all its bytes behind the reported ones.
  pub init_sighash_writes :
      (c : TransactionSpendingCondition) (buf buf' : Bytes) (n : ℕ)
      → init_sighash c buf ≡ ok (buf', n)
      → FrontWritten buf buf' n
  unfolding init_sighash
  init_sighash_writes c buf buf' n h =
      elim (Bool-cases (is_singlesig c && leb standard_singlesig_auth_len (length buf))) [
        | inl single ↦
            let e : ◌≡◌ {A = IResult ℕ}
                (ok (
                  replicate standard_singlesig_auth_len 0 ++ drop standard_singlesig_auth_len buf,
                  standard_singlesig_auth_len,
                ))
                (ok (buf', n)) =
              rw single at h in
            ok-subst (λ b n. FrontWritten buf b n)
              (front_written standard_singlesig_auth_len (replicate standard_singlesig_auth_len 0)
                buf refl (ground (arith, single)))
              e
        | inr other ↦
            elim (Bool-cases (is_multisig c && leb standard_multisig_auth_len (length buf))) [
              | inl many ↦
                  let (found, hf, h') =
                    >>=-eq-ok (required_signatures c) _ (rw (other, many) at h) in
                  let (count, hc, e) = >>=-eq-ok (ok_or parser_no_data found) _ h' in
                  multisig_written buf buf' count n (ground (arith, many)) e
              | inr neither ↦ cc (rw (other, neither) at h)
            ]
      ]
