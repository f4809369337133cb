-- ===== src/PostCondition/Condition/Agree.antt =====
-- post_condition.rs: `read_as_bytes` against `from_bytes`.
use ledger_stacks.Base.{
  ℕ, suc, ◌+◌, ◌-◌, ◌^◌, ◌<◌, ◌≤◌, ◌≡◌, refl, ap, ◌∷◌, [], length, arith, length-append,
}
use ledger_stacks.Error.{ok, ◌>>=◌, >>=-eq-ok, ok-subst}
use ledger_stacks.Crates.{Crates, Bytes, IResult, le_u8-cons, le_u8-nil, take-cons, take_splits}
use ledger_stacks.Common.AssetInfo
use ledger_stacks.Common.Limits.{tx_depth_limit}
use ledger_stacks.Value.Len.{add_usize, value_len}
use ledger_stacks.PostCondition.Principal
use ledger_stacks.PostCondition.Principal.{PostConditionPrincipal, read_bytes_of}
use ledger_stacks.PostCondition.Principal.RoundTrip
use ledger_stacks.PostCondition.Codes.{
  PostConditionType, type_to_u8, type_try_from, type_to_u8_unique, fungible_token,
  non_fungible_token,
}
use ledger_stacks.PostCondition.Condition.{
  TransactionPostCondition, stx, fungible, nonfungible, body, body_len, from_bytes, read_as_bytes,
  inner,
}

-- The type byte of a condition.
abbrev pub type_byte : TransactionPostCondition → ℕ
type_byte (stx _) = 0
type_byte (fungible _) = 1
type_byte (nonfungible _) = 2

module _ ⦃crates : Crates⦄ where
  -- One byte more than a `take` that succeeds, with the byte in front.
  longer :
      (n b : ℕ) (raw : Bytes) {rem x : Bytes}
      → crates.take n raw ≡ ok (rem, x)
      → crates.take (suc n) (b ∷ raw) ≡ ok (rem, b ∷ x)
  longer n b raw h = rw (take-cons n (suc n) b raw refl, h)

  -- The length that a `take` was given is no more than its input's.
  within : (n : ℕ) (raw : Bytes) {rem x : Bytes} → crates.take n raw ≡ ok (rem, x) → n ≤ length raw
  within n raw {rem} {x} h =
      let (e, size) = take_splits n raw h in omega (arith, ap length e, size, length-append x rem)

  principal_shorter :
      (raw rem x : Bytes) → Principal.read_as_bytes raw ≡ ok (rem, x) → length rem ≤ length raw
  principal_shorter raw rem x h =
      let ((r, p), hp, e) =
        >>=-eq-ok (Principal.from_bytes raw) _ (rw RoundTrip.principal_read_as_bytes-eq at h) in
      let (s, _) = RoundTrip.Principal-Codec.splits raw r p hp in
      let same : r ≡ rem = cc in
      omega (arith, ap length s, ap length same, length-append (Principal.encode p) r)

  module _ (raw rem : Bytes) (shorter : length rem ≤ length raw)
      (small : length raw + 1 < 2 ^ 32) where
    -- The rest of `read_as_bytes`, after the type byte `b`.
    abbrev taken : ℕ → PostConditionType → IResult Bytes
    taken b t = do
      len ← body_len t rem
      crates.take (add_usize (length (b ∷ raw) - length rem) len) (b ∷ raw)

    grown :
        (b n m : ℕ) {rest x : Bytes}
        → crates.take n raw ≡ ok (rest, x)
        → (n < 2 ^ 32 - 1 → m ≡ suc n)
        → crates.take m (b ∷ raw) ≡ ok (rest, b ∷ x)
    grown b n m h e = rw (e (omega (arith, within n raw h))) (longer n b raw h)

    -- The result of the body, kept.
    abbrev Kept : PostConditionType → Bytes → TransactionPostCondition → Type 0
    Kept t rest c = taken (type_to_u8 t) t ≡ ok (rest, type_byte c ∷ inner c)

    body-taken :
        (t : PostConditionType) (rest : Bytes) (c : TransactionPostCondition)
        → body t raw rem ≡ ok (rest, c)
        → taken (type_to_u8 t) t ≡ ok (rest, type_byte c ∷ inner c)
    body-taken PostConditionType.stx rest c h =
        let ((r, x), hx, e) = >>=-eq-ok (crates.take (length raw - length rem + 1 + 8) raw) _ h in
        ok-subst (Kept PostConditionType.stx)
          (grown 0 (length raw - length rem + 1 + 8) (add_usize (suc (length raw) - length rem) 9)
            hx λ b. omega (arith, shorter, b))
          e
    body-taken fungible_token rest c h =
        let ((r, asset), ha, h') = >>=-eq-ok (AssetInfo.read_as_bytes rem) _ h in
        let n = length raw - length rem + length asset + 1 + 8 in
        let ((r', x), hx, e) = >>=-eq-ok (crates.take n raw) _ h' in
        ok-subst (Kept fungible_token)
          (rw ha (
            grown 1 n (add_usize (suc (length raw) - length rem) (length asset + 9)) hx
              λ b. omega (arith, shorter, b)))
          e
    body-taken non_fungible_token rest c h =
        let ((value, asset), ha, h') = >>=-eq-ok (AssetInfo.read_as_bytes rem) _ h in
        let (len, hl, h'') = >>=-eq-ok (value_len tx_depth_limit value) _ h' in
        let n = add_usize (add_usize (length raw - length rem + length asset) len) 1 in
        let ((r', x), hx, e) = >>=-eq-ok (crates.take n raw) _ h'' in
        ok-subst (Kept non_fungible_token)
          (rw (ha, hl)
            (grown 2 n
              (add_usize (suc (length raw) - length rem)
                (add_usize (add_usize (length asset) len) 1))
              hx λ b. omega (arith, shorter, b)))
          e

  -- What `from_bytes` reads of less than 2^32 bytes, `read_as_bytes` takes with its type byte.
  pub read_as_bytes-from_bytes :
      (bs rest : Bytes) (c : TransactionPostCondition)
      → length bs < 2 ^ 32
      → from_bytes bs ≡ ok (rest, c)
      → read_as_bytes bs ≡ ok (rest, type_byte c ∷ inner c)
  unfolding from_bytes read_as_bytes
  read_as_bytes-from_bytes [] rest c small h = cc (rw le_u8-nil at h)
  read_as_bytes-from_bytes (b ∷ raw) rest c small h =
      let ((rem, x), hp, h') = >>=-eq-ok (Principal.read_as_bytes raw) _ (rw le_u8-cons at h) in
      let (t, ht, h'') = >>=-eq-ok (type_try_from b) _ h' in
      let same = type_to_u8_unique b t ht in
      rw (le_u8-cons, hp, ht, ← same)
        (body-taken raw rem (principal_shorter raw rem x hp) (omega (arith, small)) t rest c h'')
