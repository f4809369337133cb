-- ===== src/PostCondition/Principal/RoundTrip.antt =====
-- post_condition.rs: the readers of `PostConditionPrincipal` against the wire format.
use ledger_stacks.Base.{
  ℕ, ◌+◌, ◌≡◌, refl, ap, ◌∷◌, ◌++◌, [], length, arith, append_assoc, length-append, ◌↔◌,
}
use ledger_stacks.Error.{
  Result, ok, ◌>>=◌, Returns, Returns->>=, >>=-eq-ok, >>=-assoc, ok-subst, >>=-ap,
}
use ledger_stacks.Crates.{
  Crates, Bytes, IResult, Codec, le_u8-cons, le_u8-nil, Returns-le_u8, take-cons, take-append_ok,
  Codec-iff,
}
use ledger_stacks.Common.StacksAddress
use ledger_stacks.Common.StacksAddress.{StacksAddress}
use ledger_stacks.Common.ContractName
use ledger_stacks.Common.ContractName.{ContractName}
use ledger_stacks.PostCondition.Principal.{
  PostConditionPrincipalId, PostConditionPrincipal, origin_id, standard_id, contract_id, origin,
  standard, contract, to_u8, try_from, payload, from_bytes, read_as_bytes, payload_bytes, encode,
  IsValid, read_bytes_of, hash160_len,
}

try_from-to_u8 : (id : PostConditionPrincipalId) → try_from (to_u8 id) ≡ ok id
unfolding try_from
try_from-to_u8 origin_id = refl
try_from-to_u8 _ = refl

to_u8_unique : (n : ℕ) (id : PostConditionPrincipalId) → try_from n ≡ ok id → to_u8 id ≡ n
unfolding try_from
to_u8_unique n id h = ground arith

Returns-try_from : (n : ℕ) → Returns (try_from n)
unfolding try_from
Returns-try_from n = ground arith

module _ ⦃crates : Crates⦄ where
  decodes_lem :
      (p : PostConditionPrincipal) (rest : Bytes)
      → IsValid p
      → from_bytes (encode p ++ rest) ≡ ok (rest, p)
  unfolding from_bytes
  decodes_lem origin rest _ = rw (le_u8-cons, try_from-to_u8 origin_id)
  decodes_lem (standard a) rest v =
      rw
        (le_u8-cons, try_from-to_u8 standard_id, StacksAddress.StacksAddress-Codec.decodes a rest v)
  decodes_lem (contract a n) rest (va, vn) = rw (
    le_u8-cons,
    try_from-to_u8 contract_id,
    append_assoc,
    StacksAddress.StacksAddress-Codec.decodes a (ContractName.encode n ++ rest) va,
    ContractName.ContractName-Codec.decodes n rest vn,
  )

  read_as :
      (id : PostConditionPrincipalId) (bs : Bytes) {r rem : Bytes} {p p' : PostConditionPrincipal}
      → (encode p ++ r ≡ to_u8 id ∷ bs) × IsValid p
      → ◌≡◌ {A = IResult PostConditionPrincipal} (ok (r, p)) (ok (rem, p'))
      → (encode p' ++ rem ≡ to_u8 id ∷ bs) × IsValid p'
  read_as id bs h e = ok-subst (λ rem p. (encode p ++ rem ≡ to_u8 id ∷ bs) × IsValid p) h e

  payload_splits :
      (id : PostConditionPrincipalId) (bs rem : Bytes) (p : PostConditionPrincipal)
      → payload id bs ≡ ok (rem, p)
      → (encode p ++ rem ≡ to_u8 id ∷ bs) × IsValid p
  payload_splits origin_id bs rem p h = read_as origin_id bs (refl, tt) h
  payload_splits standard_id bs rem p h =
      let ((r, a), ha, e) = >>=-eq-ok (StacksAddress.from_bytes bs) _ h in
      let (s, v) = StacksAddress.StacksAddress-Codec.splits bs r a ha in
      read_as standard_id bs (ap (λ xs. 0x02 ∷ xs) s, v) e
  payload_splits contract_id bs rem p h =
      let ((r, a), ha, h') = >>=-eq-ok (StacksAddress.from_bytes bs) _ h in
      let (s, v) = StacksAddress.StacksAddress-Codec.splits bs r a ha in
      let ((r', n), hn, e) = >>=-eq-ok (ContractName.from_bytes r) _ h' in
      let (sn, vn) = ContractName.ContractName-Codec.splits r r' n hn in
      read_as contract_id bs (rw (append_assoc, sn, s), (v, vn)) e

  splits_lem :
      (bs rem : Bytes) (p : PostConditionPrincipal)
      → from_bytes bs ≡ ok (rem, p)
      → (encode p ++ rem ≡ bs) × IsValid p
  unfolding from_bytes
  splits_lem [] rem p h = cc (rw le_u8-nil at h)
  splits_lem (b ∷ bs) rem p h =
      let (id, e, h') = >>=-eq-ok (try_from b) _ (rw le_u8-cons at h) in
      let (s, v) = payload_splits id bs rem p h' in (cc (to_u8_unique b id e, s), v)

  Returns-payload : (id : PostConditionPrincipalId) (bs : Bytes) → Returns (payload id bs)
  Returns-payload origin_id bs = tt
  Returns-payload standard_id bs =
      Returns->>= (StacksAddress.from_bytes bs) _ (StacksAddress.StacksAddress-Codec.returns bs)
        λ _ _. tt
  Returns-payload contract_id bs =
      Returns->>= (StacksAddress.from_bytes bs) _ (StacksAddress.StacksAddress-Codec.returns bs)
        λ (r, _) _.
          Returns->>= (ContractName.from_bytes r) _ (ContractName.ContractName-Codec.returns r)
            λ _ _. tt

  pub Principal-Codec : Codec from_bytes encode IsValid
  unfolding from_bytes
  Principal-Codec = record {
    decodes = decodes_lem;
    splits = splits_lem;
    returns = λ bs. Returns->>= (crates.le_u8 bs) _ (Returns-le_u8 bs) λ (rem, b) _.
        Returns->>= (try_from b) _ (Returns-try_from b) λ id _. Returns-payload id rem;
  }

  taken_contract :
      (a : StacksAddress) (n : ContractName) (bs r r' : Bytes)
      → (a.bytes ++ r ≡ bs) × StacksAddress.IsValid a
      → ContractName.encode n ++ r' ≡ r
      → crates.take (hash160_len + ContractName.len n + 3) (0x03 ∷ bs)
        ≡ ok (r', 0x03 ∷ a.bytes ++ ContractName.encode n)
  taken_contract a n bs r r' (s, v) sn =
      let size : length (0x03 ∷ a.bytes ++ ContractName.encode n)
          ≡ hash160_len + ContractName.len n + 3 =
        omega (arith, length-append a.bytes (ContractName.encode n), v) in
      let whole : (0x03 ∷ a.bytes ++ ContractName.encode n) ++ r' ≡ 0x03 ∷ bs =
        rw (append_assoc, sn, s) in
      rw (← whole) (take-append_ok _ (0x03 ∷ a.bytes ++ ContractName.encode n) r' size)

  taken_payload :
      (id : PostConditionPrincipalId) (bs : Bytes)
      → payload_bytes id bs (to_u8 id ∷ bs)
        ≡ (payload id bs >>= λ (rem, p). ok (rem, read_bytes_of p))
  taken_payload origin_id bs = refl
  taken_payload standard_id bs =
      rw (StacksAddress.from_bytes-eq, take-cons 21 22 0x02 bs refl) (simp >>=-assoc)
  taken_payload contract_id bs = simp >>=-assoc (
      >>=-ap (StacksAddress.from_bytes bs) λ (r, a) ha.
        >>=-ap (ContractName.from_bytes r) λ (r', n) hn. rw (
          taken_contract a n bs r r' (StacksAddress.StacksAddress-Codec.splits bs r a ha)
            (ContractName.ContractName-Codec.splits r r' n hn).0))

  taken_id :
      (r : Result PostConditionPrincipalId) (b : ℕ) (bs : Bytes)
      → try_from b ≡ r
      → (r >>= λ id. payload_bytes id bs (b ∷ bs))
        ≡ ((r >>= λ id. payload id bs) >>= λ (rem, p). ok (rem, read_bytes_of p))
  taken_id (ok id) b bs e = rw (← to_u8_unique b id e) (taken_payload id bs)
  taken_id _ b bs e = refl

  -- The parser reads a principal exactly where its encoding stands, with an address of 21 bytes
  -- and an ASCII name that fits.
  pub principal_from_bytes_iff :
      (bs rem : Bytes) (p : PostConditionPrincipal)
      → (from_bytes bs ≡ ok (rem, p)) ↔ ((encode p ++ rem ≡ bs) × IsValid p)
  principal_from_bytes_iff bs rem p = Codec-iff Principal-Codec bs rem p

  -- The reader takes the bytes of the principal that the parser reads, and none for the origin,
  -- and fails as the parser does.
  pub principal_read_as_bytes-eq :
      (bs : Bytes) → read_as_bytes bs ≡ (do (rem, p) ← from_bytes bs; ok (rem, read_bytes_of p))
  unfolding read_as_bytes from_bytes
  principal_read_as_bytes-eq [] = rw le_u8-nil
  principal_read_as_bytes-eq (b ∷ bs) = rw le_u8-cons (taken_id (try_from b) b bs refl)
