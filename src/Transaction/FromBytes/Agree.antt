-- ===== src/Transaction/FromBytes/Agree.antt =====
-- transaction.rs: the two ways to parse a transaction, `read` and `from_bytes`.
use ledger_stacks.Base.{
  [], ◌++◌, length, length-append, ◌<◌, ◌^◌, arith, append-nil, ℕ, ◌≡◌, refl, ◌&&◌, not,
  if◌then◌else◌, Bool, true, false, ap,
}
use ledger_stacks.Error.{
  Result, ok, err, panic, out_of_fuel, >>=-eq-ok, parser_invalid_transaction_payload,
}
use ledger_stacks.Crates.{
  Crates, Iterator, Bytes, IResult, array_ref-append, take_splits, to_be, be_u32-append,
  take-append_ok,
}
use ledger_stacks.Common.HashMode.{invalid}
use ledger_stacks.Common.TransactionVersion
use ledger_stacks.Auth
use ledger_stacks.Payload
use ledger_stacks.Transaction.PostConditions
use ledger_stacks.Transaction.State.{
  Transaction, read, read_header, read_auth, read_transaction_modes, read_post_conditions,
  read_payload,
}
use ledger_stacks.Auth.Wire
use ledger_stacks.Transaction.PostConditions.RoundTrip
use ledger_stacks.Transaction.Read.{Preamble, encode, IsValid, kept}
use ledger_stacks.Transaction.FromBytes.{Permutation, TxTuple, in_sequence, from_bytes, from_tuple}

-- The transaction of a reading that succeeds, and otherwise its error.
abbrev pub result_of : Transaction × Result (Unit {0}) → Result Transaction
result_of (t, ok _) = ok t
result_of (t, err e) = err e
result_of (t, panic) = panic
result_of (t, out_of_fuel) = out_of_fuel

module _ ⦃crates : Crates⦄ where
  pub taken_twice :
      (bs : Bytes) (a : Bytes × Bytes)
      → crates.take 2 bs ≡ ok a
      → (crates.array_ref 0 2 bs ≡ ok a.1) × (crates.array_ref 0 2 a.1 ≡ ok a.1)
  taken_twice bs (rem, x) taken =
      let (whole, two) = take_splits 2 bs taken in
      (rw (← whole) (array_ref-append 2 x rem two), rw append-nil at (array_ref-append 2 x [] two))

module _ ⦃crates : Crates⦄ ⦃iterator : Iterator⦄ where
  -- The six parts of a transaction, one after the other.
  abbrev pub parts_of : Bool → Bytes → IResult TxTuple
  parts_of expert bytes =
      in_sequence TransactionVersion.from_bytes crates.be_u32 Auth.from_bytes (crates.take 2)
        PostConditions.from_bytes (Payload.payload_from_bytes expert) bytes

  guarded :
      (bad : Bool) (t5 t6 : Transaction)
      → t6 ≡ record t5 { signer = invalid }
      → (if bad then err parser_invalid_transaction_payload else ok t6)
        ≡ result_of (
            if bad
            then (t5, err parser_invalid_transaction_payload)
            else (record t5 { signer = invalid }, ok tt))
  guarded true t5 t6 e = refl
  guarded false t5 t6 e = ap (λ (u : Transaction). ok u) e

  finish :
      ⦃p : Permutation⦄ (expert : Bool) (t : Transaction) (bytes : Bytes)
      (a1 : Bytes × TransactionVersion.TransactionVersion) (a2 : Bytes × ℕ)
      (a3 : Bytes × Auth.TransactionAuth) (a4 : Bytes × Bytes)
      (a5 : Bytes × PostConditions.PostConditions) (a6 : Bytes × Payload.TransactionPayload)
      → TransactionVersion.from_bytes bytes ≡ ok a1
      → crates.be_u32 a1.0 ≡ ok a2
      → Auth.from_bytes a2.0 ≡ ok a3
      → crates.take 2 a3.0 ≡ ok a4
      → PostConditions.from_bytes a4.0 ≡ ok a5
      → Payload.payload_from_bytes expert a5.0 ≡ ok a6
      → from_bytes expert bytes ≡ result_of (read expert t bytes)
  unfolding read read_header read_auth read_transaction_modes read_post_conditions read_payload
      from_bytes from_tuple
  finish ⦃p⦄ expert t bytes a1 a2 a3 a4 a5 a6 e1 e2 e3 e4 e5 e6 =
      let (cut, again) = taken_twice a3.0 a4 e4 in
      let all : parts_of expert bytes
          ≡ ok (
            a6.0,
            record {
              version = a1.1;
              chain_id = a2.1;
              auth = a3.1;
              modes = a4.1;
              conditions = a5.1;
              payload = a6.1;
            },
          ) =
        rw (e1, e2, e3, e4, e5, e6) in
      rw
        (
          p.permutation_law TransactionVersion.from_bytes crates.be_u32 Auth.from_bytes
              (crates.take 2) PostConditions.from_bytes (Payload.payload_from_bytes expert) bytes _
              all,
          e1,
          e2,
          e3,
          e4,
          cut,
          again,
          e5,
          e6,
        )
        (guarded (Payload.is_token_transfer_payload a6.1 && not (Auth.is_standard_auth a3.1)) _ _
          refl)

  -- So do the parts of a valid transaction of less than 2^32 bytes.
  pub parts_of-encode :
      (expert : Bool) (w : Preamble) (bytes rem : Bytes) (p : Payload.TransactionPayload)
      → IsValid w
      → length (encode w bytes) < 2 ^ 32
      → Payload.payload_from_bytes expert bytes ≡ ok (rem, p)
      → (a : Auth.TransactionAuth) × (parts_of expert (encode w bytes)
          ≡ ok (
            rem,
            record {
              version = w.version;
              chain_id = w.chain;
              auth = a;
              modes = w.modes;
              conditions = kept w.conditions;
              payload = p;
            },
          ))
  parts_of-encode expert w bytes rem p (chain, (auth, (modes, (conditions, few)))) small parsed =
      let tail = RoundTrip.encode w.conditions ++ bytes in
      let fits : length tail < 2 ^ 32 = omega (
        arith,
        small,
        length-append (Wire.encode w.authorization) (w.modes ++ tail),
        length-append w.modes tail,
      ) in
      let (a, (e, _)) = Wire.auth_from_bytes-encode w.authorization (w.modes ++ tail) auth in
      (
        a,
        rw (
          TransactionVersion.TransactionVersion-Codec.decodes w.version
              (to_be 4 w.chain ++ (Wire.encode w.authorization ++ (w.modes ++ tail))) tt,
          be_u32-append w.chain (Wire.encode w.authorization ++ (w.modes ++ tail)) chain,
          e,
          take-append_ok 2 w.modes tail modes,
          RoundTrip.from_bytes-encode-All w.conditions bytes conditions few fits,
          parsed,
        ),
      )

  -- When the six parts of a transaction follow each other in the data, `from_bytes` gives the result
  -- of `read`: the same transaction, whatever transaction was read before, or the same error for a
  -- sponsored token transfer.
  pub from_bytes-read :
      ⦃p : Permutation⦄ (expert : Bool) (t : Transaction) (bytes : Bytes) (r : Bytes × TxTuple)
      → parts_of expert bytes ≡ ok r
      → from_bytes expert bytes ≡ result_of (read expert t bytes)
  from_bytes-read expert t bytes r h =
      let (a1, e1, h1) = >>=-eq-ok (TransactionVersion.from_bytes bytes) _ h in
      let (a2, e2, h2) = >>=-eq-ok (crates.be_u32 a1.0) _ h1 in
      let (a3, e3, h3) = >>=-eq-ok (Auth.from_bytes a2.0) _ h2 in
      let (a4, e4, h4) = >>=-eq-ok (crates.take 2 a3.0) _ h3 in
      let (a5, e5, h5) = >>=-eq-ok (PostConditions.from_bytes a4.0) _ h4 in
      let (a6, e6, h6) = >>=-eq-ok (Payload.payload_from_bytes expert a5.0) _ h5 in
      finish expert t bytes a1 a2 a3 a4 a5 a6 e1 e2 e3 e4 e5 e6
