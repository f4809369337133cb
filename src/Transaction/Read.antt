-- ===== src/Transaction/Read.antt =====
-- transaction.rs: `Transaction::read` on the wire format of SIP-005.
use ledger_stacks.Base.{
  ap, subst, ℕ, ◌^◌, ◌<◌, ◌≤◌, ◌≡◌, refl, List, [], ◌∷◌, ◌++◌, All, length, Bool, false, ◌&&◌, not,
  if◌then◌else◌, arith, length-append, Bool-cases, inl, inr,
}
use ledger_stacks.Error.{Result, ok, err, with_state-eq-ok, parser_invalid_transaction_payload}
use ledger_stacks.Crates.{
  Crates, Iterator, Bytes, to_be, be_u32-append, take-append_ok, array_ref-append,
}
use ledger_stacks.Common.HashMode.{invalid}
use ledger_stacks.Common.Limits.{num_supported_post_conditions}
use ledger_stacks.Common.TransactionVersion
use ledger_stacks.Common.TransactionVersion.{TransactionVersion}
use ledger_stacks.Auth
use ledger_stacks.Auth.{TransactionAuth}
use ledger_stacks.Auth.Wire
use ledger_stacks.Auth.Wire.{Authorization}
use ledger_stacks.Payload
use ledger_stacks.Payload.{TransactionPayload}
use ledger_stacks.PostCondition.Condition.Wire.{PostCondition}
use ledger_stacks.Transaction.PostConditions.{PostConditions}
use ledger_stacks.Transaction.PostConditions.RoundTrip
use ledger_stacks.Transaction.State.{
  Transaction, read, read_header, read_auth, read_transaction_modes, read_post_conditions,
  read_payload,
}

abbrev IsCondition : PostCondition → Type 0
IsCondition pc = ledger_stacks.PostCondition.Condition.Wire.IsValid pc

-- What stands before the payload.
pub record Preamble : Type 0 where
  pub version : TransactionVersion
  pub chain : ℕ
  pub authorization : Authorization
  pub modes : Bytes
  pub conditions : List PostCondition

abbrev pub encode : Preamble → Bytes → Bytes
encode w payload =
    (TransactionVersion.to_u8 w.version ∷ [])
    ++ (to_be 4 w.chain
        ++ (Wire.encode w.authorization ++ (w.modes ++ (RoundTrip.encode w.conditions ++ payload))))

abbrev pub IsValid : Preamble → Type 0
IsValid w =
    (w.chain < 2 ^ 32)
    × (Wire.IsValid w.authorization
        × ((length w.modes ≡ 2)
            × (All IsCondition w.conditions
                × (length w.conditions ≤ num_supported_post_conditions))))

abbrev pub kept : List PostCondition → PostConditions
kept pcs = record {
  conditions = RoundTrip.encodings pcs;
  num_items = RoundTrip.total_lines pcs;
  current_idx = 0;
}

guarded :
    (t t' : Transaction)
    → ◌≡◌ {A = Transaction × Result (Unit {0})}
        (if Payload.is_token_transfer_payload t.payload
            && not (Auth.is_standard_auth t.transaction_auth)
          then (t, err parser_invalid_transaction_payload)
          else (record t { signer = invalid }, ok tt))
        (t', ok tt)
    → ((Payload.is_token_transfer_payload t'.payload
          && not (Auth.is_standard_auth t'.transaction_auth))
        ≡ false)
      × (t'.signer ≡ invalid)
guarded t t' h =
    elim (Bool-cases (
      Payload.is_token_transfer_payload t.payload
      && not (Auth.is_standard_auth t.transaction_auth))) [
        | inl bad ↦ cc (ap (λ (r : Transaction × Result (Unit {0})). r.1) (rw bad at h))
        | inr good ↦
            let same : record t { signer = invalid } ≡ t' =
              ap (λ (r : Transaction × Result (Unit {0})). r.0) (rw good at h) in
            subst
              (λ t'.
                ((Payload.is_token_transfer_payload t'.payload
                    && not (Auth.is_standard_auth t'.transaction_auth))
                  ≡ false)
                × (t'.signer ≡ invalid))
              same (good, refl)
      ]

module _ ⦃crates : Crates⦄ ⦃iterator : Iterator⦄ where
  -- A transaction that is read is no sponsored token transfer, and its signer is not known yet.
  pub read-guard :
      (expert : Bool) (t t' : Transaction) (bytes : Bytes)
      → read expert t bytes ≡ (t', ok tt)
      → ((Payload.is_token_transfer_payload t'.payload
            && not (Auth.is_standard_auth t'.transaction_auth))
          ≡ false)
        × (t'.signer ≡ invalid)
  unfolding read
  read-guard expert t t' bytes h =
      let (t1, (h1, k1)) =
        with_state-eq-ok (record t { remainder = bytes })
          (read_header (record t { remainder = bytes })) _ h in
      let (t2, (h2, k2)) = with_state-eq-ok (t1) (read_auth t1) _ k1 in
      let (t3, (h3, k3)) = with_state-eq-ok (t2) (read_transaction_modes t2) _ k2 in
      let (t4, (h4, k4)) = with_state-eq-ok (t3) (read_post_conditions t3) _ k3 in
      let (t5, (h5, k5)) = with_state-eq-ok (t4) (read_payload expert t4) _ k4 in guarded t5 t' k5

  -- The fields of a valid transaction of less than 2^32 bytes are read whatever its payload is, if
  -- the payload is one that its parser reads; a sponsored token transfer is refused, after all of its
  -- fields but the signer were written.
  pub read-encode :
      (expert : Bool) (t : Transaction) (w : Preamble) (bytes rem : Bytes) (p : TransactionPayload)
      → IsValid w
      → length (encode w bytes) < 2 ^ 32
      → Payload.payload_from_bytes expert bytes ≡ ok (rem, p)
      → (a : TransactionAuth) × (Wire.Shows a w.authorization
          × (read expert t (encode w bytes) ≡ (
              if Payload.is_token_transfer_payload p && not (Auth.is_standard_auth a)
              then (
                record {
                  version = w.version;
                  chain_id = w.chain;
                  transaction_auth = a;
                  transaction_modes = w.modes;
                  post_conditions = kept w.conditions;
                  payload = p;
                  signer = t.signer;
                  remainder = rem;
                },
                err parser_invalid_transaction_payload,
              )
              else (
                record {
                  version = w.version;
                  chain_id = w.chain;
                  transaction_auth = a;
                  transaction_modes = w.modes;
                  post_conditions = kept w.conditions;
                  payload = p;
                  signer = invalid;
                  remainder = rem;
                },
                ok tt,
              ))))
  unfolding read read_header read_auth read_transaction_modes read_post_conditions read_payload
  read-encode expert t w bytes rem p (chain, (auth, (modes, (conditions, few)))) small parsed =
      let tail = RoundTrip.encode w.conditions ++ bytes in
      let fits : length tail < 2 ^ 32 = omega (
        arith,
        small,
        length-append (Wire.encode w.authorization) (w.modes ++ tail),
        length-append w.modes tail,
      ) in
      let (a, (e, shows)) = Wire.auth_from_bytes-encode w.authorization (w.modes ++ tail) auth in
      (
        a,
        (
          shows,
          rw (
            TransactionVersion.TransactionVersion-Codec.decodes w.version
                (to_be 4 w.chain ++ (Wire.encode w.authorization ++ (w.modes ++ tail))) tt,
            be_u32-append w.chain (Wire.encode w.authorization ++ (w.modes ++ tail)) chain,
            e,
            take-append_ok 2 w.modes tail modes,
            array_ref-append 2 w.modes tail modes,
            RoundTrip.from_bytes-encode-All w.conditions bytes conditions few fits,
            parsed,
          ),
        ),
      )
