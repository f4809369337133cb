-- ===== src/Transaction/Failed/Stops.antt =====
-- transaction.rs: where a `Transaction::read` that fails has stopped.
use ledger_stacks.Base.{
  ◌≡◌, refl, sym, subst, inl, inr, ◌&&◌, not, Bool, true, false, if◌then◌else◌, ap,
}
use ledger_stacks.Error.{Result, ok, err, ParserError, parser_invalid_transaction_payload}
use ledger_stacks.Crates.{Crates, Iterator, Bytes}
use ledger_stacks.Common.HashMode.{invalid}
use ledger_stacks.Auth
use ledger_stacks.Payload
use ledger_stacks.Transaction.State.{
  Transaction, read, read_header, read_auth, read_transaction_modes, read_post_conditions,
  read_payload,
}
use ledger_stacks.Transaction.Failed.{
  Stage, at_header, at_auth, at_modes, at_conditions, at_payload, at_guard, refused, At, Stopped,
}
use ledger_stacks.Transaction.Failed.Steps.{
  with_state-eq-err, read_header-err, read_auth-err, read_transaction_modes-err, read_payload-err,
  read_post_conditions-err, read_header-ok, read_auth-ok, read_transaction_modes-ok,
  read_payload-ok, read_post_conditions-ok,
}

module _ ⦃crates : Crates⦄ ⦃iterator : Iterator⦄ where
  stopped :
      (s : Stage) (expert : Bool) (bytes : Bytes) (old t new : Transaction) (e : ParserError)
      → At s expert bytes old t
      → t ≡ new
      → e ≡ refused s
      → Stopped expert bytes old new e
  stopped s expert bytes old t new e at same why =
      let (kept, reads) = subst (λ (u : Transaction). At s expert bytes old u) same at in
      (s, (kept, (reads, why)))

  guard_stops :
      (bad expert : Bool) (bytes : Bytes) (old t5 new : Transaction) (e : ParserError)
      → At at_guard expert bytes old t5
      → ◌≡◌ {A = Transaction × Result (Unit {0})}
          (if bad
            then (t5, err parser_invalid_transaction_payload)
            else (record t5 { signer = invalid }, ok tt))
          (new, err e)
      → Stopped expert bytes old new e
  guard_stops true expert bytes old t5 new e at h =
      let why : parser_invalid_transaction_payload ≡ e =
        cc (ap (λ (r : Transaction × Result (Unit {0})). r.1) h) in
      stopped at_guard expert bytes old t5 new e at
        (ap (λ (r : Transaction × Result (Unit {0})). r.0) h) (sym why)
  guard_stops false expert bytes old t5 new e at h =
      cc (ap (λ (r : Transaction × Result (Unit {0})). r.1) h)

  pub read-Stopped :
      (expert : Bool) (old new : Transaction) (bytes : Bytes) (e : ParserError)
      → read expert old bytes ≡ (new, err e)
      → Stopped expert bytes old new e
  unfolding read
  read-Stopped expert old new bytes e h =
      let t0 = record old { remainder = bytes } in
      elim (with_state-eq-err t0 (read_header t0) _ h) [
        | inl (bad, same) ↦
            stopped at_header expert bytes old t0 new e
              ((refl, (refl, (refl, (refl, (refl, (refl, refl)))))), refl) same
              (read_header-err t0 e bad)
        | inr (t1, (h1, more1)) ↦
            let k1 = read_header-ok expert bytes old t1 h1 in
            elim (with_state-eq-err t1 (read_auth t1) _ more1) [
              | inl (bad, same) ↦
                  stopped at_auth expert bytes old t1 new e k1 same (read_auth-err t1 e bad)
              | inr (t2, (h2, more2)) ↦
                  let k2 = read_auth-ok expert bytes old t1 t2 k1 h2 in
                  elim (with_state-eq-err t2 (read_transaction_modes t2) _ more2) [
                    | inl (bad, same) ↦
                        stopped at_modes expert bytes old t2 new e k2 same
                          (read_transaction_modes-err t2 e bad)
                    | inr (t3, (h3, more3)) ↦
                        let k3 = read_transaction_modes-ok expert bytes old t2 t3 k2 h3 in
                        elim (with_state-eq-err t3 (read_post_conditions t3) _ more3) [
                          | inl (bad, same) ↦
                              stopped at_conditions expert bytes old t3 new e k3 same
                                (read_post_conditions-err t3 e bad)
                          | inr (t4, (h4, more4)) ↦
                              let k4 = read_post_conditions-ok expert bytes old t3 t4 k3 h4 in
                              elim (with_state-eq-err t4 (read_payload expert t4) _ more4) [
                                | inl (bad, same) ↦
                                    stopped at_payload expert bytes old t4 new e k4 same
                                      (read_payload-err expert t4 e bad)
                                | inr (t5, (h5, last)) ↦
                                    guard_stops
                                      (Payload.is_token_transfer_payload t5.payload
                                        && not (Auth.is_standard_auth t5.transaction_auth))
                                      expert bytes old t5 new e
                                      (read_payload-ok expert bytes old t4 t5 k4 h5) last
                              ]
                        ]
                  ]
            ]
      ]
