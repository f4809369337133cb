-- ===== src/Transaction/Failed/Steps.antt =====
-- transaction.rs: what each step of `Transaction::read` writes, and its error.
use ledger_stacks.Base.{◌≡◌, refl, subst, ◌⊎◌, inl, inr, Bool, ap}
use ledger_stacks.Error.{
  Result, ok, err, panic, out_of_fuel, ◌>>=◌, >>=-eq-ok, map_err, with_state, ParserError,
  parser_unexpected_value, parser_invalid_auth_type, parser_unexpected_buffer_end,
  parser_post_condition_failed, parser_invalid_transaction_payload,
}
use ledger_stacks.Crates.{Crates, Iterator, Bytes}
use ledger_stacks.Common.TransactionVersion
use ledger_stacks.Auth
use ledger_stacks.Payload
use ledger_stacks.Transaction.PostConditions
use ledger_stacks.Transaction.FromBytes.Agree.{taken_twice}
use ledger_stacks.Transaction.State.{
  Transaction, read_header, read_auth, read_transaction_modes, read_post_conditions, read_payload,
}
use ledger_stacks.Transaction.Failed.{
  at_header, at_auth, at_modes, at_conditions, at_payload, at_guard, refused, At,
}

pub with_state-eq-err :
    {S A B : Type 0} (s : S) (m : Result A) (next : A → S × Result B) {s' : S} {e : ParserError}
    → ◌≡◌ {A = S × Result B} (with_state s m next) (s', err e)
    → ((m ≡ err e) × (s ≡ s')) ⊎ ((a : A) × ((m ≡ ok a) × (next a ≡ (s', err e))))
with_state-eq-err s (ok a) next h = inr (a, (refl, h))
with_state-eq-err s (err why) next {e = e} h =
    let same : why ≡ e = cc (ap (λ (r : _ × _). r.1) h) in
    inl (rw same refl, ap (λ (r : _ × _). r.0) h)
with_state-eq-err s panic next h = cc (ap (λ (r : _ × _). r.1) h)
with_state-eq-err s out_of_fuel next h = cc (ap (λ (r : _ × _). r.1) h)

>>=-eq-err :
    {A B : Type 0} (m : Result A) (f : A → Result B) {e : ParserError}
    → (m >>= f) ≡ err e
    → (m ≡ err e) ⊎ ((a : A) × ((m ≡ ok a) × (f a ≡ err e)))
>>=-eq-err (ok a) f h = inr (a, (refl, h))
>>=-eq-err (err why) f {e} h = let same : why ≡ e = cc in inl (rw same refl)
>>=-eq-err panic f h = cc
>>=-eq-err out_of_fuel f h = cc

map_err-eq-err :
    {A : Type 0} (to : ParserError) (m : Result A) {e : ParserError} → map_err to m ≡ err e → e ≡ to
map_err-eq-err to (ok a) h = cc
map_err-eq-err to (err why) h = cc
map_err-eq-err to panic h = cc
map_err-eq-err to out_of_fuel h = cc

-- A step that fails has the error of its one parser.
one_error :
    {A B : Type 0} (to : ParserError) (m : Result A) (make : A → B) {e : ParserError}
    → (map_err to m >>= λ a. ok (make a)) ≡ err e
    → e ≡ to
one_error to m make h = elim (>>=-eq-err (map_err to m) _ h) [
  | inl bad ↦ map_err-eq-err to m bad
  | inr (a, (_, last)) ↦ cc
]

map_err-eq-ok :
    {A : Type 0} (to : ParserError) (m : Result A) {a : A} → map_err to m ≡ ok a → m ≡ ok a
map_err-eq-ok to (ok a) h = h
map_err-eq-ok to (err why) h = cc
map_err-eq-ok to panic h = cc
map_err-eq-ok to out_of_fuel h = cc

module _ ⦃crates : Crates⦄ where
  pub read_header-err :
      (t : Transaction) (e : ParserError) → read_header t ≡ err e → e ≡ refused at_header
  unfolding read_header
  read_header-err t e h =
      elim (>>=-eq-err (map_err parser_unexpected_value (TransactionVersion.from_bytes t.remainder))
        _ h) [
          | inl bad ↦ map_err-eq-err _ (TransactionVersion.from_bytes t.remainder) bad
          | inr ((r, v), (_, rest)) ↦ one_error parser_unexpected_value (crates.be_u32 r) _ rest
        ]

  pub read_auth-err :
      (t : Transaction) (e : ParserError) → read_auth t ≡ err e → e ≡ refused at_auth
  unfolding read_auth
  read_auth-err t e h = one_error parser_invalid_auth_type (Auth.from_bytes t.remainder) _ h

  pub read_transaction_modes-err :
      (t : Transaction) (e : ParserError) → read_transaction_modes t ≡ err e → e ≡ refused at_modes
  unfolding read_transaction_modes
  read_transaction_modes-err t e h =
      elim (>>=-eq-err (map_err parser_unexpected_buffer_end (crates.take 2 t.remainder)) _ h) [
        | inl bad ↦ map_err-eq-err _ (crates.take 2 t.remainder) bad
        | inr (a, (there, rest)) ↦
            let (cut, _) =
              taken_twice t.remainder a (map_err-eq-ok _ (crates.take 2 t.remainder) there) in
            cc (rw cut at rest)
      ]

  pub read_payload-err :
      (expert : Bool) (t : Transaction) (e : ParserError)
      → read_payload expert t ≡ err e
      → e ≡ refused at_payload
  unfolding read_payload
  read_payload-err expert t e h =
      one_error parser_invalid_transaction_payload (Payload.payload_from_bytes expert t.remainder) _
        h

module _ ⦃crates : Crates⦄ ⦃iterator : Iterator⦄ where
  pub read_post_conditions-err :
      (t : Transaction) (e : ParserError)
      → read_post_conditions t ≡ err e
      → e ≡ refused at_conditions
  unfolding read_post_conditions
  read_post_conditions-err t e h =
      one_error parser_post_condition_failed (PostConditions.from_bytes t.remainder) _ h

  pub read_header-ok :
      (expert : Bool) (bytes : Bytes) (old t' : Transaction)
      → read_header (record old { remainder = bytes }) ≡ ok t'
      → At at_auth expert bytes old t'
  unfolding read_header
  read_header-ok expert bytes old t' h =
      let ((r, v), hv, rest) =
        >>=-eq-ok (map_err parser_unexpected_value (TransactionVersion.from_bytes bytes)) _ h in
      let ((r', c), hc, last) =
        >>=-eq-ok (map_err parser_unexpected_value (crates.be_u32 r)) _ rest in
      let same : record old { version = v; chain_id = c; remainder = r' } ≡ t' = cc in
      subst (λ (u : Transaction). At at_auth expert bytes old u) same
        (
          (refl, (refl, (refl, (refl, refl)))),
          (
            r,
            (
              map_err-eq-ok _ (TransactionVersion.from_bytes bytes) hv,
              map_err-eq-ok _ (crates.be_u32 r) hc,
            ),
          ),
        )

  pub read_auth-ok :
      (expert : Bool) (bytes : Bytes) (old t t' : Transaction)
      → At at_auth expert bytes old t
      → read_auth t ≡ ok t'
      → At at_modes expert bytes old t'
  unfolding read_auth
  read_auth-ok expert bytes old t t' at h =
      let ((r, a), ha, last) =
        >>=-eq-ok (map_err parser_invalid_auth_type (Auth.from_bytes t.remainder)) _ h in
      let same : record t { transaction_auth = a; remainder = r } ≡ t' = cc in
      subst (λ (u : Transaction). At at_modes expert bytes old u) same
        (at.0.1, (t.remainder, (at.1, map_err-eq-ok _ (Auth.from_bytes t.remainder) ha)))

  pub read_transaction_modes-ok :
      (expert : Bool) (bytes : Bytes) (old t t' : Transaction)
      → At at_modes expert bytes old t
      → read_transaction_modes t ≡ ok t'
      → At at_conditions expert bytes old t'
  unfolding read_transaction_modes
  read_transaction_modes-ok expert bytes old t t' at h =
      let (a, ha, rest) =
        >>=-eq-ok (map_err parser_unexpected_buffer_end (crates.take 2 t.remainder)) _ h in
      let there = map_err-eq-ok _ (crates.take 2 t.remainder) ha in
      let (cut, _) = taken_twice t.remainder a there in
      let last = rw cut at rest in
      let same : record t { transaction_modes = a.1; remainder = a.0 } ≡ t' = cc in
      subst (λ (u : Transaction). At at_conditions expert bytes old u) same
        (at.0.1, (t.remainder, (at.1, there)))

  pub read_payload-ok :
      (expert : Bool) (bytes : Bytes) (old t t' : Transaction)
      → At at_payload expert bytes old t
      → read_payload expert t ≡ ok t'
      → At at_guard expert bytes old t'
  unfolding read_payload
  read_payload-ok expert bytes old t t' at h =
      let ((r, p), hp, last) =
        >>=-eq-ok
          (map_err parser_invalid_transaction_payload
            (Payload.payload_from_bytes expert t.remainder))
          _ h in
      let same : record t { payload = p; remainder = r } ≡ t' = cc in
      subst (λ (u : Transaction). At at_guard expert bytes old u) same
        (
          at.0.1,
          (t.remainder, (at.1, map_err-eq-ok _ (Payload.payload_from_bytes expert t.remainder) hp)),
        )

  pub read_post_conditions-ok :
      (expert : Bool) (bytes : Bytes) (old t t' : Transaction)
      → At at_conditions expert bytes old t
      → read_post_conditions t ≡ ok t'
      → At at_payload expert bytes old t'
  unfolding read_post_conditions
  read_post_conditions-ok expert bytes old t t' at h =
      let ((r, p), hp, last) =
        >>=-eq-ok (map_err parser_post_condition_failed (PostConditions.from_bytes t.remainder)) _
          h in
      let same : record t { post_conditions = p; remainder = r } ≡ t' = cc in
      subst (λ (u : Transaction). At at_payload expert bytes old u) same
        (at.0.1, (t.remainder, (at.1, map_err-eq-ok _ (PostConditions.from_bytes t.remainder) hp)))
