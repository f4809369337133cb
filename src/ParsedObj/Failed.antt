-- ===== src/ParsedObj/Failed.antt =====
-- parsed_obj.rs: what is left of the object when a reading fails.
use ledger_stacks.Base.{
  ==_iff, Bool, ◌≡◌, refl, ◌⊎◌, ◌==◌, length, true, Bool-cases, inl, inr, subst,
}
use ledger_stacks.Error.{
  Result, ok, err, panic, out_of_fuel, ◌>>=◌, >>=-eq-ok, ParserError, parser_no_data,
  parser_unexpected_error,
}
use ledger_stacks.Crates.{Crates, Iterator, Bytes}
use ledger_stacks.Message
use ledger_stacks.Jwt
use ledger_stacks.Jwt.{TokenCrates}
use ledger_stacks.StructuredMsg
use ledger_stacks.Transaction.State as State
use ledger_stacks.Transaction.State.{Transaction}
use ledger_stacks.Transaction.Failed.{Stopped}
use ledger_stacks.Transaction.Failed.Stops.{read-Stopped}
use ledger_stacks.ParsedObj.{
  ParsedObj, Tag, Obj, transaction_tag, message_tag, jwt_tag, structured_tag, invalid_tag, tx, msg,
  jwt, structured_msg, kept, held, left_by, read, read_obj, kind_of,
}

module _ ⦃crates : Crates⦄ ⦃iterator : Iterator⦄ ⦃token : TokenCrates⦄ where
  -- The parser of a kind ends with an error. That of a transaction has changed the one that is held:
  -- it has filled the parts in front of the one where it stopped, and left all parts from there on.
  -- The others leave the member of the union as it was.
  abbrev pub Fails : Bool → Transaction → Bytes → Tag → Obj → Obj → ParserError → Type 0
  Fails expert stale bytes transaction_tag old (tx t) e =
      (State.read expert (held stale old) bytes ≡ (t, err e))
      × Stopped expert bytes (held stale old) t e
  Fails expert stale bytes transaction_tag old _ e = ⊥
  Fails expert stale bytes message_tag old new e = (Message.from_bytes bytes ≡ err e) × (old ≡ new)
  Fails expert stale bytes jwt_tag old new e = (Jwt.from_bytes bytes ≡ err e) × (old ≡ new)
  Fails expert stale bytes structured_tag old new e =
      (StructuredMsg.from_bytes bytes ≡ err e) × (old ≡ new)
  Fails expert stale bytes invalid_tag old new e = (e ≡ parser_unexpected_error) × (old ≡ new)

  left_by-err :
      (m : Transaction × Result (Unit {0})) (o : Obj) (e : ParserError)
      → left_by m ≡ ok (o, err e)
      → (a : Transaction) × ((m ≡ (a, err e)) × (tx a ≡ o))
  left_by-err (t, ok _) o e h = cc
  left_by-err (t, err why) o e h = let same : why ≡ e = cc in (t, (rw same refl, cc))
  left_by-err (t, panic) o e h = cc
  left_by-err (t, out_of_fuel) o e h = cc

  kept-err :
      {A : Type 0} (old : Obj) (m : Result A) (make : A → Obj) (o : Obj) (e : ParserError)
      → kept old (m >>= λ a. ok (make a)) ≡ ok (o, err e)
      → (m ≡ err e) × (old ≡ o)
  kept-err old (ok a) make o e h = cc
  kept-err old (err why) make o e h = let same : why ≡ e = cc in (rw same refl, cc)
  kept-err old panic make o e h = cc
  kept-err old out_of_fuel make o e h = cc

  read_obj-Fails :
      (expert : Bool) (stale : Transaction) (t : Tag) (old o : Obj) (bytes : Bytes)
      (e : ParserError)
      → read_obj expert stale t old bytes ≡ ok (o, err e)
      → Fails expert stale bytes t old o e
  unfolding read_obj
  read_obj-Fails expert stale transaction_tag old o bytes e h =
      let (a, (run, same)) = left_by-err (State.read expert (held stale old) bytes) o e h in
      rw (← same) (run, read-Stopped expert (held stale old) a bytes e run)
  read_obj-Fails expert stale message_tag old o bytes e h =
      kept-err old (Message.from_bytes bytes) msg o e h
  read_obj-Fails expert stale jwt_tag old o bytes e h =
      kept-err old (Jwt.from_bytes bytes) jwt o e h
  read_obj-Fails expert stale structured_tag old o bytes e h =
      kept-err old (StructuredMsg.from_bytes bytes) structured_msg o e h
  read_obj-Fails expert stale invalid_tag old o bytes e h = (cc, cc)

  finished :
      (expert : Bool) (stale : Transaction) (p p' : ParsedObj) (bytes : Bytes) (t : Tag) (o : Obj)
      (answer : Result (Unit {0})) (e : ParserError)
      → kind_of bytes ≡ ok t
      → read_obj expert stale t p.obj bytes ≡ ok (o, answer)
      → ◌≡◌ {A = Result (ParsedObj × Result (Unit {0}))}
          (ok (record { tag = t; obj = o }, answer))
          (ok (p', err e))
      → (kind_of bytes ≡ ok p'.tag) × Fails expert stale bytes p'.tag p.obj p'.obj e
  finished expert stale p p' bytes t o answer e ht ho last =
      let same : ◌≡◌ {A = ParsedObj} (record { tag = t; obj = o }) p' = cc in
      let failed : answer ≡ err e = cc in
      subst
        (λ (q : ParsedObj).
          (kind_of bytes ≡ ok q.tag) × Fails expert stale bytes q.tag p.obj q.obj e)
        same (ht, read_obj-Fails expert stale t p.obj o bytes e (rw failed at ho))

  -- A reading that fails has found no data, and leaves the object as it was, or its error is that of
  -- the parser for the kind of the data. Then the tag is already that of the new data. A transaction
  -- that is not read whole is the member of the union nevertheless: its error names the part at which
  -- the reading stopped, the parts in front of it are those that their parsers read off the data one
  -- after the other, and all others, and in any case the signer, are those of the transaction that
  -- was there before. For the other kinds the member is the old one.
  pub read-Fails :
      (expert : Bool) (stale : Transaction) (p p' : ParsedObj) (bytes : Bytes) (e : ParserError)
      → read expert stale p bytes ≡ ok (p', err e)
      → ((length bytes ≡ 0) × ((p ≡ p') × (parser_no_data ≡ e)))
        ⊎ ((kind_of bytes ≡ ok p'.tag) × Fails expert stale bytes p'.tag p.obj p'.obj e)
  unfolding read
  read-Fails expert stale p p' bytes e h = elim (Bool-cases (length bytes == 0)) [
    | inl empty ↦ inl (none_left p p' bytes e empty (rw empty at h))
    | inr some_data ↦
        let (t, ht, rest) = >>=-eq-ok (kind_of bytes) _ (rw some_data at h) in
        let ((o, answer), ho, last) = >>=-eq-ok (read_obj expert stale t p.obj bytes) _ rest in
        inr (finished expert stale p p' bytes t o answer e ht ho last)
  ]
    where
      none_left :
          (p p' : ParsedObj) (bytes : Bytes) (e : ParserError)
          → (length bytes == 0) ≡ true
          → ◌≡◌ {A = Result (ParsedObj × Result (Unit {0}))}
              (ok (p, err parser_no_data))
              (ok (p', err e))
          → (length bytes ≡ 0) × ((p ≡ p') × (parser_no_data ≡ e))
      none_left p p' bytes e empty h = ((==_iff (length bytes) 0).0 empty, (cc, cc))
