-- ===== src/ParsedObj/Consistent.antt =====
-- parsed_obj.rs: the tag tells which member of the union was written.
use ledger_stacks.Base.{subst, ◌≡◌, refl, ◌==◌, length, Bool, Bool-cases, inl, inr}
use ledger_stacks.Error.{Result, ok, err, panic, out_of_fuel, ◌>>=◌, >>=-eq-ok}
use ledger_stacks.Crates.{Crates, Iterator, Bytes}
use ledger_stacks.Message
use ledger_stacks.Jwt
use ledger_stacks.Jwt.{TokenCrates}
use ledger_stacks.StructuredMsg
use ledger_stacks.Transaction.State as State
use ledger_stacks.Transaction.State.{Transaction}
use ledger_stacks.ParsedObj.{
  ParsedObj, Tag, Obj, transaction_tag, message_tag, jwt_tag, structured_tag, invalid_tag, tx, msg,
  jwt, structured_msg, kept, held, left_by, read, read_obj, kind_of,
}

-- The member that the tag names is the one that was written.
abbrev pub Matches : Tag → Obj → Type 0
Matches transaction_tag (tx t) = Unit
Matches message_tag (msg m) = Unit
Matches jwt_tag (jwt j) = Unit
Matches structured_tag (structured_msg m) = Unit
Matches _ _ = ⊥

-- What the parser of a kind gives for some bytes, of a transaction in place of the one that is held.
module _ ⦃crates : Crates⦄ ⦃iterator : Iterator⦄ ⦃token : TokenCrates⦄ where
  abbrev pub Parses : Bool → Transaction → Bytes → Tag → Obj → Type 0
  Parses expert stale bytes transaction_tag (tx t) = State.read expert stale bytes ≡ (t, ok tt)
  Parses expert stale bytes message_tag (msg m) = Message.from_bytes bytes ≡ ok m
  Parses expert stale bytes jwt_tag (jwt j) = Jwt.from_bytes bytes ≡ ok j
  Parses expert stale bytes structured_tag (structured_msg m) =
      StructuredMsg.from_bytes bytes ≡ ok m
  Parses expert stale bytes _ _ = ⊥

  kept-ok :
      {A : Type 0} (old : Obj) (m : Result A) (make : A → Obj) (o : Obj)
      → kept old (m >>= λ a. ok (make a)) ≡ ok (o, ok tt)
      → (a : A) × ((m ≡ ok a) × (make a ≡ o))
  kept-ok old (ok a) make o e = (a, (refl, cc))
  kept-ok old (err why) make o e = cc
  kept-ok old panic make o e = cc
  kept-ok old out_of_fuel make o e = cc

  left_by-ok :
      (m : Transaction × Result (Unit {0})) (o : Obj)
      → left_by m ≡ ok (o, ok tt)
      → (a : Transaction) × ((m ≡ (a, ok tt)) × (tx a ≡ o))
  left_by-ok (t, ok _) o e = (t, (refl, cc))
  left_by-ok (t, err why) o e = cc
  left_by-ok (t, panic) o e = cc
  left_by-ok (t, out_of_fuel) o e = cc

  read_obj-Parses :
      (expert : Bool) (stale : Transaction) (t : Tag) (old o : Obj) (bytes : Bytes)
      → read_obj expert stale t old bytes ≡ ok (o, ok tt)
      → Matches t o × Parses expert (held stale old) bytes t o
  unfolding read_obj
  read_obj-Parses expert stale transaction_tag old o bytes e =
      let (a, (p, same)) = left_by-ok (State.read expert (held stale old) bytes) o e in
      rw (← same) (tt, p)
  read_obj-Parses expert stale message_tag old o bytes e =
      let (a, (p, same)) = kept-ok old (Message.from_bytes bytes) msg o e in rw (← same) (tt, p)
  read_obj-Parses expert stale jwt_tag old o bytes e =
      let (a, (p, same)) = kept-ok old (Jwt.from_bytes bytes) jwt o e in rw (← same) (tt, p)
  read_obj-Parses expert stale structured_tag old o bytes e =
      let (a, (p, same)) = kept-ok old (StructuredMsg.from_bytes bytes) structured_msg o e in
      rw (← same) (tt, p)
  read_obj-Parses expert stale invalid_tag old o bytes e = cc

  finished :
      (expert : Bool) (stale : Transaction) (p p' : ParsedObj) (bytes : Bytes) (t : Tag) (o : Obj)
      (answer : Result (Unit {0}))
      → kind_of bytes ≡ ok t
      → read_obj expert stale t p.obj bytes ≡ ok (o, answer)
      → ◌≡◌ {A = Result (ParsedObj × Result (Unit {0}))}
          (ok (record { tag = t; obj = o }, answer))
          (ok (p', ok tt))
      → (kind_of bytes ≡ ok p'.tag)
        × (Matches p'.tag p'.obj × Parses expert (held stale p.obj) bytes p'.tag p'.obj)
  finished expert stale p p' bytes t o answer ht ho last =
      let same : ◌≡◌ {A = ParsedObj} (record { tag = t; obj = o }) p' = cc in
      let fine : answer ≡ ok tt = cc in
      subst
        (λ (q : ParsedObj).
          (kind_of bytes ≡ ok q.tag)
          × (Matches q.tag q.obj × Parses expert (held stale p.obj) bytes q.tag q.obj))
        same (ht, read_obj-Parses expert stale t p.obj o bytes (rw fine at ho))

  -- After a reading that succeeds, the object is of the kind that the tests on the data find, its tag
  -- names the member of the union that was written, and that member is what the parser of this kind
  -- makes of the data.
  pub read-Matches :
      (expert : Bool) (stale : Transaction) (p p' : ParsedObj) (bytes : Bytes)
      → read expert stale p bytes ≡ ok (p', ok tt)
      → (kind_of bytes ≡ ok p'.tag)
        × (Matches p'.tag p'.obj × Parses expert (held stale p.obj) bytes p'.tag p'.obj)
  unfolding read
  read-Matches expert stale p p' bytes e = elim (Bool-cases (length bytes == 0)) [
    | inl empty ↦ cc (rw empty at e)
    | inr some_data ↦
        let (t, ht, rest) = >>=-eq-ok (kind_of bytes) _ (rw some_data at e) in
        let ((o, answer), ho, last) = >>=-eq-ok (read_obj expert stale t p.obj bytes) _ rest in
        finished expert stale p p' bytes t o answer ht ho last
  ]
