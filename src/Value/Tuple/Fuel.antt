-- ===== src/Value/Tuple/Fuel.antt =====
-- value/tuple.rs: each turn of the iterator takes a field, so that its loops end.
use ledger_stacks.Base.{
  subst, ℕ, zero, suc, ◌+◌, ◌-◌, ◌<◌, ◌≤◌, ◌≡◌, refl, ap, sym, ◌∙◌, [], ◌∷◌, ◌++◌, length,
  length-append, drop, length-drop, leb, leb→le, ltb, ltb→lt, Bool-cases, inl, inr, Option, none,
  some, arith,
}
use ledger_stacks.Error.{Result, ok, err, panic, out_of_fuel, ◌>>=◌, >>=-eq-ok, Returns, unwrap}
use ledger_stacks.Slice.{slice_from}
use ledger_stacks.Crates.{Crates, Bytes, Returns-take}
use ledger_stacks.Common.Limits.{max_depth}
use ledger_stacks.Common.ClarityName
use ledger_stacks.Common.ClarityName.{ClarityName, ClarityName-Codec}
use ledger_stacks.Value.Len.{value_len}
use ledger_stacks.Value.Len.Total.{Returns-value_len}
use ledger_stacks.Value.Parse
use ledger_stacks.Value.Parse.{Value, value_splits}
use ledger_stacks.Value.Tuple.{TupleIter, next, collect}

-- The run does not end for want of fuel.
abbrev pub HasFuel {ℓ} : {A : Type ℓ} → Result A → Type 0
HasFuel out_of_fuel = ⊥
HasFuel _ = Unit

pub HasFuel->>= :
    {A B : Type 0} (m : Result A) (f : A → Result B)
    → HasFuel m
    → ((a : A) → m ≡ ok a → HasFuel (f a))
    → HasFuel (m >>= f)
HasFuel->>= (ok a) f h k = k a refl
HasFuel->>= (err e) f h k = tt
HasFuel->>= panic f h k = tt
HasFuel->>= out_of_fuel f h k = h

pub HasFuel-Returns : {A : Type 0} (m : Result A) → Returns m → HasFuel m
HasFuel-Returns (ok a) h = tt
HasFuel-Returns (err e) h = tt
HasFuel-Returns panic h = tt
HasFuel-Returns out_of_fuel h = h

pub HasFuel-unwrap : {A : Type 0} (m : Result A) → HasFuel m → HasFuel (unwrap m)
HasFuel-unwrap (ok a) h = tt
HasFuel-unwrap (err e) h = tt
HasFuel-unwrap panic h = tt
HasFuel-unwrap out_of_fuel h = h

pub HasFuel-slice_from : (n : ℕ) (bs : Bytes) → HasFuel (slice_from n bs)
HasFuel-slice_from n bs = elim (Bool-cases (leb n (length bs))) [
  | inl fits ↦ rw fits tt
  | inr short ↦ rw short tt
]

unwrap-ok : {A : Type 0} (m : Result A) (a : A) → unwrap m ≡ ok a → m ≡ ok a
unwrap-ok (ok b) a e = e
unwrap-ok (err why) a e = cc
unwrap-ok panic a e = cc
unwrap-ok out_of_fuel a e = cc

sliced :
    (n : ℕ) (bs rest : Bytes) → slice_from n bs ≡ ok rest → (n ≤ length bs) × (drop n bs ≡ rest)
sliced n bs rest e = elim (Bool-cases (leb n (length bs))) [
  | inl fits ↦
      (leb→le n (length bs) fits, (let same : drop n bs ≡ rest = cc (rw fits at e) in same))
  | inr short ↦ cc (rw short at e)
]

module _ ⦃crates : Crates⦄ where
  pub HasFuel-value : (max : ℕ) (bs : Bytes) → HasFuel (Parse.from_bytes max bs)
  unfolding Parse.from_bytes
  HasFuel-value max bs =
      HasFuel->>= (value_len max bs) _
        (HasFuel-Returns (value_len max bs) (Returns-value_len max bs))
        λ len _.
          HasFuel->>= (crates.take len bs) _
            (HasFuel-Returns (crates.take len bs) (Returns-take len bs)) λ _ _. tt

  HasFuel-name : (bs : Bytes) → HasFuel (ClarityName.from_bytes bs)
  HasFuel-name bs = HasFuel-Returns (ClarityName.from_bytes bs) (ClarityName-Codec.returns bs)

  pub HasFuel-next : (it : TupleIter) → HasFuel (next it)
  unfolding next
  HasFuel-next it = elim (Bool-cases (ltb it.position (length it.bytes))) [
    | inl more ↦ rw more (
        HasFuel->>= (slice_from it.position it.bytes) _ (HasFuel-slice_from it.position it.bytes)
          λ rest _.
            HasFuel->>= (unwrap (ClarityName.from_bytes rest)) _
              (HasFuel-unwrap (ClarityName.from_bytes rest) (HasFuel-name rest))
              λ (rem, name) _.
                HasFuel->>= (unwrap (Parse.from_bytes max_depth rem)) _
                  (HasFuel-unwrap (Parse.from_bytes max_depth rem) (HasFuel-value max_depth rem))
                  λ _ _. tt)
    | inr last ↦ rw last tt
  ]

  -- What is left behind the iterator.
  abbrev pub left : TupleIter → ℕ
  left it = length it.bytes - it.position

  moved :
      (it it' : TupleIter) (field : ClarityName × Value) (rest rem rem' : Bytes)
      (name : ClarityName) (value : Value)
      → it.position < length it.bytes
      → drop it.position it.bytes ≡ rest
      → ClarityName.encode name ++ rem ≡ rest
      → value.bytes ++ rem' ≡ rem
      → ◌≡◌ {A = Result (Option ((ClarityName × Value) × TupleIter))}
          (ok (some ((name, value), record it { position = length it.bytes - length rem' })))
          (ok (some (field, it')))
      → left it' < left it
  moved it it' field rest rem rem' name value more behind front tail e =
      let same : ◌≡◌ {A = TupleIter} (record it { position = length it.bytes - length rem' }) it' =
        cc in
      let whole : length rest ≡ length it.bytes - it.position =
        ap length (sym behind) ∙ length-drop it.position it.bytes in
      let first : length rest ≡ suc (length name.bytes + length rem) =
        ap length (sym front) ∙ ap suc (length-append name.bytes rem) in
      let second : length rem ≡ length value.bytes + length rem' =
        ap length (sym tail) ∙ length-append value.bytes rem' in
      subst (λ (u : TupleIter). left u < left it) same (omega (arith, more, whole, first, second))

  pub next-left :
      (it it' : TupleIter) (field : ClarityName × Value)
      → next it ≡ ok (some (field, it'))
      → left it' < left it
  unfolding next
  next-left it it' field e = elim (Bool-cases (ltb it.position (length it.bytes))) [
    | inl more ↦
        let (rest, hs, e1) = >>=-eq-ok (slice_from it.position it.bytes) _ (rw more at e) in
        let ((rem, name), hn, e2) = >>=-eq-ok (unwrap (ClarityName.from_bytes rest)) _ e1 in
        let ((rem', value), hv, e3) = >>=-eq-ok (unwrap (Parse.from_bytes max_depth rem)) _ e2 in
        let (_, behind) = sliced it.position it.bytes rest hs in
        let (front, _) = ClarityName-Codec.splits rest rem name (unwrap-ok _ _ hn) in
        let tail = value_splits max_depth rem rem' value (unwrap-ok _ _ hv) in
        moved it it' field rest rem rem' name value (ltb→lt it.position (length it.bytes) more)
          behind front tail e3
    | inr last ↦ cc (rw last at e)
  ]

  -- The loop has fuel enough for all that is left.
  pub HasFuel-collect : (fuel : ℕ) (it : TupleIter) → left it < fuel → HasFuel (collect fuel it)
  unfolding collect
  HasFuel-collect zero it h = absurd (omega arith)
  HasFuel-collect (suc fuel) it h =
      HasFuel->>= (next it) _ (HasFuel-next it)
        λ found e. turn fuel it found (λ it' less. HasFuel-collect fuel it' less) h e
    where
      turn :
          (fuel : ℕ) (it : TupleIter) (found : Option ((ClarityName × Value) × TupleIter))
          → ((it' : TupleIter) → left it' < fuel → HasFuel (collect fuel it'))
          → left it < suc fuel
          → next it ≡ ok found
          → HasFuel (elim found [
            | none ↦ ok []
            | some (field, it') ↦ collect fuel it' >>= λ fields. ok (field ∷ fields)
          ])
      turn fuel it none more h e = tt
      turn fuel it (some (field, it')) more h e =
          HasFuel->>= (collect fuel it') _ (more it' (omega (arith, h, next-left it it' field e)))
            λ _ _. tt
