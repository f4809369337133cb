-- ===== src/Crates/Derived.antt =====
-- Wire formats of the small parsers: a fixed number of bytes, a wrapped value, a checked value.
use ledger_stacks.Base.{
  ℕ, ◌-◌, ◌≡◌, refl, [], ◌∷◌, ◌++◌, false, Bool, Bool-cases, inl, inr, length, length-append, arith,
  leb, if◌then◌else◌,
}
use mathlib.Core.Path.{subst}
use ledger_stacks.Error.{ParserError, Result, ok, err, ◌>>=◌, Returns, Returns->>=, >>=-eq-ok}
use ledger_stacks.Crates.Reads.{Bytes, IResult}
use ledger_stacks.Crates.Interface.{Crates}
use ledger_stacks.Crates.Steps.{
  take-append_ok, take_splits, Returns-take, le_u8-nil, le_u8-cons, Returns-le_u8,
}
use ledger_stacks.Crates.WireFormat.{Codec}

-- `.map(|(rem, a)| (rem, make(a)))`
module _ {A C : Type 0} {p : Bytes → IResult A} {enc : A → Bytes} {V : A → Type 0}
    (c : Codec p enc V) (make : A → C) (left : C → A) (left-make : (a : A) → left (make a) ≡ a)
    (make-left : (x : C) → make (left x) ≡ x) where
  wrapped :
      (bs r rem : Bytes) (a : A) (x : C)
      → (enc a ++ r ≡ bs) × V a
      → ◌≡◌ {A = IResult C} (ok (r, make a)) (ok (rem, x))
      → (enc (left x) ++ rem ≡ bs) × V (left x)
  wrapped bs r rem a x (s, v) e =
      let la : a ≡ left x = cc (left-make a) in
      let same : r ≡ rem = cc in (rw (← la, ← same) s, subst V la v)

  pub Codec-map :
      Codec (λ bs. do (r, a) ← p bs; ok (r, make a)) (λ x. enc (left x)) (λ x. V (left x))
  Codec-map = record {
    decodes = λ x rest v. rw (c.decodes (left x) rest v, make-left x);
    splits = λ bs rem x h.
        let ((r, a), ha, e) = >>=-eq-ok (p bs) _ h in wrapped bs r rem a x (c.splits bs r a ha) e;
    returns = λ bs. Returns->>= (p bs) _ (c.returns bs) λ _ _. tt;
  }

  module _ (refuse : A → Bool) (why : ParserError) where
    checked :
        (bs r rem : Bytes) (a : A) (x : C)
        → (enc a ++ r ≡ bs) × V a
        → ◌≡◌ {A = IResult C} (if refuse a then err why else ok (r, make a)) (ok (rem, x))
        → (enc (left x) ++ rem ≡ bs) × (V (left x) × (refuse (left x) ≡ false))
    checked bs r rem a x sv e = elim (Bool-cases (refuse a)) [
      | inl bad ↦ cc (rw bad at e)
      | inr good ↦
          let (s, v) = wrapped bs r rem a x sv (rw good at e) in
          (s, (v, cc (left-make a, rw good at e)))
    ]

    -- The value is refused when the test holds.
    pub Codec-check :
        Codec
          (λ bs. do (r, a) ← p bs; if refuse a then err why else ok (r, make a))
          (λ x. enc (left x))
          (λ x. V (left x) × (refuse (left x) ≡ false))
    Codec-check = record {
      decodes = λ x rest (v, good). rw (c.decodes (left x) rest v, good, make-left x);
      splits = λ bs rem x h.
          let ((r, a), ha, e) = >>=-eq-ok (p bs) _ h in checked bs r rem a x (c.splits bs r a ha) e;
      returns = λ bs.
          Returns->>= (p bs) _ (c.returns bs) λ (r, a) _. elim (Bool-cases (refuse a)) [
            | inl bad ↦ rw bad tt
            | inr good ↦ rw good tt
          ];
    }

module _ ⦃crates : Crates⦄ where
  pub Codec-take : (n : ℕ) → Codec (crates.take n) (λ bs. bs) (λ bs. length bs ≡ n)
  Codec-take n = record {
    decodes = λ x rest e. take-append_ok n x rest e;
    splits = λ bs rem x h. take_splits n bs h;
    returns = λ bs. Returns-take n bs;
  }

  -- `array_ref!` after a `take` of the same length gives what was taken.
  pub take-array_ref :
      {A : Type 0} (n : ℕ) (bs : Bytes) (k : Bytes → Bytes → Result A)
      → (crates.take n bs >>= λ (raw, _). crates.array_ref 0 n bs >>= λ array. k raw array)
        ≡ (crates.take n bs >>= λ (raw, array). k raw array)
  take-array_ref n bs k = elim (Bool-cases (leb n (length bs))) [
    | inl enough ↦ rw (crates.take_law, crates.array_ref_law, enough)
    | inr short ↦ rw (crates.take_law, crates.array_ref_law, short)
  ]

  -- What a parser consumed, taken again from its input.
  pub take_consumed :
      (bs enc rem : Bytes)
      → enc ++ rem ≡ bs
      → crates.take (length bs - length rem) bs ≡ ok (rem, enc)
  take_consumed bs enc rem e =
      rw (← e) (take-append_ok _ enc rem (omega (arith, length-append enc rem)))

-- One byte that stands for a value of an enumeration.
module _ ⦃crates : Crates⦄ {A : Type 0} (try_from : ℕ → Result A) (to_u8 : A → ℕ)
    (try_from-to_u8 : (a : A) → try_from (to_u8 a) ≡ ok a)
    (to_u8_unique : (v : ℕ) (a : A) → try_from v ≡ ok a → to_u8 a ≡ v)
    (returns : (v : ℕ) → Returns (try_from v)) where
  abbrev byte_as : Bytes → IResult A
  byte_as bs = do (rem, v) ← crates.le_u8 bs; a ← try_from v; ok (rem, a)

  byte_as_splits :
      (bs rem : Bytes) (a : A) → byte_as bs ≡ ok (rem, a) → (to_u8 a ∷ rem ≡ bs) × Unit {0}
  byte_as_splits [] rem a h = cc (rw le_u8-nil at h)
  byte_as_splits (v ∷ bs) rem a h =
      let (a', e, same) = >>=-eq-ok (try_from v) _ (rw le_u8-cons at h) in
      (cc (to_u8_unique v a' e), tt)

  pub Codec-byte : Codec byte_as (λ a. to_u8 a ∷ []) (λ _. Unit {0})
  Codec-byte = record {
    decodes = λ a rest _. rw (le_u8-cons, try_from-to_u8 a);
    splits = byte_as_splits;
    returns = λ bs.
        Returns->>= (crates.le_u8 bs) _ (Returns-le_u8 bs)
          λ (_, v) _. Returns->>= (try_from v) _ (returns v) λ _ _. tt;
  }

module _ ⦃crates : Crates⦄ {A : Type 0} {p : Bytes → IResult A} {enc : A → Bytes} {V : A → Type 0}
    (c : Codec p enc V) where
  consumed :
      (bs : Bytes) (r : IResult A)
      → p bs ≡ r
      → (r >>= λ (rem, _). crates.take (length bs - length rem) bs)
        ≡ (r >>= λ (rem, a). ok (rem, enc a))
  consumed bs (ok (rem, a)) e = take_consumed bs (enc a) rem (c.splits bs rem a e).0
  consumed bs _ e = refl

  -- The bytes that the parser consumed are the encoding of what it read.
  pub take-consumed :
      (bs : Bytes)
      → (p bs >>= λ (rem, _). crates.take (length bs - length rem) bs)
        ≡ (p bs >>= λ (rem, a). ok (rem, enc a))
  take-consumed bs = consumed bs (p bs) refl
