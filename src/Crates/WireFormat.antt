-- ===== src/Crates/WireFormat.antt =====
-- What is shown of a parser and the wire format that it reads.
use ledger_stacks.Base.{◌≡◌, refl, ◌↔◌, ◌++◌, append_assoc}
use mathlib.Core.Path.{subst}
use ledger_stacks.Error.{ok, ◌>>=◌, Returns, Returns->>=, >>=-eq-ok, >>=-assoc}
use ledger_stacks.Crates.Reads.{Bytes, IResult}

-- `parse` reads exactly the valid values, off the front of any input, and always returns.
pub record Codec {A : Type 0} (parse : Bytes → IResult A) (encode : A → Bytes) (Valid : A → Type 0)
    : Type 0 where
  pub decodes : (a : A) (rest : Bytes) → Valid a → parse (encode a ++ rest) ≡ ok (rest, a)
  pub splits : (bs rem : Bytes) (a : A) → parse bs ≡ ok (rem, a) → (encode a ++ rem ≡ bs) × Valid a
  pub returns : (bs : Bytes) → Returns (parse bs)

module _ {A B C : Type 0} {p : Bytes → IResult A} {q : Bytes → IResult B} {enc_a : A → Bytes}
    {enc_b : B → Bytes} {VA : A → Type 0} {VB : B → Type 0} (cp : Codec p enc_a VA)
    (cq : Codec q enc_b VB) (make : A → B → C) (left : C → A) (right : C → B)
    (left-make : (a : A) (b : B) → left (make a b) ≡ a)
    (right-make : (a : A) (b : B) → right (make a b) ≡ b)
    (make_lem : (c : C) → make (left c) (right c) ≡ c) where
  abbrev sequence : Bytes → IResult C
  sequence bs = do (r, a) ← p bs; (r', b) ← q r; ok (r', make a b)

  joined :
      (bs r r' rem : Bytes) (a : A) (b : B) (c : C)
      → enc_a a ++ r ≡ bs
      → enc_b b ++ r' ≡ r
      → VA a
      → VB b
      → ◌≡◌ {A = IResult C} (ok (r', make a b)) (ok (rem, c))
      → ((enc_a (left c) ++ enc_b (right c)) ++ rem ≡ bs) × (VA (left c) × VB (right c))
  joined bs r r' rem a b c sa sb va vb e =
      let la : a ≡ left c = cc (left-make a b) in
      let rb : b ≡ right c = cc (right-make a b) in
      let tail : enc_b (right c) ++ rem ≡ r = cc (rb) in
      (rw (append_assoc, tail, ← la) sa, (subst VA la va, subst VB rb vb))

  -- One parser after the other reads one encoding after the other.
  pub Codec-sequence :
      Codec sequence (λ c. enc_a (left c) ++ enc_b (right c)) (λ c. VA (left c) × VB (right c))
  Codec-sequence = record {
    decodes = λ c rest (va, vb). rw (
      append_assoc,
      cp.decodes (left c) (enc_b (right c) ++ rest) va,
      cq.decodes (right c) rest vb,
      make_lem,
    );
    splits = λ bs rem c h.
        let ((r, a), ha, h') = >>=-eq-ok (p bs) _ h in
        let ((r', b), hb, e) = >>=-eq-ok (q r) _ h' in
        let (sa, va) = cp.splits bs r a ha in
        let (sb, vb) = cq.splits r r' b hb in joined bs r r' rem a b c sa sb va vb e;
    returns = λ bs.
        Returns->>= (p bs) _ (cp.returns bs)
          λ (r, a) _. Returns->>= (q r) _ (cq.returns r) λ _ _. tt;
  }

module _ {A : Type 0} {p : Bytes → IResult A} {enc : A → Bytes} {V : A → Type 0}
    (c : Codec p enc V) where
  -- The same as an equivalence.
  pub Codec-iff : (bs rem : Bytes) (a : A) → (p bs ≡ ok (rem, a)) ↔ ((enc a ++ rem ≡ bs) × V a)
  Codec-iff bs rem a = (c.splits bs rem a, λ (e, v). rw (← e) (c.decodes a rem v))

  -- A parser that takes the same input and gives the same result has the same format.
  pub Codec-eq : {q : Bytes → IResult A} → ((bs : Bytes) → q bs ≡ p bs) → Codec q enc V
  Codec-eq h = record {
    decodes = λ a rest v. rw h (c.decodes a rest v);
    splits = λ bs rem a e. c.splits bs rem a (rw h at e);
    returns = λ bs. rw h (c.returns bs);
  }

module _ {A B C D : Type 0} {p : Bytes → IResult A} {q : Bytes → IResult B} {s : Bytes → IResult C}
    {enc_a : A → Bytes} {enc_b : B → Bytes} {enc_c : C → Bytes} {VA : A → Type 0} {VB : B → Type 0}
    {VC : C → Type 0} (cp : Codec p enc_a VA) (cq : Codec q enc_b VB) (cs : Codec s enc_c VC)
    (make : A → B → C → D) (first : D → A) (second : D → B) (third : D → C)
    (first-make : (a : A) (b : B) (c : C) → first (make a b c) ≡ a)
    (second-make : (a : A) (b : B) (c : C) → second (make a b c) ≡ b)
    (third-make : (a : A) (b : B) (c : C) → third (make a b c) ≡ c)
    (make_lem : (d : D) → make (first d) (second d) (third d) ≡ d) where
  -- Three parsers in a row.
  pub Codec-sequence₃ :
      Codec
        (λ bs. do (r, a) ← p bs; (r', b) ← q r; (r'', c) ← s r'; ok (r'', make a b c))
        (λ d. (enc_a (first d) ++ enc_b (second d)) ++ enc_c (third d))
        (λ d. (VA (first d) × VB (second d)) × VC (third d))
  Codec-sequence₃ =
      Codec-eq
        (Codec-sequence
          (Codec-sequence cp cq (λ a b. let ab : A × B = (a, b) in ab) (λ ab. ab.0) (λ ab. ab.1)
            (λ _ _. refl) (λ _ _. refl) (λ _. refl))
          cs (λ ab c. make ab.0 ab.1 c) (λ d. (first d, second d)) third
          (λ ab c. cc (first-make ab.0 ab.1 c, second-make ab.0 ab.1 c))
          (λ ab c. third-make ab.0 ab.1 c) make_lem)
        λ bs. simp >>=-assoc
