-- ===== src/Jwt/Parts.antt =====
-- jwt.rs: which bytes are taken for a token.
use ledger_stacks.Base.{
  subst, ℕ, ◌≡◌, ◌↔◌, ◌∙◌, refl, ap, sym, [], ◌∷◌, ◌++◌, ◌==◌, not, Bool, true, false, Bool-cases,
  inl, inr, Option, none, some, All, arith, if◌then◌else◌,
}
use ledger_stacks.Error.{Result, ok, err, ok_or, ◌>>=◌, >>=-eq-ok, parser_invalid_jwt}
use ledger_stacks.Slice.{is_ascii}
use ledger_stacks.Crates.{Bytes}
use ledger_stacks.Jwt.{
  TokenCrates, JwtHeader, split_dot, payload_part, header_from_bytes, parse_header_payload,
  is_valid, decode_data, max_base64_header_len,
}

-- There is no dot among the bytes.
abbrev pub NoDot : Bytes → Type 0
NoDot bs = All (λ b. (b == b'.') ≡ false) bs

-- A text is its first part, and what stands behind the first dot, if there is one.
abbrev Joins : Bytes → Bytes → Option Bytes → Type 0
Joins bs part none = part ≡ bs
Joins bs part (some rest) = part ++ b'.' ∷ rest ≡ bs

Joins-cons :
    (b : ℕ) (bs part : Bytes) (rest : Option Bytes)
    → Joins bs part rest
    → Joins (b ∷ bs) (b ∷ part) rest
Joins-cons b bs part none e = ap (λ t. b ∷ t) e
Joins-cons b bs part (some rest) e = ap (λ t. b ∷ t) e

split_dot-Joins : (bs : Bytes) → Joins bs (split_dot bs).0 (split_dot bs).1 × NoDot (split_dot bs).0
split_dot-Joins [] = (refl, tt)
split_dot-Joins (b ∷ bs) =
    let (joins, clean) = split_dot-Joins bs in
    elim (Bool-cases (b == b'.')) [
      | inl dot ↦ rw dot (dotted b bs dot, tt)
      | inr other ↦
          rw other (Joins-cons b bs (split_dot bs).0 (split_dot bs).1 joins, (other, clean))
    ]
  where
    dotted : (b : ℕ) (bs : Bytes) → (b == b'.') ≡ true → ◌≡◌ {A = Bytes} (b'.' ∷ bs) (b ∷ bs)
    dotted b bs dot = ground arith

split_dot-append :
    (part rest : Bytes) → NoDot part → split_dot (part ++ b'.' ∷ rest) ≡ (part, some rest)
split_dot-append [] rest h = refl
split_dot-append (b ∷ part) rest (hb, h) = rw (hb, split_dot-append part rest h)

split_dot-NoDot : (part : Bytes) → NoDot part → split_dot part ≡ (part, none)
split_dot-NoDot [] h = refl
split_dot-NoDot (b ∷ part) (hb, h) = rw (hb, split_dot-NoDot part h)

-- The payload is all that follows the first dot, without a dot of its own.
payload_part-inv :
    (o : Option Bytes) (payload : Bytes)
    → payload_part o ≡ ok payload
    → (o ≡ some payload) × NoDot payload
payload_part-inv none payload e = cc
payload_part-inv (some rest) payload e =
    let (joins, clean) = split_dot-Joins rest in
    last rest payload (split_dot rest).0 (split_dot rest).1 joins clean e
  where
    last :
        (rest payload part : Bytes) (more : Option Bytes)
        → Joins rest part more
        → NoDot part
        → ◌≡◌ {A = Result Bytes}
            (elim more [ none ↦ ok part | some _ ↦ err parser_invalid_jwt ])
            (ok payload)
        → (some rest ≡ some payload) × NoDot payload
    last rest payload part none joins clean e =
        let same : part ≡ payload = cc in rw (← joins, ← same) (refl, clean)
    last rest payload part (some more) joins clean e = cc

payload_part-NoDot : (payload : Bytes) → NoDot payload → payload_part (some payload) ≡ ok payload
payload_part-NoDot payload h =
    ap
      (λ (parts : Bytes × Option Bytes). elim parts.1 [
        | none ↦ ok parts.0
        | some _ ↦ err parser_invalid_jwt
      ])
      (split_dot-NoDot payload h)

module _ ⦃token : TokenCrates⦄ where
  header-bytes : (bs : Bytes) (h : JwtHeader) → header_from_bytes bs ≡ ok h → h.bytes ≡ bs
  unfolding header_from_bytes
  header-bytes bs h e = elim (Bool-cases (not (is_ascii bs))) [
    | inl bad ↦ cc (rw bad at e)
    | inr good ↦
        let (decoded, hd, rest) =
          >>=-eq-ok (decode_data bs max_base64_header_len) _ (rw good at e) in
        let (header, hh, last) =
          >>=-eq-ok (ok_or parser_invalid_jwt (token.from_slice decoded)) _ rest in
        taken bs h (not (is_valid header)) last
  ]
    where
      taken :
          (bs : Bytes) (h : JwtHeader) (bad : Bool)
          → ◌≡◌ {A = Result JwtHeader}
              (if bad then err parser_invalid_jwt else ok (record { bytes = bs }))
              (ok h)
          → h.bytes ≡ bs
      taken bs h true e = cc
      taken bs h false e = cc

  -- What stands in a token: a header and a payload.
  abbrev pub IsToken : Bytes → JwtHeader → Bytes → Type 0
  IsToken bs h payload =
      (not (is_ascii bs) ≡ false)
      × ((h.bytes ++ b'.' ∷ payload ≡ bs)
          × ((NoDot h.bytes × NoDot payload) × (header_from_bytes h.bytes ≡ ok h)))

  forward :
      (bs : Bytes) (h : JwtHeader) (payload : Bytes)
      → parse_header_payload bs ≡ ok (h, payload)
      → IsToken bs h payload
  unfolding parse_header_payload
  forward bs h payload e = elim (Bool-cases (not (is_ascii bs))) [
    | inl bad ↦ cc (rw bad at e)
    | inr good ↦
        let (h', hh, rest) = >>=-eq-ok (header_from_bytes (split_dot bs).0) _ (rw good at e) in
        let (payload', hp, last) = >>=-eq-ok (payload_part (split_dot bs).1) _ rest in
        let (joins, clean) = split_dot-Joins bs in
        let (there, clean') = payload_part-inv (split_dot bs).1 payload' hp in
        parts bs h h' payload payload' (split_dot bs).0 (split_dot bs).1 good hh joins clean there
          clean' last
  ]
    where
      parts :
          (bs : Bytes) (h h' : JwtHeader) (payload payload' part : Bytes) (o : Option Bytes)
          → not (is_ascii bs) ≡ false
          → header_from_bytes part ≡ ok h'
          → Joins bs part o
          → NoDot part
          → o ≡ some payload'
          → NoDot payload'
          → ◌≡◌ {A = Result (JwtHeader × Bytes)} (ok (h', payload')) (ok (h, payload))
          → IsToken bs h payload
      parts bs h h' payload payload' part none good hh joins clean there clean' last = cc
      parts bs h h' payload payload' part (some rest) good hh joins clean there clean' last =
          let header : h' ≡ h = cc in
          let body : payload' ≡ payload = cc in
          let behind : rest ≡ payload' = cc in
          let own : h'.bytes ≡ part = header-bytes part h' hh in
          let read : header_from_bytes h'.bytes ≡ ok h' =
            subst (λ (p : Bytes). header_from_bytes p ≡ ok h') (sym own) hh in
          let whole : h'.bytes ++ b'.' ∷ payload' ≡ bs =
            ap (λ (p : Bytes). p ++ b'.' ∷ payload') own
            ∙ ap (λ (r : Bytes). part ++ b'.' ∷ r) (sym behind)
            ∙ joins in
          subst (λ (r : Bytes). IsToken bs h r) body
            (subst (λ (k : JwtHeader). IsToken bs k payload') header
              (good, (whole, ((subst NoDot (sym own) clean, clean'), read))))

  backward :
      (h : JwtHeader) (payload : Bytes)
      → not (is_ascii (h.bytes ++ b'.' ∷ payload)) ≡ false
      → NoDot h.bytes
      → NoDot payload
      → header_from_bytes h.bytes ≡ ok h
      → parse_header_payload (h.bytes ++ b'.' ∷ payload) ≡ ok (h, payload)
  unfolding parse_header_payload
  backward h payload good clean clean' hh = rw good (
      ap
        (λ (parts : Bytes × Option Bytes). do
          header ← header_from_bytes parts.0
          payload ← payload_part parts.1
          ok (header, payload))
        (split_dot-append h.bytes payload clean)
      ∙ ap
          (λ (m : Result JwtHeader). do
            header ← m
            payload ← payload_part (some payload)
            ok (header, payload))
          hh
      ∙ ap (λ (m : Result Bytes). do payload ← m; ok (h, payload))
          (payload_part-NoDot payload clean'))

  -- The parts of a token are read exactly from ASCII bytes with one dot, whose first part is a header
  -- that is accepted: the header is that part and the payload is the other one.
  pub parse_header_payload_iff :
      (bs : Bytes) (h : JwtHeader) (payload : Bytes)
      → (parse_header_payload bs ≡ ok (h, payload)) ↔ IsToken bs h payload
  parse_header_payload_iff bs h payload = (
    forward bs h payload,
    λ (good, (e, ((clean, clean'), hh))).
        subst (λ (b : Bytes). parse_header_payload b ≡ ok (h, payload)) e
          (backward h payload (subst (λ (b : Bytes). not (is_ascii b) ≡ false) (sym e) good) clean
            clean' hh),
  )
