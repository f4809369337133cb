-- ===== src/Message/Shown.antt =====
-- message.rs: which messages are accepted, and the text that is shown of one.
use ledger_stacks.Base.{
  ℕ, suc, ◌+◌, ◌≤◌, ◌⊎◌, leb, ◌^◌, ◌%◌, ◌<◌, ◌≡◌, refl, ap, [], ◌∷◌, ◌++◌, length, take, drop,
  replicate, ltb, not, Bool, true, false, Bool-cases, inl, inr, arith, if◌then◌else◌, take-append,
  take_all, length-append, length-take, lt→ltb, le→ltb, le→leb, lt→leb, bytes_eq_self, ltb→lt,
}
use ledger_stacks.Error.{ok, err, ◌>>=◌, parser_invalid_bytestr_message}
use ledger_stacks.Slice.{is_ascii, slice_to, slice_from-append}
use ledger_stacks.Crates.{Crates, Bytes, take-append_ok}
use ledger_stacks.Message.{
  ByteString, header, contain_header, clean, clean_all, shown_text, get_msg, from_bytes,
  max_ascii_len,
}
use ledger_stacks.Message.Varint
use ledger_stacks.Message.Varint.{read_varint, read_varint-encode, read_varint-nil}

length-clean_all : (bs : Bytes) → length (clean_all bs) ≡ length bs
length-clean_all [] = refl
length-clean_all (c ∷ cs) = ap (λ n. suc n) (length-clean_all cs)

slice_to-append : (n : ℕ) (xs ys : Bytes) → length xs ≡ n → slice_to n (xs ++ ys) ≡ ok xs
slice_to-append n xs ys e =
    rw (le→leb n (length (xs ++ ys)) (omega (arith, e, length-append xs ys)), take-append n xs ys e)

slice_to_all : (n : ℕ) (xs : Bytes) → length xs ≡ n → slice_to n xs ≡ ok xs
slice_to_all n xs e = rw (le→leb n (length xs) (omega (arith, e)), take_all n xs (omega (arith, e)))

flip : {A : Type 0} (b : Bool) (x y : A) → (if not b then x else y) ≡ (if b then y else x)
flip true x y = refl
flip false x y = refl

abbrev as_message : Bytes → ByteString
as_message text = record { bytes = text }

wrapped :
    (b : Bool) (text : Bytes)
    → ((if b then ok text else err parser_invalid_bytestr_message) >>= λ message.
        ok (as_message message))
      ≡ (if b then ok (as_message text) else err parser_invalid_bytestr_message)
wrapped true text = refl
wrapped false text = refl

shown_text-clean_all :
    (bs : Bytes)
    → shown_text bs
      ≡ ok (
          if ltb (length bs) max_ascii_len
          then clean_all bs
          else take max_ascii_len (clean_all bs)
            ++ (if ltb max_ascii_len (length bs) then replicate 3 b'.' else replicate 3 0))
unfolding shown_text
shown_text-clean_all bs = elim (Bool-cases (ltb (length bs) max_ascii_len)) [
  | inl short ↦
      let fits = ltb→lt (length bs) max_ascii_len short in
      let cl = clean_all bs in
      let size = length-clean_all bs in
      rw (
        short,
        le→ltb max_ascii_len (length bs) (omega (arith, fits)),
        lt→leb max_ascii_len (length bs) fits,
        take_all (length bs) cl (omega (arith, size)),
        slice_to-append (length bs) cl (drop (length cl) (replicate (max_ascii_len + 3) 0)) size,
      )
  | inr long ↦ elim (Bool-cases (ltb max_ascii_len (length bs))) [
    | inl longer ↦
        let size : length (take max_ascii_len (clean_all bs)) ≡ 270 = omega (
          arith,
          length-take max_ascii_len (clean_all bs),
          length-clean_all bs,
          ltb→lt max_ascii_len (length bs) longer,
        ) in
        rw (
          long,
          longer,
          size,
          slice_to_all 273 (take max_ascii_len (clean_all bs) ++ replicate 3 b'.') (
              omega (
                arith,
                size,
                length-append (take max_ascii_len (clean_all bs)) (replicate 3 b'.'),
              )),
        )
    | inr exact ↦
        let whole : length bs ≡ max_ascii_len = ground (arith, long, exact) in
        let size : length (take max_ascii_len (clean_all bs)) ≡ 270 =
          omega (arith, length-take max_ascii_len (clean_all bs), length-clean_all bs, whole) in
        rw (
          whole,
          size,
          slice_to_all 273 (take max_ascii_len (clean_all bs) ++ replicate 3 0) (
              omega
                (arith, size, length-append (take max_ascii_len (clean_all bs)) (replicate 3 0))),
        )
  ]
]

-- The bytes 8 to 13 are spaces in the second text, and all others stand where they were.
abbrev pub Spaced : Bytes → Bytes → Type 0
Spaced [] [] = Unit
Spaced (c ∷ cs) (d ∷ ds) =
    (((8 ≤ c) × ((c ≤ 13) × (d ≡ 0x20))) ⊎ (((c < 8) ⊎ (13 < c)) × (d ≡ c))) × Spaced cs ds
Spaced _ _ = ⊥

clean-byte :
    (c : ℕ) → ((8 ≤ c) × ((c ≤ 13) × (clean c ≡ 0x20))) ⊎ (((c < 8) ⊎ (13 < c)) × (clean c ≡ c))
unfolding clean
clean-byte c = elim (Bool-cases (leb 0x08 c)) [
  | inl from_8 ↦ elim (Bool-cases (leb c 0x0d)) [
    | inl to_13 ↦ inl (ground (arith, from_8), (ground (arith, to_13), rw (from_8, to_13) refl))
    | inr above ↦ inr (inr (ground (arith, above)), rw (from_8, above) refl)
  ]
  | inr below ↦ inr (inl (ground (arith, below)), rw below refl)
]

clean_all-Spaced : (bs : Bytes) → Spaced bs (clean_all bs)
clean_all-Spaced [] = tt
clean_all-Spaced (c ∷ cs) = (clean-byte c, clean_all-Spaced cs)

-- A message is shown with spaces for its bytes 8 to 13, of which some are control characters, and all
-- other bytes as they are. One of more than 270 bytes is cut there and gets three dots, and one of
-- 270 bytes exactly gets three bytes of zero.
pub shown_text_lem :
    (bs : Bytes)
    → (text : Bytes) × (Spaced bs text
        × (shown_text bs
            ≡ ok (
                if ltb (length bs) 270
                then text
                else take 270 text
                  ++ (if ltb 270 (length bs) then replicate 3 b'.' else replicate 3 0))))
shown_text_lem bs = (clean_all bs, (clean_all-Spaced bs, shown_text-clean_all bs))

module _ ⦃crates : Crates⦄ where
  measured :
      (bs text rest rem : Bytes) (n : ℕ)
      → read_varint bs ≡ ok (rem, n)
      → n < 2 ^ 32
      → text ++ rest ≡ rem
      → length text ≡ n
      → get_msg bs ≡ (if is_ascii text then ok text else err parser_invalid_bytestr_message)
  unfolding get_msg
  measured [] text rest rem n read small e size = cc (rw read_varint-nil at read)
  measured (b ∷ bs) text rest rem n read small e size =
      let same : length text ≡ n % 2 ^ 32 = omega (arith, small, size) in
      let taken : crates.take (n % 2 ^ 32) rem ≡ ok (rest, text) =
        rw (← e) (take-append_ok (n % 2 ^ 32) text rest same) in
      rw (read, taken) (flip (is_ascii text) _ _)

  -- A message of less than 2^32 bytes behind its header and its length is accepted exactly when it
  -- is ASCII, whatever follows.
  pub message_from_bytes-encode :
      (text rest : Bytes)
      → length text < 2 ^ 32
      → from_bytes (header ++ (Varint.encode (length text) ++ (text ++ rest))) ≡ (
          if is_ascii text
          then ok (record { bytes = text })
          else err parser_invalid_bytestr_message)
  unfolding from_bytes contain_header
  message_from_bytes-encode text rest small =
      let n = length text in
      let back = Varint.encode n ++ (text ++ rest) in
      let more : ltb 24 (length (header ++ back)) ≡ true =
        lt→ltb 24 (length (header ++ back))
          (omega (arith, Varint.encode_pos n, length-append (Varint.encode n) (text ++ rest))) in
      let message =
        measured back text rest (text ++ rest) n
          (read_varint-encode n (text ++ rest) (omega (arith, small))) small refl refl in
      rw (more, bytes_eq_self header, slice_from-append 24 header back refl, message)
        (wrapped (is_ascii text) text)
