-- ===== src/StructuredMsg/Hash.antt =====
-- structured_msg.rs: what the hash of a structured message is taken of.
use ledger_stacks.Base.{
  suc, ◌+◌, ◌%◌, ◌^◌, ◌<◌, take_all, length-append, arith, ◌≤◌, ◌≡◌, ◌∙◌, refl, ap, sym, ◌++◌,
  length, drop, le→ltb, bytes_eq, take, Bool-cases, inl, inr, bytes_eq→eq, take-append-drop,
  if◌then◌else◌, ◌==◌, not, ◌||◌, Bool, true, false,
}
use ledger_stacks.Error.{Result, ok, err, >>=-eq-ok, ok_or, parser_invalid_structured_msg}
use ledger_stacks.Slice.{slice_from, slice_from-append}
use ledger_stacks.Crates.{Crates, Bytes}
use ledger_stacks.Device.{Device, sha256, sha256_len}
use ledger_stacks.Common.Limits.{max_depth}
use ledger_stacks.Value.Parse
use ledger_stacks.Value.Parse.{Value, value_splits}
use ledger_stacks.Value.Tuple
use ledger_stacks.StructuredMsg.{
  StructuredMsg, prefix, prefix_len, parse_prefix, verify, get_hash, msg, domain, from_bytes,
}
use ledger_stacks.StructuredMsg.Domain
use ledger_stacks.StructuredMsg.Domain.{check_fields}

module _ ⦃crates : Crates⦄ where
  -- The domain is the front of the input, and stands for its value.
  domain_splits :
      (bs rem : Bytes) (d : Domain.Domain)
      → Domain.from_bytes bs ≡ ok (rem, d)
      → Domain.bytes d ++ rem ≡ bs
  unfolding Domain.from_bytes
  domain_splits bs rem d e =
      let ((r, v), hv, rest) = >>=-eq-ok (Parse.from_bytes max_depth bs) _ e in
      let (found, hf, rest1) = >>=-eq-ok (Parse.tuple v) _ rest in
      let (raw, hr, rest2) = >>=-eq-ok (ok_or parser_invalid_structured_msg found) _ rest1 in
      let (payload, hp, rest3) = >>=-eq-ok (Tuple.payload (record { bytes = raw })) _ rest2 in
      let (items, hi, rest4) =
        >>=-eq-ok (check_fields (suc (length payload)) (record { bytes = payload; position = 0 }) 0)
          _ rest3 in
      let (n, hn, last) = >>=-eq-ok (Tuple.num_elements (record { bytes = raw })) _ rest4 in
      taken bs r rem v d (not (items == n) || not (items == Domain.len))
        (value_splits max_depth bs r v hv) last
    where
      taken :
          (bs r rem : Bytes) (v : Value) (d : Domain.Domain) (bad : Bool)
          → v.bytes ++ r ≡ bs
          → ◌≡◌ {A = Result (Bytes × Domain.Domain)}
              (if bad then err parser_invalid_structured_msg else ok (r, record { value = v }))
              (ok (rem, d))
          → Domain.bytes d ++ rem ≡ bs
      taken bs r rem v d true s e = cc
      taken bs r rem v d false s e =
          let same : r ≡ rem = cc in
          let whole : ◌≡◌ {A = Domain.Domain} (record { value = v }) d = cc in
          rw (← whole, ← same) s

  prefix_splits : (bs rem : Bytes) → parse_prefix bs ≡ ok rem → prefix ++ rem ≡ bs
  unfolding parse_prefix
  prefix_splits bs rem e = elim (Bool-cases (bytes_eq (take prefix_len bs) prefix)) [
    | inl starts ↦
        let whole = bytes_eq→eq (take prefix_len bs) prefix starts in
        let rest : drop prefix_len bs ≡ rem = cc (rw (crates.tag_law, starts) at e) in
        ap (λ p. p ++ rem) (sym whole)
        ∙ ap (λ r. take prefix_len bs ++ r) (sym rest)
        ∙ take-append-drop prefix_len bs
    | inr other ↦ cc (rw (crates.tag_law, other) at e)
  ]

module _ ⦃crates : Crates⦄ ⦃device : Device⦄ where
  -- Of a message that is accepted: its parts, which follow the prefix, and its hash.
  pub record HashOf (input out : Bytes) (m : StructuredMsg) : Type 0 where
    pub domain_bytes : Bytes
    pub content : Bytes
    pub whole : prefix ++ (domain_bytes ++ content) ≡ input
    pub hash :
        get_hash m out
        ≡ ok (
            device.hash_sha256
              (prefix ++ (device.hash_sha256 domain_bytes ++ device.hash_sha256 content))
            ++ drop sha256_len out)

  -- Less than 2^16 bytes are hashed whole.
  sha256_whole : (bs : Bytes) → length bs < 2 ^ 16 → sha256 bs ≡ device.hash_sha256 bs
  unfolding sha256
  sha256_whole bs small =
      let size : length bs % 2 ^ 16 ≡ length bs = omega (arith, small) in
      ap (λ n. device.hash_sha256 (take n bs)) size
      ∙ ap device.hash_sha256 (take_all (length bs) bs (omega arith))

  -- A message of less than 2^16 bytes that is accepted is the prefix, the bytes of the domain and the
  -- content, with nothing between them, and the hash that a buffer of 32 bytes or more gets is that of
  -- the prefix and the hashes of the two: no byte of the input is left out of it.
  pub from_bytes-HashOf :
      (input out : Bytes) (m : StructuredMsg)
      → from_bytes input ≡ ok m
      → length input < 2 ^ 16
      → sha256_len ≤ length out
      → HashOf input out m
  unfolding from_bytes verify get_hash domain msg
  from_bytes-HashOf input out m e small room =
      let (_, hv, last) = >>=-eq-ok (verify input) _ e in
      let (rem, hp, rest) = >>=-eq-ok (parse_prefix input) _ hv in
      let ((content, d), hd, _) = >>=-eq-ok (Domain.from_bytes rem) _ rest in
      parts input out rem content d m (prefix_splits input rem hp) hd small room last
    where
      parts :
          (input out rem content : Bytes) (d : Domain.Domain) (m : StructuredMsg)
          → prefix ++ rem ≡ input
          → Domain.from_bytes rem ≡ ok (content, d)
          → length input < 2 ^ 16
          → sha256_len ≤ length out
          → ◌≡◌ {A = Result StructuredMsg} (ok (record { bytes = input })) (ok m)
          → HashOf input out m
      parts input out rem content d m s hd small room last =
          let same : m.bytes ≡ input = cc in
          let cut : slice_from prefix_len m.bytes ≡ ok rem =
            rw (same, ← s) (slice_from-append prefix_len prefix rem refl) in
          let pieces : length input ≡ 6 + (length (Domain.bytes d) + length content) = omega (
            arith,
            ap (λ (bs : Bytes). length bs) s,
            ap (λ (bs : Bytes). length bs) (domain_splits rem content d hd),
            length-append prefix rem,
            length-append (Domain.bytes d) content,
          ) in
          let digests = device.hash_sha256 (Domain.bytes d) ++ device.hash_sha256 content in
          let whole = prefix ++ digests in
          let size : length whole ≡ 70 = omega (
            arith,
            length-append prefix digests,
            length-append (device.hash_sha256 (Domain.bytes d)) (device.hash_sha256 content),
            device.hash_length (Domain.bytes d),
            device.hash_length content,
          ) in
          record {
            domain_bytes = Domain.bytes d;
            content = content;
            whole = ap (λ r. prefix ++ r) (domain_splits rem content d hd) ∙ s;
            hash = rw (
              le→ltb (length out) sha256_len room,
              cut,
              hd,
              sha256_whole (Domain.bytes d) (omega (arith, small, pieces)),
              sha256_whole content (omega (arith, small, pieces)),
              sha256_whole whole (omega (arith, size)),
            );
          }
