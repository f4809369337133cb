-- ===== src/Transaction/PostConditions/RoundTrip.antt =====
-- transaction.rs: `PostConditions::from_bytes` on the wire format of SIP-005.
use ledger_stacks.Base.{
  ◌*◌, ℕ, ◌+◌, ◌%◌, ◌^◌, ◌<◌, ◌≤◌, ◌≡◌, refl, ap, List, [], ◌∷◌, ◌++◌, All, length, le→ltb, arith,
  append_assoc, append-nil, length-append,
}
use ledger_stacks.Error.{ok}
use ledger_stacks.Crates.{Crates, Iterator, AllRead, Bytes, to_be, be_u32-append}
use ledger_stacks.Common.Limits.{num_supported_post_conditions}
use ledger_stacks.PostCondition.Condition
use ledger_stacks.PostCondition.Condition.{inner}
use ledger_stacks.PostCondition.Condition.Wire
use ledger_stacks.PostCondition.Condition.Wire.{
  PostCondition, on_stx, on_fungible, on_nonfungible, condition,
}
use ledger_stacks.PostCondition.Condition.RoundTrip.{condition-from_bytes-encode}
use ledger_stacks.PostCondition.Condition.Agree.{read_as_bytes-from_bytes, type_byte}
use ledger_stacks.Transaction.PostConditions.{get_num_items, from_bytes}

abbrev pub encode_all : List PostCondition → Bytes
encode_all [] = []
encode_all (pc ∷ pcs) = Wire.encode pc ++ encode_all pcs

abbrev pub encode : List PostCondition → Bytes
encode pcs = to_be 4 (length pcs) ++ encode_all pcs

abbrev pub encodings : List PostCondition → List Bytes
encodings [] = []
encodings (pc ∷ pcs) = Wire.encode pc ∷ encodings pcs

-- How many lines the display shows of a condition.
abbrev pub lines : PostCondition → ℕ
lines (on_stx _ _ _) = 3
lines (on_fungible _ _ _ _) = 4
lines (on_nonfungible _ _ _ _) = 3

abbrev pub total_lines : List PostCondition → ℕ
total_lines [] = 0
total_lines (pc ∷ pcs) = lines pc + total_lines pcs

total_lines-le : (pcs : List PostCondition) → total_lines pcs ≤ 4 * length pcs
total_lines-le [] = omega arith
total_lines-le (on_stx _ _ _ ∷ pcs) = omega (arith, total_lines-le pcs)
total_lines-le (on_fungible _ _ _ _ ∷ pcs) = omega (arith, total_lines-le pcs)
total_lines-le (on_nonfungible _ _ _ _ ∷ pcs) = omega (arith, total_lines-le pcs)

length-encodings : (pcs : List PostCondition) → length (encodings pcs) ≡ length pcs
length-encodings [] = refl
length-encodings (pc ∷ pcs) = omega (arith, length-encodings pcs)

whole : (pc : PostCondition) → type_byte (condition pc) ∷ inner (condition pc) ≡ Wire.encode pc
whole (on_stx _ _ _) = refl
whole (on_fungible _ _ _ _) = refl
whole (on_nonfungible _ _ _ _) = refl

num_items-condition : (pc : PostCondition) → Condition.num_items (condition pc) ≡ lines pc
unfolding Condition.num_items
num_items-condition (on_stx _ _ _) = refl
num_items-condition (on_fungible _ _ _ _) = refl
num_items-condition (on_nonfungible _ _ _ _) = refl

module _ ⦃crates : Crates⦄ where
  read_one :
      (pc : PostCondition) (rest : Bytes)
      → Wire.IsValid pc
      → length (Wire.encode pc ++ rest) < 2 ^ 32
      → Condition.read_as_bytes (Wire.encode pc ++ rest) ≡ ok (rest, Wire.encode pc)
  read_one pc rest valid small =
      let parsed =
        condition-from_bytes-encode pc rest valid
          (omega (arith, small, length-append (Wire.encode pc) rest)) in
      rw (← whole pc)
        (read_as_bytes-from_bytes (Wire.encode pc ++ rest) rest (condition pc) small parsed)

  all_read :
      (pcs : List PostCondition) (rest : Bytes)
      → All Wire.IsValid pcs
      → length (encode_all pcs ++ rest) < 2 ^ 32
      → AllRead Condition.read_as_bytes (encodings pcs) (encode_all pcs ++ rest) rest
  all_read [] rest h small = refl
  all_read (pc ∷ pcs) rest (h, hs) small =
      let split = append_assoc (Wire.encode pc) (encode_all pcs) rest in
      let small' : length (Wire.encode pc ++ (encode_all pcs ++ rest)) < 2 ^ 32 =
        omega (arith, small, ap length split) in
      (
        encode_all pcs ++ rest,
        (
          rw split (read_one pc (encode_all pcs ++ rest) h small'),
          all_read pcs rest hs
              (omega (arith, small', length-append (Wire.encode pc) (encode_all pcs ++ rest))),
        ),
      )

  get_num_items-encodings :
      (pcs : List PostCondition)
      → All Wire.IsValid pcs
      → length (encode_all pcs) < 2 ^ 32
      → get_num_items (encodings pcs) ≡ ok (total_lines pcs % 2 ^ 8)
  unfolding get_num_items
  get_num_items-encodings [] h small = refl
  get_num_items-encodings (pc ∷ pcs) (h, hs) small =
      let total = length-append (Wire.encode pc) (encode_all pcs) in
      let read : Condition.from_bytes (Wire.encode pc) ≡ ok ([], condition pc) =
        rw append-nil at (condition-from_bytes-encode pc [] h (omega (arith, small, total))) in
      let rest = get_num_items-encodings pcs hs (omega (arith, small, total)) in
      rw (read, rest, num_items-condition pc) (ap ok (omega arith))

module _ ⦃crates : Crates⦄ ⦃iterator : Iterator⦄ where
  -- At most sixteen valid conditions are read off the front of any input of less than 2^32 bytes,
  -- each kept as its bytes, with the number of lines that they show.
  pub from_bytes-encode-All :
      (pcs : List PostCondition) (rest : Bytes)
      → All Wire.IsValid pcs
      → length pcs ≤ num_supported_post_conditions
      → length (encode pcs ++ rest) < 2 ^ 32
      → from_bytes (encode pcs ++ rest)
        ≡ ok (
          rest,
          record { conditions = encodings pcs; num_items = total_lines pcs; current_idx = 0 },
        )
  unfolding from_bytes
  from_bytes-encode-All pcs rest h few small =
      let total = length-append (encode_all pcs) rest in
      let read =
        iterator.iterate_law Condition.read_as_bytes (encodings pcs) (encode_all pcs ++ rest) rest
          (all_read pcs rest h (omega (arith, small))) in
      let lines_fit : total_lines pcs % 2 ^ 8 ≡ total_lines pcs =
        omega (arith, total_lines-le pcs, few) in
      rw (
        be_u32-append (length pcs) (encode_all pcs ++ rest) (omega (arith, few)),
        le→ltb num_supported_post_conditions (length pcs) few,
        ← length-encodings pcs,
        read,
        get_num_items-encodings pcs h (omega (arith, small, total)),
        lines_fit,
      )
