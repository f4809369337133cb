-- ===== src/Format/Writer.antt =====
-- zxformat.rs: `Writer`, the writer into a buffer.
use ledger_stacks.Base.{
  List, [], ◌∷◌, arith, le→leb, le→ltb, refl, append_assoc, append-nil, length-append, drop-append,
  take-append, drop-drop, length-drop, ℕ, ◌+◌, ◌++◌, ◌≡◌, ◌≤◌, length, take, drop, ltb, Option,
  none, some, if◌then◌else◌,
}
use ledger_stacks.Error.{Result, ok, ◌>>=◌}
use ledger_stacks.Slice.{slice_from}
use ledger_stacks.Crates.{Bytes}

pub record Writer : Type 0 where
  pub buf : Bytes
  pub offset : ℕ

abbrev pub new_writer : Bytes → Writer
new_writer buf = record { buf = buf; offset = 0 }

-- `none` is `fmt::Error`.
unfoldable pub write_str : Writer → Bytes → Result (Option Writer)
write_str w bytes = do
  remainder ← slice_from w.offset w.buf
  if ltb (length remainder) (length bytes)
      then ok none
      else ok (
          some (record {
            buf = take w.offset w.buf ++ (bytes ++ drop (length bytes) remainder);
            offset = w.offset + length bytes;
          }))

-- `write!` of several pieces, one after the other.
unfoldable pub write_fmt : Writer → List Bytes → Result (Option Writer)
write_fmt w [] = ok (some w)
write_fmt w (piece ∷ pieces) = do
  written ← write_str w piece
  elim written [ none ↦ ok none | some w' ↦ write_fmt w' pieces ]

abbrev pub concat : List Bytes → Bytes
concat [] = []
concat (piece ∷ pieces) = piece ++ concat pieces

-- Behind what is written already.
write_str_after :
    (done rest piece : Bytes)
    → length piece ≤ length rest
    → write_str (record { buf = done ++ rest; offset = length done }) piece
      ≡ ok (
          some (record {
            buf = (done ++ piece) ++ drop (length piece) rest;
            offset = length (done ++ piece);
          }))
unfolding write_str
write_str_after done rest piece h = rw (
  le→leb (length done) (length (done ++ rest)) (omega (arith, length-append done rest)),
  drop-append (length done) done rest refl,
  le→ltb (length rest) (length piece) h,
  take-append (length done) done rest refl,
  length-append done piece,
  append_assoc done piece (drop (length piece) rest),
)

-- A text that fits is written to the front of a new writer's buffer.
pub write_str-new_writer :
    (buf text : Bytes)
    → length text ≤ length buf
    → write_str (new_writer buf) text
      ≡ ok (some (record { buf = text ++ drop (length text) buf; offset = length text }))
write_str-new_writer buf text h = write_str_after [] buf text h

write_fmt_after :
    (pieces : List Bytes) (done rest : Bytes)
    → length (concat pieces) ≤ length rest
    → write_fmt (record { buf = done ++ rest; offset = length done }) pieces
      ≡ ok (
          some (record {
            buf = (done ++ concat pieces) ++ drop (length (concat pieces)) rest;
            offset = length (done ++ concat pieces);
          }))
unfolding write_fmt
write_fmt_after [] done rest h = rw append-nil
write_fmt_after (piece ∷ pieces) done rest h =
    let size = length-append piece (concat pieces) in
    rw (
      write_str_after done rest piece (omega (arith, size)),
      write_fmt_after pieces (done ++ piece) (drop (length piece) rest)
          (omega (arith, size, length-drop (length piece) rest)),
      append_assoc done piece (concat pieces),
      drop-drop (length piece) (length (concat pieces)) (length (piece ++ concat pieces)) rest
          (omega (arith, size)),
    )

-- Pieces that fit together are written to the front of a new writer's buffer.
pub write_fmt-new_writer :
    (buf : Bytes) (pieces : List Bytes)
    → length (concat pieces) ≤ length buf
    → write_fmt (new_writer buf) pieces
      ≡ ok (
          some (record {
            buf = concat pieces ++ drop (length (concat pieces)) buf;
            offset = length (concat pieces);
          }))
write_fmt-new_writer buf pieces h = write_fmt_after pieces [] buf h
