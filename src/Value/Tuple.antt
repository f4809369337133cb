-- ===== src/Value/Tuple.antt =====
-- value/tuple.rs: `Tuple`, the fields of a Clarity tuple one after the other.
pub mod Fuel
use ledger_stacks.Base.{
  ℕ, zero, suc, ◌-◌, List, [], ◌∷◌, length, ltb, Option, none, some, if◌then◌else◌,
}
use ledger_stacks.Error.{Result, ok, out_of_fuel, unwrap, ◌>>=◌}
use ledger_stacks.Slice.{slice_from}
use ledger_stacks.Crates.{Crates, Bytes}
use ledger_stacks.Common.Limits.{max_depth}
use ledger_stacks.Common.ClarityName
use ledger_stacks.Common.ClarityName.{ClarityName}
use ledger_stacks.Value.Parse
use ledger_stacks.Value.Parse.{Value}

pub record Tuple : Type 0 where
  pub bytes : Bytes

unfoldable pub payload : Tuple → Result Bytes
payload t = slice_from 4 t.bytes

pub record TupleIter : Type 0 where
  pub bytes : Bytes
  pub position : ℕ

module _ ⦃crates : Crates⦄ where
  unfoldable pub num_elements : Tuple → Result ℕ
  num_elements t = unwrap (do (_, len) ← crates.be_u32 t.bytes; ok len)

  -- A field that does not parse is a panic.
  unfoldable pub next : TupleIter → Result (Option ((ClarityName × Value) × TupleIter))
  next it =
      if ltb it.position (length it.bytes)
      then (do
        rest ← slice_from it.position it.bytes
        (rem, name) ← unwrap (ClarityName.from_bytes rest)
        (rem', value) ← unwrap (Parse.from_bytes max_depth rem)
        ok (some ((name, value), record it { position = length it.bytes - length rem' })))
      else ok none

  -- All that the iterator gives. Each field takes a byte at least.
  unfoldable pub collect : ℕ → TupleIter → Result (List (ClarityName × Value))
  collect zero it = out_of_fuel
  collect (suc fuel) it = do
    found ← next it
    elim found [
      | none ↦ ok []
      | some (field, it') ↦ collect fuel it' >>= λ fields. ok (field ∷ fields)
    ]

  unfoldable pub iter : Tuple → Result (List (ClarityName × Value))
  iter t = do
    fields ← payload t
    collect (suc (length fields)) (record { bytes = fields; position = 0 })
