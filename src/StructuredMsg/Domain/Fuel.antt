-- ===== src/StructuredMsg/Domain/Fuel.antt =====
-- structured_msg.rs: the parsing of a domain ends.
use ledger_stacks.Base.{
  ℕ, [], ◌∷◌, zero, suc, ◌+◌, ◌<◌, ◌≡◌, ◌==◌, ◌||◌, not, Bool, true, false, Option, none, some,
  length, arith, if◌then◌else◌,
}
use ledger_stacks.Error.{
  Result, ok, err, panic, out_of_fuel, ◌>>=◌, ok_or, to_option, parser_invalid_structured_msg,
}
use ledger_stacks.Crates.{Crates, Bytes, Returns-be_u32}
use ledger_stacks.Common.Limits.{max_depth}
use ledger_stacks.Common.ClarityName.{ClarityName}
use ledger_stacks.Value.Id
use ledger_stacks.Value.Id.{ValueId}
use ledger_stacks.Value.Parse
use ledger_stacks.Value.Parse.{Value, value_id, tuple, new_tuple}
use ledger_stacks.Value.Tuple
use ledger_stacks.Value.Tuple.{TupleIter, next}
use ledger_stacks.Value.Tuple.Fuel.{
  HasFuel, HasFuel->>=, HasFuel-Returns, HasFuel-unwrap, HasFuel-slice_from, HasFuel-value,
  HasFuel-next, next-left, left,
}
use ledger_stacks.StructuredMsg.Domain.{Domain, len, check_fields, is_field, from_bytes}

HasFuel-ok_or : {A : Type 0} (o : Option A) → HasFuel (ok_or parser_invalid_structured_msg o)
HasFuel-ok_or none = tt
HasFuel-ok_or (some a) = tt

HasFuel-to_option : {A : Type 0} (m : Result A) → HasFuel m → HasFuel (to_option m)
HasFuel-to_option (ok a) h = tt
HasFuel-to_option (err e) h = tt
HasFuel-to_option panic h = tt
HasFuel-to_option out_of_fuel h = h

HasFuel-if :
    {A : Type 0} (b : Bool) (x y : Result A) → HasFuel x → HasFuel y → HasFuel (if b then x else y)
HasFuel-if true x y hx hy = hx
HasFuel-if false x y hx hy = hy

HasFuel-id : (v : Value) → HasFuel (value_id v)
unfolding value_id
HasFuel-id v = first v.bytes
  where
    first : (bs : Bytes) → HasFuel (value_id (record { bytes = bs }))
    first [] = tt
    first (b ∷ bs) =
        HasFuel-unwrap (Id.try_from b) (HasFuel-Returns (Id.try_from b) (Id.Returns-try_from b))

HasFuel-tuple : (v : Value) → HasFuel (tuple v)
unfolding tuple new_tuple Parse.payload
HasFuel-tuple v = HasFuel-to_option (new_tuple v) (
    HasFuel->>= (value_id v) _ (HasFuel-id v)
      λ id _. HasFuel-if (not (Id.is_tuple id)) _ _ tt (HasFuel-slice_from 1 v.bytes))

branch :
    {A : Type 0} (b : Bool) (m : Result A)
    → HasFuel m
    → HasFuel (elim b [ true ↦ m | false ↦ err parser_invalid_structured_msg ])
branch true m h = h
branch false m h = tt

module _ ⦃crates : Crates⦄ where
  HasFuel-check_fields :
      (fuel : ℕ) (it : TupleIter) (items : ℕ)
      → left it < fuel
      → HasFuel (check_fields fuel it items)
  unfolding check_fields
  HasFuel-check_fields zero it items h = absurd (omega arith)
  HasFuel-check_fields (suc fuel) it items h =
      HasFuel->>= (next it) _ (HasFuel-next it)
        λ found e. turn fuel it items found (HasFuel-check_fields fuel) h e
    where
      turn :
          (fuel : ℕ) (it : TupleIter) (items : ℕ)
          (found : Option ((ClarityName × Value) × TupleIter))
          → ((it' : TupleIter) (items : ℕ)
              → left it' < fuel
              → HasFuel (check_fields fuel it' items))
          → left it < suc fuel
          → next it ≡ ok found
          → HasFuel (elim found [
            | none ↦ ok items
            | some ((key, value), it') ↦ value_id value >>= λ id. elim (is_field key.bytes id) [
              | true ↦ check_fields fuel it' (items + 1)
              | false ↦ err parser_invalid_structured_msg
            ]
          ])
      turn fuel it items none rec h e = tt
      turn fuel it items (some ((key, value), it')) rec h e =
          HasFuel->>= (value_id value) _ (HasFuel-id value) λ id _.
            branch (is_field key.bytes id) (check_fields fuel it' (items + 1))
              (rec it' (items + 1) (omega (arith, h, next-left it it' (key, value) e)))

  -- The fuel of the loop over the fields is enough for every input.
  pub HasFuel-from_bytes : (bytes : Bytes) → HasFuel (from_bytes bytes)
  unfolding from_bytes Tuple.payload Tuple.num_elements
  HasFuel-from_bytes bytes =
      HasFuel->>= (Parse.from_bytes max_depth bytes) _ (HasFuel-value max_depth bytes)
        λ (rem, value) _. HasFuel->>= (tuple value) _ (HasFuel-tuple value) λ found _.
          HasFuel->>= (ok_or parser_invalid_structured_msg found) _ (HasFuel-ok_or found) λ raw _.
            HasFuel->>= (Tuple.payload (record { bytes = raw })) _ (HasFuel-slice_from 4 raw)
              λ payload _.
                HasFuel->>=
                  (check_fields (suc (length payload)) (record { bytes = payload; position = 0 }) 0)
                  _
                  (HasFuel-check_fields (suc (length payload))
                    (record { bytes = payload; position = 0 }) 0 (omega arith))
                  λ items _.
                    HasFuel->>= (Tuple.num_elements (record { bytes = raw })) _
                      (HasFuel-unwrap _ (
                        HasFuel->>= (crates.be_u32 raw) _
                          (HasFuel-Returns (crates.be_u32 raw) (Returns-be_u32 raw)) λ _ _. tt))
                      λ n _.
                        HasFuel-if {A = Bytes × Domain} (not (items == n) || not (items == len))
                          (err parser_invalid_structured_msg) (ok (rem, record { value = value }))
                          tt tt
