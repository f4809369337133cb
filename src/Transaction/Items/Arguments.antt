-- ===== src/Transaction/Items/Arguments.antt =====
-- transaction.rs: the lines of a contract call's arguments.
use ledger_stacks.Base.{
  ℕ, zero, suc, ◌+◌, ◌-◌, ◌%◌, ◌^◌, ◌<◌, ◌≤◌, ◌≡◌, ◌∙◌, ap, sym, List, [], ◌∷◌, ◌++◌, All, length,
  lt→ltb, le→ltb, arith, get_elem?, some, Bool,
}
use ledger_stacks.Error.{Result, ok}
use ledger_stacks.Crates.{Crates, Bytes, be_u32-append}
use ledger_stacks.Device.{Device}
use ledger_stacks.Format.Item.{Shown}
use ledger_stacks.Value.Encoding.{Clarity}
use ledger_stacks.Payload
use ledger_stacks.Payload.{contract_call}
use ledger_stacks.Payload.ContractCall
use ledger_stacks.Payload.ContractCall.{TransactionContractCall, max_num_args, arguments_num_args}
use ledger_stacks.Payload.ContractCall.RoundTrip
use ledger_stacks.Payload.ContractCall.RoundTrip.{IsArgument}
use ledger_stacks.Payload.Display.Arguments.{get_contract_call_items}
use ledger_stacks.Payload.Display.Arguments.Texts.{FitsBuffer}
use ledger_stacks.Payload.Display.Arguments.Keys.{Parts, Keyed}
use ledger_stacks.Payload.Display.Arguments.Lines.{show_text, get_contract_call_args-lines}
use ledger_stacks.Payload.Items as PayloadItems
use ledger_stacks.Transaction.State.{Transaction, num_items}
use ledger_stacks.Transaction.Items.{get_item}
use ledger_stacks.Transaction.Items.Lines.{get_item-kind_items}

in_range : (vs : List Clarity) (i : ℕ) (v : Clarity) → get_elem? vs i ≡ some v → i < length vs
in_range [] i v e = cc
in_range (x ∷ vs) zero v e = omega arith
in_range (x ∷ vs) (suc i) v e = omega (arith, in_range vs i v e)

module _ ⦃crates : Crates⦄ ⦃device : Device⦄ where
  call_items :
      (expert : Bool) (c : TransactionContractCall) (vs : List Clarity) (rest : Bytes)
      → ContractCall.function_args expert c ≡ ok (record { bytes = RoundTrip.encode vs ++ rest })
      → length vs ≤ max_num_args
      → Payload.num_items expert (contract_call c) ≡ ok (length vs + 3)
  unfolding Payload.num_items ContractCall.num_items ContractCall.num_args arguments_num_args
  call_items expert c vs rest ha few =
      let small : length vs % 2 ^ 8 ≡ length vs = omega (arith, few) in
      rw (
        ha,
        be_u32-append (length vs) (RoundTrip.encode_values vs ++ rest) (omega (arith, few)),
        small,
        lt→ltb (length vs) (2 ^ 8 - 3) (omega (arith, few)),
      )

  -- While the numbers of lines are counted in a byte and the key has room for 14 bytes, an argument of
  -- a call that has at most ten valid arguments, and an address and names that can be shown, is shown
  -- at its place behind the six lines in front of it. Its key is "arg" and its number, but "stacked
  -- uSTX" or "delegated uSTX" for an unsigned number that is the first argument of stack-stx or of
  -- delegate-stx in the contract pox of a boot address. Its text is a number in decimal digits, if the
  -- buffer has room for them, an ASCII string whole up to 60 characters and else its first 56, a
  -- principal as its address, and of another value its kind. The transaction is left as it is.
  pub get_item-argument :
      (expert : Bool) (t : Transaction) (c : TransactionContractCall) (s : Parts c)
      (vs : List Clarity) (rest : Bytes) (v : Clarity) (n i : ℕ) (key value : Bytes) (page_idx : ℕ)
      → t.payload ≡ contract_call c
      → num_items expert t ≡ ok n
      → ContractCall.function_args expert c ≡ ok (record { bytes = RoundTrip.encode vs ++ rest })
      → All IsArgument vs
      → length vs ≤ max_num_args
      → get_elem? vs i ≡ some v
      → FitsBuffer v
      → 14 ≤ length key
      → (k : Bytes) × (Keyed c s key v i k
          × (get_item expert t (6 + i) key value page_idx ≡ (t, show_text v k value page_idx)))
  unfolding get_contract_call_items
  get_item-argument expert t c s vs rest v n i key value page_idx call e ha all few there fits
        room =
      let count : Payload.num_items expert t.payload ≡ ok (length vs + 3) =
        rw call (call_items expert c vs rest ha few) in
      let place : 3 + (3 + i) ≡ 6 + i = omega arith in
      let within = in_range vs i v there in
      let (k, (keyed, run)) =
        get_contract_call_args-lines expert c s vs rest v i key value page_idx ha all
          (omega (arith, few)) there fits (omega (arith, few, within)) room in
      let shown : PayloadItems.kind_items expert t.payload (3 + i) key value page_idx
          ≡ show_text v k value page_idx =
        rw (call, le→ltb (3 + i) 3 (omega arith)) run in
      (
        k,
        (
          keyed,
          ap (λ (j : ℕ). get_item expert t j key value page_idx) (sym place)
              ∙ get_item-kind_items expert t n (length vs + 3) (3 + i) key value page_idx e count
                  (omega (arith, within))
              ∙ ap (λ (r : Result Shown). (t, r)) shown,
        ),
      )
