-- ===== src/Payload/Display/Arguments/Lines.antt =====
-- transaction_payload.rs: what is shown for an argument of a contract call.
use ledger_stacks.Base.{
  ℕ, zero, suc, Bool, ◌+◌, ◌-◌, ◌^◌, ◌<◌, ◌≤◌, ◌≡◌, refl, List, [], ◌∷◌, ◌++◌, All, length, le→ltb,
  arith, get_elem?, some,
}
use ledger_stacks.Error.{Result, ok, err, panic, out_of_fuel, ◌>>=◌}
use ledger_stacks.Crates.{Crates, Bytes}
use ledger_stacks.Device.{Device}
use ledger_stacks.Format.Item.{Shown, show_value}
use ledger_stacks.Value.Encoding.{Clarity}
use ledger_stacks.Payload.ContractCall
use ledger_stacks.Payload.ContractCall.{TransactionContractCall}
use ledger_stacks.Payload.ContractCall.RoundTrip
use ledger_stacks.Payload.ContractCall.RoundTrip.{IsArgument, argument_at-encode}
use ledger_stacks.Payload.Display.Arguments.{argument_key, relabel, get_contract_call_args}
use ledger_stacks.Payload.Display.Arguments.Keys.{Parts, Keyed, relabel-Keyed}
use ledger_stacks.Payload.Display.Arguments.Texts.{
  id_of, text_of, FitsBuffer, argument_text-encode, value_id-encode, payload-encode,
}

member :
    (vs : List Clarity) (i : ℕ) (v : Clarity)
    → All IsArgument vs
    → get_elem? vs i ≡ some v
    → IsArgument v
member [] i v h e = cc
member (x ∷ vs) zero v (hx, h) e = let same : x ≡ v = cc in rw (← same) hx
member (x ∷ vs) (suc i) v (hx, h) e = member vs i v h e

module _ ⦃crates : Crates⦄ ⦃device : Device⦄ where
  -- What the display gets for an argument under a key.
  abbrev pub show_text : Clarity → Bytes → Bytes → ℕ → Result Shown
  show_text v key value page_idx = do text ← text_of v; show_value key value text page_idx

  late_key :
      {A B : Type 0} (m : Result Bytes) (text : Result A) (late : Bytes → Result Bytes)
      (show : Bytes → A → Result B) (k : Bytes)
      → (m >>= late) ≡ ok k
      → (m >>= λ numbered. text >>= λ t. late numbered >>= λ k'. show k' t)
        ≡ (text >>= λ t. show k t)
  late_key (ok numbered) (ok t) late show k e = rw e refl
  late_key (ok numbered) (err why) late show k e = refl
  late_key (ok numbered) panic late show k e = refl
  late_key (ok numbered) out_of_fuel late show k e = refl
  late_key (err why) text late show k e = cc
  late_key panic text late show k e = cc
  late_key out_of_fuel text late show k e = cc

  pub get_contract_call_args-lines :
      (expert : Bool) (c : TransactionContractCall) (s : Parts c) (vs : List Clarity) (rest : Bytes)
      (v : Clarity) (i : ℕ) (key value : Bytes) (page_idx : ℕ)
      → ContractCall.function_args expert c ≡ ok (record { bytes = RoundTrip.encode vs ++ rest })
      → All IsArgument vs
      → length vs < 2 ^ 32
      → get_elem? vs i ≡ some v
      → FitsBuffer v
      → i < 10
      → 14 ≤ length key
      → (k : Bytes) × (Keyed c s key v i k
          × (get_contract_call_args expert c (3 + i) key value page_idx
              ≡ show_text v k value page_idx))
  unfolding get_contract_call_args
  get_contract_call_args-lines expert c s vs rest v i key value page_idx ha all few there fits low
        room =
      let (valid, (shallow, small)) = member vs i v all there in
      let index : 3 + i - 3 ≡ i = omega arith in
      let (k, (keyed, run)) = relabel-Keyed c s v i key low room in
      (
        k,
        (
          keyed,
          rw
              (
                le→ltb (3 + i) 3 (omega arith),
                ha,
                index,
                argument_at-encode vs i rest all few,
                there,
                payload-encode v,
                value_id-encode v,
                argument_text-encode v valid small fits,
              )
              (late_key (argument_key key i) (text_of v)
                (λ numbered. relabel (id_of v) i c numbered)
                (λ k' text. show_value k' value text page_idx) k run),
        ),
      )
