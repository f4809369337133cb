-- ===== src/Payload/Display/Arguments/Keys.antt =====
-- transaction_payload.rs: the key under which an argument of a contract call is shown.
use ledger_stacks.Base.{
  ℕ, Bool, true, false, ◌+◌, ◌≡◌, ◌≤◌, ◌<◌, ◌⊎◌, refl, ap, ◌∙◌, [], ◌∷◌, ◌++◌, length, drop,
  replicate, length-drop, length-replicate, arith, codes, Bool-cases, inl, inr, ◌&&◌, ◌==◌, ==_iff,
  bytes_eq, bytes_eq→eq, bytes_eq_self, lt→ltb,
}
use ledger_stacks.Error.{ok, ◌>>=◌}
use ledger_stacks.Slice.{zeroed}
use ledger_stacks.Crates.{Crates, Bytes}
use ledger_stacks.Device.{Device, non_negative}
use ledger_stacks.Format.Decimal.{decimal, to_digits}
use ledger_stacks.Format.Writer.{write_fmt-new_writer}
use ledger_stacks.Format.Item.{write_key, write_key-fits}
use ledger_stacks.Value.Encoding.{Clarity}
use ledger_stacks.Payload.ContractCall
use ledger_stacks.Payload.ContractCall.{TransactionContractCall}
use ledger_stacks.Payload.Display.{
  label_stacking_value, contract_address, called_contract_line, is_pox,
}
use ledger_stacks.Payload.Display.Arguments.{argument_key, relabel}
use ledger_stacks.Payload.Display.Arguments.Texts.{id_of}

-- The first argument is an unsigned number, in a call of the contract "pox" of a boot address.
pub record IsStacking (address name : Bytes) (v : Clarity) (i : ℕ) : Type 0 where
  pub number : ℕ
  pub unsigned : v ≡ Clarity.uint number
  pub first : i ≡ 0
  pub boot :
      (address ≡ codes "SP000000000000000000002Q6VF78")
      ⊎ (address ≡ codes "ST000000000000000000002AMW42H")
  pub pox : name ≡ codes "pox"

-- The key: the text at the front of the buffer, which the two calls that lock STX have emptied before.
pub data KeyOf (address name function key : Bytes) (v : Clarity) (i : ℕ) : Bytes → Type 0 where
  stacked :
      IsStacking address name v i
      → function ≡ codes "stack-stx"
      → KeyOf address name function key v i
          (codes "stacked uSTX" ++ drop 12 (replicate (length key) 0))
  delegated :
      IsStacking address name v i
      → function ≡ codes "delegate-stx"
      → KeyOf address name function key v i
          (codes "delegated uSTX" ++ drop 14 (replicate (length key) 0))
  numbered :
      ¬ (
        IsStacking address name v i
        × ((function ≡ codes "stack-stx") ⊎ (function ≡ codes "delegate-stx")))
      → KeyOf address name function key v i (b'a' ∷ b'r' ∷ b'g' ∷ (b'0' + i) ∷ drop 4 key)

compared :
    (xs ys : Bytes)
    → ((bytes_eq xs ys ≡ true) × (xs ≡ ys)) ⊎ ((bytes_eq xs ys ≡ false) × ¬ (xs ≡ ys))
compared xs ys = elim (Bool-cases (bytes_eq xs ys)) [
  | inl equal ↦ inl (equal, bytes_eq→eq xs ys equal)
  | inr other ↦ inr (other, λ same. cc (rw (same, bytes_eq_self ys) at other))
]

abbrev IsBoot : Bytes → Type 0
IsBoot address =
    (address ≡ codes "SP000000000000000000002Q6VF78")
    ⊎ (address ≡ codes "ST000000000000000000002AMW42H")

digit : (i : ℕ) → i < 10 → decimal i ≡ (b'0' + i) ∷ []
unfolding decimal to_digits
digit i small = let swap : i + b'0' ≡ b'0' + i = omega arith in rw (lt→ltb i 10 small, swap) refl

and_false : (a : Bool) {b : Bool} → b ≡ false → (a && b) ≡ false
and_false true e = e
and_false false e = refl

module _ ⦃crates : Crates⦄ ⦃device : Device⦄ where
  is_pox-cases :
      (address name : Bytes)
      → ((is_pox address name ≡ true) × (IsBoot address × (name ≡ codes "pox")))
        ⊎ ((is_pox address name ≡ false) × ¬ (IsBoot address × (name ≡ codes "pox")))
  is_pox-cases address name = elim (compared name (codes "pox")) [
    | inl (e, same) ↦ elim (compared address (codes "SP000000000000000000002Q6VF78")) [
      | inl (e1, main) ↦ inl (rw (e, e1) refl, (inl main, same))
      | inr (e1, not_main) ↦ elim (compared address (codes "ST000000000000000000002AMW42H")) [
        | inl (e2, test) ↦ inl (rw (e, e1, e2) refl, (inr test, same))
        | inr (e2, not_test) ↦ inr (
          rw (e, e1, e2) refl,
          λ (boot, _). elim boot [ inl main ↦ not_main main | inr test ↦ not_test test ],
        )
      ]
    ]
    | inr (e, other) ↦ inr (and_false _ e, λ (_, same). other same)
  ]

  argument_key-numbered :
      (key : Bytes) (i : ℕ)
      → i < 10
      → 4 ≤ length key
      → argument_key key i ≡ ok (b'a' ∷ b'r' ∷ b'g' ∷ (b'0' + i) ∷ drop 4 key)
  unfolding argument_key
  argument_key-numbered key i small room =
      let text : device.numtoa_str 3 (non_negative i) ≡ ok ((b'0' + i) ∷ []) =
        device.numtoa_law 3 (non_negative i) (rw (digit i small) (omega arith))
        ∙ ap (λ (bs : Bytes). ok bs) (digit i small) in
      rw (
        text,
        write_fmt-new_writer key (codes "arg" ∷ ((b'0' + i) ∷ []) ∷ []) (omega (arith, room)),
      )

  -- Only an unsigned number may get another key.
  by_kind :
      (v : Clarity) (i : ℕ) (c : TransactionContractCall) (key : Bytes)
      → ((n : ℕ) × (v ≡ Clarity.uint n))
        ⊎ ((¬ ((n : ℕ) × (v ≡ Clarity.uint n))) × (relabel (id_of v) i c key ≡ ok key))
  unfolding relabel
  by_kind (Clarity.uint n) i c key = inl (n, refl)
  by_kind (Clarity.int n) i c key = inr (λ (n, e). cc, refl)
  by_kind _ i c key = inr (λ (n, e). cc, refl)

  -- The call's address, contract and function, as they are shown.
  pub record Parts (c : TransactionContractCall) : Type 0 where
    pub address : Bytes
    pub name : Bytes
    pub function : Bytes
    pub address_read : contract_address c ≡ ok address
    pub name_read : called_contract_line c ≡ ok name
    pub function_read : ContractCall.function_name c ≡ ok function

  abbrev pub Keyed : (c : TransactionContractCall) → Parts c → Bytes → Clarity → ℕ → Bytes → Type 0
  Keyed c s key v i k = KeyOf s.address s.name s.function key v i k

  emptied :
      (buffer label : Bytes) (n : ℕ)
      → length buffer ≡ n
      → length label ≤ n
      → write_key (zeroed buffer) label ≡ ok (label ++ drop (length label) (replicate n 0))
  emptied buffer label n size fits =
      let empty : Bytes = replicate n 0 in
      ap (λ (m : ℕ). write_key (replicate m 0) label) size
      ∙ write_key-fits empty label (omega (arith, fits, length-replicate {A = ℕ} n 0))

  first_number :
      (c : TransactionContractCall) (s : Parts c) (n : ℕ) (key : Bytes)
      → 14 ≤ length key
      → let buffer : Bytes = b'a' ∷ b'r' ∷ b'g' ∷ b'0' ∷ drop 4 key in
        (k : Bytes) × (Keyed c s key (Clarity.uint n) 0 k × (label_stacking_value c buffer ≡ ok k))
  unfolding label_stacking_value
  first_number c s n key room =
      let buffer : Bytes = b'a' ∷ b'r' ∷ b'g' ∷ b'0' ∷ drop 4 key in
      let size : length buffer ≡ length key = omega (arith, length-drop 4 key, room) in
      let empty : Bytes = replicate (length key) 0 in
      elim (is_pox-cases s.address s.name) [
        | inr (e, other) ↦ (
          buffer,
          (numbered (λ (b, _). other (b.boot, b.pox)), rw (s.address_read, s.name_read, e) refl),
        )
        | inl (e, (boot, pox)) ↦
            let stacking : IsStacking s.address s.name (Clarity.uint n) 0 = record {
              number = n;
              unsigned = refl;
              first = refl;
              boot = boot;
              pox = pox;
            } in
            elim (compared s.function (codes "stack-stx")) [
              | inl (e1, f) ↦ (
                codes "stacked uSTX" ++ drop 12 empty,
                (
                  stacked stacking f,
                  rw (s.address_read, s.name_read, e, s.function_read, e1)
                      (emptied buffer (codes "stacked uSTX") (length key) size
                        (omega (arith, room))),
                ),
              )
              | inr (e1, not_stack) ↦ elim (compared s.function (codes "delegate-stx")) [
                | inl (e2, f) ↦ (
                  codes "delegated uSTX" ++ drop 14 empty,
                  (
                    delegated stacking f,
                    rw (s.address_read, s.name_read, e, s.function_read, e1, e2)
                        (emptied buffer (codes "delegated uSTX") (length key) size
                          (omega (arith, room))),
                  ),
                )
                | inr (e2, not_delegate) ↦ (
                  buffer,
                  (
                    numbered (λ (_, f). elim f [
                      | inl is_stack ↦ not_stack is_stack
                      | inr is_delegate ↦ not_delegate is_delegate
                    ]),
                    rw (s.address_read, s.name_read, e, s.function_read, e1, e2) refl,
                  ),
                )
              ]
            ]
      ]

  -- The key of an argument, of at most ten, in a buffer that has room for the longest.
  pub relabel-Keyed :
      (c : TransactionContractCall) (s : Parts c) (v : Clarity) (i : ℕ) (key : Bytes)
      → i < 10
      → 14 ≤ length key
      → (k : Bytes) × (Keyed c s key v i k
          × ((argument_key key i >>= λ numbered_key. relabel (id_of v) i c numbered_key) ≡ ok k))
  unfolding relabel
  relabel-Keyed c s v i key small room =
      let buffer : Bytes = b'a' ∷ b'r' ∷ b'g' ∷ (b'0' + i) ∷ drop 4 key in
      let front = argument_key-numbered key i small (omega (arith, room)) in
      elim (by_kind v i c buffer) [
        | inr (other, e) ↦
            (buffer, (numbered (λ (b, _). other (b.number, b.unsigned)), rw (front, e) refl))
        | inl (n, unsigned) ↦ elim (Bool-cases (i == 0)) [
          | inl e ↦
              let at_0 : i ≡ 0 = (==_iff i 0).0 e in
              let (k, (keyed, run)) = first_number c s n key room in
              (k, (rw (unsigned, at_0) keyed, rw (front, unsigned, e, at_0) run))
          | inr e ↦
              (buffer, (numbered (λ (b, _). cc (rw b.first at e)), rw (front, unsigned, e) refl))
        ]
      ]
