-- ===== src/Transaction/Items/Lines.antt =====
-- transaction.rs: what a transaction shows at each index of the display.
use ledger_stacks.Base.{
  length, refl, ℕ, zero, suc, ◌+◌, ◌-◌, ◌%◌, ◌^◌, ◌≡◌, ◌<◌, ◌≤◌, ◌∙◌, ap, sym, List, [], ◌∷◌, ◌++◌,
  some, get_elem?, codes, arith, if◌then◌else◌, ltb, leb, Bool, lt→leb, le→ltb,
}
use ledger_stacks.Error.{
  Result, ok, err, panic, out_of_fuel, unwrap_or, ◌>>=◌, >>=-eq-ok, parser_value_out_of_range,
}
use ledger_stacks.Crates.{Crates, Bytes}
use ledger_stacks.Device.{Device}
use ledger_stacks.Format.Item.{Shown, Line, show_line}
use ledger_stacks.Common.Bytes.{sub_u8}
use ledger_stacks.Common.TransactionVersion.{TransactionVersion}
use ledger_stacks.Auth
use ledger_stacks.Auth.{TransactionAuth, standard, sponsored}
use ledger_stacks.Common.HashMode.{SignerId, origin, sponsor, invalid}
use ledger_stacks.Spending.Condition.{TransactionSpendingCondition}
use ledger_stacks.Transaction.Signers.{signs_with}
use ledger_stacks.Spending.Signer.{SpendingConditionSigner}
use ledger_stacks.Spending.Display.{signer_address, nonce_str, fee_str}
use ledger_stacks.Payload
use ledger_stacks.Payload.{TransactionPayload, token_transfer, smart_contract, contract_call}
use ledger_stacks.Payload.TokenTransfer
use ledger_stacks.Payload.ContractCall
use ledger_stacks.Payload.ContractCall.{contract_call_base_items}
use ledger_stacks.Payload.Display.{
  amount_stx, encoded_address, contract_name_line, contract_address, called_contract_line,
  get_token_transfer_items, get_contract_items, get_base_items,
}
use ledger_stacks.Payload.Display.Arguments.{get_contract_call_items}
use ledger_stacks.Payload.Items as PayloadItems
use ledger_stacks.Transaction.State.{Transaction, num_items}
use ledger_stacks.Transaction.Items.{get_item, get_origin_items, get_other_items, shown_signer}

ok_inj : {a b : ℕ} → ◌≡◌ {A = Result ℕ} (ok a) (ok b) → a ≡ b
ok_inj e = cc

-- A call has three lines at least, whatever the number of its arguments is.
call_lines :
    (r : Result ℕ) (m : ℕ)
    → unwrap_or contract_call_base_items (
        r >>= λ n.
        if ltb (n % 2 ^ 8) (2 ^ 8 - contract_call_base_items)
        then ok (n % 2 ^ 8 + contract_call_base_items)
        else err parser_value_out_of_range)
      ≡ ok m
    → 3 ≤ m
call_lines panic m e = cc
call_lines out_of_fuel m e = cc
call_lines (err why) m e = omega (arith, ok_inj e)
call_lines (ok n) m e = ground arith

-- The account that is shown is that of the party that signs.
signs_with-shown :
    (t : Transaction) (c : TransactionSpendingCondition)
    → signs_with t.transaction_auth t.signer ≡ some c
    → shown_signer t ≡ ok c.signer
unfolding shown_signer Auth.origin_signer Auth.sponsor_signer
signs_with-shown t c h = of_party t.transaction_auth t.signer h
  where
    of_party :
        (a : TransactionAuth) (id : SignerId)
        → signs_with a id ≡ some c
        → shown_signer (record t { transaction_auth = a; signer = id }) ≡ ok c.signer
    of_party (standard o) origin h = let same : o ≡ c = cc in rw same refl
    of_party (standard o) sponsor h = cc
    of_party (standard o) invalid h = cc
    of_party (sponsored o s) origin h = let same : o ≡ c = cc in rw same refl
    of_party (sponsored o s) sponsor h = let same : s ≡ c = cc in rw same refl
    of_party (sponsored o s) invalid h = cc

module _ ⦃crates : Crates⦄ ⦃device : Device⦄ where
  abbrev line : List ℕ → Result Bytes → Line
  line label text = record { label = label; text = text }

  abbrev pub signer_lines : SpendingConditionSigner → TransactionVersion → List Line
  signer_lines s version =
      line (codes "Origin") (signer_address s version)
      ∷ line (codes "Nonce") (nonce_str s)
      ∷ line (codes "Fee (uSTX)") (fee_str s)
      ∷ []

  -- Of a contract call, what stands before its arguments.
  abbrev pub payload_lines : TransactionPayload → List Line
  payload_lines (token_transfer t) =
      line (codes "Amount uSTX") (amount_stx t)
      ∷ line (codes "To") (encoded_address t)
      ∷ line (codes "Memo") (TokenTransfer.memo t)
      ∷ []
  payload_lines (smart_contract c) = line (codes "Contract Name") (contract_name_line c) ∷ []
  payload_lines (contract_call c) =
      line (codes "Contract address") (contract_address c)
      ∷ line (codes "Contract name") (called_contract_line c)
      ∷ line (codes "Function name") (ContractCall.function_name c)
      ∷ []

  -- The numbers of lines are added without an overflow.
  pub record Counted (expert : Bool) (t : Transaction) (n : ℕ) : Type 0 where
    pub payload_items : ℕ
    pub counts : Payload.num_items expert t.payload ≡ ok payload_items
    pub total : n ≡ 3 + payload_items + t.post_conditions.num_items
    pub small : n < 2 ^ 8

  added :
      (a b n : ℕ)
      → ◌≡◌ {A = Result ℕ}
          (if leb (2 ^ 8) (3 + a)
            then err parser_value_out_of_range
            else if leb (2 ^ 8) (3 + a + b)
            then err parser_value_out_of_range
            else ok (3 + a + b))
          (ok n)
      → (n ≡ 3 + a + b) × (n < 2 ^ 8)
  added a b n e = (ground arith, ground arith)

  pub counted :
      (expert : Bool) (t : Transaction) (n : ℕ) → num_items expert t ≡ ok n → Counted expert t n
  unfolding num_items
  counted expert t n e =
      let (a, ha, sum) = >>=-eq-ok (Payload.num_items expert t.payload) _ e in
      let (total, small) = added a t.post_conditions.num_items n sum in
      record { payload_items = a; counts = ha; total = total; small = small }

  by_payload :
      (expert : Bool) (p : TransactionPayload) (i : ℕ) (l : Line) (key value : Bytes) (page_idx : ℕ)
      → get_elem? (payload_lines p) i ≡ some l
      → PayloadItems.kind_items expert p i key value page_idx ≡ show_line l key value page_idx
  unfolding get_token_transfer_items get_contract_items get_contract_call_items get_base_items
  by_payload expert (token_transfer t) zero l key value page_idx e = cc
  by_payload expert (token_transfer t) (suc zero) l key value page_idx e = cc
  by_payload expert (token_transfer t) (suc (suc zero)) l key value page_idx e = cc
  by_payload expert (token_transfer t) (suc (suc (suc i))) l key value page_idx e = cc
  by_payload expert (smart_contract c) zero l key value page_idx e = cc
  by_payload expert (smart_contract c) (suc i) l key value page_idx e = cc
  by_payload expert (contract_call c) zero l key value page_idx e = cc
  by_payload expert (contract_call c) (suc zero) l key value page_idx e = cc
  by_payload expert (contract_call c) (suc (suc zero)) l key value page_idx e = cc
  by_payload expert (contract_call c) (suc (suc (suc i))) l key value page_idx e = cc

  get_item-signer_lines :
      (expert : Bool) (t : Transaction) (s : SpendingConditionSigner) (n i : ℕ) (l : Line)
      (key value : Bytes) (page_idx : ℕ)
      → num_items expert t ≡ ok n
      → shown_signer t ≡ ok s
      → get_elem? (signer_lines s t.version) i ≡ some l
      → get_item expert t i key value page_idx ≡ (t, show_line l key value page_idx)
  unfolding get_item get_origin_items
  get_item-signer_lines expert t s n zero l key value page_idx e es el =
      let c = counted expert t n e in rw (e, lt→leb n 0 (omega (arith, c.total)), es) (cc)
  get_item-signer_lines expert t s n (suc zero) l key value page_idx e es el =
      let c = counted expert t n e in rw (e, lt→leb n 1 (omega (arith, c.total)), es) (cc)
  get_item-signer_lines expert t s n (suc (suc zero)) l key value page_idx e es el =
      let c = counted expert t n e in rw (e, lt→leb n 2 (omega (arith, c.total)), es) (cc)
  get_item-signer_lines expert t s n (suc (suc (suc i))) l key value page_idx e es el = cc

  pub get_item-kind_items :
      (expert : Bool) (t : Transaction) (n m i : ℕ) (key value : Bytes) (page_idx : ℕ)
      → num_items expert t ≡ ok n
      → Payload.num_items expert t.payload ≡ ok m
      → i < m
      → get_item expert t (3 + i) key value page_idx
        ≡ (t, PayloadItems.kind_items expert t.payload i key value page_idx)
  unfolding get_item get_other_items PayloadItems.get_items
  get_item-kind_items expert t n m i key value page_idx e em h =
      let c = counted expert t n e in
      let same : c.payload_items ≡ m = ok_inj (sym c.counts ∙ em) in
      let front : sub_u8 n t.post_conditions.num_items ≡ 3 + m =
        omega (arith, c.total, c.small, same) in
      let index : sub_u8 m (sub_u8 (3 + m) (3 + i)) ≡ i = omega (arith, c.total, c.small, same) in
      rw (
        e,
        lt→leb n (3 + i) (omega (arith, c.total, same)),
        le→ltb (3 + i) 3 (omega arith),
        front,
        lt→leb (3 + m) (3 + i) (omega arith),
        em,
        index,
      )

  -- Every payload has the lines of its list, at least.
  enough_lines :
      (expert : Bool) (p : TransactionPayload) (m : ℕ)
      → Payload.num_items expert p ≡ ok m
      → length (payload_lines p) ≤ m
  unfolding Payload.num_items ContractCall.num_items
  enough_lines expert (token_transfer t) m e = omega (arith, ok_inj e)
  enough_lines expert (smart_contract c) m e = omega (arith, ok_inj e)
  enough_lines expert (contract_call c) m e = call_lines (ContractCall.num_args expert c) m e

  in_range : (xs : List Line) (i : ℕ) (l : Line) → get_elem? xs i ≡ some l → i < length xs
  in_range [] i l e = cc
  in_range (x ∷ xs) zero l e = omega arith
  in_range (x ∷ xs) (suc i) l e = omega (arith, in_range xs i l e)

  -- While the numbers of lines are counted in a byte and the transaction names a party that signs it,
  -- an index of the display that is no condition's shows the line of the list that stands there:
  -- address, nonce and fee of that party, which are the sponsor's if it is the sponsor that signs, and
  -- then the payload's lines, of a contract call those before its arguments. The transaction is left
  -- as it is.
  pub get_item-lines :
      (expert : Bool) (t : Transaction) (c : TransactionSpendingCondition) (n i : ℕ) (l : Line)
      (key value : Bytes) (page_idx : ℕ)
      → num_items expert t ≡ ok n
      → signs_with t.transaction_auth t.signer ≡ some c
      → get_elem? (signer_lines c.signer t.version ++ payload_lines t.payload) i ≡ some l
      → get_item expert t i key value page_idx ≡ (t, show_line l key value page_idx)
  get_item-lines expert t c n zero l key value page_idx e es el =
      get_item-signer_lines expert t c.signer n 0 l key value page_idx e (signs_with-shown t c es)
        el
  get_item-lines expert t c n (suc zero) l key value page_idx e es el =
      get_item-signer_lines expert t c.signer n 1 l key value page_idx e (signs_with-shown t c es)
        el
  get_item-lines expert t c n (suc (suc zero)) l key value page_idx e es el =
      get_item-signer_lines expert t c.signer n 2 l key value page_idx e (signs_with-shown t c es)
        el
  get_item-lines expert t c n (suc (suc (suc i))) l key value page_idx e es el =
      let k = counted expert t n e in
      let within = in_range (payload_lines t.payload) i l el in
      let many = enough_lines expert t.payload k.payload_items k.counts in
      let at : 3 + i ≡ suc (suc (suc i)) = omega arith in
      ap (λ (j : ℕ). get_item expert t j key value page_idx) (sym at)
      ∙ get_item-kind_items expert t n k.payload_items i key value page_idx e k.counts
          (omega (arith, within, many))
      ∙ ap (λ (r : Result Shown). (t, r)) (by_payload expert t.payload i l key value page_idx el)
