-- ===== src/Value/Encoding.antt =====
-- Clarity values as SIP-005 writes them, and what their parsing counts.
use ledger_stacks.Base.{ℕ, suc, ◌+◌, ◌^◌, ◌<◌, ◌≡◌, true, [], ◌∷◌, ◌++◌, length}
use ledger_stacks.Slice.{is_ascii}
use ledger_stacks.Crates.{Bytes, to_be}
use ledger_stacks.Common.ClarityName
use ledger_stacks.Common.ClarityName.{ClarityName}
use ledger_stacks.Principal.Standard
use ledger_stacks.Principal.Standard.{StandardPrincipal}
use ledger_stacks.Principal.Contract
use ledger_stacks.Principal.Contract.{ContractPrincipal}

-- An `int` is given by its 128 bits.
mutual
  pub data Clarity : Type 0 where
    int uint : ℕ → Clarity
    buffer string_ascii string_utf8 : Bytes → Clarity
    bool_true bool_false none : Clarity
    standard_principal : StandardPrincipal → Clarity
    contract_principal : ContractPrincipal → Clarity
    response_ok response_err some : Clarity → Clarity
    list : Items → Clarity
    tuple : Fields → Clarity

  pub data Items : Type 0 where
    no_items : Items
    item : Clarity → Items → Items

  pub data Fields : Type 0 where
    no_fields : Fields
    field : ClarityName → Clarity → Fields → Fields

abbrev pub count_items : Items → ℕ
count_items no_items = 0
count_items (item _ xs) = suc (count_items xs)

abbrev pub count_fields : Fields → ℕ
count_fields no_fields = 0
count_fields (field _ _ fs) = suc (count_fields fs)

abbrev pub counted : Bytes → Bytes
counted bs = to_be 4 (length bs) ++ bs

abbrev mutual
  pub encode : Clarity → Bytes
  encode (int n) = 0x00 ∷ to_be 16 n
  encode (uint n) = 0x01 ∷ to_be 16 n
  encode (buffer bs) = 0x02 ∷ counted bs
  encode bool_true = 0x03 ∷ []
  encode bool_false = 0x04 ∷ []
  encode (standard_principal p) = 0x05 ∷ p.bytes
  encode (contract_principal p) = 0x06 ∷ Contract.encode p
  encode (response_ok v) = 0x07 ∷ encode v
  encode (response_err v) = 0x08 ∷ encode v
  encode none = 0x09 ∷ []
  encode (some v) = 0x0a ∷ encode v
  encode (list xs) = 0x0b ∷ to_be 4 (count_items xs) ++ encode_items xs
  encode (tuple fs) = 0x0c ∷ to_be 4 (count_fields fs) ++ encode_fields fs
  encode (string_ascii bs) = 0x0d ∷ counted bs
  encode (string_utf8 bs) = 0x0e ∷ counted bs

  pub encode_items : Items → Bytes
  encode_items no_items = []
  encode_items (item v xs) = encode v ++ encode_items xs

  pub encode_fields : Fields → Bytes
  encode_fields no_fields = []
  encode_fields (field k v fs) = ClarityName.encode k ++ (encode v ++ encode_fields fs)

abbrev pub list_step : Clarity → ℕ
list_step (list _) = 1
list_step _ = 0

abbrev pub tuple_step : Clarity → ℕ
tuple_step (tuple _) = 1
tuple_step _ = 0

-- How often the parser raises its counter: once for each value inside an option or a response, for
-- each list that is an item of a list, and for each tuple that is a field of a tuple.
abbrev mutual
  pub cost : Clarity → ℕ
  cost (response_ok v) = suc (cost v)
  cost (response_err v) = suc (cost v)
  cost (some v) = suc (cost v)
  cost (list xs) = cost_items xs
  cost (tuple fs) = cost_fields fs
  cost _ = 0

  pub cost_items : Items → ℕ
  cost_items no_items = 0
  cost_items (item v xs) = list_step v + cost v + cost_items xs

  pub cost_fields : Fields → ℕ
  cost_fields no_fields = 0
  cost_fields (field _ v fs) = tuple_step v + cost v + cost_fields fs

-- The parts fit in their places on the wire.
abbrev mutual
  pub IsValid : Clarity → Type 0
  IsValid (int n) = n < 2 ^ 128
  IsValid (uint n) = n < 2 ^ 128
  IsValid (standard_principal p) = Standard.IsValid p
  IsValid (contract_principal p) = Contract.IsValid p
  IsValid (response_ok v) = IsValid v
  IsValid (response_err v) = IsValid v
  IsValid (some v) = IsValid v
  IsValid (list xs) = AreItems xs
  IsValid (tuple fs) = AreFields fs
  IsValid (string_ascii bs) = is_ascii bs ≡ true
  IsValid _ = Unit

  pub AreItems : Items → Type 0
  AreItems no_items = Unit
  AreItems (item v xs) = IsValid v × AreItems xs

  pub AreFields : Fields → Type 0
  AreFields no_fields = Unit
  AreFields (field k v fs) = ClarityName.Fits k × (IsValid v × AreFields fs)
