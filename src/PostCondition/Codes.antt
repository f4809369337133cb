-- ===== src/PostCondition/Codes.antt =====
-- post_condition.rs: `FungibleConditionCode`, `NonfungibleConditionCode` and `PostConditionType`.
use ledger_stacks.Base.{ℕ, ◌≡◌, refl, ◌==◌, Option, none, some, if◌then◌else◌, arith}
use ledger_stacks.Error.{Result, ok, err, parser_invalid_post_condition}

pub data FungibleConditionCode : Type 0 where
  sent_eq sent_gt sent_ge sent_lt sent_le : FungibleConditionCode

pub data NonfungibleConditionCode : Type 0 where
  sent not_sent : NonfungibleConditionCode

pub data PostConditionType : Type 0 where
  stx fungible_token non_fungible_token : PostConditionType

unfoldable pub fungible_from_u8 : ℕ → Option FungibleConditionCode
fungible_from_u8 b =
    if b == 0x01
    then some sent_eq
    else if b == 0x02
    then some sent_gt
    else if b == 0x03
    then some sent_ge
    else if b == 0x04
    then some sent_lt
    else if b == 0x05
    then some sent_le
    else none

unfoldable pub nonfungible_from_u8 : ℕ → Option NonfungibleConditionCode
nonfungible_from_u8 b = if b == 0x10 then some sent else if b == 0x11 then some not_sent else none

abbrev pub fungible_to_u8 : FungibleConditionCode → ℕ
fungible_to_u8 sent_eq = 0x01
fungible_to_u8 sent_gt = 0x02
fungible_to_u8 sent_ge = 0x03
fungible_to_u8 sent_lt = 0x04
fungible_to_u8 sent_le = 0x05

abbrev pub nonfungible_to_u8 : NonfungibleConditionCode → ℕ
nonfungible_to_u8 sent = 0x10
nonfungible_to_u8 not_sent = 0x11

abbrev pub type_to_u8 : PostConditionType → ℕ
type_to_u8 stx = 0
type_to_u8 fungible_token = 1
type_to_u8 non_fungible_token = 2

unfoldable pub type_try_from : ℕ → Result PostConditionType
type_try_from value =
    if value == 0
    then ok stx
    else if value == 1
    then ok fungible_token
    else if value == 2
    then ok non_fungible_token
    else err parser_invalid_post_condition

pub type_try_from-to_u8 : (t : PostConditionType) → type_try_from (type_to_u8 t) ≡ ok t
unfolding type_try_from
type_try_from-to_u8 stx = refl
type_try_from-to_u8 _ = refl

pub type_to_u8_unique : (n : ℕ) (t : PostConditionType) → type_try_from n ≡ ok t → type_to_u8 t ≡ n
unfolding type_try_from
type_to_u8_unique n t h = ground arith

pub fungible_from_u8-to_u8 :
    (c : FungibleConditionCode) → fungible_from_u8 (fungible_to_u8 c) ≡ some c
unfolding fungible_from_u8
fungible_from_u8-to_u8 sent_eq = refl
fungible_from_u8-to_u8 _ = refl

pub nonfungible_from_u8-to_u8 :
    (c : NonfungibleConditionCode) → nonfungible_from_u8 (nonfungible_to_u8 c) ≡ some c
unfolding nonfungible_from_u8
nonfungible_from_u8-to_u8 sent = refl
nonfungible_from_u8-to_u8 _ = refl
