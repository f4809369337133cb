-- ===== src/Error.antt =====
-- app/rust/src/parser/error.rs: the error codes, and the result of a fallible step.
use mathlib.Core.Path.{◌≡◌, refl, subst}
use ledger_stacks.Base.{Bool, true, false, Option, none, some, if◌then◌else◌}

-- The codes that cross the C interface, in the order of their discriminants.
pub data ParserError : Type 0 where
  parser_ok parser_no_data parser_init_context_empty : ParserError
  parser_display_idx_out_of_range parser_display_page_out_of_range : ParserError
  parser_unexpected_error parser_no_memory_for_state : ParserError
  parser_context_mismatch parser_context_unexpected_size : ParserError
  parser_context_invalid_chars parser_context_unknown_prefix : ParserError
  parser_required_nonce parser_required_method : ParserError
  parser_post_condition_failed parser_invalid_contract_name : ParserError
  parser_invalid_asset_name parser_invalid_clarity_name : ParserError
  parser_invalid_fungible_code parser_invalid_non_fungible_code : ParserError
  parser_invalid_asset_info parser_invalid_post_condition : ParserError
  parser_invalid_post_condition_principal parser_invalid_hash_mode : ParserError
  parser_invalid_signature parser_invalid_pubkey_encoding : ParserError
  parser_invalid_auth_type parser_invalid_argument_id : ParserError
  parser_invalid_transaction_payload parser_invalid_address_version : ParserError
  parser_stacks_string_too_long parser_unexpected_type : ParserError
  parser_unexpected_buffer_end parser_unexpected_value : ParserError
  parser_unexpected_number_items parser_unexpected_characters : ParserError
  parser_unexpected_field parser_value_out_of_range parser_invalid_address : ParserError
  parser_invalid_token_transfer_type parser_invalid_bytestr_message : ParserError
  parser_invalid_jwt parser_invalid_structured_msg parser_crypto_error : ParserError
  parser_invalid_token_transfer_principal parser_recursion_limit : ParserError

-- The kinds of nom's errors that the conversion tells apart; `other` stands for the rest.
pub data ErrorKind : Type 0 where
  eof permutation too_large other : ErrorKind

abbrev pub from_error_kind : ErrorKind → ParserError
from_error_kind eof = parser_unexpected_buffer_end
from_error_kind permutation = parser_unexpected_type
from_error_kind too_large = parser_value_out_of_range
from_error_kind other = parser_unexpected_error

-- `panic` is a Rust panic. `out_of_fuel` has no counterpart in the program.
pub data Result {ℓ} (A : Type ℓ) : Type ℓ where
  ok : A → Result A
  err : ParserError → Result A
  panic out_of_fuel : Result A

-- The `?` operator: what is no value is the result of the whole.
infixl 5 ◌>>=◌
abbrev pub ◌>>=◌ {ℓ κ} : {A : Type ℓ} {B : Type κ} → Result A → (A → Result B) → Result B
panic >>= next = panic
out_of_fuel >>= next = out_of_fuel
err why >>= next = err why
ok value >>= next = next value

-- `.map_err(|_| e)`
abbrev pub map_err {ℓ} : {A : Type ℓ} → ParserError → Result A → Result A
map_err e (ok a) = ok a
map_err e (err _) = err e
map_err e panic = panic
map_err e out_of_fuel = out_of_fuel

-- `.ok_or(e)`, `.unwrap_or(default)`, `.unwrap()` and `.ok()`
abbrev pub ok_or {ℓ} : {A : Type ℓ} → ParserError → Option A → Result A
ok_or e none = err e
ok_or e (some a) = ok a

abbrev pub unwrap_or : {A : Type 0} → A → Result A → Result A
unwrap_or default (err _) = ok default
unwrap_or default r = r

abbrev pub unwrap : {A : Type 0} → Result A → Result A
unwrap (err _) = panic
unwrap r = r

abbrev pub to_option : {A : Type 0} → Result A → Result (Option A)
to_option (ok a) = ok (some a)
to_option (err _) = ok none
to_option panic = panic
to_option out_of_fuel = out_of_fuel

-- A step of a method that changes its object `s`: what is no value leaves the object as it is.
abbrev pub with_state {ℓ} :
    {S : Type ℓ} {A B : Type ℓ} → S → Result A → (A → S × Result B) → S × Result B
with_state s (ok a) next = next a
with_state s (err e) next = (s, err e)
with_state s panic next = (s, panic)
with_state s out_of_fuel next = (s, out_of_fuel)

pub with_state-eq-ok :
    {S A B : Type 0} (s : S) (m : Result A) (next : A → S × Result B) {s' : S} {b : B}
    → ◌≡◌ {A = S × Result B} (with_state s m next) (s', ok b)
    → (a : A) × ((m ≡ ok a) × (◌≡◌ {A = S × Result B} (next a) (s', ok b)))
with_state-eq-ok s (ok a) next e = (a, (refl, e))
with_state-eq-ok s (err why) next e = cc
with_state-eq-ok s panic next e = cc
with_state-eq-ok s out_of_fuel next e = cc

-- A step for its checks alone.
infixl 5 ◌>>◌
abbrev pub ◌>>◌ {ℓ} : {A : Type ℓ} → Result (Unit {0}) → Result A → Result A
check >> rest = check >>= λ _. rest

-- The run returns to its caller, with a value or with an error code.
abbrev pub Returns {ℓ} : {A : Type ℓ} → Result A → Type 0
Returns (ok a) = Unit
Returns (err e) = Unit
Returns panic = ⊥
Returns out_of_fuel = ⊥

module _ {ℓ κ} {A : Type ℓ} {B : Type κ} where
  pub Returns->>= :
      (m : Result A) (f : A → Result B)
      → Returns m
      → ((a : A) → m ≡ ok a → Returns (f a))
      → Returns (m >>= f)
  Returns->>= (ok a) f h k = k a refl
  Returns->>= (err e) f h k = tt
  Returns->>= panic f h k = h
  Returns->>= out_of_fuel f h k = h

  -- Two continuations that agree on the value of the step give the same run.
  pub >>=-ap :
      (m : Result A) {f g : A → Result B} → ((a : A) → m ≡ ok a → f a ≡ g a) → (m >>= f) ≡ (m >>= g)
  >>=-ap (ok a) h = h a refl
  >>=-ap _ h = refl

  -- Inversion of a successful step and what follows it.
  pub >>=-eq-ok :
      (step : Result A) (next : A → Result B) {last : B}
      → (step >>= next) ≡ ok last
      → (value : A) × (step ≡ ok value) × (next value ≡ ok last)
  >>=-eq-ok panic next e = cc
  >>=-eq-ok out_of_fuel next e = cc
  >>=-eq-ok (err why) next e = cc
  >>=-eq-ok (ok value) next e = (value, refl, e)

pub >>=-assoc :
    {A B C : Type 0} (m : Result A) (f : A → Result B) (g : B → Result C)
    → ((m >>= f) >>= g) ≡ (m >>= λ a. f a >>= g)
>>=-assoc (ok a) f g = refl
>>=-assoc _ f g = refl

pub >>=-ok : {A : Type 0} (m : Result A) → (m >>= λ a. ok a) ≡ m
>>=-ok (ok a) = refl
>>=-ok _ = refl

pub Returns-if :
    {A : Type 0} (b : Bool) (x y : Result A) → Returns x → Returns y → Returns (if b then x else y)
Returns-if true x y hx hy = hx
Returns-if false x y hx hy = hy

-- What holds of a result holds of one that is equal to it.
pub ok-subst :
    {A B : Type 0} (P : A → B → Type 0) {a a' : A} {b b' : B}
    → P a b
    → ◌≡◌ {A = Result (A × B)} (ok (a, b)) (ok (a', b'))
    → P a' b'
ok-subst P {a} {a'} {b} {b'} h e =
    let left : a ≡ a' = cc in
    let right : b ≡ b' = cc in subst (λ x. P x b') left (subst (P a) right h)
