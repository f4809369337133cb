-- ===== src/StructuredMsg/Fuel.antt =====
-- structured_msg.rs: the parsing of a message ends.
use ledger_stacks.Base.{
  ◌==◌, Bool, true, false, Bool-cases, inl, inr, take, length, bytes_eq, if◌then◌else◌,
}
use ledger_stacks.Error.{ok, err, parser_unexpected_value}
use ledger_stacks.Crates.{Crates, Bytes}
use ledger_stacks.Common.Limits.{max_depth}
use ledger_stacks.Value.Parse
use ledger_stacks.Value.Tuple.Fuel.{HasFuel, HasFuel->>=, HasFuel-value}
use ledger_stacks.StructuredMsg.{prefix, prefix_len, parse_prefix, verify, validate, from_bytes}
use ledger_stacks.StructuredMsg.Domain
use ledger_stacks.StructuredMsg.Domain.Fuel as DomainFuel

module _ ⦃crates : Crates⦄ where
  HasFuel-parse_prefix : (bytes : Bytes) → HasFuel (parse_prefix bytes)
  unfolding parse_prefix
  HasFuel-parse_prefix bytes = elim (Bool-cases (bytes_eq (take prefix_len bytes) prefix)) [
    | inl starts ↦ rw (crates.tag_law, starts) tt
    | inr other ↦ rw (crates.tag_law, other) tt
  ]

  HasFuel-validate : (bytes : Bytes) → HasFuel (validate bytes)
  unfolding validate
  HasFuel-validate bytes =
      HasFuel->>= (Parse.from_bytes max_depth bytes) _ (HasFuel-value max_depth bytes)
        λ (rem, value) _. checked (length rem == 0)
    where
      checked :
          (b : Bool) → HasFuel {A = Unit {0}} (if b then ok tt else err parser_unexpected_value)
      checked true = tt
      checked false = tt

  HasFuel-verify : (input : Bytes) → HasFuel (verify input)
  unfolding verify
  HasFuel-verify input = HasFuel->>= (parse_prefix input) _ (HasFuel-parse_prefix input) λ rem _.
      HasFuel->>= (Domain.from_bytes rem) _ (DomainFuel.HasFuel-from_bytes rem)
        λ (content, d) _. HasFuel-validate content

  -- The parsing of a structured message ends on every input: the fuel of the loop over the fields of
  -- its domain and that of the measuring of its values are enough.
  pub HasFuel-message : (input : Bytes) → HasFuel (from_bytes input)
  unfolding from_bytes
  HasFuel-message input = HasFuel->>= (verify input) _ (HasFuel-verify input) λ _ _. tt
