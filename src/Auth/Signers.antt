-- ===== src/Auth/Signers.antt =====
-- transaction_auth.rs: `check_signer`, whom a public key hash makes the device sign for.
use ledger_stacks.Base.{
  subst, ◌≡◌, ◌⊎◌, inl, inr, true, false, Bool-cases, bytes_eq, bytes_eq→eq, bytes_eq_self,
}
use ledger_stacks.Error.{ok, >>=-eq-ok}
use ledger_stacks.Crates.{Bytes}
use ledger_stacks.Common.HashMode.{SignerId, origin, sponsor, invalid}
use ledger_stacks.Spending.Condition
use ledger_stacks.Auth.{TransactionAuth, standard, sponsored, check_signer}

-- `pk` is the hash of `c`'s signer, or is not.
abbrev pub Holds : Condition.TransactionSpendingCondition → Bytes → Type 0
Holds c pk = Condition.signer_pub_key_hash c ≡ ok pk

-- Who may sign with `pk`: the origin of a standard transaction, always when it has many signatures;
-- the origin or else the sponsor of a sponsored one.
abbrev pub Entitles : TransactionAuth → Bytes → SignerId → Type 0
Entitles (standard o) pk origin = Holds o pk ⊎ (Condition.is_multisig o ≡ true)
Entitles (standard o) pk sponsor = ⊥
Entitles (standard o) pk invalid = (Holds o pk → ⊥) × (Condition.is_multisig o ≡ false)
Entitles (sponsored o s) pk origin = Holds o pk
Entitles (sponsored o s) pk sponsor = (Holds o pk → ⊥) × Holds s pk
Entitles (sponsored o s) pk invalid = (Holds o pk → ⊥) × (Holds s pk → ⊥)

other_hash :
    (c : Condition.TransactionSpendingCondition) (pk hash : Bytes)
    → Condition.signer_pub_key_hash c ≡ ok hash
    → bytes_eq pk hash ≡ false
    → Holds c pk
    → ⊥
other_hash c pk hash e different same = let equal : pk ≡ hash = cc in cc (bytes_eq_self pk)

same_hash :
    (c : Condition.TransactionSpendingCondition) (pk hash : Bytes)
    → Condition.signer_pub_key_hash c ≡ ok hash
    → bytes_eq pk hash ≡ true
    → Holds c pk
same_hash c pk hash e same = cc (bytes_eq→eq pk hash same)

named :
    (a : TransactionAuth) (pk : Bytes) (x : SignerId) {id : SignerId}
    → ok x ≡ ok id
    → Entitles a pk x
    → Entitles a pk id
named a pk x {id} e h = let same : x ≡ id = cc in subst (Entitles a pk) same h

-- The signer that the check names is the one that the key hash entitles.
pub check_signer-Entitles :
    (a : TransactionAuth) (pk : Bytes) (id : SignerId)
    → check_signer a pk ≡ ok id
    → Entitles a pk id
unfolding check_signer
check_signer-Entitles (standard o) pk id h =
    let (hash, hh, h') = >>=-eq-ok (Condition.signer_pub_key_hash o) _ h in
    elim (Bool-cases (bytes_eq pk hash)) [
      | inl same ↦ named (standard o) pk origin (rw same at h') (inl (same_hash o pk hash hh same))
      | inr different ↦ elim (Bool-cases (Condition.is_multisig o)) [
        | inl many ↦ named (standard o) pk origin (rw (different, many) at h') (inr many)
        | inr one ↦
            named (standard o) pk invalid (rw (different, one) at h')
              (other_hash o pk hash hh different, one)
      ]
    ]
check_signer-Entitles (sponsored o s) pk id h =
    let (hash, hh, h') = >>=-eq-ok (Condition.signer_pub_key_hash o) _ h in
    elim (Bool-cases (bytes_eq pk hash)) [
      | inl same ↦ named (sponsored o s) pk origin (rw same at h') (same_hash o pk hash hh same)
      | inr different ↦
          let (hash', hh', h'') =
            >>=-eq-ok (Condition.signer_pub_key_hash s) _ (rw different at h') in
          elim (Bool-cases (bytes_eq pk hash')) [
            | inl same ↦
                named (sponsored o s) pk sponsor (rw same at h'')
                  (other_hash o pk hash hh different, same_hash s pk hash' hh' same)
            | inr different' ↦
                named (sponsored o s) pk invalid (rw different' at h'')
                  (other_hash o pk hash hh different, other_hash s pk hash' hh' different')
          ]
    ]
