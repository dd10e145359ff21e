-- ===== src/Base/Result.antt =====
-- What a Go function that returns an error may do: return a value, return an error, or panic.
use mathlib.Core.Path.{◌≡◌, refl}
use mathlib.Core.Logic.{◌⊎◌, inl, inr}
use mathlib.Core.Bool.{Bool, true, false}

-- The errors of the modelled functions, by what their message says.
pub data Error : Type 0 where
  tx_not_found state_not_found spends_too_much unexpected_nonce : Error
  tx_not_in_database balance_too_small last_incoming_zero last_nonce_zero : Error
  bad_difficulty bad_height bad_timestamp bad_cumulative_diff : Error
  common_not_found subsequent_invalid side_included : Error
  block_not_found unknown_topo duplicate_block orphan_exists block_data_empty : Error
  no_common_block height_zero : Error
  bad_vsize zero_amount bad_sender same_recipient low_fee bad_signature : Error
  bad_version zero_difficulty low_difficulty future_block own_network duplicate_chain : Error
  bad_pow side_seedhash side_pow checkpoint_mismatch : Error
  des_error too_many_chains too_many_sides too_many_txs : Error
  bad_login not_ready malformed_nonce master_chain : Error
  bad_address bad_checksum bad_subaddr not_in_mainchain unknown_tx_topo to_self : Error
  bad_target bad_chain_count bad_identifier trailing_data unsorted_chains : Error
  duplicate_hashing_id duplicate_network no_network : Error
  -- No error of the program: a loop of the model ran out of rounds.
  out_of_rounds : Error

pub data Result {ℓ} (A : Type ℓ) : Type ℓ where
  ok : A → Result A
  err : Error → Result A
  panic : Result A

infixl 5 ◌>>=◌ ◌>>◌
abbrev pub ◌>>=◌ {ℓ κ} :
    {Old : Type ℓ} {New : Type κ} → Result Old → (Old → Result New) → Result New
panic >>= next = panic
err x >>= next = err x
ok v >>= next = next v

abbrev pub ◌>>◌ {ℓ} : {B : Type ℓ} → Result (Unit {0}) → Result B → Result B
m >> k = m >>= λ _. k

-- `if bad { return err }`
abbrev pub fail_if : Bool → Error → Result (Unit {0})
fail_if true e = err e
fail_if false e = ok tt

abbrev pub panic_if : Bool → Result (Unit {0})
panic_if true = panic
panic_if false = ok tt

pub >>=-eq_ok {ℓ κ} :
    {Old : Type ℓ} {New : Type κ} (first : Result Old) (next : Old → Result New) {last : New}
    → (first >>= next) ≡ ok last
    → (v : Old) × (first ≡ ok v) × (next v ≡ ok last)
>>=-eq_ok panic next h = cc
>>=-eq_ok (err x) next h = cc
>>=-eq_ok (ok v) next h = (v, refl, h)

-- The same rule for a goal: what follows has names for the two values.
pub >>=-elim {ℓ κ μ} :
    {Old : Type ℓ} {New : Type κ} {P : Type μ} (first : Result Old) (next : Old → Result New)
    {last : New}
    → (first >>= next) ≡ ok last
    → ((v : Old) → first ≡ ok v → next v ≡ ok last → P)
    → P
>>=-elim panic next h k = cc
>>=-elim (err x) next h k = cc
>>=-elim (ok v) next h k = k v refl h

pub Result-cases {ℓ} :
    {A : Type ℓ} (r : Result A) → ((a : A) × (r ≡ ok a)) ⊎ ((e : Error) × (r ≡ err e)) ⊎ (r ≡ panic)
Result-cases (ok a) = inl (a, refl)
Result-cases (err e) = inr (inl (e, refl))
Result-cases panic = inr (inr refl)

-- A guard that let a call succeed was not met.
pub fail_if-passed {ℓ} :
    {A : Type ℓ} (bad : Bool) (x : Error) (rest : Result A) {last : A}
    → (fail_if bad x >> rest) ≡ ok last
    → (bad ≡ false) × (rest ≡ ok last)
fail_if-passed true x rest h = cc
fail_if-passed false x rest h = (refl, h)

-- The empty type, at every level.
pub data Empty {ℓ} : Type ℓ where

-- The call returns a value, with the property.
abbrev pub Returns {ℓ κ} : {A : Type ℓ} → (A → Type κ) → Result A → Type κ
Returns P (ok a) = P a
Returns P (err e) = Empty
Returns P panic = Empty
