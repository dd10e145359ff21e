-- ===== src/Ledger/Total.antt =====
-- The sum of all balances under the updates of the accounts, `GetSupply` and `CheckSupply`.
use still_blockchain.Base.{ℕ, Bool, ◌==◌, ◌+◌, ◌%◌, ◌≡◌, ◌≤◌, [], ◌∷◌, arith}
use still_blockchain.Base.Assoc.{Assoc, lookup, insert}
use still_blockchain.Ledger.{Ledger, State, state_of, u64}
use still_blockchain.Reward.{get_supply_at_height}

unfoldable pub total : Assoc State → ℕ
total [] = 0
total ((k, s) ∷ m) = s.balance + total m

-- The loop of `GetSupply` over the bucket.
unfoldable pub supply_from : Assoc State → ℕ → ℕ
supply_from [] sum = sum
supply_from ((k, s) ∷ m) sum = supply_from m ((sum + s.balance) % u64)

unfoldable pub get_supply : Assoc State → ℕ
unfolding supply_from
get_supply m = supply_from m 0

-- `CheckSupply`: true where the node goes on, false where it stops with a fatal error.
unfoldable pub check_supply : Ledger → ℕ → Bool
unfolding get_supply
check_supply l top_height = get_supply l.states == get_supply_at_height top_height

supply_from-total :
    (m : Assoc State) (sum : ℕ) → sum % u64 ≡ sum → supply_from m sum ≡ (sum + total m) % u64
unfolding supply_from total
supply_from-total [] sum h = omega arith
supply_from-total ((k, s) ∷ m) sum h =
    omega (arith, supply_from-total m ((sum + s.balance) % u64) (omega arith))

-- `GetSupply` is the sum of all balances, modulo 2 ^ 64.
pub get_supply-total : (m : Assoc State) → get_supply m ≡ total m % u64
unfolding get_supply
get_supply-total m = omega (arith, supply_from-total m 0 (omega arith))

-- A write replaces one balance in the sum.
pub total-insert :
    (k : ℕ) (v : State) (m : Assoc State)
    → total (insert k v m) + (state_of k m).balance ≡ total m + v.balance
unfolding total insert lookup
total-insert k v [] = omega arith
total-insert k v ((j, w) ∷ m) = ground (arith, total-insert k v m)

pub balance-le-total : (k : ℕ) (m : Assoc State) → (state_of k m).balance ≤ total m
unfolding total lookup
balance-le-total k [] = omega arith
balance-le-total k ((j, w) ∷ m) = ground (arith, balance-le-total k m)
