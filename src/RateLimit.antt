-- ===== src/RateLimit.antt =====
-- The limit of requests: util/ratelimit/ratelimit.go. `now` is the clock in seconds, an address is
-- a number, and an int is its bit pattern.
pub mod Never
use still_blockchain.Base.{
  ℕ, ◌+◌, ◌%◌, ◌^◌, Bool, true, false, Option, none, some, List, [], ◌∷◌, ltb, leb, if◌then◌else◌,
}
use still_blockchain.Base.Assoc.{Assoc, lookup}

pub record Info : Type 0 where
  pub count : ℕ
  pub last_clear : ℕ
  pub ban_ends : ℕ

pub record Limit : Type 0 where
  pub max_per_minute : ℕ
  pub info : Assoc Info

-- `New`
unfoldable pub new_limit : ℕ → Limit
new_limit max_per_minute = record { max_per_minute = max_per_minute; info = [] }

-- A missing key of the map reads as zeros.
unfoldable pub or_zeros : Option Info → Info
or_zeros none = record { count = 0; last_clear = 0; ban_ends = 0 }
or_zeros (some inf) = inf

-- `a <= b` of two ints.
unfoldable pub int_leb : ℕ → ℕ → Bool
int_leb a b = leb ((a + 2 ^ 63) % 2 ^ 64) ((b + 2 ^ 63) % 2 ^ 64)

-- `CanAct`. `inf` is a copy of the entry: what the code writes to its fields is not written to the
-- map.
unfoldable pub can_act : ℕ → ℕ → ℕ → Limit → Bool × Limit
unfolding or_zeros int_leb
can_act now ip amount l =
    let inf = or_zeros (lookup ip l.info) in
    if ltb now inf.ban_ends
    then (false, l)
    else if ltb (inf.last_clear + 60) now
    then (true, l)
    else if int_leb ((inf.count + amount) % 2 ^ 64) l.max_per_minute
    then (true, l)
    else (false, l)
