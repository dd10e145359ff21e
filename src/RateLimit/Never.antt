-- ===== src/RateLimit/Never.antt =====
-- The limit of requests limits nothing.
use still_blockchain.Base.{ℕ, ◌<◌, ◌≡◌, Bool, true, List, [], ◌∷◌, map, arith, refl}
use still_blockchain.Base.Assoc.{lookup}
use still_blockchain.RateLimit.{Limit, new_limit, can_act}

-- A call: the time, the address and the amount.
pub record Call : Type 0 where
  pub now : ℕ
  pub ip : ℕ
  pub amount : ℕ

-- The answers to calls made one after another.
unfoldable pub answers : Limit → List Call → List Bool
answers l [] = []
answers l (x ∷ xs) = let (b, l') = can_act x.now x.ip x.amount l in b ∷ answers l' xs

-- All calls come more than a minute after the start of 1970.
abbrev pub AreLate : List Call → Type 0
AreLate [] = Unit
AreLate (x ∷ xs) = (60 < x.now) × AreLate xs

first_call :
    (limit now ip amount : ℕ)
    → 60 < now
    → can_act now ip amount (new_limit limit) ≡ (true, new_limit limit)
unfolding can_act new_limit lookup
first_call limit now ip amount late = ground arith

-- Whatever the limit, the addresses and the amounts: every call of a new limiter is allowed, at
-- times of more than 60 seconds.
pub answers-all_true :
    (limit : ℕ) (xs : List Call) → AreLate xs → answers (new_limit limit) xs ≡ map (λ x. true) xs
unfolding answers
answers-all_true limit [] late = refl
answers-all_true limit (x ∷ xs) (now, late) =
    rw (first_call limit x.now x.ip x.amount now, answers-all_true limit xs late) refl
