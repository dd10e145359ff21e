-- ===== src/Uint128.antt =====
-- Unsigned 128-bit numbers: util/uint128/uint128.go, with the word operations of Go's math/bits
-- that it calls. A method that panics returns `panic`.
pub mod Value
pub mod Order
pub mod Sum
pub mod Product
pub mod Quotient
use still_blockchain.Base.{
  ℕ, zero, suc, ◌+◌, ◌-◌, ◌*◌, ◌/◌, ◌%◌, ◌^◌, ◌≡◌, Bool, true, false, ◌&&◌, ◌||◌, List, ◌++◌, ltb,
  leb, ◌==◌, if◌then◌else◌, take, drop, ◌!=◌,
}
use Prim.Native.Nat.{compare, Ordering}
use still_blockchain.Base.Bytes.{le_bytes, le_value}
use still_blockchain.Base.Result.{Result, ok, panic, ◌>>=◌, ◌>>◌, panic_if}

abbrev pub word : ℕ
word = 2 ^ 64

pub record Uint128 : Type 0 where
  pub lo : ℕ
  pub hi : ℕ

-- `bits.Add64`: the sum and the carry.
abbrev pub add_word : ℕ → ℕ → ℕ → ℕ × ℕ
add_word x y carry = ((x + y + carry) % word, (x + y + carry) / word)

-- `bits.Sub64`: the difference and the borrow.
abbrev pub sub_word : ℕ → ℕ → ℕ → ℕ × ℕ
sub_word x y borrow = ((x + word - (y + borrow)) % word, if ltb x (y + borrow) then 1 else 0)

-- `bits.Mul64`: the high and the low word.
abbrev pub mul_word : ℕ → ℕ → ℕ × ℕ
mul_word x y = (x * y / word, x * y % word)

-- `bits.Div64`: the quotient and the remainder; it panics if the quotient is no word.
abbrev pub div_word : ℕ → ℕ → ℕ → Result (ℕ × ℕ)
div_word h l y = if leb y h then panic else ok ((h * word + l) / y, (h * word + l) % y)

unfoldable pub from64 : ℕ → Uint128
from64 v = record { lo = v; hi = 0 }

unfoldable pub is_zero : Uint128 → Bool
is_zero u = u.lo == 0 && u.hi == 0

unfoldable pub equals : Uint128 → Uint128 → Bool
equals u v = u.lo == v.lo && u.hi == v.hi

unfoldable pub equals64 : Uint128 → ℕ → Bool
equals64 u v = u.lo == v && u.hi == 0

-- The int that `Cmp` returns: `lt` for -1, `eq` for 0 and `gt` for +1.
unfoldable pub cmp : Uint128 → Uint128 → Ordering
cmp u v =
    if u.lo == v.lo && u.hi == v.hi
    then Ordering.eq
    else if ltb u.hi v.hi || (u.hi == v.hi && ltb u.lo v.lo)
    then Ordering.lt
    else Ordering.gt

unfoldable pub cmp64 : Uint128 → ℕ → Ordering
cmp64 u v =
    if u.hi == 0 && u.lo == v
    then Ordering.eq
    else if u.hi == 0 && ltb u.lo v
    then Ordering.lt
    else Ordering.gt

unfoldable pub add : Uint128 → Uint128 → Result Uint128
add u v =
    let (l, carry) = add_word u.lo v.lo 0 in
    let (h, carry') = add_word u.hi v.hi carry in
    if carry' == 0 then ok (record { lo = l; hi = h }) else panic

unfoldable pub add_wrap : Uint128 → Uint128 → Uint128
add_wrap u v =
    let (l, carry) = add_word u.lo v.lo 0 in
    let (h, _) = add_word u.hi v.hi carry in record { lo = l; hi = h }

unfoldable pub add64 : Uint128 → ℕ → Result Uint128
add64 u v =
    let (l, carry) = add_word u.lo v 0 in
    let (h, carry') = add_word u.hi 0 carry in
    if carry' == 0 then ok (record { lo = l; hi = h }) else panic

unfoldable pub add_wrap64 : Uint128 → ℕ → Uint128
add_wrap64 u v = let (l, carry) = add_word u.lo v 0 in record { lo = l; hi = (u.hi + carry) % word }

unfoldable pub sub : Uint128 → Uint128 → Result Uint128
sub u v =
    let (l, borrow) = sub_word u.lo v.lo 0 in
    let (h, borrow') = sub_word u.hi v.hi borrow in
    if borrow' == 0 then ok (record { lo = l; hi = h }) else panic

unfoldable pub sub_wrap : Uint128 → Uint128 → Uint128
sub_wrap u v =
    let (l, borrow) = sub_word u.lo v.lo 0 in
    let (h, _) = sub_word u.hi v.hi borrow in record { lo = l; hi = h }

unfoldable pub sub64 : Uint128 → ℕ → Result Uint128
sub64 u v =
    let (l, borrow) = sub_word u.lo v 0 in
    let (h, borrow') = sub_word u.hi 0 borrow in
    if borrow' == 0 then ok (record { lo = l; hi = h }) else panic

unfoldable pub sub_wrap64 : Uint128 → ℕ → Uint128
sub_wrap64 u v =
    let (l, borrow) = sub_word u.lo v 0 in record { lo = l; hi = (u.hi + word - borrow) % word }

-- The carry of the first addition is the carry-in of the second one.
unfoldable pub mul : Uint128 → Uint128 → Result Uint128
mul u v =
    let (h, l) = mul_word u.lo v.lo in
    let (p0, p1) = mul_word u.hi v.lo in
    let (p2, p3) = mul_word u.lo v.hi in
    let (h1, c0) = add_word h p1 0 in
    let (h2, c1) = add_word h1 p3 c0 in
    if (u.hi != 0 && v.hi != 0) || p0 != 0 || p2 != 0 || c1 != 0
    then panic
    else ok (record { lo = l; hi = h2 })

unfoldable pub mul_wrap : Uint128 → Uint128 → Uint128
mul_wrap u v =
    let (h, l) = mul_word u.lo v.lo in
    record { lo = l; hi = (h + (u.hi * v.lo % word + u.lo * v.hi % word) % word) % word }

unfoldable pub mul64 : Uint128 → ℕ → Result Uint128
mul64 u v =
    let (h, l) = mul_word u.lo v in
    let (p0, p1) = mul_word u.hi v in
    let (h1, c0) = add_word h p1 0 in
    if p0 != 0 || c0 != 0 then panic else ok (record { lo = l; hi = h1 })

unfoldable pub mul_wrap64 : Uint128 → ℕ → Uint128
mul_wrap64 u v =
    let (h, l) = mul_word u.lo v in record { lo = l; hi = (h + u.hi * v % word) % word }

unfoldable pub quo_rem64 : Uint128 → ℕ → Result (Uint128 × ℕ)
quo_rem64 u v =
    if ltb u.hi v
    then (do (q, r) ← div_word u.hi u.lo v; ok (record { lo = q; hi = 0 }, r))
    else (do
      (q1, r1) ← div_word 0 u.hi v
      (q0, r0) ← div_word r1 u.lo v
      ok (record { lo = q0; hi = q1 }, r0))

unfoldable pub div64 : Uint128 → ℕ → Result Uint128
div64 u v = do (q, _) ← quo_rem64 u v; ok q

unfoldable pub mod64 : Uint128 → ℕ → Result ℕ
mod64 u v = do (_, r) ← quo_rem64 u v; ok r

-- `bits.LeadingZeros64`: how often the number doubles before its top bit is set.
unfoldable pub leading_zeros_from : ℕ → ℕ → ℕ
leading_zeros_from zero x = 0
leading_zeros_from (suc f) x =
    let more = suc (leading_zeros_from f x) in if leb (2 ^ f) x then 0 else more

unfoldable pub leading_zeros64 : ℕ → ℕ
unfolding leading_zeros_from
leading_zeros64 x = leading_zeros_from 64 x

-- `Lsh` and `Rsh`: a Go shift by the width or more gives 0.
unfoldable pub lsh : Uint128 → ℕ → Uint128
lsh u n =
    if ltb 64 n
    then record { lo = 0; hi = u.lo * 2 ^ (n - 64) % word }
    else record { lo = u.lo * 2 ^ n % word; hi = u.hi * 2 ^ n % word + u.lo / 2 ^ (64 - n) }

unfoldable pub rsh : Uint128 → ℕ → Uint128
rsh u n =
    if ltb 64 n
    then record { lo = u.hi / 2 ^ (n - 64); hi = 0 }
    else record { lo = u.lo / 2 ^ n + u.hi * 2 ^ (64 - n) % word; hi = u.hi / 2 ^ n }

-- `QuoRem` once the trial quotient `tq` is known: the remainder, and one step up if it is too big.
unfoldable pub adjust : Uint128 → Uint128 → ℕ → Result (Uint128 × Uint128)
adjust u v tq = do
  p ← mul64 v tq
  r ← sub u p
  elim (cmp r v) [
    | Ordering.lt ↦ ok (from64 tq, r)
    | _ ↦ add64 (from64 tq) 1 >>= λ q. sub r v >>= λ r'. ok (q, r')
  ]

unfoldable pub quo_rem : Uint128 → Uint128 → Result (Uint128 × Uint128)
unfolding adjust
quo_rem u v = if v.hi == 0 then (do (q, r) ← quo_rem64 u v.lo; ok (q, from64 r)) else (do
  let n = leading_zeros64 v.hi
  let v1 = lsh v n
  let u1 = rsh u 1
  (t, _) ← div_word u1.hi u1.lo v1.hi
  adjust u v (t / 2 ^ (63 - n) - 1))

unfoldable pub div : Uint128 → Uint128 → Result Uint128
div u v = do (q, _) ← quo_rem u v; ok q

-- `PutBytes` and `FromBytes`, of the 16 bytes in little-endian order.
unfoldable pub put_bytes : Uint128 → List ℕ
put_bytes u = le_bytes 8 u.lo ++ le_bytes 8 u.hi

unfoldable pub from_bytes : List ℕ → Uint128
from_bytes b = record { lo = le_value (take 8 b); hi = le_value (take 8 (drop 8 b)) }

abbrev pub max_uint128 : Uint128
max_uint128 = record { lo = 2 ^ 64 - 1; hi = 2 ^ 64 - 1 }
