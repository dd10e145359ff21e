-- ===== src/Binary/Uvarint.antt =====
-- Varints: what `AppendUvarint` writes and `Uvarint` reads back.
use still_blockchain.Base.{
  ℕ, zero, suc, ◌+◌, ◌*◌, ◌/◌, ◌%◌, ◌^◌, ◌≤◌, ◌<◌, ◌≡◌, ap, List, ◌∷◌, ◌++◌, length, arith,
}
use still_blockchain.Base.Bytes.{IsU64}
use still_blockchain.Binary.{uvarint, value, uvarint_loop}
use native.Mathlib.Nat.{pow-suc}
use native.Mathlib.Numerals.{add-one}

-- A last byte `w`: nothing follows it in the number.
last_byte :
    (w i p x : ℕ) (rest : List ℕ)
    → w < 128
    → i ≤ 9
    → p ≡ 128 ^ i
    → IsU64 (x + w * p)
    → uvarint_loop (w ∷ rest) i p x ≡ value (x + w * p) rest
unfolding uvarint_loop
last_byte w i p x rest hw hi hp fits = ground (arith, top_digit)
  where
    top_digit : i ≡ 9 → w ≤ 1
    top_digit e =
        let q : p ≡ 2 ^ 63 = rw e at hp in
        let f : IsU64 (x + w * 2 ^ 63) = rw q at fits in omega arith

inner_byte :
    (g i p x : ℕ) (rest : List ℕ)
    → g < 128
    → i < 9
    → uvarint_loop ((g + 128) ∷ rest) i p x ≡ uvarint_loop rest (i + 1) (p * 128) (x + g * p)
unfolding uvarint_loop
inner_byte g i p x rest hg hi =
    let e : (g + 128) % 128 ≡ g = omega arith in ground (arith, e, ap (λ (t : ℕ). x + t * p) e)

-- The lowest seven bits of `v` and the others.
split_digit : (v p : ℕ) → v * p ≡ v % 128 * p + v / 128 * (p * 128)
split_digit v p =
    let e : v ≡ v % 128 + v / 128 * 128 = omega arith in omega (arith, ap (λ (t : ℕ). t * p) e)

pub uvarint_loop-uvarint :
    (k v i p x : ℕ) (rest : List ℕ)
    → v < 128 ^ suc k
    → i + k ≤ 9
    → p ≡ 128 ^ i
    → IsU64 (x + v * p)
    → uvarint_loop (uvarint k v ++ rest) i p x ≡ value (x + v * p) rest
unfolding uvarint
uvarint_loop-uvarint zero v i p x rest hv hi hp fits = ground (arith, last_byte v i p x rest)
uvarint_loop-uvarint (suc k) v i p x rest hv hi hp fits = ground (
  arith,
  last_byte v i p x rest,
  inner_byte (v % 128) i p x (uvarint k (v / 128) ++ rest),
  split_digit v p,
  pow-suc 128 (suc k),
  pow-suc 128 i,
  add-one i,
  uvarint_loop-uvarint k (v / 128) (i + 1) (p * 128) (x + v % 128 * p) rest,
)

pub length-uvarint : (k v : ℕ) → (1 ≤ length (uvarint k v)) × (length (uvarint k v) ≤ suc k)
unfolding uvarint
length-uvarint zero v = omega arith
length-uvarint (suc k) v = ground (arith, length-uvarint k (v / 128))
