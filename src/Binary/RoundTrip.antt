-- ===== src/Binary/RoundTrip.antt =====
-- Each read takes back what the matching write appended, and leaves what follows it.
use still_blockchain.Base.{
  ℕ, ◌^◌, ◌<◌, ◌≡◌, refl, List, [], ◌∷◌, ◌++◌, length, length-append, take, drop, arith,
}
use still_blockchain.Base.Bytes.{
  IsU64, le_bytes, length-le_bytes, le_value-le_bytes, take-le_bytes, drop-le_bytes,
}
use still_blockchain.Base.Result.{ok}
use still_blockchain.Binary.{
  uvarint, new_des, read_uint, read_uvarint, read_fixed, read_array, read_byte_slice,
}
use still_blockchain.Binary.Uvarint.{uvarint_loop-uvarint, length-uvarint}

pub take-append_length {ℓ} : {A : Type ℓ} (a rest : List A) → take (length a) (a ++ rest) ≡ a
take-append_length [] rest = refl
take-append_length (x ∷ a) rest = λ i. x ∷ take-append_length a rest i

pub drop-append_length {ℓ} : {A : Type ℓ} (a rest : List A) → drop (length a) (a ++ rest) ≡ rest
drop-append_length [] rest = refl
drop-append_length (x ∷ a) rest = drop-append_length a rest

pub read_uint-le_bytes :
    (w v : ℕ) (rest : List ℕ)
    → v < 256 ^ w
    → read_uint w (new_des (le_bytes w v ++ rest)) ≡ (v, new_des rest)
unfolding read_uint new_des
read_uint-le_bytes w v rest h = ground (
  arith,
  length-append (le_bytes w v) rest,
  length-le_bytes w v,
  take-le_bytes w v rest,
  drop-le_bytes w v rest,
  le_value-le_bytes w v h,
)

pub read_uvarint-uvarint :
    (v : ℕ) (rest : List ℕ)
    → IsU64 v
    → read_uvarint (new_des (uvarint 9 v ++ rest)) ≡ (v, new_des rest)
unfolding read_uvarint new_des
read_uvarint-uvarint v rest h = ground (
  arith,
  length-append (uvarint 9 v) rest,
  length-uvarint 9 v,
  uvarint_loop-uvarint 9 v 0 1 0 rest,
)

pub read_fixed-append :
    (a rest : List ℕ) → read_fixed (length a) (new_des (a ++ rest)) ≡ (a, new_des rest)
unfolding read_fixed new_des
read_fixed-append a rest =
    ground (arith, length-append a rest, take-append_length a rest, drop-append_length a rest)

pub read_array-le_bytes :
    (n v : ℕ) (rest : List ℕ)
    → v < 256 ^ n
    → read_array n (new_des (le_bytes n v ++ rest)) ≡ (v, new_des rest)
unfolding read_array new_des
read_array-le_bytes n v rest h = ground (
  arith,
  length-append (le_bytes n v) rest,
  length-le_bytes n v,
  take-le_bytes n v rest,
  drop-le_bytes n v rest,
  le_value-le_bytes n v h,
)

-- A byte slice of less than 2 ^ 63 bytes is read back from its length and its bytes, and what
-- follows is left.
pub read_byte_slice-append :
    (a rest : List ℕ)
    → length a < 2 ^ 63
    → read_byte_slice (new_des (uvarint 9 (length a) ++ (a ++ rest))) ≡ ok (a, new_des rest)
unfolding read_byte_slice new_des
read_byte_slice-append a rest h = ground (
  arith,
  length-append (uvarint 9 (length a)) (a ++ rest),
  length-append a rest,
  length-uvarint 9 (length a),
  uvarint_loop-uvarint 9 (length a) 0 1 0 (a ++ rest),
  take-append_length a rest,
  drop-append_length a rest,
)
