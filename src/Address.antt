-- ===== src/Address.antt =====
-- Addresses: address/address.go. A text is a prefix and a number in base 36, which math/big prints
-- and reads; here a text is the bytes of that number, the most significant byte first and none of
-- them in front 0, as `Bytes` of math/big gives them. `crc32` is ChecksumIEEE of hash/crc32.
pub mod RoundTrip
use Prim.Native.Nat.{bit_xor}
use still_blockchain.Base.{
  ℕ, zero, suc, ◌+◌, ◌-◌, ◌*◌, ◌/◌, ◌%◌, ◌^◌, List, [], ◌∷◌, ◌++◌, ltb, ◌==◌, ◌!=◌, if◌then◌else◌,
  length, take, drop, ◌||◌, ◌≡◌, refl, Bool, true,
}
use still_blockchain.Base.Bytes.{le_bytes, le_value}
use still_blockchain.Base.Result.{
  Result, ok, err, panic, fail_if, ◌>>=◌, ◌>>◌, bad_address, bad_checksum, bad_subaddr,
}
use still_blockchain.Binary.{Varint, value, short, overflow, uvarint_loop}

pub record Integrated : Type 0 where
  pub addr : ℕ
  pub subaddr : ℕ

abbrev pub size : ℕ
size = 22

-- One bit of the division by the reflected polynomial.
unfoldable pub crc_bit : ℕ → ℕ
crc_bit c = if c % 2 == 1 then bit_xor (c / 2) 3_988_292_384 else c / 2

unfoldable pub crc_bits : ℕ → ℕ → ℕ
unfolding crc_bit
crc_bits zero c = c
crc_bits (suc n) c = crc_bits n (crc_bit c)

unfoldable pub crc_loop : List ℕ → ℕ → ℕ
unfolding crc_bits
crc_loop [] c = c
crc_loop (b ∷ bs) c = crc_loop bs (crc_bits 8 (bit_xor c b))

unfoldable pub crc32 : List ℕ → ℕ
unfolding crc_loop
crc32 bs = bit_xor (crc_loop bs (2 ^ 32 - 1)) (2 ^ 32 - 1)

-- The low 16 bits of the sum, least byte first.
unfoldable pub checksum : List ℕ → List ℕ
unfolding crc32
checksum a = le_bytes 2 (crc32 a % 2 ^ 16)

-- The loop of `bytes`, which drops the last two bytes while the last one is 0, on an even number of
-- bytes.
unfoldable pub keep_pair : ℕ → ℕ → List ℕ → List ℕ
keep_pair x y [] = if y == 0 then [] else x ∷ y ∷ []
keep_pair x y (z ∷ zs) = x ∷ y ∷ z ∷ zs

unfoldable pub trim_pairs : List ℕ → List ℕ
unfolding keep_pair
trim_pairs [] = []
trim_pairs (x ∷ []) = x ∷ []
trim_pairs (x ∷ y ∷ bs) = keep_pair x y (trim_pairs bs)

-- `Integrated.bytes`
unfoldable pub integrated_bytes : Integrated → List ℕ
unfolding checksum trim_pairs
integrated_bytes a =
    let b = le_bytes size a.addr ++ trim_pairs (le_bytes 8 a.subaddr) in checksum b ++ b

-- The bytes of the number that some bytes make.
unfoldable pub without_zeros : List ℕ → List ℕ
without_zeros [] = []
without_zeros (b ∷ bs) = let rest = without_zeros bs in if b == 0 then rest else b ∷ bs

-- `Integrated.String`
unfoldable pub to_text : Integrated → List ℕ
unfolding integrated_bytes without_zeros
to_text a = without_zeros (integrated_bytes a)

-- `binary.Uvarint`, whose code is below 0 at an overflow only.
unfoldable pub subaddr_of : Varint → Result ℕ
subaddr_of (value v rest) = ok v
subaddr_of short = ok 0
subaddr_of overflow = err bad_subaddr

-- `data[0] != sum[0] || data[1] != sum[1]`, where both have two bytes.
unfoldable pub differs : List ℕ → List ℕ → Bool
differs (a ∷ b ∷ bs) (c ∷ d ∷ ds) = a != c || b != d
differs _ _ = true

-- `FromString`, behind the prefix.
unfoldable pub from_text : List ℕ → Result Integrated
unfolding checksum differs subaddr_of
from_text data_bytes = do
  fail_if (ltb (length data_bytes) (size + 2)) bad_address
  let sum = checksum (drop (length data_bytes - size) data_bytes)
  fail_if (differs data_bytes sum) bad_checksum
  subaddr ←
      if length data_bytes == size + 2
      then subaddr_of (uvarint_loop (drop (2 + size) data_bytes) 0 1 0)
      else ok 0
  ok (record { addr = le_value (take size (drop 2 data_bytes)); subaddr = subaddr })
