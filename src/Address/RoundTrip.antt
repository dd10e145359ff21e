-- ===== src/Address/RoundTrip.antt =====
-- What the text of an address keeps of it.
use Prim.Native.Nat.{zero}
use still_blockchain.Base.{
  ℕ, List, ◌≢◌, ◌<◌, ◌≡◌, drop, length, ◌≤◌, [], ◌∷◌, arith, refl, ◌+◌, ◌^◌, ◌++◌, append-nil, take,
  ◌%◌, ◌/◌, ◌∙◌, ap, sym,
}
use still_blockchain.Address.{
  Integrated, size, crc32, checksum, trim_pairs, keep_pair, integrated_bytes, without_zeros,
  to_text, differs, subaddr_of, from_text, ℕ, List, length, drop, [], suc, take,
}
use still_blockchain.Binary.{uvarint_loop}
use still_blockchain.Base.Result.{ok, err, bad_address}
use still_blockchain.Base.Bytes.{
  le_bytes, le_value, length-le_bytes, le_value-le_bytes, take-le_bytes,
}

trim_pairs-small : (s : ℕ) → s < 256 → trim_pairs (le_bytes 8 s) ≡ []
unfolding trim_pairs keep_pair le_bytes
trim_pairs-small s h = ground arith

drop_all : (n : ℕ) (xs : List ℕ) → length xs ≡ n → drop n xs ≡ []
drop_all zero [] h = refl
drop_all (suc n) [] h = absurd (ground (arith, h))
drop_all zero (x ∷ xs) h = absurd (ground (arith, h))
drop_all (suc n) (x ∷ xs) h = drop_all n xs (omega arith)

-- Behind an address of full length there is nothing left to read.
nothing_left :
    (bs : List ℕ)
    → length bs ≡ size + 2
    → subaddr_of (uvarint_loop (drop (2 + size) bs) 0 1 0) ≡ ok 0
unfolding subaddr_of uvarint_loop
nothing_left bs h = rw (drop_all 24 bs h) refl

without_zeros-kept : (b : ℕ) (bs : List ℕ) → b ≢ 0 → without_zeros (b ∷ bs) ≡ b ∷ bs
unfolding without_zeros
without_zeros-kept b bs h = ground arith

without_zeros-shorter : (bs : List ℕ) → length (without_zeros bs) ≤ length bs
unfolding without_zeros
without_zeros-shorter [] = omega arith
without_zeros-shorter (b ∷ bs) = ground (arith, without_zeros-shorter bs)

-- No text has a subaddress: what `FromString` reads has the subaddress 0.
pub from_text-subaddr : (bs : List ℕ) (a : Integrated) → from_text bs ≡ ok a → a.subaddr ≡ 0
unfolding from_text
from_text-subaddr bs a h = ground (arith, nothing_left bs)

bytes_of :
    (a : Integrated)
    → a.subaddr < 256
    → integrated_bytes a ≡ checksum (le_bytes 22 a.addr) ++ le_bytes 22 a.addr
unfolding integrated_bytes
bytes_of a h = rw (trim_pairs-small a.subaddr h, append-nil (le_bytes 22 a.addr)) refl

read_bytes :
    (b c : ℕ) (bs : List ℕ)
    → length bs ≡ 22
    → checksum bs ≡ b ∷ c ∷ []
    → from_text (b ∷ c ∷ bs) ≡ ok (record { addr = le_value (take 22 bs); subaddr = 0 })
unfolding from_text differs checksum
read_bytes b c bs len sum =
    rw len (rw sum (ground (arith, nothing_left (b ∷ c ∷ bs) (omega (arith, len)))))

two_bytes : (v : ℕ) → le_bytes 2 (v % 2 ^ 16) ≡ (v % 256) ∷ (v / 256 % 256) ∷ []
unfolding le_bytes
two_bytes v = ground arith

checksum-bytes : (bs : List ℕ) → checksum bs ≡ (crc32 bs % 256) ∷ (crc32 bs / 256 % 256) ∷ []
unfolding checksum
checksum-bytes bs = two_bytes (crc32 bs)

value_back : (addr : ℕ) → addr < 256 ^ 22 → le_value (take 22 (le_bytes 22 addr)) ≡ addr
value_back addr fits =
    let bs = le_bytes 22 addr in
    ap (λ xs. le_value (take 22 xs)) (sym (append-nil bs))
    ∙ ap le_value (take-le_bytes 22 addr [])
    ∙ le_value-le_bytes 22 addr fits

short_fails : (bs : List ℕ) → length bs < 24 → from_text bs ≡ err bad_address
unfolding from_text
short_fails bs h = ground (arith, h)

starts_with_zero : (b : ℕ) (bs : List ℕ) → b ≡ 0 → without_zeros (b ∷ bs) ≡ without_zeros bs
unfolding without_zeros
starts_with_zero b bs h = ground (arith, h)

-- The text of an address with a subaddress below 256 is read back without the subaddress, if the
-- first byte of the checksum is not 0; where that byte is 0, the text is too short and is refused.
pub from_text-to_text :
    (a : Integrated)
    → a.addr < 256 ^ 22
    → a.subaddr < 256
    → (crc32 (le_bytes 22 a.addr) % 256 ≡ 0 → from_text (to_text a) ≡ err bad_address)
      × (crc32 (le_bytes 22 a.addr) % 256 ≢ 0
          → from_text (to_text a) ≡ ok (record { addr = a.addr; subaddr = 0 }))
unfolding to_text
from_text-to_text a fits small =
    let bs = le_bytes 22 a.addr in
    let sum = checksum-bytes bs in
    let len = length-le_bytes 22 a.addr in
    let low = crc32 bs % 256 in
    let high = crc32 bs / 256 % 256 in
    rw (bytes_of a small) (
      rw sum (
        λ zero_byte. rw (starts_with_zero low (high ∷ bs) zero_byte) (
            short_fails (without_zeros (high ∷ bs))
              (omega (arith, without_zeros-shorter (high ∷ bs), len))),
        λ some_byte. rw (without_zeros-kept low (high ∷ bs) some_byte) (
            read_bytes low high bs len sum
            ∙ ap (λ x. ok (record { addr = x; subaddr = 0 })) (value_back a.addr fits)),
      ))
