-- ===== src/Packet/RoundTrip.antt =====
-- Packets are read back from their bytes, where they have any.
use still_blockchain.Base.{
  zero, suc, ℕ, ◌≡◌, ◌<◌, ◌^◌, refl, List, [], ◌∷◌, ◌++◌, arith, true, false, append_assoc,
  append-nil, length, ◌==◌, ◌&&◌, ap, subst,
}
use still_blockchain.Base.Bytes.{le_bytes, IsU64, le_value}
use still_blockchain.Base.Result.{ok, panic, ◌>>=◌}
use still_blockchain.Binary.{new_des, uvarint, read_array, zeros, read_uvarint}
use still_blockchain.Block.Codec.{trim_zeros, pad_difficulty, keep_byte}
use still_blockchain.Binary.RoundTrip.{
  read_byte_slice-append, read_array-le_bytes, read_uvarint-uvarint,
}
use still_blockchain.Block.RoundTrip.{trimmed, pad_difficulty-trim_zeros, length-trimmed}
use still_blockchain.Uint128.{Uint128, put_bytes, is_zero, from_bytes}
use still_blockchain.Uint128.Value.{IsValid}
use still_blockchain.Packet.{
  PacketStats, PacketBlockRequest, nonempty, trim_or_panic, serialize_stats, deserialize_stats,
  serialize_request, deserialize_request,
}

pub record IsStats (p : PacketStats) : Type 0 where
  pub height_fits : IsU64 p.height
  pub cumulative_fits : IsValid p.cumulative_diff
  pub hash_fits : p.hash < 256 ^ 32

-- The bytes of the statistics where the difficulty leaves any.
abbrev pub stats_bytes : PacketStats → List ℕ
stats_bytes p =
    uvarint 9 p.height
    ++ (uvarint 9 (length (trimmed p.cumulative_diff))
        ++ (trimmed p.cumulative_diff ++ le_bytes 32 p.hash))

read_hash : (v : ℕ) → v < 256 ^ 32 → read_array 32 (new_des (le_bytes 32 v)) ≡ (v, new_des [])
read_hash v h = rw append-nil at (read_array-le_bytes 32 v [] h)

deserialize_stats-bytes : (p : PacketStats) → IsStats p → deserialize_stats (stats_bytes p) ≡ ok p
unfolding deserialize_stats
deserialize_stats-bytes p h =
    let r3 = le_bytes 32 p.hash in
    let t = trimmed p.cumulative_diff in
    rw
      (
        read_uvarint-uvarint p.height (uvarint 9 (length t) ++ (t ++ r3)) h.height_fits,
        read_byte_slice-append t r3 (omega (arith, length-trimmed p.cumulative_diff)),
        read_hash p.hash h.hash_fits,
      )
      (unfold new_des in rw (pad_difficulty-trim_zeros p.cumulative_diff h.cumulative_fits))

-- Trimmed to nothing, a difficulty is zero, and the other way round.
trimmed_zero : (u : Uint128) → IsValid u → trimmed u ≡ [] → is_zero u ≡ true
trimmed_zero u h e =
    let padded : pad_difficulty [] ≡ u = rw e at (pad_difficulty-trim_zeros u h) in
    subst (λ w. is_zero w ≡ true) padded nothing_padded
  where
    nothing_padded : is_zero (pad_difficulty []) ≡ true
    nothing_padded = unfold is_zero pad_difficulty from_bytes zeros le_value in refl

zero_words : (lo hi : ℕ) → (lo == 0 && hi == 0) ≡ true → (lo ≡ 0) × (hi ≡ 0)
zero_words lo hi e = ground arith

zero_trimmed : (u : Uint128) → is_zero u ≡ true → trimmed u ≡ []
unfolding is_zero put_bytes
zero_trimmed u e =
    let (lo_zero, hi_zero) = zero_words u.lo u.hi e in
    rw (lo_zero, hi_zero) (unfold le_bytes trim_zeros keep_byte in refl)

pub nonempty-zero : (u : Uint128) → is_zero u ≡ true → trim_or_panic (put_bytes u) ≡ panic
unfolding trim_or_panic nonempty
nonempty-zero u e = rw (zero_trimmed u e) refl

pub nonempty-nonzero :
    (u : Uint128) → IsValid u → is_zero u ≡ false → trim_or_panic (put_bytes u) ≡ ok (trimmed u)
unfolding trim_or_panic nonempty
nonempty-nonzero u h nz = kept (trimmed u) (λ e. trimmed_zero u h e)
  where
    kept : (bs : List ℕ) → (bs ≡ [] → is_zero u ≡ true) → nonempty bs ≡ ok bs
    kept [] empty = let zero : is_zero u ≡ true = empty refl in cc
    kept (b ∷ bs) empty = refl

-- Statistics that fit their types are read back from their bytes where the difficulty is not 0;
-- where it is 0, writing them panics.
pub deserialize_stats-serialize_stats :
    (p : PacketStats)
    → IsStats p
    → (is_zero p.cumulative_diff ≡ true → serialize_stats p ≡ panic)
      × (is_zero p.cumulative_diff ≡ false → (serialize_stats p >>= deserialize_stats) ≡ ok p)
deserialize_stats-serialize_stats p h = (panics, reads)
  where
    panics : is_zero p.cumulative_diff ≡ true → serialize_stats p ≡ panic
    panics e = unfold serialize_stats in rw (nonempty-zero p.cumulative_diff e) refl

    written : is_zero p.cumulative_diff ≡ false → serialize_stats p ≡ ok (stats_bytes p)
    written nz =
        unfold serialize_stats in
        rw (nonempty-nonzero p.cumulative_diff h.cumulative_fits nz) (ap ok (simp append_assoc))

    reads : is_zero p.cumulative_diff ≡ false → (serialize_stats p >>= deserialize_stats) ≡ ok p
    reads nz = rw (written nz) (deserialize_stats-bytes p h)

request_at_height :
    (height hash : ℕ)
    → IsU64 height
    → hash < 256 ^ 32
    → (0 < height → hash ≡ 0)
    → deserialize_request (serialize_request (record { height = height; hash = hash }))
      ≡ ok (record { height = height; hash = hash })
unfolding deserialize_request serialize_request new_des
request_at_height zero hash height_fits hash_fits bare =
    rw (read_uvarint-uvarint 0 (le_bytes 32 hash) height_fits, read_hash hash hash_fits)
request_at_height (suc n) hash height_fits hash_fits bare =
    let number : read_uvarint (new_des (uvarint 9 (suc n))) ≡ (suc n, new_des []) =
      rw append-nil at (read_uvarint-uvarint (suc n) [] height_fits) in
    ground (arith, number, bare (omega arith))

-- A request for a height that fits uint64, or for a hash of 32 bytes with height 0, is read back
-- from its bytes.
pub deserialize_request-serialize_request :
    (p : PacketBlockRequest)
    → IsU64 p.height
    → p.hash < 256 ^ 32
    → (0 < p.height → p.hash ≡ 0)
    → deserialize_request (serialize_request p) ≡ ok p
deserialize_request-serialize_request p height_fits hash_fits bare =
    request_at_height p.height p.hash height_fits hash_fits bare
