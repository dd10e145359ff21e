-- ===== src/Packet.antt =====
-- The packets that peers exchange: p2p/packet/packets.go and p2p/packet/packdata.go.
pub mod RoundTrip
use still_blockchain.Base.{ℕ, ◌≡◌, false, true, Bool, List, [], ◌∷◌, ◌==◌, if◌then◌else◌}
use still_blockchain.Base.Bytes.{le_bytes}
use still_blockchain.Base.Result.{Result, ok, err, panic, des_error, fail_if, ◌>>=◌, ◌>>◌}
use still_blockchain.Binary.{
  new_des, add_fixed, add_uvarint, add_byte_slice, read_array, read_uvarint, read_byte_slice,
}
use still_blockchain.Block.Codec.{trim_zeros, pad_difficulty}
use still_blockchain.Uint128.{Uint128, put_bytes}

-- `packet.Type`; the other numbers are unknown.
pub data PacketType : Type 0 where
  ping block tx stats block_request unknown : PacketType

unfoldable pub packet_type : ℕ → PacketType
packet_type n =
    if n == 0
    then ping
    else if n == 1
    then block
    else if n == 2
    then tx
    else if n == 3
    then stats
    else if n == 4
    then block_request
    else unknown

pub record PacketStats : Type 0 where
  pub height : ℕ
  pub cumulative_diff : Uint128
  pub hash : ℕ

pub record PacketBlockRequest : Type 0 where
  pub height : ℕ
  pub hash : ℕ

-- `for diff[len(diff)-1] == 0`, which has no test of the length: where every byte is zero the
-- index runs out of range.
unfoldable pub nonempty : List ℕ → Result (List ℕ)
nonempty [] = panic
nonempty (b ∷ bs) = ok (b ∷ bs)

unfoldable pub trim_or_panic : List ℕ → Result (List ℕ)
unfolding nonempty
trim_or_panic bs = nonempty (trim_zeros bs)

unfoldable pub serialize_stats : PacketStats → Result (List ℕ)
unfolding add_uvarint add_byte_slice add_fixed
serialize_stats p = do
  let s1 = add_uvarint [] p.height
  diff ← trim_or_panic (put_bytes p.cumulative_diff)
  let s2 = add_byte_slice s1 diff
  ok (add_fixed s2 (le_bytes 32 p.hash))

unfoldable pub deserialize_stats : List ℕ → Result PacketStats
deserialize_stats data_bytes = do
  let (height, d1) = read_uvarint (new_des data_bytes)
  (diff, d2) ← read_byte_slice d1
  let (hash, d3) = read_array 32 d2
  fail_if d3.failed des_error
  ok (record { height = height; cumulative_diff = pad_difficulty diff; hash = hash })

unfoldable pub serialize_request : PacketBlockRequest → List ℕ
unfolding add_uvarint add_fixed
serialize_request p =
    let s1 = add_uvarint [] p.height in
    if p.height == 0 then add_fixed s1 (le_bytes 32 p.hash) else s1

-- The hash of a request by height stays what it was in the receiver: zeros.
unfoldable pub deserialize_request : List ℕ → Result PacketBlockRequest
deserialize_request data_bytes =
    let (height, d1) = read_uvarint (new_des data_bytes) in
    let (hash, d2) = read_array 32 d1 in
    if height == 0
    then (if d2.failed then err des_error else ok (record { height = 0; hash = hash }))
    else if d1.failed
    then err des_error
    else ok (record { height = height; hash = 0 })
