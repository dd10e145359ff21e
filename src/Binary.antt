-- ===== src/Binary.antt =====
-- The serializer and the deserializer: binary/manualser.go and binary/manualdes.go, with the
-- varints of Go's encoding/binary that they call. `Ser.data` is a list of bytes and each `Add`
-- method returns the longer list; `Des` keeps its data and whether an error was met.
pub mod Uvarint
pub mod RoundTrip
pub mod Reads
use still_blockchain.Base.{
  ℕ, zero, suc, ◌+◌, ◌*◌, ◌/◌, ◌%◌, ◌^◌, Bool, true, false, ◌&&◌, List, [], ◌∷◌, ◌++◌, ltb, leb,
  ◌==◌, if◌then◌else◌, length, take, drop,
}
use still_blockchain.Base.Bytes.{le_bytes, le_value}
use still_blockchain.Base.Result.{Result, ok, panic}

-- `binary.AppendUvarint`: seven bits to a byte, lowest first. Nine rounds after the first write
-- every uint64.
unfoldable pub uvarint : ℕ → ℕ → List ℕ
uvarint zero v = (v % 256) ∷ []
uvarint (suc k) v =
    let rest = uvarint k (v / 128) in if ltb v 128 then v ∷ [] else (v % 128 + 128) ∷ rest

-- What `binary.Uvarint` answers: a value with the bytes read, 0 bytes read (the buffer ends
-- inside the number), or a negative count (the number overflows).
pub data Varint : Type 0 where
  value : ℕ → List ℕ → Varint
  short overflow : Varint

-- The loop of `binary.Uvarint` after `i` bytes, with `p` for 128 ^ i, so that `<< s` is `* p`.
unfoldable pub uvarint_loop : List ℕ → ℕ → ℕ → ℕ → Varint
uvarint_loop [] i p x = short
uvarint_loop (b ∷ bs) i p x =
    let more = uvarint_loop bs (i + 1) (p * 128) (x + b % 128 * p) in
    if i == 10
    then overflow
    else if ltb b 128
    then (if i == 9 && ltb 1 b then overflow else value (x + b * p) bs)
    else more

pub record Des : Type 0 where
  pub bytes : List ℕ
  pub failed : Bool

unfoldable pub new_des : List ℕ → Des
new_des bs = record { bytes = bs; failed = false }

-- `s.err = errors.New(...)`; the data stay.
unfoldable pub fail : Des → Des
fail d = record { bytes = d.bytes; failed = true }

-- `add_uint8`, `add_uint16`, `add_uint32` and `add_uint64` at their widths in bytes.
unfoldable pub add_uint : ℕ → List ℕ → ℕ → List ℕ
add_uint width s n = s ++ le_bytes width n

unfoldable pub add_uvarint : List ℕ → ℕ → List ℕ
add_uvarint s n = s ++ uvarint 9 n

unfoldable pub add_fixed : List ℕ → List ℕ → List ℕ
add_fixed s a = s ++ a

unfoldable pub add_byte_slice : List ℕ → List ℕ → List ℕ
add_byte_slice s a = (s ++ uvarint 9 (length a)) ++ a

unfoldable pub add_bool : List ℕ → Bool → List ℕ
add_bool s b = s ++ (if b then 0 else 1) ∷ []

-- `ReadUint8`, `ReadUint16`, `ReadUint32` and `ReadUint64` at their widths in bytes.
unfoldable pub read_uint : ℕ → Des → ℕ × Des
unfolding fail
read_uint width d =
    if d.failed
    then (0, d)
    else if ltb (length d.bytes) width
    then (0, fail d)
    else (le_value (take width d.bytes), record { bytes = drop width d.bytes; failed = false })

-- What `ReadUvarint` does with the answer of `Uvarint`: only a negative count is an error, and
-- with a count of 0 the data stay where they are.
unfoldable pub take_varint : Des → Varint → ℕ × Des
unfolding fail
take_varint d (value v rest) = (v, record { bytes = rest; failed = false })
take_varint d short = (0, d)
take_varint d overflow = (0, fail d)

unfoldable pub read_uvarint : Des → ℕ × Des
unfolding fail take_varint
read_uvarint d =
    if d.failed
    then (0, d)
    else if ltb (length d.bytes) 1
    then (0, fail d)
    else take_varint d (uvarint_loop d.bytes 0 1 0)

unfoldable pub zeros : ℕ → List ℕ
zeros zero = []
zeros (suc n) = 0 ∷ zeros n

-- `ReadFixedByteArray` answers an array of zeros where it fails.
unfoldable pub read_fixed : ℕ → Des → List ℕ × Des
unfolding fail zeros
read_fixed n d =
    if d.failed
    then (zeros n, d)
    else if ltb (length d.bytes) n
    then (zeros n, fail d)
    else (take n d.bytes, record { bytes = drop n d.bytes; failed = false })

-- `ReadByteSlice` after its length was read. `int(length)` is negative from 2 ^ 63 on, which the
-- comparison lets through, and the slice expression then panics.
unfoldable pub slice_of_length : ℕ → Des → Result (List ℕ × Des)
unfolding fail
slice_of_length n d =
    if ltb n (2 ^ 63)
    then (if ltb (length d.bytes) n
        then ok ([], fail d)
        else ok (take n d.bytes, record { bytes = drop n d.bytes; failed = false }))
    else panic

unfoldable pub slice_of_varint : Des → Varint → Result (List ℕ × Des)
unfolding fail slice_of_length
slice_of_varint d (value n rest) = slice_of_length n (record { bytes = rest; failed = false })
slice_of_varint d short = slice_of_length 0 d
slice_of_varint d overflow = ok ([], fail d)

unfoldable pub read_byte_slice : Des → Result (List ℕ × Des)
unfolding fail slice_of_varint
read_byte_slice d =
    if d.failed
    then ok ([], d)
    else if ltb (length d.bytes) 1
    then ok ([], fail d)
    else slice_of_varint d (uvarint_loop d.bytes 0 1 0)

-- `ReadBool` on the data: a first byte of 1 is true, of 2 is false.
unfoldable pub bool_of_bytes : Des → List ℕ → Bool × Des
unfolding fail
bool_of_bytes d [] = (false, fail d)
bool_of_bytes d (b ∷ bs) =
    let next : Des = record { bytes = bs; failed = false } in
    if b == 1 then (true, next) else if b == 2 then (false, next) else (false, fail next)

unfoldable pub read_bool : Des → Bool × Des
unfolding bool_of_bytes
read_bool d = if d.failed then (false, d) else bool_of_bytes d d.bytes

-- `[n]byte(d.ReadFixedByteArray(n))`, as a number.
unfoldable pub read_array : ℕ → Des → ℕ × Des
unfolding read_fixed
read_array n d = let (a, d') = read_fixed n d in (le_value a, d')
