-- ===== src/Binary/Reads.antt =====
-- What is read from bytes leaves bytes.
use still_blockchain.Base.{
  ℕ, zero, suc, ◌*◌, ◌+◌, ◌^◌, List, [], ◌∷◌, ◌++◌, take, drop, length, arith, true, false, Bool,
  if◌then◌else◌, ltb, ◌%◌, ◌==◌, ◌&&◌,
}
use still_blockchain.Base.Bytes.{IsBytes, le_value}
use still_blockchain.Base.Result.{Result, ok, err, panic}
use still_blockchain.Binary.{
  Des, Varint, value, short, overflow, uvarint_loop, read_uint, read_uvarint, take_varint,
  read_fixed, read_array, read_byte_slice, slice_of_varint, slice_of_length, fail, zeros,
}

pub take-IsBytes : (n : ℕ) (bs : List ℕ) → IsBytes bs → IsBytes (take n bs)
take-IsBytes zero bs h = tt
take-IsBytes (suc n) [] h = tt
take-IsBytes (suc n) (b ∷ bs) (lt, h) = (lt, take-IsBytes n bs h)

pub drop-IsBytes : (n : ℕ) (bs : List ℕ) → IsBytes bs → IsBytes (drop n bs)
drop-IsBytes zero bs h = h
drop-IsBytes (suc n) [] h = tt
drop-IsBytes (suc n) (b ∷ bs) (lt, h) = drop-IsBytes n bs h

pub append-IsBytes : (xs bs : List ℕ) → IsBytes xs → IsBytes bs → IsBytes (xs ++ bs)
append-IsBytes [] bs h k = k
append-IsBytes (a ∷ xs) bs (lt, h) k = (lt, append-IsBytes xs bs h k)

pub zeros-IsBytes : (n : ℕ) → IsBytes (zeros n)
unfolding zeros
zeros-IsBytes zero = tt
zeros-IsBytes (suc n) = (omega arith, zeros-IsBytes n)

-- What holds in both branches.
pub if-holds :
    {A : Type 0} (P : A → Type 0) (b : Bool) (x y : A) → P x → P y → P (if b then x else y)
if-holds P true x y p q = p
if-holds P false x y p q = q

-- The bytes behind a number.
abbrev RestIsBytes : Varint → Type 0
RestIsBytes (value v rest) = IsBytes rest
RestIsBytes short = Unit
RestIsBytes overflow = Unit

uvarint_loop-IsBytes : (bs : List ℕ) (i p x : ℕ) → IsBytes bs → RestIsBytes (uvarint_loop bs i p x)
unfolding uvarint_loop
uvarint_loop-IsBytes [] i p x h = tt
uvarint_loop-IsBytes (b ∷ bs) i p x (lt, h) =
    let more = uvarint_loop bs (i + 1) (p * 128) (x + b % 128 * p) in
    let last = if i == 9 && ltb 1 b then overflow else value (x + b * p) bs in
    if-holds RestIsBytes (i == 10) overflow (if ltb b 128 then last else more) tt (
      if-holds RestIsBytes (ltb b 128) last more
        (if-holds RestIsBytes (i == 9 && ltb 1 b) overflow (value (x + b * p) bs) tt h)
        (uvarint_loop-IsBytes bs (i + 1) (p * 128) (x + b % 128 * p) h))

-- The data that a read leaves, and the bytes that it gives.
abbrev pub Leaves {ℓ} : {A : Type ℓ} → A × Des → Type 0
Leaves r = IsBytes r.1.bytes

pub read_uint-Leaves : (n : ℕ) (d : Des) → IsBytes d.bytes → Leaves (read_uint n d)
unfolding read_uint fail
read_uint-Leaves n d h =
    let done : ℕ × Des =
      (le_value (take n d.bytes), record { bytes = drop n d.bytes; failed = false }) in
    if-holds Leaves d.failed (0, d) (if ltb (length d.bytes) n then (0, fail d) else done) h
      (if-holds Leaves (ltb (length d.bytes) n) (0, fail d) done h (drop-IsBytes n d.bytes h))

pub read_array-Leaves : (n : ℕ) (d : Des) → IsBytes d.bytes → Leaves (read_array n d)
unfolding read_array read_fixed fail
read_array-Leaves n d h =
    let done : List ℕ × Des = (take n d.bytes, record { bytes = drop n d.bytes; failed = false }) in
    if-holds Leaves d.failed (zeros n, d)
      (if ltb (length d.bytes) n then (zeros n, fail d) else done) h
      (if-holds Leaves (ltb (length d.bytes) n) (zeros n, fail d) done h (drop-IsBytes n d.bytes h))

take_varint-Leaves :
    (d : Des) (v : Varint) → IsBytes d.bytes → RestIsBytes v → Leaves (take_varint d v)
unfolding take_varint fail
take_varint-Leaves d (value v rest) h k = k
take_varint-Leaves d short h k = h
take_varint-Leaves d overflow h k = h

pub read_uvarint-Leaves : (d : Des) → IsBytes d.bytes → Leaves (read_uvarint d)
unfolding read_uvarint fail
read_uvarint-Leaves d h =
    let done = take_varint d (uvarint_loop d.bytes 0 1 0) in
    if-holds Leaves d.failed (0, d) (if ltb (length d.bytes) 1 then (0, fail d) else done) h
      (if-holds Leaves (ltb (length d.bytes) 1) (0, fail d) done h
        (take_varint-Leaves d (uvarint_loop d.bytes 0 1 0) h
          (uvarint_loop-IsBytes d.bytes 0 1 0 h)))

-- A slice and what is left are bytes.
abbrev pub Slices : Result (List ℕ × Des) → Type 0
Slices (ok (a, d)) = IsBytes a × IsBytes d.bytes
Slices (err e) = Unit
Slices panic = Unit

slice_of_length-Slices : (n : ℕ) (d : Des) → IsBytes d.bytes → Slices (slice_of_length n d)
unfolding slice_of_length fail
slice_of_length-Slices n d h =
    let done : Result (List ℕ × Des) =
      ok (take n d.bytes, record { bytes = drop n d.bytes; failed = false }) in
    if-holds Slices (ltb n (2 ^ 63)) (if ltb (length d.bytes) n then ok ([], fail d) else done)
      panic
      (if-holds Slices (ltb (length d.bytes) n) (ok ([], fail d)) done (tt, h)
        (take-IsBytes n d.bytes h, drop-IsBytes n d.bytes h))
      tt

slice_of_varint-Slices :
    (d : Des) (v : Varint) → IsBytes d.bytes → RestIsBytes v → Slices (slice_of_varint d v)
unfolding slice_of_varint fail
slice_of_varint-Slices d (value n rest) h k =
    slice_of_length-Slices n (record { bytes = rest; failed = false }) k
slice_of_varint-Slices d short h k = slice_of_length-Slices 0 d h
slice_of_varint-Slices d overflow h k = (tt, h)

pub read_byte_slice-Slices : (d : Des) → IsBytes d.bytes → Slices (read_byte_slice d)
unfolding read_byte_slice fail
read_byte_slice-Slices d h =
    let done = slice_of_varint d (uvarint_loop d.bytes 0 1 0) in
    if-holds Slices d.failed (ok ([], d)) (if ltb (length d.bytes) 1 then ok ([], fail d) else done)
      (tt, h)
      (if-holds Slices (ltb (length d.bytes) 1) (ok ([], fail d)) done (tt, h)
        (slice_of_varint-Slices d (uvarint_loop d.bytes 0 1 0) h
          (uvarint_loop-IsBytes d.bytes 0 1 0 h)))
