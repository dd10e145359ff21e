-- ===== src/Checkpoints/Create/Covers.antt =====
-- What the checkpoints package reads from the output of `CreateCheckpoints`.
use Prim.Native.Nat.{zero}
use still_blockchain.Chain.{Chain, get_topo}
use still_blockchain.Binary.{add_uint, add_fixed}
use still_blockchain.Base.Bytes.{
  le_bytes, le_value, length-le_bytes, le_value-le_bytes, take-le_bytes, drop-le_bytes,
}
use still_blockchain.Base.Result.{ok, >>=-elim}
use still_blockchain.Checkpoints.{Checkpoints, init, get_checkpoint, is_checkpoint}
use still_blockchain.Checkpoints.Coverage.{IsLoaded, get_checkpoint_reads}
use native.Mathlib.Nat.{div-add-mod', div-le_self}
use still_blockchain.Checkpoints.Create.{add_topos, create_checkpoints}
use still_blockchain.Base.{
  append_assoc, length-append, ℕ, List, ◌≡◌, ◌<◌, [], ◌++◌, arith, ◌^◌, length, ◌*◌, suc, ◌+◌, ◌∙◌,
  take, drop, refl, append-nil, ap, sym, ◌∷◌, ◌/◌, true, ◌-◌, ◌%◌, ◌≤◌,
}

-- The hashes of the main chain are of 32 bytes.
abbrev pub FitTopo : Chain → Type 0
FitTopo ch = (height hash : ℕ) → get_topo height ch ≡ ok hash → hash < 256 ^ 32

-- Behind `s`, the output has the hash of every `interval`-th height.
record Lists (ch : Chain) (interval rounds height : ℕ) (s bin : List ℕ) : Type 0 where
  hashes : List ℕ
  splits : bin ≡ s ++ hashes
  length_hashes : length hashes ≡ rounds * 32
  reads :
      (k : ℕ)
      → k < rounds
      → get_topo (height + k * interval) ch ≡ ok (le_value (take 32 (drop (k * 32) hashes)))

drop_nil : (n : ℕ) → drop {A = ℕ} n [] ≡ []
drop_nil zero = refl
drop_nil (suc n) = refl

drop-add : (n m : ℕ) (xs : List ℕ) → drop (n + m) xs ≡ drop m (drop n xs)
drop-add zero m xs = ap (λ k. drop k xs) (omega arith)
drop-add (suc n) m [] = drop_nil (suc n + m) ∙ sym (drop_nil m)
drop-add (suc n) m (x ∷ xs) =
    let step : suc n + m ≡ suc (n + m) = omega arith in
    ap (λ k. drop k (x ∷ xs)) step ∙ drop-add n m xs

next_reads :
    (ch : Chain) (interval rounds height hash : ℕ) (hashes : List ℕ)
    → hash < 256 ^ 32
    → get_topo height ch ≡ ok hash
    → ((k : ℕ)
        → k < rounds
        → get_topo (height + interval + k * interval) ch
          ≡ ok (le_value (take 32 (drop (k * 32) hashes))))
    → (k : ℕ) → k < suc rounds
    → get_topo (height + k * interval) ch
      ≡ ok (le_value (take 32 (drop (k * 32) (le_bytes 32 hash ++ hashes))))
next_reads ch interval rounds height hash hashes fits found reads zero lt =
    let here : height + 0 * interval ≡ height = omega arith in
    let first : le_value (take 32 (le_bytes 32 hash ++ hashes)) ≡ hash =
      rw (take-le_bytes 32 hash hashes) (le_value-le_bytes 32 hash fits) in
    ap (λ h. get_topo h ch) here ∙ found ∙ ap ok (sym first)
next_reads ch interval rounds height hash hashes fits found reads (suc k) lt =
    let there : height + suc k * interval ≡ height + interval + k * interval = omega arith in
    let bs = le_bytes 32 hash ++ hashes in
    let behind : drop (suc k * 32) bs ≡ drop (k * 32) hashes =
      ap (λ n. drop n bs) (omega arith)
      ∙ drop-add 32 (k * 32) bs
      ∙ ap (λ xs. drop (k * 32) xs) (drop-le_bytes 32 hash hashes) in
    ap (λ h. get_topo h ch) there
    ∙ reads k (omega (arith, lt))
    ∙ ap (λ xs. ok (le_value (take 32 xs))) (sym behind)

next-Lists :
    (ch : Chain) (interval rounds height hash : ℕ) (s bin : List ℕ)
    → hash < 256 ^ 32
    → get_topo height ch ≡ ok hash
    → Lists ch interval rounds (height + interval) (s ++ le_bytes 32 hash) bin
    → Lists ch interval (suc rounds) height s bin
next-Lists ch interval rounds height hash s bin fits found l = record {
  hashes = le_bytes 32 hash ++ l.hashes;
  splits = l.splits ∙ append_assoc s (le_bytes 32 hash) l.hashes;
  length_hashes =
      omega (
        arith,
        length-append (le_bytes 32 hash) l.hashes,
        length-le_bytes 32 hash,
        l.length_hashes,
      );
  reads = next_reads ch interval rounds height hash l.hashes fits found l.reads;
}

add_topos-Lists :
    (ch : Chain) (interval rounds height : ℕ) (s bin : List ℕ)
    → FitTopo ch
    → add_topos ch interval rounds height s ≡ ok bin
    → Lists ch interval rounds height s bin
unfolding add_topos add_fixed
add_topos-Lists ch interval zero height s bin fits h = record {
  hashes = [];
  splits = ground (arith, append-nil s);
  length_hashes = refl;
  reads = λ k lt. absurd (omega arith);
}
add_topos-Lists ch interval (suc rounds) height s bin fits h =
    >>=-elim (get_topo height ch)
      (λ hash. add_topos ch interval rounds (height + interval) (s ++ le_bytes 32 hash)) h
      (λ hash found later.
        next-Lists ch interval rounds height hash s bin (fits height hash found) found (
          add_topos-Lists ch interval rounds (height + interval) (s ++ le_bytes 32 hash) bin fits
            later))

loaded : List ℕ → ℕ → ℕ → Checkpoints
loaded bin interval rounds = record { bin = bin; interval = interval; max_checkpoint = rounds }

Lists-loads :
    (ch : Chain) (interval rounds : ℕ) (bin : List ℕ)
    → 0 < interval
    → interval < 2 ^ 32
    → Lists ch interval rounds interval (le_bytes 4 interval) bin
    → init bin ≡ ok (loaded bin interval rounds)
unfolding init loaded
Lists-loads ch interval rounds bin some fits l =
    let len : length bin ≡ 4 + rounds * 32 =
      ap length l.splits
      ∙ omega (
        arith,
        length-append (le_bytes 4 interval) l.hashes,
        length-le_bytes 4 interval,
        l.length_hashes,
      ) in
    let head : le_value (take 4 bin) ≡ interval =
      ap (λ xs. le_value (take 4 xs)) l.splits
      ∙ ap le_value (take-le_bytes 4 interval l.hashes)
      ∙ le_value-le_bytes 4 interval fits in
    rw (head, len) (ground (arith, some))

multiple_of : (q k : ℕ) → 0 < q → k + (q - 1) * k ≡ q * k
multiple_of zero k h = absurd (omega (arith, h))
multiple_of (suc q) k h =
    let pred : suc q - 1 ≡ q = omega arith in ap (λ x. k + x * k) pred ∙ omega arith

nth_interval :
    (height interval rounds : ℕ)
    → height % interval ≡ 0
    → height / interval ≤ rounds
    → 0 < height
    → (height ≡ interval + (height / interval - 1) * interval) × (height / interval - 1 < rounds)
nth_interval height interval rounds divides le pos =
    let whole : height / interval * interval ≡ height =
      omega (arith, div-add-mod' height interval, divides) in
    let some : 0 < height / interval = ground (arith, whole) in
    (sym (multiple_of (height / interval) interval some ∙ whole), omega (arith, some, le))

Lists-reads :
    (ch : Chain) (interval rounds height : ℕ) (bin : List ℕ)
    → 0 < interval
    → interval < 2 ^ 32
    → rounds < 2 ^ 57
    → Lists ch interval rounds interval (le_bytes 4 interval) bin
    → is_checkpoint (loaded bin interval rounds) height ≡ true
    → 0 < height
    → get_topo height ch ≡ get_checkpoint (loaded bin interval rounds) height
unfolding loaded is_checkpoint
Lists-reads ch interval rounds height bin some fits small l at pos =
    let c = loaded bin interval rounds in
    let len : length bin ≡ 4 + rounds * 32 =
      ap length l.splits
      ∙ omega (
        arith,
        length-append (le_bytes 4 interval) l.hashes,
        length-le_bytes 4 interval,
        l.length_hashes,
      ) in
    let is_loaded : IsLoaded c = record {
      interval_pos = some;
      holds_all = omega (arith, len);
      small = omega (arith, len);
    } in
    let k = height / interval - 1 in
    let facts : (height ≡ interval + k * interval) × (k < rounds) =
      nth_interval height interval rounds (ground arith) (ground arith) pos in
    let place : drop (4 + k * 32) bin ≡ drop (k * 32) l.hashes =
      drop-add 4 (k * 32) bin
      ∙ ap (λ xs. drop (k * 32) (drop 4 xs)) l.splits
      ∙ ap (λ xs. drop (k * 32) xs) (drop-le_bytes 4 interval l.hashes) in
    ap (λ h. get_topo h ch) facts.0
    ∙ l.reads k facts.1
    ∙ ap (λ xs. ok (le_value (take 32 xs))) (sym place)
    ∙ sym (get_checkpoint_reads c height is_loaded at pos)

-- If `CreateCheckpoints` makes a file up to a height below 2 ^ 57, with an interval of 32 bits and
-- hashes of 32 bytes, then the checkpoints package loads it, it has one checkpoint for each interval up to that
-- height, and at each of them but 0 `GetCheckpoint` gives the hash of the main chain.
pub create_checkpoints-Covers :
    (ch : Chain) (max_height interval : ℕ) (bin : List ℕ)
    → FitTopo ch
    → interval < 2 ^ 32
    → max_height < 2 ^ 57
    → create_checkpoints ch max_height interval ≡ ok bin
    → (c : Checkpoints) × (init bin ≡ ok c)
      × (c.max_checkpoint ≡ max_height / interval)
      × ((height : ℕ)
          → is_checkpoint c height ≡ true
          → 0 < height
          → get_topo height ch ≡ get_checkpoint c height)
unfolding create_checkpoints add_uint loaded
create_checkpoints-Covers ch max_height interval bin fits narrow low h =
    let some : 0 < interval = ground arith in
    let rounds = max_height / interval in
    let below : rounds < 2 ^ 57 = omega (arith, low, div-le_self max_height interval) in
    let whole : interval % 2 ^ 32 ≡ interval = omega (arith, narrow) in
    let made : add_topos ch interval rounds interval (le_bytes 4 interval) ≡ ok bin =
      ground (arith, whole) in
    let l = add_topos-Lists ch interval rounds interval (le_bytes 4 interval) bin fits made in
    (
      loaded bin interval rounds,
      Lists-loads ch interval rounds bin some narrow l,
      refl,
      λ height at pos. Lists-reads ch interval rounds height bin some narrow below l at pos,
    )
