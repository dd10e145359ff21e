-- ===== src/Block/Reads.antt =====
-- What a read header leaves: `Header.Deserialize` of block/block.go, on any bytes.
pub mod Full
use still_blockchain.Base.{
  ℕ, zero, suc, List, ◌∷◌, arith, refl, ap, false, Bool, true, ◌≡◌, ◌≤◌, length, ◌^◌, ◌||◌, ltb,
  leb, ◌-◌, subst,
}
use still_blockchain.Base.Bytes.{IsBytes}
use still_blockchain.Base.Result.{
  Result, Error, ok, err, panic, fail_if, ◌>>=◌, ◌>>◌, des_error, too_many_chains, too_many_sides,
}
use still_blockchain.Binary.{Des, new_des, read_array, read_uint, read_uvarint}
use still_blockchain.Binary.Reads.{Leaves, read_uint-Leaves, read_array-Leaves, read_uvarint-Leaves}
use still_blockchain.Block.{Commitment, HashingId, Header}
use still_blockchain.Block.Codec.{
  read_hashes, read_chains, deserialize_commitment, read_commitments, deserialize_header,
}
use still_blockchain.Config.{minidag_ancestors, max_merge_mined_chains, max_side_blocks}

-- What holds of the value of a call, if it returns one.
unfoldable pub IfOk {ℓ κ} : {A : Type ℓ} → (A → Type κ) → Result A → Type κ
IfOk P (ok a) = P a
IfOk P (err e) = Unit
IfOk P panic = Unit

pub IfOk-bind {ℓ} :
    {A B : Type ℓ} (Q : A → Type 0) (P : B → Type 0) (m : Result A) (next : A → Result B)
    → IfOk Q m
    → ((a : A) → Q a → IfOk P (next a))
    → IfOk P (m >>= next)
unfolding IfOk
IfOk-bind Q P (ok a) next h k = k a h
IfOk-bind Q P (err e) next h k = tt
IfOk-bind Q P panic next h k = tt

pub IfOk-guard {ℓ} :
    {B : Type ℓ} (P : B → Type 0) (bad : Bool) (e : Error) (rest : Result B)
    → (bad ≡ false → IfOk P rest)
    → IfOk P (fail_if bad e >> rest)
unfolding IfOk
IfOk-guard P true e rest k = tt
IfOk-guard P false e rest k = k refl

pub IfOk-elim {ℓ κ} :
    {A : Type ℓ} (P : A → Type κ) (r : Result A) {a : A} → IfOk P r → r ≡ ok a → P a
unfolding IfOk
IfOk-elim P r h e = subst (IfOk P) e h

pub IfOk-ok {ℓ κ} : {A : Type ℓ} (P : A → Type κ) (a : A) → P a → IfOk P (ok a)
unfolding IfOk
IfOk-ok P a h = h

pub IfOk-any {ℓ} : {A : Type ℓ} (r : Result A) → IfOk (λ _. Unit {0}) r
unfolding IfOk
IfOk-any (ok a) = tt
IfOk-any (err e) = tt
IfOk-any panic = tt

read_hashes-Leaves : (n : ℕ) (d : Des) → IsBytes d.bytes → Leaves (read_hashes n d)
unfolding read_hashes
read_hashes-Leaves zero d h = h
read_hashes-Leaves (suc n) d h = read_hashes-Leaves n (read_array 32 d).1 (read_array-Leaves 32 d h)

read_chains-Leaves : (n : ℕ) (d : Des) → IsBytes d.bytes → IfOk Leaves (read_chains n d)
unfolding read_chains
read_chains-Leaves zero d h = IfOk-ok Leaves _ h
read_chains-Leaves (suc n) d h =
    let (network, d1) = read_uint 8 d in
    let (hash, d2) = read_array 32 d1 in
    let more : List HashingId × Des → Result (List HashingId × Des) =
      λ x. ok (record { network = network; hash = hash } ∷ x.0, x.1) in
    IfOk-guard Leaves d.failed des_error (read_chains n d2 >>= more) (λ _.
      IfOk-bind Leaves Leaves (read_chains n d2) more
        (read_chains-Leaves n d2 (read_array-Leaves 32 d1 (read_uint-Leaves 8 d h)))
        (λ x k. IfOk-ok Leaves (record { network = network; hash = hash } ∷ x.0, x.1) k))

deserialize_commitment-Leaves :
    (b : List ℕ) → IsBytes b → IfOk (λ r. IsBytes r.1) (deserialize_commitment b)
unfolding deserialize_commitment new_des IfOk
deserialize_commitment-Leaves b h =
    let d1 = (read_array 32 (new_des b)).1 in
    let d4 = (read_uint 4 (read_uvarint (read_hashes minidag_ancestors d1).1).1).1 in
    let (num, d6) = read_uvarint (read_array 16 d4).1 in
    let h6 = read_uvarint-Leaves (read_array 16 d4).1 (
      read_array-Leaves 16 d4 (
        read_uint-Leaves 4 (read_uvarint (read_hashes minidag_ancestors d1).1).1 (
          read_uvarint-Leaves (read_hashes minidag_ancestors d1).1
            (read_hashes-Leaves minidag_ancestors d1 (read_array-Leaves 32 (new_des b) h))))) in
    ground (arith, read_chains-Leaves num d6 h6)

read_commitments-Leaves :
    (n : ℕ) (d : Des)
    → IsBytes d.bytes
    → IfOk (λ r. IsBytes r.1.bytes × (length r.0 ≡ n)) (read_commitments n d)
unfolding read_commitments IfOk
read_commitments-Leaves zero d h = (h, refl)
read_commitments-Leaves (suc n) d h =
    let after : List ℕ → Des = λ rest. record { bytes = rest; failed = d.failed } in
    let next : Commitment × List ℕ → Result (List Commitment × Des) =
      λ c. read_commitments n (after c.1) >>= λ cs. ok (c.0 ∷ cs.0, cs.1) in
    IfOk-guard (λ r. IsBytes r.1.bytes × (length r.0 ≡ suc n)) d.failed des_error
      (deserialize_commitment d.bytes >>= next)
      (λ _.
        IfOk-bind (λ r. IsBytes r.1) (λ r. IsBytes r.1.bytes × (length r.0 ≡ suc n))
          (deserialize_commitment d.bytes) next (deserialize_commitment-Leaves d.bytes h)
          (λ c k. ground (arith, read_commitments-Leaves n (after c.1) k)))

-- The rest is bytes, and there are few side blocks.
abbrev pub FewSides : Header × List ℕ → Type 0
FewSides r = IsBytes r.1 × (length r.0.side_blocks ≤ 2)

-- What the header's reads end with, behind the chains.
sides-FewSides :
    (make : List Commitment → Header) (d : Des)
    → ((cs : List Commitment) → (make cs).side_blocks ≡ cs)
    → IsBytes d.bytes
    → IfOk FewSides (
        let (num_sides, d10) = read_uvarint d in
        fail_if (leb (2 ^ 63) num_sides || ltb max_side_blocks num_sides) too_many_sides
        >> (read_commitments num_sides d10 >>= λ x.
            fail_if x.1.failed des_error >> ok (make x.0, x.1.bytes)))
sides-FewSides make d same h =
    let (num_sides, d10) = read_uvarint d in
    let next : List Commitment × Des → Result (Header × List ℕ) =
      λ x. fail_if x.1.failed des_error >> ok (make x.0, x.1.bytes) in
    IfOk-guard FewSides (leb (2 ^ 63) num_sides || ltb max_side_blocks num_sides) too_many_sides
      (read_commitments num_sides d10 >>= next)
      (λ limit.
        IfOk-bind (λ r. IsBytes r.1.bytes × (length r.0 ≡ num_sides)) FewSides
          (read_commitments num_sides d10) next
          (read_commitments-Leaves num_sides d10 (read_uvarint-Leaves d h))
          (λ x k. IfOk-guard FewSides x.1.failed des_error (ok (make x.0, x.1.bytes)) (λ _.
            IfOk-ok FewSides (make x.0, x.1.bytes) (k.0, ground (arith, ap length (same x.0))))))

pub deserialize_header-FewSides : (b : List ℕ) → IsBytes b → IfOk FewSides (deserialize_header b)
unfolding deserialize_header new_des
deserialize_header-FewSides b h =
    let (version, d1) = read_uint 1 (new_des b) in
    let (height, d2) = read_uvarint d1 in
    let (timestamp, d3) = read_uvarint d2 in
    let (nonce, d4) = read_uint 4 d3 in
    let (nonce_extra, d5) = read_array 16 d4 in
    let (recipient, d6) = read_array 22 d5 in
    let (ancestors, d7) = read_hashes minidag_ancestors d6 in
    let (num_chains, d8) = read_uvarint d7 in
    let make : List HashingId → List Commitment → Header = λ chains sides. record {
      version = version;
      height = height;
      timestamp = timestamp;
      nonce = nonce;
      nonce_extra = nonce_extra;
      other_chains = chains;
      recipient = recipient;
      ancestors = ancestors;
      side_blocks = sides;
    } in
    let next : List HashingId × Des → Result (Header × List ℕ) = λ x.
      let (num_sides, d10) = read_uvarint x.1 in
      fail_if (leb (2 ^ 63) num_sides || ltb max_side_blocks num_sides) too_many_sides
      >> (read_commitments num_sides d10 >>= λ y.
          fail_if y.1.failed des_error >> ok (make x.0 y.0, y.1.bytes)) in
    let too_many = leb (2 ^ 63) num_chains || ltb (max_merge_mined_chains - 1) num_chains in
    let h4 =
      read_uint-Leaves 4 d3
        (read_uvarint-Leaves d2 (read_uvarint-Leaves d1 (read_uint-Leaves 1 (new_des b) h))) in
    let h7 =
      read_hashes-Leaves minidag_ancestors d6
        (read_array-Leaves 22 d5 (read_array-Leaves 16 d4 h4)) in
    IfOk-guard FewSides d7.failed des_error
      (fail_if too_many too_many_chains >> (read_chains num_chains d8 >>= next))
      (λ _. IfOk-guard FewSides too_many too_many_chains (read_chains num_chains d8 >>= next) (λ _.
        IfOk-bind Leaves FewSides (read_chains num_chains d8) next
          (read_chains-Leaves num_chains d8 (read_uvarint-Leaves d7 h7))
          (λ x k. sides-FewSides (make x.0) x.1 (λ _. refl) k)))
