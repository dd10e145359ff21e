-- ===== src/Queue/Removal.antt =====
-- What leaves the queue and what stays.
use still_blockchain.Base.{
  Bool-cases, inl, inr, ◌⊎◌, ℕ, ◌+◌, ◌≡◌, ◌<◌, not, ◌||◌, ◌&&◌, Bool, none, some, List, [], ◌∷◌,
  leb, ltb, ◌==◌, if◌then◌else◌, refl, arith, ◌⊎◌, Bool-cases, suc,
}
use still_blockchain.Queue.{QueuedBlock, cleanup, expire, remove_block, requestable_block}

-- The entries that pass a test, in their order.
abbrev pub keep_if : (QueuedBlock → Bool) → List QueuedBlock → List QueuedBlock
keep_if p [] = []
keep_if p (v ∷ vs) = let rest = keep_if p vs in if p v then v ∷ rest else rest

cleanup-expire :
    (p : QueuedBlock → Bool) (now : ℕ) (q : List QueuedBlock)
    → 0 < now
    → cleanup now (expire p q) ≡ keep_if (λ v. not (p v) && leb now v.expires) q
unfolding cleanup expire
cleanup-expire p now [] h = refl
cleanup-expire p now (v ∷ vs) h = elim (Bool-cases (p v)) [
  | inl hit ↦ rw hit (ground (arith, cleanup-expire p now vs h))
  | inr miss ↦ rw miss (ground (arith, cleanup-expire p now vs h))
]

-- At a time after 0, `RemoveBlock` takes out exactly the entries of the height or of the hash, and
-- those that have expired; the others stay in their order.
pub remove_block-keep_if :
    (now height hash : ℕ) (q : List QueuedBlock)
    → 0 < now
    → remove_block now height hash q
      ≡ keep_if (λ v. not (v.height == height || v.hash == hash) && leb now v.expires) q
unfolding remove_block
remove_block-keep_if now height hash q h =
    cleanup-expire (λ v. v.height == height || v.hash == hash) now q h

-- How many entries may be requested.
abbrev pub pending : ℕ → List QueuedBlock → ℕ
pending now [] = 0
pending now (v ∷ vs) = (if ltb (v.last_request + 10) now then 1 else 0) + pending now vs

-- If `RequestableBlock` answers nothing, no entry may be requested and the queue stays; otherwise
-- the entry is marked with the time, and one entry less may be requested.
pub requestable_block-pending :
    (now : ℕ) (q : List QueuedBlock)
    → ((requestable_block now q).0 ≡ none) × (pending now q ≡ 0) × ((requestable_block now q).1 ≡ q)
      ⊎ (b : QueuedBlock) × ((requestable_block now q).0 ≡ some b)
        × (b.last_request ≡ now)
        × (pending now q ≡ suc (pending now (requestable_block now q).1))
unfolding requestable_block
requestable_block-pending now [] = inl (refl, refl, refl)
requestable_block-pending now (v ∷ vs) = elim (Bool-cases (ltb (v.last_request + 10) now)) [
  | inl due ↦ inr (record v { last_request = now }, ground arith, refl, ground arith)
  | inr asked ↦ elim (requestable_block-pending now vs) [
    | inl (a, b, c) ↦ inl (ground arith, ground arith, ground arith)
    | inr (b, found, marked, fewer) ↦ inr (b, ground arith, marked, ground arith)
  ]
]
