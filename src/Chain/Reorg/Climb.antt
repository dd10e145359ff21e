-- ===== src/Chain/Reorg/Climb.antt =====
-- Step 1 of `CheckReorgs`: the way down from the alternative chain to the main chain.
use still_blockchain.Chain.Reorg.{topo_or_zero, climb}
use still_blockchain.Base.{
  ℕ_discrete, subst, inl, inr, sym, append-nil, ◌∙◌, append_assoc, append-nil, ℕ, zero, suc, ◌<◌,
  ◌≡◌, ◌≢◌, ◌++◌, List, [], ◌∷◌, arith,
}
use still_blockchain.Base.Result.{ok, err, out_of_rounds, Result-cases}
use still_blockchain.Block.{Block, prev_hash}
use still_blockchain.Chain.{Chain, get_block}

-- From a block down to the common block `common`, through the blocks listed.
pub data Descends (ch : Chain) : Block → ℕ → List (ℕ × Block) → Type 0 where
  -- The parent is on the main chain, above the genesis block.
  stop :
      {b : Block} {parent : Block}
      → get_block (prev_hash b) ch ≡ ok parent
      → parent.height ≢ 0
      → topo_or_zero parent.height ch ≡ prev_hash b
      → Descends ch b (prev_hash b) []
  -- The parent is on the alternative chain.
  down :
      {b : Block} {parent : Block} {common : ℕ} {blocks : List (ℕ × Block)}
      → get_block (prev_hash b) ch ≡ ok parent
      → parent.height ≢ 0
      → topo_or_zero parent.height ch ≢ prev_hash b
      → Descends ch parent common blocks
      → Descends ch b common ((prev_hash b, parent) ∷ blocks)

-- Heights fall along previous hashes.
abbrev pub HeightsFall : Chain → Type 0
HeightsFall ch =
    (h : ℕ) (b parent : Block)
    → get_block h ch ≡ ok b
    → get_block (prev_hash b) ch ≡ ok parent
    → parent.height < b.height

-- For a stored block, step 1 does not run out of rounds if it has more of them than the block's
-- height, where heights fall along previous hashes.
pub climb_enough_rounds :
    (f : ℕ) (ch : Chain) (h : ℕ) (b : Block) (hashes : List (ℕ × Block))
    → HeightsFall ch
    → get_block h ch ≡ ok b
    → b.height < f
    → climb f ch b hashes ≢ err out_of_rounds
unfolding climb
climb_enough_rounds zero ch h b hashes falls here lt = ground arith
climb_enough_rounds (suc f) ch h b hashes falls here lt =
    elim (Result-cases (get_block (prev_hash b) ch)) [
      | inl (parent, e) ↦
          let later =
            climb_enough_rounds f ch (prev_hash b) parent (hashes ++ (prev_hash b, parent) ∷ [])
              falls e in
          let less = falls h b parent here e in ground arith
      | inr (inl (x, e)) ↦ ground arith
      | inr (inr e) ↦ ground arith
    ]

-- If step 1 finds a common block, then the blocks it returns are those it was given and then, in
-- order, those that lead by previous hashes from the block to the common one, none of them on the
-- main chain, while the common block is on it and above height 0.
pub climb-Descends :
    (f : ℕ) (ch : Chain) (b : Block) (hashes : List (ℕ × Block)) (common : ℕ)
    (out : List (ℕ × Block))
    → climb f ch b hashes ≡ ok (common, out)
    → (blocks : List (ℕ × Block)) × (out ≡ hashes ++ blocks) × Descends ch b common blocks
unfolding climb
climb-Descends zero ch b hashes common out e = ground arith
climb-Descends (suc f) ch b hashes common out e = elim (Result-cases (get_block (prev_hash b) ch)) [
  | inl (parent, found) ↦ elim (ℕ_discrete parent.height 0) [
    | yes bottom ↦ ground arith
    | no above ↦ elim (ℕ_discrete (topo_or_zero parent.height ch) (prev_hash b)) [
      | yes main ↦
          let same : prev_hash b ≡ common = ground arith in
          let all : hashes ≡ out = ground arith in
          (
            [],
            sym all ∙ sym (append-nil hashes),
            subst (λ c. Descends ch b c []) same (stop found above main),
          )
      | no side ↦
          let further : climb f ch parent (hashes ++ (prev_hash b, parent) ∷ [])
              ≡ ok (common, out) =
            ground arith in
          let (blocks, split, way) = climb-Descends f ch parent _ common out further in
          (
            (prev_hash b, parent) ∷ blocks,
            split ∙ append_assoc hashes ((prev_hash b, parent) ∷ []) blocks,
            down found above side way,
          )
    ]
  ]
  | inr (inl (x, found)) ↦ ground arith
  | inr (inr found) ↦ ground arith
]
