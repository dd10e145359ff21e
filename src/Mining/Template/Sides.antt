-- ===== src/Mining/Template/Sides.antt =====
-- The side blocks of a template pass what `checkBlock` asks of them, but for the alignment of their
-- ancestors, which `GetBlockTemplate` does not look at.
use still_blockchain.Config.{max_side_blocks}
use still_blockchain.Base.{
  ◌⊎◌, inl, inr, subst, ℕ, ◌≡◌, refl, arith, Bool, true, false, none, List, [], ◌∷◌, ◌++◌, drop,
  length, ◌==◌, if◌then◌else◌,
}
use still_blockchain.Base.Assoc.{Assoc}
use still_blockchain.Base.Result.{Result, ok, err, panic, ◌>>=◌, ◌>>◌, >>=-eq_ok}
use still_blockchain.Block.{Block, Commitment}
use still_blockchain.Block.BaseHash.{commitment}
use still_blockchain.Chain.{Chain, Env, AltchainTip, get_block}
use still_blockchain.Chain.Check.{
  check_side, check_sides, height_diff, common_found, not_in_ancestors,
}
use still_blockchain.Mining.Template.{
  is_fresh, fresh_in_ancestors, usable, try_tip, choose_sides, max_side_blocks, out_of_reach,
  judge_tip, add_if_usable,
}

-- The test of a side block's ancestors against those of the block.
unfoldable pub aligned : List ℕ → List Commitment → Result (Unit {0})
aligned ancestors [] = ok tt
aligned ancestors (side ∷ sides) =
    (height_diff ancestors 0 side.ancestors none >>= common_found) >> aligned ancestors sides

abbrev pub AllFresh : Env → Chain → Block → Block → List Commitment → Type 0
AllFresh env ch bl prev [] = Unit
AllFresh env ch bl prev (side ∷ sides) =
    (is_fresh env ch bl prev side ≡ ok true) × AllFresh env ch bl prev sides

-- The two loops over the ancestors agree.
fresh_in_ancestors-passes :
    (env : Env) (ch : Chain) (side : Commitment) (ancs : List ℕ)
    → fresh_in_ancestors env ch side ancs ≡ ok true
    → not_in_ancestors env ch side ancs ≡ ok tt
unfolding fresh_in_ancestors not_in_ancestors
fresh_in_ancestors-passes env ch side [] h = refl
fresh_in_ancestors-passes env ch side (anc ∷ rest) h =
    let later = fresh_in_ancestors-passes env ch side rest in ground arith

check_side-fresh :
    (env : Env) (ch : Chain) (b prev : Block) (side : Commitment)
    → is_fresh env ch b prev side ≡ ok true
    → check_side env ch b prev side
      ≡ (height_diff b.ancestors 0 side.ancestors none >>= common_found)
unfolding check_side is_fresh
check_side-fresh env ch b prev side h =
    let passes = fresh_in_ancestors-passes env ch side (drop 1 b.ancestors) in ground arith

pub check_sides-aligned :
    (env : Env) (ch : Chain) (b prev : Block) (sides : List Commitment)
    → AllFresh env ch b prev sides
    → check_sides env ch b prev sides ≡ aligned b.ancestors sides
unfolding check_sides aligned
check_sides-aligned env ch b prev [] h = refl
check_sides-aligned env ch b prev (side ∷ sides) h =
    rw (check_side-fresh env ch b prev side h.0, check_sides-aligned env ch b prev sides h.1) refl

AllFresh-append :
    (env : Env) (ch : Chain) (bl prev : Block) (sides : List Commitment) (side : Commitment)
    → AllFresh env ch bl prev sides
    → is_fresh env ch bl prev side ≡ ok true
    → AllFresh env ch bl prev (sides ++ side ∷ [])
AllFresh-append env ch bl prev [] side all h = (h, tt)
AllFresh-append env ch bl prev (s ∷ sides) side all h =
    (all.0, AllFresh-append env ch bl prev sides side all.1 h)

usable-fresh :
    (env : Env) (ch : Chain) (bl prev tip : Block)
    → usable env ch bl prev tip ≡ ok true
    → is_fresh env ch bl prev (commitment env.crypto tip) ≡ ok true
unfolding usable
usable-fresh env ch bl prev tip h = ground arith

-- The side blocks are as they were, or have a fresh commitment behind them.
Grown : Env → Chain → Block → Block → List Commitment → List Commitment → Type 0
Grown env ch bl prev sides sides' =
    (sides ≡ sides')
    ⊎ ((side : Commitment) × (is_fresh env ch bl prev side ≡ ok true)
        × (sides ++ side ∷ [] ≡ sides'))

judge_tip-Grown :
    (env : Env) (ch : Chain) (bl prev : Block) (sides sides' : List Commitment) (r : Result Block)
    → judge_tip env ch bl prev sides r ≡ ok sides'
    → Grown env ch bl prev sides sides'
unfolding judge_tip Grown add_if_usable
judge_tip-Grown env ch bl prev sides sides' (err e) h = inl cc
judge_tip-Grown env ch bl prev sides sides' panic h = cc
judge_tip-Grown env ch bl prev sides sides' (ok tip) h = judged (usable env ch bl prev tip) refl h
  where
    side : Commitment
    side = commitment env.crypto tip

    judged :
        (r : Result Bool)
        → usable env ch bl prev tip ≡ r
        → add_if_usable side sides r ≡ ok sides'
        → Grown env ch bl prev sides sides'
    judged (ok true) u h = inr (side, usable-fresh env ch bl prev tip u, cc)
    judged (ok false) u h = inl cc
    judged (err e) u h = inl cc
    judged panic u h = cc

try_tip-Grown :
    (env : Env) (ch : Chain) (bl prev : Block) (v : AltchainTip) (sides sides' : List Commitment)
    → try_tip env ch bl prev v sides ≡ ok sides'
    → Grown env ch bl prev sides sides'
unfolding try_tip Grown
try_tip-Grown env ch bl prev v sides sides' h = reached (out_of_reach v.height bl.height) h
  where
    reached :
        (far : Bool)
        → (if far then ok sides else judge_tip env ch bl prev sides (get_block v.hash ch))
          ≡ ok sides'
        → Grown env ch bl prev sides sides'
    reached true h = inl cc
    reached false h = judge_tip-Grown env ch bl prev sides sides' (get_block v.hash ch) h

module _ (env : Env) (ch : Chain) (bl prev : Block) where
  try_tip-fresh :
      (v : AltchainTip) (sides sides' : List Commitment)
      → try_tip env ch bl prev v sides ≡ ok sides'
      → AllFresh env ch bl prev sides
      → AllFresh env ch bl prev sides'
  unfolding Grown
  try_tip-fresh v sides sides' h all = elim (try_tip-Grown env ch bl prev v sides sides' h) [
    | inl same ↦ subst (AllFresh env ch bl prev) same all
    | inr (side, fresh, longer) ↦
        subst (AllFresh env ch bl prev) longer (AllFresh-append env ch bl prev sides side all fresh)
  ]

  pub choose_sides-fresh :
      (tips : Assoc AltchainTip) (sides sides' : List Commitment)
      → choose_sides env ch bl prev tips sides ≡ ok sides'
      → AllFresh env ch bl prev sides
      → AllFresh env ch bl prev sides'
  unfolding choose_sides
  choose_sides-fresh [] sides sides' h all =
      let same : sides ≡ sides' = cc in subst (AllFresh env ch bl prev) same all
  choose_sides-fresh ((k, v) ∷ tips) sides sides' h all =
      elim (split (length sides == max_side_blocks) sides _ h) [
        | inl same ↦ subst (AllFresh env ch bl prev) same all
        | inr further ↦
            let (next, first, rest) = >>=-eq_ok (try_tip env ch bl prev v sides) _ further in
            choose_sides-fresh tips next sides' rest (try_tip-fresh v sides next first all)
      ]
    where
      split :
          (full : Bool) (sides : List Commitment) (more : Result (List Commitment))
          → (if full then ok sides else more) ≡ ok sides'
          → (sides ≡ sides') ⊎ (more ≡ ok sides')
      split true sides more e = inl cc
      split false sides more e = inr e
