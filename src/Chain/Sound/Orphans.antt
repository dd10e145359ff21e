-- ===== src/Chain/Sound/Orphans.antt =====
-- `deorphanBlock` under the invariant of Chain/Sound.
use still_blockchain.Base.{
  ℕ, zero, suc, [], ◌∷◌, ◌≡◌, refl, inl, inr, none, some, true, false, length, if◌then◌else◌,
  Bool-cases, ◌==◌, subst, arith, Option, sym, Bool,
}
use still_blockchain.Base.Assoc.{Assoc, lookup, insert, lookup-insert_self}
use still_blockchain.Base.Result.{Result, ok, err, panic}
use still_blockchain.Base.Action.{
  Action, lift, modify, pure, ◌>>=◌, ◌>>◌, Ends, lift-Ends, Ends-state, bind-state,
}
use still_blockchain.Block.{Block}
use still_blockchain.Chain.{Chain, Stats, Orphan, get_block, found, insert_block, put_block}
use still_blockchain.Chain.Add.{
  Work, corrected, adopt, adopt_one, adopt_children, deorphan_block, ignore_err, store_in_work,
}
use still_blockchain.Chain.Check.{cumulative}
use still_blockchain.Chain.Check.Extends.{cumulative_is}
use still_blockchain.Chain.Sound.{IsSound, Fits, Has, AreKeyed, store-IsSound, orphan_apart}
use still_blockchain.Chain.Sound.Tips.{adopt-IsSound}
use still_blockchain.Uint128.{Uint128, equals, is_zero}

abbrev pub HoldsWork : ℕ → Work → Type 0
HoldsWork least w = IsSound least w.0.blocks w.1

pub get_block-lookup :
    (h : ℕ) (ch : Chain) (b : Block) → get_block h ch ≡ ok b → lookup h ch.blocks ≡ some b
unfolding get_block found
get_block-lookup h ch b e = ground (arith, e)

-- A block with a difficulty is stored.
store-Ends :
    (P : Work → Type 0) (Q : Block → Work → Type 0) (h : ℕ) (b : Block) (w : Work)
    → is_zero b.difficulty ≡ false
    → Q b (record (w.0) { blocks = insert h b w.0.blocks }, w.1)
    → Ends P Q ((ignore_err (store_in_work h b) >> pure b) w)
unfolding insert_block put_block
store-Ends P Q h b w nonzero q =
    let stores : (ignore_err (store_in_work h b) >> pure b) w
        ≡ (ok b, (record (w.0) { blocks = insert h b w.0.blocks }, w.1)) =
      ground (arith, nonzero) in
    subst (Ends P Q) (sym stores) q

-- The orphan's block is stored with the cumulative difficulty that is returned.
abbrev IsCorrected : ℕ → Orphan → Stats → Block → Work → Type 0
IsCorrected least v s b w =
    HoldsWork least w × Fits b × Has w.0.blocks v.hash b.cumulative_diff × (w.1 ≡ s)

corrected-Ends :
    {least : ℕ} (prev : Block) (v o : Orphan) (w : Work)
    → Fits prev
    → lookup v.hash w.1.orphans ≡ some o
    → HoldsWork least w
    → Ends (HoldsWork least) (IsCorrected least v w.1) (corrected prev v w)
unfolding corrected
corrected-Ends {least} prev v o w fits_prev waits i =
    lift-Ends (HoldsWork least) (IsCorrected least v w.1) (get_block v.hash w.0)
      (λ b. lift (cumulative prev.cumulative_diff b.difficulty (length b.side_blocks)) >>= λ diff.
        if equals diff b.cumulative_diff
        then pure b
        else (let b' : Block = record b { cumulative_diff = diff } in
            ignore_err (store_in_work v.hash b') >> pure b'))
      w i
      (λ b read.
        lift-Ends (HoldsWork least) (IsCorrected least v w.1)
          (cumulative prev.cumulative_diff b.difficulty (length b.side_blocks))
          (λ diff.
            if equals diff b.cumulative_diff
            then pure b
            else (let b' : Block = record b { cumulative_diff = diff } in
                ignore_err (store_in_work v.hash b') >> pure b'))
          w i
          (λ diff sum.
            let stored = get_block-lookup v.hash w.0 b read in
            let fits = i.blocks_fit v.hash b stored in
            elim (Bool-cases (equals diff b.cumulative_diff)) [
              | inl same ↦ rw same (i, fits, (b, stored, refl), refl)
              | inr differs ↦ rw differs (new_sum b diff fits sum)
            ]))
  where
    new_sum :
        (b : Block) (diff : Uint128)
        → Fits b
        → cumulative prev.cumulative_diff b.difficulty (length b.side_blocks) ≡ ok diff
        → Ends (HoldsWork least) (IsCorrected least v w.1) (
            (ignore_err (store_in_work v.hash (record b { cumulative_diff = diff }))
                >> pure (record b { cumulative_diff = diff }))
              w)
    new_sum b diff fits sum =
        let b' : Block = record b { cumulative_diff = diff } in
        let valid =
          (cumulative_is prev.cumulative_diff b.difficulty (length b.side_blocks) diff
            fits_prev.cumulative_fits fits.difficulty_fits fits.few_sides sum).0 in
        let fits' : Fits b' = record {
          difficulty_fits = fits.difficulty_fits;
          cumulative_fits = valid;
          nonzero = fits.nonzero;
          few_sides = fits.few_sides;
        } in
        store-Ends (HoldsWork least) (IsCorrected least v w.1) v.hash b' w fits.nonzero (
          store-IsSound w.0.blocks w.1 v.hash b' fits'
              (orphan_apart w.0.blocks w.1.orphans v.hash waits) i,
          fits',
          (b', lookup-insert_self v.hash b' w.0.blocks, refl),
          refl,
        )

-- A call that keeps the invariant, from every block that fits.
abbrev Continues : ℕ → (Block → ℕ → Action Work (Unit {0})) → Type 0
Continues least again =
    (b : Block) (h : ℕ) (w : Work) → Fits b → HoldsWork least w → HoldsWork least (again b h w).1

ignore_err-Holds :
    {least : ℕ} (m : Action Work (Unit {0})) (w : Work)
    → HoldsWork least (m w).1
    → HoldsWork least (ignore_err m w).1
ignore_err-Holds {least} m w h = go (m w) h
  where
    go :
        (r : Result (Unit {0}) × Work)
        → HoldsWork least r.1
        → HoldsWork least (ignore_err (λ _. r) w).1
    go (ok a, w') h = h
    go (err e, w') h = h
    go (panic, w') h = h

adopt_one-Holds :
    {least : ℕ} (again : Block → ℕ → Action Work (Unit {0})) (prev : Block) (hash key : ℕ)
    (v o : Orphan) (w : Work)
    → Continues least again
    → Fits prev
    → v.hash ≡ key
    → lookup key w.1.orphans ≡ some o
    → HoldsWork least w
    → HoldsWork least (adopt_one again prev hash key v w).1
unfolding adopt_one
adopt_one-Holds {least} again prev hash key v o w goes fits own waits i =
    let waits' : lookup v.hash w.1.orphans ≡ some o = rw own waits in
    Ends-state (HoldsWork least) (IsCorrected least v w.1) (corrected prev v)
      (λ b. modify (λ w. (w.0, adopt key b hash v w.1)) >> ignore_err (again b v.hash)) w
      (corrected-Ends prev v o w fits waits' i)
      (λ b w' (i', fits', stored, same).
        let adopted : HoldsWork least (w'.0, adopt v.hash b hash v w'.1) =
          adopt-IsSound w'.0.blocks w'.1 b hash v stored i' in
        let adopted' : HoldsWork least (w'.0, adopt key b hash v w'.1) =
          subst (λ k. HoldsWork least (w'.0, adopt k b hash v w'.1)) own adopted in
        ignore_err-Holds (again b v.hash) (w'.0, adopt key b hash v w'.1)
          (goes b v.hash (w'.0, adopt key b hash v w'.1) fits' adopted'))

child_cases :
    {least : ℕ} (later taken : Action Work (Unit {0})) (w : Work) (present : Option Orphan)
    (child : Bool)
    → HoldsWork least (later w).1
    → ((o : Orphan) → present ≡ some o → HoldsWork least (taken w).1)
    → HoldsWork least
        (elim present as (λ _. Result (Unit {0}) × Work) [
          | none ↦ later w
          | some _ ↦ elim child [ false ↦ later w | true ↦ taken w ]
        ]).1
child_cases later taken w none child h k = h
child_cases later taken w (some o) false h k = h
child_cases later taken w (some o) true h k = k o refl

adopt_children-Holds :
    {least : ℕ} (again : Block → ℕ → Action Work (Unit {0})) (prev : Block) (hash : ℕ)
    (orphans : Assoc Orphan) (w : Work)
    → Continues least again
    → Fits prev
    → AreKeyed orphans
    → HoldsWork least w
    → HoldsWork least (adopt_children again prev hash orphans w).1
unfolding adopt_children
adopt_children-Holds again prev hash [] w goes fits keyed i = i
adopt_children-Holds {least} again prev hash ((key, v) ∷ rest) w goes fits (own, keyed) i =
    let later = adopt_children again prev hash rest in
    let later-Holds = λ (w : Work) (i : HoldsWork least w).
      adopt_children-Holds again prev hash rest w goes fits keyed i in
    child_cases later (adopt_one again prev hash key v >> later) w (lookup key w.1.orphans)
      (v.prev_hash == hash) (later-Holds w i)
      (λ o waits.
        bind-state (HoldsWork least) (HoldsWork least) (adopt_one again prev hash key v w)
          (λ _. later) (adopt_one-Holds again prev hash key v o w goes fits own waits i)
          (λ w' i'. i') (λ _ w' i'. later-Holds w' i'))

-- `deorphanBlock` keeps the invariant, whether it succeeds or not.
pub deorphan_block-Holds :
    {least : ℕ} (f : ℕ) (prev : Block) (hash : ℕ) (w : Work)
    → Fits prev
    → HoldsWork least w
    → HoldsWork least (deorphan_block f prev hash w).1
unfolding deorphan_block
deorphan_block-Holds zero prev hash w fits i = i
deorphan_block-Holds (suc f) prev hash w fits i =
    adopt_children-Holds (deorphan_block f) prev hash w.1.orphans w
      (λ b h w' fits' i'. deorphan_block-Holds f b h w' fits' i') fits i.orphans_keyed i
