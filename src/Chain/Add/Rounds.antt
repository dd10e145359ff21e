-- ===== src/Chain/Add/Rounds.antt =====
-- The recursion of `deorphanBlock`: one round more than there are orphans is enough.
use still_blockchain.Chain.Add.{
  corrected, Work, adopt_one, adopt, ignore_err, deorphan_block, adopt_children,
}
use still_blockchain.Chain.{Stats}
use still_blockchain.Base.Action.{modify}
use still_blockchain.Base.{
  subst, sym, ap, ◌∙◌, ℕ, zero, suc, ◌≤◌, ◌<◌, ◌≡◌, ◌⊎◌, inl, inr, [], ◌∷◌, length, arith, some,
  Option-cases, ℕ_discrete, refl,
}
use still_blockchain.Base.Assoc.{Assoc, lookup, erase}
use still_blockchain.Base.Result.{Result, ok, err, panic}
use still_blockchain.Base.Action.{Action, bind-state, bind-cong, ◌>>◌, modify}
use still_blockchain.Block.{Block}
use still_blockchain.Chain.{Orphan, insert_block}

-- Taking a key out makes a map no longer, and shorter if it had the key.
erase-length :
    {V : Type 0} (k : ℕ) (m : Assoc V)
    → (length (erase k m) ≤ length m)
      × ((v : V) → lookup k m ≡ some v → length (erase k m) < length m)
unfolding erase lookup
erase-length k [] = (omega arith, λ v e. ground arith)
erase-length k ((j, w) ∷ m) =
    let (le, lt) = erase-length k m in (ground arith, λ v e. grind (arith, lt v))

-- The orphans that wait.
abbrev waiting : Work → ℕ
waiting w = length w.1.orphans

corrected-stats : (prev : Block) (v : Orphan) (w : Work) → (corrected prev v w).1.1 ≡ w.1
unfolding corrected insert_block
corrected-stats prev v w = ground arith

-- A call that leaves no more orphans than there were.
abbrev LeavesNoMore : (Block → ℕ → Action Work (Unit {0})) → Type 0
LeavesNoMore again = (b : Block) (h : ℕ) (w : Work) → waiting (again b h w).1 ≤ waiting w

-- The round after the block is corrected.
abbrev after_corrected :
    (Block → ℕ → Action Work (Unit {0})) → ℕ → ℕ → Orphan → Block → Action Work (Unit {0})
after_corrected again hash key v b =
    modify (λ w. (w.0, adopt key b hash v w.1)) >> ignore_err (again b v.hash)

ignore_err-state : (m : Action Work (Unit {0})) (w : Work) → (ignore_err m w).1 ≡ (m w).1
ignore_err-state m w = ground arith

-- Adopting an orphan takes it out.
adopt-waiting :
    (key : ℕ) (b : Block) (hash : ℕ) (v o : Orphan) (w : Work)
    → lookup key w.1.orphans ≡ some o
    → waiting (w.0, adopt key b hash v w.1) < waiting w
unfolding adopt
adopt-waiting key b hash v o w e = (erase-length key w.1.orphans).1 o e

-- What one orphan's round does to the number of orphans, from the state `w'` where the block is
-- corrected.
after_corrected-waiting :
    (again : Block → ℕ → Action Work (Unit {0})) (b : Block) (hash key : ℕ) (v o : Orphan)
    (w w' : Work)
    → LeavesNoMore again
    → lookup key w.1.orphans ≡ some o
    → w'.1 ≡ w.1
    → waiting (after_corrected again hash key v b w').1 ≤ waiting w
after_corrected-waiting again b hash key v o w w' leaves e p =
    let w1 : Work = (w'.0, adopt key b hash v w'.1) in
    let e' : lookup key w'.1.orphans ≡ some o =
      subst (λ (s : Stats). lookup key s.orphans ≡ some o) (sym p) e in
    let same = ap (λ (s : Stats). length s.orphans) p in
    let kept = ap waiting (ignore_err-state (again b v.hash) w1) in
    omega (arith, adopt-waiting key b hash v o w' e', leaves b v.hash w1, same, kept)

adopt_one-waiting :
    (again : Block → ℕ → Action Work (Unit {0})) (prev : Block) (hash key : ℕ) (v o : Orphan)
    (w : Work)
    → LeavesNoMore again
    → lookup key w.1.orphans ≡ some o
    → waiting (adopt_one again prev hash key v w).1 ≤ waiting w
unfolding adopt_one
adopt_one-waiting again prev hash key v o w leaves e =
    bind-state (λ w'. w'.1 ≡ w.1) (λ w'. waiting w' ≤ waiting w) (corrected prev v w)
      (after_corrected again hash key v) (corrected-stats prev v w)
      (λ w' p. omega (arith, ap (λ (s : Stats). length s.orphans) p))
      (λ b w' p. after_corrected-waiting again b hash key v o w w' leaves e p)

-- Two calls that agree as long as fewer than `n` orphans wait.
abbrev AgreeBelow :
    ℕ → (Block → ℕ → Action Work (Unit {0})) → (Block → ℕ → Action Work (Unit {0})) → Type 0
AgreeBelow n again again' =
    (b : Block) (h : ℕ) (w : Work) → waiting w < n → again b h w ≡ again' b h w

adopt_one-agrees :
    (n : ℕ) (again again' : Block → ℕ → Action Work (Unit {0})) (prev : Block) (hash key : ℕ)
    (v o : Orphan) (w : Work)
    → AgreeBelow n again again'
    → waiting w ≤ n
    → lookup key w.1.orphans ≡ some o
    → adopt_one again prev hash key v w ≡ adopt_one again' prev hash key v w
unfolding adopt_one
adopt_one-agrees n again again' prev hash key v o w agree le e =
    bind-cong (λ w'. w'.1 ≡ w.1) (corrected prev v w) (after_corrected again hash key v)
      (after_corrected again' hash key v) (corrected-stats prev v w)
      (λ b w' p.
        let e' : lookup key w'.1.orphans ≡ some o =
          subst (λ (s : Stats). lookup key s.orphans ≡ some o) (sym p) e in
        let same = ap (λ (s : Stats). length s.orphans) p in
        let less : waiting (w'.0, adopt key b hash v w'.1) < n =
          omega (arith, adopt-waiting key b hash v o w' e', same) in
        ap dropped (agree b v.hash (w'.0, adopt key b hash v w'.1) less))
  where
    dropped : Result (Unit {0}) × Work → Result (Unit {0}) × Work
    dropped r = elim r.0 [ ok _ ↦ (ok tt, r.1) | err _ ↦ (ok tt, r.1) | panic ↦ (panic, r.1) ]

-- The cases of one step of the loop, the same for every recursive call.
abbrev Loop : Type 0
Loop = Block → ℕ → Action Work (Unit {0})

adopt_children-cases :
    (prev : Block) (hash key : ℕ) (v : Orphan) (rest : Assoc Orphan) (w : Work)
    → ((again : Loop)
        → adopt_children again prev hash ((key, v) ∷ rest) w
          ≡ adopt_children again prev hash rest w)
      ⊎ ((o : Orphan) × (lookup key w.1.orphans ≡ some o)
          × ((again : Loop)
              → adopt_children again prev hash ((key, v) ∷ rest) w
                ≡ (adopt_one again prev hash key v >> adopt_children again prev hash rest) w))
unfolding adopt_children
adopt_children-cases prev hash key v rest w = elim (Option-cases (lookup key w.1.orphans)) [
  | inl absent ↦ inl (λ again. ground arith)
  | inr (o, there) ↦ elim (ℕ_discrete v.prev_hash hash) [
    | yes child ↦ inr (o, there, λ again. ground arith)
    | no other ↦ inl (λ again. ground arith)
  ]
]

adopt_children-waiting :
    (again : Loop) (prev : Block) (hash : ℕ) (todo : Assoc Orphan) (w : Work)
    → LeavesNoMore again
    → waiting (adopt_children again prev hash todo w).1 ≤ waiting w
unfolding adopt_children
adopt_children-waiting again prev hash [] w leaves = omega arith
adopt_children-waiting again prev hash ((key, v) ∷ rest) w leaves =
    elim (adopt_children-cases prev hash key v rest w) [
      | inl passed ↦ omega (
        arith,
        ap (λ (r : Result (Unit {0}) × Work). waiting r.1) (passed again),
        adopt_children-waiting again prev hash rest w leaves,
      )
      | inr (o, there, taken) ↦
          let bound =
            bind-state (λ w'. waiting w' ≤ waiting w) (λ w'. waiting w' ≤ waiting w)
              (adopt_one again prev hash key v w) (λ _. adopt_children again prev hash rest)
              (adopt_one-waiting again prev hash key v o w leaves there) (λ w' p. p)
              (λ _ w' p. omega (arith, p, adopt_children-waiting again prev hash rest w' leaves)) in
          omega (arith, ap (λ (r : Result (Unit {0}) × Work). waiting r.1) (taken again), bound)
    ]

adopt_children-agrees :
    (n : ℕ) (again again' : Loop) (prev : Block) (hash : ℕ) (todo : Assoc Orphan) (w : Work)
    → LeavesNoMore again
    → AgreeBelow n again again'
    → waiting w ≤ n
    → adopt_children again prev hash todo w ≡ adopt_children again' prev hash todo w
unfolding adopt_children
adopt_children-agrees n again again' prev hash [] w leaves agree le = refl
adopt_children-agrees n again again' prev hash ((key, v) ∷ rest) w leaves agree le =
    elim (adopt_children-cases prev hash key v rest w) [
      | inl passed ↦
          passed again
          ∙ adopt_children-agrees n again again' prev hash rest w leaves agree le
          ∙ sym (passed again')
      | inr (o, there, taken) ↦
          let one = adopt_one-agrees n again again' prev hash key v o w agree le there in
          let later =
            bind-cong (λ w'. waiting w' ≤ waiting w) (adopt_one again prev hash key v w)
              (λ _. adopt_children again prev hash rest) (λ _. adopt_children again' prev hash rest)
              (adopt_one-waiting again prev hash key v o w leaves there)
              (λ _ w' p.
                adopt_children-agrees n again again' prev hash rest w' leaves agree
                  (omega arith)) in
          taken again ∙ later ∙ ap (next again') one ∙ sym (taken again')
    ]
  where
    next : Loop → Result (Unit {0}) × Work → Result (Unit {0}) × Work
    next loop r = elim r.0 [
      | ok a ↦ adopt_children loop prev hash rest r.1
      | err x ↦ (err x, r.1)
      | panic ↦ (panic, r.1)
    ]

deorphan_block-waiting : (f : ℕ) → LeavesNoMore (deorphan_block f)
unfolding deorphan_block
deorphan_block-waiting zero prev hash w = omega arith
deorphan_block-waiting (suc f) prev hash w =
    adopt_children-waiting (deorphan_block f) prev hash w.1.orphans w (deorphan_block-waiting f)

-- For two numbers of rounds above the number of orphans `deorphanBlock` does the same.
pub deorphan_block_enough_rounds :
    (f g : ℕ) (prev : Block) (hash : ℕ) (w : Work)
    → length w.1.orphans < f
    → length w.1.orphans < g
    → deorphan_block f prev hash w ≡ deorphan_block g prev hash w
unfolding deorphan_block
deorphan_block_enough_rounds zero g prev hash w hf hg = ground arith
deorphan_block_enough_rounds (suc f) zero prev hash w hf hg = ground arith
deorphan_block_enough_rounds (suc f) (suc g) prev hash w hf hg =
    adopt_children-agrees (length w.1.orphans) (deorphan_block f) (deorphan_block g) prev hash
      w.1.orphans w (deorphan_block-waiting f)
      (λ b h w' lt. deorphan_block_enough_rounds f g b h w' (omega arith) (omega arith))
      (omega arith)
