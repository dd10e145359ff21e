-- ===== src/Chain/Sound.antt =====
-- An invariant of the stored blocks and the stats, which every way for a block to enter keeps.
mod Tips
pub mod Reorg
mod Orphans
mod Stores
pub mod Adds
use still_blockchain.Base.{
  [], ◌∷◌, ℕ, ◌≡◌, some, false, none, ◌≢◌, Bool-cases, ◌≤◌, length, arith, ◌==◌, inl, subst, inr,
  sym,
}
use still_blockchain.Base.Assoc.{Assoc, lookup, insert, lookup-insert}
use still_blockchain.Block.{Block}
use still_blockchain.Chain.{Chain, Stats, AltchainTip, Orphan, ℕ}
use still_blockchain.Chain.Reorg.{main_tip}
use still_blockchain.Chain.Reorg.Choice.{AllTips, AllTips-mono}
use still_blockchain.Uint128.{Uint128, is_zero}
use still_blockchain.Uint128.Value.{to_ℕ, IsValid}

-- A block whose numbers fit their types, with a difficulty and no more side blocks than allowed.
pub record Fits (b : Block) : Type 0 where
  pub difficulty_fits : IsValid b.difficulty
  pub cumulative_fits : IsValid b.cumulative_diff
  pub nonzero : is_zero b.difficulty ≡ false
  pub few_sides : length b.side_blocks ≤ 2

-- A block with the cumulative difficulty `c` is stored under the hash `h`.
abbrev pub Has : Assoc Block → ℕ → Uint128 → Type 0
Has bs h c = (p : Block) × (lookup h bs ≡ some p) × (p.cumulative_diff ≡ c)

-- A tip is stored with its cumulative difficulty, and is no orphan.
pub record IsTip (bs : Assoc Block) (orphans : Assoc Orphan) (tip : AltchainTip) : Type 0 where
  pub stored : Has bs tip.hash tip.cumulative_diff
  pub settled : lookup tip.hash orphans ≡ none

-- Orphans are stored.
abbrev pub AreStored : Assoc Block → Assoc Orphan → Type 0
AreStored bs orphans =
    (k : ℕ) (v : Orphan) → lookup k orphans ≡ some v → (p : Block) × (lookup k bs ≡ some p)

-- Every entry stands under its own hash.
abbrev pub AreKeyed : Assoc Orphan → Type 0
AreKeyed [] = Unit
AreKeyed ((k, v) ∷ orphans) = (v.hash ≡ k) × AreKeyed orphans

-- The invariant; the top has at least the work `least`.
pub record IsSound (least : ℕ) (bs : Assoc Block) (s : Stats) : Type 0 where
  pub blocks_fit : (h : ℕ) (b : Block) → lookup h bs ≡ some b → Fits b
  pub top : IsTip bs s.orphans (main_tip s)
  pub tips : AllTips (IsTip bs s.orphans) s.tips
  pub orphans_stored : AreStored bs s.orphans
  pub orphans_keyed : AreKeyed s.orphans
  pub most_work : least ≤ to_ℕ s.cumulative_diff

abbrev pub HoldsOf : ℕ → Chain → Type 0
HoldsOf least ch = IsSound least ch.blocks ch.stats

-- Of two keys, one with an entry and the other without it.
pub keys_differ {ℓ} :
    {V : Type ℓ} (j k : ℕ) (m : Assoc V) {v : V} → lookup j m ≡ none → lookup k m ≡ some v → j ≢ k
keys_differ j k m none_at some_at e = absurd (ground (arith, e))

pub Has-insert :
    (h j : ℕ) (b : Block) (bs : Assoc Block) (c : Uint128)
    → h ≢ j
    → Has bs j c
    → Has (insert h b bs) j c
Has-insert h j b bs c ne (p, e, ec) = (p, ground (arith, lookup-insert j h b bs), ec)

pub stored-insert :
    (h k : ℕ) (b p : Block) (bs : Assoc Block)
    → lookup k bs ≡ some p
    → (q : Block) × (lookup k (insert h b bs) ≡ some q)
stored-insert h k b p bs e = elim (Bool-cases (h == k)) [
  | inl same ↦ (b, ground (arith, lookup-insert k h b bs))
  | inr other ↦ (p, ground (arith, lookup-insert k h b bs))
]

pub inserted-Fits :
    (h j : ℕ) (b x : Block) (bs : Assoc Block)
    → Fits b
    → ((h : ℕ) (b : Block) → lookup h bs ≡ some b → Fits b)
    → lookup j (insert h b bs) ≡ some x
    → Fits x
inserted-Fits h j b x bs f fs e = elim (Bool-cases (h == j)) [
  | inl same ↦ let is : b ≡ x = ground (arith, lookup-insert j h b bs) in subst Fits is f
  | inr other ↦ fs j x (ground (arith, lookup-insert j h b bs))
]

-- A block may be stored under a hash where neither the top nor a tip stands.
pub store-IsSound :
    {least : ℕ} (bs : Assoc Block) (s : Stats) (h : ℕ) (b : Block)
    → Fits b
    → ((tip : AltchainTip) → IsTip bs s.orphans tip → h ≢ tip.hash)
    → IsSound least bs s
    → IsSound least (insert h b bs) s
store-IsSound bs s h b f apart i = record {
  blocks_fit = λ j x e. inserted-Fits h j b x bs f i.blocks_fit e;
  top = kept (main_tip s) i.top;
  tips = AllTips-mono (IsTip bs s.orphans) (IsTip (insert h b bs) s.orphans) s.tips kept i.tips;
  orphans_stored =
      λ k v e. let (p, stored) = i.orphans_stored k v e in stored-insert h k b p bs stored;
  orphans_keyed = i.orphans_keyed;
  most_work = i.most_work;
}
  where
    kept : (tip : AltchainTip) → IsTip bs s.orphans tip → IsTip (insert h b bs) s.orphans tip
    kept tip t = record {
      stored = Has-insert h tip.hash b bs tip.cumulative_diff (apart tip t) t.stored;
      settled = t.settled;
    }

-- A hash that is not stored is no tip's; nor is an orphan's.
pub unstored_apart :
    (bs : Assoc Block) (orphans : Assoc Orphan) (h : ℕ)
    → lookup h bs ≡ none
    → (tip : AltchainTip) → IsTip bs orphans tip
    → h ≢ tip.hash
unstored_apart bs orphans h unstored tip t = keys_differ h tip.hash bs unstored t.stored.1

pub orphan_apart :
    (bs : Assoc Block) (orphans : Assoc Orphan) (h : ℕ) {v : Orphan}
    → lookup h orphans ≡ some v
    → (tip : AltchainTip) → IsTip bs orphans tip
    → h ≢ tip.hash
orphan_apart bs orphans h waits tip t e = keys_differ tip.hash h orphans t.settled waits (sym e)

-- The stats with another top, with other tips and with other orphans.
pub set_top-IsSound :
    {least : ℕ} (bs : Assoc Block) (s s' : Stats)
    → s'.orphans ≡ s.orphans
    → s'.tips ≡ s.tips
    → IsTip bs s.orphans (main_tip s')
    → least ≤ to_ℕ s'.cumulative_diff
    → IsSound least bs s
    → IsSound least bs s'
set_top-IsSound bs s s' same_orphans same_tips new_top more i = record {
  blocks_fit = i.blocks_fit;
  top = subst (λ os. IsTip bs os (main_tip s')) (sym same_orphans) new_top;
  tips = rw (same_orphans, same_tips) i.tips;
  orphans_stored = rw same_orphans i.orphans_stored;
  orphans_keyed = rw same_orphans i.orphans_keyed;
  most_work = more;
}

-- The chain has the work that it has.
pub own_work :
    {least : ℕ} (ch : Chain) → HoldsOf least ch → HoldsOf (to_ℕ ch.stats.cumulative_diff) ch
own_work ch i = record {
  blocks_fit = i.blocks_fit;
  top = i.top;
  tips = i.tips;
  orphans_stored = i.orphans_stored;
  orphans_keyed = i.orphans_keyed;
  most_work = omega arith;
}
