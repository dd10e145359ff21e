-- ===== src/Chain/Sound/Tips.antt =====
-- The stats with other tips or orphans, under the invariant of Chain/Sound.
use still_blockchain.Base.{ℕ, ◌≡◌, none, Option, arith, ◌+◌, ◌%◌, ◌^◌}
use still_blockchain.Base.{[], ◌∷◌, inl, inr, Bool-cases, none, some, if◌then◌else◌, ◌==◌}
use still_blockchain.Base.Result.{Result, ok, err, panic}
use still_blockchain.Base.Assoc.{Assoc, lookup, insert, erase, lookup-insert, lookup-erase}
use still_blockchain.Block.{Block, prev_hash}
use still_blockchain.Chain.{Chain, Stats, AltchainTip, Orphan, get_topo, ℕ}
use still_blockchain.Chain.Add.{extend_tips, cleanup_tips, adopt}
use still_blockchain.Chain.Reorg.{main_tip}
use still_blockchain.Chain.Reorg.Choice.{AllTips, AllTips-mono}
use still_blockchain.Chain.Sound.{
  IsTip, IsSound, Fits, Has, unstored_apart, AreStored, AreKeyed, Has-insert, stored-insert,
  inserted-Fits,
}

module _ (P : AltchainTip → Type 0) where
  pub AllTips-insert :
      (k : ℕ) (t : AltchainTip) (tips : Assoc AltchainTip)
      → P t
      → AllTips P tips
      → AllTips P (insert k t tips)
  unfolding insert
  AllTips-insert k t [] p h = (p, tt)
  AllTips-insert k t ((j, u) ∷ tips) p (q, h) = elim (Bool-cases (j == k)) [
    | inl same ↦ rw same (p, h)
    | inr other ↦ rw other (q, AllTips-insert k t tips p h)
  ]

  pub AllTips-erase : (k : ℕ) (tips : Assoc AltchainTip) → AllTips P tips → AllTips P (erase k tips)
  unfolding erase
  AllTips-erase k [] h = tt
  AllTips-erase k ((j, u) ∷ tips) (q, h) = elim (Bool-cases (j == k)) [
    | inl same ↦ rw same (AllTips-erase k tips h)
    | inr other ↦ rw other (q, AllTips-erase k tips h)
  ]

  pub AllTips-cleanup_tips :
      (ch : Chain) (tips : Assoc AltchainTip) → AllTips P tips → AllTips P (cleanup_tips ch tips)
  unfolding cleanup_tips
  AllTips-cleanup_tips ch [] h = tt
  AllTips-cleanup_tips ch ((k, tip) ∷ tips) (p, h) =
      kept_one (AllTips-cleanup_tips ch tips h) (get_topo tip.height ch)
    where
      kept_one :
          (rest : AllTips P (cleanup_tips ch tips)) (r : Result ℕ)
          → AllTips P (elim r [
            | ok x ↦ if x == tip.hash then cleanup_tips ch tips else (k, tip) ∷ cleanup_tips ch tips
            | _ ↦ (k, tip) ∷ cleanup_tips ch tips
          ])
      kept_one rest (ok x) = elim (Bool-cases (x == tip.hash)) [
        | inl same ↦ rw same rest
        | inr other ↦ rw other (p, rest)
      ]
      kept_one rest (err e) = (p, rest)
      kept_one rest panic = (p, rest)

pub set_tips-IsSound :
    {least : ℕ} (bs : Assoc Block) (s : Stats) (tips : Assoc AltchainTip)
    → AllTips (IsTip bs s.orphans) tips
    → IsSound least bs s
    → IsSound least bs (record s { tips = tips })
unfolding main_tip
set_tips-IsSound bs s tips h i = record {
  blocks_fit = i.blocks_fit;
  top = i.top;
  tips = h;
  orphans_stored = i.orphans_stored;
  orphans_keyed = i.orphans_keyed;
  most_work = i.most_work;
}

-- An alternative block that is stored becomes a tip.
pub extend_tips-IsSound :
    {least : ℕ} (bs : Assoc Block) (s : Stats) (b : Block) (hash : ℕ)
    → Has bs hash b.cumulative_diff
    → lookup hash s.orphans ≡ none
    → IsSound least bs s
    → IsSound least bs (record s { tips = extend_tips b hash s.tips })
unfolding extend_tips
extend_tips-IsSound bs s b hash stored settled i =
    set_tips-IsSound bs s (extend_tips b hash s.tips) (extended (lookup (prev_hash b) s.tips)) i
  where
    extended :
        (parent : Option AltchainTip)
        → AllTips (IsTip bs s.orphans) (elim parent [
          | some tip ↦
              insert
                (prev_hash b)
                (record {
                  hash = hash;
                  height = (tip.height + 1) % 2 ^ 64;
                  cumulative_diff = b.cumulative_diff;
                })
                s.tips
          | none ↦
              insert hash
                (record { hash = hash; height = b.height; cumulative_diff = b.cumulative_diff })
                s.tips
        ])
    extended (some tip) =
        AllTips-insert (IsTip bs s.orphans) (prev_hash b)
          (record {
            hash = hash;
            height = (tip.height + 1) % 2 ^ 64;
            cumulative_diff = b.cumulative_diff;
          })
          s.tips (record { stored = stored; settled = settled }) i.tips
    extended none =
        AllTips-insert (IsTip bs s.orphans) hash
          (record { hash = hash; height = b.height; cumulative_diff = b.cumulative_diff }) s.tips
          (record { stored = stored; settled = settled }) i.tips

AreKeyed-insert :
    (k : ℕ) (o : Orphan) (orphans : Assoc Orphan)
    → o.hash ≡ k
    → AreKeyed orphans
    → AreKeyed (insert k o orphans)
unfolding insert
AreKeyed-insert k o [] own h = (own, tt)
AreKeyed-insert k o ((j, u) ∷ orphans) own (q, h) = elim (Bool-cases (j == k)) [
  | inl same ↦ rw same (own, h)
  | inr other ↦ rw other (q, AreKeyed-insert k o orphans own h)
]

AreKeyed-erase : (k : ℕ) (orphans : Assoc Orphan) → AreKeyed orphans → AreKeyed (erase k orphans)
unfolding erase
AreKeyed-erase k [] h = tt
AreKeyed-erase k ((j, u) ∷ orphans) (q, h) = elim (Bool-cases (j == k)) [
  | inl same ↦ rw same (AreKeyed-erase k orphans h)
  | inr other ↦ rw other (q, AreKeyed-erase k orphans h)
]

-- A block that was not stored is stored as an orphan.
pub add_orphan-IsSound :
    {least : ℕ} (bs : Assoc Block) (s : Stats) (h : ℕ) (b : Block) (o : Orphan)
    → Fits b
    → lookup h bs ≡ none
    → o.hash ≡ h
    → IsSound least bs s
    → IsSound least (insert h b bs) (record s { orphans = insert h o s.orphans })
unfolding main_tip
add_orphan-IsSound {least} bs s h b o f unstored own i = record {
  blocks_fit = λ j x e. inserted-Fits h j b x bs f i.blocks_fit e;
  top = grown (main_tip s) i.top;
  tips = AllTips-mono (IsTip bs s.orphans) (IsTip bs' orphans') s.tips grown i.tips;
  orphans_stored = both;
  orphans_keyed = AreKeyed-insert h o s.orphans own i.orphans_keyed;
  most_work = i.most_work;
}
  where
    bs' : Assoc Block
    bs' = insert h b bs

    orphans' : Assoc Orphan
    orphans' = insert h o s.orphans

    grown : (tip : AltchainTip) → IsTip bs s.orphans tip → IsTip bs' orphans' tip
    grown tip t =
        let apart = unstored_apart bs s.orphans h unstored tip t in
        record {
          stored = Has-insert h tip.hash b bs tip.cumulative_diff apart t.stored;
          settled = ground (arith, lookup-insert tip.hash h o s.orphans, apart, t.settled);
        }

    both : AreStored bs' orphans'
    both k v e = elim (Bool-cases (h == k)) [
      | inl same ↦ (b, ground (arith, lookup-insert k h b bs, same))
      | inr other ↦
          let (p, stored) =
            i.orphans_stored k v (ground (arith, lookup-insert k h o s.orphans, other)) in
          stored-insert h k b p bs stored
    ]

-- An orphan that is stored becomes a tip.
pub adopt-IsSound :
    {least : ℕ} (bs : Assoc Block) (s : Stats) (b : Block) (parent : ℕ) (v : Orphan)
    → Has bs v.hash b.cumulative_diff
    → IsSound least bs s
    → IsSound least bs (adopt v.hash b parent v s)
unfolding adopt main_tip
adopt-IsSound bs s b parent v stored i = record {
  blocks_fit = i.blocks_fit;
  top = kept (main_tip s) i.top;
  tips =
      AllTips-insert (IsTip bs (erase v.hash s.orphans)) v.hash
        (record { hash = v.hash; height = b.height; cumulative_diff = b.cumulative_diff })
        (erase parent s.tips)
        (record { stored = stored; settled = ground (arith, lookup-erase v.hash v.hash s.orphans) })
        (AllTips-erase (IsTip bs (erase v.hash s.orphans)) parent s.tips (
          AllTips-mono (IsTip bs s.orphans) (IsTip bs (erase v.hash s.orphans)) s.tips kept
            i.tips));
  orphans_stored = λ k u e. i.orphans_stored k u (ground (arith, lookup-erase k v.hash s.orphans));
  orphans_keyed = AreKeyed-erase v.hash s.orphans i.orphans_keyed;
  most_work = i.most_work;
}
  where
    kept : (tip : AltchainTip) → IsTip bs s.orphans tip → IsTip bs (erase v.hash s.orphans) tip
    kept tip t = record {
      stored = t.stored;
      settled = ground (arith, lookup-erase tip.hash v.hash s.orphans, t.settled);
    }
