-- ===== src/Chain/Reorg/Choice.antt =====
-- The choice of the tip in `CheckReorgs`: the one with the most work.
use still_blockchain.Uint128.{cmp}
use still_blockchain.Uint128.Order.{cmp_cases}
use still_blockchain.Base.{ℕ, ◌≤◌, ◌≡◌, ◌⊎◌, ◌<◌, inl, subst, sym, ◌≢◌, false, true, ap}
use still_blockchain.Chain.Reorg.{
  best_tip, better, reorganize, check_reorgs, switch_stats, main_tip, cmp, move_blocks,
}
use still_blockchain.Base.{ℕ, [], ◌∷◌, ◌≤◌, ◌<◌, ◌⊎◌, inl, inr, refl, ◌≡◌, arith}
use Prim.Native.Nat.{Ordering}
use still_blockchain.Base.{true, false, Bool, ℕ_discrete, subst, sym, ◌≢◌}
use still_blockchain.Base.Assoc.{Assoc}
use still_blockchain.Base.Action.{
  After, After-last, After-elim, ◌>>◌, pure, modify, After-mono, After-ok,
}
use still_blockchain.Chain.{Chain, Stats, AltchainTip, Env, ℕ, ok}
use still_blockchain.Uint128.Value.{to_ℕ, IsValid}

-- The work of a tip.
abbrev pub work : AltchainTip → ℕ
work tip = to_ℕ tip.cumulative_diff

-- Something that holds of every tip.
abbrev pub AllTips : (AltchainTip → Type 0) → Assoc AltchainTip → Type 0
AllTips P [] = Unit
AllTips P ((k, tip) ∷ tips) = P tip × AllTips P tips

pub AllTips-mono :
    (P Q : AltchainTip → Type 0) (tips : Assoc AltchainTip)
    → ((tip : AltchainTip) → P tip → Q tip)
    → AllTips P tips
    → AllTips Q tips
AllTips-mono P Q [] f h = tt
AllTips-mono P Q ((k, tip) ∷ tips) f (p, h) = (f tip p, AllTips-mono P Q tips f h)

-- One step of the loop, by the answer of the comparison.
best_tip-step :
    (best tip : AltchainTip) (k : ℕ) (tips : Assoc AltchainTip)
    → IsValid best.cumulative_diff
    → IsValid tip.cumulative_diff
    → ((best_tip best ((k, tip) ∷ tips) ≡ best_tip tip tips) × (work best < work tip))
      ⊎ ((best_tip best ((k, tip) ∷ tips) ≡ best_tip best tips) × (work tip ≤ work best))
unfolding best_tip
best_tip-step best tip k tips h ht =
    elim (cmp_cases tip.cumulative_diff best.cumulative_diff ht h) [
      | inl (e, lt) ↦ inl (ground arith, lt)
      | inr (inl (e, le)) ↦ inr (ground arith, le)
      | inr (inr (e, le)) ↦ inr (ground arith, le)
    ]

-- `w` has no less work than every tip, and is the first one or has strictly more work than it.
abbrev pub IsMost : AltchainTip → Assoc AltchainTip → AltchainTip → Type 0
IsMost best tips w = AllTips (λ tip. work tip ≤ work w) tips × ((w ≡ best) ⊎ (work best < work w))

-- The tip that the loop of `CheckReorgs` chooses has the most work; the main chain's end stays
-- chosen unless a tip has strictly more.
pub best_tip-IsMost :
    (best : AltchainTip) (tips : Assoc AltchainTip)
    → IsValid best.cumulative_diff
    → AllTips (λ tip. IsValid tip.cumulative_diff) tips
    → IsMost best tips (best_tip best tips)
unfolding best_tip
best_tip-IsMost best [] h hs = (tt, inl refl)
best_tip-IsMost best ((k, tip) ∷ tips) h (ht, hs) = elim (best_tip-step best tip k tips h ht) [
  | inl (e, lt) ↦
      let (all, which) = best_tip-IsMost tip tips ht hs in
      subst (IsMost best ((k, tip) ∷ tips)) (sym e) ((ground arith, all), inr (ground arith))
  | inr (e, le) ↦
      let (all, which) = best_tip-IsMost best tips h hs in
      subst (IsMost best ((k, tip) ∷ tips)) (sym e) ((ground arith, all), which)
]

-- The tip chosen is the first one or one of the others.
pub best_tip-AllTips :
    (P : AltchainTip → Type 0) (best : AltchainTip) (tips : Assoc AltchainTip)
    → P best
    → AllTips P tips
    → P (best_tip best tips)
unfolding best_tip better
best_tip-AllTips P best [] p ps = p
best_tip-AllTips P best ((k, tip) ∷ tips) p (pt, ps) =
    best_tip-AllTips P (better best tip) tips
      (either (cmp tip.cumulative_diff best.cumulative_diff)) ps
  where
    either : (o : Ordering) → P (elim o [ Ordering.gt ↦ tip | _ ↦ best ])
    either Ordering.lt = p
    either Ordering.eq = p
    either Ordering.gt = pt

-- A reorganization that succeeds makes the tip the main chain's end.
reorganize-After :
    (env : Env) (rounds : ℕ) (s : Stats) (alt : AltchainTip) (ch : Chain)
    → After
        (λ moved ch'. (moved ≡ true) × (main_tip ch'.stats ≡ alt))
        ((reorganize env rounds s alt >> pure true) ch)
unfolding reorganize switch_stats main_tip
reorganize-After env rounds s alt ch =
    After-elim (λ _ ch'. main_tip ch'.stats ≡ alt)
      (λ moved ch'. (moved ≡ true) × (main_tip ch'.stats ≡ alt)) (reorganize env rounds s alt ch)
      (λ _. pure true)
      (After-last (λ _ ch'. main_tip ch'.stats ≡ alt) (move_blocks env rounds s alt)
        (λ _. modify (λ c. record c { stats = switch_stats alt c.stats })) ch (λ _ _. refl))
      (λ _ _ e. (refl, e))

check_reorgs-cases :
    (env : Env) (rounds : ℕ) (s : Stats) (ch : Chain)
    → let alt = best_tip (main_tip s) s.tips in
      ((alt.hash ≡ s.top_hash) × (check_reorgs env rounds s ch ≡ (ok false, ch)))
      ⊎ ((alt.hash ≢ s.top_hash)
          × (check_reorgs env rounds s ch ≡ (reorganize env rounds s alt >> pure true) ch))
unfolding check_reorgs
check_reorgs-cases env rounds s ch =
    elim (ℕ_discrete (best_tip (main_tip s) s.tips).hash s.top_hash) [
      | yes e ↦ inl (e, ground arith)
      | no ne ↦ inr (ne, ground arith)
    ]

-- What a call of `CheckReorgs` on the stats `s` of the chain `ch` answered and left.
abbrev pub Settled : Stats → Chain → Bool → Chain → Type 0
Settled s ch moved ch' =
    ((moved ≡ false) × (ch' ≡ ch) × AllTips (λ tip. work tip ≤ work (main_tip s)) s.tips)
    ⊎ ((moved ≡ true)
        × AllTips (λ tip. work tip ≤ work (main_tip ch'.stats)) s.tips
        × (work (main_tip s) < work (main_tip ch'.stats)))

check_reorgs-After :
    (env : Env) (rounds : ℕ) (s : Stats) (ch : Chain)
    → IsValid s.cumulative_diff
    → AllTips (λ tip. IsValid tip.cumulative_diff) s.tips
    → AllTips (λ tip. tip.hash ≢ s.top_hash) s.tips
    → After (Settled s ch) (check_reorgs env rounds s ch)
unfolding main_tip
check_reorgs-After env rounds s ch h hs fresh =
    let alt = best_tip (main_tip s) s.tips in
    let (all, which) = best_tip-IsMost (main_tip s) s.tips h hs in
    let from : (alt ≡ main_tip s) ⊎ (alt.hash ≢ s.top_hash) =
      best_tip-AllTips (λ tip. (tip ≡ main_tip s) ⊎ (tip.hash ≢ s.top_hash)) (main_tip s) s.tips
        (inl refl)
        (AllTips-mono (λ tip. tip.hash ≢ s.top_hash) _ s.tips (λ tip ne. inr ne) fresh) in
    elim (check_reorgs-cases env rounds s ch) [
      | inl (same, e) ↦
          let stays : alt ≡ main_tip s = elim from [ inl p ↦ p | inr ne ↦ elim (ne same) [ ] ] in
          subst (After (Settled s ch)) (sym e)
            (inl (refl, refl, subst (λ w. AllTips (λ tip. work tip ≤ work w) s.tips) stays all))
      | inr (other, e) ↦
          let more : work (main_tip s) < work alt = elim which [
            | inl p ↦ elim (other (ap (λ (w : AltchainTip). w.hash) p)) [ ]
            | inr lt ↦ lt
          ] in
          subst (After (Settled s ch)) (sym e) (
            After-mono _ (Settled s ch) _ (reorganize-After env rounds s alt ch) (λ moved ch' q.
              let (most, lt) =
                subst
                  (λ w. AllTips (λ tip. work tip ≤ work w) s.tips × (work (main_tip s) < work w))
                  (sym q.1) (all, more) in
              inr (q.0, most, lt)))
    ]

-- If `CheckReorgs` succeeds, then either no tip it looked at has more work than the main chain's
-- end, it answers `false` and nothing changed, or it answers `true`, no tip has more work than the
-- new end, and the new end has strictly more work than the old one. The works are valid 128-bit
-- numbers, and no tip has the hash of the main chain's end.
pub check_reorgs-Settled :
    (env : Env) (rounds : ℕ) (s : Stats) (ch ch' : Chain) (moved : Bool)
    → IsValid s.cumulative_diff
    → AllTips (λ tip. IsValid tip.cumulative_diff) s.tips
    → AllTips (λ tip. tip.hash ≢ s.top_hash) s.tips
    → check_reorgs env rounds s ch ≡ (ok moved, ch')
    → Settled s ch moved ch'
check_reorgs-Settled env rounds s ch ch' moved h hs fresh settled =
    After-ok (Settled s ch) (check_reorgs env rounds s ch)
      (check_reorgs-After env rounds s ch h hs fresh) settled
