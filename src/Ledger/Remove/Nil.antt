-- ===== src/Ledger/Remove/Nil.antt =====
-- The nil entries at the front of the cache.
use still_blockchain.Base.{
  ℕ, ◌≡◌, ◌≢◌, none, List, [], ◌∷◌, ◌++◌, length, replicate, arith, inr, suc, ◌⊎◌, subst, sym, inl,
  refl,
}
use mathlib.Core.List.{reverse, reverse-cons}
use still_blockchain.Base.Action.{◌>>◌}
use still_blockchain.Base.Result.{Result, ok, err, panic}
use still_blockchain.Crypto.{Crypto}
use still_blockchain.Block.{Block}
use still_blockchain.Ledger.{Ledger}
use still_blockchain.Ledger.Remove.{
  TxCache, nil_cache, remove_entry, remove_entries, collect, undo_coinbase, remove_block,
}

-- A result that is no success.
abbrev pub Fails : Result (Unit {0}) × Ledger → Type 0
Fails r = (l : Ledger) → r ≢ (ok tt, l)

-- Some entry is nil.
abbrev HasNil : List TxCache → Type 0
HasNil [] = ⊥
HasNil (e ∷ es) = (e.tx ≡ none) ⊎ HasNil es

HasNil-append : (xs ys : List TxCache) → HasNil ys → HasNil (xs ++ ys)
HasNil-append [] ys h = h
HasNil-append (x ∷ xs) ys h = inr (HasNil-append xs ys h)

Fails-bind :
    {A : Type 0} (m : Result A × Ledger) (k : A → Ledger → Result (Unit {0}) × Ledger)
    → ((a : A) (l : Ledger) → Fails (k a l))
    → Fails (elim m.0 [ ok a ↦ k a m.1 | err x ↦ (err x, m.1) | panic ↦ (panic, m.1) ])
Fails-bind (ok a, l) k h = h a l
Fails-bind (err x, l) k h = λ l' p. cc
Fails-bind (panic, l) k h = λ l' p. cc

remove_entries-HasNil :
    (c : Crypto) (height : ℕ) (es : List TxCache) (l : Ledger)
    → HasNil es
    → Fails (remove_entries c height es l)
unfolding remove_entries
remove_entries-HasNil c height [] l h = elim h [ ]
remove_entries-HasNil c height (e ∷ es) l (inl nil) = λ l'. ground arith
remove_entries-HasNil c height (e ∷ es) l (inr later) =
    Fails-bind (remove_entry c height e e.tx l) (λ _. remove_entries c height es)
      (λ _ l1. remove_entries-HasNil c height es l1 later)

-- The reverse order ends with the nil entries.
cache-HasNil :
    (n : ℕ) (found : List TxCache) → HasNil (reverse (replicate (suc n) nil_cache ++ found))
cache-HasNil n found =
    subst HasNil (sym (reverse-cons nil_cache (replicate n nil_cache ++ found)))
      (HasNil-append (reverse (replicate n nil_cache ++ found)) (nil_cache ∷ []) (inl refl))

-- Removing a block with a transaction from the state never succeeds.
pub remove_block-Fails :
    (c : Crypto) (genesis : ℕ) (b : Block) (v : ℕ) (vs : List ℕ) (l : Ledger)
    → b.transactions ≡ v ∷ vs
    → Fails (remove_block c genesis b l)
unfolding remove_block
remove_block-Fails c genesis b v vs l e =
    let cache : List TxCache × ℕ → List TxCache =
      λ found. reverse (replicate (length b.transactions) nil_cache ++ found.0) in
    Fails-bind (collect b.transactions 0 l)
      (λ found. undo_coinbase genesis b found.1 >> remove_entries c b.height (cache found))
      (λ found l1.
        Fails-bind (undo_coinbase genesis b found.1 l1)
          (λ _. remove_entries c b.height (cache found))
          (λ _ l2. remove_entries-HasNil c b.height (cache found) l2 (
            subst (λ ts. HasNil (reverse (replicate (length ts) nil_cache ++ found.0))) (sym e)
              (cache-HasNil (length vs) found.0))))
