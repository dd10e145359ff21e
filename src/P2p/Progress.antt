-- ===== src/P2p/Progress.antt =====
-- What a node keeps over all that it receives: its stored blocks fit their types, and its main chain
-- never has less work than before.
use still_blockchain.Base.{ℕ, ◌≡◌, true, false, none, some, List, [], ◌∷◌, ap, arith}
use still_blockchain.Base.Action.{
  lift-state, state-After, Action, After, After-elim, lift, pure, modify, ◌>>=◌, ◌>>◌, bind-state,
}
use still_blockchain.Base.Result.{Result, ok, err, panic}
use still_blockchain.Block.{Block}
use still_blockchain.Block.Codec.{deserialize_full}
use still_blockchain.Block.Reads.Full.{FitsTypes}
use still_blockchain.Block.Pow.{prevalidate_block}
use still_blockchain.Chain.{Chain, on_ledger}
use still_blockchain.Chain.Add.{add_block}
use still_blockchain.Chain.Sound.{HoldsOf, Fits}
use still_blockchain.Chain.Sound.Reorg.{Untouched-Holds}
use still_blockchain.Chain.Sound.Adds.{add_block-Holds}
use still_blockchain.Checkpoints.{Checkpoints}
use still_blockchain.Crypto.{Crypto}
use still_blockchain.Ledger.Txns.{add_transaction}
use still_blockchain.P2p.Database.{Bolt, Buckets, buckets, update}
use still_blockchain.P2p.Handlers.{
  Node, packet_tx, store_txs, store_block, finish_block, packet_block, new_target, packet_stats,
  dispatch,
}
use Prim.Native.Nat.{Ordering}
use still_blockchain.Uint128.{cmp}
use still_blockchain.Packet.{
  PacketStats, PacketType, ping, block, tx, stats, block_request, unknown, deserialize_stats,
}
use still_blockchain.P2p.Answers.{packet_block_request}
use still_blockchain.Transaction as Tx
use still_blockchain.Transaction.{Transaction, tx_hash, prevalidate}

pub prevalidated-Fits :
    (c : Crypto) (cps : Checkpoints) (now : ℕ) (b : Block)
    → FitsTypes b
    → prevalidate_block c cps now b ≡ ok tt
    → Fits b
unfolding prevalidate_block
prevalidated-Fits c cps now b t passed = record {
  difficulty_fits = t.difficulty_fits;
  cumulative_fits = t.cumulative_fits;
  nonzero = ground (arith, passed);
  few_sides = t.few_sides;
}

buckets-Holds :
    {least : ℕ} (ch ch' : Chain) → buckets ch' ≡ buckets ch → HoldsOf least ch → HoldsOf least ch'
unfolding buckets
buckets-Holds ch ch' same i =
    Untouched-Holds ch.blocks ch.stats ch' (λ x. x)
      (ap (λ (x : Buckets). x.blocks) same, ap (λ (x : Buckets). x.stats) same) i

pub update-Holds :
    {least : ℕ} {A : Type 0} (bolt : Bolt) (run : Action Chain A) (ch : Chain)
    → HoldsOf least ch
    → After (λ _ ch'. HoldsOf least ch') (run ch)
    → HoldsOf least (update bolt run ch).1
unfolding update
update-Holds {least} {A} bolt run ch i after = go (run ch) after
  where
    go :
        (r : Result A × Chain)
        → After (λ _ ch'. HoldsOf least ch') r
        → HoldsOf least (update bolt (λ _. r) ch).1
    go (ok a, ch') h = h
    go (err e, ch') h = buckets-Holds ch (bolt.rollback ch ch') (bolt.rollback_buckets ch ch') i
    go (panic, ch') h = buckets-Holds ch (bolt.rollback ch ch') (bolt.rollback_buckets ch ch') i

store_txs-Holds :
    {least : ℕ} (n : Node) (ts : List Transaction) (ch : Chain)
    → HoldsOf least ch
    → HoldsOf least (store_txs n ts ch).1
unfolding store_txs
store_txs-Holds n [] ch i = i
store_txs-Holds {least} n (t ∷ ts) ch i =
    bind-state (HoldsOf least) (HoldsOf least)
      (on_ledger (add_transaction n.env.crypto n.env.now t (tx_hash n.env.crypto t) false) ch)
      (λ _. store_txs n ts) i (λ c h. h) (λ _ c h. store_txs-Holds n ts c h)

store_block-Holds :
    {least : ℕ} (n : Node) (b : Block) (ts : List Transaction) (ch : Chain)
    → Fits b
    → HoldsOf least ch
    → After (λ _ ch'. HoldsOf least ch') (store_block n b ts ch)
unfolding store_block
store_block-Holds {least} n b ts ch fits i =
    After-elim (λ _ c. HoldsOf least c) (λ _ ch'. HoldsOf least ch') (store_txs n ts ch)
      (λ _. add_block n.env n.rounds b)
      (state-After (HoldsOf least) (store_txs n ts ch) (store_txs-Holds n ts ch i))
      (λ _ c h. add_block-Holds n.env n.rounds b c fits h)

finish_block-Holds :
    {least : ℕ} (n : Node) (b : Block) (r : Result ℕ × Chain)
    → HoldsOf least r.1
    → HoldsOf least (finish_block n b r).1
unfolding finish_block
finish_block-Holds n b (ok hash, ch) h = h
finish_block-Holds n b (err e, ch) h = h
finish_block-Holds n b (panic, ch) h = h

new_target-Holds :
    {least : ℕ} (st : PacketStats) (ch : Chain)
    → HoldsOf least ch
    → HoldsOf least (new_target st ch)
unfolding new_target
new_target-Holds {least} st ch i = go (cmp st.cumulative_diff ch.ledger.sync_diff)
  where
    go :
        (o : Ordering)
        → HoldsOf least (elim o as (λ _. Chain) [
          | Ordering.gt ↦ record ch {
            ledger = record (ch.ledger) { sync_height = st.height; sync_diff = st.cumulative_diff };
          }
          | _ ↦ ch
        ])
    go Ordering.gt = i
    go Ordering.lt = i
    go Ordering.eq = i

module _ (n : Node) where
  packet_tx-Holds :
      {least : ℕ} (bytes : List ℕ) (ch : Chain)
      → HoldsOf least ch
      → HoldsOf least (packet_tx n bytes ch).1
  unfolding packet_tx
  packet_tx-Holds {least} bytes ch i =
      let c = n.env.crypto in
      let add : Transaction → Action Chain (Unit {0}) =
        λ t. update n.bolt (on_ledger (add_transaction c n.env.now t (tx_hash c t) true)) in
      lift-state (HoldsOf least) (Tx.deserialize bytes) (λ t. lift (prevalidate c t) >> add t) ch i
        (λ t _.
          lift-state (HoldsOf least) (prevalidate c t) (λ _. add t) ch i
            (λ _ _.
              update-Holds n.bolt (on_ledger (add_transaction c n.env.now t (tx_hash c t) true)) ch
                i
                (state-After (HoldsOf least)
                  (on_ledger (add_transaction c n.env.now t (tx_hash c t) true) ch) i)))

  packet_block-Holds :
      {least : ℕ} (bytes : List ℕ) (ch : Chain)
      → ((b : Block) (ts : List Transaction)
          → deserialize_full n.env.crypto bytes ≡ ok (b, ts)
          → FitsTypes b)
      → HoldsOf least ch
      → HoldsOf least (packet_block n bytes ch).1
  unfolding packet_block
  packet_block-Holds {least} bytes ch fits i =
      let check : Block → Result (Unit {0}) =
        λ b. prevalidate_block n.env.crypto n.checkpoints n.now_ms b in
      let enter : Block × List Transaction → Action Chain (Unit {0}) =
        λ full ch. finish_block n full.0 (update n.bolt (store_block n full.0 full.1) ch) in
      lift-state (HoldsOf least) (deserialize_full n.env.crypto bytes)
        (λ full. lift (check full.0) >> enter full) ch i
        (λ full read.
          lift-state (HoldsOf least) (check full.0) (λ _. enter full) ch i
            (λ _ passed.
              let fits' =
                prevalidated-Fits n.env.crypto n.checkpoints n.now_ms full.0
                  (fits full.0 full.1 read) passed in
              finish_block-Holds n full.0 (update n.bolt (store_block n full.0 full.1) ch) (
                update-Holds n.bolt (store_block n full.0 full.1) ch i
                  (store_block-Holds n full.0 full.1 ch fits' i))))

  packet_stats-Holds :
      {least : ℕ} (bytes : List ℕ) (ch : Chain)
      → HoldsOf least ch
      → HoldsOf least (packet_stats bytes ch).1
  unfolding packet_stats
  packet_stats-Holds {least} bytes ch i =
      lift-state (HoldsOf least) (deserialize_stats bytes)
        (λ st. modify (new_target st) >>= λ _. pure st) ch i (λ st _. new_target-Holds st ch i)

  pub dispatch-Holds :
      {least : ℕ} (t : PacketType) (bytes : List ℕ) (ch : Chain)
      → ((b : Block) (ts : List Transaction)
          → deserialize_full n.env.crypto bytes ≡ ok (b, ts)
          → FitsTypes b)
      → HoldsOf least ch
      → HoldsOf least (dispatch n t bytes ch).1
  unfolding dispatch
  dispatch-Holds {least} block bytes ch fits i =
      bind-state (HoldsOf least) (HoldsOf least) (packet_block n bytes ch) (λ _. pure none)
        (packet_block-Holds bytes ch fits i) (λ c h. h) (λ _ c h. h)
  dispatch-Holds {least} tx bytes ch fits i =
      bind-state (HoldsOf least) (HoldsOf least) (packet_tx n bytes ch) (λ _. pure none)
        (packet_tx-Holds bytes ch i) (λ c h. h) (λ _ c h. h)
  dispatch-Holds {least} stats bytes ch fits i =
      bind-state (HoldsOf least) (HoldsOf least) (packet_stats bytes ch) (λ _. pure none)
        (packet_stats-Holds bytes ch i) (λ c h. h) (λ _ c h. h)
  dispatch-Holds {least} block_request bytes ch fits i =
      lift-state (HoldsOf least) (packet_block_request bytes ch) (λ d. pure (some d)) ch i
        (λ d _. i)
  dispatch-Holds ping bytes ch fits i = i
  dispatch-Holds unknown bytes ch fits i = i
