-- ===== src/Runs/Events.antt =====
-- Every event keeps the stored blocks sound, whether it succeeds or fails.
use still_blockchain.Binary.Reads.{if-holds}
use still_blockchain.Base.Bytes.{IsBytes}
use still_blockchain.Base.{
  ℕ, List, Bool, true, ◌==◌, subst, sym, map, length, if◌then◌else◌, [], ◌∷◌, ◌++◌,
}
use still_blockchain.Base.Action.{
  Action, lift, pure, ◌>>=◌, ◌>>◌, bind-state, lift-state, state-After,
}
use still_blockchain.Base.Result.{ok, err, bad_pow}
use still_blockchain.Block.{Block}
use still_blockchain.Block.Codec.{block_hash}
use still_blockchain.Block.Pow.{prevalidate_block, valid_pow_value}
use still_blockchain.Block.Reads.Full.{FitsTypes, deserialize_full-FitsTypes}
use still_blockchain.Chain.{Chain, on_ledger}
use still_blockchain.Chain.Add.{add_block}
use still_blockchain.Chain.Sound.{HoldsOf}
use still_blockchain.Chain.Sound.Adds.{add_block-Holds}
use still_blockchain.Config.{network_id}
use still_blockchain.Ledger.Txns.{add_transaction}
use still_blockchain.Mining.Found.{FoundBlockInfo, block_found, matching}
use still_blockchain.Mining.Found.Keeps.{matching-Keeps}
use still_blockchain.Mining.Template.{Merge}
use still_blockchain.P2p.Database.{update}
use still_blockchain.P2p.Handlers.{Node, incoming}
use still_blockchain.P2p.Progress.{dispatch-Holds, update-Holds, prevalidated-Fits}
use still_blockchain.Packet.{packet_type}
use still_blockchain.Rpc.Submit.{submit_transaction}
use still_blockchain.Transaction as Tx
use still_blockchain.Transaction.{Transaction, tx_hash, prevalidate}
use still_blockchain.Uint128.{from_bytes}

pub incoming-Holds :
    {least : ℕ} (n : Node) (kind : ℕ) (bytes : List ℕ) (ch : Chain)
    → IsBytes bytes
    → HoldsOf least ch
    → HoldsOf least (incoming n kind bytes ch).1
unfolding incoming
incoming-Holds n kind bytes ch h i =
    dispatch-Holds n (packet_type kind) bytes ch
      (λ b ts read. deserialize_full-FitsTypes n.env.crypto bytes h read) i

pub submit_transaction-Holds :
    {least : ℕ} (n : Node) (bytes : List ℕ) (ch : Chain)
    → HoldsOf least ch
    → HoldsOf least (submit_transaction n bytes ch).1
unfolding submit_transaction
submit_transaction-Holds {least} n bytes ch i =
    let c = n.env.crypto in
    let add : Transaction → Action Chain (Unit {0}) =
      λ t. on_ledger (add_transaction c n.env.now t (tx_hash c t) true) in
    let run : Transaction → Action Chain ℕ = λ t. update n.bolt (add t) >> pure (tx_hash c t) in
    lift-state (HoldsOf least) (Tx.deserialize bytes) (λ t. lift (prevalidate c t) >> run t) ch i
      (λ t _.
        lift-state (HoldsOf least) (prevalidate c t) (λ _. run t) ch i
          (λ _ _.
            bind-state (HoldsOf least) (HoldsOf least) (update n.bolt (add t) ch)
              (λ _. pure (tx_hash c t))
              (update-Holds n.bolt (add t) ch i (state-After (HoldsOf least) (add t ch) i))
              (λ _ k. k) (λ _ _ k. k)))

module _ (n : Node) (b : Block) (fits : FitsTypes b) where
  -- The block itself, whose proof of work is right.
  enter-Holds :
      {least : ℕ} (answer : List FoundBlockInfo) (ch : Chain)
      → HoldsOf least ch
      → HoldsOf least
          ((lift (prevalidate_block n.env.crypto n.checkpoints n.now_ms b)
              >> (update n.bolt (add_block n.env n.rounds b) >> pure answer))
            ch).1
  enter-Holds {least} answer ch i =
      let add = update n.bolt (add_block n.env n.rounds b) in
      lift-state (HoldsOf least) (prevalidate_block n.env.crypto n.checkpoints n.now_ms b)
        (λ _. update n.bolt (add_block n.env n.rounds b) >> pure answer) ch i
        (λ _ passed.
          bind-state (HoldsOf least) (HoldsOf least) (add ch) (λ _. pure answer)
            (update-Holds n.bolt (add_block n.env n.rounds b) ch i (
              add_block-Holds n.env n.rounds b ch
                (prevalidated-Fits n.env.crypto n.checkpoints n.now_ms b fits passed) i))
            (λ _ k. k) (λ _ _ k. k))

  pub block_found-Holds :
      {least : ℕ} (merges : List Merge) (reply : Merge → FoundBlockInfo) (pow : List ℕ) (ch : Chain)
      → HoldsOf least ch
      → HoldsOf least (block_found n merges reply b pow ch).1
  unfolding block_found
  block_found-Holds {least} merges reply pow ch i =
      let enter : List Merge → Action Chain (List FoundBlockInfo) = λ met.
        lift (prevalidate_block n.env.crypto n.checkpoints n.now_ms b)
        >> (update n.bolt (add_block n.env n.rounds b)
            >> pure (
                map reply met
                ++ record {
                  hash = block_hash n.env.crypto b;
                  height = b.height;
                  network = network_id;
                  difficulty = b.difficulty;
                  accepted = true;
                }
                  ∷ [])) in
      let others : List Merge → Action Chain (List FoundBlockInfo) =
        λ met. lift (if length met == 0 then err bad_pow else ok (map reply met)) in
      let choose : List Merge → Bool → Action Chain (List FoundBlockInfo) =
        λ met valid. if valid then enter met else others met in
      let tested : List Merge → Action Chain (List FoundBlockInfo) =
        λ met. lift (valid_pow_value (from_bytes pow) b.difficulty) >>= choose met in
      bind-state (HoldsOf least) (HoldsOf least) (matching pow merges ch) tested
        (subst (HoldsOf least) (sym (matching-Keeps pow merges ch)) i) (λ _ k. k)
        (λ met c k.
          lift-state (HoldsOf least) (valid_pow_value (from_bytes pow) b.difficulty) (choose met) c
            k
            (λ valid _.
              if-holds (λ (m : Action Chain (List FoundBlockInfo)). HoldsOf least (m c).1) valid
                (enter met) (others met) (enter-Holds (map reply met ++ _) c k) k))
