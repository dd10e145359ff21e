-- ===== src/Wallet/Accepted.antt =====
-- A node accepts the transfers of a wallet that it informed.
use still_blockchain.Address.{Integrated}
use still_blockchain.Base.{
  ℕ, ◌+◌, ◌%◌, ◌^◌, ◌<◌, ◌≤◌, ◌≡◌, ◌≢◌, refl, ◌∙◌, arith, true, none, some, subst,
}
use still_blockchain.Base.Assoc.{lookup}
use still_blockchain.Base.Bytes.{IsU64}
use still_blockchain.Base.Result.{ok}
use still_blockchain.Chain.{Chain}
use still_blockchain.Crypto.{Crypto, from_pub_key}
use still_blockchain.Ledger.{State, u64, get_entry}
use still_blockchain.Ledger.Txns.{validate_mempool_tx, add_transaction, set_tx}
use still_blockchain.P2p.Database.{update}
use still_blockchain.P2p.Handlers.{Node}
use still_blockchain.Rpc.{AddressResponse, get_address, stored_response, count_mempool}
use still_blockchain.Rpc.Mempool.{FitTxs, Mirrors, replay-count_mempool}
use still_blockchain.Rpc.Submit.{submit_transaction}
use still_blockchain.Transaction.{
  Transaction, serialize, tx_hash, prevalidate, signature_data, deserialize,
}
use still_blockchain.Transaction.Checks.{prevalidate_iff}
use still_blockchain.Transaction.RoundTrip.{IsValid, deserialize-serialize}
use still_blockchain.Wallet.{
  Signer, Wallet, public_key, refresh, unsigned, sign_tx, transfer, Integrated,
}

-- `validateMempoolTx` accepts what `get_address` leaves room for.
validate-get_address :
    (c : Crypto) (ch : Chain) (t : Transaction) (hash : ℕ) (s : State) (r : AddressResponse)
    → FitTxs ch.ledger
    → lookup (from_pub_key c t.sender) ch.ledger.states ≡ some s
    → IsU64 s.balance
    → get_entry hash ch.ledger.mempool ≡ none
    → get_address ch (from_pub_key c t.sender) ≡ ok r
    → (t.amount + t.fee) % u64 ≤ r.mempool_balance
    → t.nonce ≡ (r.mempool_nonce + 1) % u64
    → validate_mempool_tx c t hash ch.ledger ≡ (ok tt, ch.ledger)
unfolding get_address validate_mempool_tx stored_response
validate-get_address c ch t hash s r fit known fits fresh answered covered in_order =
    let addr = from_pub_key c t.sender in
    let counted : count_mempool ch.ledger addr ch.ledger.mempool (stored_response ch (some s))
        ≡ ok r =
      ground (arith, known) in
    let start : Mirrors s (stored_response ch (some s)) = record {
      balance_fits = fits;
      same_balance = refl;
      same_nonce = refl;
    } in
    let (s', replayed, mirrors) =
      replay-count_mempool ch.ledger hash addr ch.ledger.mempool s (stored_response ch (some s)) r
        fit fresh start counted in
    ground (arith, known, replayed, mirrors.same_balance, mirrors.same_nonce)

-- The public half of the key is the one of its seed.
abbrev pub IsPair : {c : Crypto} → Signer c → ℕ → Type 0
IsPair signer key = public_key key ≡ signer.derive (key % 256 ^ 32)

-- A signed transfer passes `Prevalidate`.
transfer-Passes :
    (c : Crypto) (signer : Signer c) (w : Wallet) (r : AddressResponse) (amount : ℕ)
    (to : Integrated)
    → IsPair signer w.private_key
    → w.address.addr ≡ from_pub_key c (public_key w.private_key)
    → w.address.addr ≢ 0
    → w.address.addr ≢ to.addr
    → 0 < amount
    → prevalidate c (sign_tx signer (unsigned (refresh w r) amount to) w.private_key) ≡ ok tt
unfolding unsigned refresh sign_tx signature_data
transfer-Passes c signer w r amount to pair own real away some_amount =
    let made = sign_tx signer (unsigned (refresh w r) amount to) w.private_key in
    (prevalidate_iff c made).1 (record {
      spends = λ e. omega arith;
      has_sender = λ e. real (own ∙ e);
      sends_away = λ e. away (own ∙ e);
      pays_fee = omega arith;
      signed =
          signer.sign_verifies (signature_data (unsigned (refresh w r) amount to)) w.private_key
            pair;
    })

made-IsValid :
    (c : Crypto) (signer : Signer c) (w : Wallet) (r : AddressResponse) (amount : ℕ)
    (to : Integrated)
    → IsU64 amount
    → to.addr < 256 ^ 22
    → IsU64 to.subaddr
    → IsValid (sign_tx signer (unsigned (refresh w r) amount to) w.private_key)
unfolding unsigned refresh sign_tx public_key
made-IsValid c signer w r amount to fits addr_fits subaddr_fits = record {
  sender_fits = omega arith;
  recipient_fits = addr_fits;
  signature_fits =
      signer.sign_fits (signature_data (unsigned (refresh w r) amount to)) w.private_key;
  nonce_fits = omega arith;
  amount_fits = fits;
  fee_fits = omega arith;
  subaddr_fits = subaddr_fits;
}

-- What a transfer makes.
transfer-makes :
    (c : Crypto) (signer : Signer c) (w : Wallet) (r : AddressResponse) (amount : ℕ)
    (to : Integrated) (t : Transaction)
    → transfer signer w r amount to ≡ ok t
    → sign_tx signer (unsigned (refresh w r) amount to) w.private_key ≡ t
unfolding transfer refresh
transfer-makes c signer w r amount to t made = ground arith

-- What a wallet needs of the node that informs it.
pub record Informed (c : Crypto) (ch : Chain) (w : Wallet) (s : State) (r : AddressResponse)
    : Type 0 where
  pub own_address : w.address.addr ≡ from_pub_key c (public_key w.private_key)
  pub real_address : w.address.addr ≢ 0
  pub known : lookup w.address.addr ch.ledger.states ≡ some s
  pub balance_fits : IsU64 s.balance
  pub txs_fit : FitTxs ch.ledger
  pub answered : get_address ch w.address.addr ≡ ok r

made-validated :
    (c : Crypto) (signer : Signer c) (w : Wallet) (ch : Chain) (r : AddressResponse) (s : State)
    (amount hash : ℕ) (to : Integrated)
    → Informed c ch w s r
    → amount + 62_500_000 ≤ r.mempool_balance
    → IsU64 r.mempool_balance
    → get_entry hash ch.ledger.mempool ≡ none
    → validate_mempool_tx c
        (sign_tx signer (unsigned (refresh w r) amount to) w.private_key)
        hash
        ch.ledger
      ≡ (ok tt, ch.ledger)
unfolding unsigned refresh sign_tx
made-validated c signer w ch r s amount hash to h covered fits fresh =
    validate-get_address c ch (sign_tx signer (unsigned (refresh w r) amount to) w.private_key) hash
      s r h.txs_fit (subst (λ a. lookup a ch.ledger.states ≡ some s) h.own_address h.known)
      h.balance_fits fresh (subst (λ a. get_address ch a ≡ ok r) h.own_address h.answered)
      (omega arith) refl

submitted :
    (n : Node) (t : Transaction) (ch : Chain)
    → deserialize (serialize t) ≡ ok t
    → prevalidate n.env.crypto t ≡ ok tt
    → lookup (tx_hash n.env.crypto t) ch.ledger.txs ≡ none
    → validate_mempool_tx n.env.crypto t (tx_hash n.env.crypto t) ch.ledger ≡ (ok tt, ch.ledger)
    → (submit_transaction n (serialize t) ch).0 ≡ ok (tx_hash n.env.crypto t)
unfolding submit_transaction update add_transaction set_tx
submitted n t ch read passes unstored validated =
    let added : (add_transaction n.env.crypto n.env.now t (tx_hash n.env.crypto t) true ch.ledger).0
        ≡ ok tt =
      ground (arith, unstored, validated) in
    ground (arith, read, passes, added)

-- A transfer that the wallet makes from the node's answer to `get_address` is accepted by
-- `submit_transaction` of that node, if the two halves of the wallet's key belong together and to its
-- address, the account exists, the amount is not 0, goes to another address, and is covered with the fee by the balance
-- that counts the mempool, and the transaction is not stored or in the mempool yet. The stored
-- amounts and the arguments fit their types, and the signature scheme verifies what is signed with a
-- key whose halves belong together.
pub transfer_accepted :
    (n : Node) (signer : Signer n.env.crypto) (w : Wallet) (ch : Chain) (r : AddressResponse)
    (s : State) (amount : ℕ) (to : Integrated) (t : Transaction)
    → Informed n.env.crypto ch w s r
    → IsPair signer w.private_key
    → w.address.addr ≢ to.addr
    → to.addr < 256 ^ 22
    → IsU64 to.subaddr
    → 0 < amount
    → amount + 62_500_000 ≤ r.mempool_balance
    → IsU64 r.mempool_balance
    → transfer signer w r amount to ≡ ok t
    → lookup (tx_hash n.env.crypto t) ch.ledger.txs ≡ none
    → get_entry (tx_hash n.env.crypto t) ch.ledger.mempool ≡ none
    → (submit_transaction n (serialize t) ch).0 ≡ ok (tx_hash n.env.crypto t)
transfer_accepted n signer w ch r s amount to t h pair away addr_fits subaddr_fits some_amount
      covered fits made unstored fresh =
    let c = n.env.crypto in
    let is = transfer-makes c signer w r amount to t made in
    let valid : IsValid t =
      subst IsValid is (made-IsValid c signer w r amount to (omega arith) addr_fits subaddr_fits) in
    let passes : prevalidate c t ≡ ok tt =
      subst (λ x. prevalidate c x ≡ ok tt) is
        (transfer-Passes c signer w r amount to pair h.own_address h.real_address away
          some_amount) in
    let validated : validate_mempool_tx c t (tx_hash c t) ch.ledger ≡ (ok tt, ch.ledger) =
      subst (λ x. validate_mempool_tx c x (tx_hash c t) ch.ledger ≡ (ok tt, ch.ledger)) is
        (made-validated c signer w ch r s amount (tx_hash c t) to h covered fits fresh) in
    submitted n t ch (deserialize-serialize t valid) passes unstored validated
