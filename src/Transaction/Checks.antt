-- ===== src/Transaction/Checks.antt =====
-- What `Prevalidate` lets through.
use still_blockchain.Base.{◌*◌, ◌≤◌, ◌≡◌, ◌≢◌, ◌↔◌, true, arith}
use still_blockchain.Base.Result.{ok}
use still_blockchain.Config.{fee_per_byte}
use still_blockchain.Crypto.{Crypto, from_pub_key}
use still_blockchain.Transaction.{Transaction, base_overhead, signature_data, prevalidate}

-- The tests that a transaction has to pass.
pub record Passes (c : Crypto) (t : Transaction) : Type 0 where
  pub spends : t.amount ≢ 0
  pub has_sender : from_pub_key c t.sender ≢ 0
  pub sends_away : from_pub_key c t.sender ≢ t.recipient
  pub pays_fee : fee_per_byte * base_overhead ≤ t.fee
  pub signed : c.verify t.sender (signature_data t) t.signature ≡ true

-- `Prevalidate` accepts exactly the transactions that spend something, come from an address that
-- is not 0 and go to another one, pay the fee, and are signed.
pub prevalidate_iff : (c : Crypto) (t : Transaction) → (prevalidate c t ≡ ok tt) ↔ Passes c t
unfolding prevalidate
prevalidate_iff c t = (λ h. ground arith, λ h. ground arith)
