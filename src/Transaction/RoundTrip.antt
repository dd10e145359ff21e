-- ===== src/Transaction/RoundTrip.antt =====
-- A transaction is read back from its bytes.
use still_blockchain.Base.{◌^◌, ◌<◌, ◌≡◌, [], ◌++◌, append_assoc, append-nil, refl}
use still_blockchain.Base.Bytes.{le_bytes, IsU64}
use still_blockchain.Base.Result.{ok}
use still_blockchain.Binary.{new_des, uvarint}
use still_blockchain.Binary.RoundTrip.{read_array-le_bytes, read_uvarint-uvarint}
use still_blockchain.Transaction.{Transaction, serialize, deserialize}

pub record IsValid (t : Transaction) : Type 0 where
  pub sender_fits : t.sender < 256 ^ 32
  pub recipient_fits : t.recipient < 256 ^ 22
  pub signature_fits : t.signature < 256 ^ 64
  pub nonce_fits : IsU64 t.nonce
  pub amount_fits : IsU64 t.amount
  pub fee_fits : IsU64 t.fee
  pub subaddr_fits : IsU64 t.subaddr

pub serialize_parts :
    (t : Transaction)
    → serialize t
      ≡ le_bytes 32 t.sender
        ++ (le_bytes 22 t.recipient
            ++ (le_bytes 64 t.signature
                ++ (uvarint 9 t.subaddr
                    ++ (uvarint 9 t.nonce ++ (uvarint 9 t.amount ++ (uvarint 9 t.fee ++ []))))))
unfolding serialize
serialize_parts t = simp (append_assoc, append-nil)

-- A transaction whose fields fit their types is read back from its bytes.
pub deserialize-serialize : (t : Transaction) → IsValid t → deserialize (serialize t) ≡ ok t
unfolding deserialize
deserialize-serialize t h =
    rw
      (
        serialize_parts,
        read_array-le_bytes 32 _ _ h.sender_fits,
        read_array-le_bytes 22 _ _ h.recipient_fits,
        read_array-le_bytes 64 _ _ h.signature_fits,
        read_uvarint-uvarint _ _ h.subaddr_fits,
        read_uvarint-uvarint _ _ h.nonce_fits,
        read_uvarint-uvarint _ _ h.amount_fits,
        read_uvarint-uvarint _ _ h.fee_fits,
      )
      (unfold new_des in refl)
