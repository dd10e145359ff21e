-- ===== src/Rpc/Pages.antt =====
-- The pages of `get_tx_list`.
use still_blockchain.Base.{ℕ, ◌+◌, ◌*◌, ◌<◌, ◌≤◌, ◌≡◌, arith}
use still_blockchain.Base.Bytes.{IsU64}
use still_blockchain.Rpc.{page_bounds}

-- A page of an account with `count` transfers ends at one of them and has 26 at most; and where there
-- is a page behind it, the first transfer of the page is the last one of the next.
pub page_bounds_overlap :
    (page count : ℕ)
    → IsU64 count
    → ((page_bounds page count).0 ≤ count)
      × ((page_bounds page count).1 ≤ (page_bounds page count).0)
      × ((page_bounds page count).0 ≤ (page_bounds page count).1 + 25)
      × ((page + 1) * 25 < count
          → ((page_bounds page count).1 ≡ (page_bounds (page + 1) count).0)
            × (0 < (page_bounds page count).1))
unfolding page_bounds
page_bounds_overlap page count fits =
    (ground arith, ground arith, ground arith, λ more. (ground arith, ground arith))
