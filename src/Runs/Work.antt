-- ===== src/Runs/Work.antt =====
-- The stored blocks stay sound over every run, and the main chain never has less work than before.
use still_blockchain.Base.{ℕ, ◌≤◌, subst, sym}
use still_blockchain.Chain.{Chain}
use still_blockchain.Chain.Sound.{HoldsOf, own_work}
use still_blockchain.Chain.Genesis.Starts.{add_genesis-Holds}
use still_blockchain.Runs.Events.{incoming-Holds, submit_transaction-Holds, block_found-Holds}
use still_blockchain.Uint128.Value.{to_ℕ}
use still_blockchain.Runs.{Step, packet, submitted, solved, Run, done, next, Reachable, born}

Step-Holds : {least : ℕ} {ch ch' : Chain} → Step ch ch' → HoldsOf least ch → HoldsOf least ch'
Step-Holds {least} {ch = ch} (packet n kind bytes h e) i =
    subst (HoldsOf least) (sym e) (incoming-Holds n kind bytes ch h i)
Step-Holds {least} {ch = ch} (submitted n bytes e) i =
    subst (HoldsOf least) (sym e) (submit_transaction-Holds n bytes ch i)
Step-Holds {least} {ch = ch} (solved n merges reply b pow fits e) i =
    subst (HoldsOf least) (sym e) (block_found-Holds n b fits merges reply pow ch i)

Run-Holds : {least : ℕ} {ch ch' : Chain} → Run ch ch' → HoldsOf least ch → HoldsOf least ch'
Run-Holds done i = i
Run-Holds (next s r) i = Run-Holds r (Step-Holds s i)

-- In every state of a node that started over an empty database, every stored block fits its types
-- and has a difficulty that is not 0 and at most two side blocks; the top and the tips of the
-- alternative chains are stored with the cumulative difficulties that the stats give for them, and are
-- no orphans; the orphans are stored, each under its own hash; and the main chain has at least the
-- work of the genesis block.
pub Reachable-Holds : (ch : Chain) → Reachable ch → HoldsOf 1 ch
Reachable-Holds ch (born env now_ms empty none_yet e r) =
    Run-Holds r (subst (HoldsOf 1) (sym e) (add_genesis-Holds env now_ms empty none_yet))

-- From every state of a node that started over an empty database, no run leads to a main chain with
-- less work: no sequence of packets of bytes, submitted transactions and solved blocks whose numbers
-- fit their types, failed ones included.
pub Run-never_less_work :
    (ch ch' : Chain)
    → Reachable ch
    → Run ch ch'
    → to_ℕ ch.stats.cumulative_diff ≤ to_ℕ ch'.stats.cumulative_diff
Run-never_less_work ch ch' from r =
    let i = Reachable-Holds ch from in (Run-Holds r (own_work ch i)).most_work
