-- ===== src/Tests/Files.antt =====
-- Tests of the file of checkpoints.
use still_blockchain.Base.{List, ◌∷◌, arith, ◌≡◌, [], ◌/◌, ℕ, refl, ◌++◌, true, ◌<◌}
use still_blockchain.Tests.Chains.{chain}
use still_blockchain.Chain.{Chain, get_topo}
use still_blockchain.Base.Assoc.{lookup}
use still_blockchain.Base.Bytes.{le_bytes}
use still_blockchain.Base.Result.{ok}
use still_blockchain.Checkpoints.{Checkpoints, init, get_checkpoint, is_checkpoint}
use still_blockchain.Checkpoints.Create.{create_checkpoints}
use still_blockchain.Checkpoints.Create.Covers.{FitTopo, create_checkpoints-Covers}

abbrev long : Chain
long = record chain { topo = (2, 111) ∷ (4, 222) ∷ (5, 555) ∷ [] }

abbrev file : List ℕ
file = (le_bytes 4 2 ++ le_bytes 32 111) ++ le_bytes 32 222

long-FitTopo : FitTopo long
unfolding get_topo lookup
long-FitTopo height hash found = ground (arith, found)

file_made : create_checkpoints long 5 2 ≡ ok file
unfolding create_checkpoints get_topo lookup le_bytes
file_made = refl

create_checkpoints-Covers_example :
    (c : Checkpoints) × (init file ≡ ok c)
    × (c.max_checkpoint ≡ 5 / 2)
    × ((height : ℕ)
        → is_checkpoint c height ≡ true
        → 0 < height
        → get_topo height long ≡ get_checkpoint c height)
create_checkpoints-Covers_example =
    create_checkpoints-Covers long 5 2 file long-FitTopo (omega arith) (omega arith) file_made
