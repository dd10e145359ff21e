-- ===== src/Tests/Nodes.antt =====
-- Tests of the download queue, of the checkpoints and of the rate limit.
use still_blockchain.RateLimit.Never.{answers, Call, answers-all_true}
use still_blockchain.Base.{map, true}
use still_blockchain.RateLimit.{new_limit}
use still_blockchain.Base.{◌∷◌, ◌≡◌, List, [], true, arith, refl}
use still_blockchain.Queue.{QueuedBlock, remove_block}

abbrev queued : QueuedBlock
queued = record { height = 3; hash = 30; expires = 100; last_request = 0 }

abbrev waiting : QueuedBlock
waiting = record { height = 4; hash = 40; expires = 100; last_request = 49 }

abbrev queue : List QueuedBlock
queue = queued ∷ waiting ∷ []

removed : remove_block 50 4 77 queue ≡ queued ∷ []
unfolding remove_block
removed = refl

abbrev calls : List Call
calls = record { now = 100; ip = 1; amount = 9 } ∷ record { now = 100; ip = 1; amount = 9 } ∷ []

answers-all_true_example : answers (new_limit 5) calls ≡ map (λ x. true) calls
answers-all_true_example = answers-all_true 5 calls (omega arith, (omega arith, tt))
