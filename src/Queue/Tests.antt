-- ===== src/Queue/Tests.antt =====
-- A queue in a memory of ten cells.
use wslay.Prelude.{ℕ, ◌≡◌, refl, none, some, List, [], ◌∷◌, arith}
use wslay.Queue.{Memory, queue_new, push, push_front, pop, tail}
use wslay.Queue.Ends.{Shows}
use wslay.Queue.Runs.{QueueOp, pushes, pushes_front, pops, list_ops, queue_ops, queue_ops-Shows}

abbrev ten : Memory ℕ
ten = record { cells = λ _. none; fresh = 1; left = 10 }

abbrev some_ops : List (QueueOp ℕ)
some_ops = pushes 5 ∷ pushes 6 ∷ pushes_front 4 ∷ pops ∷ pops ∷ []

last_stays : tail (queue_ops some_ops (queue_new ten)) ≡ some 6
unfolding queue_ops queue_new push push_front pop tail
last_stays = refl

queue_ops-Shows_example : Shows (queue_ops some_ops (queue_new ten)) (list_ops some_ops [])
queue_ops-Shows_example = queue_ops-Shows ten some_ops (omega arith)
