-- ===== src/Queue/Runs.antt =====
-- Any sequence of operations on a queue, against the same on a list.
use wslay.Prelude.{
  ℕ, zero, suc, ◌+◌, ◌≤◌, ◌<◌, ◌≡◌, refl, sym, subst, Option, none, some, List, [], ◌∷◌, ◌++◌,
  length, arith,
}
use wslay.Queue.{
  Ptr, Cell, Memory, Queue, write, new_cell, relink, queue_new, attach, push_cell, push, fix_tail,
  push_front_cell, push_front, pop_at, pop,
}
use wslay.Queue.Refine.{Holds, push-Holds}
use wslay.Queue.Ends.{push_front-Holds, pop-Holds, pop-nothing, Shows, Holds-Shows}

pub data QueueOp (A : Type 0) : Type 0 where
  pushes : A → QueueOp A
  pushes_front : A → QueueOp A
  pops : QueueOp A

module _ {A : Type 0} where
  -- What the operations do to the list.
  abbrev pub list_op : QueueOp A → List A → List A
  list_op (pushes d) ds = ds ++ d ∷ []
  list_op (pushes_front d) ds = d ∷ ds
  list_op pops [] = []
  list_op pops (d ∷ ds) = ds

  abbrev pub list_ops : List (QueueOp A) → List A → List A
  list_ops [] ds = ds
  list_ops (o ∷ os) ds = list_ops os (list_op o ds)

  unfoldable pub queue_op : QueueOp A → Queue A → Queue A
  queue_op (pushes d) q = (push q d).1
  queue_op (pushes_front d) q = (push_front q d).1
  queue_op pops q = (pop q).1

  unfoldable pub queue_ops : List (QueueOp A) → Queue A → Queue A
  unfolding queue_op
  queue_ops [] q = q
  queue_ops (o ∷ os) q = queue_ops os (queue_op o q)

  relink-left :
      (o : Option (Cell A)) (t : ℕ) (p : Ptr) (m : Memory A) → (relink o t p m).left ≡ m.left
  unfolding relink
  relink-left none t p m = refl
  relink-left (some c) t p m = refl

  attach-left : (p : Ptr) (a : ℕ) (q : Queue A) → (attach p a q).memory.left ≡ q.memory.left
  unfolding attach
  attach-left none a q = refl
  attach-left (some t) a q = relink-left (q.memory.cells t) t (some a) q.memory

  fix_tail-left : (p : Ptr) (q : Queue A) → (fix_tail p q).memory.left ≡ q.memory.left
  unfolding fix_tail
  fix_tail-left none q = refl
  fix_tail-left (some t) q = refl

  cell_of_push :
      (l : ℕ) (q : Queue A) (d : A) (next : Ptr)
      → l ≤ suc (push_cell (new_cell l d next q.memory) q).1.memory.left
  unfolding push_cell new_cell
  cell_of_push zero q d next = omega arith
  cell_of_push (suc l) q d next =
      let m : Memory A =
        record (write q.memory.fresh (some (record { content = d; next = next })) q.memory) {
          fresh = q.memory.fresh + 1;
          left = l;
        } in
      omega (arith, attach-left q.tail q.memory.fresh (record q { memory = m }))

  cell_of_push_front :
      (l : ℕ) (q : Queue A) (d : A) (next : Ptr)
      → l ≤ suc (push_front_cell (new_cell l d next q.memory) q).1.memory.left
  unfolding push_front_cell new_cell
  cell_of_push_front zero q d next = omega arith
  cell_of_push_front (suc l) q d next =
      let m : Memory A =
        record (write q.memory.fresh (some (record { content = d; next = next })) q.memory) {
          fresh = q.memory.fresh + 1;
          left = l;
        } in
      omega (arith, fix_tail-left q.tail (record q { memory = m; top = some q.memory.fresh }))

  pop_at-left : (p : Ptr) (q : Queue A) → (pop_at p q).1.memory.left ≡ q.memory.left
  unfolding pop_at
  pop_at-left none q = refl
  pop_at-left (some a) q = refl

  -- An operation takes at most one cell of memory.
  op-left : (o : QueueOp A) (q : Queue A) → q.memory.left ≤ suc (queue_op o q).memory.left
  unfolding queue_op push push_front pop
  op-left (pushes d) q = cell_of_push q.memory.left q d none
  op-left (pushes_front d) q = cell_of_push_front q.memory.left q d q.top
  op-left pops q = omega (arith, pop_at-left q.top q)

  op-Holds :
      (o : QueueOp A) (q : Queue A) (ds : List A)
      → 0 < q.memory.left
      → Holds q ds
      → Holds (queue_op o q) (list_op o ds)
  unfolding queue_op
  op-Holds (pushes d) q ds some_left h = (push-Holds q ds d some_left h).1
  op-Holds (pushes_front d) q ds some_left h = (push_front-Holds q ds d some_left h).1
  op-Holds pops q [] some_left h =
      subst (λ (r : ℕ × Queue A). Holds r.1 []) (sym (pop-nothing q h)) h
  op-Holds pops q (d ∷ ds) some_left h = (pop-Holds q d ds h).1

  queue_new-Holds : (m : Memory A) → Holds (queue_new m) []
  unfolding queue_new
  queue_new-Holds m = record {
    cells = [];
    contents = refl;
    first = refl;
    last = refl;
    linked = tt;
    old = tt;
  }

  ops-Holds :
      (os : List (QueueOp A)) (q : Queue A) (ds : List A)
      → length os ≤ q.memory.left
      → Holds q ds
      → Holds (queue_ops os q) (list_ops os ds)
  unfolding queue_ops
  ops-Holds [] q ds enough h = h
  ops-Holds (o ∷ os) q ds enough h =
      ops-Holds os (queue_op o q) (list_op o ds) (omega (arith, op-left o q, enough))
        (op-Holds o q ds (omega (arith, enough)) h)

  -- A new queue, after any pushes at its two ends and pops for which there is memory, shows the top,
  -- the tail and the emptiness of the list that the same operations make.
  pub queue_ops-Shows :
      (m : Memory A) (os : List (QueueOp A))
      → length os ≤ m.left
      → Shows (queue_ops os (queue_new m)) (list_ops os [])
  unfolding queue_new
  queue_ops-Shows m os enough =
      Holds-Shows (queue_ops os (queue_new m)) (list_ops os [])
        (ops-Holds os (queue_new m) [] enough (queue_new-Holds m))
