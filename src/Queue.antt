-- ===== src/Queue.antt =====
-- src/wslay/queue.h and queue.c: the linked queue, on a heap of cells.
--
-- A pointer is an address, or nothing for NULL. `malloc` gives the next fresh address while memory
-- is left, and a NULL pointer after that; what it allocates belongs to the queue alone.
pub mod Linked
pub mod Refine
pub mod Ends
pub mod Runs
mod Tests
use wslay.Prelude.{ℕ, zero, suc, ◌+◌, Bool, true, false, ◌==◌, if◌then◌else◌, Option, none, some}

abbrev pub Ptr : Type 0
Ptr = Option ℕ

-- `wslay_queue_cell`
pub record Cell (A : Type 0) : Type 0 where
  pub content : A
  pub next : Ptr

-- The cells by address, the next fresh address, and how many cells can still be allocated.
pub record Memory (A : Type 0) : Type 0 where
  pub cells : ℕ → Option (Cell A)
  pub fresh : ℕ
  pub left : ℕ

-- `wslay_queue` with the memory that its cells are in.
pub record Queue (A : Type 0) : Type 0 where
  pub memory : Memory A
  pub top : Ptr
  pub tail : Ptr

abbrev pub same_ptr : Ptr → Ptr → Bool
same_ptr none none = true
same_ptr (some a) (some b) = a == b
same_ptr none (some b) = false
same_ptr (some a) none = false

module _ {A : Type 0} where
  -- A write to one cell.
  abbrev pub write : ℕ → Option (Cell A) → Memory A → Memory A
  write a c m = record m { cells = λ b. if b == a then c else m.cells b }

  -- `malloc` of a cell, and the writes of its two fields.
  unfoldable pub new_cell : ℕ → A → Ptr → Memory A → Option (ℕ × Memory A)
  new_cell zero d next m = none
  new_cell (suc left) d next m = some (
    m.fresh,
    record (write m.fresh (some (record { content = d; next = next })) m) {
      fresh = m.fresh + 1;
      left = left;
    },
  )

  -- `cell->next = p`, by the cell at the address
  unfoldable pub relink : Option (Cell A) → ℕ → Ptr → Memory A → Memory A
  relink none a p m = m
  relink (some c) a p m = write a (some (record { content = c.content; next = p })) m

  -- `wslay_queue_new`, in some memory
  unfoldable pub queue_new : Memory A → Queue A
  queue_new m = record { memory = m; top = none; tail = none }

  -- The end of `wslay_queue_push`, by `tail`.
  unfoldable pub attach : Ptr → ℕ → Queue A → Queue A
  unfolding relink
  attach none a q = record q { top = some a; tail = some a }
  attach (some t) a q = record q {
    memory = relink (q.memory.cells t) t (some a) q.memory;
    tail = some a;
  }

  -- `wslay_queue_push`, by the result of `malloc`
  unfoldable pub push_cell : Option (ℕ × Memory A) → Queue A → ℕ × Queue A
  unfolding attach
  push_cell none q = (1, q)
  push_cell (some (a, m)) q = (0, attach q.tail a (record q { memory = m }))

  unfoldable pub push : Queue A → A → ℕ × Queue A
  unfolding new_cell push_cell
  push q d = push_cell (new_cell q.memory.left d none q.memory) q

  -- `if (queue->tail == NULL) queue->tail = queue->top`
  unfoldable pub fix_tail : Ptr → Queue A → Queue A
  fix_tail none q = record q { tail = q.top }
  fix_tail (some t) q = q

  -- `wslay_queue_push_front`, by the result of `malloc`
  unfoldable pub push_front_cell : Option (ℕ × Memory A) → Queue A → ℕ × Queue A
  unfolding fix_tail
  push_front_cell none q = (1, q)
  push_front_cell (some (a, m)) q = (0, fix_tail q.tail (record q { memory = m; top = some a }))

  unfoldable pub push_front : Queue A → A → ℕ × Queue A
  unfolding new_cell push_front_cell
  push_front q d = push_front_cell (new_cell q.memory.left d q.top q.memory) q

  -- The fields of the cell that a pointer leads to.
  abbrev pub cell_next : Option (Cell A) → Ptr
  cell_next none = none
  cell_next (some c) = c.next

  abbrev pub cell_content : Option (Cell A) → Option A
  cell_content none = none
  cell_content (some c) = some c.content

  abbrev pub cell_at : Ptr → Memory A → Option (Cell A)
  cell_at none m = none
  cell_at (some a) m = m.cells a

  -- `wslay_queue_pop`, by `top`
  unfoldable pub pop_at : Ptr → Queue A → ℕ × Queue A
  pop_at none q = (1, q)
  pop_at (some a) q = (
    0,
    record {
      memory = write a none q.memory;
      top = cell_next (q.memory.cells a);
      tail = if same_ptr (some a) q.tail then none else q.tail;
    },
  )

  unfoldable pub pop : Queue A → ℕ × Queue A
  unfolding pop_at
  pop q = pop_at q.top q

  -- `wslay_queue_top` and `wslay_queue_tail`; the callers know that the queue is not empty.
  unfoldable pub top : Queue A → Option A
  top q = cell_content (cell_at q.top q.memory)

  unfoldable pub tail : Queue A → Option A
  tail q = cell_content (cell_at q.tail q.memory)

  -- `wslay_queue_is_empty`
  unfoldable pub is_empty_queue : Queue A → Bool
  is_empty_queue q = same_ptr q.top none

  -- The loop of `wslay_queue_free` from a cell on, with a bound on the cells.
  unfoldable pub free_cells : ℕ → Ptr → Memory A → Memory A
  free_cells zero p m = m
  free_cells (suc n) none m = m
  free_cells (suc n) (some a) m = free_cells n (cell_next (m.cells a)) (write a none m)
