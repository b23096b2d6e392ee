-- ===== src/Queue/Ends.antt =====
-- The operations at the front of a queue, and what its two ends show.
use wslay.Prelude.{
  ℕ, zero, suc, ◌<◌, ◌≡◌, refl, sym, ap, subst, ◌∙◌, ◌≢◌, Bool, true, false, if◌then◌else◌, Option,
  none, some, List, [], ◌∷◌, map, drop, All, arith,
}
use wslay.Queue.{
  Ptr, Memory, Queue, same_ptr, new_cell, fix_tail, push_front_cell, push_front, cell_next,
  cell_content, cell_at, pop_at, pop, top, tail, is_empty_queue,
}
use wslay.Queue.Linked.{last-Away, head_ptr, last_ptr, Away, Linked, Linked-write, elsewhere, here}
use wslay.Queue.Refine.{Holds, fresh-Away, older, with_cell, nil_of_last}

abbrev pub head_of : {A : Type 0} → List A → Option A
head_of [] = none
head_of (d ∷ ds) = some d

abbrev pub last_of : {A : Type 0} → List A → Option A
last_of [] = none
last_of (d ∷ []) = some d
last_of (d ∷ e ∷ ds) = last_of (e ∷ ds)

abbrev pub is_nil : {A : Type 0} → List A → Bool
is_nil [] = true
is_nil (d ∷ ds) = false

module _ {A : Type 0} where
  last-cons :
      (x : ℕ × A) (xs : List (ℕ × A)) (t : ℕ) → last_ptr xs ≡ some t → last_ptr (x ∷ xs) ≡ some t
  last-cons x [] t e = absurd (ground arith)
  last-cons x (y ∷ ys) t e = e

  fix_tail-Holds :
      (p : Ptr) (q : Queue A) (ds : List A) (d : A) (left : ℕ)
      → q.tail ≡ p
      → Holds q ds
      → Holds
          (fix_tail p
            (record q { memory = with_cell q.memory left d q.top; top = some q.memory.fresh }))
          (d ∷ ds)
  unfolding fix_tail
  fix_tail-Holds p q ds d left e h = by_tail p e
    where
      a : ℕ
      a = q.memory.fresh

      linked : Linked (with_cell q.memory left d q.top) ((q.memory.fresh, d) ∷ h.cells)
      linked = (
        ap
              (λ k.
                if k
                then some (record { content = d; next = q.top })
                else q.memory.cells q.memory.fresh)
              (here q.memory.fresh)
            ∙ ap (λ k. some (record { content = d; next = k })) h.first,
        fresh-Away q.memory.fresh h.cells h.old,
        Linked-write q.memory q.memory.fresh (some (record { content = d; next = q.top })) h.cells
            (fresh-Away q.memory.fresh h.cells h.old) h.linked,
      )

      by_tail :
          (p : Ptr)
          → q.tail ≡ p
          → Holds
              (fix_tail p
                (record q { memory = with_cell q.memory left d q.top; top = some q.memory.fresh }))
              (d ∷ ds)
      by_tail none f = record {
        cells = (q.memory.fresh, d) ∷ h.cells;
        contents = ap (λ t. d ∷ t) h.contents;
        first = refl;
        last =
            sym
              (ap (λ t. last_ptr ((q.memory.fresh, d) ∷ t)) (nil_of_last h.cells (sym h.last ∙ f)));
        linked = linked;
        old = (omega arith, older q.memory.fresh h.cells h.old);
      }
      by_tail (some t) f = record {
        cells = (q.memory.fresh, d) ∷ h.cells;
        contents = ap (λ t. d ∷ t) h.contents;
        first = refl;
        last = f ∙ sym (last-cons (q.memory.fresh, d) h.cells t (sym h.last ∙ f));
        linked = linked;
        old = (omega arith, older q.memory.fresh h.cells h.old);
      }

  -- `wslay_queue_push_front` puts in front.
  pub push_front-Holds :
      (q : Queue A) (ds : List A) (d : A)
      → 0 < q.memory.left
      → Holds q ds
      → ((push_front q d).0 ≡ 0) × Holds (push_front q d).1 (d ∷ ds)
  unfolding push_front
  push_front-Holds q ds d some_left h = allocated q.memory.left some_left
    where
      allocated :
          (l : ℕ)
          → 0 < l
          → ((push_front_cell (new_cell l d q.top q.memory) q).0 ≡ 0)
            × Holds (push_front_cell (new_cell l d q.top q.memory) q).1 (d ∷ ds)
      allocated zero lt = absurd (omega arith)
      allocated (suc l) lt = (refl, fix_tail-Holds q.tail q ds d l refl h)

  last_some : (x : ℕ × A) (xs : List (ℕ × A)) → (t : ℕ) × (last_ptr (x ∷ xs) ≡ some t)
  last_some x [] = (x.0, refl)
  last_some x (y ∷ ys) = last_some y ys

  -- The tail that a pop leaves.
  popped_tail :
      (a : ℕ) (d : A) (xs : List (ℕ × A))
      → Away a xs
      → (if same_ptr (some a) (last_ptr ((a, d) ∷ xs)) then none else last_ptr ((a, d) ∷ xs))
        ≡ last_ptr xs
  popped_tail a d [] away = ap (λ k. if k then none else some a) (here a)
  popped_tail a d (x ∷ xs) away =
      let (t, e) = last_some x xs in
      let other : t ≢ a = last-Away a t (x ∷ xs) away e in
      subst (λ p. (if same_ptr (some a) p then none else p) ≡ p) (sym e)
        (ap (λ k. if k then none else some t) (elsewhere t a (λ f. other (sym f))))

  pop_cells :
      (q : Queue A) (xs : List (ℕ × A))
      → q.top ≡ head_ptr xs
      → q.tail ≡ last_ptr xs
      → Linked q.memory xs
      → All (λ x. x.0 < q.memory.fresh) xs
      → (d : A) (ds : List A) → map (λ x. x.1) xs ≡ d ∷ ds
      → ((pop q).0 ≡ 0) × Holds (pop q).1 ds
  unfolding pop
  pop_cells q [] t l k o d ds e = absurd (ground arith)
  pop_cells q ((a, c) ∷ xs) t l k o d ds e =
      subst (λ p. ((pop_at p q).0 ≡ 0) × Holds (pop_at p q).1 ds) (sym t)
        (unfold pop_at in
          (
            refl,
            record {
              cells = xs;
              contents = ap (drop 1) e;
              first = ap cell_next k.0;
              last = ap (λ p. if same_ptr (some a) p then none else p) l ∙ popped_tail a c xs k.1;
              linked = Linked-write q.memory a none xs k.1 k.2;
              old = o.1;
            },
          ))

  -- `wslay_queue_pop` removes the first, and reports an empty queue.
  pub pop-Holds :
      (q : Queue A) (d : A) (ds : List A) → Holds q (d ∷ ds) → ((pop q).0 ≡ 0) × Holds (pop q).1 ds
  pop-Holds q d ds h = pop_cells q h.cells h.first h.last h.linked h.old d ds h.contents

  pub pop-nothing : (q : Queue A) → Holds q [] → pop q ≡ (1, q)
  unfolding pop pop_at
  pop-nothing q h = ap (λ p. pop_at p q) (h.first ∙ ap head_ptr (no_cells h.cells h.contents))
    where
      no_cells : (xs : List (ℕ × A)) → map (λ x. x.1) xs ≡ [] → xs ≡ []
      no_cells [] e = refl
      no_cells (x ∷ xs) e = absurd (ground arith)

  top_cells :
      (m : Memory A) (xs : List (ℕ × A))
      → Linked m xs
      → cell_content (cell_at (head_ptr xs) m) ≡ head_of (map (λ x. x.1) xs)
  top_cells m [] k = refl
  top_cells m ((a, d) ∷ xs) k = ap cell_content k.0

  tail_cells :
      (m : Memory A) (xs : List (ℕ × A))
      → Linked m xs
      → cell_content (cell_at (last_ptr xs) m) ≡ last_of (map (λ x. x.1) xs)
  tail_cells m [] k = refl
  tail_cells m ((a, d) ∷ []) k = ap cell_content k.0
  tail_cells m (x ∷ y ∷ ys) k = tail_cells m (y ∷ ys) k.2

  empty_cells : (xs : List (ℕ × A)) → same_ptr (head_ptr xs) none ≡ is_nil (map (λ x. x.1) xs)
  empty_cells [] = refl
  empty_cells (x ∷ xs) = refl

  -- What the functions that only read show of the list.
  pub record Shows (q : Queue A) (ds : List A) : Type 0 where
    pub top_is : top q ≡ head_of ds
    pub tail_is : tail q ≡ last_of ds
    pub empty_is : is_empty_queue q ≡ is_nil ds

  -- `wslay_queue_top`, `wslay_queue_tail` and `wslay_queue_is_empty`.
  pub Holds-Shows : (q : Queue A) (ds : List A) → Holds q ds → Shows q ds
  unfolding top tail is_empty_queue
  Holds-Shows q ds h = record {
    top_is =
        ap (λ p. cell_content (cell_at p q.memory)) h.first
        ∙ top_cells q.memory h.cells h.linked
        ∙ ap head_of h.contents;
    tail_is =
        ap (λ p. cell_content (cell_at p q.memory)) h.last
        ∙ tail_cells q.memory h.cells h.linked
        ∙ ap last_of h.contents;
    empty_is = ap (λ p. same_ptr p none) h.first ∙ empty_cells h.cells ∙ ap is_nil h.contents;
  }
