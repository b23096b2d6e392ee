-- ===== src/Queue/Refine.antt =====
-- The queue implements a list.
use wslay.Prelude.{
  ℕ, zero, suc, ◌+◌, ◌<◌, ◌≡◌, refl, sym, ap, subst, ◌∙◌, ◌==◌, if◌then◌else◌, Option, none, some,
  List, [], ◌∷◌, ◌++◌, map, All, All-append, arith,
}
use wslay.Queue.{Ptr, Cell, Memory, Queue, new_cell, relink, attach, push_cell, push}
use wslay.Queue.Linked.{head_ptr, last_ptr, Away, Linked, Linked-write, Linked-attach, here}

module _ {A : Type 0} where
  -- The queue holds these contents, in this order, at some addresses below the fresh one.
  pub record Holds (q : Queue A) (ds : List A) : Type 0 where
    pub cells : List (ℕ × A)
    pub contents : map (λ x. x.1) cells ≡ ds
    pub first : q.top ≡ head_ptr cells
    pub last : q.tail ≡ last_ptr cells
    pub linked : Linked q.memory cells
    pub old : All (λ x. x.0 < q.memory.fresh) cells

  pub fresh-Away : (a : ℕ) (xs : List (ℕ × A)) → All (λ x. x.0 < a) xs → Away a xs
  fresh-Away a [] h = tt
  fresh-Away a (x ∷ xs) h = ((λ e. absurd (omega (arith, e, h.0))), fresh-Away a xs h.1)

  pub older : (a : ℕ) (xs : List (ℕ × A)) → All (λ x. x.0 < a) xs → All (λ x. x.0 < a + 1) xs
  older a [] h = tt
  older a (x ∷ xs) h = (omega (arith, h.0), older a xs h.1)

  relink-fresh :
      (o : Option (Cell A)) (t : ℕ) (p : Ptr) (m : Memory A) → (relink o t p m).fresh ≡ m.fresh
  unfolding relink
  relink-fresh none t p m = refl
  relink-fresh (some c) t p m = refl

  -- The memory in which a cell was allocated.
  abbrev pub with_cell : Memory A → ℕ → A → Ptr → Memory A
  with_cell m left d next = record {
    cells = λ b. if b == m.fresh then some (record { content = d; next = next }) else m.cells b;
    fresh = m.fresh + 1;
    left = left;
  }

  map-append :
      (xs : List (ℕ × A)) (a : ℕ) (d : A)
      → map (λ x. x.1) (xs ++ (a, d) ∷ []) ≡ map (λ x. x.1) xs ++ d ∷ []
  map-append [] a d = refl
  map-append (x ∷ xs) a d = ap (λ t. x.1 ∷ t) (map-append xs a d)

  head-append :
      (xs : List (ℕ × A)) (a t : ℕ) (d : A)
      → last_ptr xs ≡ some t
      → head_ptr (xs ++ (a, d) ∷ []) ≡ head_ptr xs
  head-append [] a t d e = absurd (ground arith)
  head-append (x ∷ xs) a t d e = refl

  last-append : (xs : List (ℕ × A)) (a : ℕ) (d : A) → last_ptr (xs ++ (a, d) ∷ []) ≡ some a
  last-append [] a d = refl
  last-append (x ∷ []) a d = refl
  last-append (x ∷ y ∷ ys) a d = last-append (y ∷ ys) a d

  pub nil_of_last : (xs : List (ℕ × A)) → last_ptr xs ≡ none → xs ≡ []
  nil_of_last [] e = refl
  nil_of_last (x ∷ []) e = absurd (ground arith)
  nil_of_last (x ∷ y ∷ ys) e = absurd (ground (arith, nil_of_last (y ∷ ys) e))

  attach-Holds :
      (p : Ptr) (q : Queue A) (ds : List A) (d : A) (left : ℕ)
      → q.tail ≡ p
      → Holds q ds
      → Holds
          (attach p q.memory.fresh (record q { memory = with_cell q.memory left d none }))
          (ds ++ d ∷ [])
  unfolding attach
  attach-Holds none q ds d left e h =
      let m = with_cell q.memory left d none in
      let a = q.memory.fresh in
      let nothing : h.cells ≡ [] = nil_of_last h.cells (sym h.last ∙ e) in
      record {
        cells = h.cells ++ (a, d) ∷ [];
        contents = map-append h.cells a d ∙ ap (λ t. t ++ d ∷ []) h.contents;
        first = sym (ap (λ t. head_ptr (t ++ (a, d) ∷ [])) nothing);
        last = sym (last-append h.cells a d);
        linked =
            subst (λ t. Linked m (t ++ (a, d) ∷ [])) (sym nothing)
              (
                ap (λ k. if k then some (record { content = d; next = none }) else q.memory.cells a)
                    (here a),
                tt,
                tt,
              );
        old =
            All-append (λ x. x.0 < a + 1) h.cells ((a, d) ∷ []) (older a h.cells h.old)
              (omega arith, tt);
      }
  attach-Holds (some t) q ds d left e h =
      let m = with_cell q.memory left d none in
      let a = q.memory.fresh in
      let away = fresh-Away a h.cells h.old in
      let end : last_ptr h.cells ≡ some t = sym h.last ∙ e in
      let there =
        ap (λ k. if k then some (record { content = d; next = none }) else q.memory.cells a)
          (here a) in
      record {
        cells = h.cells ++ (a, d) ∷ [];
        contents = map-append h.cells a d ∙ ap (λ t. t ++ d ∷ []) h.contents;
        first = h.first ∙ sym (head-append h.cells a t d end);
        last = sym (last-append h.cells a d);
        linked =
            Linked-attach m h.cells a t d
              (Linked-write q.memory a (some (record { content = d; next = none })) h.cells away
                h.linked)
              away there end;
        old =
            subst (λ n. All (λ x. x.0 < n) (h.cells ++ (a, d) ∷ []))
              (sym (relink-fresh (m.cells t) t (some a) m))
              (All-append (λ x. x.0 < a + 1) h.cells ((a, d) ∷ []) (older a h.cells h.old)
                (omega arith, tt));
      }

  -- `wslay_queue_push` appends.
  pub push-Holds :
      (q : Queue A) (ds : List A) (d : A)
      → 0 < q.memory.left
      → Holds q ds
      → ((push q d).0 ≡ 0) × Holds (push q d).1 (ds ++ d ∷ [])
  unfolding push
  push-Holds q ds d some_left h = allocated q.memory.left some_left
    where
      allocated :
          (l : ℕ)
          → 0 < l
          → ((push_cell (new_cell l d none q.memory) q).0 ≡ 0)
            × Holds (push_cell (new_cell l d none q.memory) q).1 (ds ++ d ∷ [])
      allocated zero lt = absurd (omega arith)
      allocated (suc l) lt = (refl, attach-Holds q.tail q ds d l refl h)
