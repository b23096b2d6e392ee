-- ===== src/Queue/Linked.antt =====
-- The cells of a queue, as a list of addresses and contents.
use wslay.Prelude.{
  ℕ, ◌≡◌, refl, sym, ap, subst, ◌∙◌, ◌≢◌, true, false, ◌==◌, if◌then◌else◌, Option, none, some,
  List, [], ◌∷◌, ◌++◌, All, All-append, arith,
}
use wslay.Queue.{Ptr, Cell, Memory, write, relink}

pub elsewhere : (a b : ℕ) → b ≢ a → (b == a) ≡ false
elsewhere a b h = ground arith

pub here : (a : ℕ) → (a == a) ≡ true
here a = ground arith

module _ {A : Type 0} where
  abbrev pub head_ptr : List (ℕ × A) → Ptr
  head_ptr [] = none
  head_ptr ((a, d) ∷ xs) = some a

  abbrev pub last_ptr : List (ℕ × A) → Ptr
  last_ptr [] = none
  last_ptr ((a, d) ∷ []) = some a
  last_ptr (x ∷ y ∷ ys) = last_ptr (y ∷ ys)

  -- No cell has the address `a`.
  abbrev pub Away : ℕ → List (ℕ × A) → Type 0
  Away a xs = All (λ x. x.0 ≢ a) xs

  -- Each cell leads to the next one, the last one nowhere, and no address comes twice.
  abbrev pub Linked : Memory A → List (ℕ × A) → Type 0
  Linked m [] = Unit
  Linked m ((a, d) ∷ xs) =
      (m.cells a ≡ some (record { content = d; next = head_ptr xs })) × Away a xs × Linked m xs

  pub Linked-write :
      (m : Memory A) (a : ℕ) (c : Option (Cell A)) (xs : List (ℕ × A))
      → Away a xs
      → Linked m xs
      → Linked (write a c m) xs
  Linked-write m a c [] away h = tt
  Linked-write m a c ((b, d) ∷ xs) away h = (
    ap (λ t. if t then c else m.cells b) (elsewhere a b away.0) ∙ h.0,
    h.1,
    Linked-write m a c xs away.1 h.2,
  )

  pub last-Away : (a t : ℕ) (xs : List (ℕ × A)) → Away a xs → last_ptr xs ≡ some t → t ≢ a
  last-Away a t [] away e = absurd (ground arith)
  last-Away a t ((b, d) ∷ []) away e = λ q. away.0 (ground (arith, q))
  last-Away a t (x ∷ y ∷ ys) away e = last-Away a t (y ∷ ys) away.1 e

  relink-elsewhere :
      (o : Option (Cell A)) (t b : ℕ) (p : Ptr) (m : Memory A)
      → b ≢ t
      → (relink o t p m).cells b ≡ m.cells b
  unfolding relink
  relink-elsewhere none t b p m ne = refl
  relink-elsewhere (some c) t b p m ne =
      ap (λ k. if k then some (record { content = c.content; next = p }) else m.cells b)
        (elsewhere t b ne)

  relink-here :
      (t : ℕ) (p : Ptr) (m : Memory A) (c : Cell A)
      → m.cells t ≡ some c
      → (relink (m.cells t) t p m).cells t ≡ some (record { content = c.content; next = p })
  unfolding relink
  relink-here t p m c e =
      ap (λ o. (relink o t p m).cells t) e
      ∙ ap (λ k. if k then some (record { content = c.content; next = p }) else m.cells t) (here t)

  attach-one :
      (m : Memory A) (a b : ℕ) (c d : A)
      → m.cells b ≡ some (record { content = c; next = none })
      → b ≢ a
      → m.cells a ≡ some (record { content = d; next = none })
      → Linked (relink (m.cells b) b (some a) m) ((b, c) ∷ (a, d) ∷ [])
  attach-one m a b c d f ne e = (
    relink-here b (some a) m (record { content = c; next = none }) f,
    ((λ q. ne (sym q)), tt),
    (relink-elsewhere (m.cells b) b a (some a) m (λ q. ne (sym q)) ∙ e, tt, tt),
  )

  -- A new cell behind the last one.
  pub Linked-attach :
      (m : Memory A) (xs : List (ℕ × A)) (a t : ℕ) (d : A)
      → Linked m xs
      → Away a xs
      → m.cells a ≡ some (record { content = d; next = none })
      → last_ptr xs ≡ some t
      → Linked (relink (m.cells t) t (some a) m) (xs ++ (a, d) ∷ [])
  Linked-attach m [] a t d h away e last = absurd (ground arith)
  Linked-attach m ((b, c) ∷ []) a t d h away e last =
      let same : b ≡ t = ground (arith, last) in
      subst (λ k. Linked (relink (m.cells k) k (some a) m) ((b, c) ∷ (a, d) ∷ [])) same
        (attach-one m a b c d h.0 away.0 e)
  Linked-attach m ((b, c) ∷ y ∷ ys) a t d h away e last = (
    relink-elsewhere (m.cells t) t b (some a) m (λ q. last-Away b t (y ∷ ys) h.1 last (sym q))
        ∙ h.0,
    All-append (λ x. x.0 ≢ b) (y ∷ ys) ((a, d) ∷ []) h.1 ((λ q. away.0 (sym q)), tt),
    Linked-attach m (y ∷ ys) a t d h.2 away.1 e last,
  )
