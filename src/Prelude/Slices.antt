-- ===== src/Prelude/Slices.antt =====
-- Slices of an array, `xs[i .. i + n)`: what a pointer and a length stand for.
use Prim.Native.Nat.{ℕ, suc, ◌+◌, ◌≤◌, ◌<◌}
use mathlib.Core.Path.{◌≡◌, ap}
use mathlib.Core.List.{List, ◌∷◌}
use native.Mathlib.Omega.{arith}
use wslay.Prelude.Lists.{length, get_or, take, drop, length-take, length-drop}
use wslay.Prelude.Lists.{drop-get_or}

module _ {ℓ} {A : Type ℓ} where
  abbrev pub slice : ℕ → ℕ → List A → List A
  slice i n xs = take n (drop i xs)

  pub length-slice : (i n : ℕ) (xs : List A) → i + n ≤ length xs → length (slice i n xs) ≡ n
  length-slice i n xs h = omega (arith, length-take n (drop i xs), length-drop i xs)

  pub slice-suc :
      (i n : ℕ) (xs : List A) (d : A)
      → i < length xs
      → slice i (suc n) xs ≡ get_or xs i d ∷ slice (suc i) n xs
  slice-suc i n xs d h = ap (take (suc n)) (drop-get_or xs i d h)
