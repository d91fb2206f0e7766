-- ===== src/Base/Sums.antt =====
-- Sums over lists, and the number of rows that nested loops append.
use Prim.Native.Nat.{ℕ, ◌+◌}
use mathlib.Core.Path.{◌≡◌, refl}
use mathlib.Core.List.{List, [], ◌∷◌, flat_map}
use native.Mathlib.Omega.{arith}
use clicksync.Base.Lists.{length, length-append, All}

module _ {A : Type 0} where
  abbrev pub sum_of : (A → ℕ) → List A → ℕ
  sum_of f [] = 0
  sum_of f (x ∷ xs) = f x + sum_of f xs

  pub sum_of-congr :
      (f g : A → ℕ) (xs : List A) → All (λ x. f x ≡ g x) xs → sum_of f xs ≡ sum_of g xs
  sum_of-congr f g [] h = refl
  sum_of-congr f g (x ∷ xs) h = let here = h.0 in let rest = sum_of-congr f g xs h.1 in omega arith

  pub length-flat_map {ℓ} :
      {B : Type ℓ} (f : A → List B) (xs : List A)
      → length (flat_map f xs) ≡ sum_of (λ x. length (f x)) xs
  unfolding flat_map
  length-flat_map f [] = refl
  length-flat_map f (x ∷ xs) =
      let here = length-append (f x) (flat_map f xs) in
      let rest = length-flat_map f xs in omega arith
