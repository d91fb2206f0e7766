-- ===== src/Base/Differing.antt =====
-- Loops that return at the first element whose field differs from a given value.
use mathlib.Core.Path.{◌≡◌}
use mathlib.Core.Logic.{◌≢◌}
use mathlib.Core.Bool.{true, false}
use mathlib.Core.List.{List, [], ◌∷◌}
use native.Mathlib.Omega.{arith}
use clicksync.Base.Tests.{Eq, ◌!=◌}
use clicksync.Base.Lists.{any, All, Some}

module _ {ℓ κ} {A : Type ℓ} {B : Type κ} ⦃e : Eq B⦄ (f : A → B) (b : B) where
  pub none_differs : (xs : List A) → any (λ x. f x != b) xs ≡ false → All (λ x. f x ≡ b) xs
  none_differs [] h = tt
  none_differs (x ∷ xs) h = ground (arith, none_differs xs)

  pub any_differs : (xs : List A) → any (λ x. f x != b) xs ≡ true → Some (λ x. f x ≢ b) xs
  any_differs [] h = (tt, cc)
  any_differs (x ∷ xs) h = ground (arith, any_differs xs)
