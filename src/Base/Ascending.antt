-- ===== src/Base/Ascending.antt =====
-- Rows in strictly rising order of a key, kept, filtered and ordered.
use Prim.Native.Nat.{ℕ, zero, suc, ◌≤◌, ◌<◌}
use mathlib.Core.Path.{◌≡◌, refl, ap, ◌∙◌}
use mathlib.Core.Bool.{Bool, true, false}
use mathlib.Core.List.{List, [], ◌∷◌, ◌++◌}
use native.Mathlib.Omega.{arith}
use mathlib.Core.Logic.{inl, inr}
use clicksync.Base.Tests.{Bool-cases}
use clicksync.Base.Lists.{All, length, take}
use clicksync.Base.Storage.{keep, filter_by, insert_by, order_by}

module _ {A : Type 0} (key : A → ℕ) where
  abbrev pub Ascends : ℕ → List A → Type 0
  Ascends n [] = Unit
  Ascends n (x ∷ xs) = (n ≤ key x) × Ascends (suc (key x)) xs

  pub Ascends-le : (m n : ℕ) (xs : List A) → m ≤ n → Ascends n xs → Ascends m xs
  Ascends-le m n [] h a = tt
  Ascends-le m n (x ∷ xs) h a = (let b = a.0 in omega arith, a.1)

  pub Ascends-All : (n : ℕ) (xs : List A) → Ascends n xs → All (λ x. n ≤ key x) xs
  Ascends-All n [] a = tt
  Ascends-All n (x ∷ xs) a =
      (a.0, Ascends-All n xs (Ascends-le n (suc (key x)) xs (let b = a.0 in omega arith) a.1))

  pub keep-Ascends :
      (mask : List Bool) (n : ℕ) (xs : List A) → Ascends n xs → Ascends n (keep mask xs)
  keep-Ascends [] n xs a = tt
  keep-Ascends (b ∷ mask) n [] a = tt
  keep-Ascends (true ∷ mask) n (x ∷ xs) a = (a.0, keep-Ascends mask (suc (key x)) xs a.1)
  keep-Ascends (false ∷ mask) n (x ∷ xs) a =
      keep-Ascends mask n xs (Ascends-le n (suc (key x)) xs (let b = a.0 in omega arith) a.1)

  pub take-Ascends : (k n : ℕ) (xs : List A) → Ascends n xs → Ascends n (take k xs)
  take-Ascends zero n xs a = tt
  take-Ascends (suc k) n [] a = tt
  take-Ascends (suc k) n (x ∷ xs) a = (a.0, take-Ascends k (suc (key x)) xs a.1)

  -- Rows that are in order already stay as they are.
  pub order_by-Ascends :
      (after : A → A → Bool)
      → ((x y : A) → key x < key y → after x y ≡ false)
      → (n : ℕ) (xs : List A) → Ascends n xs
      → order_by after xs ≡ xs
  unfolding order_by
  order_by-Ascends after ok n [] a = refl
  order_by-Ascends after ok n (x ∷ xs) a =
      rw (order_by-Ascends after ok (suc (key x)) xs a.1) (first xs a.1)
    where
      first : (ys : List A) → Ascends (suc (key x)) ys → insert_by after x ys ≡ x ∷ ys
      first [] b = refl
      first (y ∷ ys) b = rw (ok x y (b.0)) refl

module _ {A : Type 0} where
  pub keep-All : (P : A → Type 0) (mask : List Bool) (xs : List A) → All P xs → All P (keep mask xs)
  keep-All P [] xs a = tt
  keep-All P (b ∷ mask) [] a = tt
  keep-All P (true ∷ mask) (x ∷ xs) a = (a.0, keep-All P mask xs a.1)
  keep-All P (false ∷ mask) (x ∷ xs) a = keep-All P mask xs a.1

  pub length-keep-le : (mask : List Bool) (xs : List A) → length (keep mask xs) ≤ length xs
  length-keep-le [] xs = omega arith
  length-keep-le (b ∷ mask) [] = omega arith
  length-keep-le (true ∷ mask) (x ∷ xs) = let rest = length-keep-le mask xs in omega arith
  length-keep-le (false ∷ mask) (x ∷ xs) = let rest = length-keep-le mask xs in omega arith

  -- A part with as many rows is the whole.
  pub keep_whole :
      (mask : List Bool) (xs : List A) → length (keep mask xs) ≡ length xs → keep mask xs ≡ xs
  keep_whole [] [] h = refl
  keep_whole [] (x ∷ xs) h = absurd (omega arith)
  keep_whole (b ∷ mask) [] h = refl
  keep_whole (true ∷ mask) (x ∷ xs) h = ap (◌∷◌ x) (keep_whole mask xs (omega arith))
  keep_whole (false ∷ mask) (x ∷ xs) h = let less = length-keep-le mask xs in absurd (omega arith)

  pub keep_nothing :
      (mask : List Bool) (xs : List A) → length (keep mask xs) ≡ 0 → keep mask xs ≡ []
  keep_nothing mask xs h = empty (keep mask xs) h
    where
      empty : (ys : List A) → length ys ≡ 0 → ys ≡ []
      empty [] e = refl
      empty (y ∷ ys) e = absurd (omega arith)

  pub filter_by-append :
      (p : A → Bool) (xs ys : List A) → filter_by p (xs ++ ys) ≡ filter_by p xs ++ filter_by p ys
  unfolding filter_by
  filter_by-append p [] ys = refl
  filter_by-append p (x ∷ xs) ys = ground (arith, filter_by-append p xs ys)

  pub filter_by-none :
      (p : A → Bool) (xs : List A) → All (λ x. p x ≡ false) xs → filter_by p xs ≡ []
  unfolding filter_by
  filter_by-none p [] h = refl
  filter_by-none p (x ∷ xs) h = rw h.0 (filter_by-none p xs h.1)

  pub filter_by-all : (p : A → Bool) (xs : List A) → All (λ x. p x ≡ true) xs → filter_by p xs ≡ xs
  unfolding filter_by
  filter_by-all p [] h = refl
  filter_by-all p (x ∷ xs) h = rw h.0 (ap (◌∷◌ x) (filter_by-all p xs h.1))

  pub All-map : (P Q : A → Type 0) → ((x : A) → P x → Q x) → (xs : List A) → All P xs → All Q xs
  All-map P Q f [] h = tt
  All-map P Q f (x ∷ xs) h = (f x h.0, All-map P Q f xs h.1)

  pub take-All : (P : A → Type 0) (k : ℕ) (xs : List A) → All P xs → All P (take k xs)
  take-All P zero xs a = tt
  take-All P (suc k) [] a = tt
  take-All P (suc k) (x ∷ xs) a = (a.0, take-All P k xs a.1)

  length-insert_by :
      (after : A → A → Bool) (x : A) (xs : List A) → length (insert_by after x xs) ≡ suc (length xs)
  unfolding insert_by
  length-insert_by after x [] = refl
  length-insert_by after x (y ∷ ys) =
      let rest = length-insert_by after x ys in
      elim (Bool-cases (after x y)) [ inl e ↦ rw e (omega arith) | inr e ↦ rw e (omega arith) ]

  pub length-order_by :
      (after : A → A → Bool) (xs : List A) → length (order_by after xs) ≡ length xs
  unfolding order_by
  length-order_by after [] = refl
  length-order_by after (x ∷ xs) =
      length-insert_by after x (order_by after xs) ∙ ap suc (length-order_by after xs)

  -- Where the test tells new rows from old ones, it selects the new ones.
  pub filter_by-new :
      (p : A → Bool) (old new : List A)
      → All (λ x. p x ≡ false) old
      → All (λ x. p x ≡ true) new
      → filter_by p (old ++ new) ≡ new
  filter_by-new p old new none_old all_new =
      filter_by-append p old new
      ∙ (ap (λ l. l ++ filter_by p new) (filter_by-none p old none_old)
          ∙ filter_by-all p new all_new)
