-- ===== src/Base/Storage.antt =====
-- What a table keeps of a batch, and rows in the order of a query.
use mathlib.Core.Bool.{Bool, true, false}
use mathlib.Core.Option.{Option, none, some}
use mathlib.Core.List.{List, [], ◌∷◌}
use Prim.Native.Nat.{ℕ}
use clicksync.Base.Tests.{if◌then◌else◌}

-- What becomes of a batch: it is acknowledged, or there is an error, and the table may have kept any
-- part of it.
pub data Fate (E : Type 0) : Type 0 where
  acknowledged : Fate E
  failed : E → List Bool → Fate E

-- What becomes of a query: all rows arrive, or some first ones and then an error.
pub data Reading (E : Type 0) : Type 0 where
  whole : Reading E
  broken : ℕ → E → Reading E

abbrev pub error_of : {E : Type 0} → Fate E → Option E
error_of acknowledged = none
error_of (failed e mask) = some e

module _ {A : Type 0} where
  abbrev pub keep : List Bool → List A → List A
  keep [] rows = []
  keep (b ∷ mask) [] = []
  keep (true ∷ mask) (row ∷ rows) = row ∷ keep mask rows
  keep (false ∷ mask) (row ∷ rows) = keep mask rows

  abbrev pub kept : {E : Type 0} → Fate E → List A → List A
  kept acknowledged rows = rows
  kept (failed e mask) rows = keep mask rows

  -- `WHERE`
  unfoldable pub filter_by : (A → Bool) → List A → List A
  filter_by p [] = []
  filter_by p (x ∷ xs) = let rest = filter_by p xs in if p x then x ∷ rest else rest

  -- `ORDER BY`, where the test is whether the second row comes before the first.
  unfoldable pub insert_by : (A → A → Bool) → A → List A → List A
  insert_by after x [] = x ∷ []
  insert_by after x (y ∷ ys) =
      let rest = insert_by after x ys in if after x y then y ∷ rest else x ∷ y ∷ ys

  unfoldable pub order_by : (A → A → Bool) → List A → List A
  unfolding insert_by
  order_by after [] = []
  order_by after (x ∷ xs) = insert_by after x (order_by after xs)
