-- ===== src/Store/Recovery/Intersections/Offers.antt =====
-- What the candidates of `intersectionCandidates` of internal/store/recovery.go are.
use clicksync.Base.{ℕ, ◌*◌, ◌≤◌, ◌<◌, List, ◌∷◌, length, true, ◌≡◌}
use clicksync.Model.{Point, point_eq}
use clicksync.Store.Types.{State}
use clicksync.Store.Recovery.Candidates.{at_distance, last_point, dense, geometric_samples}
use clicksync.Store.Recovery.PointLists.{has, Distinct, AreOf}
use clicksync.Store.Recovery.Intersections.{doubled, points_of, recent_points}

-- The points offered for a state: its recent blocks, samples of the older ones at doubling
-- distances, the oldest of them and the start of the dataset.
pub record Offers (s : State) (cs : List Point) : Type 0 where
  distinct : Distinct cs
  recent : AreOf cs (recent_points s.canonical)
  spread :
      (k : ℕ) → k < geometric_samples → AreOf cs (at_distance s.canonical (doubled k (dense * 2)))
  oldest : AreOf cs (last_point s.canonical)
  start : has cs s.dataset.start ≡ true
  only : AreOf (s.dataset.start ∷ s.tip ∷ points_of s.canonical) cs
  size : length cs ≤ 67
