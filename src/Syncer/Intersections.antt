-- ===== src/Syncer/Intersections.antt =====
-- internal/syncer/runner.go, commonIntersection and doubledDuration: what the relays resume from.
use clicksync.Base.{
  ℕ, suc, ◌+◌, ◌-◌, ◌*◌, ◌/◌, ◌≤◌, ◌<◌, List, [], ◌∷◌, Bool, true, false, ◌&&◌, ◌||◌, ◌==◌, ◌!=◌,
  nat_eq, ltb, leb, Option, none, some, Result, ok, err, drop, get_elem?, All, if◌then◌else◌, ◌≡◌,
  refl, ◌⊎◌, inl, inr, arith, Bool-cases, Option-cases, ==→eq, ap, sym, ◌∙◌, subst, ◌>>=◌,
  >>=-eq-ok, ◌^◌,
}
use clicksync.Model.{Point, point_eq}

pub data Error : Type 0 where
  nothing_chosen index_out_of_range : Error
  unknown_intersection : ℕ → Error

-- The inner loop: the first index of the point, from `index` on.
unfoldable pub candidate_index : Point → ℕ → List Point → Option ℕ
candidate_index point index [] = none
candidate_index point index (candidate ∷ candidates) =
    if candidate == point then some index else candidate_index point (suc index) candidates

-- `oldestIndex`, where `none` is -1.
unfoldable pub older : Option ℕ → ℕ → ℕ
older none index = index
older (some oldest) index = if ltb oldest index then index else oldest

-- The body of the loop: `same` and `oldestIndex` after the point at `index`.
unfoldable pub noticed : Point → ℕ → Point → Bool → Option ℕ → Option ℕ → Result Error (Bool × ℕ)
noticed first index point same oldest none = err (unknown_intersection index)
noticed first index point same oldest (some found) =
    ok (if ltb 0 index && point != first then false else same, older oldest found)

-- The loop over the points from `index` on.
unfoldable pub survey :
    List Point → Point → ℕ → List Point → Bool → Option ℕ → Result Error (Bool × Option ℕ)
unfolding candidate_index
survey candidates first index [] same oldest = ok (same, oldest)
survey candidates first index (point ∷ points) same oldest = do
  (same', oldest') ← noticed first index point same oldest (candidate_index point 0 candidates)
  survey candidates first (suc index) points same' (some oldest')

-- `fallback` and `same`. The last slice is out of range if no point was looked at.
unfoldable pub resumed : List Point → Bool × Option ℕ → Result Error (List Point × Bool)
resumed candidates (true, oldest) = ok ([], true)
resumed candidates (false, none) = err index_out_of_range
resumed candidates (false, some oldest) = ok (drop oldest candidates, false)

unfoldable pub common_intersection : List Point → List Point → Result Error (List Point × Bool)
common_intersection candidates [] = err nothing_chosen
common_intersection candidates (point ∷ points) = do
  survey candidates point 0 (point ∷ points) true none >>= resumed candidates

-- A `time.Duration` is an int64; those of the runner are not negative.
unfoldable pub doubled_duration : ℕ → ℕ → ℕ
doubled_duration value maximum =
    if leb maximum value || ltb ((2 ^ 63 - 1) / 2) value
    then maximum
    else if ltb maximum (value * 2)
    then maximum
    else value * 2

-- The point is among the candidates, at an index up to `oldest`.
abbrev Within : List Point → ℕ → Point → Type 0
Within candidates oldest p = (i : ℕ) × (get_elem? candidates i ≡ some p) × (i ≤ oldest)

candidate_index_sound :
    (p : Point) (k : ℕ) (candidates : List Point) (i : ℕ)
    → candidate_index p k candidates ≡ some i
    → (j : ℕ) × (i ≡ k + j) × (get_elem? candidates j ≡ some p)
unfolding candidate_index
candidate_index_sound p k [] i h = cc
candidate_index_sound p k (c ∷ candidates) i h = elim (Bool-cases (c == p)) [
  | inl e ↦
      let here : some k ≡ some i = rw e at h in
      let same : k ≡ i = cc in (0, omega arith, ap some (==→eq c p e))
  | inr e ↦
      let (j, at, found) = candidate_index_sound p (suc k) candidates i (rw e at h) in
      (suc j, omega arith, found)
]

-- What the loop adds to its variables over the points that it still passes.
record Surveyed (candidates : List Point) (first : Point) (points : List Point) (same same' : Bool)
    (oldest oldest' : ℕ) : Type 0 where
  within : All (Within candidates oldest') points
  rises : oldest ≤ oldest'
  chosen :
      (oldest' ≡ oldest)
      ⊎ ((k : ℕ) × (p : Point) × (get_elem? points k ≡ some p)
          × (get_elem? candidates oldest' ≡ some p))
  all_same : same' ≡ true → (same ≡ true) × All (λ p. p ≡ first) points
  stays : same ≡ true → All (λ p. p ≡ first) points → same' ≡ true

Within-le :
    (candidates : List Point) (m n : ℕ) (p : Point)
    → m ≤ n
    → Within candidates m p
    → Within candidates n p
Within-le candidates m n p h (i, at, below) = (i, at, omega arith)

older-cases : (o i : ℕ) → ((older (some o) i ≡ o) × (i ≤ o)) ⊎ ((older (some o) i ≡ i) × (o ≤ i))
unfolding older
older-cases o i = ground arith

still_same :
    (index : ℕ) (first p : Point) (same : Bool)
    → 0 < index
    → (if ltb 0 index && p != first then false else same) ≡ true
    → (same ≡ true) × (p ≡ first)
still_same index first p same h e = ground arith

chosen_step :
    (candidates : List Point) (p : Point) (points : List Point) (oldest i n : ℕ)
    → get_elem? candidates i ≡ some p
    → ((older (some oldest) i ≡ oldest) × (i ≤ oldest))
      ⊎ ((older (some oldest) i ≡ i) × (oldest ≤ i))
    → (n ≡ older (some oldest) i)
      ⊎ ((k : ℕ) × (q : Point) × (get_elem? points k ≡ some q) × (get_elem? candidates n ≡ some q))
    → (n ≡ oldest)
      ⊎ ((k : ℕ) × (q : Point) × (get_elem? (p ∷ points) k ≡ some q)
          × (get_elem? candidates n ≡ some q))
chosen_step candidates p points oldest i n here which (inr (k, q, a, b)) = inr (suc k, q, a, b)
chosen_step candidates p points oldest i n here (inl (e, l)) (inl m) = inl (m ∙ e)
chosen_step candidates p points oldest i n here (inr (e, l)) (inl m) =
    inr (0, p, refl, subst (λ k. get_elem? candidates k ≡ some p) (sym (m ∙ e)) here)

kept_same :
    (index : ℕ) (first p : Point) (same : Bool)
    → p ≡ first
    → same ≡ true
    → (if ltb 0 index && p != first then false else same) ≡ true
kept_same index first p same e t = ground arith

survey-Surveyed :
    (candidates : List Point) (first : Point) (index : ℕ) (points : List Point) (same same' : Bool)
    (oldest : ℕ) (oldest' : Option ℕ)
    → 0 < index
    → survey candidates first index points same (some oldest) ≡ ok (same', oldest')
    → (n : ℕ) × (oldest' ≡ some n) × Surveyed candidates first points same same' oldest n
unfolding survey noticed
survey-Surveyed candidates first index [] same same' oldest oldest' h e =
    let o : some oldest ≡ oldest' = cc in
    let s : same ≡ same' = cc in
    (
      oldest,
      sym o,
      record {
        within = tt;
        rises = omega arith;
        chosen = inl refl;
        all_same = λ t. (s ∙ t, tt);
        stays = λ t all. sym s ∙ t;
      },
    )
survey-Surveyed candidates first index (p ∷ points) same same' oldest oldest' h e =
    elim (Option-cases (candidate_index p 0 candidates)) [
      | inl missing ↦
          let refused : err (unknown_intersection index) ≡ ok (same', oldest') = rw missing at e in
          cc
      | inr (i, found) ↦
          let (j, at, here) = candidate_index_sound p 0 candidates i found in
          let (n, is_n, later) =
            survey-Surveyed candidates first (suc index) points
              (if ltb 0 index && p != first then false else same) same' (older (some oldest) i)
              oldest' (omega arith) (rw found at e) in
          let rises = later.rises in
          let which = older-cases oldest i in
          (
            n,
            is_n,
            record {
              within = (
                (i, subst (λ k. get_elem? candidates k ≡ some p) (omega arith) here, omega arith),
                later.within,
              );
              rises = omega arith;
              chosen =
                  chosen_step candidates p points oldest i n
                    (subst (λ k. get_elem? candidates k ≡ some p) (omega arith) here) which
                    later.chosen;
              all_same = λ t.
                  let (s, rest) = later.all_same t in
                  let (s', eq) = still_same index first p same h s in (s', (eq, rest));
              stays = λ t (eq, rest). later.stays (kept_same index first p same eq t) rest;
            },
          )
    ]

-- The relays chose one point, or they did not, and resume from the oldest of the points they chose.
pub data Common (candidates : List Point) (p : Point) (points : List Point)
    : List Point → Bool → Type 0 where
  agreed :
      All (λ q. q ≡ p) points
      → (i : ℕ) → get_elem? candidates i ≡ some p
      → Common candidates p points [] true
  resume :
      ¬ (All (λ q. q ≡ p) points)
      → (n : ℕ) → All (Within candidates n) (p ∷ points)
      → (k : ℕ) (q : Point) → get_elem? (p ∷ points) k ≡ some q
      → get_elem? candidates n ≡ some q
      → Common candidates p points (drop n candidates) false

-- The first point, on its own.
survey_first :
    (candidates : List Point) (p : Point) (points : List Point) (r : Bool × Option ℕ)
    → survey candidates p 0 (p ∷ points) true none ≡ ok r
    → (i : ℕ) × (get_elem? candidates i ≡ some p)
      × (survey candidates p 1 points true (some i) ≡ ok r)
unfolding survey noticed older
survey_first candidates p points r h = elim (Option-cases (candidate_index p 0 candidates)) [
  | inl missing ↦ let refused : err (unknown_intersection 0) ≡ ok r = rw missing at h in cc
  | inr (i, found) ↦
      let (j, at, here) = candidate_index_sound p 0 candidates i found in
      (i, subst (λ k. get_elem? candidates k ≡ some p) (omega arith) here, rw found at h)
]

concluded :
    (candidates : List Point) (p : Point) (points : List Point) (i n : ℕ) (same' : Bool)
    → get_elem? candidates i ≡ some p
    → Surveyed candidates p points true same' i n
    → (r : List Point × Bool) → resumed candidates (same', some n) ≡ ok r
    → Common candidates p points r.0 r.1
unfolding resumed
concluded candidates p points i n true here v r h =
    let e : ([], true) ≡ r = cc in
    subst (λ r. Common candidates p points r.0 r.1) e (agreed (v.all_same refl).1 i here)
concluded candidates p points i n false here v r h =
    let e : (drop n candidates, false) ≡ r = cc in
    let differ : ¬ (All (λ q. q ≡ p) points) = λ all. let t = v.stays refl all in cc in
    let within : All (Within candidates n) (p ∷ points) = ((i, here, v.rises), v.within) in
    subst (λ r. Common candidates p points r.0 r.1) e
      (elim v.chosen [
        | inl m ↦
            resume differ n within 0 p refl
              (subst (λ k. get_elem? candidates k ≡ some p) (sym m) here)
        | inr (k, q, a, b) ↦ resume differ n within (suc k) q a b
      ])

-- A selection that commonIntersection accepts is of one candidate, by all relays, and nothing is left
-- to try; or the relays chose different points, and what is left to try are the candidates from the
-- last one in the list that a relay chose, while every relay chose a candidate at or before it.
pub common_intersection-Common :
    (candidates : List Point) (p : Point) (points : List Point) (fallback : List Point)
    (same : Bool)
    → common_intersection candidates (p ∷ points) ≡ ok (fallback, same)
    → Common candidates p points fallback same
unfolding common_intersection
common_intersection-Common candidates p points fallback same h =
    let ((same', oldest), e, r) =
      >>=-eq-ok (survey candidates p 0 (p ∷ points) true none) (resumed candidates) h in
    let (i, here, rest) = survey_first candidates p points (same', oldest) e in
    let (n, is_n, v) =
      survey-Surveyed candidates p 1 points true same' i oldest (omega arith) rest in
    concluded candidates p points i n same' here v (fallback, same)
      (subst (λ o. resumed candidates (same', o) ≡ ok (fallback, same)) is_n r)
