-- ===== src/Store/Recovery/Intersections.antt =====
-- The points that `intersectionCandidates` of internal/store/recovery.go offers to the relays.
use clicksync.Base.{
  ℕ, zero, suc, ◌+◌, ◌-◌, ◌*◌, ◌≤◌, ◌<◌, List, [], ◌∷◌, ◌++◌, map, take, length, length-append,
  length-map, length-take, get_elem?, Bool, true, false, not, ◌&&◌, ◌||◌, ◌==◌, ◌!=◌, nat_eq, leb,
  Option, none, some, if◌then◌else◌, any, All, All-append, ◌≡◌, refl, ap, sym, ◌∙◌, ◌⊎◌, inl, inr,
  subst, arith, Bool-cases, Option-cases, ==→eq, ==_refl, min,
}
use clicksync.Model.{Point, Point-dec, point_eq}
use clicksync.Store.Types.{CanonicalBlock, State}
use clicksync.Store.Recovery.Candidates.{
  append_point, append_points, at_distance, geometric, last_point, dense, geometric_samples,
  sampled_points, or_tip, intersection_candidates,
}
pub mod Offers
use clicksync.Store.Recovery.PointLists.{
  has, Distinct, has-append, append_point-Distinct, has-append_point, append_points-Distinct,
  has-append_points, length-append_point, length-append_points, AreOf, AreOf-each, AreOf-has,
  AreOf-later, AreOf-left,
}

length-at_distance : (blocks : List CanonicalBlock) (d : ℕ) → length (at_distance blocks d) ≤ 1
length-at_distance blocks d = elim (Option-cases (get_elem? blocks (d - 1))) [
  | inl e ↦ rw e (omega arith)
  | inr (b, e) ↦ rw e (omega arith)
]

length-geometric :
    (blocks : List CanonicalBlock) (samples d : ℕ) → length (geometric blocks samples d) ≤ samples
unfolding geometric
length-geometric blocks zero d = omega arith
length-geometric blocks (suc samples) d =
    let one = length-at_distance blocks d in
    let rest = length-geometric blocks samples (d * 2) in
    let both = length-append (at_distance blocks d) (geometric blocks samples (d * 2)) in
    elim (Bool-cases (leb d (length blocks))) [
      | inl e ↦ rw e (omega arith)
      | inr e ↦ rw e (omega arith)
    ]

pub length-last_point : (bs : List CanonicalBlock) → length (last_point bs) ≤ 1
length-last_point [] = omega arith
length-last_point (b ∷ []) = omega arith
length-last_point (b ∷ c ∷ bs) = length-last_point (c ∷ bs)

-- Whatever is on the list is among the points of the blocks.
abbrev pub points_of : List CanonicalBlock → List Point
points_of blocks = map (λ (b : CanonicalBlock). b.point) blocks

get_elem?-has :
    (blocks : List CanonicalBlock) (i : ℕ) (b : CanonicalBlock)
    → get_elem? blocks i ≡ some b
    → has (points_of blocks) b.point ≡ true
get_elem?-has [] i b h = cc
get_elem?-has (x ∷ blocks) zero b h =
    let e : x ≡ b = cc in
    let same : (x.point == b.point) ≡ true =
      subst (λ y. (x.point == y.point) ≡ true) e (==_refl x.point) in
    ground arith
get_elem?-has (x ∷ blocks) (suc i) b h = ground (arith, get_elem?-has blocks i b h)

at_distance-AreOf :
    (blocks : List CanonicalBlock) (d : ℕ) → AreOf (points_of blocks) (at_distance blocks d)
at_distance-AreOf blocks d = elim (Option-cases (get_elem? blocks (d - 1))) [
  | inl e ↦ rw e tt
  | inr (b, e) ↦ rw e (get_elem?-has blocks (d - 1) b e, tt)
]

geometric-AreOf :
    (blocks : List CanonicalBlock) (samples d : ℕ)
    → AreOf (points_of blocks) (geometric blocks samples d)
unfolding geometric
geometric-AreOf blocks zero d = tt
geometric-AreOf blocks (suc samples) d = elim (Bool-cases (leb d (length blocks))) [
  | inl e ↦ rw e (
      All-append _ (at_distance blocks d) (geometric blocks samples (d * 2))
        (at_distance-AreOf blocks d) (geometric-AreOf blocks samples (d * 2)))
  | inr e ↦ rw e tt
]

-- The distance after `k` doublings.
abbrev pub doubled : ℕ → ℕ → ℕ
doubled zero d = d
doubled (suc k) d = doubled k (d * 2)

doubled-ge : (k d : ℕ) → d ≤ doubled k d
doubled-ge zero d = omega arith
doubled-ge (suc k) d = let rest = doubled-ge k (d * 2) in omega arith

at_distance-beyond :
    (blocks : List CanonicalBlock) (d : ℕ) → length blocks < d → at_distance blocks d ≡ []
at_distance-beyond blocks d h = rw (get_elem?-beyond blocks (d - 1) (omega arith))
  where
    get_elem?-beyond : (xs : List CanonicalBlock) (i : ℕ) → length xs ≤ i → get_elem? xs i ≡ none
    get_elem?-beyond [] i h = refl
    get_elem?-beyond (x ∷ xs) zero h = absurd (omega arith)
    get_elem?-beyond (x ∷ xs) (suc i) h = get_elem?-beyond xs i (omega arith)

nothing_beyond :
    (all : List Point) (blocks : List CanonicalBlock) (d : ℕ)
    → length blocks < d
    → AreOf all (at_distance blocks d)
nothing_beyond all blocks d h = rw (at_distance-beyond blocks d h) tt

pub geometric-has :
    (blocks : List CanonicalBlock) (samples d k : ℕ)
    → k < samples
    → AreOf (geometric blocks samples d) (at_distance blocks (doubled k d))
unfolding geometric
geometric-has blocks zero d k h = absurd (omega arith)
geometric-has blocks (suc samples) d zero h = elim (Bool-cases (leb d (length blocks))) [
  | inl e ↦ rw e (AreOf-left (at_distance blocks d) (geometric blocks samples (d * 2)))
  | inr e ↦ nothing_beyond _ blocks d (ground arith)
]
geometric-has blocks (suc samples) d (suc k) h = elim (Bool-cases (leb d (length blocks))) [
  | inl e ↦ rw e (
      AreOf-later (at_distance blocks d) (geometric blocks samples (d * 2)) _
        (geometric-has blocks samples (d * 2) k (omega arith)))
  | inr e ↦
      let far = doubled-ge k (d * 2) in nothing_beyond _ blocks (doubled k (d * 2)) (ground arith)
]

pub last_point-AreOf : (bs : List CanonicalBlock) → AreOf (points_of bs) (last_point bs)
last_point-AreOf [] = tt
last_point-AreOf (b ∷ []) = let same = ==_refl b.point in (ground arith, tt)
last_point-AreOf (b ∷ c ∷ bs) =
    AreOf-later (b.point ∷ []) (points_of (c ∷ bs)) (last_point (c ∷ bs))
      (last_point-AreOf (c ∷ bs))

take-AreOf : (n : ℕ) (bs : List CanonicalBlock) → AreOf (points_of bs) (points_of (take n bs))
take-AreOf zero bs = tt
take-AreOf (suc n) [] = tt
take-AreOf (suc n) (b ∷ bs) =
    let same = ==_refl b.point in
    (ground arith, AreOf-later (b.point ∷ []) (points_of bs) _ (take-AreOf n bs))

-- What is sampled of the blocks.
abbrev pub recent_points : List CanonicalBlock → List Point
recent_points blocks = points_of (take dense blocks)

abbrev pub far_points : List CanonicalBlock → List Point
far_points blocks = geometric blocks geometric_samples (dense * 2)

pub has-sampled_points :
    (blocks : List CanonicalBlock) (q : Point)
    → has (sampled_points blocks) q ≡ (has (recent_points blocks) q || has (far_points blocks) q)
unfolding sampled_points
has-sampled_points blocks q =
    let recent = recent_points blocks in
    let far = far_points blocks in
    let outer = has-append_points (append_points [] recent) far q in
    let inner = has-append_points [] recent q in ground arith

pub sampled_points-Distinct : (blocks : List CanonicalBlock) → Distinct (sampled_points blocks)
unfolding sampled_points
sampled_points-Distinct blocks =
    append_points-Distinct _ (far_points blocks)
      (append_points-Distinct [] (recent_points blocks) tt)

pub sampled_points-AreOf :
    (blocks : List CanonicalBlock) → AreOf (points_of blocks) (sampled_points blocks)
sampled_points-AreOf blocks = AreOf-each _ _ (λ q e.
    elim (Bool-cases (has (recent_points blocks) q)) [
      | inl r ↦ AreOf-has _ (recent_points blocks) q (take-AreOf dense blocks) r
      | inr r ↦
          AreOf-has _ (far_points blocks) q (geometric-AreOf blocks geometric_samples (dense * 2))
            (ground (arith, has-sampled_points blocks q))
    ])

pub length-sampled_points :
    (blocks : List CanonicalBlock) → length (sampled_points blocks) ≤ dense + geometric_samples
unfolding sampled_points
length-sampled_points blocks =
    let recent = recent_points blocks in
    let far = far_points blocks in
    let outer = length-append_points (append_points [] recent) far in
    let inner = length-append_points [] recent in
    let mapped = length-map (λ (b : CanonicalBlock). b.point) (take dense blocks) in
    let taken = length-take dense blocks in
    let sampled = length-geometric blocks geometric_samples (dense * 2) in omega arith

-- What the tip adds.
pub or_tip-Distinct : (s : State) (cs : List Point) → Distinct cs → Distinct (or_tip s cs)
unfolding or_tip
or_tip-Distinct s cs d = elim (Bool-cases (length cs == 0 && s.tip != s.dataset.start)) [
  | inl e ↦ rw e (append_point-Distinct cs s.tip d)
  | inr e ↦ rw e d
]

pub or_tip-AreOf : (s : State) (cs : List Point) → AreOf (or_tip s cs) cs
unfolding or_tip
or_tip-AreOf s cs = elim (Bool-cases (length cs == 0 && s.tip != s.dataset.start)) [
  | inl e ↦ rw e (AreOf-each _ cs (λ q h. ground (arith, has-append_point cs s.tip q)))
  | inr e ↦ rw e (AreOf-each _ cs (λ q h. h))
]

pub or_tip-only :
    (s : State) (cs : List Point) (q : Point)
    → has (or_tip s cs) q ≡ true
    → has (s.tip ∷ cs) q ≡ true
unfolding or_tip
or_tip-only s cs q h =
    let added = has-append_point cs s.tip q in
    elim (Bool-cases (length cs == 0 && s.tip != s.dataset.start)) [
      | inl e ↦ ground arith
      | inr e ↦ ground arith
    ]

pub length-or_tip : (s : State) (cs : List Point) → length (or_tip s cs) ≤ suc (length cs)
unfolding or_tip
length-or_tip s cs =
    let added = length-append_point cs s.tip in
    elim (Bool-cases (length cs == 0 && s.tip != s.dataset.start)) [
      | inl e ↦ rw e added
      | inr e ↦ rw e (omega arith)
    ]
