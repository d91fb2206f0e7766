-- ===== src/Store/Recovery/PointLists.antt =====
-- Lists of points without duplicates, as internal/store/recovery.go gathers them.
use clicksync.Base.{
  suc, ◌+◌, ◌≤◌, List, [], ◌∷◌, ◌++◌, length, length-append, Bool, true, false, ◌||◌, ◌==◌, nat_eq,
  any, All, ◌≡◌, refl, ◌∙◌, inl, inr, subst, arith, Bool-cases, ==→eq, ==_refl,
}
use clicksync.Model.{Point, point_eq}
use clicksync.Store.Recovery.Candidates.{append_point, append_points}

abbrev pub has : List Point → Point → Bool
has ps p = any (λ (q : Point). q == p) ps

abbrev pub Distinct : List Point → Type 0
Distinct [] = Unit
Distinct (p ∷ ps) = (has ps p ≡ false) × Distinct ps

pub has-append : (ps qs : List Point) (p : Point) → has (ps ++ qs) p ≡ (has ps p || has qs p)
has-append [] qs p = refl
has-append (x ∷ ps) qs p = ground (arith, has-append ps qs p)

Distinct-concat :
    (ps : List Point) (p : Point) → Distinct ps → has ps p ≡ false → Distinct (ps ++ (p ∷ []))
Distinct-concat [] p d h = (refl, tt)
Distinct-concat (x ∷ ps) p (fresh, d) h =
    let later : has ps p ≡ false = ground arith in
    let other : (p == x) ≡ false = ground arith in
    (has-append ps (p ∷ []) x ∙ ground arith, Distinct-concat ps p d later)

pub append_point-Distinct :
    (ps : List Point) (p : Point) → Distinct ps → Distinct (append_point ps p)
unfolding append_point
append_point-Distinct ps p d = elim (Bool-cases (has ps p)) [
  | inl e ↦ rw e d
  | inr e ↦ rw e (Distinct-concat ps p d e)
]

pub has-append_point :
    (ps : List Point) (p q : Point) → has (append_point ps p) q ≡ (has ps q || p == q)
unfolding append_point
has-append_point ps p q = elim (Bool-cases (has ps p)) [
  | inl e ↦ rw e (absorbed e)
  | inr e ↦ rw e (has-append ps (p ∷ []) q ∙ ground arith)
]
  where
    absorbed : has ps p ≡ true → has ps q ≡ (has ps q || p == q)
    absorbed e = elim (Bool-cases (p == q)) [
      | inl same ↦
          let there : has ps q ≡ true = subst (λ r. has ps r ≡ true) (==→eq p q same) e in
          ground arith
      | inr other ↦ ground arith
    ]

pub append_points-Distinct : (cs ps : List Point) → Distinct cs → Distinct (append_points cs ps)
unfolding append_points
append_points-Distinct cs [] d = d
append_points-Distinct cs (p ∷ ps) d =
    append_points-Distinct (append_point cs p) ps (append_point-Distinct cs p d)

pub has-append_points :
    (cs ps : List Point) (q : Point) → has (append_points cs ps) q ≡ (has cs q || has ps q)
unfolding append_points
has-append_points cs [] q = ground arith
has-append_points cs (p ∷ ps) q =
    has-append_points (append_point cs p) ps q ∙ ground (arith, has-append_point cs p q)

pub length-append_point :
    (cs : List Point) (p : Point) → length (append_point cs p) ≤ suc (length cs)
unfolding append_point
length-append_point cs p =
    let longer = length-append cs (p ∷ []) in
    elim (Bool-cases (has cs p)) [ inl e ↦ rw e (omega arith) | inr e ↦ rw e (omega arith) ]

pub length-append_points :
    (cs ps : List Point) → length (append_points cs ps) ≤ length cs + length ps
unfolding append_points
length-append_points cs [] = omega arith
length-append_points cs (p ∷ ps) =
    let one = length-append_point cs p in
    let rest = length-append_points (append_point cs p) ps in omega arith

abbrev pub AreOf : List Point → List Point → Type 0
AreOf all ps = All (λ p. has all p ≡ true) ps

pub AreOf-each :
    (all ps : List Point) → ((q : Point) → has ps q ≡ true → has all q ≡ true) → AreOf all ps
AreOf-each all [] f = tt
AreOf-each all (p ∷ ps) f =
    let same = ==_refl p in (f p (ground arith), AreOf-each all ps (λ q e. f q (ground arith)))

pub AreOf-has :
    (all ps : List Point) (q : Point) → AreOf all ps → has ps q ≡ true → has all q ≡ true
AreOf-has all [] q a h = cc
AreOf-has all (p ∷ ps) q (here, rest) h = elim (Bool-cases (p == q)) [
  | inl e ↦ subst (λ r. has all r ≡ true) (==→eq p q e) here
  | inr e ↦ AreOf-has all ps q rest (ground arith)
]

pub AreOf-later : (xs ys zs : List Point) → AreOf ys zs → AreOf (xs ++ ys) zs
AreOf-later xs ys [] h = tt
AreOf-later xs ys (z ∷ zs) (here, rest) =
    (ground (arith, has-append xs ys z), AreOf-later xs ys zs rest)

pub AreOf-left : (xs ys : List Point) → AreOf (xs ++ ys) xs
AreOf-left xs ys = AreOf-each (xs ++ ys) xs (λ q e. ground (arith, has-append xs ys q))
