-- ===== src/Pipeline/Ordered/Placement.antt =====
-- Where the results of internal/pipeline/ordered.go belong: the n-th one to the n-th event of the input.
use clicksync.Base.{
  ℕ, zero, suc, ◌+◌, ◌≤◌, ◌<◌, List, [], ◌∷◌, ◌++◌, ◌==◌, nat_eq, none, some, Result, ok, length,
  Bool, true, false, drop, get_elem?, All, ◌≡◌, arith, Bool-cases, Option-cases, ap, sym, ◌∙◌,
  ==→eq, subst, inl, inr,
}
use clicksync.Pipeline.Ordered.{Event, Value, forward, rollback, Item, find, delete, put, pick}

-- A decoder that makes something of a value although its context is done makes the same of it before.
abbrev pub IsSteady : {I O E : Type 0} → (Bool → I → Result E O) → Type 0
IsSteady {I} {O} decode = (i : I) (o : O) → decode true i ≡ ok o → decode false i ≡ ok o

module _ {I O R E : Type 0} (decode : Bool → I → Result E O) where
  -- The value that an event gives: its decoded forward, or its rollback.
  abbrev pub Gives : Event I R → Value O R → Type 0
  Gives e (forward o) = (i : I) × (e.forward ≡ some i) × (decode false i ≡ ok o)
  Gives e (rollback r) = (e.forward ≡ none) × (e.rollback ≡ some r)

  -- The output is, from the n-th event on, one value for each event, in the order of the events and
  -- numbered by them.
  abbrev pub InOrder : ℕ → List (Event I R) → List (ℕ × Value O R) → Type 0
  InOrder n es [] = Unit
  InOrder n [] (o ∷ os) = ⊥
  InOrder n (e ∷ es) ((k, v) ∷ os) = (k ≡ n) × (Gives e v × InOrder (suc n) es os)

  pub InOrder-append :
      (n : ℕ) (es : List (Event I R)) (os : List (ℕ × Value O R)) (e : Event I R) (v : Value O R)
      → InOrder n es os
      → get_elem? es (length os) ≡ some e
      → Gives e v
      → InOrder n es (os ++ ((n + length os, v) ∷ []))
  InOrder-append n [] [] e v h at g = cc
  InOrder-append n (x ∷ es) [] e v h at g =
      let same : e ≡ x = cc in (omega arith, (subst (λ y. Gives y v) same g, tt))
  InOrder-append n [] (o ∷ os) e v h at g = absurd h
  InOrder-append n (x ∷ es) ((k, w) ∷ os) e v (here, (gives, later)) at g =
      let shift : suc n + length os ≡ n + suc (length os) = omega arith in
      let rest = InOrder-append (suc n) es os e v later at g in
      (here, (gives, subst (λ m. InOrder (suc n) es (os ++ ((m, v) ∷ []))) shift rest))

  pub InOrder-length :
      (n : ℕ) (es : List (Event I R)) (os : List (ℕ × Value O R))
      → InOrder n es os
      → length os ≤ length es
  InOrder-length n es [] h = omega arith
  InOrder-length n [] (o ∷ os) h = absurd h
  InOrder-length n (e ∷ es) ((k, v) ∷ os) h =
      let rest = InOrder-length (suc n) es os h.1.1 in omega arith

module _ {A : Type 0} where
  -- What is next in a list, and what follows it.
  pub drop-next :
      (n : ℕ) (xs : List A) {x : A} {rest : List A}
      → drop n xs ≡ x ∷ rest
      → (get_elem? xs n ≡ some x) × (drop (suc n) xs ≡ rest) × (n < length xs)
  drop-next zero [] h = cc
  drop-next (suc n) [] h = cc
  drop-next zero (y ∷ xs) h = (cc, cc, omega arith)
  drop-next (suc n) (y ∷ xs) h =
      let (here, after, small) = drop-next n xs h in (here, after, omega arith)

  pub drop-end : (n : ℕ) (xs : List A) → drop n xs ≡ [] → length xs ≤ n
  drop-end n [] h = omega arith
  drop-end zero (y ∷ xs) h = cc
  drop-end (suc n) (y ∷ xs) h = let small = drop-end n xs h in omega arith

  pub pick-All :
      (P : A → Type 0) (k : ℕ) (xs : List A) {x : A} {rest : List A}
      → pick k xs ≡ some (x, rest)
      → All P xs
      → P x × All P rest
  unfolding pick
  pick-All P k [] h ps = cc
  pick-All P zero (y ∷ xs) {x} {rest} h (p, ps) =
      let first : y ≡ x = cc in
      let others : xs ≡ rest = cc in (subst P first p, subst (All P) others ps)
  pick-All P (suc k) (y ∷ xs) {x} {rest} h (p, ps) = elim (Option-cases (pick k xs)) [
    | inl missing ↦ let e : none ≡ some (x, rest) = rw missing at h in cc
    | inr ((z, zs), found) ↦
        let e : some (z, y ∷ zs) ≡ some (x, rest) = rw found at h in
        let (pz, pzs) = pick-All P k xs found ps in
        let same : z ≡ x = cc in
        let others : y ∷ zs ≡ rest = cc in (subst P same pz, subst (All P) others (p, pzs))
  ]

module _ {O R : Type 0} (P : Item O R → Type 0) where
  pub find-All :
      (n : ℕ) (is : List (Item O R)) {i : Item O R}
      → find n is ≡ some i
      → All P is
      → (i.sequence ≡ n) × P i
  unfolding find
  find-All n [] h ps = cc
  find-All n (j ∷ is) {i} h (p, ps) = elim (Bool-cases (j.sequence == n)) [
    | inl hit ↦
        let e : some j ≡ some i = rw hit at h in
        let same : j ≡ i = cc in
        (ap (λ k. k.sequence) (sym same) ∙ ==→eq j.sequence n hit, subst P same p)
    | inr miss ↦ find-All n is (rw miss at h) ps
  ]

  pub delete-All : (n : ℕ) (is : List (Item O R)) → All P is → All P (delete n is)
  unfolding delete
  delete-All n [] ps = tt
  delete-All n (i ∷ is) (p, ps) = elim (Bool-cases (i.sequence == n)) [
    | inl e ↦ rw e (delete-All n is ps)
    | inr e ↦ rw e (p, delete-All n is ps)
  ]

  pub put-All : (i : Item O R) (is : List (Item O R)) → P i → All P is → All P (put i is)
  unfolding put
  put-All i is p ps = (p, delete-All i.sequence is ps)
