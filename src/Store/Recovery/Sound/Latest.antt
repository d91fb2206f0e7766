-- ===== src/Store/Recovery/Sound/Latest.antt =====
-- `latestCommittedAction` of internal/store/recovery.go finds the newest adoption or rollback.
use clicksync.Base.{
  ℕ, zero, suc, ◌≤◌, List, [], ◌∷◌, take, Bool, true, false, ◌==◌, nat_eq, ltb, Option, none, some,
  Result, ok, err, Result-cases, List-cases, Bool-cases, inl, inr, ◌>>=◌, All, ◌≡◌, refl, sym,
  subst, arith,
}
use clicksync.Base.Storage.{Reading, whole, broken, filter_by, insert_by, order_by}
use clicksync.Base.Ascending.{All-map}
use clicksync.Model.{point_eq}
use clicksync.Store.Tables.{ChainEvent, RollbackRow, adoption, kind_eq}
use clicksync.Store.Recovery.{
  Error, columns, newest_first, newest_rollback_first, latest_adoption_query, latest_rollback_query,
  LatestAction, scan_adoption, scan_rollback, latest_of, cut_short, over_latest, latest_adoption,
  latest_rollback, later_action, latest_committed_action,
}
use clicksync.Store.Recovery.Candidates.{snapshot_of}

-- The first row, if there is one, is as new as any.
abbrev AtMost : {Row : Type 0} → (Row → ℕ) → List Row → List Row → Type 0
AtMost key [] xs = xs ≡ []
AtMost key (newest ∷ rest) xs = All (λ x. key x ≤ key newest) xs

module _ {Row : Type 0} (key : Row → ℕ) (after : Row → Row → Bool)
    (yes_after : (a b : Row) → after a b ≡ true → key a ≤ key b)
    (not_after : (a b : Row) → after a b ≡ false → key b ≤ key a) where
  insert_by-AtMost :
      (x : Row) (ys xs : List Row) → AtMost key ys xs → AtMost key (insert_by after x ys) (x ∷ xs)
  unfolding insert_by
  insert_by-AtMost x [] xs h = (omega arith, subst (All (λ z. key z ≤ key x)) (sym h) tt)
  insert_by-AtMost x (y ∷ ys) xs h = elim (Bool-cases (after x y)) [
    | inl e ↦ rw e (yes_after x y e, h)
    | inr e ↦
        let above = not_after x y e in
        rw e (omega arith, All-map _ _ (λ z (k : key z ≤ key y). omega arith) xs h)
  ]

  order_by-AtMost : (xs : List Row) → AtMost key (order_by after xs) xs
  unfolding order_by
  order_by-AtMost [] = refl
  order_by-AtMost (x ∷ xs) = insert_by-AtMost x (order_by after xs) xs (order_by-AtMost xs)

  take_two-AtMost : (xs : List Row) → AtMost key (take 2 (order_by after xs)) xs
  take_two-AtMost xs =
      let all = order_by-AtMost xs in
      elim (List-cases (order_by after xs)) [
        | inl e ↦ rw e (subst (λ ys. AtMost key ys xs) e all)
        | inr (y, ys, e) ↦ rw e (subst (λ zs. AtMost key zs xs) e all)
      ]

latest_adoption_query-AtMost :
    (events : List ChainEvent)
    → AtMost
        (λ e. e.event_seq)
        (latest_adoption_query events)
        (filter_by (λ (e : ChainEvent). e.kind == adoption) events)
unfolding latest_adoption_query newest_first
latest_adoption_query-AtMost events =
    take_two-AtMost (λ e. e.event_seq) newest_first (λ a b h. ground arith) (λ a b h. ground arith)
      (filter_by (λ (e : ChainEvent). e.kind == adoption) events)

latest_rollback_query-AtMost :
    (rollbacks : List RollbackRow)
    → AtMost (λ rb. rb.event_seq) (latest_rollback_query rollbacks) rollbacks
unfolding latest_rollback_query newest_rollback_first
latest_rollback_query-AtMost rollbacks =
    take_two-AtMost (λ rb. rb.event_seq) newest_rollback_first (λ a b h. ground arith)
      (λ a b h. ground arith) rollbacks

-- An action that is found is that of the first row.
abbrev OfFirst :
    {E Row : Type 0}
    → (Row → Result (Error E) LatestAction)
    → List Row
    → Option LatestAction
    → Type 0
OfFirst scan [] o = o ≡ none
OfFirst scan (r ∷ rows) o = (a : LatestAction) × (scan r ≡ ok a) × (o ≡ some a)

module _ {E Row : Type 0} (scan : Row → Result (Error E) LatestAction)
    (duplicate : ℕ → Error E) where
  latest_of-OfFirst :
      (rows : List Row) (o : Option LatestAction)
      → latest_of scan duplicate rows ≡ ok o
      → OfFirst scan rows o
  unfolding latest_of
  latest_of-OfFirst [] o h = ground arith
  latest_of-OfFirst (r ∷ []) o h = elim (Result-cases (scan r)) [
    | inl (a, e) ↦ (a, e, ground arith)
    | inr (wrong, e) ↦ absurd (ground arith)
  ]
  latest_of-OfFirst (r ∷ s ∷ rows) o h = elim (Result-cases (scan r)) [
    | inl (a, e) ↦ elim (Result-cases (scan s)) [
      | inl (b, f) ↦ (a, e, ground arith)
      | inr (wrong, f) ↦ absurd (ground arith)
    ]
    | inr (wrong, e) ↦ absurd (ground arith)
  ]

  over_latest-OfFirst :
      (reading : Reading E) (rows : List Row) (o : Option LatestAction)
      → over_latest reading (latest_of scan duplicate) rows ≡ ok o
      → OfFirst scan rows o
  unfolding over_latest cut_short
  over_latest-OfFirst whole rows o h = latest_of-OfFirst rows o h
  over_latest-OfFirst (broken n e) rows o h = cut n rows h
    where
      failed :
          (first : Result (Error E) (Option LatestAction))
          → (first >>= λ done. err (Error.unreadable e)) ≡ ok o
          → ⊥
      failed (ok x) wrong = cc
      failed (err x) wrong = cc

      cut :
          (n : ℕ) (rows : List Row)
          → cut_short e (take n rows) (latest_of scan duplicate (take n rows)) ≡ ok o
          → OfFirst scan rows o
      cut zero rows h = absurd (failed (latest_of scan duplicate []) h)
      cut (suc n) [] h = absurd (failed (latest_of scan duplicate []) h)
      cut (suc zero) (r ∷ rows) h = absurd (failed (latest_of scan duplicate (r ∷ [])) h)
      cut (suc (suc n)) (r ∷ []) h = absurd (failed (latest_of scan duplicate (r ∷ [])) h)
      cut (suc (suc n)) (r ∷ s ∷ rows) h = latest_of-OfFirst (r ∷ s ∷ take n rows) o h

-- No committed action is newer.
abbrev pub IsLatest : List ChainEvent → List RollbackRow → ℕ → Type 0
IsLatest events rollbacks n =
    All (λ (e : ChainEvent). e.event_seq ≤ n)
      (filter_by (λ (e : ChainEvent). e.kind == adoption) events)
    × All (λ (rb : RollbackRow). rb.event_seq ≤ n) rollbacks

scan_adoption-event_seq :
    {E : Type 0} (row : ChainEvent) (a : LatestAction)
    → scan_adoption {E = E} row ≡ ok a
    → a.event_seq ≡ row.event_seq
unfolding scan_adoption columns
scan_adoption-event_seq row a h = ground arith

scan_rollback-event_seq :
    {E : Type 0} (row : RollbackRow) (a : LatestAction)
    → scan_rollback {E = E} row ≡ ok a
    → a.event_seq ≡ row.event_seq
unfolding scan_rollback columns
scan_rollback-event_seq row a h = ground arith

-- The newest of the rows is the one that was scanned.
module _ {E Row : Type 0} (key : Row → ℕ) (scan : Row → Result (Error E) LatestAction)
    (scanned : (row : Row) (a : LatestAction) → scan row ≡ ok a → a.event_seq ≡ key row) where
  newest :
      (rows xs : List Row) (o : Option LatestAction)
      → AtMost key rows xs
      → OfFirst scan rows o
      → All (λ x. key x ≤ snapshot_of o) xs
  newest [] xs o none_there e = subst (All (λ x. key x ≤ snapshot_of o)) (sym none_there) tt
  newest (r ∷ rows) xs o bound (a, found, e) =
      let same = scanned r a found in
      subst (λ o. All (λ x. key x ≤ snapshot_of o) xs) (sym e)
        (All-map _ _ (λ x (k : key x ≤ key r). omega arith) xs bound)

later_action-bounds :
    {E : Type 0} (a r o : Option LatestAction)
    → later_action {E = E} a r ≡ ok o
    → (snapshot_of a ≤ snapshot_of o) × (snapshot_of r ≤ snapshot_of o)
unfolding later_action
later_action-bounds none r o h =
    let e : r ≡ o = cc in
    subst (λ x. (0 ≤ snapshot_of x) × (snapshot_of r ≤ snapshot_of x)) e (omega arith, omega arith)
later_action-bounds (some a) none o h =
    let e : some a ≡ o = cc in
    subst (λ x. (a.event_seq ≤ snapshot_of x) × (0 ≤ snapshot_of x)) e (omega arith, omega arith)
later_action-bounds (some a) (some r) none h =
    let equal : (a.event_seq == r.event_seq) ≡ false = ground arith in absurd (ground arith)
later_action-bounds (some a) (some r) (some o) h =
    let equal : (a.event_seq == r.event_seq) ≡ false = ground arith in
    elim (Bool-cases (ltb a.event_seq r.event_seq)) [
      | inl e ↦ let same : r ≡ o = ground arith in ground arith
      | inr e ↦ let same : a ≡ o = ground arith in ground arith
    ]

-- `latestCommittedAction` finds the latest.
pub latest_committed_action-IsLatest :
    {E : Type 0} (adoptions_read rollbacks_read : Reading E) (events : List ChainEvent)
    (rollbacks : List RollbackRow) (o : Option LatestAction)
    → latest_committed_action adoptions_read rollbacks_read events rollbacks ≡ ok o
    → IsLatest events rollbacks (snapshot_of o)
unfolding latest_committed_action latest_adoption latest_rollback
latest_committed_action-IsLatest {E} ar rr events rollbacks o h =
    elim (Result-cases (latest_adoption ar events)) [
      | inr (wrong, e) ↦ absurd (ground arith)
      | inl (a, e) ↦ elim (Result-cases (latest_rollback rr rollbacks)) [
        | inr (wrong, f) ↦ absurd (ground arith)
        | inl (r, f) ↦
            let (over_a, over_r) = later_action-bounds {E = E} a r o (ground arith) in
            let all_a =
              newest {E = E} (λ (e : ChainEvent). e.event_seq) scan_adoption scan_adoption-event_seq
                _ _ a (latest_adoption_query-AtMost events)
                (over_latest-OfFirst scan_adoption Error.duplicate_adoption ar _ a e) in
            let all_r =
              newest {E = E} (λ (rb : RollbackRow). rb.event_seq) scan_rollback
                scan_rollback-event_seq _ _ r (latest_rollback_query-AtMost rollbacks)
                (over_latest-OfFirst scan_rollback Error.duplicate_rollback rr _ r f) in
            (
              All-map _ _ (λ (e : ChainEvent) (k : e.event_seq ≤ snapshot_of a). omega arith) _
                  all_a,
              All-map _ _ (λ (rb : RollbackRow) (k : rb.event_seq ≤ snapshot_of r). omega arith) _
                  all_r,
            )
      ]
    ]
