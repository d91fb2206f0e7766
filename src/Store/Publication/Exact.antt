-- ===== src/Store/Publication/Exact.antt =====
-- The read-back of internal/store/publication.go over a fresh range of events is exact.
use clicksync.Base.{
  ℕ, suc, ◌+◌, ◌≤◌, ◌<◌, List, [], ◌∷◌, ◌++◌, map, take, length, Bool, true, false, ◌&&◌, ◌==◌,
  ◌!=◌, nat_eq, bytes_eq, bool_eq, leb, none, some, ok, err, if◌then◌else◌, any, All, ◌≡◌, refl, ap,
  sym, ◌∙◌, subst, arith,
}
use clicksync.Base.Int.{ℤ}
use clicksync.Base.Storage.{whole, broken, filter_by, order_by, keep}
use clicksync.Base.Ascending.{
  Ascends, Ascends-All, keep-Ascends, order_by-Ascends, keep-All, filter_by-append, filter_by-none,
  filter_by-all, All-map, take-Ascends, take-All,
}
use clicksync.Store.Types.{Publication}
use clicksync.Store.Tables.{ChainEvent, kind_eq}
use clicksync.Store.Publication.{adoption_row}
use clicksync.Store.Publication.Readback.{
  unreadable, partially_committed, expected, expected_size, later, adoption_readback, last_event,
  adoption_differs, scan_rows, conclude, adoptions_committed,
}

abbrev pub seq_of : Publication → ℕ
seq_of p = p.event_seq

abbrev pub row_seq : ChainEvent → ℕ
row_seq e = e.event_seq

expected-none :
    (seq n : ℕ) (ps : List Publication) → Ascends seq_of n ps → seq < n → expected seq ps ≡ none
unfolding expected
expected-none seq n [] a h = refl
expected-none seq n (p ∷ ps) a h =
    let b = a.0 in
    let rest = expected-none seq (suc p.event_seq) ps a.1 (omega arith) in ground arith

any_other :
    (seq n : ℕ) (ps : List Publication)
    → Ascends seq_of n ps
    → seq < n
    → any (λ (q : Publication). q.event_seq == seq) ps ≡ false
any_other seq n [] a h = refl
any_other seq n (p ∷ ps) a h =
    let b = a.0 in let rest = any_other seq (suc p.event_seq) ps a.1 (omega arith) in ground arith

expected_size-length :
    (n : ℕ) (ps : List Publication) → Ascends seq_of n ps → expected_size ps ≡ length ps
unfolding expected_size
expected_size-length n [] a = refl
expected_size-length n (p ∷ ps) a =
    rw (any_other p.event_seq (suc p.event_seq) ps a.1 (omega arith))
      (ap suc (expected_size-length (suc p.event_seq) ps a.1))

expected_self :
    (n : ℕ) (ps : List Publication)
    → Ascends seq_of n ps
    → All (λ (p : Publication). expected p.event_seq ps ≡ some p) ps
unfolding expected
expected_self n [] a = tt
expected_self n (p ∷ ps) a =
    let rest = expected-none p.event_seq (suc p.event_seq) ps a.1 (omega arith) in
    (
      ground arith,
      All-map _ _ (λ (q : Publication) (e : expected q.event_seq ps ≡ some q). rw e) ps
          (expected_self (suc p.event_seq) ps a.1),
    )

module _ (byron_ebb : ℤ) where
  adoption_differs_self :
      (p : Publication) → adoption_differs byron_ebb p (adoption_row byron_ebb p) ≡ false
  unfolding adoption_differs adoption_row
  adoption_differs_self p = ground arith

  -- A row that the read-back expects.
  abbrev IsExpected : List Publication → ChainEvent → Type 0
  IsExpected ps row =
      (p : Publication) × (expected row.event_seq ps ≡ some p) × (row ≡ adoption_row byron_ebb p)

  not_seen : (seq : ℕ) (seen : List ℕ) → All (λ s. s < seq) seen → any (λ s. s == seq) seen ≡ false
  not_seen seq [] h = refl
  not_seen seq (s ∷ seen) h = let less = h.0 in let rest = not_seen seq seen h.1 in ground arith

  scan_rows-expected :
      {E : Type 0} (ps : List Publication) (rows : List ChainEvent) (n : ℕ) (seen : List ℕ)
      → Ascends row_seq n rows
      → All (IsExpected ps) rows
      → All (λ s. s < n) seen
      → (seen' : List ℕ) × (scan_rows byron_ebb {E = E} ps rows seen ≡ ok seen')
        × (length seen' ≡ length seen + length rows)
  unfolding scan_rows
  scan_rows-expected ps [] n seen a x h = (seen, refl, omega arith)
  scan_rows-expected {E} ps (row ∷ rows) n seen a x h =
      let (p, found, same) = x.0 in
      let fresh =
        not_seen row.event_seq seen (All-map _ _ (λ s less. let b = a.0 in omega arith) seen h) in
      let agrees : adoption_differs byron_ebb p row ≡ false =
        subst (λ r. adoption_differs byron_ebb p r ≡ false) (sym same) (adoption_differs_self p) in
      let older : All (λ s. s < suc row.event_seq) (row.event_seq ∷ seen) =
        (omega arith, All-map (λ s. s < n) _ (λ s less. let b = a.0 in omega arith) seen h) in
      let (seen', scanned, size) =
        scan_rows-expected {E = E} ps rows (suc row.event_seq) (row.event_seq ∷ seen) a.1 x.1
          older in
      (seen', rw (found, fresh, agrees) scanned, omega arith)

  adoption_row-seq : (p : Publication) → (adoption_row byron_ebb p).event_seq ≡ p.event_seq
  unfolding adoption_row
  adoption_row-seq p = refl

  rows-Ascends :
      (n : ℕ) (ps : List Publication)
      → Ascends seq_of n ps
      → Ascends row_seq n (map (adoption_row byron_ebb) ps)
  unfolding adoption_row
  rows-Ascends n [] a = tt
  rows-Ascends n (p ∷ ps) a = (a.0, rows-Ascends (suc p.event_seq) ps a.1)

  rows-expected :
      (all ps : List Publication)
      → All (λ (p : Publication). expected p.event_seq all ≡ some p) ps
      → All (IsExpected all) (map (adoption_row byron_ebb) ps)
  unfolding adoption_row
  rows-expected all [] h = tt
  rows-expected all (p ∷ ps) h = ((p, h.0, refl), rows-expected all ps h.1)

  last_event-le :
      (seq n : ℕ) (ps : List Publication)
      → Ascends seq_of n ps
      → seq < n
      → (seq ≤ last_event seq ps) × All (λ (p : Publication). p.event_seq ≤ last_event seq ps) ps
  last_event-le seq n [] a h = (omega arith, tt)
  last_event-le seq n (p ∷ ps) a h =
      let (above, all) = last_event-le p.event_seq (suc p.event_seq) ps a.1 (omega arith) in
      let b = a.0 in (omega arith, (above, all))

  rows_within :
      (first last : ℕ) (ps : List Publication)
      → All (λ (p : Publication). first ≤ p.event_seq) ps
      → All (λ (p : Publication). p.event_seq ≤ last) ps
      → All
          (λ (e : ChainEvent). (leb first e.event_seq && leb e.event_seq last) ≡ true)
          (map (adoption_row byron_ebb) ps)
  unfolding adoption_row
  rows_within first last [] h k = tt
  rows_within first last (p ∷ ps) h k =
      (let l = h.0 in let u = k.0 in ground arith, rows_within first last ps h.1 k.1)

  later-false : (x y : ChainEvent) → x.event_seq < y.event_seq → later x y ≡ false
  unfolding later
  later-false x y h = ground arith

  -- The query finds what was kept of a fresh batch, in its order.
  adoption_readback-keep :
      (p : Publication) (ps : List Publication) (mask : List Bool) (old : List ChainEvent)
      → Ascends seq_of p.event_seq (p ∷ ps)
      → All (λ (e : ChainEvent). e.event_seq < p.event_seq) old
      → adoption_readback p.event_seq
          (last_event p.event_seq ps)
          (old ++ keep mask (map (adoption_row byron_ebb) (p ∷ ps)))
        ≡ keep mask (map (adoption_row byron_ebb) (p ∷ ps))
  unfolding adoption_readback
  adoption_readback-keep p ps mask old a fresh =
      let rows = map (adoption_row byron_ebb) (p ∷ ps) in
      let test = λ (e : ChainEvent).
        leb p.event_seq e.event_seq && leb e.event_seq (last_event p.event_seq ps) in
      let (top, tops) = last_event-le p.event_seq (suc p.event_seq) ps a.1 (omega arith) in
      let inside =
        rows_within p.event_seq (last_event p.event_seq ps) (p ∷ ps)
          (Ascends-All seq_of p.event_seq (p ∷ ps) a) (top, tops) in
      let none_old : filter_by test old ≡ [] = filter_by-none test old (
        All-map _ _ (λ (e : ChainEvent) (h : e.event_seq < p.event_seq). ground arith) old fresh) in
      let all_new : filter_by test (keep mask rows) ≡ keep mask rows =
        filter_by-all test (keep mask rows) (keep-All _ mask rows inside) in
      let selected : filter_by test (old ++ keep mask rows) ≡ keep mask rows =
        filter_by-append test old (keep mask rows)
        ∙ (ap (λ l. l ++ filter_by test (keep mask rows)) none_old ∙ all_new) in
      ap (order_by later) selected
      ∙ order_by-Ascends row_seq later later-false p.event_seq (keep mask rows)
          (keep-Ascends row_seq mask p.event_seq rows (rows-Ascends p.event_seq (p ∷ ps) a))

  module _ (p : Publication) (ps : List Publication) (mask : List Bool) (old : List ChainEvent)
      (a : Ascends seq_of p.event_seq (p ∷ ps))
      (fresh : All (λ (e : ChainEvent). e.event_seq < p.event_seq) old) where
    abbrev stored : List ChainEvent
    stored = keep mask (map (adoption_row byron_ebb) (p ∷ ps))

    stored-Ascends : Ascends row_seq p.event_seq stored
    stored-Ascends =
        keep-Ascends row_seq mask p.event_seq (map (adoption_row byron_ebb) (p ∷ ps))
          (rows-Ascends p.event_seq (p ∷ ps) a)

    stored-IsExpected : All (IsExpected (p ∷ ps)) stored
    stored-IsExpected =
        keep-All (IsExpected (p ∷ ps)) mask (map (adoption_row byron_ebb) (p ∷ ps))
          (rows-expected (p ∷ ps) (p ∷ ps) (expected_self p.event_seq (p ∷ ps) a))

    -- All that was kept arrives: the read-back counts it.
    pub adoptions_committed-whole :
        {E : Type 0}
        → adoptions_committed byron_ebb {E = E} whole (p ∷ ps) (old ++ stored) ≡ (
            if length stored == 0
            then ok false
            else if length stored != length (p ∷ ps)
            then err (partially_committed (length stored) (length (p ∷ ps)))
            else ok true)
    unfolding adoptions_committed conclude
    adoptions_committed-whole {E} =
        let (seen, scanned, size) =
          scan_rows-expected {E = E} (p ∷ ps) stored p.event_seq [] stored-Ascends stored-IsExpected
            tt in
        let n : length seen ≡ length stored = omega arith in
        let m = expected_size-length p.event_seq (p ∷ ps) a in
        rw (adoption_readback-keep p ps mask old a fresh, scanned, n, m) refl

    pub adoptions_committed-broken :
        {E : Type 0} (n : ℕ) (e : E)
        → adoptions_committed byron_ebb (broken n e) (p ∷ ps) (old ++ stored) ≡ err (unreadable e)
    unfolding adoptions_committed
    adoptions_committed-broken {E} n e =
        let (seen, scanned, size) =
          scan_rows-expected {E = E} (p ∷ ps) (take n stored) p.event_seq []
            (take-Ascends row_seq n p.event_seq stored stored-Ascends)
            (take-All (IsExpected (p ∷ ps)) n stored stored-IsExpected) tt in
        rw (adoption_readback-keep p ps mask old a fresh, scanned) refl
