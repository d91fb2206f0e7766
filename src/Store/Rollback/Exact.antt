-- ===== src/Store/Rollback/Exact.antt =====
-- What the read-backs of internal/store/rollback.go say of a rollback whose event is new.
use clicksync.Base.{
  ℕ, suc, ◌+◌, ◌≤◌, ◌<◌, List, [], ◌∷◌, ◌++◌, map, take, length, length-map, Bool, true, false,
  ◌&&◌, ◌==◌, nat_eq, Option, none, some, ok, err, >>=-eq-ok, inl, inr, All, ◌≡◌, refl, ◌⊎◌, ap,
  ◌∙◌, arith,
}
use clicksync.Base.Storage.{Reading, whole, broken, filter_by, keep}
use clicksync.Base.Ascending.{
  filter_by-new, length-order_by, length-keep-le, keep_whole, keep_nothing, keep-All, All-map,
}
use clicksync.Model.{Point}
use clicksync.Store.Types.{CanonicalBlock, Rollback}
use clicksync.Store.Tables.{ChainEvent, RollbackRow, invalidation, kind_eq}
use clicksync.Store.Rollback.{invalidation_row, header_row}
use clicksync.Store.Rollback.Readback.{
  complete, unread, check_invalidation, scan_invalidations, expected_point, status_of,
  read_invalidations, invalidation_readback, by_publication, invalidations_committed,
  check_distinct, scan_headers, check_header, read_headers, rollback_readback, by_rollback,
  rollback_header_committed,
}

complete_size : (seen size : ℕ) → status_of seen size ≡ complete → seen ≡ size
complete_size seen size h = ground arith

abbrev pub invalidations_of : Rollback → List ChainEvent
invalidations_of r = map (invalidation_row r) r.descendants

module _ {E : Type 0} (r : Rollback) where
  length-check_invalidation :
      (row : ChainEvent) (seen seen' : List ℕ) (o : Option Point)
      → check_invalidation {E = E} r row seen o ≡ ok seen'
      → length seen' ≡ suc (length seen)
  unfolding check_invalidation
  length-check_invalidation row seen seen' none h = cc
  length-check_invalidation row seen seen' (some point) h = ground arith

  length-scan_invalidations :
      (rows : List ChainEvent) (seen seen' : List ℕ)
      → scan_invalidations {E = E} r rows seen ≡ ok seen'
      → length seen' ≡ length seen + length rows
  unfolding scan_invalidations
  length-scan_invalidations [] seen seen' h = ground arith
  length-scan_invalidations (row ∷ rows) seen seen' h =
      let (middle, first, rest) =
        >>=-eq-ok
          (check_invalidation {E = E} r row seen (expected_point row.publication_id r.descendants))
          (scan_invalidations r rows) h in
      let one =
        length-check_invalidation row seen middle (expected_point row.publication_id r.descendants)
          first in
      let more = length-scan_invalidations rows middle seen' rest in omega arith

-- The rows of one event: none but the new ones.
module _ (r : Rollback) (mask : List Bool) (old : List ChainEvent)
    (fresh : All (λ (e : ChainEvent). e.event_seq < r.event_seq) old) where
  length-readback :
      length (invalidation_readback r.event_seq (old ++ keep mask (invalidations_of r)))
      ≡ length (keep mask (invalidations_of r))
  unfolding invalidation_readback invalidation_row
  length-readback =
      let test = λ (e : ChainEvent). e.event_seq == r.event_seq && e.kind == invalidation in
      length-order_by by_publication (filter_by test (old ++ keep mask (invalidations_of r)))
      ∙ ap length (
          filter_by-new test old (keep mask (invalidations_of r))
            (All-map _ _ (λ (e : ChainEvent) (h : e.event_seq < r.event_seq). ground arith) old
              fresh)
            (keep-All _ mask (invalidations_of r) (rows_match r.descendants)))
    where
      rows_match :
          (ds : List CanonicalBlock)
          → All
              (λ (e : ChainEvent). (e.event_seq == r.event_seq && e.kind == invalidation) ≡ true)
              (map (invalidation_row r) ds)
      rows_match [] = tt
      rows_match (d ∷ ds) = (ground arith, rows_match ds)

  -- A membership that is read back as complete is.
  pub invalidations_committed_complete :
      {E : Type 0} (reading : Reading E)
      → invalidations_committed reading r (old ++ keep mask (invalidations_of r)) ≡ ok complete
      → keep mask (invalidations_of r) ≡ invalidations_of r
  unfolding invalidations_committed read_invalidations
  invalidations_committed_complete {E} reading h =
      let (done, distinct, read) =
        >>=-eq-ok (check_distinct {E = E} [] r.descendants)
          (λ done.
            read_invalidations reading r
              (invalidation_readback r.event_seq (old ++ keep mask (invalidations_of r))))
          h in
      from_read reading read
    where
      from_read :
          (reading : Reading E)
          → read_invalidations reading r
              (invalidation_readback r.event_seq (old ++ keep mask (invalidations_of r)))
            ≡ ok complete
          → keep mask (invalidations_of r) ≡ invalidations_of r
      from_read whole h =
          let rows = invalidation_readback r.event_seq (old ++ keep mask (invalidations_of r)) in
          let (seen, scan, status) =
            >>=-eq-ok (scan_invalidations {E = E} r rows [])
              (λ seen. ok (status_of (length seen) (length r.descendants))) h in
          let many = length-scan_invalidations {E = E} r rows [] seen scan in
          let size : length seen ≡ length r.descendants = complete_size _ _ (cc) in
          let all = length-map (invalidation_row r) r.descendants in
          let found = length-readback in keep_whole mask (invalidations_of r) (omega arith)
      from_read (broken n e) h =
          let rows = invalidation_readback r.event_seq (old ++ keep mask (invalidations_of r)) in
          let (seen, scan, status) =
            >>=-eq-ok (scan_invalidations {E = E} r (take n rows) []) (λ seen. err (unread e)) h in
          cc

scan_headers-found :
    {E : Type 0} (r : Rollback) (found : Bool) (rows : List RollbackRow)
    → scan_headers {E = E} r false rows ≡ ok found
    → ((found ≡ true) × (1 ≤ length rows)) ⊎ ((found ≡ false) × (length rows ≡ 0))
unfolding scan_headers
scan_headers-found r found [] h = inr (ground arith, refl)
scan_headers-found {E} r found (row ∷ []) h =
    let (done, same, rest) =
      >>=-eq-ok (check_header {E = E} r row) (λ done. scan_headers r true []) h in
    inl (cc, omega arith)
scan_headers-found {E} r found (row ∷ row' ∷ rows) h =
    let (done, same, rest) =
      >>=-eq-ok (check_header {E = E} r row) (λ done. scan_headers r true (row' ∷ rows)) h in
    cc

-- The header of one event: none but the new one.
module _ (r : Rollback) (mask : List Bool) (old : List RollbackRow)
    (fresh : All (λ (rb : RollbackRow). rb.event_seq < r.event_seq) old) where
  length-header_readback :
      length (rollback_readback r.event_seq (old ++ keep mask (header_row r ∷ [])))
      ≡ length (keep mask (header_row r ∷ []))
  unfolding rollback_readback header_row
  length-header_readback =
      let test = λ (rb : RollbackRow). rb.event_seq == r.event_seq in
      length-order_by by_rollback (filter_by test (old ++ keep mask (header_row r ∷ [])))
      ∙ ap length (
          filter_by-new test old (keep mask (header_row r ∷ []))
            (All-map _ _ (λ (rb : RollbackRow) (h : rb.event_seq < r.event_seq). ground arith) old
              fresh)
            (keep-All _ mask (header_row r ∷ []) (ground arith, tt)))

  -- A header is there if it is read back, and not if none is.
  pub rollback_header_committed_exact :
      {E : Type 0} (reading : Reading E) (found : Bool)
      → rollback_header_committed reading r (old ++ keep mask (header_row r ∷ [])) ≡ ok found
      → ((found ≡ true) × (keep mask (header_row r ∷ []) ≡ header_row r ∷ []))
        ⊎ ((found ≡ false) × (keep mask (header_row r ∷ []) ≡ []))
  unfolding rollback_header_committed read_headers
  rollback_header_committed_exact {E} whole found h =
      let rows = rollback_readback r.event_seq (old ++ keep mask (header_row r ∷ [])) in
      let size = length-header_readback in
      let most = length-keep-le mask (header_row r ∷ []) in
      elim (scan_headers-found {E = E} r found rows h) [
        | inl (yes_found, some_row) ↦
            inl (yes_found, keep_whole mask (header_row r ∷ []) (omega arith))
        | inr (not_found, no_row) ↦
            inr (not_found, keep_nothing mask (header_row r ∷ []) (omega arith))
      ]
  rollback_header_committed_exact {E} (broken n e) found h =
      let rows = rollback_readback r.event_seq (old ++ keep mask (header_row r ∷ [])) in
      let (found', scan, wrong) =
        >>=-eq-ok (scan_headers {E = E} r false (take n rows)) (λ found. err (unread e)) h in
      cc
