-- ===== src/Store/Publication/Readback.antt =====
-- `adoptionsCommitted` of internal/store/publication.go: what a read-back says of an uncertain insert.
use clicksync.Base.{
  ℕ, suc, List, [], ◌∷◌, take, length, Bool, true, false, not, ◌&&◌, ◌||◌, ◌==◌, ◌!=◌, nat_eq,
  bytes_eq, bool_eq, ltb, leb, Option, none, some, Result, ok, err, if◌then◌else◌, ◌>>=◌, any,
}
use clicksync.Base.Int.{ℤ}
use clicksync.Base.Storage.{Reading, whole, broken, filter_by, order_by}
use clicksync.Store.Types.{Publication}
use clicksync.Store.Tables.{ChainEvent, EventKind, adoption, invalidation, kind_eq}
use clicksync.Store.Inserts.{point_for_block}
use clicksync.Store.Inserts.Builders.{is_some}

-- The last three wrap `ErrCommitConflict`.
pub data ReadError (E : Type 0) : Type 0 where
  empty_batch : ReadError E
  unreadable : E → ReadError E
  out_of_range row_differs : ℕ → ReadError E
  partially_committed : ℕ → ℕ → ReadError E

-- `expected[item.EventSeq] = item` for each item: the last one counts.
unfoldable pub expected : ℕ → List Publication → Option Publication
expected seq [] = none
expected seq (p ∷ ps) =
    let rest = expected seq ps in
    elim rest [ some q ↦ some q | none ↦ if p.event_seq == seq then some p else none ]

-- `len(expected)`
unfoldable pub expected_size : List Publication → ℕ
expected_size [] = 0
expected_size (p ∷ ps) =
    let rest = expected_size ps in
    if any (λ (q : Publication). q.event_seq == p.event_seq) ps then rest else suc rest

-- ORDER BY event_seq, event_kind, publication_id
abbrev pub kind_number : EventKind → ℕ
kind_number adoption = 1
kind_number invalidation = 2

unfoldable pub later : ChainEvent → ChainEvent → Bool
later a b =
    ltb b.event_seq a.event_seq
    || b.event_seq == a.event_seq
      && (ltb (kind_number b.kind) (kind_number a.kind)
          || kind_number b.kind == kind_number a.kind && ltb b.publication_id a.publication_id)

unfoldable pub adoption_readback : ℕ → ℕ → List ChainEvent → List ChainEvent
adoption_readback first last events =
    order_by later
      (filter_by (λ (e : ChainEvent). leb first e.event_seq && leb e.event_seq last) events)

abbrev pub last_event : ℕ → List Publication → ℕ
last_event seq [] = seq
last_event seq (p ∷ ps) = last_event p.event_seq ps

module _ (byron_ebb : ℤ) where
  unfoldable pub adoption_differs : Publication → ChainEvent → Bool
  adoption_differs p row =
      let point = point_for_block byron_ebb p.block in
      row.publication_id != p.publication_id
      || row.kind != adoption
      || not row.active
      || is_some row.rollback_id
      || row.block_hash != point.hash
      || row.slot != point.slot
      || row.block_number != point.block_number
      || row.is_byron_ebb != point.is_byron_ebb
      || row.writer_id != p.writer_id
      || row.recorded_at != p.inserted_at

  -- What the loop does with a row, once it looked up what it expects: the sequences seen then.
  unfoldable pub check_row :
      {E : Type 0} → ChainEvent → List ℕ → Option Publication → Result (ReadError E) (List ℕ)
  check_row row seen none = err (out_of_range row.event_seq)
  check_row row seen (some item) =
      if any (λ s. s == row.event_seq) seen || adoption_differs item row
      then err (row_differs row.event_seq)
      else ok (row.event_seq ∷ seen)

  unfoldable pub scan_rows :
      {E : Type 0} → List Publication → List ChainEvent → List ℕ → Result (ReadError E) (List ℕ)
  unfolding check_row
  scan_rows publications [] seen = ok seen
  scan_rows publications (row ∷ rows) seen = do
    seen' ← check_row row seen (expected row.event_seq publications)
    scan_rows publications rows seen'

  -- What follows the loop.
  unfoldable pub conclude : {E : Type 0} → ℕ → List ℕ → Result (ReadError E) Bool
  conclude size seen =
      if length seen == 0
      then ok false
      else if length seen != size
      then err (partially_committed (length seen) size)
      else ok true

  unfoldable pub read_rows :
      {E : Type 0} → Reading E → List Publication → List ChainEvent → Result (ReadError E) Bool
  read_rows whole publications rows =
      scan_rows publications rows [] >>= conclude (expected_size publications)
  read_rows (broken n e) publications rows = do
    seen ← scan_rows publications (take n rows) []
    err (unreadable e)

  unfoldable pub adoptions_committed :
      {E : Type 0} → Reading E → List Publication → List ChainEvent → Result (ReadError E) Bool
  unfolding read_rows
  adoptions_committed reading [] events = err empty_batch
  adoptions_committed reading (p ∷ ps) events =
      read_rows reading (p ∷ ps) (adoption_readback p.event_seq (last_event p.event_seq ps) events)
