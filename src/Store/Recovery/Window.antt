-- ===== src/Store/Recovery/Window.antt =====
-- `loadCanonicalWindow` of internal/store/recovery.go: the query for the active publications, and the
-- checks of its rows.
use clicksync.Base.{
  ℕ, List, [], ◌∷◌, ◌++◌, take, Bool, false, not, ◌&&◌, ◌||◌, ◌==◌, nat_eq, ltb, leb, Option, none,
  some, Result, ok, if◌then◌else◌, ◌>>=◌, ◌>>◌, reject_if, any,
}
use clicksync.Base.Storage.{Reading, filter_by, order_by}
use clicksync.Model.{Point}
use clicksync.Store.Points.{valid_point, hash32}
use clicksync.Store.Types.{CanonicalBlock}
use clicksync.Store.Tables.{ChainEvent, RollbackRow, adoption, invalidation, kind_eq}
use clicksync.Store.Recovery.{
  Error, bad_member, duplicate_member, not_newest_first, columns, newest_first, over,
}

abbrev pub is_id : Option ℕ → ℕ → Bool
is_id none n = false
is_id (some m) n = m == n

-- The join of an invalidation with the header of its rollback. Several headers that match repeat the
-- row, which the aggregation below forgets.
unfoldable pub has_header : List RollbackRow → ChainEvent → Bool
has_header rollbacks e =
    any (λ (rb : RollbackRow). is_id e.rollback_id rb.rollback_id && rb.event_seq == e.event_seq)
      rollbacks

-- Both sides of the UNION ALL.
unfoldable pub membership : ℕ → List ChainEvent → List RollbackRow → List ChainEvent
membership snapshot events rollbacks =
    filter_by (λ (e : ChainEvent). e.kind == adoption && leb e.event_seq snapshot) events
    ++ filter_by
        (λ (e : ChainEvent).
          e.kind == invalidation && leb e.event_seq snapshot && has_header rollbacks e)
        events

-- GROUP BY publication_id with argMax by event_seq: the latest row of each publication. Of two rows with
-- one event, of which the query may take either, this takes the first in the table.
unfoldable pub add_latest : ChainEvent → List ChainEvent → List ChainEvent
add_latest e [] = e ∷ []
add_latest e (r ∷ rs) =
    let rest = add_latest e rs in
    if r.publication_id == e.publication_id
    then (if ltb r.event_seq e.event_seq then e else r) ∷ rs
    else r ∷ rest

unfoldable pub group_latest : List ChainEvent → List ChainEvent
unfolding add_latest
group_latest [] = []
group_latest (e ∷ es) = add_latest e (group_latest es)

unfoldable pub canonical_window_query : ℕ → ℕ → List ChainEvent → List RollbackRow → List ChainEvent
canonical_window_query snapshot limit events rollbacks = take limit (
    order_by newest_first (
      filter_by (λ (e : ChainEvent). e.active)
        (group_latest (membership snapshot events rollbacks))))

-- Not older than the row before, if there is one.
abbrev pub not_older : Option ℕ → ℕ → Bool
not_older none seq = false
not_older (some last) seq = leb last seq

module _ {E : Type 0} where
  -- The body of the loop up to the comparisons with earlier rows.
  unfoldable pub scan_member : ℕ → ChainEvent → Result (Error E) CanonicalBlock
  unfolding columns
  scan_member snapshot row = do
    hash ← columns (hash32 row.block_hash)
    let point : Point = record {
      origin = false;
      slot = row.slot;
      hash = hash;
      block_number = row.block_number;
      is_byron_ebb = row.is_byron_ebb;
    }
    reject_if
        (row.publication_id == 0
          || row.event_seq == 0
          || ltb snapshot row.event_seq
          || not (valid_point point))
        bad_member
    ok (record { publication_id = row.publication_id; event_seq = row.event_seq; point = point })

  -- The loop, with the publications seen and the event of the last row.
  unfoldable pub scan_window :
      ℕ → List ℕ → Option ℕ → List ChainEvent → Result (Error E) (List CanonicalBlock)
  scan_window snapshot seen last [] = ok []
  scan_window snapshot seen last (row ∷ rows) = do
    block ← scan_member snapshot row
    reject_if (any (λ p. p == block.publication_id) seen) (duplicate_member block.publication_id)
    reject_if (not_older last block.event_seq) not_newest_first
    rest ← scan_window snapshot (block.publication_id ∷ seen) (some block.event_seq) rows
    ok (block ∷ rest)

  unfoldable pub load_canonical_window :
      Reading E
      → ℕ
      → ℕ
      → List ChainEvent
      → List RollbackRow
      → Result (Error E) (List CanonicalBlock)
  load_canonical_window reading snapshot limit events rollbacks =
      if snapshot == 0
      then ok []
      else over reading (scan_window snapshot [] none)
          (canonical_window_query snapshot limit events rollbacks)
