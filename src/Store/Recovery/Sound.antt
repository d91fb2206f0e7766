-- ===== src/Store/Recovery/Sound.antt =====
-- What a state that internal/store/recovery.go reads back says of the tables.
pub mod Latest
pub mod Recovered
use clicksync.Base.{
  ℕ, zero, suc, ◌+◌, ◌≤◌, ◌<◌, List, [], ◌∷◌, map, take, length, length-map, length-take, Bool,
  true, false, not, ◌&&◌, ◌||◌, ◌==◌, ◌!=◌, nat_eq, ltb, leb, Option, none, some, Result, ok, err,
  Result-cases, List-cases, Bool-cases, Option-cases, >>=-eq-ok, inl, inr, ◌⊎◌, ◌>>=◌, ◌>>◌,
  reject_if, any, All, ◌≡◌, refl, ap, sym, ◌∙◌, subst, arith, ==→eq, ==_refl, if◌then◌else◌,
}
use clicksync.Base.Storage.{Reading, whole, broken, filter_by, insert_by, order_by}
use clicksync.Base.Ascending.{All-map}
use clicksync.Model.{Point, point_eq}
use clicksync.Store.Points.{valid_point, hash32}
use clicksync.Store.Types.{CanonicalBlock, DatasetIdentity, State}
use clicksync.Store.Tables.{ChainEvent, RollbackRow, adoption, kind_eq}
use clicksync.Store.Recovery.{
  Error, columns, over, newest_first, newest_rollback_first, latest_adoption_query,
  latest_rollback_query, LatestAction, scan_adoption, scan_rollback, latest_of, cut_short,
  over_latest, latest_adoption, latest_rollback, later_action, latest_committed_action, bad_member,
  duplicate_member, not_newest_first, validate_recovered_state,
}
use clicksync.Store.Recovery.Window.{
  group_latest, membership, scan_member, scan_window, not_older, canonical_window_query,
  load_canonical_window,
}

-- The block that a row of the window stands for.
abbrev pub block_of : ChainEvent → CanonicalBlock
block_of row = record {
  publication_id = row.publication_id;
  event_seq = row.event_seq;
  point = record {
    origin = false;
    slot = row.slot;
    hash = row.block_hash;
    block_number = row.block_number;
    is_byron_ebb = row.is_byron_ebb;
  };
}

-- A block with an identity, within the snapshot.
pub record IsMember (snapshot : ℕ) (b : CanonicalBlock) : Type 0 where
  pub publication : 0 < b.publication_id
  pub event : 0 < b.event_seq
  pub within : b.event_seq ≤ snapshot
  pub shape : valid_point b.point ≡ true
  pub hash : length b.point.hash ≡ 32

abbrev pub NewestFirst : List CanonicalBlock → Type 0
NewestFirst [] = Unit
NewestFirst (b ∷ bs) = All (λ (c : CanonicalBlock). c.event_seq < b.event_seq) bs × NewestFirst bs

abbrev pub OncePublished : List CanonicalBlock → Type 0
OncePublished [] = Unit
OncePublished (b ∷ bs) =
    All (λ (c : CanonicalBlock). (b.publication_id == c.publication_id) ≡ false) bs
    × OncePublished bs

scan_member_sound :
    {E : Type 0} (snapshot : ℕ) (row : ChainEvent) (b : CanonicalBlock)
    → scan_member {E = E} snapshot row ≡ ok b
    → (b ≡ block_of row) × IsMember snapshot b
unfolding scan_member columns hash32
scan_member_sound snapshot row b h =
    let facts : (b ≡ block_of row)
        × (0 < b.publication_id)
        × (0 < b.event_seq)
        × (b.event_seq ≤ snapshot)
        × (valid_point b.point ≡ true)
        × (length b.point.hash ≡ 32) =
      ground arith in
    (
      facts.0,
      record {
        publication = facts.1;
        event = facts.2;
        within = facts.3;
        shape = facts.4;
        hash = facts.5;
      },
    )

abbrev Unseen : List ℕ → CanonicalBlock → Type 0
Unseen seen c = any (λ p. p == c.publication_id) seen ≡ false

-- What the rows that pass are.
record Scanned (snapshot : ℕ) (seen : List ℕ) (last : Option ℕ) (rows : List ChainEvent)
    (bs : List CanonicalBlock) : Type 0 where
  rows_of : bs ≡ map block_of rows
  members : All (IsMember snapshot) bs
  below : All (λ (c : CanonicalBlock). not_older last c.event_seq ≡ false) bs
  new : All (Unseen seen) bs
  newest_first : NewestFirst bs
  once : OncePublished bs

not_older-below :
    (last : Option ℕ) (n m : ℕ)
    → not_older last n ≡ false
    → not_older (some n) m ≡ false
    → not_older last m ≡ false
not_older-below none n m h k = refl
not_older-below (some l) n m h k = ground arith

-- The first turn of the loop.
scan_window-cons :
    {E : Type 0} (snapshot : ℕ) (seen : List ℕ) (last : Option ℕ) (row : ChainEvent)
    (rows : List ChainEvent) (bs : List CanonicalBlock)
    → scan_window {E = E} snapshot seen last (row ∷ rows) ≡ ok bs
    → (b : CanonicalBlock) × (rest : List CanonicalBlock) × (scan_member {E = E} snapshot row
        ≡ ok b)
      × Unseen seen b
      × (not_older last b.event_seq ≡ false)
      × (scan_window {E = E} snapshot (b.publication_id ∷ seen) (some b.event_seq) rows ≡ ok rest)
      × (bs ≡ b ∷ rest)
unfolding scan_window
scan_window-cons {E} snapshot seen last row rows bs h =
    elim (Result-cases (scan_member {E = E} snapshot row)) [
      | inr (e, wrong) ↦ absurd (ground arith)
      | inl (b, first) ↦
          elim (Result-cases
            (scan_window {E = E} snapshot (b.publication_id ∷ seen) (some b.event_seq) rows)) [
              | inr (e, wrong) ↦ absurd (ground arith)
              | inl (rest, tail) ↦ (b, rest, first, ground arith, ground arith, tail, ground arith)
            ]
    ]

scan_window-Scanned :
    {E : Type 0} (snapshot : ℕ) (seen : List ℕ) (last : Option ℕ) (rows : List ChainEvent)
    (bs : List CanonicalBlock)
    → scan_window {E = E} snapshot seen last rows ≡ ok bs
    → Scanned snapshot seen last rows bs
unfolding scan_window
scan_window-Scanned snapshot seen last [] [] h = record {
  rows_of = refl;
  members = tt;
  below = tt;
  new = tt;
  newest_first = tt;
  once = tt;
}
scan_window-Scanned snapshot seen last [] (b ∷ bs) h = cc
scan_window-Scanned {E} snapshot seen last (row ∷ rows) bs h =
    let (b, rest, first, fresh, older, tail, same) =
      scan_window-cons {E = E} snapshot seen last row rows bs h in
    let (is_row, member) = scan_member_sound {E = E} snapshot row b first in
    let s =
      scan_window-Scanned {E = E} snapshot (b.publication_id ∷ seen) (some b.event_seq) rows rest
        tail in
    subst (Scanned snapshot seen last (row ∷ rows)) (sym same) (record {
      rows_of = ap (λ x. x ∷ rest) is_row ∙ ap (◌∷◌ (block_of row)) s.rows_of;
      members = (member, s.members);
      below = (
        older,
        All-map _ _ (λ (c : CanonicalBlock) k. not_older-below last b.event_seq c.event_seq older k)
            rest s.below,
      );
      new = (fresh, All-map _ _ (λ (c : CanonicalBlock) k. ground arith) rest s.new);
      newest_first =
          (All-map _ _ (λ (c : CanonicalBlock) k. ground arith) rest s.below, s.newest_first);
      once = (All-map _ _ (λ (c : CanonicalBlock) k. ground arith) rest s.new, s.once);
    })

-- The window of a snapshot: the rows of its query, in order and checked.
pub record Window (snapshot limit : ℕ) (events : List ChainEvent) (rollbacks : List RollbackRow)
    (bs : List CanonicalBlock) : Type 0 where
  pub queried :
      0 < snapshot → bs ≡ map block_of (canonical_window_query snapshot limit events rollbacks)
  pub size : length bs ≤ limit
  pub members : All (IsMember snapshot) bs
  pub newest_first : NewestFirst bs
  pub once : OncePublished bs

take_short : (n : ℕ) (xs : List ChainEvent) → length (take n xs) ≤ n
take_short n xs = omega (arith, length-take n xs)

length-canonical_window_query :
    (snapshot limit : ℕ) (events : List ChainEvent) (rollbacks : List RollbackRow)
    → length (canonical_window_query snapshot limit events rollbacks) ≤ limit
unfolding canonical_window_query
length-canonical_window_query snapshot limit events rollbacks = take_short limit (
    order_by newest_first (
      filter_by (λ (e : ChainEvent). e.active)
        (group_latest (membership snapshot events rollbacks))))

pub load_canonical_window-Window :
    {E : Type 0} (reading : Reading E) (snapshot limit : ℕ) (events : List ChainEvent)
    (rollbacks : List RollbackRow) (bs : List CanonicalBlock)
    → load_canonical_window reading snapshot limit events rollbacks ≡ ok bs
    → Window snapshot limit events rollbacks bs
unfolding load_canonical_window over
load_canonical_window-Window reading zero limit events rollbacks [] h = record {
  queried = λ positive. absurd (omega arith);
  size = omega arith;
  members = tt;
  newest_first = tt;
  once = tt;
}
load_canonical_window-Window reading zero limit events rollbacks (b ∷ bs) h = absurd (ground arith)
load_canonical_window-Window {E} whole (suc n) limit events rollbacks bs h =
    let rows = canonical_window_query (suc n) limit events rollbacks in
    let s = scan_window-Scanned {E = E} (suc n) [] none rows bs (ground arith) in
    let mapped = length-map block_of rows in
    let same : length bs ≡ length (map block_of rows) = ap length s.rows_of in
    let most = length-canonical_window_query (suc n) limit events rollbacks in
    record {
      queried = λ positive. s.rows_of;
      size = omega arith;
      members = s.members;
      newest_first = s.newest_first;
      once = s.once;
    }
load_canonical_window-Window {E} (broken k e) (suc n) limit events rollbacks bs h =
    elim (Result-cases (
      scan_window {E = E} (suc n) [] none
        (take k (canonical_window_query (suc n) limit events rollbacks)))) [
          | inl (some_blocks, read) ↦ absurd (ground arith)
          | inr (wrong, unread) ↦ absurd (ground arith)
        ]
