-- ===== src/Store/Allocator.antt =====
-- internal/store/allocator.go: identities of publications and events, never given out twice.
pub mod Ranges
pub mod Histories
use clicksync.Base.{ℕ, ◌+◌, ◌-◌, Bool, ◌||◌, ◌==◌, nat_eq, ltb, Result, ok, err, if◌then◌else◌}
use clicksync.Base.Words.{max_u64, add64, sub64}

pub data Error : Type 0 where
  publication_space_exhausted event_space_exhausted zero_count : Error

-- `next` is 0 once the last identity was given out.
pub record Allocator : Type 0 where
  pub next_publication : ℕ
  pub next_event : ℕ

unfoldable pub new_allocator : ℕ → ℕ → Result Error Allocator
new_allocator publication_high_water event_high_water =
    if publication_high_water == max_u64
    then err publication_space_exhausted
    else if event_high_water == max_u64
    then err event_space_exhausted
    else ok (record {
      next_publication = add64 publication_high_water 1;
      next_event = add64 event_high_water 1;
    })

-- The first identity of the range, and the next one to give out.
unfoldable pub reserve_range : Error → ℕ → ℕ → Result Error (ℕ × ℕ)
reserve_range exhausted next count =
    if next == 0 || ltb (max_u64 - next) (sub64 count 1)
    then err exhausted
    else if sub64 count 1 == max_u64 - next
    then ok (next, 0)
    else ok (next, add64 next count)

-- A reservation returns the first identity, and leaves the allocator as it was if it fails.
unfoldable pub reserve_publications : Allocator → ℕ → Result Error ℕ × Allocator
reserve_publications a count =
    if count == 0
    then (err zero_count, a)
    else elim (reserve_range publication_space_exhausted a.next_publication count) [
      | err e ↦ (err e, a)
      | ok (first, next) ↦ (ok first, record a { next_publication = next })
    ]

unfoldable pub reserve_events : Allocator → ℕ → Result Error ℕ × Allocator
reserve_events a count =
    if count == 0
    then (err zero_count, a)
    else elim (reserve_range event_space_exhausted a.next_event count) [
      | err e ↦ (err e, a)
      | ok (first, next) ↦ (ok first, record a { next_event = next })
    ]
