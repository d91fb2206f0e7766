-- ===== src/Store/Allocator/Ranges.antt =====
-- The ranges that the allocator of internal/store/allocator.go gives out.
use clicksync.Base.{
  ℕ, zero, suc, ◌+◌, ◌≤◌, ◌<◌, nat_eq, ℕ_discrete, ok, err, ◌≡◌, refl, ◌⊎◌, inl, inr, arith,
}
use clicksync.Base.Words.{max_u64}
use clicksync.Store.Allocator.{
  Error, publication_space_exhausted, event_space_exhausted, zero_count, Allocator, reserve_range,
  reserve_publications, reserve_events,
}

-- The counters are uint64.
pub record IsValid (a : Allocator) : Type 0 where
  pub publications : a.next_publication ≤ max_u64
  pub events : a.next_event ≤ max_u64

-- The identity from which everything is still free: `next`, or beyond the last one if `next` is 0.
abbrev pub free_from : ℕ → ℕ
free_from zero = suc max_u64
free_from (suc n) = suc n

order : (a b : ℕ) → (a < b) ⊎ (a ≡ b) ⊎ (b < a)
order a b = grind arith

reserve_range_cases :
    (e : Error) (next count : ℕ)
    → next ≤ max_u64
    → 0 < count
    → count ≤ max_u64
    → ((free_from next + count ≤ suc max_u64)
        × (next' : ℕ) × (reserve_range e next count ≡ ok (next, next'))
        × (free_from next ≡ next)
        × (next' ≤ max_u64)
        × (free_from next' ≡ next + count))
      ⊎ ((suc max_u64 < free_from next + count) × (reserve_range e next count ≡ err e))
unfolding reserve_range
reserve_range_cases e zero count n p m = inr (omega arith, ground arith)
reserve_range_cases e (suc n) count q p m = elim (order (suc n + count) (suc max_u64)) [
  | inl below ↦ inl (omega arith, suc (n + count), ground arith, refl, omega arith, omega arith)
  | inr (inl last) ↦ inl (omega arith, 0, ground arith, refl, omega arith, omega arith)
  | inr (inr above) ↦ inr (above, ground arith)
]

-- What a reservation of `count` identities does to one counter.
pub record Granted (next count first next' : ℕ) : Type 0 where
  pub asked : 0 < count
  pub first_free : first ≡ next
  pub is_free : free_from next ≡ next
  pub fits : first + count ≤ suc max_u64
  pub taken : free_from next' ≡ first + count
  pub bounded : next' ≤ max_u64

-- Why a reservation is refused.
abbrev pub Refused : Error → ℕ → ℕ → Error → Type 0
Refused exhausted next count e =
    ((count ≡ 0) × (e ≡ zero_count))
    ⊎ ((0 < count) × (suc max_u64 < free_from next + count) × (e ≡ exhausted))

module _ (a : Allocator) (count : ℕ) (v : IsValid a) (m : count ≤ max_u64) where
  -- A reservation either gives out the first free identities, all of them within uint64, and only
  -- they stop being free; or it is refused, for a zero count or too few left, and changes nothing.
  pub reserve_publications_outcome :
      ((first next : ℕ) × Granted a.next_publication count first next
        × (reserve_publications a count ≡ (ok first, record a { next_publication = next })))
      ⊎ ((e : Error) × Refused publication_space_exhausted a.next_publication count e
          × (reserve_publications a count ≡ (err e, a)))
  unfolding reserve_publications
  reserve_publications_outcome = elim (ℕ_discrete count 0) [
    | yes none_asked ↦ inr (zero_count, inl (none_asked, refl), ground arith)
    | no some ↦
        elim (reserve_range_cases publication_space_exhausted a.next_publication count
          v.publications (omega arith) m) [
            | inl (fits, next, e, same, top, free) ↦ inl (
              a.next_publication,
              next,
              record {
                asked = omega arith;
                first_free = refl;
                is_free = same;
                fits = omega arith;
                taken = free;
                bounded = top;
              },
              ground arith,
            )
            | inr (full, e) ↦
                inr (publication_space_exhausted, inr (omega arith, full, refl), ground arith)
          ]
  ]

  pub reserve_events_outcome :
      ((first next : ℕ) × Granted a.next_event count first next
        × (reserve_events a count ≡ (ok first, record a { next_event = next })))
      ⊎ ((e : Error) × Refused event_space_exhausted a.next_event count e
          × (reserve_events a count ≡ (err e, a)))
  unfolding reserve_events
  reserve_events_outcome = elim (ℕ_discrete count 0) [
    | yes none_asked ↦ inr (zero_count, inl (none_asked, refl), ground arith)
    | no some ↦
        elim (reserve_range_cases event_space_exhausted a.next_event count v.events (omega arith)
          m) [
            | inl (fits, next, e, same, top, free) ↦ inl (
              a.next_event,
              next,
              record {
                asked = omega arith;
                first_free = refl;
                is_free = same;
                fits = omega arith;
                taken = free;
                bounded = top;
              },
              ground arith,
            )
            | inr (full, e) ↦
                inr (event_space_exhausted, inr (omega arith, full, refl), ground arith)
          ]
  ]
