-- ===== src/Store/Allocator/Histories.antt =====
-- Every history of reservations of internal/store/allocator.go.
use clicksync.Base.{
  ℕ, suc, ◌+◌, ◌≤◌, ◌<◌, List, [], ◌∷◌, Result, ok, err, All, ◌≡◌, inl, inr, arith, subst,
}
use clicksync.Base.Words.{max_u64}
use clicksync.Store.Allocator.{
  Error, Allocator, new_allocator, reserve_publications, reserve_events,
}
use clicksync.Store.Allocator.Ranges.{
  IsValid, free_from, reserve_publications_outcome, reserve_events_outcome,
}

pub data Call : Type 0 where
  publications events : ℕ → Call

-- The ranges that were given out, first identity and count, oldest first.
pub record Ranges : Type 0 where
  pub of_publications : List (ℕ × ℕ)
  pub of_events : List (ℕ × ℕ)

abbrev add_range : Result Error ℕ → ℕ → List (ℕ × ℕ) → List (ℕ × ℕ)
add_range (err e) count ranges = ranges
add_range (ok first) count ranges = (first, count) ∷ ranges

pub run : Allocator → List Call → Ranges
run a [] = record { of_publications = []; of_events = [] }
run a (publications count ∷ calls) =
    let (got, a') = reserve_publications a count in
    let later = run a' calls in
    record later { of_publications = add_range got count later.of_publications }
run a (events count ∷ calls) =
    let (got, a') = reserve_events a count in
    let later = run a' calls in record later { of_events = add_range got count later.of_events }

-- The ranges rise from `from`, do not meet, and stay within uint64.
abbrev pub Ascending : ℕ → List (ℕ × ℕ) → Type 0
Ascending from [] = Unit
Ascending from ((first, count) ∷ ranges) =
    (from ≤ first) × (0 < count) × (first + count ≤ suc max_u64) × Ascending (first + count) ranges

abbrev pub IsWord : Call → Type 0
IsWord (publications count) = count ≤ max_u64
IsWord (events count) = count ≤ max_u64

run-Ascending :
    (a : Allocator) (calls : List Call)
    → IsValid a
    → All IsWord calls
    → Ascending (free_from a.next_publication) (run a calls).of_publications
      × Ascending (free_from a.next_event) (run a calls).of_events
unfolding run
run-Ascending a [] v w = (tt, tt)
run-Ascending a (publications count ∷ calls) v w =
    elim (reserve_publications_outcome a count v w.0) [
      | inl (first, next, g, e) ↦
          let a' : Allocator = record a { next_publication = next } in
          let ih =
            run-Ascending a' calls (record { publications = g.bounded; events = v.events }) w.1 in
          rw e (
            (
              ground arith,
              g.asked,
              g.fits,
              subst (λ n. Ascending n (run a' calls).of_publications) g.taken ih.0,
            ),
            ih.1,
          )
      | inr (e', refused, e) ↦ rw e (run-Ascending a calls v w.1)
    ]
run-Ascending a (events count ∷ calls) v w = elim (reserve_events_outcome a count v w.0) [
  | inl (first, next, g, e) ↦
      let a' : Allocator = record a { next_event = next } in
      let ih =
        run-Ascending a' calls (record { publications = v.publications; events = g.bounded }) w.1 in
      rw e (
        ih.0,
        (
          ground arith,
          g.asked,
          g.fits,
          subst (λ n. Ascending n (run a' calls).of_events) g.taken ih.1,
        ),
      )
  | inr (e', refused, e) ↦ rw e (run-Ascending a calls v w.1)
]

new_allocator-IsValid :
    (p e : ℕ) (a : Allocator)
    → p ≤ max_u64
    → e ≤ max_u64
    → new_allocator p e ≡ ok a
    → IsValid a × (free_from a.next_publication ≡ suc p) × (free_from a.next_event ≡ suc e)
unfolding new_allocator
new_allocator-IsValid p e a lp le h = ground arith

-- Whatever is reserved, in whatever order, from the high-water marks read at start: the ranges of
-- publications lie above their mark, rise, never meet and never wrap around, and so do those of events.
pub run_new-Ascending :
    (p e : ℕ) (a : Allocator) (calls : List Call)
    → p ≤ max_u64
    → e ≤ max_u64
    → new_allocator p e ≡ ok a
    → All IsWord calls
    → Ascending (suc p) (run a calls).of_publications × Ascending (suc e) (run a calls).of_events
run_new-Ascending p e a calls lp le h w =
    let (v, free_p, free_e) = new_allocator-IsValid p e a lp le h in
    let (ps, es) = run-Ascending a calls v w in
    (
      subst (λ n. Ascending n (run a calls).of_publications) free_p ps,
      subst (λ n. Ascending n (run a calls).of_events) free_e es,
    )
