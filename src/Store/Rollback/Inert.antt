-- ===== src/Store/Rollback/Inert.antt =====
-- Invalidations without a header, as a failed rollback of internal/store/rollback.go leaves them, do
-- not show in what internal/store/recovery.go reads.
use clicksync.Base.{
  ℕ, ◌+◌, ◌<◌, List, [], ◌∷◌, ◌++◌, map, Bool, false, ◌&&◌, ◌==◌, nat_eq, leb, Result-cases, inl,
  inr, All, ◌≡◌, refl, ap, ◌∙◌, arith,
}
use mathlib.Core.List.{append-nil}
use clicksync.Base.Storage.{filter_by, keep}
use clicksync.Base.Ascending.{filter_by-append, filter_by-none, All-map, keep-All}
use clicksync.Store.Types.{CanonicalBlock, DatasetIdentity, Rollback}
use clicksync.Store.Tables.{ChainEvent, RollbackRow, adoption, invalidation, kind_eq}
use clicksync.Store.Recovery.{latest_adoption_query, latest_adoption, latest_committed_action}
use clicksync.Store.Recovery.Window.{
  has_header, membership, canonical_window_query, load_canonical_window,
}
use clicksync.Store.Recovery.Candidates.{Readings, snapshot_of, state_for_identity, read_state}
use clicksync.Store.Rollback.{invalidation_row}

-- An invalidation that no rollback row accounts for.
pub record IsHeaderless (rollbacks : List RollbackRow) (e : ChainEvent) : Type 0 where
  pub invalidates : e.kind ≡ invalidation
  pub no_header : has_header rollbacks e ≡ false

module _ (rollbacks : List RollbackRow) (events rows : List ChainEvent)
    (headerless : All (IsHeaderless rollbacks) rows) where
  -- A test that no such row passes selects as before.
  filter_by-headerless :
      (test : ChainEvent → Bool)
      → ((e : ChainEvent) → IsHeaderless rollbacks e → test e ≡ false)
      → filter_by test (events ++ rows) ≡ filter_by test events
  filter_by-headerless test out =
      filter_by-append test events rows
      ∙ (ap (◌++◌ (filter_by test events))
            (filter_by-none test rows (All-map (IsHeaderless rollbacks) _ out rows headerless))
          ∙ append-nil (filter_by test events))

  not_adoption : (e : ChainEvent) → IsHeaderless rollbacks e → (e.kind == adoption) ≡ false
  not_adoption e h = let k = h.invalidates in ground arith

  membership-headerless :
      (snapshot : ℕ)
      → membership snapshot (events ++ rows) rollbacks ≡ membership snapshot events rollbacks
  unfolding membership
  membership-headerless snapshot =
      rw
        (
          filter_by-headerless (λ (e : ChainEvent). e.kind == adoption && leb e.event_seq snapshot)
              (λ e h. let k = not_adoption e h in ground arith),
          filter_by-headerless
              (λ (e : ChainEvent).
                e.kind == invalidation && leb e.event_seq snapshot && has_header rollbacks e)
              (λ e h. let n = h.no_header in ground arith),
        )
        refl

  load_canonical_window-headerless :
      {E : Type 0} (readings : Readings E) (snapshot limit : ℕ)
      → load_canonical_window readings.window snapshot limit (events ++ rows) rollbacks
        ≡ load_canonical_window readings.window snapshot limit events rollbacks
  unfolding load_canonical_window canonical_window_query
  load_canonical_window-headerless readings snapshot limit =
      rw (membership-headerless snapshot) refl

  latest_committed_action-headerless :
      {E : Type 0} (readings : Readings E)
      → latest_committed_action readings.adoptions readings.rollbacks (events ++ rows) rollbacks
        ≡ latest_committed_action readings.adoptions readings.rollbacks events rollbacks
  unfolding latest_committed_action latest_adoption latest_adoption_query
  latest_committed_action-headerless readings =
      rw (filter_by-headerless (λ (e : ChainEvent). e.kind == adoption) not_adoption) refl

  pub read_state-headerless :
      {E : Type 0} (readings : Readings E) (identity : DatasetIdentity) (depth : ℕ)
      → read_state readings identity depth (events ++ rows) rollbacks
        ≡ read_state readings identity depth events rollbacks
  unfolding read_state state_for_identity
  read_state-headerless readings identity depth =
      let same = latest_committed_action-headerless readings in
      elim (Result-cases
        (latest_committed_action readings.adoptions readings.rollbacks events rollbacks)) [
          | inl (action, e) ↦
              rw
                (
                  same,
                  e,
                  load_canonical_window-headerless readings (snapshot_of action) (depth + 1),
                )
                refl
          | inr (e, wrong) ↦ rw (same, wrong) refl
        ]

module _ (r : Rollback) (rollbacks : List RollbackRow)
    (fresh : All (λ (rb : RollbackRow). rb.event_seq < r.event_seq) rollbacks) where
  has_header-fresh :
      (rs : List RollbackRow) (e : ChainEvent)
      → e.event_seq ≡ r.event_seq
      → All (λ (rb : RollbackRow). rb.event_seq < r.event_seq) rs
      → has_header rs e ≡ false
  unfolding has_header
  has_header-fresh [] e s h = refl
  has_header-fresh (rb ∷ rs) e s h =
      let rest = has_header-fresh rs e s h.1 in let below = h.0 in ground arith

  pub invalidations-IsHeaderless :
      (ds : List CanonicalBlock) → All (IsHeaderless rollbacks) (map (invalidation_row r) ds)
  unfolding invalidation_row
  invalidations-IsHeaderless [] = tt
  invalidations-IsHeaderless (d ∷ ds) = (
    record { invalidates = refl; no_header = has_header-fresh rollbacks _ refl fresh },
    invalidations-IsHeaderless ds,
  )

  -- Whatever part of the invalidations of a new rollback is there.
  pub kept-IsHeaderless :
      (mask : List Bool) (ds : List CanonicalBlock)
      → All (IsHeaderless rollbacks) (keep mask (map (invalidation_row r) ds))
  kept-IsHeaderless mask ds =
      keep-All (IsHeaderless rollbacks) mask (map (invalidation_row r) ds)
        (invalidations-IsHeaderless ds)
