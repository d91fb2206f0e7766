-- ===== src/Store/Recovery/Sound/Recovered.antt =====
-- The state that `State` of internal/store/recovery.go returns, against the tables.
use clicksync.Base.{
  ℕ, ◌+◌, List, [], ◌∷◌, length, false, ◌||◌, ◌==◌, ◌!=◌, nat_eq, Option, ok, Result-cases,
  Bool-cases, inl, inr, ◌≡◌, refl, sym, subst, arith,
}
use clicksync.Model.{Point, point_eq}
use clicksync.Store.Types.{CanonicalBlock, DatasetIdentity, State}
use clicksync.Store.Tables.{ChainEvent, RollbackRow, kind_eq}
use clicksync.Store.Recovery.{
  LatestAction, latest_committed_action, validate_tip, validate_recovered_state,
}
use clicksync.Store.Recovery.Window.{load_canonical_window}
use clicksync.Store.Recovery.Candidates.{
  Readings, snapshot_of, tip_of, state_for_identity, read_state, or_tip, intersection_candidates,
}
use clicksync.Store.Recovery.Sound.{Window, load_canonical_window-Window}
use clicksync.Store.Recovery.Sound.Latest.{IsLatest, latest_committed_action-IsLatest}

-- The tip is that of the window, or the start.
abbrev pub IsTip : DatasetIdentity → Point → List CanonicalBlock → Type 0
IsTip dataset tip [] = tip ≡ dataset.start
IsTip dataset tip (b ∷ bs) = b.point ≡ tip

validate_tip-IsTip :
    {E : Type 0} (dataset : DatasetIdentity) (tip : Point) (bs : List CanonicalBlock)
    → validate_tip {E = E} dataset tip bs ≡ ok tt
    → IsTip dataset tip bs
unfolding validate_tip
validate_tip-IsTip dataset tip [] h = ground arith
validate_tip-IsTip dataset tip (b ∷ bs) h = ground arith

empty-IsTip :
    (dataset : DatasetIdentity) (tip : Point) (bs : List CanonicalBlock)
    → (length bs != 0 || tip != dataset.start) ≡ false
    → IsTip dataset tip bs
empty-IsTip dataset tip [] h = ground arith
empty-IsTip dataset tip (b ∷ bs) h = absurd (ground arith)

validate_recovered_state-IsTip :
    {E : Type 0} (s : State)
    → validate_recovered_state {E = E} s ≡ ok tt
    → IsTip s.dataset s.tip s.canonical
unfolding validate_recovered_state
validate_recovered_state-IsTip {E} s h = elim (Bool-cases (s.snapshot == 0)) [
  | inl e ↦ empty-IsTip s.dataset s.tip s.canonical (ground arith)
  | inr e ↦ validate_tip-IsTip {E = E} s.dataset s.tip s.canonical (ground arith)
]

-- What a state says of the tables it was read from.
pub record Recovered (identity : DatasetIdentity) (depth : ℕ) (events : List ChainEvent)
    (rollbacks : List RollbackRow) (s : State) : Type 0 where
  pub dataset : s.dataset ≡ identity
  pub latest : IsLatest events rollbacks s.snapshot
  pub window : Window s.snapshot (depth + 1) events rollbacks s.canonical
  pub tip : IsTip identity s.tip s.canonical
  pub offered : s.intersections ≡ intersection_candidates s

module _ {E : Type 0} (readings : Readings E) (identity : DatasetIdentity) (depth : ℕ)
    (events : List ChainEvent) (rollbacks : List RollbackRow) where
  -- The state, from the latest action and the window.
  abbrev assembled : Option LatestAction → List CanonicalBlock → State
  assembled action bs = record {
    dataset = identity;
    snapshot = snapshot_of action;
    tip = tip_of identity action;
    canonical = bs;
    intersections = [];
  }

  assembled-Recovered :
      (action : Option LatestAction) (bs : List CanonicalBlock) (s : State)
      → latest_committed_action readings.adoptions readings.rollbacks events rollbacks ≡ ok action
      → load_canonical_window readings.window (snapshot_of action) (depth + 1) events rollbacks
        ≡ ok bs
      → validate_recovered_state {E = E} (assembled action bs) ≡ ok tt
      → s ≡ record (assembled action bs) {
        intersections = intersection_candidates (assembled action bs);
      }
      → Recovered identity depth events rollbacks s
  unfolding intersection_candidates or_tip
  assembled-Recovered action bs s found loaded valid same =
      subst (Recovered identity depth events rollbacks) (sym same) (record {
        dataset = refl;
        latest =
            latest_committed_action-IsLatest readings.adoptions readings.rollbacks events rollbacks
              action found;
        window =
            load_canonical_window-Window readings.window (snapshot_of action) (depth + 1) events
              rollbacks bs loaded;
        tip = validate_recovered_state-IsTip {E = E} (assembled action bs) valid;
        offered = refl;
      })

  -- A state that State returns has the dataset's identity and is the latest: its snapshot is at least
  -- the event of every adoption and of every rollback. Its canonical blocks are those that the window's
  -- query answers at that snapshot, at most the depth and one, each published once, in strictly falling
  -- order of events within the snapshot, with well-formed points; the tip is the first of them, or the
  -- start of the dataset if there is none; and its intersections are those of intersectionCandidates.
  pub read_state-Recovered :
      (s : State)
      → read_state readings identity depth events rollbacks ≡ ok s
      → Recovered identity depth events rollbacks s
  unfolding read_state state_for_identity
  read_state-Recovered s h =
      elim (Result-cases
        (latest_committed_action readings.adoptions readings.rollbacks events rollbacks)) [
          | inr (wrong, e) ↦ absurd (ground arith)
          | inl (action, found) ↦
              elim (Result-cases (
                load_canonical_window readings.window (snapshot_of action) (depth + 1) events
                  rollbacks)) [
                    | inr (wrong, e) ↦ absurd (ground arith)
                    | inl (bs, loaded) ↦
                        elim (Result-cases
                          (validate_recovered_state {E = E} (assembled action bs))) [
                            | inr (wrong, e) ↦ absurd (ground arith)
                            | inl (done, valid) ↦
                                assembled-Recovered action bs s found loaded valid (ground arith)
                          ]
                  ]
        ]
