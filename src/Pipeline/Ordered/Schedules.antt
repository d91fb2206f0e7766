-- ===== src/Pipeline/Ordered/Schedules.antt =====
-- Every schedule of `OrderedMapper.Run` of internal/pipeline/ordered.go emits its results in input order.
use clicksync.Base.{◌<◌, List, Bool, bool_eq, nat_eq, Option, Result, length}
use clicksync.Base.Words.{u64_mod}
use clicksync.Pipeline.Ordered.{Event, Limits, Mapper, Outcome}
use clicksync.Pipeline.Ordered.Placement.{IsSteady}
use clicksync.Pipeline.Ordered.Invariant.{IsValid, GoodStep}

module _ {I O R E : Type 0} (decode : Bool → I → Result E O) (limits : Limits)
    (source : List (Event I R)) (small : length source < u64_mod) (steady : IsSteady decode) where
  abbrev Valid : Mapper I O R E → Type 0
  Valid m = IsValid decode limits source m

  abbrev Keeps : Option (Outcome I O R E) → Type 0
  Keeps o = GoodStep decode limits source o
