-- ===== src/Store/Resolve/Soundness.antt =====
-- What `resolveRollback` of internal/store/rollback.go accepts, and what it answers.
use clicksync.Base.{
  ℕ, suc, ◌+◌, ◌≤◌, ◌<◌, List, [], ◌∷◌, ◌++◌, true, false, nat_eq, bool_eq, bytes_eq, none, some,
  ok, length, take, All, length-append, take-length_append, Bool-cases, Option-cases, ◌≡◌, refl,
  sym, ap, subst, ◌∙◌, ◌⊎◌, inl, inr, arith, >>=-eq-ok,
}
use clicksync.Base.Words.{u32_mod}
use clicksync.Model.{Point, point_eq, Point-dec}
use clicksync.Store.Points.{same_wire_point}
use clicksync.Store.Types.{CanonicalBlock, State, RollbackRequest}
use clicksync.Store.Resolve.{find_block, Target, resolve_target, descend, resolve_rollback}

-- The blocks above the first one at a requested wire point.
pub record FoundAt (requested : Point) (k : ℕ) (blocks : List CanonicalBlock) (index : ℕ)
    (point : Point) : Type 0 where
  pub above : List CanonicalBlock
  pub block : CanonicalBlock
  pub below : List CanonicalBlock
  pub split : blocks ≡ above ++ (block ∷ below)
  pub position : k + length above ≡ index
  pub at_point : block.point ≡ point
  pub requested_there : same_wire_point requested block.point ≡ true
  pub not_above : All (λ b. same_wire_point requested b.point ≡ false) above

abbrev pub NotIn : Point → List CanonicalBlock → Type 0
NotIn requested blocks = All (λ b. same_wire_point requested b.point ≡ false) blocks

find_block-FoundAt :
    (requested : Point) (k : ℕ) (blocks : List CanonicalBlock) (index : ℕ) (point : Point)
    → find_block requested k blocks ≡ some (index, point)
    → FoundAt requested k blocks index point
unfolding find_block
find_block-FoundAt requested k [] index point h = cc
find_block-FoundAt requested k (b ∷ blocks) index point h =
    elim (Bool-cases (same_wire_point requested b.point)) [
      | inl hit ↦ record {
        above = [];
        block = b;
        below = blocks;
        split = refl;
        position = ground arith;
        at_point = ground arith;
        requested_there = hit;
        not_above = tt;
      }
      | inr miss ↦
          let later = find_block-FoundAt requested (suc k) blocks index point (ground arith) in
          record {
            above = b ∷ later.above;
            block = later.block;
            below = later.below;
            split = ap (◌∷◌ b) later.split;
            position = omega (arith, later.position);
            at_point = later.at_point;
            requested_there = later.requested_there;
            not_above = (miss, later.not_above);
          }
    ]

find_block-NotIn :
    (requested : Point) (k : ℕ) (blocks : List CanonicalBlock)
    → find_block requested k blocks ≡ none
    → NotIn requested blocks
unfolding find_block
find_block-NotIn requested k [] h = tt
find_block-NotIn requested k (b ∷ blocks) h =
    ground (arith, find_block-NotIn requested (suc k) blocks)

same_wire_point_origin :
    (left right : Point)
    → left.origin ≡ true
    → right.origin ≡ true
    → same_wire_point left right ≡ true
unfolding same_wire_point
same_wire_point_origin left right l r = ground arith

-- What a resolved target is: a block of the window, or the dataset's start, which no block of the
-- window is asked for by.
abbrev pub Located : State → Point → Target → Type 0
Located state requested target =
    ((index : ℕ) × (target.in_window ≡ some index)
      × FoundAt requested 0 state.canonical index target.point)
    ⊎ ((target.in_window ≡ none)
        × (target.point ≡ state.dataset.start)
        × ((requested.origin ≡ true) ⊎ NotIn requested state.canonical))

module _ (state : State) (requested : Point) (target : Target) where
  resolve_target-Located :
      resolve_target state requested ≡ ok target
      → (same_wire_point requested target.point ≡ true) × Located state requested target
  unfolding resolve_target
  resolve_target-Located h = elim (Bool-cases requested.origin) [
    | inl origin ↦ (
      ground (arith, same_wire_point_origin requested state.dataset.start),
      inr (ground arith, ground arith, inl origin),
    )
    | inr real ↦ elim (Option-cases (find_block requested 0 state.canonical)) [
      | inl missing ↦ (
        ground arith,
        inr (
          ground arith,
          ground arith,
          inr (find_block-NotIn requested 0 state.canonical missing),
        ),
      )
      | inr ((index, point), found) ↦
          let at = find_block-FoundAt requested 0 state.canonical index point found in
          let there : point ≡ target.point = ground arith in
          (
            subst (λ p. same_wire_point requested p ≡ true) (at.at_point ∙ there)
                at.requested_there,
            inl (index, ground arith, subst (FoundAt requested 0 state.canonical index) there at),
          )
    ]
  ]

-- What a rollback to `target` takes off, newest first.
abbrev pub Takes : State → Point → Point → List CanonicalBlock → Type 0
Takes state requested target descendants =
    ((target ≡ state.tip) × (descendants ≡ []))
    ⊎ ((block : CanonicalBlock) × (below : List CanonicalBlock) × (state.canonical
          ≡ descendants ++ (block ∷ below))
        × (block.point ≡ target)
        × NotIn requested descendants)
    ⊎ ((target ≡ state.dataset.start)
        × (descendants ≡ state.canonical)
        × ((requested.origin ≡ true) ⊎ NotIn requested state.canonical))

take-FoundAt :
    (requested : Point) (blocks : List CanonicalBlock) (index : ℕ) (point : Point)
    (at : FoundAt requested 0 blocks index point)
    → (take index blocks ≡ at.above) × (length at.above ≡ index) × (index < length blocks)
take-FoundAt requested blocks index point at =
    let size : length at.above ≡ index = omega (arith, at.position) in
    (
      ap (take index) at.split
          ∙ ap (λ n. take n (at.above ++ (at.block ∷ at.below))) (sym size)
          ∙ take-length_append at.above (at.block ∷ at.below),
      size,
      omega (arith, size, ap length at.split, length-append at.above (at.block ∷ at.below)),
    )

descend-Takes :
    (state : State) (requested : Point) (depth : ℕ) (target : Target) (to : Point)
    (descendants : List CanonicalBlock)
    → length state.canonical ≤ u32_mod
    → Located state requested target
    → descend state depth target ≡ ok (to, descendants)
    → (to ≡ target.point) × (length descendants ≤ depth) × Takes state requested to descendants
unfolding descend
descend-Takes state requested depth target to descendants small located h =
    elim (Point-dec target.point state.tip) [
      | yes at_tip ↦
          let none_taken : descendants ≡ [] = ground arith in
          (ground arith, omega (arith, ap length none_taken), inl (ground arith, none_taken))
      | no below_tip ↦ elim located [
        | inl (index, inside, at) ↦
            let (above, size, within) =
              take-FoundAt requested state.canonical index target.point at in
            let shallow : index ≤ depth = ground arith in
            let taken : descendants ≡ at.above = ground (arith, above) in
            let same : to ≡ target.point = ground arith in
            (
              same,
              omega (arith, ap length taken, size, shallow),
              inr (
                  inl (
                    at.block,
                    at.below,
                    at.split ∙ ap (λ l. l ++ (at.block ∷ at.below)) (sym taken),
                    at.at_point ∙ sym same,
                    subst (NotIn requested) (sym taken) at.not_above,
                  )),
            )
        | inr (outside, start, unseen) ↦
            (ground arith, ground arith, inr (inr (ground arith, ground arith, unseen)))
      ]
    ]

-- A rollback that is accepted goes to the point that was asked for, on the wire, and takes off at
-- most the maximum depth of blocks: none if the target is the tip; else exactly the canonical blocks
-- above the first one at that point; or all of them, if the target is the dataset's start. The window
-- has at most 2 ^ 32 blocks, since a state is loaded with one more than the maximum depth.
pub resolve_rollback-Takes :
    (state : State) (request : RollbackRequest) (to : Point) (descendants : List CanonicalBlock)
    → length state.canonical ≤ u32_mod
    → resolve_rollback state request ≡ ok (to, descendants)
    → (same_wire_point request.to to ≡ true)
      × (length descendants ≤ request.maximum_depth)
      × Takes state request.to to descendants
unfolding resolve_rollback
resolve_rollback-Takes state request to descendants small h =
    let (target, found, rest) =
      >>=-eq-ok (resolve_target state request.to) (descend state request.maximum_depth) h in
    let (wire, located) = resolve_target-Located state request.to target found in
    let (same, shallow, takes) =
      descend-Takes state request.to request.maximum_depth target to descendants small located
        rest in
    (subst (λ p. same_wire_point request.to p ≡ true) (sym same) wire, shallow, takes)
