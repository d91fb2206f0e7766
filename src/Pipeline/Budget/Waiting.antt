-- ===== src/Pipeline/Budget/Waiting.antt =====
-- No caller of internal/pipeline/byte_budget.go waits while there is room for it.
use clicksync.Base.{
  ℕ, ◌+◌, ◌≤◌, ◌<◌, Bool, true, false, ◌==◌, ◌!=◌, nat_eq, ltb, leb, Bool-cases, inl, inr, ◌∙◌,
  List, [], ◌∷◌, ◌≡◌, refl, arith,
}
use clicksync.Base.Int.{ℤ, pos, negsuc}
use clicksync.Pipeline.Budget.{
  ByteBudget, release, Caller, trying, holding, waiting, returned, acquire, attempt, settle, Step,
  pass, look, woken, cancel, other_attempt, other_release, own, step, run,
}

-- The bytes in use are within the limit. A caller asks for at least one byte and no more than the
-- limit, and while its channel is the current one, there is no room for it.
abbrev pub Alert : Caller → ByteBudget → Type 0
Alert (trying size) b = (0 < size) × (size ≤ b.limit)
Alert (waiting size g) b =
    (0 < size)
    × (size ≤ b.limit)
    × (g ≤ b.generation)
    × (g ≡ b.generation → b.limit < b.used + size)
Alert (holding size) b = Unit
Alert (returned e) b = Unit

-- What one budget may become: the limit stays, and only a new channel goes with fewer bytes in use.
pub record Follows (b b' : ByteBudget) : Type 0 where
  pub limit : b'.limit ≡ b.limit
  pub bounded : b'.used ≤ b'.limit
  pub later : b.generation ≤ b'.generation
  pub same : b.generation ≡ b'.generation → b.used ≤ b'.used

release-Follows : (size : ℤ) (b : ByteBudget) → b.used ≤ b.limit → Follows b (release size b).1
unfolding release
release-Follows size b h = record {
  limit = ground arith;
  bounded = ground arith;
  later = ground arith;
  same = ground arith;
}

attempt-Follows :
    (done : Bool) (size : ℕ) (b : ByteBudget) → b.used ≤ b.limit → Follows b (attempt done size b).1
unfolding attempt
attempt-Follows done size b h = record {
  limit = ground arith;
  bounded = ground arith;
  later = ground arith;
  same = ground arith;
}

Alert-Follows :
    (caller : Caller) (b b' : ByteBudget) → Follows b b' → Alert caller b → Alert caller b'
Alert-Follows (trying size) b b' f a = (a.0, let l = f.limit in let s = a.1 in omega arith)
Alert-Follows (holding size) b b' f a = tt
Alert-Follows (waiting size g) b b' f (p, s, o, w) =
    let l = f.limit in
    let later = f.later in
    (
      p,
      omega arith,
      omega arith,
      λ e.
          let kept : b.generation ≡ b'.generation = omega arith in
          let more = f.same kept in let full = w (omega arith) in omega arith,
    )
Alert-Follows (returned e) b b' f a = tt

attempt-Alert :
    (done : Bool) (size : ℕ) (b : ByteBudget)
    → 0 < size
    → size ≤ b.limit
    → Alert (attempt done size b).0 (attempt done size b).1
unfolding attempt
attempt-Alert true size b p s = tt
attempt-Alert false size b p s = elim (Bool-cases (leb (b.used + size) b.limit)) [
  | inl room ↦ rw room tt
  | inr full ↦
      let none_left : b.limit < b.used + size = ground arith in
      rw full (p, s, omega arith, λ e. none_left)
]

-- The bytes in use are within the limit, which stays, and the caller is alert.
pub record IsSafe (limit : ℕ) (caller : Caller) (b : ByteBudget) : Type 0 where
  pub limit_stays : b.limit ≡ limit
  pub bounded : b.used ≤ b.limit
  pub alert : Alert caller b

own-IsSafe :
    (limit : ℕ) (s : Step) (caller : Caller) (b : ByteBudget)
    → IsSafe limit caller b
    → IsSafe limit (own s caller b).0 (own s caller b).1
unfolding own settle
own-IsSafe limit (pass done) (trying size) b v =
    let f = attempt-Follows done size b v.bounded in
    record {
      limit_stays = f.limit ∙ v.limit_stays;
      bounded = f.bounded;
      alert = attempt-Alert done size b v.alert.0 v.alert.1;
    }
own-IsSafe limit (look true) (holding size) b v =
    let f = release-Follows (pos size) b v.bounded in
    record { limit_stays = f.limit ∙ v.limit_stays; bounded = f.bounded; alert = tt }
own-IsSafe limit (look false) (holding size) b v = record {
  limit_stays = v.limit_stays;
  bounded = v.bounded;
  alert = tt;
}
own-IsSafe limit woken (waiting size g) b v = elim (Bool-cases (b.generation != g)) [
  | inl closed ↦
      rw closed (record {
        limit_stays = v.limit_stays;
        bounded = v.bounded;
        alert = (v.alert.0, v.alert.1);
      })
  | inr current ↦ rw current v
]
own-IsSafe limit cancel (waiting size g) b v = record {
  limit_stays = v.limit_stays;
  bounded = v.bounded;
  alert = tt;
}
own-IsSafe limit s caller b v = v

IsSafe-Follows :
    (limit : ℕ) (caller : Caller) (b b' : ByteBudget)
    → Follows b b'
    → IsSafe limit caller b
    → IsSafe limit caller b'
IsSafe-Follows limit caller b b' f v = record {
  limit_stays = f.limit ∙ v.limit_stays;
  bounded = f.bounded;
  alert = Alert-Follows caller b b' f v.alert;
}

step-IsSafe :
    (limit : ℕ) (s : Step) (caller : Caller) (b : ByteBudget)
    → IsSafe limit caller b
    → IsSafe limit (step s caller b).0 (step s caller b).1
unfolding step
step-IsSafe limit (other_attempt done size) caller b v =
    IsSafe-Follows limit caller b _ (attempt-Follows done size b v.bounded) v
step-IsSafe limit (other_release size) caller b v =
    IsSafe-Follows limit caller b _ (release-Follows size b v.bounded) v
step-IsSafe limit (pass done) caller b v = own-IsSafe limit (pass done) caller b v
step-IsSafe limit (look done) caller b v = own-IsSafe limit (look done) caller b v
step-IsSafe limit woken caller b v = own-IsSafe limit woken caller b v
step-IsSafe limit cancel caller b v = own-IsSafe limit cancel caller b v

run-IsSafe :
    (limit : ℕ) (ss : List Step) (caller : Caller) (b : ByteBudget)
    → IsSafe limit caller b
    → IsSafe limit (run ss caller b).0 (run ss caller b).1
unfolding run
run-IsSafe limit [] caller b v = v
run-IsSafe limit (s ∷ ss) caller b v =
    run-IsSafe limit ss (step s caller b).0 (step s caller b).1 (step-IsSafe limit s caller b v)

acquire-IsSafe :
    (done : Bool) (size : ℤ) (b : ByteBudget)
    → b.used ≤ b.limit
    → IsSafe b.limit (acquire done size b) b
unfolding acquire
acquire-IsSafe done (negsuc n) b h = record { limit_stays = refl; bounded = h; alert = tt }
acquire-IsSafe done (pos size) b h = elim (Bool-cases (ltb b.limit size)) [
  | inl large ↦ rw large (record { limit_stays = refl; bounded = h; alert = tt })
  | inr fine ↦ elim (Bool-cases (size == 0)) [
    | inl e ↦ elim (Bool-cases done) [
      | inl d ↦ rw (fine, e, d) (record { limit_stays = refl; bounded = h; alert = tt })
      | inr d ↦ rw (fine, e, d) (record { limit_stays = refl; bounded = h; alert = tt })
    ]
    | inr e ↦
        let some_asked : 0 < size = ground arith in
        let fits : size ≤ b.limit = ground arith in
        rw (fine, e) (record { limit_stays = refl; bounded = h; alert = (some_asked, fits) })
  ]
]

-- For a budget with at most its limit in use, a call of Acquire, and any steps of that call and of
-- other callers that follow, in any order and with any sizes released: the limit stays, the bytes in
-- use never exceed it, and the call never waits on the current channel while there is room for its
-- size; so no wake-up is lost.
pub run-acquire-IsSafe :
    (b : ByteBudget) (done : Bool) (size : ℤ) (ss : List Step)
    → b.used ≤ b.limit
    → IsSafe b.limit (run ss (acquire done size b) b).0 (run ss (acquire done size b) b).1
run-acquire-IsSafe b done size ss h =
    run-IsSafe b.limit ss (acquire done size b) b (acquire-IsSafe done size b h)
