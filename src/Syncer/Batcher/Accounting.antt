-- ===== src/Syncer/Batcher/Accounting.antt =====
-- The counters and the timer of internal/syncer/batcher.go follow the pending blocks, within the
-- limits.
use clicksync.Base.{
  ℕ, suc, zero, ◌+◌, ◌-◌, ◌≤◌, ◌<◌, ◌^◌, List, [], ◌∷◌, ◌++◌, true, false, none, some, length, take,
  length-append, ◌≡◌, ◌≢◌, refl, ap, ◌⊎◌, inl, inr, arith, if◌then◌else◌, ◌==◌, ◌∙◌, sym, subst,
  Bool-cases, nat_eq,
}
use clicksync.Base.Words.{add64, sub64, u64_mod, max_u64}
use clicksync.Syncer.Blocks.{DecodedBlock, fact_rows}
use clicksync.Syncer.Batcher.{
  Limits, Staged, Clock, is_empty, arm_timer, fits, add, count_bytes, count_rows, recount,
}

pub record IsLimits (limits : Limits) : Type 0 where
  pub blocks : 1 ≤ limits.blocks
  pub bytes : 1 ≤ limits.bytes
  pub bytes_int64 : limits.bytes < 2 ^ 63
  pub rows : 1 ≤ limits.rows
  pub rows_uint64 : limits.rows ≤ max_u64

abbrev pub bytes_of : List DecodedBlock → ℕ
bytes_of [] = 0
bytes_of (b ∷ bs) = b.raw_length + bytes_of bs

abbrev pub rows_of : List DecodedBlock → ℕ
rows_of [] = 0
rows_of (b ∷ bs) = fact_rows b.block + rows_of bs

-- A batch that the limits admit.
pub record Fits (limits : Limits) (batch : List DecodedBlock) : Type 0 where
  pub blocks : length batch ≤ limits.blocks
  pub bytes : bytes_of batch ≤ limits.bytes
  pub rows : rows_of batch ≤ limits.rows

-- A timer runs exactly while blocks are pending.
abbrev pub IsTimed : Staged → Type 0
IsTimed s =
    ((s.pending ≡ []) × (s.timer ≡ none))
    ⊎ ((is_empty s.pending ≡ false) × ((d : ℕ) × (s.timer ≡ some d)))

pub record IsCounted (limits : Limits) (s : Staged) : Type 0 where
  pub fits : Fits limits s.pending
  pub bytes : s.pending_bytes ≡ bytes_of s.pending
  pub rows : s.pending_rows ≡ rows_of s.pending

pub record IsStaged (limits : Limits) (s : Staged) : Type 0 where
  pub counted : IsCounted limits s
  pub timed : IsTimed s

bytes_of-append : (xs ys : List DecodedBlock) → bytes_of (xs ++ ys) ≡ bytes_of xs + bytes_of ys
bytes_of-append [] ys = omega arith
bytes_of-append (x ∷ xs) ys = omega (arith, bytes_of-append xs ys)

rows_of-append : (xs ys : List DecodedBlock) → rows_of (xs ++ ys) ≡ rows_of xs + rows_of ys
rows_of-append [] ys = omega arith
rows_of-append (x ∷ xs) ys = omega (arith, rows_of-append xs ys)

pub take-Fits :
    (limits : Limits) (n : ℕ) (xs : List DecodedBlock) → Fits limits xs → Fits limits (take n xs)
take-Fits limits n xs f = record {
  blocks = omega (arith, (sizes n xs).0, f.blocks);
  bytes = omega (arith, (sizes n xs).1, f.bytes);
  rows = omega (arith, (sizes n xs).2, f.rows);
}
  where
    sizes :
        (n : ℕ) (xs : List DecodedBlock)
        → (length (take n xs) ≤ length xs)
          × (bytes_of (take n xs) ≤ bytes_of xs)
          × (rows_of (take n xs) ≤ rows_of xs)
    sizes zero xs = omega arith
    sizes (suc n) [] = omega arith
    sizes (suc n) (x ∷ xs) = omega (arith, sizes n xs)

count_bytes_lem :
    (n : ℕ) (xs : List DecodedBlock)
    → n + bytes_of xs < u64_mod
    → count_bytes n xs ≡ n + bytes_of xs
unfolding count_bytes
count_bytes_lem n [] h = omega arith
count_bytes_lem n (x ∷ xs) h =
    let sum : add64 n x.raw_length ≡ n + x.raw_length = omega arith in
    ap (λ k. count_bytes k xs) sum
    ∙ count_bytes_lem (n + x.raw_length) xs (omega arith)
    ∙ omega arith

count_rows_lem :
    (n : ℕ) (xs : List DecodedBlock) → n + rows_of xs < u64_mod → count_rows n xs ≡ n + rows_of xs
unfolding count_rows
count_rows_lem n [] h = omega arith
count_rows_lem n (x ∷ xs) h =
    let sum : add64 n (fact_rows x.block) ≡ n + fact_rows x.block = omega arith in
    ap (λ k. count_rows k xs) sum
    ∙ count_rows_lem (n + fact_rows x.block) xs (omega arith)
    ∙ omega arith

is_empty-append : (xs : List DecodedBlock) (x : DecodedBlock) → is_empty (xs ++ (x ∷ [])) ≡ false
is_empty-append [] x = refl
is_empty-append (y ∷ xs) x = refl

is_empty-length : (xs : List DecodedBlock) → length xs ≢ 0 → is_empty xs ≡ false
is_empty-length [] h = absurd (h refl)
is_empty-length (x ∷ xs) h = refl

module _ (limits : Limits) where
  -- Arming the timer touches nothing else.
  abbrev pub SameBatch : Staged → Staged → Type 0
  SameBatch s t =
      (t.pending ≡ s.pending)
      × (t.pending_bytes ≡ s.pending_bytes)
      × (t.pending_rows ≡ s.pending_rows)

  pub arm_timer-IsTimed :
      (now : ℕ) (s : Staged)
      → SameBatch s (arm_timer limits now s) × IsTimed (arm_timer limits now s)
  unfolding arm_timer
  arm_timer-IsTimed now s = armed s.pending refl
    where
      armed :
          (xs : List DecodedBlock)
          → s.pending ≡ xs
          → SameBatch s (arm_timer limits now s) × IsTimed (arm_timer limits now s)
      armed [] e = ground arith
      armed (x ∷ xs) e =
          (ground arith, inr (ground arith, (limits.age + s.first_staged - now, ground arith)))

  pub IsCounted-of_SameBatch :
      (s t : Staged) → SameBatch s t → IsCounted limits s → IsCounted limits t
  IsCounted-of_SameBatch s t same c = record {
    fits = subst (Fits limits) (sym same.0) c.fits;
    bytes = same.1 ∙ c.bytes ∙ ap bytes_of (sym same.0);
    rows = same.2 ∙ c.rows ∙ ap rows_of (sym same.0);
  }

  -- One more block that fits, counted.
  append-IsCounted :
      (s t : Staged) (block : DecodedBlock)
      → IsLimits limits
      → IsCounted limits s
      → fits limits s block ≡ true
      → t.pending ≡ s.pending ++ (block ∷ [])
      → t.pending_bytes ≡ add64 s.pending_bytes block.raw_length
      → t.pending_rows ≡ add64 s.pending_rows (fact_rows block.block)
      → IsCounted limits t
  unfolding fits
  append-IsCounted s t block ok c f p b r =
      let room : length s.pending < limits.blocks = ground arith in
      let left_bytes : block.raw_length ≤ sub64 limits.bytes s.pending_bytes = ground arith in
      let left_rows : fact_rows block.block ≤ sub64 limits.rows s.pending_rows = ground arith in
      let size = ap length p ∙ length-append s.pending (block ∷ []) in
      let bytes = ap bytes_of p ∙ bytes_of-append s.pending (block ∷ []) in
      let rows = ap rows_of p ∙ rows_of-append s.pending (block ∷ []) in
      record {
        fits = record {
          blocks = omega (arith, room, size);
          bytes = omega (arith, left_bytes, bytes, c.fits.bytes, c.bytes, ok.bytes_int64);
          rows = omega (arith, left_rows, rows, c.fits.rows, c.rows, ok.rows_uint64);
        };
        bytes = omega (arith, left_bytes, bytes, b, c.fits.bytes, c.bytes, ok.bytes_int64);
        rows = omega (arith, left_rows, rows, r, c.fits.rows, c.rows, ok.rows_uint64);
      }

module _ (limits : Limits) (clock : Clock) (ok : IsLimits limits) where
  -- What one more pending block makes of the variables, before the timer.
  abbrev appended : Staged → DecodedBlock → Staged
  appended s block = record s {
    first_staged = if is_empty s.pending then clock.staged_at else s.first_staged;
    pending = s.pending ++ (block ∷ []);
    pending_bytes = add64 s.pending_bytes block.raw_length;
    pending_rows = add64 s.pending_rows (fact_rows block.block);
  }

  pub add-IsStaged :
      (s : Staged) (block : DecodedBlock)
      → IsStaged limits s
      → fits limits s block ≡ true
      → IsStaged limits (add limits clock s block)
        × ((add limits clock s block).pending ≡ s.pending ++ (block ∷ []))
  unfolding add
  add-IsStaged s block v f =
      let t = appended s block in
      let c = append-IsCounted limits s t block ok v.counted f refl refl refl in
      let (same, timed) = arm_timer-IsTimed limits clock.armed_at t in
      elim (Bool-cases (length t.pending == 1)) [
        | inl first ↦
            rw first
              (record { counted = IsCounted-of_SameBatch limits t _ same c; timed = timed }, same.0)
        | inr more ↦
            let still : IsTimed t = elim v.timed [
              | inl (e, _) ↦
                  absurd (ground (arith, ap length e, length-append s.pending (block ∷ [])))
              | inr (_, running) ↦ inr (is_empty-append s.pending block, running)
            ] in
            rw more (record { counted = c; timed = still }, refl)
      ]

  pub recount-IsStaged :
      (s : Staged)
      → Fits limits s.pending
      → IsStaged limits (recount limits clock s) × ((recount limits clock s).pending ≡ s.pending)
  unfolding recount
  recount-IsStaged s f =
      let t : Staged = record s {
        pending_bytes = count_bytes 0 s.pending;
        pending_rows = count_rows 0 s.pending;
        first_staged = if is_empty s.pending then 0 else s.first_staged;
      } in
      let (same, timed) = arm_timer-IsTimed limits clock.armed_at t in
      let c : IsCounted limits t = record {
        fits = f;
        bytes = count_bytes_lem 0 s.pending (omega (arith, f.bytes, ok.bytes_int64)) ∙ omega arith;
        rows = count_rows_lem 0 s.pending (omega (arith, f.rows, ok.rows_uint64)) ∙ omega arith;
      } in
      (record { counted = IsCounted-of_SameBatch limits t _ same c; timed = timed }, same.0)
