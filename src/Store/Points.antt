-- ===== src/Store/Points.antt =====
-- internal/store/encoding.go, with `nullablePoint` and `sameWirePoint` of internal/store/rollback.go:
-- chain points and their nullable columns. store.Point has the fields of model.Point and is converted
-- field by field, so the two are one type here. A NULL hash is scanned as an empty slice.
use clicksync.Base.{
  ℕ, List, [], Bool, true, false, not, ◌&&◌, ◌||◌, ◌==◌, ◌!=◌, nat_eq, bool_eq, bytes_eq, Option,
  none, some, Result, ok, err, length, if◌then◌else◌, ◌>>=◌, ◌>>◌, reject_if, ◌≡◌, arith,
}
use clicksync.Model.{Hash32, zero_hash, Point}

pub data Error : Type 0 where
  hash_length : ℕ → Error
  origin_fields incomplete invalid_shape : Error

unfoldable pub valid_point : Point → Bool
valid_point p =
    if p.origin
    then p.slot == 0 && p.hash == zero_hash && p.block_number == 0 && not p.is_byron_ebb
    else p.hash != zero_hash

-- The copy into a `[32]byte` of a slice that long.
unfoldable pub hash32 : List ℕ → Result Error Hash32
hash32 value = if length value != 32 then err (hash_length (length value)) else ok value

abbrev pub is_none {ℓ} : {A : Type ℓ} → Option A → Bool
is_none none = true
is_none (some a) = false

abbrev pub origin_point : Point
origin_point = record {
  origin = true;
  slot = 0;
  hash = zero_hash;
  block_number = 0;
  is_byron_ebb = false;
}

-- The branch of `scanPoint` where both numbers are there.
unfoldable pub scan_numbers : ℕ → List ℕ → ℕ → Bool → Result Error Point
unfolding hash32
scan_numbers slot hash_bytes number ebb = do
  hash ← hash32 hash_bytes
  let point : Point = record {
    origin = false;
    slot = slot;
    hash = hash;
    block_number = number;
    is_byron_ebb = ebb;
  }
  reject_if (not (valid_point point)) invalid_shape
  ok point

unfoldable pub scan_present : Option ℕ → List ℕ → Option ℕ → Bool → Result Error Point
scan_present (some slot) hash_bytes (some number) ebb = scan_numbers slot hash_bytes number ebb
scan_present _ hash_bytes _ ebb = err incomplete

unfoldable pub scan_point : Bool → Option ℕ → List ℕ → Option ℕ → Bool → Result Error Point
unfolding scan_present
scan_point origin slot hash_bytes number ebb =
    if origin
    then (if not (is_none slot) || length hash_bytes != 0 || not (is_none number) || ebb
        then err origin_fields
        else ok origin_point)
    else scan_present slot hash_bytes number ebb

-- `nullablePoint`, with the slice that a NULL hash is read back as.
unfoldable pub nullable_point : Point → Option ℕ × List ℕ × Option ℕ
nullable_point p = if p.origin then (none, [], none) else (some p.slot, p.hash, some p.block_number)

-- Equality of the parts of a point that relays send.
unfoldable pub same_wire_point : Point → Point → Bool
same_wire_point left right =
    if left.origin || right.origin
    then left.origin == right.origin
    else left.slot == right.slot && left.hash == right.hash

-- A well-formed point is read back from its columns as it was written, whether the Origin flag is
-- stored (rollback targets) or told from a NULL slot (old tips).
pub scan_point-nullable_point :
    (p : Point)
    → valid_point p ≡ true
    → length p.hash ≡ 32
    → let (slot, hash, number) = nullable_point p in
      (scan_point p.origin slot hash number p.is_byron_ebb ≡ ok p)
      × (scan_point (is_none slot) slot hash number p.is_byron_ebb ≡ ok p)
unfolding valid_point nullable_point scan_point scan_numbers
scan_point-nullable_point p v n = ground arith

origin_point_valid : valid_point origin_point ≡ true
unfolding valid_point
origin_point_valid = ground arith

scan_numbers_sound :
    (slot : ℕ) (hash_bytes : List ℕ) (number : ℕ) (ebb : Bool) (p : Point)
    → scan_numbers slot hash_bytes number ebb ≡ ok p
    → (valid_point p ≡ true) × (length p.hash ≡ 32) × (p.origin ≡ false)
unfolding scan_numbers
scan_numbers_sound slot hash_bytes number ebb p h = ground arith

-- Whatever the columns hold, a point that is read is well-formed, with a hash of 32 bytes.
pub scan_point_sound :
    (origin : Bool) (slot : Option ℕ) (hash_bytes : List ℕ) (number : Option ℕ) (ebb : Bool)
    (p : Point)
    → scan_point origin slot hash_bytes number ebb ≡ ok p
    → (valid_point p ≡ true) × (length p.hash ≡ 32) × (p.origin ≡ origin)
unfolding scan_point
scan_point_sound true slot hash_bytes number ebb p h = ground (arith, origin_point_valid)
scan_point_sound false none hash_bytes number ebb p h = cc
scan_point_sound false (some slot) hash_bytes none ebb p h = cc
scan_point_sound false (some slot) hash_bytes (some number) ebb p h =
    scan_numbers_sound slot hash_bytes number ebb p h
