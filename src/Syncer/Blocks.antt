-- ===== src/Syncer/Blocks.antt =====
-- internal/syncer/decode.go: decoded blocks, and the rows that their facts take.
use clicksync.Base.{ℕ, ◌+◌, List, [], ◌∷◌, Option, none, some, length}
use clicksync.Model.{Hash32, Point, RelayIdentity}
use clicksync.Model.Facts.{Block, Transaction}

pub record DecodedBlock : Type 0 where
  pub block : Block
  pub chain_point : Point
  pub content_hash : Hash32
  pub raw_length : ℕ  -- uint64
  pub relays : List RelayIdentity

abbrev pub present {ℓ} : {A : Type ℓ} → Option A → ℕ
present none = 0
present (some a) = 1

-- The body of the loop over the transactions.
unfoldable pub transaction_rows : Transaction → ℕ
transaction_rows t =
    1
    + length t.inputs
    + length t.outputs
    + length t.datum_observations
    + length t.withdrawals
    + length t.redeemers
    + present t.metadata

unfoldable pub rows_of : List Transaction → ℕ
rows_of [] = 0
rows_of (t ∷ ts) = transaction_rows t + rows_of ts

-- The facts of a block in memory are far fewer than 2 ^ 64, so the uint64 sums are plain sums.
unfoldable pub fact_rows : Block → ℕ
fact_rows block = 1 + length block.datums + rows_of block.transactions
