-- ===== src/Store/Inserts.antt =====
-- internal/store/inserts.go: the facts of a publication, counted and written to nine tables.
pub mod Rows
pub mod Builders
pub mod Sizes
pub mod Complete
use clicksync.Base.{
  ℕ, ◌+◌, List, [], ◌∷◌, ◌++◌, map, flat_map, length, Bool, true, false, not, ◌&&◌, ◌||◌, ◌==◌,
  nat_eq, bytes_eq, Option, none, some, Result, ok, if◌then◌else◌, ◌>>=◌, any, sum_of,
}
use clicksync.Base.Int.{ℤ, Int-dec, int_eq}
use clicksync.Base.Text.{text}
use clicksync.Model.{Point}
use clicksync.Model.Facts.{Block, Transaction, Metadata}
use clicksync.Store.Types.{FactCounts, Publication}
use clicksync.Store.Inserts.Rows.{
  BlockRow, TransactionRow, InputRow, OutputRow, DatumBodyRow, DatumObservationRow, WithdrawalRow,
  RedeemerRow, MetadataRow,
}
use clicksync.Store.Inserts.Builders.{
  is_some, Error, Roles, count_roles, block_row, transaction_row, input_row, output_row,
  datum_body_row, datum_observation_row, withdrawal_row, redeemer_row, metadata_row,
}

abbrev pub metadata_count : Option Metadata → ℕ
metadata_count none = 0
metadata_count (some m) = 1

-- The body of the loop of `countFacts`. A block in memory holds far fewer than 2 ^ 64 facts, so the
-- uint64 sums are plain sums.
abbrev pub count_transaction : FactCounts → Transaction → FactCounts
count_transaction counts t = record counts {
  inputs = counts.inputs + length t.inputs;
  outputs = counts.outputs + length t.outputs;
  datum_observations = counts.datum_observations + length t.datum_observations;
  withdrawals = counts.withdrawals + length t.withdrawals;
  redeemers = counts.redeemers + length t.redeemers;
  metadata = counts.metadata + metadata_count t.metadata;
}

unfoldable pub count_each : FactCounts → List Transaction → FactCounts
count_each counts [] = counts
count_each counts (t ∷ ts) = count_each (count_transaction counts t) ts

unfoldable pub count_facts : Block → FactCounts
unfolding count_each
count_facts block =
    count_each
      (record {
        transactions = length block.transactions;
        inputs = 0;
        outputs = 0;
        datum_observations = 0;
        withdrawals = 0;
        redeemers = 0;
        metadata = 0;
      })
      block.transactions

-- `byron_ebb` stands for `ledger.BlockTypeByronEbb` of the ledger library.
unfoldable pub point_for_block : ℤ → Block → Point
point_for_block byron_ebb block = record {
  origin = false;
  slot = block.slot;
  hash = block.hash;
  block_number = block.number;
  is_byron_ebb = block.era == text "Byron" && block.type == byron_ebb;
}

-- What the loops over the publications, and over their transactions, append.
unfoldable pub each_transaction :
    {Row : Type 0} → (Publication → Transaction → List Row) → List Publication → List Row
each_transaction rows publications =
    flat_map (λ (p : Publication). flat_map (rows p) p.block.transactions) publications

abbrev pub of_inputs : Publication → Transaction → List InputRow
of_inputs p t = map (input_row p) t.inputs

abbrev pub of_outputs : Publication → Transaction → List OutputRow
of_outputs p t = map (output_row p) t.outputs

abbrev pub of_datum_observations : Publication → Transaction → List DatumObservationRow
of_datum_observations p t = map (datum_observation_row p) t.datum_observations

abbrev pub of_withdrawals : Publication → Transaction → List WithdrawalRow
of_withdrawals p t = map (withdrawal_row p) t.withdrawals

abbrev pub of_redeemers : Publication → Transaction → List RedeemerRow
of_redeemers p t = map (redeemer_row p) t.redeemers

abbrev pub of_metadata : Publication → Option Metadata → List MetadataRow
of_metadata p none = []
of_metadata p (some m) = metadata_row p m ∷ []

-- The loop over the transactions of a publication.
unfoldable pub transaction_rows :
    Publication → List Transaction → Result Error (List TransactionRow)
transaction_rows p [] = ok []
transaction_rows p (t ∷ ts) = do
  roles ← count_roles t.inputs (record { regular = 0; collateral = 0; reference = 0 })
  rest ← transaction_rows p ts
  ok (transaction_row p t roles ∷ rest)

unfoldable pub all_transaction_rows : List Publication → Result Error (List TransactionRow)
all_transaction_rows [] = ok []
all_transaction_rows (p ∷ ps) = do
  here ← transaction_rows p p.block.transactions
  rest ← all_transaction_rows ps
  ok (here ++ rest)

-- An insert sends a batch of rows, or returns at once: `none`.
unfoldable pub insert_blocks : ℕ → List Publication → Option (List BlockRow)
insert_blocks network_magic publications = some (map (block_row network_magic) publications)

unfoldable pub has_transactions : List Publication → Bool
has_transactions publications =
    any (λ (p : Publication). not (length p.block.transactions == 0)) publications

unfoldable pub insert_transactions : List Publication → Result Error (Option (List TransactionRow))
insert_transactions publications =
    if not (has_transactions publications)
    then ok none
    else all_transaction_rows publications >>= λ rows. ok (some rows)

-- The totals of the counts, uint64 sums too.
abbrev pub total : (FactCounts → ℕ) → List Publication → ℕ
total field publications = sum_of (λ (p : Publication). field p.counts) publications

abbrev pub batch_unless : {Row : Type 0} → ℕ → List Row → Option (List Row)
batch_unless count rows = if count == 0 then none else some rows

unfoldable pub insert_inputs : List Publication → Option (List InputRow)
insert_inputs ps = batch_unless (total (λ c. c.inputs) ps) (each_transaction of_inputs ps)

unfoldable pub insert_outputs : List Publication → Option (List OutputRow)
insert_outputs ps = batch_unless (total (λ c. c.outputs) ps) (each_transaction of_outputs ps)

unfoldable pub insert_datum_bodies : List Publication → Option (List DatumBodyRow)
insert_datum_bodies ps =
    batch_unless (sum_of (λ (p : Publication). length p.block.datums) ps)
      (flat_map (λ (p : Publication). map (datum_body_row p) p.block.datums) ps)

unfoldable pub insert_datum_observations : List Publication → Option (List DatumObservationRow)
insert_datum_observations ps =
    batch_unless (total (λ c. c.datum_observations) ps) (each_transaction of_datum_observations ps)

unfoldable pub insert_withdrawals : List Publication → Option (List WithdrawalRow)
insert_withdrawals ps =
    batch_unless (total (λ c. c.withdrawals) ps) (each_transaction of_withdrawals ps)

unfoldable pub insert_redeemers : List Publication → Option (List RedeemerRow)
insert_redeemers ps = batch_unless (total (λ c. c.redeemers) ps) (each_transaction of_redeemers ps)

unfoldable pub insert_metadata : List Publication → Option (List MetadataRow)
insert_metadata ps =
    batch_unless (total (λ c. c.metadata) ps)
      (each_transaction (λ p t. of_metadata p t.metadata) ps)
