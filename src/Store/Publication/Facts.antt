-- ===== src/Store/Publication/Facts.antt =====
-- `insertFactsConcurrently` of internal/store/publication.go: nine inserts, in any order, all awaited.
use clicksync.Base.{ℕ, List, [], ◌∷◌, ◌++◌, Option, none, some, Result, ok, err}
use clicksync.Base.Storage.{Fate, kept}
use clicksync.Store.Types.{Publication}
use clicksync.Store.Inserts.{
  insert_blocks, insert_transactions, insert_inputs, insert_outputs, insert_datum_bodies,
  insert_datum_observations, insert_withdrawals, insert_redeemers, insert_metadata,
}
use clicksync.Store.Inserts.Builders.{Error}
use clicksync.Store.Inserts.Rows.{
  BlockRow, TransactionRow, InputRow, OutputRow, DatumBodyRow, DatumObservationRow, WithdrawalRow,
  RedeemerRow, MetadataRow,
}

pub record FactTables : Type 0 where
  pub blocks : List BlockRow
  pub transactions : List TransactionRow
  pub inputs : List InputRow
  pub outputs : List OutputRow
  pub datum_bodies : List DatumBodyRow
  pub datum_observations : List DatumObservationRow
  pub withdrawals : List WithdrawalRow
  pub redeemers : List RedeemerRow
  pub transaction_metadata : List MetadataRow

-- What becomes of each of the nine batches. An insert that is cancelled because another failed is one
-- that fails.
pub record FactFates (E : Type 0) : Type 0 where
  pub blocks : Fate E
  pub transactions : Fate E
  pub inputs : Fate E
  pub outputs : Fate E
  pub datum_bodies : Fate E
  pub datum_observations : Fate E
  pub withdrawals : Fate E
  pub redeemers : Fate E
  pub transaction_metadata : Fate E

pub data FactError (E : Type 0) : Type 0 where
  not_sent : E → FactError E
  bad_role : Error → FactError E

module _ {E : Type 0} where
  abbrev pub errors_of : Fate E → List (FactError E)
  errors_of Fate.acknowledged = []
  errors_of (Fate.failed e mask) = not_sent e ∷ []

  -- An insert: its error, and the table afterwards.
  unfoldable pub store :
      {Row : Type 0} → Fate E → Option (List Row) → List Row → List (FactError E) × List Row
  store fate none table = ([], table)
  store fate (some rows) table = (errors_of fate, table ++ kept fate rows)

  unfoldable pub store_checked :
      {Row : Type 0}
      → Fate E
      → Result Error (Option (List Row))
      → List Row
      → List (FactError E) × List Row
  unfolding store
  store_checked fate (err e) table = (bad_role e ∷ [], table)
  store_checked fate (ok batch) table = store fate batch table

  -- The errors, joined, and the tables.
  unfoldable pub insert_facts :
      ℕ → List Publication → FactFates E → FactTables → List (FactError E) × FactTables
  unfolding store store_checked
  insert_facts magic ps fates t =
      let (e₁, blocks) = store fates.blocks (insert_blocks magic ps) t.blocks in
      let (e₂, transactions) =
        store_checked fates.transactions (insert_transactions ps) t.transactions in
      let (e₃, inputs) = store fates.inputs (insert_inputs ps) t.inputs in
      let (e₄, outputs) = store fates.outputs (insert_outputs ps) t.outputs in
      let (e₅, bodies) = store fates.datum_bodies (insert_datum_bodies ps) t.datum_bodies in
      let (e₆, observations) =
        store fates.datum_observations (insert_datum_observations ps) t.datum_observations in
      let (e₇, withdrawals) = store fates.withdrawals (insert_withdrawals ps) t.withdrawals in
      let (e₈, redeemers) = store fates.redeemers (insert_redeemers ps) t.redeemers in
      let (e₉, metadata) =
        store fates.transaction_metadata (insert_metadata ps) t.transaction_metadata in
      (
        e₁ ++ (e₂ ++ (e₃ ++ (e₄ ++ (e₅ ++ (e₆ ++ (e₇ ++ (e₈ ++ e₉))))))),
        record {
          blocks = blocks;
          transactions = transactions;
          inputs = inputs;
          outputs = outputs;
          datum_bodies = bodies;
          datum_observations = observations;
          withdrawals = withdrawals;
          redeemers = redeemers;
          transaction_metadata = metadata;
        },
      )
