-- ===== src/Store/Inserts/Complete.antt =====
-- The batches of internal/store/inserts.go hold a row for every fact, and no others.
use clicksync.Base.{
  ℕ, ◌+◌, List, [], ◌∷◌, length, length-map, nat_eq, Option, none, some, ok, sum_of, All, ◌≡◌, refl,
  sym, ◌∙◌, arith,
}
use clicksync.Model.Facts.{Block, Transaction, Metadata}
use clicksync.Syncer.Blocks.{fact_rows, rows_of, present}
use clicksync.Syncer.Blocks as Blocks
use clicksync.Store.Types.{FactCounts, Publication}
use clicksync.Store.Inserts.Rows.{TransactionRow}
use clicksync.Store.Inserts.{
  metadata_count, count_facts, each_transaction, of_inputs, of_outputs, of_datum_observations,
  of_withdrawals, of_redeemers, of_metadata, insert_blocks, insert_transactions, batch_unless,
  insert_inputs, insert_outputs, insert_datum_bodies, insert_datum_observations, insert_withdrawals,
  insert_redeemers, insert_metadata, total,
}
use clicksync.Store.Inserts.Sizes.{
  sent, IsCounted, count_each-Counted, length-batch_unless, total-eq, length-of_metadata,
  length-insert_transactions, length-insert_datum_bodies, length-insert_blocks,
  length-each_transaction,
}

metadata_count-eq-present : (m : Option Metadata) → metadata_count m ≡ present m
metadata_count-eq-present none = refl
metadata_count-eq-present (some m) = refl

-- The rows of one block, by the fields that hold them.
rows_of-eq :
    (ts : List Transaction)
    → Blocks.rows_of ts
      ≡ length ts
        + sum_of (λ (t : Transaction). length t.inputs) ts
        + sum_of (λ (t : Transaction). length t.outputs) ts
        + sum_of (λ (t : Transaction). length t.datum_observations) ts
        + sum_of (λ (t : Transaction). length t.withdrawals) ts
        + sum_of (λ (t : Transaction). length t.redeemers) ts
        + sum_of (λ (t : Transaction). metadata_count t.metadata) ts
unfolding rows_of Blocks.transaction_rows
rows_of-eq [] = refl
rows_of-eq (t ∷ ts) =
    let rest = rows_of-eq ts in let m = metadata_count-eq-present t.metadata in omega arith

fact_rows-by_field :
    (ps : List Publication)
    → sum_of (λ (p : Publication). fact_rows p.block) ps
      ≡ length ps
        + sum_of (λ (p : Publication). length p.block.transactions) ps
        + sum_of
            (λ (p : Publication).
              sum_of (λ (t : Transaction). length t.inputs) p.block.transactions)
            ps
        + sum_of
            (λ (p : Publication).
              sum_of (λ (t : Transaction). length t.outputs) p.block.transactions)
            ps
        + sum_of (λ (p : Publication). length p.block.datums) ps
        + sum_of
            (λ (p : Publication).
              sum_of (λ (t : Transaction). length t.datum_observations) p.block.transactions)
            ps
        + sum_of
            (λ (p : Publication).
              sum_of (λ (t : Transaction). length t.withdrawals) p.block.transactions)
            ps
        + sum_of
            (λ (p : Publication).
              sum_of (λ (t : Transaction). length t.redeemers) p.block.transactions)
            ps
        + sum_of
            (λ (p : Publication).
              sum_of (λ (t : Transaction). metadata_count t.metadata) p.block.transactions)
            ps
unfolding fact_rows
fact_rows-by_field [] = refl
fact_rows-by_field (p ∷ ps) =
    let here = rows_of-eq p.block.transactions in let rest = fact_rows-by_field ps in omega arith

module _ (ps : List Publication) (v : All IsCounted ps) where
  batch_size :
      {Row : Type 0} (field : FactCounts → ℕ) (rows : Publication → Transaction → List Row)
      (count : Transaction → ℕ)
      → ((p : Publication) (t : Transaction) → length (rows p t) ≡ count t)
      → ((b : Block) → field (count_facts b) ≡ sum_of count b.transactions)
      → length (sent (batch_unless (total field ps) (each_transaction rows ps)))
        ≡ sum_of (λ (p : Publication). sum_of count p.block.transactions) ps
  batch_size field rows count same sums =
      let e = total-eq field count ps sums v in
      length-batch_unless (total field ps) (each_transaction rows ps)
        (length-each_transaction rows count same ps ∙ e)
      ∙ sym e

  length-insert_inputs :
      length (sent (insert_inputs ps))
      ≡ sum_of
          (λ (p : Publication). sum_of (λ (t : Transaction). length t.inputs) p.block.transactions)
          ps
  unfolding insert_inputs count_facts
  length-insert_inputs =
      batch_size (λ c. c.inputs) of_inputs (λ t. length t.inputs) (λ p t. length-map _ t.inputs)
        (λ b. (count_each-Counted _ b.transactions).inputs ∙ omega arith)

  length-insert_outputs :
      length (sent (insert_outputs ps))
      ≡ sum_of
          (λ (p : Publication). sum_of (λ (t : Transaction). length t.outputs) p.block.transactions)
          ps
  unfolding insert_outputs count_facts
  length-insert_outputs =
      batch_size (λ c. c.outputs) of_outputs (λ t. length t.outputs) (λ p t. length-map _ t.outputs)
        (λ b. (count_each-Counted _ b.transactions).outputs ∙ omega arith)

  length-insert_datum_observations :
      length (sent (insert_datum_observations ps))
      ≡ sum_of
          (λ (p : Publication).
            sum_of (λ (t : Transaction). length t.datum_observations) p.block.transactions)
          ps
  unfolding insert_datum_observations count_facts
  length-insert_datum_observations =
      batch_size (λ c. c.datum_observations) of_datum_observations
        (λ t. length t.datum_observations) (λ p t. length-map _ t.datum_observations)
        (λ b. (count_each-Counted _ b.transactions).datum_observations ∙ omega arith)

  length-insert_withdrawals :
      length (sent (insert_withdrawals ps))
      ≡ sum_of
          (λ (p : Publication).
            sum_of (λ (t : Transaction). length t.withdrawals) p.block.transactions)
          ps
  unfolding insert_withdrawals count_facts
  length-insert_withdrawals =
      batch_size (λ c. c.withdrawals) of_withdrawals (λ t. length t.withdrawals)
        (λ p t. length-map _ t.withdrawals)
        (λ b. (count_each-Counted _ b.transactions).withdrawals ∙ omega arith)

  length-insert_redeemers :
      length (sent (insert_redeemers ps))
      ≡ sum_of
          (λ (p : Publication).
            sum_of (λ (t : Transaction). length t.redeemers) p.block.transactions)
          ps
  unfolding insert_redeemers count_facts
  length-insert_redeemers =
      batch_size (λ c. c.redeemers) of_redeemers (λ t. length t.redeemers)
        (λ p t. length-map _ t.redeemers)
        (λ b. (count_each-Counted _ b.transactions).redeemers ∙ omega arith)

  length-insert_metadata :
      length (sent (insert_metadata ps))
      ≡ sum_of
          (λ (p : Publication).
            sum_of (λ (t : Transaction). metadata_count t.metadata) p.block.transactions)
          ps
  unfolding insert_metadata count_facts
  length-insert_metadata =
      batch_size (λ c. c.metadata) (λ p t. of_metadata p t.metadata)
        (λ t. metadata_count t.metadata) (λ p t. length-of_metadata p t.metadata)
        (λ b. (count_each-Counted _ b.transactions).metadata ∙ omega arith)

  -- For publications counted by countFacts, if no input has an unknown role: the nine inserts send as
  -- many rows as FactRows says of the blocks, so the row limit of a batch bounds what is written.
  pub sum_of-fact_rows :
      (magic : ℕ) (transactions : Option (List TransactionRow))
      → insert_transactions ps ≡ ok transactions
      → sum_of (λ (p : Publication). fact_rows p.block) ps
        ≡ length (sent (insert_blocks magic ps))
          + length (sent transactions)
          + length (sent (insert_inputs ps))
          + length (sent (insert_outputs ps))
          + length (sent (insert_datum_bodies ps))
          + length (sent (insert_datum_observations ps))
          + length (sent (insert_withdrawals ps))
          + length (sent (insert_redeemers ps))
          + length (sent (insert_metadata ps))
  sum_of-fact_rows magic transactions h =
      let blocks = length-insert_blocks magic ps in
      let txs = length-insert_transactions ps transactions h in
      let inputs = length-insert_inputs in
      let outputs = length-insert_outputs in
      let datums = length-insert_datum_bodies ps in
      let observations = length-insert_datum_observations in
      let withdrawals = length-insert_withdrawals in
      let redeemers = length-insert_redeemers in
      let metadata = length-insert_metadata in let all = fact_rows-by_field ps in omega arith
