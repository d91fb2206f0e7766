-- ===== src/Store/Publication/Stored.antt =====
-- When no fact insert of internal/store/publication.go fails, the tables hold every row.
use mathlib.Core.List.{append-nil}
use clicksync.Base.{
  ℕ, List, [], ◌∷◌, ◌++◌, nat_eq, Option, none, some, Result, ok, err, ◌≡◌, refl, sym,
}
use clicksync.Base.Storage.{Fate, acknowledged, failed}
use clicksync.Store.Types.{Publication}
use clicksync.Store.Inserts.{
  insert_blocks, insert_transactions, insert_inputs, insert_outputs, insert_datum_bodies,
  insert_datum_observations, insert_withdrawals, insert_redeemers, insert_metadata,
}
use clicksync.Store.Inserts.Builders.{Error}
use clicksync.Store.Inserts.Rows.{TransactionRow}
use clicksync.Store.Inserts.Sizes.{sent}
use clicksync.Store.Publication.Facts.{FactTables, FactFates, store, store_checked, insert_facts}

-- The tables of facts hold every row of the publications.
pub record FactsStored (magic : ℕ) (ps : List Publication) (t t' : FactTables) : Type 0 where
  pub blocks : t'.blocks ≡ t.blocks ++ sent (insert_blocks magic ps)
  pub transactions :
      (batch : Option (List TransactionRow)) × (insert_transactions ps ≡ ok batch)
      × (t'.transactions ≡ t.transactions ++ sent batch)
  pub inputs : t'.inputs ≡ t.inputs ++ sent (insert_inputs ps)
  pub outputs : t'.outputs ≡ t.outputs ++ sent (insert_outputs ps)
  pub datum_bodies : t'.datum_bodies ≡ t.datum_bodies ++ sent (insert_datum_bodies ps)
  pub datum_observations :
      t'.datum_observations ≡ t.datum_observations ++ sent (insert_datum_observations ps)
  pub withdrawals : t'.withdrawals ≡ t.withdrawals ++ sent (insert_withdrawals ps)
  pub redeemers : t'.redeemers ≡ t.redeemers ++ sent (insert_redeemers ps)
  pub metadata : t'.transaction_metadata ≡ t.transaction_metadata ++ sent (insert_metadata ps)

store_sent :
    {E Row : Type 0} (fate : Fate E) (batch : Option (List Row)) (table : List Row)
    → (store fate batch table).0 ≡ []
    → (store fate batch table).1 ≡ table ++ sent batch
unfolding store
store_sent fate none table h = sym (append-nil table)
store_sent acknowledged (some rows) table h = refl
store_sent (failed e mask) (some rows) table h = cc

store_checked_sent :
    {E Row : Type 0} (fate : Fate E) (batch : Result Error (Option (List Row))) (table : List Row)
    → (store_checked fate batch table).0 ≡ []
    → (b : Option (List Row)) × (batch ≡ ok b)
      × ((store_checked fate batch table).1 ≡ table ++ sent b)
unfolding store_checked
store_checked_sent fate (err e) table h = cc
store_checked_sent fate (ok b) table h = (b, refl, store_sent fate b table h)

append_empty : {A : Type 0} (xs ys : List A) → xs ++ ys ≡ [] → (xs ≡ []) × (ys ≡ [])
append_empty [] ys h = (refl, h)
append_empty (x ∷ xs) ys h = cc

pub insert_facts-FactsStored :
    {E : Type 0} (magic : ℕ) (ps : List Publication) (fates : FactFates E) (t : FactTables)
    → (insert_facts magic ps fates t).0 ≡ []
    → FactsStored magic ps t (insert_facts magic ps fates t).1
unfolding insert_facts
insert_facts-FactsStored magic ps fates t h =
    let (e₁, r₁) = append_empty _ _ h in
    let (e₂, r₂) = append_empty _ _ r₁ in
    let (e₃, r₃) = append_empty _ _ r₂ in
    let (e₄, r₄) = append_empty _ _ r₃ in
    let (e₅, r₅) = append_empty _ _ r₄ in
    let (e₆, r₆) = append_empty _ _ r₅ in
    let (e₇, r₇) = append_empty _ _ r₆ in
    let (e₈, e₉) = append_empty _ _ r₇ in
    record {
      blocks = store_sent fates.blocks (insert_blocks magic ps) t.blocks e₁;
      transactions =
          store_checked_sent fates.transactions (insert_transactions ps) t.transactions e₂;
      inputs = store_sent fates.inputs (insert_inputs ps) t.inputs e₃;
      outputs = store_sent fates.outputs (insert_outputs ps) t.outputs e₄;
      datum_bodies = store_sent fates.datum_bodies (insert_datum_bodies ps) t.datum_bodies e₅;
      datum_observations =
          store_sent fates.datum_observations (insert_datum_observations ps) t.datum_observations
            e₆;
      withdrawals = store_sent fates.withdrawals (insert_withdrawals ps) t.withdrawals e₇;
      redeemers = store_sent fates.redeemers (insert_redeemers ps) t.redeemers e₈;
      metadata =
          store_sent fates.transaction_metadata (insert_metadata ps) t.transaction_metadata e₉;
    }
