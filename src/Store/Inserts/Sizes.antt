-- ===== src/Store/Inserts/Sizes.antt =====
-- How many rows each loop of internal/store/inserts.go appends.
use mathlib.Core.Path.{fun_ext}
use clicksync.Base.{
  ℕ, ◌+◌, List, [], ◌∷◌, ◌++◌, map, flat_map, length, length-append, length-map, length-flat_map,
  false, ◌==◌, nat_eq, Option, none, some, ok, ◌>>=◌, >>=-eq-ok, sum_of, All, ◌≡◌, refl, ap, sym,
  ◌∙◌, arith, Bool-cases, ==→eq, inl, inr,
}
use clicksync.Model.Facts.{Block, Transaction, Metadata}
use clicksync.Store.Types.{FactCounts, Publication}
use clicksync.Store.Inserts.Rows.{TransactionRow}
use clicksync.Store.Inserts.Builders.{block_row, datum_body_row, count_roles, transaction_row}
use clicksync.Store.Inserts.{
  metadata_count, count_transaction, count_each, count_facts, each_transaction, of_metadata,
  transaction_rows, all_transaction_rows, insert_blocks, has_transactions, insert_transactions,
  batch_unless, insert_datum_bodies, total,
}

-- The rows that were sent.
abbrev pub sent {ℓ} : {A : Type ℓ} → Option (List A) → List A
sent none = []
sent (some rows) = rows

abbrev pub IsCounted : Publication → Type 0
IsCounted p = p.counts ≡ count_facts p.block

-- The counters of the loop, as sums.
pub record Counted (c c' : FactCounts) (ts : List Transaction) : Type 0 where
  pub transactions : c'.transactions ≡ c.transactions
  pub inputs : c'.inputs ≡ c.inputs + sum_of (λ (t : Transaction). length t.inputs) ts
  pub outputs : c'.outputs ≡ c.outputs + sum_of (λ (t : Transaction). length t.outputs) ts
  pub datum_observations :
      c'.datum_observations
      ≡ c.datum_observations + sum_of (λ (t : Transaction). length t.datum_observations) ts
  pub withdrawals :
      c'.withdrawals ≡ c.withdrawals + sum_of (λ (t : Transaction). length t.withdrawals) ts
  pub redeemers : c'.redeemers ≡ c.redeemers + sum_of (λ (t : Transaction). length t.redeemers) ts
  pub metadata :
      c'.metadata ≡ c.metadata + sum_of (λ (t : Transaction). metadata_count t.metadata) ts

pub count_each-Counted : (c : FactCounts) (ts : List Transaction) → Counted c (count_each c ts) ts
unfolding count_each
count_each-Counted c [] = record {
  transactions = refl;
  inputs = omega arith;
  outputs = omega arith;
  datum_observations = omega arith;
  withdrawals = omega arith;
  redeemers = omega arith;
  metadata = omega arith;
}
count_each-Counted c (t ∷ ts) =
    let v = count_each-Counted (count_transaction c t) ts in
    let inputs = v.inputs in
    let outputs = v.outputs in
    let observations = v.datum_observations in
    let withdrawals = v.withdrawals in
    let redeemers = v.redeemers in
    let metadata = v.metadata in
    record {
      transactions = v.transactions;
      inputs = omega arith;
      outputs = omega arith;
      datum_observations = omega arith;
      withdrawals = omega arith;
      redeemers = omega arith;
      metadata = omega arith;
    }

module _ {Row : Type 0} (rows : Publication → Transaction → List Row) (count : Transaction → ℕ)
    (same : (p : Publication) (t : Transaction) → length (rows p t) ≡ count t) where
  length-transactions :
      (p : Publication) (ts : List Transaction) → length (flat_map (rows p) ts) ≡ sum_of count ts
  unfolding flat_map
  length-transactions p [] = refl
  length-transactions p (t ∷ ts) =
      let here = length-append (rows p t) (flat_map (rows p) ts) in
      let one = same p t in let rest = length-transactions p ts in omega arith

  pub length-each_transaction :
      (ps : List Publication)
      → length (each_transaction rows ps)
        ≡ sum_of (λ (p : Publication). sum_of count p.block.transactions) ps
  unfolding each_transaction flat_map
  length-each_transaction [] = refl
  length-each_transaction (p ∷ ps) =
      let here =
        length-append (flat_map (rows p) p.block.transactions) (each_transaction rows ps) in
      let one = length-transactions p p.block.transactions in
      let rest = length-each_transaction ps in omega arith

pub length-batch_unless :
    {Row : Type 0} (n : ℕ) (rows : List Row)
    → length rows ≡ n
    → length (sent (batch_unless n rows)) ≡ n
length-batch_unless n rows h = elim (Bool-cases (n == 0)) [
  | inl e ↦ let z = ==→eq n 0 e in rw e (omega arith)
  | inr e ↦ rw e h
]

pub total-eq :
    (field : FactCounts → ℕ) (count : Transaction → ℕ) (ps : List Publication)
    → ((b : Block) → field (count_facts b) ≡ sum_of count b.transactions)
    → All IsCounted ps
    → sum_of (λ (p : Publication). sum_of count p.block.transactions) ps ≡ total field ps
total-eq field count [] h v = refl
total-eq field count (p ∷ ps) h v =
    let here = ap field v.0 in
    let one = h p.block in let rest = total-eq field count ps h v.1 in omega arith

pub length-of_metadata :
    (p : Publication) (m : Option Metadata) → length (of_metadata p m) ≡ metadata_count m
length-of_metadata p none = refl
length-of_metadata p (some m) = refl

-- The rows of the transactions, if no input has an unknown role.
length-transaction_rows :
    (p : Publication) (ts : List Transaction) (rows : List TransactionRow)
    → transaction_rows p ts ≡ ok rows
    → length rows ≡ length ts
unfolding transaction_rows
length-transaction_rows p [] rows h = let e : [] ≡ rows = cc in ap length (sym e)
length-transaction_rows p (t ∷ ts) rows h =
    let (roles, counted, h') = >>=-eq-ok (count_roles t.inputs _) _ h in
    let (rest, others, h'') = >>=-eq-ok (transaction_rows p ts) _ h' in
    let e : transaction_row p t roles ∷ rest ≡ rows = cc in
    let size = length-transaction_rows p ts rest others in let same = ap length e in omega arith

length-all_transaction_rows :
    (ps : List Publication) (rows : List TransactionRow)
    → all_transaction_rows ps ≡ ok rows
    → length rows ≡ sum_of (λ (p : Publication). length p.block.transactions) ps
unfolding all_transaction_rows
length-all_transaction_rows [] rows h = let e : [] ≡ rows = cc in ap length (sym e)
length-all_transaction_rows (p ∷ ps) rows h =
    let (here, first, h') = >>=-eq-ok (transaction_rows p p.block.transactions) _ h in
    let (rest, others, h'') = >>=-eq-ok (all_transaction_rows ps) _ h' in
    let e : here ++ rest ≡ rows = cc in
    let size = length-transaction_rows p p.block.transactions here first in
    let sizes = length-all_transaction_rows ps rest others in
    let both = length-append here rest in let same = ap length e in omega arith

no_transactions :
    (ps : List Publication)
    → has_transactions ps ≡ false
    → sum_of (λ (p : Publication). length p.block.transactions) ps ≡ 0
unfolding has_transactions
no_transactions [] h = refl
no_transactions (p ∷ ps) h =
    let here : length p.block.transactions ≡ 0 = ground arith in
    let rest = no_transactions ps (ground arith) in omega arith

pub length-insert_transactions :
    (ps : List Publication) (batch : Option (List TransactionRow))
    → insert_transactions ps ≡ ok batch
    → length (sent batch) ≡ sum_of (λ (p : Publication). length p.block.transactions) ps
unfolding insert_transactions
length-insert_transactions ps batch h = elim (Bool-cases (has_transactions ps)) [
  | inl some_there ↦
      let h' : all_transaction_rows ps >>= (λ rows. ok (some rows)) ≡ ok batch =
        rw some_there at h in
      let (rows, built, e) = >>=-eq-ok (all_transaction_rows ps) _ h' in
      let same : some rows ≡ batch = cc in
      ap (λ b. length (sent b)) (sym same) ∙ length-all_transaction_rows ps rows built
  | inr none_there ↦
      let e : none ≡ batch = let h' : ok none ≡ ok batch = rw none_there at h in cc in
      ap (λ b. length (sent b)) (sym e) ∙ sym (no_transactions ps none_there)
]

pub length-insert_datum_bodies :
    (ps : List Publication)
    → length (sent (insert_datum_bodies ps))
      ≡ sum_of (λ (p : Publication). length p.block.datums) ps
unfolding insert_datum_bodies
length-insert_datum_bodies ps = length-batch_unless _ _ (
    length-flat_map (λ (p : Publication). map (datum_body_row p) p.block.datums) ps
    ∙ ap (λ f. sum_of f ps) (fun_ext (λ p. length-map (datum_body_row p) p.block.datums)))

pub length-insert_blocks :
    (magic : ℕ) (ps : List Publication) → length (sent (insert_blocks magic ps)) ≡ length ps
unfolding insert_blocks
length-insert_blocks magic ps = length-map (block_row magic) ps
