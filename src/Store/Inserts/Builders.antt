-- ===== src/Store/Inserts/Builders.antt =====
-- internal/store/inserts.go: the rows that each INSERT of a publication appends. A slice that is cloned
-- is the same value, and so is a time in UTC.
use clicksync.Base.{
  ℕ, ◌+◌, ◌%◌, List, [], ◌∷◌, map, length, Bool, true, false, ◌==◌, nat_eq, bytes_eq, Option, none,
  some, Result, ok, err, if◌then◌else◌, ◌>>=◌,
}
use clicksync.Base.Text.{Text, text}
use clicksync.Base.Words.{u32, u32_mod}
use clicksync.Model.Facts.{
  Transaction, Input, Output, Asset, AssetDelta, DatumBody, DatumObservation, Withdrawal, Redeemer,
  Metadata,
}
use clicksync.Store.Types.{Relay, Publication}
use clicksync.Store.Inserts.Rows.{
  BlockRow, TransactionRow, InputRow, OutputRow, DatumBodyRow, DatumObservationRow, WithdrawalRow,
  RedeemerRow, MetadataRow,
}

abbrev pub is_some {ℓ} : {A : Type ℓ} → Option A → Bool
is_some none = false
is_some (some a) = true

unfoldable pub block_row : ℕ → Publication → BlockRow
block_row network_magic p = record {
  publication_id = p.publication_id;
  block_hash = p.block.hash;
  parent_hash = p.block.parent_hash;
  slot = p.block.slot;
  block_number = p.block.number;
  era = p.block.era;
  block_type = p.block.type;
  transaction_count = u32 p.counts.transactions;
  input_count = u32 p.counts.inputs;
  output_count = u32 p.counts.outputs;
  datum_observation_count = u32 p.counts.datum_observations;
  withdrawal_count = u32 p.counts.withdrawals;
  redeemer_count = u32 p.counts.redeemers;
  metadata_count = u32 p.counts.metadata;
  synthetic = p.block.synthetic;
  content_hash = p.content_hash;
  relay_hosts = map (λ (r : Relay). r.host) p.relays;
  relay_addresses = map (λ (r : Relay). r.address) p.relays;
  relay_operators = map (λ (r : Relay). r.operator) p.relays;
  n2n_versions = map (λ (r : Relay). r.n2n_version) p.relays;
  network_magic = network_magic;
  observed_at = p.block.observed_at;
  inserted_at = p.inserted_at;
}

-- The three counters are uint32.
pub record Roles : Type 0 where
  pub regular : ℕ
  pub collateral : ℕ
  pub reference : ℕ

-- `unknown input role`
pub data Error : Type 0 where
  unknown_role : Text → Error

abbrev increment : ℕ → ℕ
increment n = (n + 1) % u32_mod

-- The switch in the loop over the inputs.
unfoldable pub count_role : Text → Roles → Result Error Roles
count_role role r =
    if role == text "regular"
    then ok (record r { regular = increment r.regular })
    else if role == text "collateral"
    then ok (record r { collateral = increment r.collateral })
    else if role == text "reference"
    then ok (record r { reference = increment r.reference })
    else err (unknown_role role)

unfoldable pub count_roles : List Input → Roles → Result Error Roles
count_roles [] r = ok r
count_roles (x ∷ xs) r = do r' ← count_role x.role r; count_roles xs r'

unfoldable pub transaction_row : Publication → Transaction → Roles → TransactionRow
transaction_row p t roles = record {
  publication_id = p.publication_id;
  block_number = p.block.number;
  tx_hash = t.hash;
  tx_order = t.order;
  parent_tx_hash = t.parent_hash;
  subtransaction_index = t.subtransaction_index;
  era = t.era;
  phase2_valid = t.phase2_valid;
  flow_kind = t.flow_kind;
  declared_fee_lovelace = t.declared_fee;
  effective_fee_lovelace = t.effective_fee;
  mint_is_applied = t.mint_applied;
  mint_policy_ids = map (λ (a : AssetDelta). a.policy_id) t.mint;
  mint_asset_names = map (λ (a : AssetDelta). a.name) t.mint;
  mint_quantities = map (λ (a : AssetDelta). a.quantity) t.mint;
  regular_input_count = roles.regular;
  collateral_input_count = roles.collateral;
  reference_input_count = roles.reference;
  produced_output_count = u32 (length t.outputs);
  withdrawal_count = u32 (length t.withdrawals);
  redeemer_count = u32 (length t.redeemers);
  metadata_present = is_some t.metadata;
  datum_observation_count = u32 (length t.datum_observations);
}

unfoldable pub input_row : Publication → Input → InputRow
input_row p x = record {
  publication_id = p.publication_id;
  block_number = p.block.number;
  tx_hash = x.transaction_hash;
  tx_order = x.transaction_order;
  source_tx_hash = x.source_hash;
  source_output_index = x.source_index;
  body_ordinal = x.body_ordinal;
  role = x.role;
  is_consumed = x.consumed;
}

unfoldable pub output_row : Publication → Output → OutputRow
output_row p x = record {
  publication_id = p.publication_id;
  block_number = p.block.number;
  tx_hash = x.transaction_hash;
  tx_order = x.transaction_order;
  output_index = x.index;
  body_ordinal = x.body_ordinal;
  output_kind = x.kind;
  address = x.address;
  payment_credential_kind = x.payment_credential_kind;
  payment_credential_hash = x.payment_credential_hash;
  lovelace = x.lovelace;
  asset_policy_ids = map (λ (a : Asset). a.policy_id) x.assets;
  asset_names = map (λ (a : Asset). a.name) x.assets;
  asset_quantities = map (λ (a : Asset). a.quantity) x.assets;
  datum_kind = x.datum_kind;
  datum_hash = x.datum_hash;
  reference_script_hash = x.reference_script_hash;
  reference_script_language = x.reference_script_language;
}

unfoldable pub datum_body_row : Publication → DatumBody → DatumBodyRow
datum_body_row p x = record {
  publication_id = p.publication_id;
  block_number = p.block.number;
  datum_hash = x.hash;
  datum_cbor = x.cbor;
  byte_length = u32 (length x.cbor);
  observed_at = p.block.observed_at;
}

unfoldable pub datum_observation_row : Publication → DatumObservation → DatumObservationRow
datum_observation_row p x = record {
  publication_id = p.publication_id;
  block_number = p.block.number;
  datum_hash = x.hash;
  tx_hash = x.transaction_hash;
  tx_order = x.transaction_order;
  source_kind = x.source_kind;
  source_ordinal = x.source_ordinal;
  output_index = x.output_index;
}

unfoldable pub withdrawal_row : Publication → Withdrawal → WithdrawalRow
withdrawal_row p x = record {
  publication_id = p.publication_id;
  block_number = p.block.number;
  tx_hash = x.transaction_hash;
  tx_order = x.transaction_order;
  body_ordinal = x.body_ordinal;
  reward_account = x.reward_account;
  lovelace = x.lovelace;
  is_applied = x.applied;
  credential_kind = x.credential_kind;
  credential_hash = x.credential_hash;
}

unfoldable pub redeemer_row : Publication → Redeemer → RedeemerRow
redeemer_row p x = record {
  publication_id = p.publication_id;
  block_number = p.block.number;
  tx_hash = x.transaction_hash;
  tx_order = x.transaction_order;
  raw_purpose_tag = x.raw_purpose_tag;
  purpose = x.purpose;
  redeemer_index = x.index;
  data_cbor = x.data_cbor;
  data_byte_length = u32 (length x.data_cbor);
  data_hash = x.data_hash;
  ex_units_memory = x.ex_units_memory;
  ex_units_steps = x.ex_units_steps;
  is_applied = x.applied;
  target_tx_hash = x.target_tx_hash;
  target_output_index = x.target_output_index;
  target_policy_id = x.target_policy_id;
  target_reward_account = x.target_reward_account;
  target_body_ordinal = x.target_body_ordinal;
  target_identity = x.target_identity;
  resolved_script_hash = x.resolved_script_hash;
}

unfoldable pub metadata_row : Publication → Metadata → MetadataRow
metadata_row p x = record {
  publication_id = p.publication_id;
  block_number = p.block.number;
  tx_hash = x.transaction_hash;
  tx_order = x.transaction_order;
  labels = x.labels;
  metadata_cbor = x.cbor;
  byte_length = u32 (length x.cbor);
  content_hash = x.content_hash;
}
