-- ===== src/Store/Inserts/Rows.antt =====
-- The rows of internal/store/inserts.go: the columns of each INSERT, in their order. NULL is `none`.
use clicksync.Base.{ℕ, List, Bool, Option}
use clicksync.Base.Int.{ℤ}
use clicksync.Base.Text.{Text}
use clicksync.Model.{Hash32}
use clicksync.Model.Facts.{Hash28}

-- `insertBlocksSQL`
pub record BlockRow : Type 0 where
  pub publication_id : ℕ
  pub block_hash : Hash32
  pub parent_hash : Option Hash32
  pub slot : ℕ
  pub block_number : ℕ
  pub era : Text
  pub block_type : ℤ
  pub transaction_count : ℕ
  pub input_count : ℕ
  pub output_count : ℕ
  pub datum_observation_count : ℕ
  pub withdrawal_count : ℕ
  pub redeemer_count : ℕ
  pub metadata_count : ℕ
  pub synthetic : Bool
  pub content_hash : Hash32
  pub relay_hosts : List Text
  pub relay_addresses : List Text
  pub relay_operators : List Text
  pub n2n_versions : List ℕ
  pub network_magic : ℕ
  pub observed_at : ℕ
  pub inserted_at : ℕ

-- `insertTransactionsSQL`
pub record TransactionRow : Type 0 where
  pub publication_id : ℕ
  pub block_number : ℕ
  pub tx_hash : Hash32
  pub tx_order : ℕ
  pub parent_tx_hash : Option Hash32
  pub subtransaction_index : Option ℕ
  pub era : Text
  pub phase2_valid : Bool
  pub flow_kind : Text
  pub declared_fee_lovelace : Option ℕ
  pub effective_fee_lovelace : Option ℕ
  pub mint_is_applied : Bool
  pub mint_policy_ids : List Hash28
  pub mint_asset_names : List (List ℕ)
  pub mint_quantities : List ℤ
  pub regular_input_count : ℕ
  pub collateral_input_count : ℕ
  pub reference_input_count : ℕ
  pub produced_output_count : ℕ
  pub withdrawal_count : ℕ
  pub redeemer_count : ℕ
  pub metadata_present : Bool
  pub datum_observation_count : ℕ

-- `insertInputsSQL`
pub record InputRow : Type 0 where
  pub publication_id : ℕ
  pub block_number : ℕ
  pub tx_hash : Hash32
  pub tx_order : ℕ
  pub source_tx_hash : Hash32
  pub source_output_index : ℕ
  pub body_ordinal : ℕ
  pub role : Text
  pub is_consumed : Bool

-- `insertOutputsSQL`
pub record OutputRow : Type 0 where
  pub publication_id : ℕ
  pub block_number : ℕ
  pub tx_hash : Hash32
  pub tx_order : ℕ
  pub output_index : ℕ
  pub body_ordinal : ℕ
  pub output_kind : Text
  pub address : List ℕ
  pub payment_credential_kind : Option Text
  pub payment_credential_hash : Option Hash28
  pub lovelace : ℕ
  pub asset_policy_ids : List Hash28
  pub asset_names : List (List ℕ)
  pub asset_quantities : List ℕ
  pub datum_kind : Text
  pub datum_hash : Option Hash32
  pub reference_script_hash : Option Hash28
  pub reference_script_language : Option Text

-- `insertDatumBodiesSQL`
pub record DatumBodyRow : Type 0 where
  pub publication_id : ℕ
  pub block_number : ℕ
  pub datum_hash : Hash32
  pub datum_cbor : List ℕ
  pub byte_length : ℕ
  pub observed_at : ℕ

-- `insertDatumObservationsSQL`
pub record DatumObservationRow : Type 0 where
  pub publication_id : ℕ
  pub block_number : ℕ
  pub datum_hash : Hash32
  pub tx_hash : Hash32
  pub tx_order : ℕ
  pub source_kind : Text
  pub source_ordinal : ℕ
  pub output_index : Option ℕ

-- `insertWithdrawalsSQL`
pub record WithdrawalRow : Type 0 where
  pub publication_id : ℕ
  pub block_number : ℕ
  pub tx_hash : Hash32
  pub tx_order : ℕ
  pub body_ordinal : ℕ
  pub reward_account : List ℕ
  pub lovelace : ℕ
  pub is_applied : Bool
  pub credential_kind : Option Text
  pub credential_hash : Option Hash28

-- `insertRedeemersSQL`
pub record RedeemerRow : Type 0 where
  pub publication_id : ℕ
  pub block_number : ℕ
  pub tx_hash : Hash32
  pub tx_order : ℕ
  pub raw_purpose_tag : ℕ
  pub purpose : Text
  pub redeemer_index : ℕ
  pub data_cbor : List ℕ
  pub data_byte_length : ℕ
  pub data_hash : Hash32
  pub ex_units_memory : ℕ
  pub ex_units_steps : ℕ
  pub is_applied : Bool
  pub target_tx_hash : Option Hash32
  pub target_output_index : Option ℕ
  pub target_policy_id : Option Hash28
  pub target_reward_account : Option (List ℕ)
  pub target_body_ordinal : Option ℕ
  pub target_identity : Option (List ℕ)
  pub resolved_script_hash : Option Hash28

-- `insertMetadataSQL`
pub record MetadataRow : Type 0 where
  pub publication_id : ℕ
  pub block_number : ℕ
  pub tx_hash : Hash32
  pub tx_order : ℕ
  pub labels : List ℕ
  pub metadata_cbor : List ℕ
  pub byte_length : ℕ
  pub content_hash : Hash32
