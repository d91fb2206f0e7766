-- ===== src/Model/Facts.antt =====
-- internal/model/facts.go: a decoded block and its facts. A nil pointer is `none`.
use clicksync.Base.{ℕ, List, Bool, Option}
use clicksync.Base.Text.{Text}
use clicksync.Base.Int.{ℤ}
use clicksync.Model.{Hash32}

-- The bytes of a `[28]byte`.
abbrev pub Hash28 : Type 0
Hash28 = List ℕ

pub record Input : Type 0 where
  pub transaction_hash : Hash32
  pub transaction_order : ℕ
  pub source_hash : Hash32
  pub source_index : ℕ
  pub body_ordinal : ℕ
  pub role : Text
  pub consumed : Bool

pub record Asset : Type 0 where
  pub policy_id : Hash28
  pub name : List ℕ
  pub quantity : ℕ

pub record AssetDelta : Type 0 where
  pub policy_id : Hash28
  pub name : List ℕ
  pub quantity : ℤ

pub record Output : Type 0 where
  pub transaction_hash : Hash32
  pub transaction_order : ℕ
  pub index : ℕ
  pub body_ordinal : ℕ
  pub kind : Text
  pub address : List ℕ
  pub payment_credential_kind : Option Text
  pub payment_credential_hash : Option Hash28
  pub lovelace : ℕ
  pub assets : List Asset
  pub datum_kind : Text
  pub datum_hash : Option Hash32
  pub reference_script_hash : Option Hash28
  pub reference_script_language : Option Text

pub record DatumObservation : Type 0 where
  pub hash : Hash32
  pub transaction_hash : Hash32
  pub transaction_order : ℕ
  pub source_kind : Text
  pub source_ordinal : ℕ
  pub output_index : Option ℕ

pub record DatumBody : Type 0 where
  pub hash : Hash32
  pub cbor : List ℕ
  pub observations : List DatumObservation

pub record Withdrawal : Type 0 where
  pub transaction_hash : Hash32
  pub transaction_order : ℕ
  pub body_ordinal : ℕ
  pub reward_account : List ℕ
  pub lovelace : ℕ
  pub applied : Bool
  pub credential_kind : Option Text
  pub credential_hash : Option Hash28

pub record Redeemer : Type 0 where
  pub transaction_hash : Hash32
  pub transaction_order : ℕ
  pub raw_purpose_tag : ℕ
  pub purpose : Text
  pub index : ℕ
  pub data_cbor : List ℕ
  pub data_hash : Hash32
  pub ex_units_memory : ℕ
  pub ex_units_steps : ℕ
  pub applied : Bool
  pub target_tx_hash : Option Hash32
  pub target_output_index : Option ℕ
  pub target_policy_id : Option Hash28
  pub target_reward_account : Option (List ℕ)  -- `none` for a nil slice
  pub target_body_ordinal : Option ℕ
  pub target_identity : Option (List ℕ)
  pub resolved_script_hash : Option Hash28

pub record Metadata : Type 0 where
  pub transaction_hash : Hash32
  pub transaction_order : ℕ
  pub labels : List ℕ
  pub cbor : List ℕ
  pub content_hash : Hash32

pub record Transaction : Type 0 where
  pub hash : Hash32
  pub order : ℕ
  pub parent_hash : Option Hash32
  pub subtransaction_index : Option ℕ
  pub era : Text
  pub phase2_valid : Bool
  pub flow_kind : Text
  pub declared_fee : Option ℕ
  pub effective_fee : Option ℕ
  pub mint_applied : Bool
  pub mint : List AssetDelta
  pub inputs : List Input
  pub outputs : List Output
  pub withdrawals : List Withdrawal
  pub redeemers : List Redeemer
  pub metadata : Option Metadata
  pub datum_observations : List DatumObservation

pub record Block : Type 0 where
  pub hash : Hash32
  pub parent_hash : Option Hash32
  pub slot : ℕ
  pub number : ℕ
  pub era : Text
  pub type : ℤ  -- int16
  pub synthetic : Bool
  pub transactions : List Transaction
  pub datums : List DatumBody
  pub observed_at : ℕ
