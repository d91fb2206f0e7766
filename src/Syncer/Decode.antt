-- ===== src/Syncer/Decode.antt =====
-- internal/syncer/decode.go, DecodeAgreedBlock: an agreed event as a decoded block.
-- `normalize` stands for `normalize.Decode`, and a time in UTC is the same instant.
use clicksync.Base.{
  ℕ, List, ◌==◌, ◌!=◌, nat_eq, Option, none, some, Result, ok, err, length, if◌then◌else◌,
}
use clicksync.Model.{AgreedEvent, event_forward}
use clicksync.Model.Facts.{Block}
use clicksync.Syncer.Blocks.{DecodedBlock}

pub data Error (E : Type 0) : Type 0 where
  not_forward no_raw_cbor : Error E
  cancelled normalize_failed : E → Error E

module _ {E : Type 0} (normalize : ℕ → List ℕ → Result E Block) where
  -- The facts with what the event says of the block.
  unfoldable pub provenance : AgreedEvent → Block → DecodedBlock
  provenance event facts = record {
    block = record facts { observed_at = event.observed_at };
    chain_point = event.point;
    content_hash = event.content_hash;
    raw_length = event.raw_length;
    relays = event.relays;
  }

  unfoldable pub with_provenance : AgreedEvent → Result E Block → Result (Error E) DecodedBlock
  with_provenance event (err cause) = err (normalize_failed cause)
  with_provenance event (ok facts) = ok (provenance event facts)

  -- The first argument is `context.Cause`.
  unfoldable pub decode_agreed_block : Option E → AgreedEvent → Result (Error E) DecodedBlock
  unfolding with_provenance
  decode_agreed_block (some cause) event = err (cancelled cause)
  decode_agreed_block none event =
      if event.kind != event_forward
      then err not_forward
      else if length event.raw_cbor == 0
      then err no_raw_cbor
      else with_provenance event (normalize event.block_type event.raw_cbor)
