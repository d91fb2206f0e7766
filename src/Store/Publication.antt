-- ===== src/Store/Publication.antt =====
-- internal/store/publication.go: the adoption of a batch of blocks.
pub mod Facts
pub mod Readback
pub mod Exact
pub mod Numbered
pub mod Publish
pub mod Stored
pub mod Truth
use clicksync.Base.{
  ℕ, suc, ◌+◌, ◌-◌, List, [], ◌∷◌, map, length, Bool, true, false, not, ◌&&◌, ◌||◌, ◌==◌, ◌!=◌,
  nat_eq, bytes_eq, bool_eq, ltb, leb, Option, none, some, Result, ok, err, if◌then◌else◌, ◌>>=◌,
  ◌>>◌, reject_if, any,
}
use clicksync.Base.Int.{ℤ}
use clicksync.Base.Text.{Text, is_blank}
use clicksync.Base.Words.{max_u32, add64}
use clicksync.Model.{zero_hash}
use clicksync.Model.Facts.{Block, Transaction, DatumBody, Redeemer, Metadata}
use clicksync.Store.Types.{Relay, Candidate, Commit, Publication, FactCounts, CanonicalBlock}
use clicksync.Store.Tables.{ChainEvent, adoption}
use clicksync.Store.Inserts.{count_facts, point_for_block}

pub data CandidateError : Type 0 where
  zero_block_hash few_relays count_exceeds datum_exceeds redeemer_exceeds metadata_exceeds :
      ℕ → CandidateError
  incomplete_relay : ℕ → ℕ → CandidateError

unfoldable pub incomplete : Relay → Bool
incomplete relay = is_blank relay.host || is_blank relay.address || is_blank relay.operator

-- The loop over the relays of a candidate, from `relay_index` on.
unfoldable pub check_relays : ℕ → ℕ → List Relay → Result CandidateError (Unit {0})
check_relays index relay_index [] = ok tt
check_relays index relay_index (relay ∷ relays) = do
  reject_if (incomplete relay) (incomplete_relay index relay_index)
  check_relays index (suc relay_index) relays

-- The counts that are compared with math.MaxUint32. The loop is over a map, in any order.
unfoldable pub counts_exceed : FactCounts → Bool
counts_exceed c =
    ltb max_u32 c.transactions
    || ltb max_u32 c.inputs
    || ltb max_u32 c.outputs
    || ltb max_u32 c.datum_observations
    || ltb max_u32 c.withdrawals
    || ltb max_u32 c.redeemers
    || ltb max_u32 c.metadata

abbrev pub metadata_exceed : Option Metadata → Bool
metadata_exceed none = false
metadata_exceed (some m) = ltb max_u32 (length m.cbor)

-- The loop over the transactions.
unfoldable pub check_transactions : ℕ → List Transaction → Result CandidateError (Unit {0})
check_transactions index [] = ok tt
check_transactions index (t ∷ ts) = do
  reject_if (any (λ (r : Redeemer). ltb max_u32 (length r.data_cbor)) t.redeemers)
      (redeemer_exceeds index)
  reject_if (metadata_exceed t.metadata) (metadata_exceeds index)
  check_transactions index ts

unfoldable pub check_candidate : ℕ → Candidate → Result CandidateError (Unit {0})
check_candidate index c = do
  reject_if (c.block.hash == zero_hash) (zero_block_hash index)
  reject_if (ltb (length c.relays) 2) (few_relays index)
  check_relays index 0 c.relays
  reject_if (counts_exceed (count_facts c.block)) (count_exceeds index)
  reject_if (any (λ (d : DatumBody). ltb max_u32 (length d.cbor)) c.block.datums)
      (datum_exceeds index)
  check_transactions index c.block.transactions

-- The loop over the candidates, from `index` on.
unfoldable pub validate_candidates : ℕ → List Candidate → Result CandidateError (Unit {0})
validate_candidates index [] = ok tt
validate_candidates index (c ∷ cs) = do check_candidate index c; validate_candidates (suc index) cs

-- The loop that numbers the candidates, from `index` on.
unfoldable pub number_from : ℕ → ℕ → ℕ → ℕ → ℕ → List Candidate → List Publication
number_from writer_id inserted_at first_publication first_event index [] = []
number_from writer_id inserted_at first_publication first_event index (c ∷ cs) =
    record {
      publication_id = add64 first_publication index;
      event_seq = add64 first_event index;
      block = c.block;
      counts = count_facts c.block;
      content_hash = c.content_hash;
      relays = c.relays;
      writer_id = writer_id;
      inserted_at = inserted_at;
    }
    ∷ number_from writer_id inserted_at first_publication first_event (suc index) cs

module _ (byron_ebb : ℤ) where
  unfoldable pub canonical_block : Publication → CanonicalBlock
  canonical_block p = record {
    publication_id = p.publication_id;
    event_seq = p.event_seq;
    point = point_for_block byron_ebb p.block;
  }

  -- The row of `insertAdoptions`.
  unfoldable pub adoption_row : Publication → ChainEvent
  unfolding point_for_block
  adoption_row p =
      let point = point_for_block byron_ebb p.block in
      record {
        event_seq = p.event_seq;
        publication_id = p.publication_id;
        kind = adoption;
        active = true;
        rollback_id = none;
        block_hash = point.hash;
        slot = point.slot;
        block_number = point.block_number;
        is_byron_ebb = point.is_byron_ebb;
        writer_id = p.writer_id;
        recorded_at = p.inserted_at;
      }
