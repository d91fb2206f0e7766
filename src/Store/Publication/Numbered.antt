-- ===== src/Store/Publication/Numbered.antt =====
-- The publications of a batch in internal/store/publication.go, and their adoptions, field by field.
use clicksync.Base.{
  ℕ, suc, ◌+◌, ◌≤◌, List, [], ◌∷◌, map, length, true, ◌&&◌, ◌==◌, bytes_eq, none, ◌≡◌, refl, sym,
  subst, arith,
}
use clicksync.Base.Int.{ℤ, int_eq}
use clicksync.Base.Text.{text}
use clicksync.Base.Words.{u64_mod}
use clicksync.Base.Ascending.{Ascends}
use clicksync.Store.Types.{Candidate, Publication}
use clicksync.Store.Tables.{ChainEvent, adoption}
use clicksync.Store.Inserts.{count_facts, point_for_block}
use clicksync.Store.Publication.{number_from, adoption_row}
use clicksync.Store.Publication.Exact.{seq_of}

-- A publication of a candidate, with the identities given.
pub record IsPublication (writer now publication event : ℕ) (c : Candidate) (p : Publication)
    : Type 0 where
  pub publication_id : p.publication_id ≡ publication
  pub event_seq : p.event_seq ≡ event
  pub block : p.block ≡ c.block
  pub counts : p.counts ≡ count_facts c.block
  pub content_hash : p.content_hash ≡ c.content_hash
  pub relays : p.relays ≡ c.relays
  pub writer_id : p.writer_id ≡ writer
  pub inserted_at : p.inserted_at ≡ now

-- One for each candidate, in their order, numbered one by one.
abbrev pub ArePublications : ℕ → ℕ → ℕ → ℕ → List Candidate → List Publication → Type 0
ArePublications writer now publication event [] [] = Unit
ArePublications writer now publication event [] (p ∷ ps) = ⊥
ArePublications writer now publication event (c ∷ cs) [] = ⊥
ArePublications writer now publication event (c ∷ cs) (p ∷ ps) =
    IsPublication writer now publication event c p
    × ArePublications writer now (suc publication) (suc event) cs ps

-- The event that adopts a publication.
pub record IsAdoption (byron_ebb : ℤ) (p : Publication) (e : ChainEvent) : Type 0 where
  pub event_seq : e.event_seq ≡ p.event_seq
  pub publication_id : e.publication_id ≡ p.publication_id
  pub kind : e.kind ≡ adoption
  pub active : e.active ≡ true
  pub rollback_id : e.rollback_id ≡ none
  pub block_hash : e.block_hash ≡ p.block.hash
  pub slot : e.slot ≡ p.block.slot
  pub block_number : e.block_number ≡ p.block.number
  pub is_byron_ebb : e.is_byron_ebb ≡ (p.block.era == text "Byron" && p.block.type == byron_ebb)
  pub writer_id : e.writer_id ≡ p.writer_id
  pub recorded_at : e.recorded_at ≡ p.inserted_at

abbrev pub AreAdoptions : ℤ → List Publication → List ChainEvent → Type 0
AreAdoptions byron_ebb [] [] = Unit
AreAdoptions byron_ebb [] (e ∷ es) = ⊥
AreAdoptions byron_ebb (p ∷ ps) [] = ⊥
AreAdoptions byron_ebb (p ∷ ps) (e ∷ es) = IsAdoption byron_ebb p e × AreAdoptions byron_ebb ps es

pub number_from-ArePublications :
    (writer now first_publication first_event index publication event : ℕ) (cs : List Candidate)
    → publication ≡ first_publication + index
    → event ≡ first_event + index
    → first_publication + index + length cs ≤ u64_mod
    → first_event + index + length cs ≤ u64_mod
    → ArePublications writer now publication event cs
        (number_from writer now first_publication first_event index cs)
unfolding number_from
number_from-ArePublications w t fp fe index n m [] a b h k = tt
number_from-ArePublications w t fp fe index n m (c ∷ cs) a b h k = (
  record {
    publication_id = omega arith;
    event_seq = omega arith;
    block = refl;
    counts = refl;
    content_hash = refl;
    relays = refl;
    writer_id = refl;
    inserted_at = refl;
  },
  number_from-ArePublications w t fp fe (suc index) (suc n) (suc m) cs (omega arith) (omega arith)
      (omega arith) (omega arith),
)

pub ArePublications-Ascends :
    (writer now publication event : ℕ) (cs : List Candidate) (ps : List Publication)
    → ArePublications writer now publication event cs ps
    → Ascends seq_of event ps
ArePublications-Ascends w t n m [] [] h = tt
ArePublications-Ascends w t n m [] (p ∷ ps) h = absurd h
ArePublications-Ascends w t n m (c ∷ cs) [] h = absurd h
ArePublications-Ascends w t n m (c ∷ cs) (p ∷ ps) (here, h) =
    let same = here.event_seq in
    (omega arith, rise (ArePublications-Ascends w t (suc n) (suc m) cs ps h) same)
  where
    rise : Ascends seq_of (suc m) ps → p.event_seq ≡ m → Ascends seq_of (suc p.event_seq) ps
    rise a same = subst (λ k. Ascends seq_of (suc k) ps) (sym same) a

pub adoption_rows-AreAdoptions :
    (byron_ebb : ℤ) (ps : List Publication)
    → AreAdoptions byron_ebb ps (map (adoption_row byron_ebb) ps)
unfolding adoption_row point_for_block
adoption_rows-AreAdoptions byron_ebb [] = tt
adoption_rows-AreAdoptions byron_ebb (p ∷ ps) = (
  record {
    event_seq = refl;
    publication_id = refl;
    kind = refl;
    active = refl;
    rollback_id = refl;
    block_hash = refl;
    slot = refl;
    block_number = refl;
    is_byron_ebb = refl;
    writer_id = refl;
    recorded_at = refl;
  },
  adoption_rows-AreAdoptions byron_ebb ps,
)
