-- ===== src/Sessions/Merge/Laws.antt =====
-- mergeSessions.ts: the rows of the merged list, and which of them may be imported.
use distill_portal.Prelude.{
  Text, true, none, some, List, [], ◌∷◌, map, All, All-append, All-map, All-mono, ◌≡◌, refl, ◌↔◌,
  ◌⊎◌, inl, inr, arith, Option-cases,
}
use distill_portal.Contracts.{
  not_stored, outdated, source_missing, SourceSessionView, StoredSessionView,
}
use distill_portal.Sessions.Rows.{SessionRow, stored_only, both, is_importable}
use distill_portal.Sessions.Merge.{both_row, source_only_row, stored_only_row, merge_sessions}
use distill_portal.Sessions.Merge.Join.{source_row, last_stored, merge_sessions_lem}
use mathlib.Core.List.{Memᴰ}

-- What presence means for the other fields of a row.
pub record IsConsistent (row : SessionRow) : Type 0 where
  pub keyed : (row.source_session_key ≡ none) ↔ (row.presence ≡ stored_only)
  pub row_keyed : (k : Text) → row.source_session_key ≡ some k → row.row_key ≡ k
  pub stale :
      (row.source_path_is_stale ≡ true)
      ↔ ((row.presence ≡ stored_only) × (row.status ≡ source_missing))
  pub conflicted : row.status_conflict ≡ true → row.presence ≡ both
  pub stored : row.presence ≡ both → (uid : Text) × (row.stored_session_uid ≡ some uid)
  pub importable :
      (is_importable row ≡ true)
      ↔ ((row.presence ≡ stored_only → ⊥) × ((row.status ≡ not_stored) ⊎ (row.status ≡ outdated)))

both_row-IsConsistent :
    (src : SourceSessionView) (st : StoredSessionView) → IsConsistent (both_row src st)
unfolding both_row is_importable
both_row-IsConsistent src st = record {
  keyed = ground arith;
  row_keyed = λ k h. ground arith;
  stale = ground arith;
  conflicted = λ h. refl;
  stored = λ h. (st.session_uid, refl);
  importable = ground arith;
}

source_only_row-IsConsistent : (src : SourceSessionView) → IsConsistent (source_only_row src)
unfolding source_only_row is_importable
source_only_row-IsConsistent src = record {
  keyed = ground arith;
  row_keyed = λ k h. ground arith;
  stale = ground arith;
  conflicted = λ h. ground arith;
  stored = λ h. absurd (ground arith);
  importable = ground arith;
}

stored_only_row-IsConsistent : (st : StoredSessionView) → IsConsistent (stored_only_row st)
unfolding stored_only_row is_importable
stored_only_row-IsConsistent st = record {
  keyed = ground arith;
  row_keyed = λ k h. ground arith;
  stale = ground arith;
  conflicted = λ h. ground arith;
  stored = λ h. absurd (ground arith);
  importable = ground arith;
}

source_row-IsConsistent :
    (stored : List StoredSessionView) (src : SourceSessionView)
    → IsConsistent (source_row stored src)
source_row-IsConsistent stored src =
    elim (Option-cases (last_stored src.tool src.source_session_id stored)) [
      | inl e ↦ rw (e, source_row) (source_only_row-IsConsistent src)
      | inr (st, e) ↦ rw (e, source_row) (both_row-IsConsistent src st)
    ]

-- In every row of the merged list: the import key is missing exactly if the row is stored-only, and
-- is the row key otherwise; the path is stale exactly for a stored-only row with a missing source; a
-- status conflict needs both sides; a row on both sides has a stored uid; and the row may be
-- imported exactly if it is not stored-only and its status is not-stored or outdated.
pub merge_sessions-IsConsistent :
    (sources : List SourceSessionView) (stored : List StoredSessionView)
    → All IsConsistent (merge_sessions sources stored)
merge_sessions-IsConsistent sources stored = rw (merge_sessions_lem sources stored) (
    All-append IsConsistent (map (source_row stored) sources) _
      (All-map IsConsistent (source_row stored) sources (source_row-IsConsistent stored))
      (All-map IsConsistent stored_only_row _ stored_only_row-IsConsistent))

-- A row that may be imported carries the key and the status of a session of the source list.
abbrev pub IsBacked : List SourceSessionView → SessionRow → Type 0
IsBacked sources row =
    is_importable row ≡ true
    → (src : SourceSessionView) × Memᴰ src sources
      × (row.source_session_key ≡ some src.session_key)
      × (row.status ≡ src.status)

source_row-fields :
    (stored : List StoredSessionView) (src : SourceSessionView)
    → let row = source_row stored src in
      (row.source_session_key ≡ some src.session_key)
      × (row.status ≡ src.status)
      × (row.tool ≡ src.tool)
      × (row.source_session_id ≡ src.source_session_id)
unfolding both_row source_only_row
source_row-fields stored src = ground arith

All-IsBacked_sources :
    (stored : List StoredSessionView) (sources : List SourceSessionView)
    → All (IsBacked sources) (map (source_row stored) sources)
All-IsBacked_sources stored [] = tt
All-IsBacked_sources stored (src ∷ sources) =
    let f = source_row-fields stored src in
    (
      λ _. (src, Memᴰ.head refl, f.0, f.1),
      All-mono (IsBacked sources) (IsBacked (src ∷ sources)) (map (source_row stored) sources)
          (λ row b h. let (s, m, k, e) = b h in (s, Memᴰ.tail m, k, e))
          (All-IsBacked_sources stored sources),
    )

stored_only_row-IsBacked :
    (sources : List SourceSessionView) (st : StoredSessionView)
    → IsBacked sources (stored_only_row st)
unfolding stored_only_row is_importable
stored_only_row-IsBacked sources st h = absurd (ground arith)

-- Only sessions that the backend lists as sources can be imported: an importable row of the merged
-- list carries the session key and the status of one of the sources.
pub merge_sessions-IsBacked :
    (sources : List SourceSessionView) (stored : List StoredSessionView)
    → All (IsBacked sources) (merge_sessions sources stored)
merge_sessions-IsBacked sources stored = rw (merge_sessions_lem sources stored) (
    All-append (IsBacked sources) (map (source_row stored) sources) _
      (All-IsBacked_sources stored sources)
      (All-map (IsBacked sources) stored_only_row _ (stored_only_row-IsBacked sources)))
