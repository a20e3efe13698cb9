-- ===== src/Hints/Clusters.antt =====
-- renderHints.ts: the third pass, `clusterMetadata`, and `renderHints` itself.
pub mod Flat
pub mod Runs
pub mod Grouped
pub mod Gather
pub mod Views
pub mod Cover
use distill_portal.Prelude.{
  ℕ, Text, Option, none, some, List, [], ◌∷◌, ◌++◌, map, length, ltb, if◌then◌else◌,
}
use distill_portal.Parsers.{Message, ParseWarning}
use distill_portal.Hints.{
  RenderHint, MetadataRow, MetadataHint, metadata_hint, metadata_cluster_head,
  metadata_cluster_member,
}
use distill_portal.Hints.Messages.{hints_of_messages}
use distill_portal.Hints.Groups.{group_lifecycles}

abbrev pub metadata_collapse_threshold : ℕ
metadata_collapse_threshold = 2

abbrev pub row_index : MetadataRow → ℕ
row_index r = r.message_index

abbrev pub row_hint : MetadataRow → MetadataHint
row_hint r = r.metadata

abbrev pub first_index : List MetadataRow → ℕ
first_index [] = 0
first_index (r ∷ rs) = r.message_index

unfoldable pub flush_cluster : List MetadataRow → List RenderHint
flush_cluster buffer =
    if ltb (length buffer) metadata_collapse_threshold
    then map metadata_hint buffer
    else metadata_cluster_head (map row_index buffer) (map row_hint buffer)
      ∷ map (metadata_cluster_member (first_index buffer)) buffer

abbrev pub metadata_row : RenderHint → Option MetadataRow
metadata_row (metadata_hint r) = some r
metadata_row _ = none

unfoldable pub cluster_from : List MetadataRow → List RenderHint → List RenderHint
unfolding flush_cluster
cluster_from buffer [] = flush_cluster buffer
cluster_from buffer (h ∷ hs) = elim (metadata_row h) [
  | some r ↦ cluster_from (buffer ++ r ∷ []) hs
  | none ↦ flush_cluster buffer ++ (h ∷ cluster_from [] hs)
]

unfoldable pub cluster_metadata : List RenderHint → List RenderHint
unfolding cluster_from
cluster_metadata hints = cluster_from [] hints

unfoldable pub render_hints : (Text → Text) → List Message → List ParseWarning → List RenderHint
unfolding cluster_metadata group_lifecycles hints_of_messages
render_hints lower messages warnings =
    cluster_metadata (group_lifecycles lower messages (hints_of_messages messages warnings))
