-- ===== src/Hints.antt =====
-- apps/frontend/src/features/sessions/renderHints.ts: how each message of a stream is shown. This module
-- holds the hints and `classifyWarning`; `lower` is `String.prototype.toLowerCase`.
pub mod Failure
pub mod Metadata
pub mod Messages
pub mod Groups
pub mod Clusters
use distill_portal.Prelude.{ℕ, Text, Option, List}
use distill_portal.Parsers.{
  ParseWarning, ParseWarningSeverity, error, warning, info, ParseWarningCategory, lexer, schema,
  payload, timestamp, meta, MetaCategory, EchoOf,
}

pub data Classification : Type 0 where
  render_normally collapse_by_default hide_with_inspect warning_only : Classification

pub record InlineWarning : Type 0 where
  pub reason : Text
  pub severity : ParseWarningSeverity
  pub category : ParseWarningCategory
  pub classification : Classification

pub data GroupStatus : Type 0 where
  all_success all_failed : ℕ → GroupStatus
  mixed in_flight : ℕ → ℕ → GroupStatus

pub data TaskLifecycle : Type 0 where
  started complete : TaskLifecycle

pub record MetadataHint : Type 0 where
  pub category : MetaCategory
  pub display : Text
  pub aria_label : Text
  pub raw : Text
  pub echo_of : Option EchoOf

-- Where the source leaves `warnings` out, the list is empty.
pub record Standalone : Type 0 where
  pub message_index : ℕ
  pub warnings : List InlineWarning
  pub task_lifecycle : Option TaskLifecycle

pub record Lifecycle : Type 0 where
  pub message_index : ℕ
  pub pair_with_index : Option ℕ
  pub warnings : List InlineWarning

pub record GroupHead : Type 0 where
  pub message_indices : List ℕ
  pub tool_name : Text
  pub tool_names : List Text
  pub aggregate_status : GroupStatus

pub record MetadataRow : Type 0 where
  pub message_index : ℕ
  pub metadata : MetadataHint

-- A member names the index of its head beside what it was before it was grouped.
pub data RenderHint : Type 0 where
  standalone : Standalone → RenderHint
  lifecycle : Lifecycle → RenderHint
  group_head : GroupHead → RenderHint
  group_member : ℕ → Lifecycle → RenderHint
  group_text_member : ℕ → ℕ → List InlineWarning → RenderHint
  boundary_hint : ℕ → RenderHint
  warning_only_hint : ℕ → List InlineWarning → RenderHint
  metadata_hint : MetadataRow → RenderHint
  metadata_cluster_head : List ℕ → List MetadataHint → RenderHint
  metadata_cluster_member : ℕ → MetadataRow → RenderHint

abbrev pub classify_category : ParseWarningCategory → Classification
classify_category schema = render_normally
classify_category payload = render_normally
classify_category lexer = collapse_by_default
classify_category timestamp = collapse_by_default
classify_category meta = warning_only

abbrev pub classify : ParseWarningSeverity → ParseWarningCategory → Classification
classify error category = render_normally
classify info category = hide_with_inspect
classify warning category = classify_category category

unfoldable pub classify_warning : ParseWarning → Classification
classify_warning w = classify w.severity w.category
