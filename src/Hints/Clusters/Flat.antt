-- ===== src/Hints/Clusters/Flat.antt =====
-- renderHints.ts: what the second and the third pass keep of the first.
use distill_portal.Prelude.{
  ℕ, none, some, List, [], ◌∷◌, ◌++◌, map, length, ltb, All, ◌≡◌, refl, sym, ap, ◌∙◌, inl, inr,
  arith, Bool-cases, Option-cases,
}
use distill_portal.Hints.{
  RenderHint, standalone, lifecycle, group_head, group_member, group_text_member, boundary_hint,
  warning_only_hint, metadata_hint, metadata_cluster_head, metadata_cluster_member, MetadataRow,
}
use distill_portal.Hints.Messages.{plain}
use distill_portal.Hints.Clusters.{
  flush_cluster, cluster_from, cluster_metadata, metadata_row, first_index,
  metadata_collapse_threshold,
}
use mathlib.Core.List.{append-nil, append_assoc, map-append}

-- A hint as it was before it was folded away: a member is a hint of its own again, and a head nothing.
abbrev pub unfolded : RenderHint → List RenderHint
unfolded (group_head h) = []
unfolded (group_member head h) = lifecycle h ∷ []
unfolded (group_text_member head i warnings) = plain i warnings none ∷ []
unfolded (metadata_cluster_head is hs) = []
unfolded (metadata_cluster_member head r) = metadata_hint r ∷ []
unfolded h = h ∷ []

abbrev pub unfold_all : List RenderHint → List RenderHint
unfold_all [] = []
unfold_all (h ∷ hs) = unfolded h ++ unfold_all hs

pub unfold_all-append :
    (xs ys : List RenderHint) → unfold_all (xs ++ ys) ≡ unfold_all xs ++ unfold_all ys
unfold_all-append [] ys = refl
unfold_all-append (x ∷ xs) ys =
    ap (λ hs. unfolded x ++ hs) (unfold_all-append xs ys)
    ∙ sym (append_assoc (unfolded x) (unfold_all xs) (unfold_all ys))

abbrev pub IsFlat : RenderHint → Type 0
IsFlat h = unfolded h ≡ h ∷ []

pub unfold_all_flat : (hs : List RenderHint) → All IsFlat hs → unfold_all hs ≡ hs
unfold_all_flat [] f = refl
unfold_all_flat (h ∷ hs) (f, fs) = rw f (ap (λ xs. h ∷ xs) (unfold_all_flat hs fs))

-- Metadata rows that are folded into a cluster.
unfold_all-rows : (rs : List MetadataRow) → unfold_all (map metadata_hint rs) ≡ map metadata_hint rs
unfold_all-rows [] = refl
unfold_all-rows (r ∷ rs) = ap (λ xs. metadata_hint r ∷ xs) (unfold_all-rows rs)

unfold_all-members :
    (head : ℕ) (rs : List MetadataRow)
    → unfold_all (map (metadata_cluster_member head) rs) ≡ map metadata_hint rs
unfold_all-members head [] = refl
unfold_all-members head (r ∷ rs) = ap (λ xs. metadata_hint r ∷ xs) (unfold_all-members head rs)

unfold_all-flush_cluster :
    (rs : List MetadataRow) → unfold_all (flush_cluster rs) ≡ map metadata_hint rs
unfolding flush_cluster
unfold_all-flush_cluster rs = elim (Bool-cases (ltb (length rs) metadata_collapse_threshold)) [
  | inl e ↦ rw e (unfold_all-rows rs)
  | inr e ↦ rw e (unfold_all-members (first_index rs) rs)
]

-- A hint that is no metadata goes on as it is.
metadata_row_of : (h : RenderHint) (r : MetadataRow) → metadata_row h ≡ some r → h ≡ metadata_hint r
metadata_row_of (metadata_hint q) r e = ground arith
metadata_row_of (standalone h) r e = cc
metadata_row_of (lifecycle h) r e = cc
metadata_row_of (group_head h) r e = cc
metadata_row_of (group_member i h) r e = cc
metadata_row_of (group_text_member i j ws) r e = cc
metadata_row_of (boundary_hint i) r e = cc
metadata_row_of (warning_only_hint i ws) r e = cc
metadata_row_of (metadata_cluster_head is ms) r e = cc
metadata_row_of (metadata_cluster_member i q) r e = cc

pub cluster_from-some :
    (buffer : List MetadataRow) (h : RenderHint) (hs : List RenderHint) (r : MetadataRow)
    → metadata_row h ≡ some r
    → cluster_from buffer (h ∷ hs) ≡ cluster_from (buffer ++ r ∷ []) hs
unfolding cluster_from
cluster_from-some buffer h hs r e = ground arith

pub cluster_from-none :
    (buffer : List MetadataRow) (h : RenderHint) (hs : List RenderHint)
    → metadata_row h ≡ none
    → cluster_from buffer (h ∷ hs) ≡ flush_cluster buffer ++ (h ∷ cluster_from [] hs)
unfolding cluster_from
cluster_from-none buffer h hs e = ground arith

unfold_all-cluster_from :
    (buffer : List MetadataRow) (hs : List RenderHint)
    → unfold_all (cluster_from buffer hs) ≡ map metadata_hint buffer ++ unfold_all hs
unfold_all-cluster_from buffer [] =
    unfold cluster_from in
    unfold_all-flush_cluster buffer ∙ sym (append-nil (map metadata_hint buffer))
unfold_all-cluster_from buffer (h ∷ hs) = elim (Option-cases (metadata_row h)) [
  | inl e ↦
      ap unfold_all (cluster_from-none buffer h hs e)
      ∙ unfold_all-append (flush_cluster buffer) (h ∷ cluster_from [] hs)
      ∙ rw (unfold_all-flush_cluster buffer, unfold_all-cluster_from [] hs) refl
  | inr (r, e) ↦
      ap unfold_all (cluster_from-some buffer h hs r e)
      ∙ unfold_all-cluster_from (buffer ++ r ∷ []) hs
      ∙ rw (metadata_row_of h r e, map-append)
          (append_assoc (map metadata_hint buffer) (metadata_hint r ∷ []) (unfold_all hs))
]

pub unfold_all-cluster_metadata :
    (hs : List RenderHint) → unfold_all (cluster_metadata hs) ≡ unfold_all hs
unfolding cluster_metadata
unfold_all-cluster_metadata hs = unfold_all-cluster_from [] hs
