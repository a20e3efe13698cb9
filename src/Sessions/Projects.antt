-- ===== src/Sessions/Projects.antt =====
-- apps/frontend/src/features/sessions/filterSessions.ts: `distinctProjectPaths`. A JavaScript set of strings
-- is a list in insertion order; the default sort compares by code unit.
pub mod Laws
use distill_portal.Prelude.{
  Text, text_eq, text_compare, Bool, false, ◌||◌, Option, none, some, List, [], ◌∷◌, ◌++◌,
  if◌then◌else◌, sort_by,
}
use distill_portal.Sessions.Rows.{SessionRow}

unfoldable pub has_path : Text → List Text → Bool
unfolding text_eq
has_path p [] = false
has_path p (q ∷ seen) = text_eq q p || has_path p seen

-- `seen.add(path)`, for a path that is not null.
unfoldable pub add_path : Option Text → List Text → List Text
unfolding has_path
add_path none seen = seen
add_path (some p) seen = if has_path p seen then seen else seen ++ p ∷ []

unfoldable pub collect_paths : List SessionRow → List Text → List Text
unfolding add_path
collect_paths [] seen = seen
collect_paths (row ∷ rows) seen = collect_paths rows (add_path row.project_path seen)

unfoldable pub distinct_project_paths : List SessionRow → List Text
unfolding collect_paths sort_by text_compare
distinct_project_paths rows = sort_by text_compare (collect_paths rows [])
