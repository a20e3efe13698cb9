-- ===== src/LastRescan.antt =====
-- apps/frontend/src/features/sessions/lastRescan.ts: the persisted time of the last manual rescan. A blob is
-- none where the key is missing or `localStorage` is not there or throws.
pub mod Laws
use distill_portal.Prelude.{Text, Bool, Option, none, some, [], ◌∷◌, if◌then◌else◌}
use distill_portal.Json.{Json, str, Runtime}

abbrev pub parsed_rescan : Option Json → Option Text
parsed_rescan (some (str (c ∷ s))) = some (c ∷ s)
parsed_rescan _ = none

unfoldable pub read_last_rescan : Runtime → Option Text → Option Text
read_last_rescan rt none = none
read_last_rescan rt (some raw) = parsed_rescan (rt.parse_json raw)

-- `written` is false where the storage refuses; the blob stays then.
unfoldable pub write_last_rescan : Runtime → Bool → Text → Option Text → Option Text
write_last_rescan rt written iso blob = if written then some (rt.stringify (str iso)) else blob
