-- ===== src/LastRescan/Laws.antt =====
-- lastRescan.ts: what a read gives after a write, and what it never gives.
use distill_portal.Prelude.{
  Text, true, false, Option, none, some, [], ◌∷◌, ◌≡◌, ◌≢◌, refl, ap, ◌∙◌, arith,
}
use distill_portal.Json.{Json, str, Runtime}
use distill_portal.LastRescan.{parsed_rescan, read_last_rescan, write_last_rescan}

parsed_rescan-ne-nil : (v : Option Json) (s : Text) → parsed_rescan v ≡ some s → s ≢ []
parsed_rescan-ne-nil v s h e = absurd (ground arith)

parsed_rescan-str : (iso : Text) → iso ≢ [] → parsed_rescan (some (str iso)) ≡ some iso
parsed_rescan-str [] ne = absurd (ne refl)
parsed_rescan-str (c ∷ s) ne = refl

-- Where `JSON.parse` inverts `JSON.stringify` on the time written, a time that is not empty is read
-- back after a write that succeeds, and one after a write that fails reads what was there before;
-- and no read of any blob gives an empty time.
pub read_last_rescan-write_last_rescan :
    (rt : Runtime) (iso : Text) (blob : Option Text)
    → iso ≢ []
    → rt.parse_json (rt.stringify (str iso)) ≡ some (str iso)
    → (read_last_rescan rt (write_last_rescan rt true iso blob) ≡ some iso)
      × (read_last_rescan rt (write_last_rescan rt false iso blob) ≡ read_last_rescan rt blob)
      × ((s : Text) → read_last_rescan rt blob ≡ some s → s ≢ [])
unfolding read_last_rescan write_last_rescan
read_last_rescan-write_last_rescan rt iso none ne h =
    (ap parsed_rescan h ∙ parsed_rescan-str iso ne, refl, λ s e. absurd (ground arith))
read_last_rescan-write_last_rescan rt iso (some raw) ne h = (
  ap parsed_rescan h ∙ parsed_rescan-str iso ne,
  refl,
  λ s e. parsed_rescan-ne-nil (rt.parse_json raw) s e,
)
