-- ===== src/Tests/Browser.antt =====
-- The theorems on the polls, the raw preview and the selected row at concrete inputs.
use distill_portal.Prelude.{
  ℕ, Text, text_eq, true, false, some, List, [], ◌∷◌, ◌++◌, lit, ◌==◌, if◌then◌else◌, split_lines,
  ◌≡◌, ◌⊎◌, refl, arith,
}
use distill_portal.Stream.{Decoder, body}
use distill_portal.Stream.Laws.{arrivals, payload}
use distill_portal.RawPreview.{consume_raw_preview}
use distill_portal.RawPreview.Parts.{decoded}
use distill_portal.RawPreview.Laws.{Previews, consume_raw_preview_lem}
use distill_portal.Poll.Live.{PollEvent, starts, step_polls, no_polls, step_polls-one_live}
use distill_portal.SelectedSession.{
  Params, Location, Browser, Selection, session_name, get_param, mount_selection, select_row,
  on_popstate,
}
use distill_portal.SelectedSession.Laws.{select_row_lem}
use distill_portal.Tests.Data.{codex_runtime}

-- One byte is one character.
abbrev latin : Decoder
latin = record { Held = Unit; fresh = tt; decode = λ stream held bytes. (bytes, tt) }

-- Two lines and the start of a third, cut inside the second.
abbrev chunks : List (List ℕ)
chunks = (97 ∷ 10 ∷ 98 ∷ []) ∷ (99 ∷ 10 ∷ 100 ∷ []) ∷ []

consume_raw_preview_lem_example :
    Previews codex_runtime 2 100 latin
      (λ held front back. refl)
      (λ held. tt)
      {E = Unit}
      (decoded codex_runtime 2 (split_lines (payload chunks)))
      (consume_raw_preview codex_runtime 2 100 latin false (body (arrivals chunks)))
consume_raw_preview_lem_example =
    consume_raw_preview_lem codex_runtime 2 100 latin (λ held front back. refl) (λ held. tt) chunks
      (omega arith) (omega arith)

-- A second call for an operation takes over.
abbrev calls : List PollEvent
calls = starts (97 ∷ []) ∷ starts (97 ∷ []) ∷ starts (98 ∷ []) ∷ []

step_polls-one_live_example :
    ((step_polls calls no_polls).controllers.aborted 0 ≡ true)
    ⊎ ((step_polls calls no_polls).controllers.aborted 1 ≡ true)
unfolding step_polls text_eq
step_polls-one_live_example =
    step_polls-one_live calls 0 1 (97 ∷ []) refl refl (λ e. absurd (omega arith))

-- A browser that prints each parameter as its name, an equals sign, its value and an ampersand, and cuts
-- an address at its question mark and its number sign; it writes no escapes.
abbrev printed : Params → Text
printed [] = []
printed ((n, v) ∷ ps) = n ++ 61 ∷ (v ++ 38 ∷ printed ps)

-- A parameter from its end: what is read so far is the name, until the equals sign makes it the value.
abbrev read_before : ℕ → Params → Params
read_before c [] = if c == 38 then ([], []) ∷ [] else []
read_before c ((n, v) ∷ ps) =
    if c == 38
    then ([], []) ∷ (n, v) ∷ ps
    else if c == 61
    then ([], n) ∷ ps
    else if c == 63
    then (n, v) ∷ ps
    else (c ∷ n, v) ∷ ps

read_params : Text → Params
read_params [] = []
read_params (c ∷ s) = read_before c (read_params s)

abbrev cut_before : ℕ → Location → Location
cut_before c at =
    if c == 35
    then record { pathname = []; search = []; hash = c ∷ at.pathname }
    else if c == 63
    then record { pathname = []; search = c ∷ at.pathname; hash = at.hash }
    else record at { pathname = c ∷ at.pathname }

cut_address : Text → Location
cut_address [] = record { pathname = []; search = []; hash = [] }
cut_address (c ∷ s) = cut_before c (cut_address s)

abbrev browser : Browser
browser = record { parse_query = read_params; print_query = printed; resolve = cut_address }

-- "/s", "?x=1&session=a&" and "#f".
abbrev at_path : Selection
at_path = record {
  selected_row_key = some (97 ∷ []);
  location = record { pathname = lit "/s"; search = lit "?x=1&session=a&"; hash = lit "#f" };
}

selected_b : (select_row browser (some (98 ∷ [])) at_path).location.search ≡ lit "?x=1&session=b&"
unfolding select_row lit read_params cut_address text_eq
selected_b = refl

select_row_lem_example :
    let after = select_row browser (some (98 ∷ [])) at_path in
    (mount_selection browser after.location ≡ after)
    × (on_popstate browser after.location at_path ≡ after)
    × (after.location.pathname ≡ lit "/s")
    × (after.location.hash ≡ lit "#f")
    × (get_param (120 ∷ []) (read_params after.location.search)
        ≡ get_param (120 ∷ []) (read_params (lit "?x=1&session=a&")))
unfolding session_name select_row text_eq lit read_params cut_address
select_row_lem_example =
    select_row_lem browser (some (98 ∷ [])) at_path at_path (120 ∷ [])
      (record { address = refl; query = refl }) refl
