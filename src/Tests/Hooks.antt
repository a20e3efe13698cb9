-- ===== src/Tests/Hooks.antt =====
-- The theorems on the persisted filters, the raw stream and the parsed session at concrete inputs.
use distill_portal.Prelude.{ℕ, true, false, none, some, List, [], ◌∷◌, ◌≡◌, refl}
use distill_portal.Contracts.{codex, outdated}
use distill_portal.Json.{Json, Runtime}
use distill_portal.Sessions.FilterState.{SessionFiltersState, only, default_filters}
use distill_portal.Sessions.FilterState.Codec.{encode_filters, decode_filters}
use distill_portal.Sessions.FilterState.Codec.Laws.{decode_filters-encode_filters}
use distill_portal.Sessions.FilterState.Setters.{
  FilterAction, set_filter, search, set_importable_only, next_filters, persist, mount_filters, act,
  act_all,
}
use distill_portal.Sessions.FilterState.Setters.Laws.{reload_lem}
use distill_portal.Poll.{OperationStatus, running}
use distill_portal.Stream.{Decoder, body, finished, stream_raw_text}
use distill_portal.Stream.Laws.{arrivals, stream_raw_text_lem}
use distill_portal.Parsers.Dispatch.{registered, dispatch_parser}
use distill_portal.Parsers.Dispatch.Laws.{IsSession, dispatch_parser-IsSession}
use distill_portal.Tests.Data.{two_lines, codex_runtime}

abbrev chosen : SessionFiltersState
chosen = record default_filters { tool = only codex; status = outdated ∷ []; search = 120 ∷ [] }

-- A run time that writes everything as the empty text, and reads that as one value.
abbrev one_value : Json → Runtime
one_value v = record {
  parse_json = λ s. some v;
  stringify = λ w. [];
  stringify_indented = λ w. [];
  is_date = λ s. false;
  number_text = λ n. [];
}

decode_filters-encode_filters_example :
    decode_filters (one_value (encode_filters chosen)) (some []) ≡ chosen
decode_filters-encode_filters_example =
    decode_filters-encode_filters (one_value (encode_filters chosen)) chosen refl

abbrev typed : List FilterAction
typed = set_filter (search (121 ∷ [])) ∷ set_importable_only true ∷ []

abbrev typed_filters : SessionFiltersState
typed_filters = record default_filters { search = 121 ∷ []; importable_only = true }

reload_lem_example :
    let h =
      act_all
        (one_value (encode_filters typed_filters))
        typed
        (mount_filters (one_value (encode_filters typed_filters)) true none) in
    decode_filters (one_value (encode_filters typed_filters)) h.blob ≡ h.filters
unfolding act_all act persist mount_filters decode_filters next_filters
reload_lem_example = reload_lem (one_value (encode_filters typed_filters)) none typed refl

-- One byte is one character.
abbrev latin : Decoder
latin = record { Held = Unit; fresh = tt; decode = λ stream held bytes. (bytes, tt) }

stream_raw_text_lem_example :
    stream_raw_text {E = Unit} latin 3 false
      (body (arrivals ((65 ∷ 66 ∷ []) ∷ (67 ∷ 68 ∷ []) ∷ [])))
    ≡ finished (record { text = 65 ∷ 66 ∷ 67 ∷ []; total_bytes = 3; truncated = true })
stream_raw_text_lem_example =
    stream_raw_text_lem latin 3 (λ held front back. refl) ((65 ∷ 66 ∷ []) ∷ (67 ∷ 68 ∷ []) ∷ [])

dispatch_parser-IsSession_example : IsSession two_lines (
    dispatch_parser codex_runtime
      (registered codex)
      two_lines
      (record { total_bytes = 12; truncated = false }))
dispatch_parser-IsSession_example =
    dispatch_parser-IsSession codex_runtime (registered codex) two_lines
      (record { total_bytes = 12; truncated = false })

-- An operation is its status here.
abbrev status_of : OperationStatus → OperationStatus
status_of s = s

abbrev two_running : List (OperationStatus × ℕ)
two_running = (running, 400) ∷ (running, 12000) ∷ []
