-- ===== src/Parsers/ClaudeCode/Metadata.antt =====
-- claude_code.ts: the category and the display text of a metadata record.
use distill_portal.Prelude.{
  ℕ, Text, lit, ltb, leb, length, take, join, Option, none, some, List, [], ◌∷◌, ◌++◌,
  if◌then◌else◌, String, decimal, Bool-cases, inl, inr, leb→le, refl, ◌≡◌, ◌≤◌, arith,
  length-append, length-take,
}
use distill_portal.Json.{Json, Fields, obj, arr, items, prop, as_string, get_or}
use distill_portal.Parsers.{MetaCategory, agent, title, prompt, control}

pub data MetadataType : Type 0 where
  agent_name ai_title attachment custom_title file_history_snapshot last_prompt queue_operation
        permission_mode :
      MetadataType

abbrev pub meta_text_max_chars : ℕ
meta_text_max_chars = 78

unfoldable pub truncate_meta : Text → Text
unfolding lit
truncate_meta value =
    if leb (length value) meta_text_max_chars
    then value
    else take meta_text_max_chars value ++ lit "…"

abbrev quoted : Text → Text
quoted value = lit "“" ++ (truncate_meta value ++ lit "”")

abbrev string_field : String → Fields → String → Text
string_field key record' fallback = get_or (as_string (prop (lit key) record')) (lit fallback)

-- `filesArr`, an empty array where `files` is none.
abbrev file_items : Option Json → List Json
file_items (some (arr files)) = items files
file_items _ = []

abbrev file_path : Json → List Text
file_path (obj f) = elim (as_string (prop (lit "path") f)) [ some p ↦ p ∷ [] | none ↦ [] ]
file_path _ = []

file_paths : List Json → List Text
unfolding prop lit
file_paths [] = []
file_paths (f ∷ files) = file_path f ++ file_paths files

snapshot_text : List Json → Text
unfolding file_paths lit decimal join
snapshot_text files =
    let paths = take 2 (file_paths files) in
    let total = length files in
    let trail = if ltb (length paths) total then lit ", …" else [] in
    lit "file snapshot → "
    ++ (decimal total ++ (lit " files: " ++ (join (lit ", ") paths ++ trail)))

-- `queue → op`, with the prompt if it is a non-empty string.
queue_text : Text → Option Text → Text
unfolding lit truncate_meta
queue_text op (some (c ∷ p)) = lit "queue → " ++ (op ++ (lit ": " ++ quoted (c ∷ p)))
queue_text op _ = lit "queue → " ++ op

unfoldable pub format_metadata : MetadataType → Fields → MetaCategory × Text
unfolding truncate_meta snapshot_text queue_text lit prop
format_metadata agent_name r = (agent, lit "agent → " ++ string_field "name" r "(unknown)")
format_metadata ai_title r =
    (title, lit "auto title: " ++ quoted (string_field "title" r "(empty)"))
format_metadata custom_title r =
    (title, lit "custom title: " ++ quoted (string_field "customTitle" r "(empty)"))
format_metadata attachment r = (
  MetaCategory.attachment,
  lit "attachment → "
      ++ (string_field "fileName" r "(unnamed)"
          ++ (lit " (" ++ (string_field "mimeType" r "unknown" ++ lit ")"))),
)
format_metadata file_history_snapshot r =
    (MetaCategory.attachment, snapshot_text (file_items (prop (lit "files") r)))
format_metadata last_prompt r =
    (prompt, lit "last prompt: " ++ quoted (string_field "prompt" r "(empty)"))
format_metadata permission_mode r =
    (control, lit "permission mode → " ++ string_field "permissionMode" r "(unknown)")
format_metadata queue_operation r = (
  control,
  queue_text (string_field "operation" r "(unknown)") (as_string (prop (lit "prompt") r)),
)

length-truncated : (s : Text) → length (take meta_text_max_chars s ++ lit "…") ≤ 79
unfolding lit
length-truncated s =
    omega (arith, length-append (take meta_text_max_chars s) (lit "…"), length-take 78 s)

-- A truncated string has at most 79 code units, and one of at most 78 is kept whole.
pub truncate_meta_bounds :
    (s : Text)
    → (length (truncate_meta s) ≤ 79) × (length s ≤ meta_text_max_chars → truncate_meta s ≡ s)
unfolding truncate_meta
truncate_meta_bounds s = elim (Bool-cases (leb (length s) meta_text_max_chars)) [
  | inl short ↦ rw short (omega (arith, leb→le _ _ short), λ _. refl)
  | inr long ↦ rw long (length-truncated s, λ h. ground arith)
]
