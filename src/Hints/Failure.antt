-- ===== src/Hints/Failure.antt =====
-- renderHints.ts: `detectFailure`. The two regular expressions are matched by hand: no repetition in
-- them can give a character back that what follows it could take.
use distill_portal.Prelude.{
  ℕ, ◌+◌, Text, lit, includes, trim_start, Bool, true, false, ◌&&◌, ◌||◌, Option, none, some, [],
  ◌∷◌, leb, ◌==◌, if◌then◌else◌,
}
use distill_portal.Parsers.{MessageKind, tool_result, Message}

-- The rest of the text after a word, with the characters compared as `fold` gives them.
unfoldable pub after_word : (ℕ → ℕ) → Text → Text → Option Text
after_word fold [] s = some s
after_word fold (c ∷ word) [] = none
after_word fold (c ∷ word) (d ∷ s) =
    let rest = after_word fold word s in if c == fold d then rest else none

abbrev pub same_case : ℕ → ℕ
same_case c = c

-- The flag `i` on the letters of ASCII; no other character folds to one of them.
abbrev pub fold_case : ℕ → ℕ
fold_case c = if leb b'A' c && leb c b'Z' then c + 32 else c

-- `\s*[:=]\s*`.
abbrev separator : Text → Option Text
separator [] = none
separator (c ∷ s) = if (c == b':') || (c == b'=') then some (trim_start s) else none

unfoldable pub after_separator : Text → Option Text
unfolding trim_start
after_separator s = separator (trim_start s)

-- `["']?`.
abbrev pub skip_quote : Text → Text
skip_quote [] = []
skip_quote (c ∷ s) = if (c == 34) || (c == 39) then s else c ∷ s

abbrev starts_non_zero : Option Text → Bool
starts_non_zero none = false
starts_non_zero (some []) = false
starts_non_zero (some (c ∷ s)) = leb b'1' c && leb c b'9'

-- `exit_code["']?\s*[:=]\s*([1-9]\d*)` from here on.
unfoldable pub exit_code_here : Text → Bool
unfolding after_word after_separator lit
exit_code_here s = elim (after_word same_case (lit "exit_code") s) [
  | none ↦ false
  | some rest ↦ starts_non_zero (after_separator (skip_quote rest))
]

unfoldable pub has_exit_code : Text → Bool
unfolding exit_code_here
has_exit_code [] = false
has_exit_code (c ∷ s) = exit_code_here (c ∷ s) || has_exit_code s

abbrev pub is_word_char : ℕ → Bool
is_word_char c =
    (leb b'a' c && leb c b'z')
    || (leb b'A' c && leb c b'Z')
    || (leb b'0' c && leb c b'9')
    || (c == b'_')

-- A word, and `\b` after it.
abbrev ends_word : Option Text → Bool
ends_word none = false
ends_word (some []) = true
ends_word (some (c ∷ s)) = if is_word_char c then false else true

abbrev is_bad_status : Option Text → Bool
is_bad_status none = false
is_bad_status (some s) =
    ends_word (after_word fold_case (lit "failed") s)
    || ends_word (after_word fold_case (lit "error") s)

-- `\s*status\s*[:=]\s*(failed|error)\b` from here on.
unfoldable pub status_here : Text → Bool
unfolding after_word after_separator lit trim_start
status_here s = elim (after_word fold_case (lit "status") (trim_start s)) [
  | none ↦ false
  | some rest ↦ is_bad_status (after_separator rest)
]

unfoldable pub status_after_newline : Text → Bool
unfolding status_here
status_after_newline [] = false
status_after_newline (c ∷ s) = ((c == 10) && status_here s) || status_after_newline s

abbrev pub is_tool_result : MessageKind → Bool
is_tool_result tool_result = true
is_tool_result _ = false

unfoldable pub failure_text : (Text → Text) → Text → Bool
unfolding includes lit has_exit_code status_here status_after_newline
failure_text lower text =
    let low = lower text in
    (includes low (lit "\"is_error\":true") || includes low (lit "\"is_error\": true"))
    || (includes low (lit "\"iserror\":true") || includes low (lit "\"iserror\": true"))
    || (includes low (lit "\"success\":false") || includes low (lit "\"success\": false"))
    || has_exit_code text
    || (status_here text || status_after_newline text)

unfoldable pub detect_failure : (Text → Text) → Message → Bool
unfolding failure_text
detect_failure lower m = is_tool_result m.kind && failure_text lower m.text
