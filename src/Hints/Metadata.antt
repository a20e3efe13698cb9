-- ===== src/Hints/Metadata.antt =====
-- renderHints.ts: `buildMetadataHint`.
use distill_portal.Prelude.{
  ℕ, Text, lit, length, take, ltb, decimal, Option, none, some, [], ◌++◌, if◌then◌else◌,
}
use distill_portal.Parsers.{Message, MessageKind, assistant, MetaCategory, control, echo, EchoOf}
use distill_portal.Hints.{MetadataHint}

abbrev pub metadata_raw_tooltip_max : ℕ
metadata_raw_tooltip_max = 1024

unfoldable pub tooltip : Text → Text
unfolding lit
tooltip raw =
    if ltb metadata_raw_tooltip_max (length raw)
    then take metadata_raw_tooltip_max raw ++ lit "…"
    else raw

abbrev pub category_of : Option MetaCategory → MetaCategory
category_of none = control
category_of (some category) = category

abbrev kind_text : MessageKind → Text
kind_text assistant = lit "assistant"
kind_text kind = lit "user"

abbrev canonical : Option EchoOf → Text
canonical none = lit "user"
canonical (some back) = kind_text back.canonical_kind

-- The line of a back-pointer is a number of the parser.
abbrev line_text : Option EchoOf → Text
line_text none = lit "(line unknown)"
line_text (some back) = lit "at line " ++ decimal back.line_ordinal

unfoldable pub metadata_of : MetaCategory → Message → MetadataHint
unfolding lit decimal tooltip
metadata_of echo m = record {
  category = echo;
  display = [];
  aria_label =
      lit "Echo: duplicate of canonical "
      ++ canonical m.echo_of
      ++ lit " message "
      ++ line_text m.echo_of;
  raw = tooltip m.raw;
  echo_of = m.echo_of;
}
metadata_of category m = record {
  category = category;
  display = m.text;
  aria_label = lit "Metadata: " ++ m.text;
  raw = tooltip m.raw;
  echo_of = none;
}

unfoldable pub build_metadata_hint : Message → MetadataHint
unfolding metadata_of
build_metadata_hint m = metadata_of (category_of m.meta_category) m
