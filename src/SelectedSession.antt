-- ===== src/SelectedSession.antt =====
-- apps/frontend/src/features/sessions/useSelectedSession.ts: the selected row and its mirror in the page's
-- address. What the browser does with the text of a query and of an address is a parameter.
pub mod Laws
use distill_portal.Prelude.{
  ℕ, Text, lit, text_eq, Bool, true, false, Option, none, some, List, [], ◌∷◌, ◌++◌, if◌then◌else◌,
}

-- `URLSearchParams`: names and values in their order. `get` gives the first value of a name, `delete` takes
-- all away, and `set` replaces the first and takes the others away.
abbrev pub Params : Type 0
Params = List (Text × Text)

unfoldable pub get_param : Text → Params → Option Text
get_param name [] = none
get_param name ((n, v) ∷ ps) = if text_eq n name then some v else get_param name ps

unfoldable pub delete_param : Text → Params → Params
delete_param name [] = []
delete_param name ((n, v) ∷ ps) =
    let rest = delete_param name ps in if text_eq n name then rest else (n, v) ∷ rest

unfoldable pub set_param : Text → Text → Params → Params
unfolding delete_param
set_param name value [] = (name, value) ∷ []
set_param name value ((n, v) ∷ ps) =
    let rest = set_param name value ps in
    if text_eq n name then (n, value) ∷ delete_param name ps else (n, v) ∷ rest

pub record Location : Type 0 where
  pub pathname : Text
  pub search : Text
  pub hash : Text

-- `parse_query` reads `location.search`, `print_query` is `params.toString()`, and `resolve` is what
-- `replaceState` makes of an address.
pub record Browser : Type 0 where
  pub parse_query : Text → Params
  pub print_query : Params → Text
  pub resolve : Text → Location

unfoldable pub session_name : Text
unfolding lit
session_name = lit "session"

-- The selection, and the page's location.
pub record Selection : Type 0 where
  pub selected_row_key : Option Text
  pub location : Location

-- `value ? `?${value}` : ""`.
abbrev pub question : Text → Text
question [] = []
question (c ∷ s) = lit "?" ++ (c ∷ s)

module _ (browser : Browser) where
  abbrev pub next_params : Option Text → Params → Params
  next_params none ps = delete_param session_name ps
  next_params (some key) ps = set_param session_name key ps

  abbrev pub query_of : Option Text → Location → Text
  query_of key at = question (browser.print_query (next_params key (browser.parse_query at.search)))

  unfoldable pub build_url : Option Text → Location → Text
  unfolding lit session_name set_param delete_param
  build_url key at = at.pathname ++ (query_of key at ++ at.hash)

  unfoldable pub read_session_from_url : Location → Option Text
  unfolding get_param session_name
  read_session_from_url at = get_param session_name (browser.parse_query at.search)

  unfoldable pub mount_selection : Location → Selection
  unfolding read_session_from_url
  mount_selection at = record { selected_row_key = read_session_from_url at; location = at }

  unfoldable pub select_row : Option Text → Selection → Selection
  unfolding build_url
  select_row key s = record {
    selected_row_key = key;
    location = browser.resolve (build_url key s.location);
  }

  -- The browser goes back or forward to a location.
  unfoldable pub on_popstate : Location → Selection → Selection
  unfolding read_session_from_url
  on_popstate at s = record { selected_row_key = read_session_from_url at; location = at }
