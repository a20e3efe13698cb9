-- ===== src/SelectedSession/Laws.antt =====
-- useSelectedSession.ts: the selection and the page's address agree.
use distill_portal.Prelude.{
  Text, text_eq, text_eq_iff, text_eq_refl, false, Option, none, some, [], ◌∷◌, ◌≡◌, ◌++◌, refl, ap,
  ◌∙◌, arith,
}
use distill_portal.SelectedSession.{
  Params, get_param, delete_param, set_param, Location, Browser, session_name, next_params,
  question, build_url, read_session_from_url, Selection, mount_selection, select_row, on_popstate,
}

get_param-delete_param_self : (n : Text) (ps : Params) → get_param n (delete_param n ps) ≡ none
unfolding get_param delete_param
get_param-delete_param_self n [] = refl
get_param-delete_param_self n ((m, v) ∷ ps) =
    ground (arith, text_eq_iff m n, get_param-delete_param_self n ps)

get_param-delete_param_ne :
    (n q : Text) (ps : Params)
    → text_eq n q ≡ false
    → get_param q (delete_param n ps) ≡ get_param q ps
unfolding get_param delete_param
get_param-delete_param_ne n q [] h = refl
get_param-delete_param_ne n q ((m, v) ∷ ps) h =
    ground
      (arith, text_eq_iff m n, text_eq_iff m q, text_eq_iff n q, get_param-delete_param_ne n q ps)

pub get_param-set_param_self : (n v : Text) (ps : Params) → get_param n (set_param n v ps) ≡ some v
unfolding get_param set_param
get_param-set_param_self n v [] = ground (arith, text_eq_refl n)
get_param-set_param_self n v ((m, w) ∷ ps) =
    ground (arith, text_eq_iff m n, get_param-set_param_self n v ps)

pub get_param-set_param_ne :
    (n q v : Text) (ps : Params)
    → text_eq n q ≡ false
    → get_param q (set_param n v ps) ≡ get_param q ps
unfolding get_param set_param
get_param-set_param_ne n q v [] h = ground arith
get_param-set_param_ne n q v ((m, w) ∷ ps) h = ground (
  arith,
  text_eq_iff m n,
  text_eq_iff m q,
  text_eq_iff n q,
  get_param-set_param_ne n q v ps,
  get_param-delete_param_ne n q ps,
)

module _ (browser : Browser) where
  -- What the platform documents: an address that is put together from the path of a location, a
  -- printed query and the fragment of the location leads to that location, with that query; and a
  -- query reads back as the parameters that it was printed from.
  pub record ReadsBack (ps : Params) (at : Location) : Type 0 where
    pub address :
        browser.resolve (at.pathname ++ (question (browser.print_query ps) ++ at.hash))
        ≡ record at { search = question (browser.print_query ps) }
    pub query : browser.parse_query (question (browser.print_query ps)) ≡ ps

  next_params-session :
      (key : Option Text) (ps : Params) → get_param session_name (next_params browser key ps) ≡ key
  next_params-session none ps = get_param-delete_param_self session_name ps
  next_params-session (some key) ps = get_param-set_param_self session_name key ps

  next_params-others :
      (key : Option Text) (name : Text) (ps : Params)
      → text_eq session_name name ≡ false
      → get_param name (next_params browser key ps) ≡ get_param name ps
  next_params-others none name ps h = get_param-delete_param_ne session_name name ps h
  next_params-others (some key) name ps h = get_param-set_param_ne session_name name key ps h

  -- A selection is in the page's address: a reload of the page at the new address, or a step back
  -- to it, selects the same row, or none where none was selected; and the path, the fragment and
  -- every other parameter of the query stay.
  pub select_row_lem :
      (key : Option Text) (s before : Selection) (name : Text)
      → ReadsBack (next_params browser key (browser.parse_query s.location.search)) s.location
      → text_eq session_name name ≡ false
      → let after = select_row browser key s in
        (mount_selection browser after.location ≡ after)
        × (on_popstate browser after.location before ≡ after)
        × (after.location.pathname ≡ s.location.pathname)
        × (after.location.hash ≡ s.location.hash)
        × (get_param name (browser.parse_query after.location.search)
            ≡ get_param name (browser.parse_query s.location.search))
  unfolding select_row mount_selection on_popstate read_session_from_url build_url
  select_row_lem key s before name r other =
      let at = browser.resolve (build_url browser key s.location) in
      let ps = next_params browser key (browser.parse_query s.location.search) in
      let search : at.search ≡ question (browser.print_query ps) = ap (λ l. l.search) r.address in
      let params : browser.parse_query at.search ≡ ps = ap browser.parse_query search ∙ r.query in
      let found : read_session_from_url browser at ≡ key =
        ap (get_param session_name) params
        ∙ next_params-session key (browser.parse_query s.location.search) in
      let selected : ◌≡◌ {A = Selection}
          (record { selected_row_key = read_session_from_url browser at; location = at })
          (record { selected_row_key = key; location = at }) =
        ap (λ k. record { selected_row_key = k; location = at }) found in
      (
        selected,
        selected,
        ap (λ l. l.pathname) r.address,
        ap (λ l. l.hash) r.address,
        ap (get_param name) params
            ∙ next_params-others key name (browser.parse_query s.location.search) other,
      )
