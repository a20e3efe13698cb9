-- ===== src/Api/Paths/Query.antt =====
-- The parameters of a list of operations in api.ts, read back.
use distill_portal.Prelude.{
  ℕ, Text, lit, text_eq, join, decimal, ◌==◌, false, Option, none, some, List, [], ◌∷◌, ◌++◌, All,
  if◌then◌else◌, cons_first, ◌≡◌, ◌≢◌, refl, ap, ◌∙◌, arith,
}
use distill_portal.Poll.{
  OperationStatus, queued, running, cancel_requested, succeeded, failed, cancelled, interrupted,
}
use distill_portal.SelectedSession.{Params, get_param}
use distill_portal.SelectedSession.Laws.{get_param-set_param_self, get_param-set_param_ne}
use distill_portal.Api.Paths.{
  OperationKind, import_sessions, rescan_sources, OperationsListRequest, status_text, kind_text,
  set_list, texts_of, set_limit, operations_params,
}

-- What stands between the commas of a value.
pub split_commas : Text → List Text
split_commas [] = [] ∷ []
split_commas (c ∷ s) =
    let parts = split_commas s in if c == 44 then [] ∷ parts else cons_first c parts

-- The values of a parameter; none where it is absent.
pub values_of : Option Text → List Text
unfolding split_commas
values_of none = []
values_of (some v) = split_commas v

abbrev NoComma : Text → Type 0
NoComma v = All (λ c. c ≢ 44) v

split_commas-last : (v : Text) → NoComma v → split_commas v ≡ v ∷ []
unfolding split_commas
split_commas-last [] h = refl
split_commas-last (c ∷ v) (h, hs) = ground (arith, split_commas-last v hs)

split_commas-append : (v s : Text) → NoComma v → split_commas (v ++ 44 ∷ s) ≡ v ∷ split_commas s
unfolding split_commas
split_commas-append [] s h = refl
split_commas-append (c ∷ v) s (h, hs) = ground (arith, split_commas-append v s hs)

split_commas-join :
    (v : Text) (vs : List Text)
    → NoComma v
    → All NoComma vs
    → split_commas (join (44 ∷ []) (v ∷ vs)) ≡ v ∷ vs
unfolding join
split_commas-join v [] h hs = split_commas-last v h
split_commas-join v (w ∷ vs) h (hw, hs) =
    split_commas-append v (join (44 ∷ []) (w ∷ vs)) h
    ∙ ap (λ ws. v ∷ ws) (split_commas-join w vs hw hs)

values_of-set_list :
    (name : Text) (vs : List Text) (ps : Params)
    → get_param name ps ≡ none
    → All NoComma vs
    → values_of (get_param name (set_list name vs ps)) ≡ vs
unfolding values_of set_list
values_of-set_list name [] ps e h = rw e refl
values_of-set_list name (v ∷ vs) ps e (h, hs) =
    rw (get_param-set_param_self name (join (44 ∷ []) (v ∷ vs)) ps) (split_commas-join v vs h hs)

get_param-set_list :
    (name other : Text) (vs : List Text) (ps : Params)
    → text_eq name other ≡ false
    → get_param other (set_list name vs ps) ≡ get_param other ps
unfolding set_list
get_param-set_list name other [] ps h = refl
get_param-set_list name other (v ∷ vs) ps h =
    get_param-set_param_ne name other (join (44 ∷ []) (v ∷ vs)) ps h

get_param-set_limit :
    (other : Text) (limit : Option ℕ) (ps : Params)
    → text_eq (lit "limit") other ≡ false
    → get_param other (set_limit limit ps) ≡ get_param other ps
unfolding set_limit
get_param-set_limit other none ps h = refl
get_param-set_limit other (some n) ps h =
    get_param-set_param_ne (lit "limit") other (decimal n) ps h

get_limit :
    (limit : Option ℕ) (ps : Params)
    → get_param (lit "limit") ps ≡ none
    → get_param (lit "limit") (set_limit limit ps)
      ≡ elim limit [ none ↦ none | some n ↦ some (decimal n) ]
unfolding set_limit
get_limit none ps h = h
get_limit (some n) ps h = get_param-set_param_self (lit "limit") (decimal n) ps

NoComma-status_text : (s : OperationStatus) → NoComma (status_text s)
unfolding status_text lit
NoComma-status_text queued = ground arith
NoComma-status_text running = ground arith
NoComma-status_text cancel_requested = ground arith
NoComma-status_text succeeded = ground arith
NoComma-status_text failed = ground arith
NoComma-status_text cancelled = ground arith
NoComma-status_text interrupted = ground arith

NoComma-kind_text : (k : OperationKind) → NoComma (kind_text k)
unfolding kind_text lit
NoComma-kind_text import_sessions = ground arith
NoComma-kind_text rescan_sources = ground arith

All-texts_of :
    {A : Type 0} (text : A → Text) (all : (a : A) → NoComma (text a)) (o : Option (List A))
    → All NoComma (texts_of text o)
All-texts_of text all none = tt
All-texts_of text all (some []) = tt
All-texts_of text all (some (a ∷ xs)) = (all a, All-texts_of text all (some xs))

-- The parameters of a list of operations say what is asked for: splitting the status and the kind
-- at their commas gives the statuses and the kinds of the request, none where its list is empty or
-- missing, and the limit is the request's, in decimal.
pub operations_params_lem :
    (query : OperationsListRequest)
    → let ps = operations_params query in
      (values_of (get_param (lit "status") ps) ≡ texts_of status_text query.status)
      × (values_of (get_param (lit "kind") ps) ≡ texts_of kind_text query.kind)
      × (get_param (lit "limit") ps ≡ elim query.limit [ none ↦ none | some n ↦ some (decimal n) ])
unfolding operations_params text_eq lit get_param
operations_params_lem query =
    let status = texts_of status_text query.status in
    let kind = texts_of kind_text query.kind in
    let with_status = set_list (lit "status") status [] in
    let with_kind = set_list (lit "kind") kind with_status in
    (
      ap values_of (
            get_param-set_limit (lit "status") query.limit with_kind refl
            ∙ get_param-set_list (lit "kind") (lit "status") kind with_status refl)
          ∙ values_of-set_list (lit "status") status [] refl
              (All-texts_of status_text NoComma-status_text query.status),
      ap values_of (get_param-set_limit (lit "kind") query.limit with_kind refl)
          ∙ values_of-set_list (lit "kind") kind with_status
              (get_param-set_list (lit "status") (lit "kind") status [] refl)
              (All-texts_of kind_text NoComma-kind_text query.kind),
      get_limit query.limit with_kind (
          get_param-set_list (lit "kind") (lit "limit") kind with_status refl
          ∙ get_param-set_list (lit "status") (lit "limit") status [] refl),
    )
