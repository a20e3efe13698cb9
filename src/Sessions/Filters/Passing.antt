-- ===== src/Sessions/Filters/Passing.antt =====
-- filterSessions.ts: the predicate of the filters, axis by axis.
use distill_portal.Prelude.{
  has_prefix, includes, Text, text_eq_iff, Bool, true, false, ◌&&◌, Option, none, some, List, [],
  ◌∷◌, ◌++◌, if◌then◌else◌, ◌≡◌, ◌≢◌, ◌↔◌, ◌⊎◌, inl, inr, refl, ap, ◌∙◌, Bool-cases, arith,
}
use distill_portal.Contracts.{Tool, SessionSyncStatus, outdated, status_eq}
use distill_portal.Sessions.Rows.{SessionRow}
use distill_portal.Sessions.FilterState.{
  ToolFilter, all_tools, only, StorageFilter, all_storage, stored, not_stored, SessionFiltersState,
}
use distill_portal.Sessions.Filters.{
  trim, has_status, importable_statuses, non_empty, passes_tool, passes_status, passes_storage,
  passes_project, haystack, search_lower, passes_search, passes,
}
use mathlib.Core.List.{Memᴰ}

-- The needle stands somewhere in the text.
abbrev pub Contains : Text → Text → Type 0
Contains hay needle = (before : Text) × (behind : Text) × (hay ≡ before ++ (needle ++ behind))

has_prefix_iff :
    (needle s : Text) → (has_prefix needle s ≡ true) ↔ ((rest : Text) × (s ≡ needle ++ rest))
unfolding has_prefix
has_prefix_iff [] s = (λ _. (s, refl), λ _. refl)
has_prefix_iff (c ∷ needle) [] = (λ h. absurd (ground arith), λ h. absurd (ground arith))
has_prefix_iff (c ∷ needle) (d ∷ s) = (
  λ h. let (rest, e) = (has_prefix_iff needle s).0 (ground arith) in (rest, ground arith),
  λ h. let (rest, e) = h in ground (arith, (has_prefix_iff needle s).1 (rest, ground arith)),
)

includes_sound : (s needle : Text) → includes s needle ≡ true → Contains s needle
unfolding includes
includes_sound [] needle h = let (rest, e) = (has_prefix_iff needle []).0 h in ([], rest, e)
includes_sound (c ∷ s) needle h = elim (Bool-cases (has_prefix needle (c ∷ s))) [
  | inl here ↦ let (rest, e) = (has_prefix_iff needle (c ∷ s)).0 here in ([], rest, e)
  | inr later ↦
      let (before, behind, e) = includes_sound s needle (ground arith) in
      (c ∷ before, behind, ap (λ t. c ∷ t) e)
]

includes_complete :
    (before needle behind : Text) → includes (before ++ (needle ++ behind)) needle ≡ true
unfolding includes
includes_complete [] needle behind = cases (needle ++ behind) refl
  where
    cases : (s : Text) → s ≡ needle ++ behind → includes s needle ≡ true
    cases [] e = (has_prefix_iff needle []).1 (behind, e)
    cases (c ∷ s) e = let h = (has_prefix_iff needle (c ∷ s)).1 (behind, e) in ground arith
includes_complete (c ∷ before) needle behind =
    ground (arith, includes_complete before needle behind)

pub includes_iff : (s needle : Text) → (includes s needle ≡ true) ↔ Contains s needle
includes_iff s needle = (
  includes_sound s needle,
  λ h.
      let (before, behind, e) = h in
      ap (λ t. includes t needle) e ∙ includes_complete before needle behind,
)

-- The status is one of the list.
abbrev pub IsOneOf : List SessionSyncStatus → SessionSyncStatus → Type 0
IsOneOf statuses status = Memᴰ status statuses

status_eq→eq : (s t : SessionSyncStatus) → status_eq s t ≡ true → t ≡ s
status_eq→eq s t h = ground arith

status_eq_refl : (s : SessionSyncStatus) → status_eq s s ≡ true
status_eq_refl s = ground arith

has_status_sound :
    (l : List SessionSyncStatus) (status : SessionSyncStatus)
    → has_status l status ≡ true
    → IsOneOf l status
unfolding has_status
has_status_sound [] status h = absurd (ground arith)
has_status_sound (s ∷ l) status h = elim (Bool-cases (status_eq s status)) [
  | inl here ↦ Memᴰ.head (status_eq→eq s status here)
  | inr other ↦ Memᴰ.tail (has_status_sound l status (ground arith))
]

has_status_complete :
    (l : List SessionSyncStatus) (status : SessionSyncStatus)
    → IsOneOf l status
    → has_status l status ≡ true
unfolding has_status
has_status_complete [] status m = elim m [ ]
has_status_complete (s ∷ l) status (Memᴰ.head e) = rw e (ground (arith, status_eq_refl s))
has_status_complete (s ∷ l) status (Memᴰ.tail m) = ground (arith, has_status_complete l status m)

and_five :
    {a b c d e : Bool}
    → (a && b && c && d && e) ≡ true
    → (a ≡ true) × (b ≡ true) × (c ≡ true) × (d ≡ true) × (e ≡ true)
and_five h = ground arith

five_and :
    {a b c d e : Bool}
    → a ≡ true
    → b ≡ true
    → c ≡ true
    → d ≡ true
    → e ≡ true
    → (a && b && c && d && e) ≡ true
five_and p q r s t = ground arith

abbrev StatusAsked : Bool → List SessionSyncStatus → SessionSyncStatus → Type 0
StatusAsked importable_only statuses s =
    (importable_only ≡ true → (s ≡ SessionSyncStatus.not_stored) ⊎ (s ≡ outdated))
    × (importable_only ≡ false → statuses ≢ [] → IsOneOf statuses s)

importable_sound :
    (s : SessionSyncStatus)
    → has_status importable_statuses s ≡ true
    → (s ≡ SessionSyncStatus.not_stored) ⊎ (s ≡ outdated)
unfolding has_status
importable_sound s h = ground arith

importable_complete :
    (s : SessionSyncStatus)
    → (s ≡ SessionSyncStatus.not_stored) ⊎ (s ≡ outdated)
    → has_status importable_statuses s ≡ true
unfolding has_status
importable_complete s h = ground arith

status_iff :
    (importable_only : Bool) (statuses : List SessionSyncStatus) (s : SessionSyncStatus)
    → (passes_status (if importable_only then some importable_statuses else non_empty statuses) s
        ≡ true)
      ↔ StatusAsked importable_only statuses s
status_iff true statuses s = (
  λ h. (λ _. importable_sound s h, λ e. absurd (ground arith)),
  λ h. importable_complete s (h.0 refl),
)
status_iff false [] s = (λ h. (λ e. absurd (ground arith), λ _ ne. absurd (ne refl)), λ h. refl)
status_iff false (t ∷ l) s = (
  λ h. (λ e. absurd (ground arith), λ _ _. has_status_sound (t ∷ l) s h),
  λ h. has_status_complete (t ∷ l) s (h.1 refl (λ e. absurd (ground arith))),
)

storage_iff :
    (f : StorageFilter) (uid : Option Text)
    → (passes_storage f uid ≡ true) ↔ ((f ≡ stored → uid ≢ none) × (f ≡ not_stored → uid ≡ none))
storage_iff f uid =
    (λ h. (λ e k. ground arith, λ e. ground arith), λ h. storage_complete f uid h.0 h.1)
  where
    storage_complete :
        (f : StorageFilter) (uid : Option Text)
        → (f ≡ stored → uid ≢ none)
        → (f ≡ not_stored → uid ≡ none)
        → passes_storage f uid ≡ true
    storage_complete stored none h k = absurd (h refl refl)
    storage_complete stored (some u) h k = refl
    storage_complete not_stored none h k = refl
    storage_complete not_stored (some u) h k = absurd (ground (arith, k refl))
    storage_complete all_storage u h k = refl

tool_iff :
    (f : ToolFilter) (tool : Tool)
    → (passes_tool f tool ≡ true) ↔ ((t : Tool) → f ≡ only t → tool ≡ t)
tool_iff all_tools tool = (λ h t e. absurd (ground arith), λ h. refl)
tool_iff (only t) tool = (λ h u e. ground arith, λ h. ground (arith, h t refl))

project_iff :
    (f : Option Text) (path : Option Text)
    → (passes_project f path ≡ true) ↔ ((p : Text) → f ≡ some p → path ≡ some p)
project_iff none path = (λ h p e. absurd (ground arith), λ h. refl)
project_iff (some q) none = (λ h p e. absurd (ground arith), λ h. absurd (ground (arith, h q refl)))
project_iff (some q) (some r) =
    (λ h p e. ground (arith, text_eq_iff r q), λ h. ground (arith, text_eq_iff r q, h q refl))

module _ (lower : Text → Text) (filters : SessionFiltersState) where
  -- What each axis asks of a row when it is active.
  pub record IsPassing (row : SessionRow) : Type 0 where
    pub tool : (t : Tool) → filters.tool ≡ only t → row.tool ≡ t
    pub importable :
        filters.importable_only ≡ true
        → (row.status ≡ SessionSyncStatus.not_stored) ⊎ (row.status ≡ outdated)
    pub status :
        filters.importable_only ≡ false → filters.status ≢ [] → IsOneOf filters.status row.status
    pub stored_copy : filters.storage ≡ stored → row.stored_session_uid ≢ none
    pub no_copy : filters.storage ≡ not_stored → row.stored_session_uid ≡ none
    pub project : (p : Text) → filters.project ≡ some p → row.project_path ≡ some p
    pub search :
        trim filters.search ≢ [] → Contains (lower (haystack row)) (lower (trim filters.search))

  search_iff :
      (row : SessionRow)
      → (passes_search lower (search_lower lower (trim filters.search)) (haystack row) ≡ true)
        ↔ (trim filters.search ≢ [] → Contains (lower (haystack row)) (lower (trim filters.search)))
  search_iff row = cases (trim filters.search)
    where
      cases :
          (t : Text)
          → (passes_search lower (search_lower lower t) (haystack row) ≡ true)
            ↔ (t ≢ [] → Contains (lower (haystack row)) (lower t))
      cases [] = (λ h ne. absurd (ne refl), λ h. refl)
      cases (c ∷ t) =
          let i = includes_iff (lower (haystack row)) (lower (c ∷ t)) in
          (λ h ne. i.0 h, λ h. i.1 (h (λ e. absurd (ground arith))))

  -- A row is kept by the filters exactly if it meets every active one: the tool, the effective
  -- statuses (the importable ones where that filter is on, whatever statuses are listed), a stored
  -- copy or none, the project, and the trimmed search text somewhere in the row's four texts.
  pub passes_iff : (row : SessionRow) → (passes lower filters row ≡ true) ↔ IsPassing row
  unfolding passes
  passes_iff row =
      let t = tool_iff filters.tool row.tool in
      let s = status_iff filters.importable_only filters.status row.status in
      let c = storage_iff filters.storage row.stored_session_uid in
      let p = project_iff filters.project row.project_path in
      let q = search_iff row in
      (
        λ h.
            let (a, b, d, e, f) = and_five h in
            record {
              tool = t.0 a;
              importable = (s.0 b).0;
              status = (s.0 b).1;
              stored_copy = (c.0 d).0;
              no_copy = (c.0 d).1;
              project = p.0 e;
              search = q.0 f;
            },
        λ h.
            five_and (t.1 h.tool) (s.1 (h.importable, h.status)) (c.1 (h.stored_copy, h.no_copy))
              (p.1 h.project) (q.1 h.search),
      )
