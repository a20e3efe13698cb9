-- ===== src/Sessions/Merge/Join.antt =====
-- mergeSessions.ts: the key strings, and the two loops against a closed form.
use distill_portal.Prelude.{
  Text, text_eq, text_eq_iff, text_eq_refl, All, All-mono, dict_get, dict_set, dict_get-dict_set,
  Bool, true, false, not, ◌&&◌, ◌||◌, Option, none, some, List, [], ◌∷◌, ◌++◌, map, filter, ◌≡◌,
  refl, sym, ap, ◌∙◌, Bool-cases, Option-cases, inl, inr, arith, if◌then◌else◌,
}
use distill_portal.Contracts.{
  Tool, claude_code, codex, tool_eq, SourceSessionView, StoredSessionView,
}
use distill_portal.Sessions.Rows.{SessionRow}
use distill_portal.Sessions.Merge.{
  identity_key, source_key, stored_key, index_stored, both_row, source_only_row, stored_only_row,
  merge_sources, has_key, merge_stored, merge_sessions,
}
use mathlib.Core.List.{append-nil, append_assoc}

-- Same tool and same session id.
abbrev pub same_identity : Tool → Text → Tool → Text → Bool
same_identity tool id tool' id' = tool_eq tool tool' && text_eq id id'

-- Two key strings are equal exactly when tool and id are: no id can imitate another tool's key.
pub identity_key_eq :
    (tool tool' : Tool) (id id' : Text)
    → text_eq (identity_key tool id) (identity_key tool' id') ≡ same_identity tool id tool' id'
unfolding identity_key text_eq
identity_key_eq claude_code claude_code id id' = refl
identity_key_eq claude_code codex id id' = refl
identity_key_eq codex claude_code id id' = refl
identity_key_eq codex codex id id' = refl

-- The last stored row of an identity, if any.
abbrev pub last_stored : Tool → Text → List StoredSessionView → Option StoredSessionView
last_stored tool id [] = none
last_stored tool id (st ∷ stored) = elim (last_stored tool id stored) [
  | some later ↦ some later
  | none ↦ if same_identity st.tool st.source_session_id tool id then some st else none
]

tool_eq→eq : (s t : Tool) → tool_eq s t ≡ true → s ≡ t
tool_eq→eq s t h = ground arith

pub same_identity_refl : (tool : Tool) (id : Text) → same_identity tool id tool id ≡ true
same_identity_refl claude_code id = text_eq_refl id
same_identity_refl codex id = text_eq_refl id

last_stored-same :
    (t t' : Tool) (i i' : Text) (stored : List StoredSessionView)
    → same_identity t i t' i' ≡ true
    → last_stored t i stored ≡ last_stored t' i' stored
last_stored-same t t' i i' stored h =
    let same : (t ≡ t') × (i ≡ i') = ground (arith, tool_eq→eq t t', text_eq_iff i i') in
    rw (same.0) (rw (same.1))

abbrev or_else {ℓ} : {A : Type ℓ} → Option A → Option A → Option A
or_else (some a) o = some a
or_else none o = o

or_else-none {ℓ} : {A : Type ℓ} (o : Option A) → or_else o none ≡ o
or_else-none none = refl
or_else-none (some a) = refl

index_stored-get :
    (tool : Tool) (id : Text) (m : List (Text × StoredSessionView))
    (stored : List StoredSessionView)
    → dict_get (identity_key tool id) (index_stored m stored)
      ≡ or_else (last_stored tool id stored) (dict_get (identity_key tool id) m)
unfolding index_stored
index_stored-get tool id m [] = refl
index_stored-get tool id m (st ∷ stored) = ground (
  arith,
  index_stored-get tool id (dict_set (stored_key st) st m) stored,
  dict_get-dict_set (stored_key st) (identity_key tool id) st m,
  identity_key_eq st.tool tool st.source_session_id id,
)

-- The row of a source, given the stored list.
abbrev pub source_row : List StoredSessionView → SourceSessionView → SessionRow
source_row stored src = elim (last_stored src.tool src.source_session_id stored) [
  | some matched ↦ both_row src matched
  | none ↦ source_only_row src
]

-- Some source has the identity of a stored row.
abbrev pub has_source : List SourceSessionView → StoredSessionView → Bool
has_source [] st = false
has_source (src ∷ sources) st =
    same_identity src.tool src.source_session_id st.tool st.source_session_id
    || has_source sources st

module _ (stored : List StoredSessionView) where
  abbrev by_key : List (Text × StoredSessionView)
  by_key = index_stored [] stored

  get-by_key :
      (tool : Tool) (id : Text)
      → dict_get (identity_key tool id) by_key ≡ last_stored tool id stored
  unfolding dict_get
  get-by_key tool id =
      index_stored-get tool id [] stored ∙ or_else-none (last_stored tool id stored)

  merge_sources-rows :
      (sources : List SourceSessionView) (rows : List SessionRow) (consumed : List Text)
      → (merge_sources by_key sources rows consumed).0 ≡ rows ++ map (source_row stored) sources
  unfolding merge_sources
  merge_sources-rows [] rows consumed = sym (append-nil rows)
  merge_sources-rows (src ∷ sources) rows consumed =
      elim (Option-cases (last_stored src.tool src.source_session_id stored)) [
        | inl e ↦
            let got = get-by_key src.tool src.source_session_id ∙ e in
            rw (got, merge_sources)
              (rw (e, source_row)
                (merge_sources-rows sources (rows ++ source_only_row src ∷ []) consumed
                  ∙ append_assoc rows (source_only_row src ∷ []) _))
        | inr (st, e) ↦
            let got = get-by_key src.tool src.source_session_id ∙ e in
            rw (got, merge_sources)
              (rw (e, source_row)
                (merge_sources-rows sources (rows ++ both_row src st ∷ [])
                    (source_key src ∷ consumed)
                  ∙ append_assoc rows (both_row src st ∷ []) _))
      ]

  -- Which keys pass 1 consumes, asked for an identity that the stored list has.
  merge_sources-consumed :
      (sources : List SourceSessionView) (rows : List SessionRow) (consumed : List Text)
      (st found : StoredSessionView)
      → last_stored st.tool st.source_session_id stored ≡ some found
      → has_key (stored_key st) (merge_sources by_key sources rows consumed).1
        ≡ (has_key (stored_key st) consumed || has_source sources st)
  unfolding merge_sources has_key
  merge_sources-consumed [] rows consumed st found e = ground arith
  merge_sources-consumed (src ∷ sources) rows consumed st found e =
      elim (Option-cases (last_stored src.tool src.source_session_id stored)) [
        | inl k ↦
            let got = get-by_key src.tool src.source_session_id ∙ k in
            rw (got, merge_sources)
              (ground (
                arith,
                merge_sources-consumed sources (rows ++ source_only_row src ∷ []) consumed st found
                    e,
                last_stored-same src.tool st.tool src.source_session_id st.source_session_id stored,
              ))
        | inr (m, k) ↦
            let got = get-by_key src.tool src.source_session_id ∙ k in
            rw (got, merge_sources)
              (ground (
                arith,
                merge_sources-consumed sources (rows ++ both_row src m ∷ [])
                    (source_key src ∷ consumed) st found e,
                identity_key_eq src.tool st.tool src.source_session_id st.source_session_id,
              ))
      ]

  merge_stored-eq :
      (consumed : List Text) (sts : List StoredSessionView) (rows : List SessionRow)
      → merge_stored consumed sts rows
        ≡ rows ++ map stored_only_row (filter (λ st. not (has_key (stored_key st) consumed)) sts)
  unfolding merge_stored
  merge_stored-eq consumed [] rows = sym (append-nil rows)
  merge_stored-eq consumed (st ∷ sts) rows = elim (Bool-cases (has_key (stored_key st) consumed)) [
    | inl old ↦ rw (old, merge_stored, filter) (merge_stored-eq consumed sts rows)
    | inr new ↦
        rw (new, merge_stored, filter)
          (merge_stored-eq consumed sts (rows ++ stored_only_row st ∷ [])
            ∙ append_assoc rows (stored_only_row st ∷ []) _)
  ]

abbrev IsFound : List StoredSessionView → StoredSessionView → Type 0
IsFound stored st =
    (found : StoredSessionView) × (last_stored st.tool st.source_session_id stored ≡ some found)

IsFound-cons :
    (first : StoredSessionView) (stored : List StoredSessionView) (st : StoredSessionView)
    → IsFound stored st
    → IsFound (first ∷ stored) st
IsFound-cons first stored st (found, e) = (found, rw e)

IsFound-first :
    (st : StoredSessionView) (stored : List StoredSessionView) → IsFound (st ∷ stored) st
IsFound-first st stored = elim (Option-cases (last_stored st.tool st.source_session_id stored)) [
  | inl e ↦ (st, ground (arith, same_identity_refl st.tool st.source_session_id))
  | inr (later, e) ↦ (later, rw e)
]

All-IsFound : (stored : List StoredSessionView) → All (IsFound stored) stored
All-IsFound [] = tt
All-IsFound (st ∷ stored) = (
  IsFound-first st stored,
  All-mono (IsFound stored) (IsFound (st ∷ stored)) stored (IsFound-cons st stored)
      (All-IsFound stored),
)

filter_congr {ℓ κ} :
    {A : Type ℓ} (P : A → Type κ) (p q : A → Bool) (xs : List A)
    → ((x : A) → P x → p x ≡ q x)
    → All P xs
    → filter p xs ≡ filter q xs
filter_congr P p q [] f h = refl
filter_congr P p q (x ∷ xs) f (h, hs) = ground (arith, f x h, filter_congr P p q xs f hs)

-- The merged list is one row for each source, in order, joined to the last stored row of the same
-- tool and session id if there is one, followed by one stored-only row for each stored row whose
-- tool and session id no source has, in order.
pub merge_sessions_lem :
    (sources : List SourceSessionView) (stored : List StoredSessionView)
    → merge_sessions sources stored
      ≡ map (source_row stored) sources
        ++ map stored_only_row (filter (λ st. not (has_source sources st)) stored)
unfolding merge_sessions
merge_sessions_lem sources stored =
    let consumed = (merge_sources (index_stored [] stored) sources [] []).1 in
    let same =
      filter_congr (IsFound stored) (λ st. not (has_key (stored_key st) consumed))
        (λ st. not (has_source sources st)) stored
        (λ st found. ap not (merge_sources-consumed stored sources [] [] st found.0 found.1))
        (All-IsFound stored) in
    merge_stored-eq stored consumed stored _
    ∙ rw same (
        ap (λ rows. rows ++ map stored_only_row (filter (λ st. not (has_source sources st)) stored))
          (merge_sources-rows stored sources [] []))
