-- ===== src/ParsedHook/Recency.antt =====
-- useParsedSession.ts: which sessions the cache keeps.
use distill_portal.Prelude.{
  ℕ, ◌+◌, ◌≤◌, ◌<◌, Text, text_eq, text_eq_iff, text_eq_refl, true, false, List, [], ◌∷◌, length,
  ltb, ◌≡◌, refl, inl, inr, arith, Bool-cases, dict_set, dict_delete, if◌then◌else◌,
}
use distill_portal.ParsedHook.{touch, evict, use_parsed_session_cache_max}
use distill_portal.ParsedHook.Entries.{has_key, Distinct, length-dict_set}

-- The results that are stored, one after the other.
abbrev pub store_all {ℓ} : {V : Type ℓ} → List (Text × V) → List (Text × V) → List (Text × V)
store_all [] cache = cache
store_all (e ∷ es) cache = store_all es (evict (dict_set e.0 e.1 cache))

-- The number of entries that were used later than the one of a key.
abbrev behind {ℓ} : {V : Type ℓ} → Text → List (Text × V) → ℕ
behind k [] = 0
behind k (e ∷ m) = if text_eq e.0 k then length m else behind k m

module _ {ℓ} {V : Type ℓ} where
  behind-dict_set :
      (k q : Text) (v : V) (m : List (Text × V))
      → has_key k m ≡ true
      → (has_key k (dict_set q v m) ≡ true) × (behind k (dict_set q v m) ≤ behind k m + 1)
  unfolding dict_set
  behind-dict_set k q v [] h = cc
  behind-dict_set k q v ((j, w) ∷ m) h =
      ground
        (arith, text_eq_iff j k, text_eq_iff j q, behind-dict_set k q v m, length-dict_set q v m)

  behind-evict :
      (k : Text) (m : List (Text × V))
      → has_key k m ≡ true
      → behind k m < use_parsed_session_cache_max
      → (has_key k (evict m) ≡ true) × (behind k (evict m) ≤ behind k m)
  unfolding evict
  behind-evict k [] h b = cc
  behind-evict k (e ∷ m) h b =
      elim (Bool-cases (ltb use_parsed_session_cache_max (length (e ∷ m)))) [
        | inr e' ↦ rw e' (h, omega arith)
        | inl e' ↦ elim (Bool-cases (text_eq e.0 k)) [
          | inl here ↦ absurd (ground arith)
          | inr there ↦
              let (kept, after) = behind-evict k m (ground arith) (ground arith) in
              rw e' (kept, ground arith)
        ]
      ]

  behind-store_all :
      (k : Text) (es m : List (Text × V))
      → has_key k m ≡ true
      → behind k m + length es < use_parsed_session_cache_max
      → has_key k (store_all es m) ≡ true
  behind-store_all k [] m h b = h
  behind-store_all k (e ∷ es) m h b =
      let (set, later) = behind-dict_set k e.0 e.1 m h in
      let (kept, after) = behind-evict k (dict_set e.0 e.1 m) set (omega arith) in
      behind-store_all k es (evict (dict_set e.0 e.1 m)) kept (omega arith)

  has_key-deleted :
      (k : Text) (m : List (Text × V)) → Distinct m → has_key k (dict_delete k m) ≡ false
  unfolding dict_delete
  has_key-deleted k [] d = refl
  has_key-deleted k ((j, w) ∷ m) (d, ds) = elim (Bool-cases (text_eq j k)) [
    | inl e ↦ rw e (ground (arith, text_eq_iff j k))
    | inr e ↦ rw (e, has_key-deleted k m ds) (ground arith)
  ]

  behind-appended :
      (k : Text) (v : V) (m : List (Text × V))
      → has_key k m ≡ false
      → (has_key k (dict_set k v m) ≡ true) × (behind k (dict_set k v m) ≡ 0)
  unfolding dict_set
  behind-appended k v [] h = ground (arith, text_eq_refl k)
  behind-appended k v ((j, w) ∷ m) h = ground (arith, behind-appended k v m)

  -- A session that has just been read from the cache stays while fewer than five results come in,
  -- whatever sessions they are of: what is evicted is never among the most recent.
  pub has_key-store_all-touch :
      (k : Text) (v : V) (es m : List (Text × V))
      → Distinct m
      → length es < use_parsed_session_cache_max
      → has_key k (store_all es (touch k v m)) ≡ true
  unfolding touch
  has_key-store_all-touch k v es m d h =
      let (set, last) = behind-appended k v (dict_delete k m) (has_key-deleted k m d) in
      behind-store_all k es (dict_set k v (dict_delete k m)) set (omega arith)
