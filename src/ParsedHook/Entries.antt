-- ===== src/ParsedHook/Entries.antt =====
-- useParsedSession.ts: what the operations of the cache do to its entries.
use distill_portal.Prelude.{
  ◌+◌, ◌≤◌, Text, text_eq, text_eq_iff, Bool, false, ◌||◌, some, List, [], ◌∷◌, length, ltb, All,
  ◌≡◌, refl, sym, ap, ◌∙◌, inl, inr, arith, Bool-cases, dict_get, dict_set, dict_delete,
}
use mathlib.Core.Path.{subst}
use mathlib.Core.Option.{some-injective}
use distill_portal.ParsedHook.{touch, evict, use_parsed_session_cache_max}

abbrev pub has_key {ℓ} : {V : Type ℓ} → Text → List (Text × V) → Bool
has_key k [] = false
has_key k (e ∷ m) = text_eq e.0 k || has_key k m

-- No key stands twice.
abbrev pub Distinct {ℓ} : {V : Type ℓ} → List (Text × V) → Type 0
Distinct [] = Unit
Distinct (e ∷ m) = (has_key e.0 m ≡ false) × Distinct m

module _ {ℓ} {V : Type ℓ} where
  pub has_key-dict_set :
      (k q : Text) (v : V) (m : List (Text × V))
      → has_key q (dict_set k v m) ≡ (text_eq k q || has_key q m)
  unfolding dict_set
  has_key-dict_set k q v [] = refl
  has_key-dict_set k q v ((j, w) ∷ m) =
      ground (arith, text_eq_iff j k, text_eq_iff j q, text_eq_iff k q, has_key-dict_set k q v m)

  has_key-dict_delete :
      (k q : Text) (m : List (Text × V)) → has_key q m ≡ false → has_key q (dict_delete k m) ≡ false
  unfolding dict_delete
  has_key-dict_delete k q [] h = refl
  has_key-dict_delete k q ((j, w) ∷ m) h = ground (arith, has_key-dict_delete k q m)

  pub Distinct-dict_set :
      (k : Text) (v : V) (m : List (Text × V)) → Distinct m → Distinct (dict_set k v m)
  unfolding dict_set
  Distinct-dict_set k v [] d = (refl, tt)
  Distinct-dict_set k v ((j, w) ∷ m) (d, ds) = ground (
    arith,
    text_eq_iff j k,
    text_eq_iff k j,
    has_key-dict_set k j v m,
    Distinct-dict_set k v m ds,
  )

  pub Distinct-dict_delete :
      (k : Text) (m : List (Text × V)) → Distinct m → Distinct (dict_delete k m)
  unfolding dict_delete
  Distinct-dict_delete k [] d = tt
  Distinct-dict_delete k ((j, w) ∷ m) (d, ds) =
      ground (arith, has_key-dict_delete k j m, Distinct-dict_delete k m ds)

  pub Distinct-evict : (m : List (Text × V)) → Distinct m → Distinct (evict m)
  unfolding evict
  Distinct-evict [] d = tt
  Distinct-evict (e ∷ m) (d, ds) =
      elim (Bool-cases (ltb use_parsed_session_cache_max (length (e ∷ m)))) [
        | inl e' ↦ rw e' (Distinct-evict m ds)
        | inr e' ↦ rw e' (d, ds)
      ]

  pub length-dict_set :
      (k : Text) (v : V) (m : List (Text × V)) → length (dict_set k v m) ≤ length m + 1
  unfolding dict_set
  length-dict_set k v [] = omega arith
  length-dict_set k v ((j, w) ∷ m) = ground (arith, length-dict_set k v m)

  length-dict_delete :
      (k : Text) (v : V) (m : List (Text × V))
      → dict_get k m ≡ some v
      → length (dict_delete k m) + 1 ≡ length m
  unfolding dict_get dict_delete
  length-dict_delete k v [] h = cc
  length-dict_delete k v ((j, w) ∷ m) h = ground (arith, length-dict_delete k v m)

  pub length-evict : (m : List (Text × V)) → length (evict m) ≤ use_parsed_session_cache_max
  unfolding evict
  length-evict [] = omega arith
  length-evict (e ∷ m) = elim (Bool-cases (ltb use_parsed_session_cache_max (length (e ∷ m)))) [
    | inl e' ↦ rw e' (length-evict m)
    | inr e' ↦ rw e' (ground arith)
  ]

  pub length-touch :
      (k : Text) (v : V) (m : List (Text × V))
      → dict_get k m ≡ some v
      → length (touch k v m) ≤ length m
  unfolding touch
  length-touch k v m h =
      omega (arith, length-dict_delete k v m h, length-dict_set k v (dict_delete k m))

  module _ {κ} (P : Text × V → Type κ) where
    pub All-dict_set :
        (k : Text) (v : V) (m : List (Text × V)) → P (k, v) → All P m → All P (dict_set k v m)
    unfolding dict_set
    All-dict_set k v [] p ps = (p, tt)
    All-dict_set k v ((j, w) ∷ m) p (q, qs) = elim (Bool-cases (text_eq j k)) [
      | inl e ↦ rw e (subst (λ i. P (i, v)) (sym ((text_eq_iff j k).0 e)) p, qs)
      | inr e ↦ rw e (q, All-dict_set k v m p qs)
    ]

    pub All-dict_delete : (k : Text) (m : List (Text × V)) → All P m → All P (dict_delete k m)
    unfolding dict_delete
    All-dict_delete k [] ps = tt
    All-dict_delete k ((j, w) ∷ m) (p, ps) = elim (Bool-cases (text_eq j k)) [
      | inl e ↦ rw e ps
      | inr e ↦ rw e (p, All-dict_delete k m ps)
    ]

    pub All-evict : (m : List (Text × V)) → All P m → All P (evict m)
    unfolding evict
    All-evict [] ps = tt
    All-evict (e ∷ m) (p, ps) =
        elim (Bool-cases (ltb use_parsed_session_cache_max (length (e ∷ m)))) [
          | inl e' ↦ rw e' (All-evict m ps)
          | inr e' ↦ rw e' (p, ps)
        ]

    pub All-dict_get :
        (k : Text) (v : V) (m : List (Text × V)) → All P m → dict_get k m ≡ some v → P (k, v)
    unfolding dict_get
    All-dict_get k v [] ps h = cc
    All-dict_get k v ((j, w) ∷ m) (p, ps) h = elim (Bool-cases (text_eq j k)) [
      | inl e ↦
          subst P
            (ap (λ i. (i, w)) ((text_eq_iff j k).0 e)
              ∙ ap (λ u. (k, u)) (some-injective _ _ (rw e at h)))
            p
      | inr e ↦ All-dict_get k v m ps (rw e at h)
    ]
