-- ===== src/ParsedHook.antt =====
-- apps/frontend/src/features/sessions/useParsedSession.ts: the cache that all consumers share, and what the
-- hook does to it. A promise and its abort controller are one number, counted up; what a promise closes
-- over stands in the list of fetches.
pub mod Keys
pub mod Entries
pub mod Steps
pub mod Maps
pub mod Settling
pub mod Consumers
pub mod Effects
pub mod Sound
pub mod Callbacks
pub mod Events
pub mod Arrivals
pub mod Fresh
pub mod Showing
pub mod Rescan
pub mod Recency
use distill_portal.Prelude.{
  ℕ, zero, suc, ◌+◌, Text, lit, text_eq, Bool, true, false, not, ◌&&◌, ◌||◌, Option, none, some,
  List, [], ◌∷◌, ◌++◌, map, length, ltb, ◌==◌, dict_get, dict_set, dict_delete, if◌then◌else◌,
  update,
}
use distill_portal.Contracts.{Tool, tool_text, tool_eq}
use distill_portal.Sessions.Rows.{SessionRow}
use distill_portal.Json.{Runtime}
use distill_portal.Parsers.Dispatch.{ParsedSession, registered, dispatch_parser}
use distill_portal.Stream.{StreamResult}

pub data HookState (E : Type 0) : Type 0 where
  idle no_raw loading : HookState E
  success truncated : ParsedSession → HookState E
  error : E → HookState E

-- How the promise of a fetch settles.
pub data Outcome (X : Type 0) : Type 0 where
  resolved : ParsedSession → Outcome X
  rejected : X → Outcome X

-- A fetch: its session, the consumer that started it, and the epoch at its start. It is handled once the
-- callbacks of that consumer have run.
pub record Fetch (X : Type 0) : Type 0 where
  pub stored_session_uid : Text
  pub tool : Tool
  pub owner : ℕ
  pub epoch_at_start : ℕ
  pub outcome : Option (Outcome X)
  pub handled : Bool

pub record Shared (X : Type 0) : Type 0 where
  pub cache : List (Text × ParsedSession)
  pub in_flight : List (Text × ℕ)
  pub in_flight_controllers : List (Text × ℕ)
  pub cache_epoch : ℕ
  pub aborted : ℕ → Bool
  pub fetches : ℕ → Option (Fetch X)
  pub next_fetch : ℕ

-- The promise that an effect waits for. The consumer that started the fetch is its originator; any other
-- has coalesced onto it.
pub record Run : Type 0 where
  pub promise : ℕ
  pub is_originator : Bool
  pub epoch : ℕ

-- A mounted consumer; `run` is none once the effect's cleanup, or nothing, is left to do.
pub record Hook (E : Type 0) : Type 0 where
  pub row : Option SessionRow
  pub state : HookState E
  pub retry_nonce : ℕ
  pub run : Option Run
  pub effect_due : Bool

abbrev pub use_parsed_session_cache_max : ℕ
use_parsed_session_cache_max = 5

unfoldable pub make_key : Text → Tool → Text
unfolding lit tool_text
make_key stored_session_uid tool = stored_session_uid ++ (lit "::" ++ tool_text tool)

-- `cache.delete(key); cache.set(key, hit)`.
unfoldable pub touch {ℓ} : {V : Type ℓ} → Text → V → List (Text × V) → List (Text × V)
unfolding dict_set dict_delete
touch key hit cache = dict_set key hit (dict_delete key cache)

-- The loop that deletes the oldest entry while there are too many.
unfoldable pub evict {ℓ} : {V : Type ℓ} → List (Text × V) → List (Text × V)
evict [] = []
evict (e ∷ cache) =
    let rest = evict cache in
    if ltb use_parsed_session_cache_max (length (e ∷ cache)) then rest else e ∷ cache

-- The states `success` and `truncated`.
unfoldable pub shown_state : {E : Type 0} → ParsedSession → HookState E
shown_state parsed = if parsed.truncated then truncated parsed else success parsed

abbrev pub abort_all : List (Text × ℕ) → (ℕ → Bool) → ℕ → Bool
abort_all [] aborted = aborted
abort_all ((key, controller) ∷ controllers) aborted =
    abort_all controllers (update controller true aborted)

abbrev pub parsed_of : Runtime → Tool → StreamResult → ParsedSession
parsed_of rt tool r =
    dispatch_parser rt (registered tool) r.text
      (record { total_bytes = r.total_bytes; truncated = r.truncated })

abbrev pub is_promise : ℕ → Option ℕ → Bool
is_promise p none = false
is_promise p (some q) = q == p

module _ {X : Type 0} where
  abbrev pub key_of : Fetch X → Text
  key_of f = make_key f.stored_session_uid f.tool

  unfoldable pub bump_cache_epoch : Shared X → Shared X
  bump_cache_epoch w = record w {
    cache_epoch = w.cache_epoch + 1;
    cache = [];
    aborted = abort_all w.in_flight_controllers w.aborted;
    in_flight_controllers = [];
    in_flight = [];
  }

  -- The effect from the request on, up to its first wait.
  unfoldable pub fresh_fetch : ℕ → Text → Tool → Shared X → Shared X × Run
  unfolding make_key dict_set
  fresh_fetch i uid tool w =
      let key = make_key uid tool in
      let p = w.next_fetch in
      (
        record w {
          in_flight_controllers = dict_set key p w.in_flight_controllers;
          in_flight = dict_set key p w.in_flight;
          fetches =
              update p
                (some (record {
                  stored_session_uid = uid;
                  tool = tool;
                  owner = i;
                  epoch_at_start = w.cache_epoch;
                  outcome = none;
                  handled = false;
                }))
                w.fetches;
          next_fetch = suc p;
        },
        record { promise = p; is_originator = true; epoch = w.cache_epoch },
      )

  -- The effect's cleanup: the originator aborts its request.
  abbrev pub cleanup : Option Run → Shared X → Shared X
  cleanup none w = w
  cleanup (some run) w =
      if run.is_originator then record w { aborted = update run.promise true w.aborted } else w

  -- The end of the asynchronous function of a fetch: the cache has its result only in the epoch of its start.
  unfoldable pub store_result : Fetch X → ParsedSession → Shared X → Shared X
  unfolding make_key dict_set evict
  store_result f parsed w =
      if w.cache_epoch == f.epoch_at_start
      then record w { cache = evict (dict_set (key_of f) parsed w.cache) }
      else w

  -- `if (inFlight.get(key) === promise)`: a later fetch for the key is left alone.
  unfoldable pub drop_settled : Text → ℕ → Shared X → Shared X
  unfolding dict_get dict_delete
  drop_settled key p w =
      if is_promise p (dict_get key w.in_flight)
      then record w {
        in_flight = dict_delete key w.in_flight;
        in_flight_controllers = dict_delete key w.in_flight_controllers;
      }
      else w

module _ {X : Type 0} {E : Type 0} where
  -- The cache, with a hit moved to its end, and the state.
  abbrev pub initial_for : Text → Tool → Shared X → Shared X × HookState E
  initial_for uid tool w = elim (dict_get (make_key uid tool) w.cache) [
    | some hit ↦ (record w { cache = touch (make_key uid tool) hit w.cache }, shown_state hit)
    | none ↦ (w, loading)
  ]

  abbrev pub initial_uid : Option Text → Tool → Shared X → Shared X × HookState E
  initial_uid none tool w = (w, no_raw)
  initial_uid (some uid) tool w = initial_for uid tool w

  unfoldable pub derive_initial_state : Option SessionRow → Shared X → Shared X × HookState E
  unfolding make_key touch shown_state dict_get
  derive_initial_state none w = (w, idle)
  derive_initial_state (some row) w = initial_uid row.stored_session_uid row.tool w

  abbrev pub started : Shared X × Run → Shared X × HookState E × Option Run
  started (w, run) = (w, loading, some run)

  -- What an effect without a retry does: a hit of the cache, a fetch in flight, or a fresh fetch.
  abbrev pub joined_or_started :
      ℕ → Text → Tool → Shared X → Option ℕ → Shared X × HookState E × Option Run
  joined_or_started i uid tool w none = started (fresh_fetch i uid tool w)
  joined_or_started i uid tool w (some pending) = (
    w,
    loading,
    some (record { promise = pending; is_originator = false; epoch = w.cache_epoch }),
  )

  abbrev pub looked_up :
      ℕ → Text → Tool → Shared X → Option ParsedSession → Shared X × HookState E × Option Run
  looked_up i uid tool w (some hit) =
      (record w { cache = touch (make_key uid tool) hit w.cache }, shown_state hit, none)
  looked_up i uid tool w none =
      joined_or_started i uid tool w (dict_get (make_key uid tool) w.in_flight)

  abbrev pub effect_for : ℕ → Text → Tool → ℕ → Shared X → Shared X × HookState E × Option Run
  effect_for i uid tool zero w = looked_up i uid tool w (dict_get (make_key uid tool) w.cache)
  effect_for i uid tool (suc retries) w = started (fresh_fetch i uid tool w)

  abbrev pub effect_uid :
      ℕ → Option Text → Tool → ℕ → Shared X → Shared X × HookState E × Option Run
  effect_uid i none tool nonce w = (w, no_raw, none)
  effect_uid i (some uid) tool nonce w = effect_for i uid tool nonce w

  unfoldable pub run_effect :
      ℕ → Option SessionRow → ℕ → Shared X → Shared X × HookState E × Option Run
  unfolding make_key touch shown_state dict_get fresh_fetch
  run_effect i none nonce w = (w, idle, none)
  run_effect i (some row) nonce w = effect_uid i row.stored_session_uid row.tool nonce w
