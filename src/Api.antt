-- ===== src/Api.antt =====
-- apps/frontend/src/lib/api.ts: requests, and what becomes of their responses. `fetch`, the body of a
-- response, JSON.stringify and the text of URLSearchParams are parameters.
pub mod Component
pub mod Paths
pub mod Endpoints
use distill_portal.Prelude.{
  ℕ, Text, lit, trim, Bool, Option, none, some, [], ◌∷◌, ◌++◌, if◌then◌else◌,
}
use distill_portal.Json.{Json}
use distill_portal.Poll.{Answer, got, rejected}
use distill_portal.SelectedSession.{Params}

-- The body of a `Response`: what `text()` and `json()` come to; `E` is what JavaScript throws.
pub record Response (E : Type 0) : Type 0 where
  pub ok : Bool
  pub status : ℕ
  pub text : Answer Text E
  pub json : Answer Json E

pub data Method : Type 0 where
  get post delete : Method

pub record Request (Signal : Type 0) : Type 0 where
  pub url : Text
  pub method : Method
  pub accept : Text
  pub content_type : Option Text
  pub body : Option Text
  pub signal : Option Signal

-- An `ApiError`, the error of an encoding that throws, or one that the platform throws.
pub data Failure (E : Type 0) : Type 0 where
  api_error : ℕ → Text → Failure E
  uri_error : Failure E
  caused : E → Failure E

-- What a call of this module asks of the browser.
pub record Browser (Signal : Type 0) (E : Type 0) : Type 0 where
  pub api_base : Text
  pub fetch : Request Signal → Answer (Response E) E
  pub stringify : Json → Text
  pub print_query : Params → Text

module _ {E : Type 0} where
  unfoldable pub safe_read_text : Answer Text E → Text
  unfolding trim
  safe_read_text (got s) = trim s
  safe_read_text (rejected e) = []

  abbrev pub parsed : Answer Json E → Answer Json (Failure E)
  parsed (got v) = got v
  parsed (rejected e) = rejected (caused e)

  abbrev pub error_of : Response E → Failure E
  error_of r = api_error r.status (safe_read_text r.text)

  -- `if (!response.ok) throw …; return (await response.json())`.
  abbrev pub json_of : Answer (Response E) E → Answer Json (Failure E)
  json_of (rejected e) = rejected (caused e)
  json_of (got r) = if r.ok then parsed r.json else rejected (error_of r)

  abbrev pub stream_of : Answer (Response E) E → Answer (Response E) (Failure E)
  stream_of (rejected e) = rejected (caused e)
  stream_of (got r) = if r.ok then got r else rejected (error_of r)

unfoldable pub json_type : Text
unfolding lit
json_type = lit "application/json"

unfoldable pub ndjson_type : Text
unfolding lit
ndjson_type = lit "application/x-ndjson"

module _ {Signal : Type 0} {E : Type 0} (browser : Browser Signal E) where
  unfoldable pub get_json : Text → Option Signal → Answer Json (Failure E)
  unfolding json_type safe_read_text
  get_json path signal = json_of (
      browser.fetch (record {
        url = browser.api_base ++ path;
        method = get;
        accept = json_type;
        content_type = none;
        body = none;
        signal = signal;
      }))

  unfoldable pub post_json : Text → Json → Option Signal → Answer Json (Failure E)
  unfolding json_type safe_read_text
  post_json path body signal = json_of (
      browser.fetch (record {
        url = browser.api_base ++ path;
        method = post;
        accept = json_type;
        content_type = some json_type;
        body = some (browser.stringify body);
        signal = signal;
      }))

  unfoldable pub delete_json : Text → Option Signal → Answer Json (Failure E)
  unfolding json_type safe_read_text
  delete_json path signal = json_of (
      browser.fetch (record {
        url = browser.api_base ++ path;
        method = delete;
        accept = json_type;
        content_type = none;
        body = none;
        signal = signal;
      }))

  -- A path that cannot be written rejects before anything is sent.
  abbrev pub with_path :
      {A : Type 0} → Option Text → (Text → Answer A (Failure E)) → Answer A (Failure E)
  with_path none send = rejected uri_error
  with_path (some path) send = send path
