-- ===== src/ParsedHook/Consumers.antt =====
-- useParsedSession.ts: what holds of a consumer, and that its own steps keep it.
use distill_portal.Prelude.{
  ℕ, ◌+◌, Text, text_eq_iff, Bool, true, false, not, ◌||◌, Option, none, some, ◌≡◌, refl, sym, ap,
  ◌∙◌, arith,
}
use mathlib.Core.Path.{subst}
use distill_portal.Contracts.{Tool, claude_code, codex}
use distill_portal.Sessions.Rows.{SessionRow}
use distill_portal.Parsers.Dispatch.{ParsedSession}
use distill_portal.ParsedHook.{
  HookState, idle, no_raw, loading, success, truncated, error, resolved, Fetch, Run, Hook, make_key,
  shown_state,
}
use distill_portal.ParsedHook.Steps.{uid_of, tool_of, same_uid, same_tool, same_deps, select, retry}
use distill_portal.ParsedHook.Maps.{IsLater, Grows, IsCached, IsPending}
use distill_portal.ParsedHook.Keys.{make_key-injective}

-- The session of a state.
abbrev pub parsed_in : {E : Type 0} → HookState E → Option ParsedSession
parsed_in (success v) = some v
parsed_in (truncated v) = some v
parsed_in _ = none

module _ {X : Type 0} where
  -- A fetch of the session of a row.
  abbrev pub ForRow : Option SessionRow → Fetch X → Type 0
  ForRow row f = (uid_of row ≡ some f.stored_session_uid) × (tool_of row ≡ some f.tool)

  ForRow-IsLater :
      (row : Option SessionRow) (f g : Fetch X) → IsLater f g → ForRow row f → ForRow row g
  ForRow-IsLater row f g l (u, t) = (u ∙ ap some (sym l.same_uid), t ∙ ap some (sym l.same_tool))

  -- What a consumer waits for is a fetch of its session, once its effect has run for its row.
  pub record IsWaiting (fs : ℕ → Option (Fetch X)) (row : Option SessionRow) (due : Bool) (r : Run)
      : Type 0 where
    pub fetch : Fetch X
    pub known : fs r.promise ≡ some fetch
    pub same_epoch : fetch.epoch_at_start ≡ r.epoch
    pub for_row : due ≡ false → ForRow row fetch

  -- So is what it shows.
  pub record IsShown (fs : ℕ → Option (Fetch X)) (row : Option SessionRow) (due : Bool)
      (v : ParsedSession) : Type 0 where
    pub promise : ℕ
    pub fetch : Fetch X
    pub known : fs promise ≡ some fetch
    pub result : fetch.outcome ≡ some (resolved v)
    pub for_row : due ≡ false → ForRow row fetch

  IsWaiting-Grows :
      {fs gs : ℕ → Option (Fetch X)} {row : Option SessionRow} {due : Bool} {r : Run}
      → Grows fs gs
      → IsWaiting fs row due r
      → IsWaiting gs row due r
  IsWaiting-Grows {row = row} {r = r} grows w =
      let (g, e, l) = grows r.promise w.fetch w.known in
      record {
        fetch = g;
        known = e;
        same_epoch = l.same_epoch ∙ w.same_epoch;
        for_row = λ d. ForRow-IsLater row w.fetch g l (w.for_row d);
      }

  IsShown-Grows :
      {fs gs : ℕ → Option (Fetch X)} {row : Option SessionRow} {due : Bool} {v : ParsedSession}
      → Grows fs gs
      → IsShown fs row due v
      → IsShown gs row due v
  IsShown-Grows {row = row} grows s =
      let (g, e, l) = grows s.promise s.fetch s.known in
      record {
        promise = s.promise;
        fetch = g;
        known = e;
        result = l.same_outcome _ s.result;
        for_row = λ d. ForRow-IsLater row s.fetch g l (s.for_row d);
      }

  pub Cached-IsShown :
      {fs : ℕ → Option (Fetch X)} {epoch : ℕ} (row : SessionRow) (uid : Text) (due : Bool)
      (v : ParsedSession)
      → row.stored_session_uid ≡ some uid
      → IsCached fs epoch (make_key uid row.tool) v
      → IsShown fs (some row) due v
  Cached-IsShown row uid due v e c =
      let (u, t) =
        make_key-injective c.fetch.stored_session_uid uid c.fetch.tool row.tool c.keyed in
      record {
        promise = c.promise;
        fetch = c.fetch;
        known = c.known;
        result = c.result;
        for_row = λ d. (e ∙ ap some (sym u), ap some (sym t));
      }

  pub Pending-IsWaiting :
      {fs : ℕ → Option (Fetch X)} {epoch : ℕ} (row : SessionRow) (uid : Text) (p : ℕ)
      (is_originator : Bool)
      → row.stored_session_uid ≡ some uid
      → IsPending fs epoch (make_key uid row.tool) p
      → IsWaiting fs
          (some row)
          false
          (record { promise = p; is_originator = is_originator; epoch = epoch })
  Pending-IsWaiting row uid p b e c =
      let (u, t) =
        make_key-injective c.fetch.stored_session_uid uid c.fetch.tool row.tool c.keyed in
      record {
        fetch = c.fetch;
        known = c.known;
        same_epoch = c.current;
        for_row = λ d. (e ∙ ap some (sym u), ap some (sym t));
      }

same_uid_eq : (a b : Option Text) → same_uid a b ≡ true → a ≡ b
same_uid_eq none none h = refl
same_uid_eq (some a) (some b) h = ap some ((text_eq_iff a b).0 h)
same_uid_eq none (some b) h = cc
same_uid_eq (some a) none h = cc

same_tool_eq : (a b : Option Tool) → same_tool a b ≡ true → a ≡ b
same_tool_eq none none h = refl
same_tool_eq (some claude_code) (some claude_code) h = refl
same_tool_eq (some codex) (some codex) h = refl
same_tool_eq (some claude_code) (some codex) h = cc
same_tool_eq (some codex) (some claude_code) h = cc
same_tool_eq none (some b) h = cc
same_tool_eq (some a) none h = cc

same_deps_eq :
    (a b : Option SessionRow)
    → same_deps a b ≡ true
    → (uid_of a ≡ uid_of b) × (tool_of a ≡ tool_of b)
unfolding same_deps
same_deps_eq a b h = (
  same_uid_eq (uid_of a) (uid_of b) (ground arith),
  same_tool_eq (tool_of a) (tool_of b) (ground arith),
)

pub parsed_in-shown_state :
    (E : Type 0) (w v : ParsedSession) → parsed_in {E = E} (shown_state w) ≡ some v → w ≡ v
unfolding shown_state
parsed_in-shown_state E w v h = ground arith

module _ {X : Type 0} {E : Type 0} where
  pub record IsHook (fs : ℕ → Option (Fetch X)) (h : Hook E) : Type 0 where
    pub waits : (r : Run) → h.run ≡ some r → IsWaiting fs h.row h.effect_due r
    pub shows :
        (v : ParsedSession)
        → parsed_in h.state ≡ some v
        → (h.state ≡ shown_state v) × IsShown fs h.row h.effect_due v

  pub IsHook-Grows :
      {fs gs : ℕ → Option (Fetch X)} {h : Hook E} → Grows fs gs → IsHook fs h → IsHook gs h
  IsHook-Grows g k = record {
    waits = λ r e. IsWaiting-Grows g (k.waits r e);
    shows = λ v e. let (kind, s) = k.shows v e in (kind, IsShown-Grows g s);
  }

  pub select-IsHook :
      {fs : ℕ → Option (Fetch X)} (row : Option SessionRow) (h : Hook E)
      → IsHook fs h
      → IsHook fs (select row h)
  unfolding select
  select-IsHook {fs} row h k = record {
    waits = λ r e.
        let w = k.waits r e in
        record {
          fetch = w.fetch;
          known = w.known;
          same_epoch = w.same_epoch;
          for_row = λ d. moved w.fetch d (w.for_row (was_due d));
        };
    shows = λ v e.
        let (kind, s) = k.shows v e in
        (
          kind,
          record {
            promise = s.promise;
            fetch = s.fetch;
            known = s.known;
            result = s.result;
            for_row = λ d. moved s.fetch d (s.for_row (was_due d));
          },
        );
  }
    where
      was_due : (h.effect_due || not (same_deps h.row row)) ≡ false → h.effect_due ≡ false
      was_due d = ground arith

      moved :
          (f : Fetch X)
          → (h.effect_due || not (same_deps h.row row)) ≡ false
          → ForRow h.row f
          → ForRow row f
      moved f d (u, t) =
          let (su, st) = same_deps_eq h.row row (ground arith) in (sym su ∙ u, sym st ∙ t)

  -- A new nonce: the effect is due.
  pub renewed-IsHook :
      {fs : ℕ → Option (Fetch X)} (n : ℕ) (h : Hook E)
      → IsHook fs h
      → IsHook fs (record h { retry_nonce = n; effect_due = true })
  renewed-IsHook n h k = record {
    waits = λ r e.
        let w = k.waits r e in
        record { fetch = w.fetch; known = w.known; same_epoch = w.same_epoch; for_row = λ d. cc };
    shows = λ v e.
        let (kind, s) = k.shows v e in
        (
          kind,
          record {
            promise = s.promise;
            fetch = s.fetch;
            known = s.known;
            result = s.result;
            for_row = λ d. cc;
          },
        );
  }

  pub retry-IsHook : {fs : ℕ → Option (Fetch X)} (h : Hook E) → IsHook fs h → IsHook fs (retry h)
  unfolding retry
  retry-IsHook {fs} h k = by_state h.state refl
    where
      kept : {g : Hook E} → retry h ≡ g → g ≡ retry h
      kept e = sym e

      by_state : (s : HookState E) → h.state ≡ s → IsHook fs (retry h)
      by_state (error x) e =
          subst (IsHook fs) (kept (ground arith)) (renewed-IsHook (h.retry_nonce + 1) h k)
      by_state idle e = subst (IsHook fs) (kept (ground arith)) k
      by_state no_raw e = subst (IsHook fs) (kept (ground arith)) k
      by_state loading e = subst (IsHook fs) (kept (ground arith)) k
      by_state (success v) e = subst (IsHook fs) (kept (ground arith)) k
      by_state (truncated v) e = subst (IsHook fs) (kept (ground arith)) k
