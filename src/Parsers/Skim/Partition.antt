-- ===== src/Parsers/Skim/Partition.antt =====
-- buildSkim.ts: the message indices that the blocks cover.
use distill_portal.Prelude.{
  ℕ, zero, suc, ◌+◌, ◌-◌, ◌≤◌, ◌<◌, Option, none, some, List, [], ◌∷◌, ◌++◌, ◌≡◌, refl, sym, ap,
  ◌∙◌, length, range, range-append, arith, ltb, Bool-cases, inl, inr,
}
use distill_portal.Prelude.Int.{pos, negsuc}
use distill_portal.Parsers.{Message, MessageKind, boundary, user}
use distill_portal.Parsers.Skim.{
  SkimBlock, BlockKind, BlockMeta, Walk, block, push_block, user_turn, agent_only, no_meta,
  close_regions, close_open_regions, extend_regions, extend_region, before, step_boundary,
  step_user, step_kind, step_message, walk_messages, start_walk, build_skim,
}
use mathlib.Core.Path.{subst, ap₂}
use mathlib.Core.List.{append-nil, append_assoc}

-- The indices of a block, from its start to its end.
abbrev pub indices : SkimBlock → List ℕ
indices b = elim b.end [ pos e ↦ range b.start (suc e - b.start) | negsuc _ ↦ [] ]

abbrev pub covered : List SkimBlock → List ℕ
covered [] = []
covered (b ∷ bs) = indices b ++ covered bs

covered-append : (xs ys : List SkimBlock) → covered (xs ++ ys) ≡ covered xs ++ covered ys
covered-append [] ys = refl
covered-append (x ∷ xs) ys =
    ap (λ ks. indices x ++ ks) (covered-append xs ys)
    ∙ sym (append_assoc (indices x) (covered xs) (covered ys))

-- Where the open region starts: at `i`, the next message, if none is open.
abbrev frontier : Option ℕ → Option ℕ → ℕ → ℕ
frontier (some s) agent i = s
frontier none (some s) i = s
frontier none none i = i

-- Before message `i`, the closed blocks cover the messages below the frontier.
record IsCut (i : ℕ) (w : Walk) : Type 0 where
  reached : covered w.blocks ≡ range 0 (frontier w.open_user_turn w.open_agent_only i)
  bounded : frontier w.open_user_turn w.open_agent_only i ≤ i
  users : (s : ℕ) → w.open_user_turn ≡ some s → (s < i) × (w.open_agent_only ≡ none)
  agents : (s : ℕ) → w.open_agent_only ≡ some s → s < i

-- A block from `s` to before `i` covers the messages between.
covered-snoc :
    (bs : List SkimBlock) (kind : BlockKind) (s i : ℕ) (meta : BlockMeta)
    → s < i
    → covered bs ≡ range 0 s
    → covered (bs ++ block kind s (before i) meta ∷ []) ≡ range 0 i
covered-snoc bs kind s zero meta h e = absurd (omega arith)
covered-snoc bs kind s (suc k) meta h e =
    let last : before (suc k) ≡ pos k = ground arith in
    let zero_s : 0 + s ≡ s = omega arith in
    let whole : s + (suc k - s) ≡ suc k = omega arith in
    covered-append bs (block kind s (before (suc k)) meta ∷ [])
    ∙ rw (last, indices)
        (rw (append-nil (range s (suc k - s))) (
          rw e (
            subst (λ n. range 0 s ++ range n (suc k - s) ≡ range 0 (suc k)) zero_s
              (range-append 0 s (suc k - s) ∙ ap (range 0) whole))))

close-IsCut :
    (i : ℕ) (w : Walk)
    → IsCut i w
    → (covered (close_open_regions (before i) w).blocks ≡ range 0 i)
      × ((close_open_regions (before i) w).open_user_turn ≡ none)
      × ((close_open_regions (before i) w).open_agent_only ≡ none)
unfolding close_open_regions
close-IsCut i w h = cases w.open_user_turn w.open_agent_only refl refl
  where
    cases :
        (u a : Option ℕ)
        → w.open_user_turn ≡ u
        → w.open_agent_only ≡ a
        → (covered (close_regions u a (before i) w).blocks ≡ range 0 i)
          × ((close_regions u a (before i) w).open_user_turn ≡ none)
          × ((close_regions u a (before i) w).open_agent_only ≡ none)
    cases (some s) a eu ea =
        let (below, alone) = h.users s eu in
        let at = h.reached ∙ ap (λ o. range 0 (frontier o w.open_agent_only i)) eu in
        (covered-snoc w.blocks user_turn s i no_meta below at, refl, sym ea ∙ alone)
    cases none (some s) eu ea =
        let at = h.reached ∙ ap₂ (λ o p. range 0 (frontier o p i)) eu ea in
        (covered-snoc w.blocks agent_only s i no_meta (h.agents s ea) at, refl, refl)
    cases none none eu ea = (h.reached ∙ ap₂ (λ o p. range 0 (frontier o p i)) eu ea, eu, ea)

-- A block of one message after closed regions.
single-IsCut :
    (i : ℕ) (w : Walk) (kind : BlockKind) (meta : BlockMeta)
    → covered w.blocks ≡ range 0 i
    → w.open_user_turn ≡ none
    → w.open_agent_only ≡ none
    → IsCut (suc i) (push_block (block kind i (pos i) meta) w)
single-IsCut i w kind meta c u a =
    let last : before (suc i) ≡ pos i = ground arith in
    let snoc = covered-snoc w.blocks kind i (suc i) meta (omega arith) c in
    record {
      reached =
          rw (u, a)
            (subst (λ e. covered (w.blocks ++ block kind i e meta ∷ []) ≡ range 0 (suc i)) last
              snoc);
      bounded = rw (u, a) (omega arith);
      users = λ s e. absurd (ground arith);
      agents = λ s e. absurd (ground arith);
    }

step_boundary-IsCut :
    (i : ℕ) (m : Message) (w : Walk) → IsCut i w → IsCut (suc i) (step_boundary i m w)
unfolding step_boundary
step_boundary-IsCut i m w h =
    let (c, u, a) = close-IsCut i w h in single-IsCut i (close_open_regions (before i) w) _ _ c u a

step_user-IsCut :
    (threshold i : ℕ) (m : Message) (w : Walk)
    → IsCut i w
    → IsCut (suc i) (step_user threshold i m w)
unfolding step_user
step_user-IsCut threshold i m w h =
    let (c, u, a) = close-IsCut i w h in
    elim (Bool-cases (ltb threshold m.bytes)) [
      | inl big ↦ rw big (single-IsCut i (close_open_regions (before i) w) _ _ c u a)
      | inr small ↦ rw small (record {
        reached = c;
        bounded = omega arith;
        users = λ s e. (ground arith, a);
        agents = λ s e. absurd (ground arith);
      })
    ]

extend_region-IsCut : (i : ℕ) (w : Walk) → IsCut i w → IsCut (suc i) (extend_region i w)
unfolding extend_region
extend_region-IsCut i w h = cases w.open_user_turn w.open_agent_only refl refl
  where
    kept :
        frontier w.open_user_turn w.open_agent_only i
          ≡ frontier w.open_user_turn w.open_agent_only (suc i)
        → IsCut (suc i) w
    kept e = record {
      reached = h.reached ∙ ap (range 0) e;
      bounded = omega (arith, h.bounded, e);
      users = λ s u. (omega (arith, (h.users s u).0), (h.users s u).1);
      agents = λ s a. omega (arith, h.agents s a);
    }

    cases :
        (u a : Option ℕ)
        → w.open_user_turn ≡ u
        → w.open_agent_only ≡ a
        → IsCut (suc i) (extend_regions u a i w)
    cases (some s) a eu ea = kept (rw eu)
    cases none (some s) eu ea = kept (rw (eu, ea))
    cases none none eu ea = record {
      reached =
          h.reached
          ∙ ap (range 0)
              (ap₂ (λ o p. frontier o p i) eu ea ∙ sym (ap (λ o. frontier o (some i) (suc i)) eu));
      bounded = rw eu (omega arith);
      users = λ s e. absurd (ground arith);
      agents = λ s e. ground arith;
    }

step_message-IsCut :
    (threshold i : ℕ) (m : Message) (w : Walk)
    → IsCut i w
    → IsCut (suc i) (step_message threshold i m w)
unfolding step_message
step_message-IsCut threshold i m w h = cases m.kind
  where
    cases : (k : MessageKind) → IsCut (suc i) (step_kind k threshold i m w)
    cases boundary = step_boundary-IsCut i m w h
    cases user = step_user-IsCut threshold i m w h
    cases _ = extend_region-IsCut i w h

walk_messages-IsCut :
    (threshold i : ℕ) (ms : List Message) (w : Walk)
    → IsCut i w
    → IsCut (i + length ms) (walk_messages threshold i ms w)
unfolding walk_messages
walk_messages-IsCut threshold i [] w h = subst (λ n. IsCut n w) (omega arith) h
walk_messages-IsCut threshold i (m ∷ ms) w h =
    subst (λ n. IsCut n (walk_messages threshold (suc i) ms (step_message threshold i m w)))
      (omega arith)
      (walk_messages-IsCut threshold (suc i) ms (step_message threshold i m w)
        (step_message-IsCut threshold i m w h))

start-IsCut : IsCut 0 start_walk
start-IsCut = record {
  reached = refl;
  bounded = omega arith;
  users = λ s e. absurd (ground arith);
  agents = λ s e. absurd (ground arith);
}

-- The blocks, in their order, cover the message indices 0, 1, … below the number of messages: every
-- message lies in exactly one block, and the blocks neither overlap nor leave a gap.
pub covered-build_skim :
    (ms : List Message) (threshold : ℕ) → covered (build_skim ms threshold) ≡ range 0 (length ms)
unfolding build_skim
covered-build_skim [] threshold = refl
covered-build_skim (m ∷ ms) threshold =
    let cut = walk_messages-IsCut threshold 0 (m ∷ ms) start_walk start-IsCut in
    let n : 0 + length (m ∷ ms) ≡ length (m ∷ ms) = omega arith in
    (close-IsCut (length (m ∷ ms)) (walk_messages threshold 0 (m ∷ ms) start_walk)
      (subst (λ k. IsCut k (walk_messages threshold 0 (m ∷ ms) start_walk)) n cut)).0
