-- ===== src/Parsers/Skim/Kinds.antt =====
-- buildSkim.ts: what the messages of a block are.
use distill_portal.Prelude.{
  ℕ, zero, suc, ◌+◌, ◌≤◌, ◌<◌, Option, none, some, List, [], ◌∷◌, ◌≡◌, ◌≢◌, refl, sym, ap, ◌∙◌,
  length, get_elem?, drop, get_of_drop, All, All-append, arith, ltb, ltb→lt, Bool-cases, inl, inr,
}
use distill_portal.Prelude.Int.{pos}
use distill_portal.Parsers.{Message, MessageKind, boundary, user}
use distill_portal.Parsers.Skim.{
  SkimBlock, BlockKind, user_turn, boundary_block, agent_only, oversized_user_message, subtype,
  size_bytes, Walk, push_block, close_regions, close_open_regions, extend_regions, extend_region,
  before, step_boundary, step_user, step_kind, step_message, walk_messages, start_walk, build_skim,
}
use mathlib.Core.Path.{subst}
use mathlib.Core.Option.{some-injective}
use native.Mathlib.Decide.{dec_lt}

abbrev pub IsPlain : MessageKind → Type 0
IsPlain kind = (kind ≢ user) × (kind ≢ boundary)

module _ (all : List Message) (threshold : ℕ) where
  -- No message from one index to before another is a user message or a boundary.
  abbrev pub IsSpan : ℕ → ℕ → Type 0
  IsSpan from to =
      (j : ℕ) (m : Message) → get_elem? all j ≡ some m → from ≤ j → j < to → IsPlain m.kind

  -- A user turn starts with a user message that is not oversized, with no other user message and no
  -- boundary behind it; an agent block has neither; the other two are one message each.
  abbrev pub IsOfKind : BlockKind → SkimBlock → Type 0
  IsOfKind user_turn b =
      (e : ℕ) × (m : Message) × (b.end ≡ pos e)
      × (b.start ≤ e)
      × (get_elem? all b.start ≡ some m)
      × (m.kind ≡ user)
      × (m.bytes ≤ threshold)
      × IsSpan (suc b.start) (suc e)
  IsOfKind agent_only b = (e : ℕ) × (b.end ≡ pos e) × (b.start ≤ e) × IsSpan b.start (suc e)
  IsOfKind boundary_block b =
      (m : Message) × (b.end ≡ pos b.start)
      × (get_elem? all b.start ≡ some m)
      × (m.kind ≡ boundary)
      × (b.meta ≡ subtype m.boundary_subtype)
  IsOfKind oversized_user_message b =
      (m : Message) × (b.end ≡ pos b.start)
      × (get_elem? all b.start ≡ some m)
      × (m.kind ≡ user)
      × (threshold < m.bytes)
      × (b.meta ≡ size_bytes m.bytes)

  abbrev pub IsBlock : SkimBlock → Type 0
  IsBlock b = IsOfKind b.kind b

  abbrev IsOpenTurn : ℕ → ℕ → Type 0
  IsOpenTurn s i =
      (m : Message) × (s < i)
      × (get_elem? all s ≡ some m)
      × (m.kind ≡ user)
      × (m.bytes ≤ threshold)
      × IsSpan (suc s) i

  -- What is known before message `i`.
  record IsSorted (i : ℕ) (w : Walk) : Type 0 where
    closed : All IsBlock w.blocks
    turn : (s : ℕ) → w.open_user_turn ≡ some s → IsOpenTurn s i
    agent : (s : ℕ) → w.open_agent_only ≡ some s → (s < i) × IsSpan s i
    alone : (s : ℕ) → w.open_user_turn ≡ some s → w.open_agent_only ≡ none

  before-eq : (i s : ℕ) → s < i → (e : ℕ) × (before i ≡ pos e) × (s ≤ e) × (suc e ≡ i)
  before-eq zero s h = absurd (omega arith)
  before-eq (suc k) s h = (k, ground arith, omega arith, refl)

  close-All :
      (i : ℕ) (w : Walk) → IsSorted i w → All IsBlock (close_open_regions (before i) w).blocks
  unfolding close_open_regions
  close-All i w h = cases w.open_user_turn w.open_agent_only refl refl
    where
      cases :
          (u a : Option ℕ)
          → w.open_user_turn ≡ u
          → w.open_agent_only ≡ a
          → All IsBlock (close_regions u a (before i) w).blocks
      cases (some s) a eu ea =
          let (m, below, at, kind, small, span) = h.turn s eu in
          let (e, last, le, next) = before-eq i s below in
          All-append IsBlock w.blocks _ h.closed
            ((e, m, last, le, at, kind, small, subst (λ n. IsSpan (suc s) n) (sym next) span), tt)
      cases none (some s) eu ea =
          let (below, span) = h.agent s ea in
          let (e, last, le, next) = before-eq i s below in
          All-append IsBlock w.blocks _ h.closed
            ((e, last, le, subst (λ n. IsSpan s n) (sym next) span), tt)
      cases none none eu ea = h.closed

  -- A span grows by a plain message.
  IsSpan-suc :
      (s i : ℕ) (m : Message)
      → get_elem? all i ≡ some m
      → IsPlain m.kind
      → IsSpan s i
      → IsSpan s (suc i)
  IsSpan-suc s i m at plain span j n got le lt = elim (dec_lt j i) [
    | yes below ↦ span j n got le below
    | no above ↦
        let e : j ≡ i = omega arith in
        let same = some-injective _ _ (sym at ∙ ap (get_elem? all) (sym e) ∙ got) in
        subst (λ x. IsPlain x.kind) same plain
  ]

  IsSpan-single :
      (i : ℕ) (m : Message) → get_elem? all i ≡ some m → IsPlain m.kind → IsSpan i (suc i)
  IsSpan-single i m at plain = IsSpan-suc i i m at plain (λ j n got le lt. absurd (omega arith))

  extend-IsSorted :
      (i : ℕ) (m : Message) (w : Walk)
      → get_elem? all i ≡ some m
      → IsPlain m.kind
      → IsSorted i w
      → IsSorted (suc i) (extend_region i w)
  unfolding extend_region
  extend-IsSorted i m w at plain h = cases w.open_user_turn w.open_agent_only refl refl
    where
      cases :
          (u a : Option ℕ)
          → w.open_user_turn ≡ u
          → w.open_agent_only ≡ a
          → IsSorted (suc i) (extend_regions u a i w)
      cases (some s) a eu ea = record {
        closed = h.closed;
        turn = λ t e.
            let (first, below, got, kind, small, span) = h.turn t e in
            (first, omega arith, got, kind, small, IsSpan-suc (suc t) i m at plain span);
        agent = λ t e. absurd (ground (arith, h.alone s eu));
        alone = h.alone;
      }
      cases none (some s) eu ea = record {
        closed = h.closed;
        turn = λ t e. absurd (ground arith);
        agent =
            λ t e. let (below, span) = h.agent t e in (omega arith, IsSpan-suc t i m at plain span);
        alone = h.alone;
      }
      cases none none eu ea = record {
        closed = h.closed;
        turn = λ t e. absurd (ground arith);
        agent = λ t e.
            let same = some-injective _ _ e in
            subst (λ k. (k < suc i) × IsSpan k (suc i)) same
              (omega arith, IsSpan-single i m at plain);
        alone = λ t e. absurd (ground arith);
      }

  -- After a close no region is open.
  close_none :
      (i : ℕ) (w : Walk)
      → IsSorted i w
      → ((close_open_regions (before i) w).open_user_turn ≡ none)
        × ((close_open_regions (before i) w).open_agent_only ≡ none)
  unfolding close_open_regions
  close_none i w h = cases w.open_user_turn w.open_agent_only refl refl
    where
      cases :
          (u a : Option ℕ)
          → w.open_user_turn ≡ u
          → w.open_agent_only ≡ a
          → ((close_regions u a (before i) w).open_user_turn ≡ none)
            × ((close_regions u a (before i) w).open_agent_only ≡ none)
      cases (some s) a eu ea = (refl, sym ea ∙ h.alone s eu)
      cases none (some s) eu ea = (refl, refl)
      cases none none eu ea = (eu, ea)

  single-IsSorted :
      (i : ℕ) (w : Walk) (b : SkimBlock)
      → All IsBlock w.blocks
      → IsBlock b
      → w.open_user_turn ≡ none
      → w.open_agent_only ≡ none
      → IsSorted (suc i) (push_block b w)
  single-IsSorted i w b h k u a = record {
    closed = All-append IsBlock w.blocks (b ∷ []) h (k, tt);
    turn = λ s e. absurd (ground arith);
    agent = λ s e. absurd (ground arith);
    alone = λ s e. absurd (ground arith);
  }

  module _ (i : ℕ) (m : Message) (w : Walk) (at : get_elem? all i ≡ some m) (h : IsSorted i w) where
    step_boundary-IsSorted : m.kind ≡ boundary → IsSorted (suc i) (step_boundary i m w)
    unfolding step_boundary
    step_boundary-IsSorted kind =
        let (u, a) = close_none i w h in
        single-IsSorted i (close_open_regions (before i) w) _ (close-All i w h)
          (m, refl, at, kind, refl) u a

    step_user-IsSorted : m.kind ≡ user → IsSorted (suc i) (step_user threshold i m w)
    unfolding step_user
    step_user-IsSorted kind =
        let (u, a) = close_none i w h in
        let closed = close-All i w h in
        elim (Bool-cases (ltb threshold m.bytes)) [
          | inl big ↦ rw big (
              single-IsSorted i (close_open_regions (before i) w) _ closed
                (m, refl, at, kind, ltb→lt _ _ big, refl) u a)
          | inr small ↦ rw small (record {
            closed = closed;
            turn = λ s e.
                subst (λ k. IsOpenTurn k (suc i)) (some-injective _ _ e)
                  (m, omega arith, at, kind, ground arith, λ j n got le lt. absurd (omega arith));
            agent = λ s e. absurd (ground arith);
            alone = λ s e. a;
          })
        ]

    step_message-IsSorted : IsSorted (suc i) (step_message threshold i m w)
    unfolding step_message
    step_message-IsSorted = cases m.kind refl
      where
        cases : (k : MessageKind) → m.kind ≡ k → IsSorted (suc i) (step_kind k threshold i m w)
        cases boundary e = step_boundary-IsSorted e
        cases user e = step_user-IsSorted e
        cases _ e = extend-IsSorted i m w at (λ u. ground arith, λ b. ground arith) h

  walk_messages-IsSorted :
      (i : ℕ) (ms : List Message) (w : Walk)
      → drop i all ≡ ms
      → IsSorted i w
      → IsSorted (i + length ms) (walk_messages threshold i ms w)
  unfolding walk_messages
  walk_messages-IsSorted i [] w e h = subst (λ n. IsSorted n w) (omega arith) h
  walk_messages-IsSorted i (m ∷ ms) w e h =
      let (at, rest) = get_of_drop i all m ms e in
      subst (λ n. IsSorted n (walk_messages threshold (suc i) ms (step_message threshold i m w)))
        (omega arith)
        (walk_messages-IsSorted (suc i) ms (step_message threshold i m w) rest
          (step_message-IsSorted i m w at h))

  start-IsSorted : IsSorted 0 start_walk
  start-IsSorted = record {
    closed = tt;
    turn = λ s e. absurd (ground arith);
    agent = λ s e. absurd (ground arith);
    alone = λ s e. refl;
  }

-- In a stream with a message, each block is what its kind says: a user turn starts with a user message
-- of at most the threshold, and holds no other user message and no boundary; an agent block holds
-- neither; a boundary block is one boundary, with its subtype; an oversized block is one user message
-- above the threshold, with its size.
pub build_skim-IsBlock :
    (m : Message) (ms : List Message) (threshold : ℕ)
    → All (IsBlock (m ∷ ms) threshold) (build_skim (m ∷ ms) threshold)
unfolding build_skim
build_skim-IsBlock m ms threshold =
    let all = m ∷ ms in
    let n : 0 + length all ≡ length all = omega arith in
    let w = walk_messages threshold 0 all start_walk in
    let h =
      walk_messages-IsSorted all threshold 0 all start_walk refl (start-IsSorted all threshold) in
    close-All all threshold (length all) w (subst (λ k. IsSorted all threshold k w) n h)
