-- ===== src/Parsers/Skim.antt =====
-- apps/frontend/src/features/sessions/parsers/buildSkim.ts: the blocks of a message stream. `start` and
-- `end` are inclusive; `end` is an integer, since an empty stream has the block from 0 to -1.
pub mod Partition
pub mod Kinds
use distill_portal.Prelude.{
  ℕ, suc, ◌-◌, Bool, true, false, Option, none, some, List, [], ◌∷◌, ◌++◌, ltb, if◌then◌else◌,
  length,
}
use distill_portal.Prelude.Int.{ℤ, pos, negsuc, sub_ℕ}
use distill_portal.Parsers.{
  MessageKind, user, assistant, tool_use, tool_result, system, unknown, boundary, metadata, Message,
  BoundarySubtype,
}

pub data BlockKind : Type 0 where
  user_turn boundary_block agent_only oversized_user_message : BlockKind

-- The bookkeeping of a block: none, `{empty: 1}`, `{subtype}` where there is one, or `{sizeBytes}`.
pub data BlockMeta : Type 0 where
  no_meta empty_stream : BlockMeta
  subtype : Option BoundarySubtype → BlockMeta
  size_bytes : ℕ → BlockMeta

pub record SkimBlock : Type 0 where
  pub kind : BlockKind
  pub start : ℕ
  pub end : ℤ
  pub meta : BlockMeta

abbrev pub user_msg_oversize_threshold : ℕ
user_msg_oversize_threshold = 65536

-- The variables of the walk.
pub record Walk : Type 0 where
  pub blocks : List SkimBlock
  pub open_user_turn : Option ℕ
  pub open_agent_only : Option ℕ

abbrev pub block : BlockKind → ℕ → ℤ → BlockMeta → SkimBlock
block kind start end meta = record { kind = kind; start = start; end = end; meta = meta }

abbrev pub push_block : SkimBlock → Walk → Walk
push_block b w = record w { blocks = w.blocks ++ b ∷ [] }

-- `closeOpenRegions`.
abbrev close_regions : Option ℕ → Option ℕ → ℤ → Walk → Walk
close_regions (some start) agent end w = record {
  blocks = w.blocks ++ block user_turn start end no_meta ∷ [];
  open_user_turn = none;
  open_agent_only = agent;
}
close_regions none (some start) end w = record {
  blocks = w.blocks ++ block agent_only start end no_meta ∷ [];
  open_user_turn = none;
  open_agent_only = none;
}
close_regions none none end w = w

unfoldable pub close_open_regions : ℤ → Walk → Walk
close_open_regions end w = close_regions w.open_user_turn w.open_agent_only end w

-- What a message that starts no block of its own does: it extends the open region, or opens one for
-- the agent.
abbrev extend_regions : Option ℕ → Option ℕ → ℕ → Walk → Walk
extend_regions (some start) agent i w = w
extend_regions none (some start) i w = w
extend_regions none none i w = record w { open_agent_only = some i }

unfoldable pub extend_region : ℕ → Walk → Walk
extend_region i w = extend_regions w.open_user_turn w.open_agent_only i w

-- `i - 1`.
abbrev pub before : ℕ → ℤ
before i = sub_ℕ i 1

unfoldable pub step_boundary : ℕ → Message → Walk → Walk
unfolding close_open_regions
step_boundary i m w =
    push_block (block boundary_block i (pos i) (subtype m.boundary_subtype))
      (close_open_regions (before i) w)

unfoldable pub step_user : ℕ → ℕ → Message → Walk → Walk
unfolding close_open_regions
step_user threshold i m w =
    let closed = close_open_regions (before i) w in
    if ltb threshold m.bytes
    then push_block (block oversized_user_message i (pos i) (size_bytes m.bytes)) closed
    else record closed { open_user_turn = some i }

-- One round of the loop.
abbrev step_kind : MessageKind → ℕ → ℕ → Message → Walk → Walk
step_kind boundary threshold i m w = step_boundary i m w
step_kind user threshold i m w = step_user threshold i m w
step_kind _ threshold i m w = extend_region i w

unfoldable pub step_message : ℕ → ℕ → Message → Walk → Walk
unfolding step_boundary step_user extend_region
step_message threshold i m w = step_kind m.kind threshold i m w

unfoldable pub walk_messages : ℕ → ℕ → List Message → Walk → Walk
unfolding step_message
walk_messages threshold i [] w = w
walk_messages threshold i (m ∷ ms) w =
    walk_messages threshold (suc i) ms (step_message threshold i m w)

abbrev pub start_walk : Walk
start_walk = record { blocks = []; open_user_turn = none; open_agent_only = none }

unfoldable pub build_skim : List Message → ℕ → List SkimBlock
unfolding walk_messages close_open_regions
build_skim [] threshold = block agent_only 0 (negsuc 0) empty_stream ∷ []
build_skim (m ∷ ms) threshold =
    let messages = m ∷ ms in
    let w = walk_messages threshold 0 messages start_walk in
    (close_open_regions (before (length messages)) w).blocks
