-- ===== src/Hints/Groups/Status.antt =====
-- renderHints.ts: what the status of a group of tool calls says.
use distill_portal.Prelude.{ℕ, ◌+◌, ◌<◌, Text, List, [], ◌∷◌, map, length, All, ◌≡◌}
use distill_portal.Parsers.{Message}
use distill_portal.Hints.{Lifecycle, GroupStatus, all_success, all_failed, mixed, in_flight}
use distill_portal.Hints.Groups.{Outcome, pending, failed, succeeded, outcome, Tally}

abbrev pub matches : Outcome → Outcome → ℕ
matches pending pending = 1
matches failed failed = 1
matches succeeded succeeded = 1
matches _ _ = 0

abbrev pub how_many : Outcome → List Outcome → ℕ
how_many o [] = 0
how_many o (x ∷ xs) = matches o x + how_many o xs

-- The status in terms of what became of each call of the group.
abbrev pub Says : GroupStatus → List Outcome → Type 0
Says (all_success total) os = (total ≡ length os) × All (λ o. o ≡ succeeded) os
Says (all_failed total) os = (total ≡ length os) × (0 < total) × All (λ o. o ≡ failed) os
Says (in_flight total k) os = (total ≡ length os) × (0 < k) × (k ≡ how_many pending os)
Says (mixed total k) os =
    (total ≡ length os)
    × (how_many pending os ≡ 0)
    × (k ≡ how_many failed os)
    × (0 < k)
    × (k < total)

module _ (lower : Text → Text) (messages : List Message) where
  abbrev pub outcomes : List Lifecycle → List Outcome
  outcomes hs = map (outcome lower messages) hs

  record Counts (t u : Tally) (os : List Outcome) : Type 0 where
    pendings : u.pending_count ≡ t.pending_count + how_many pending os
    failures : u.failed_count ≡ t.failed_count + how_many failed os
    successes : u.succeeded_count ≡ t.succeeded_count + how_many succeeded os
