-- ===== src/Tournament/Provision.antt =====
-- backend/arena/tournaments/provision.py: the slots, sizes and scoring tables that a tournament is
-- provisioned with, and `Python`, the calls of the standard library that the subsystem makes.
use arena_rank_project.Prelude.{
  ℕ, zero, suc, ◌+◌, ◌-◌, ◌%◌, Bool, true, false, not, Option, none, some, List, [], ◌∷◌, ◌++◌,
  if◌then◌else◌, ◌==◌, Text, text_eq, replicate,
}
use arena_rank_project.Prelude.Int.{ℤ, pos}
use arena_rank_project.Prelude.Table.{Table, insert, int_eq}

-- `s.strip().upper()`, `uuid.UUID(s)` (none where it raises), `str(id)` of a UUID, which stands for
-- a number, and the SHA-256 digest of a text as a number.
pub record Python : Type 0 where
  pub strip_upper : Text → Text
  pub parse_uuid : Text → Option ℕ
  pub str_uuid : ℕ → Text
  pub sha256 : Text → ℕ

-- A player slot of the jsonb column: `{empty: True}`, or a filled one, whose avatar is a position in
-- the palette.
pub data Slot : Type 0 where
  empty : Slot
  filled : Text → Text → Text → ℕ → Slot

abbrev three_on_three : Text
three_on_three = b'3' ∷ b'v' ∷ b'3' ∷ []

unfoldable pub team_size : Text → ℕ
unfolding text_eq
team_size fmt = if text_eq fmt three_on_three then 3 else 2

-- `key.strip().upper()`
unfoldable pub normalize_key : Python → Text → Text
normalize_key py key = py.strip_upper key

-- `riot_id.split("#", 1)`: what stands before the first `#`, and what follows it.
unfoldable pub split_hash : Text → Text × Option Text
split_hash [] = ([], none)
split_hash (c ∷ t) =
    let (name, rest) = split_hash t in if c == b'#' then ([], some t) else (c ∷ name, rest)

abbrev unknown_handle : Text
unknown_handle = b'#' ∷ b'?' ∷ b'?' ∷ b'?' ∷ []

-- `avatar_from_seed(seed)`, with the default offset 0 and eight gradients.
unfoldable pub avatar_from_seed : Python → Text → ℕ
avatar_from_seed py seed = py.sha256 (seed ++ (b'0' ∷ [])) % 8

unfoldable pub make_player_slot : Python → Text → Slot
unfolding split_hash avatar_from_seed
make_player_slot py riot_id =
    let (name, rest) = split_hash riot_id in
    filled name (elim rest [ some r ↦ b'#' ∷ r | none ↦ unknown_handle ]) riot_id
      (avatar_from_seed py riot_id)

abbrev pub empty_slots : ℕ → List Slot
empty_slots count = replicate count empty

-- `p.get("empty")`
abbrev pub is_empty : Slot → Bool
is_empty empty = true
is_empty (filled _ _ _ _) = false

unfoldable pub count_real_players : List Slot → ℕ
count_real_players [] = 0
count_real_players (p ∷ ps) =
    if not (is_empty p) then suc (count_real_players ps) else count_real_players ps

pub record ScoringEntry : Type 0 where
  pub place : ℤ
  pub points : ℤ

-- `for p in range(p, p + count)`
scoring_range : ℕ → ℕ → ℕ → List ScoringEntry
scoring_range zero p num_teams = []
scoring_range (suc count) p num_teams =
    record { place = pos p; points = pos (num_teams + 1 - p) }
    ∷ scoring_range count (suc p) num_teams

unfoldable pub default_scoring : ℕ → List ScoringEntry
unfolding scoring_range
default_scoring num_teams = scoring_range num_teams 1 num_teams

scoring_into : Table ℤ ℤ → List ScoringEntry → Table ℤ ℤ
scoring_into d [] = d
scoring_into d (s ∷ ss) = scoring_into (insert s.place s.points d) ss

unfoldable pub scoring_to_dict : List ScoringEntry → Table ℤ ℤ
unfolding scoring_into
scoring_to_dict ss = scoring_into [] ss
