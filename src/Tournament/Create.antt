-- ===== src/Tournament/Create.antt =====
-- `create_tournament` of backend/arena/tournaments/service.py, and the life of an event from there on.
-- The database hands out the ids of the rows; the key and the scoring of the request are used if given.
pub mod Life
use arena_rank_project.Prelude.{
  ℕ, zero, suc, ◌+◌, ◌*◌, Bool, true, false, Option, none, some, List, [], ◌∷◌, ◌++◌, Text,
}
use arena_rank_project.Prelude.Int.{ℤ, pos}
use arena_rank_project.Tournament.Provision.{ScoringEntry, team_size, empty_slots, default_scoring}
use arena_rank_project.Tournament.Rows.{upcoming, blob, Tournament, Team, Match, Event}

-- The fields of `TournamentCreate` that the rows depend on.
pub record TournamentCreate : Type 0 where
  pub num_teams : ℕ
  pub num_matches : ℕ
  pub format : Text
  pub access_key : Text
  pub scoring : List ScoringEntry

-- What the run time supplies: the id of the team with a given seed, a generated access key, the name
-- `Equipe {j}`, and the lobby link of match `n`.
pub record Fresh : Type 0 where
  pub team_id : ℕ → ℕ
  pub gen_access_key : Text
  pub team_name : ℕ → Text
  pub lobby_link : ℕ → Text

-- `x or default` on a text and on a list.
abbrev or_text : Text → Text → Text
or_text [] default = default
or_text (c ∷ t) default = c ∷ t

abbrev or_default_scoring : List ScoringEntry → ℕ → List ScoringEntry
or_default_scoring [] num_teams = default_scoring num_teams
or_default_scoring (s ∷ ss) num_teams = s ∷ ss

module _ (fresh : Fresh) where
  new_team : ℕ → ℕ → Team
  new_team size j = record {
    id = fresh.team_id j;
    seed = j;
    team_name = fresh.team_name j;
    captain = none;
    players = empty_slots size;
    per_match = [];
    penalties = pos 0;
    bonus = pos 0;
    total = pos 0;
  }

  -- `for j in range(j, j + count)`
  new_teams : ℕ → ℕ → ℕ → List Team
  new_teams size zero j = []
  new_teams size (suc count) j = new_team size j ∷ new_teams size count (suc j)

  new_match : ℕ → ℕ → Match
  new_match lobby_max n = record {
    n = n;
    status = upcoming;
    winner_team_id = none;
    lobby_max = lobby_max;
    lobby_count = 0;
    magnetic_link = fresh.lobby_link n;
    result = none;
  }

  new_matches : ℕ → ℕ → ℕ → List Match
  new_matches lobby_max zero n = []
  new_matches lobby_max (suc count) n = new_match lobby_max n ∷ new_matches lobby_max count (suc n)

  unfoldable pub create_event : TournamentCreate → Event
  unfolding team_size new_team new_teams new_match new_matches
  create_event body =
      let size = team_size body.format in
      record {
        tournament = record {
          format = body.format;
          status = upcoming;
          num_teams = body.num_teams;
          num_matches = body.num_matches;
          current_match = 1;
          scoring = blob (or_default_scoring body.scoring body.num_teams);
          access_key = or_text body.access_key fresh.gen_access_key;
        };
        teams = new_teams size body.num_teams 1;
        matches = new_matches (body.num_teams * size) body.num_matches 1;
      }
