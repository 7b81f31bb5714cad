-- ===== src/Processing/Inputs.antt =====
-- `_load_states`, `_build_match_input` and `_load_champion_stats` of backend/arena/services/rating_service.py.
use arena_rank_project.Prelude.{
  ℕ, Bool, true, false, List, [], ◌∷◌, ◌++◌, ◌&&◌, if◌then◌else◌, map, any,
}
use arena_rank_project.Prelude.{◌==◌ as nat_beq}
use arena_rank_project.Prelude.Int.{pos}
use arena_rank_project.Prelude.Table.{Table, nat_eq, lookup_or, insert}
use arena_rank_project.Prelude.Result.{Result, ok, ◌>>=◌}
use arena_rank_project.Floats.{Floats}
use arena_rank_project.Rating.Params.{RatingParams}
use arena_rank_project.Rating.Engine.{ParticipantInput, TeamInput, MatchInput, PlayerRatingResult}
use arena_rank_project.Season.Rows.{PlayerSeason}
use arena_rank_project.Season.Reset.{state_of}
use arena_rank_project.Processing.Rows.{
  RawParticipant, RawMatch, IntegrityVerdict, boosting_for, party_for, is_eligible, ChampionStat,
}
use arena_rank_project.Processing.StateBefore.{rating_of}
use arena_rank_project.Processing.Persist.{ProcessError, get_item, pair_instance}

module _ (fl : Floats) where
  open fl use {Float}

  -- The row of a player's first match of the season.
  unfoldable pub fresh_player : RatingParams fl → ℕ → ℕ → PlayerSeason fl
  fresh_player params sid pid = record {
    player_id = pid;
    season_id = sid;
    cr = rating_of fl params params.mu0 params.sigma0;
    mu = params.mu0;
    sigma = params.sigma0;
    matches_played = 0;
    placement_matches_remaining = pos params.placement_match_count;
    is_provisional = true;
    peak_cr = rating_of fl params params.mu0 params.sigma0;
    current_streak = pos 0;
  }

  -- The stored row of the player, or a fresh one.
  unfoldable pub load_state : RatingParams fl → ℕ → ℕ → List (PlayerSeason fl) → PlayerSeason fl
  load_state params sid pid [] = fresh_player params sid pid
  load_state params sid pid (row ∷ rows) =
      let rest = load_state params sid pid rows in
      if nat_beq row.season_id sid && nat_beq row.player_id pid then row else rest

  -- `_load_states`
  unfoldable pub load_states :
      RatingParams fl → ℕ → List (PlayerSeason fl) → List ℕ → Table ℕ (PlayerSeason fl)
  load_states params sid rows pids = map (λ pid. (pid, load_state params sid pid rows)) pids

  -- `teams_by_id[p.team_id].append(p)`, for each participant
  unfoldable pub teams_by_id :
      List RawParticipant → Table ℕ (List RawParticipant) → Table ℕ (List RawParticipant)
  teams_by_id [] d = d
  teams_by_id (p ∷ ps) d =
      teams_by_id ps (insert p.team_id (lookup_or p.team_id [] d ++ (p ∷ [])) d)

  unfoldable pub placement_by_team : List RawParticipant → Table ℕ ℕ → Table ℕ ℕ
  placement_by_team [] d = d
  placement_by_team (p ∷ ps) d = placement_by_team ps (insert p.team_id p.placement d)

  abbrev pub input_of : IntegrityVerdict fl → RawParticipant → PlayerSeason fl → ParticipantInput fl
  input_of verdict p ps = record {
    player_id = p.player_id;
    state = state_of fl ps;
    eligible_for_progression = is_eligible fl verdict p.player_id;
    boosting_penalty_factor = boosting_for fl verdict p.player_id;
    party_penalty_factor = party_for fl verdict p.player_id;
  }

  unfoldable pub participant_inputs :
      IntegrityVerdict fl
      → Table ℕ (PlayerSeason fl)
      → List RawParticipant
      → Result ProcessError (List (ParticipantInput fl))
  participant_inputs verdict states [] = ok []
  participant_inputs verdict states (p ∷ ps) = do
    row ← get_item p.player_id states
    rest ← participant_inputs verdict states ps
    ok (input_of verdict p row ∷ rest)

  unfoldable pub team_inputs :
      IntegrityVerdict fl
      → Table ℕ (PlayerSeason fl)
      → Table ℕ ℕ
      → Table ℕ (List RawParticipant)
      → Result ProcessError (List (TeamInput fl))
  team_inputs verdict states placements [] = ok []
  team_inputs verdict states placements ((team_id, parts) ∷ d) = do
    participants ← participant_inputs verdict states parts
    placement ← get_item team_id placements
    rest ← team_inputs verdict states placements d
    ok (record { team_id = team_id; placement = placement; participants = participants } ∷ rest)

  -- `_build_match_input`
  unfoldable pub build_match_input :
      RatingParams fl
      → RawMatch
      → IntegrityVerdict fl
      → Table ℕ (PlayerSeason fl)
      → Result ProcessError (MatchInput fl)
  build_match_input params m verdict states = do
    teams ←
        team_inputs verdict states (placement_by_team m.participants [])
          (teams_by_id m.participants [])
    ok record { match_id = m.match_id; teams = teams; params = params }

  abbrev has_key : List (ℕ × ℕ) → ChampionStat fl → Bool
  has_key keys cs = any (λ k. nat_beq cs.player_id k.0 && nat_beq cs.champion_id k.1) keys

  -- The pairs of an eligible player and the champion that was played.
  unfoldable pub stat_keys :
      Table ℕ RawParticipant → List (PlayerRatingResult fl) → Result ProcessError (List (ℕ × ℕ))
  stat_keys people [] = ok []
  stat_keys people (pr ∷ prs) =
      let rest = stat_keys people prs in
      if pr.eligible
      then (do
        p ← get_item pr.player_id people
        keys ← rest
        ok ((pr.player_id, p.champion_id) ∷ keys))
      else rest

  unfoldable pub select_stats :
      ℕ → List (ℕ × ℕ) → List (ChampionStat fl) → Table (ℕ × ℕ) (ChampionStat fl)
  select_stats sid keys [] = []
  select_stats sid keys (cs ∷ rows) =
      let rest = select_stats sid keys rows in
      if nat_beq cs.season_id sid && has_key keys cs
      then ((cs.player_id, cs.champion_id), cs) ∷ rest
      else rest

  -- `_load_champion_stats`
  unfoldable pub load_champion_stats :
      ℕ → Bool → List (ℕ × ℕ) → List (ChampionStat fl) → Table (ℕ × ℕ) (ChampionStat fl)
  load_champion_stats sid true keys rows = []
  load_champion_stats sid false keys rows = select_stats sid keys rows
