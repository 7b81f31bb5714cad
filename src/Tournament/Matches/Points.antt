-- ===== src/Tournament/Matches/Points.antt =====
-- What `submit_result` of backend/arena/tournaments/service.py writes into the teams.
use arena_rank_project.Prelude.{◌≡◌, List}
use arena_rank_project.Prelude.Int.{◌+ℤ◌, ◌-ℤ◌}
use arena_rank_project.Prelude.Table.{Table, text_instance}
use arena_rank_project.Tournament.Provision.{Python, scoring_to_dict}
use arena_rank_project.Tournament.Scoring.Laws.{ended_results, total_points, total_bonus}
use arena_rank_project.Tournament.Rows.{Tournament, Team, Match}
use arena_rank_project.Tournament.Matches.{build_match_results, scoring_list}

module _ (py : Python) where
  -- The declarative score of a team over the matches that have ended: points, bonus, penalties.
  abbrev pub IsScored : Tournament → List Match → Team → Type 0
  IsScored tournament matches t =
      let played = ended_results (build_match_results matches) in
      let scoring = scoring_to_dict (scoring_list tournament) in
      let tid = py.str_uuid t.id in
      (t.total ≡ total_points scoring tid played +ℤ total_bonus tid played -ℤ t.penalties)
      × (t.bonus ≡ total_bonus tid played)
