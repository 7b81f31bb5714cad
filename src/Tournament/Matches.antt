-- ===== src/Tournament/Matches.antt =====
-- The match mutations of the administrator, backend/arena/tournaments/service.py: `set_match_link` and
-- `submit_result`, and the standings that the detail page shows. The match number comes from the path;
-- a negative one is refused just as 0 is.
pub mod Progress
pub mod Writes
pub mod Penalties
pub mod Shown
pub mod Points
use arena_rank_project.Prelude.{
  ℕ, suc, ◌+◌, Bool, true, false, Option, none, some, List, [], ◌∷◌, map, ◌||◌, ◌&&◌, if◌then◌else◌,
  ltb, leb, ◌==◌, Text, text_eq, find, all,
}
use arena_rank_project.Prelude.Int.{ℤ, pos, ◌+ℤ◌, eqb_ℤ, ltb_ℤ}
use arena_rank_project.Prelude.Table.{Table, lookup, lookup_or, insert, text_instance, nat_eq}
use arena_rank_project.Prelude.Sort.{sort_by}
use arena_rank_project.Prelude.Result.{Result, ok, err, ◌>>=◌, ◌>>◌, raise_if}
use arena_rank_project.Tournament.Provision.{Python, ScoringEntry, default_scoring, scoring_to_dict}
use arena_rank_project.Tournament.Scoring.{MatchResult, TeamStanding, compute_standings}
use arena_rank_project.Tournament.Rows.{
  Status, upcoming, live, ended, Error, ScoringColumn, bare, blob, other, Tournament, Team,
  ResultEntry, Match, Event, Db, transaction,
}
use arena_rank_project.Tournament.Onboarding.{modify_first, or_raise}

abbrev pub is_upcoming : Status → Bool
is_upcoming upcoming = true
is_upcoming live = false
is_upcoming ended = false

abbrev pub is_ended : Status → Bool
is_ended upcoming = false
is_ended live = false
is_ended ended = true

unfoldable pub match_or_422 : List Match → ℕ → ℕ → Result Error Match
match_or_422 matches n num_matches = do
  raise_if (ltb n 1 || ltb num_matches n) Error.match_out_of_range
  or_raise (find (λ mm. mm.n == n) matches) Error.unknown_match

-- The coherence rules of `set_match_link`.
unfoldable pub follow_match : ℕ → Status → Tournament → Tournament
follow_match n upcoming t = t
follow_match n live t = record t {
  status = if is_upcoming t.status then live else t.status;
  current_match = n;
}
follow_match n ended t = if leb (n + 1) t.num_matches then record t { current_match = n + 1 } else t

unfoldable pub set_match_link_in : ℕ → Text → Status → Event → Result Error (Unit {0} × Event)
unfolding match_or_422 follow_match
set_match_link_in n magnetic_link match_status ev = do
  mm ← match_or_422 ev.matches n ev.tournament.num_matches
  ok (
    tt,
    record ev {
      tournament = follow_match n match_status ev.tournament;
      matches =
          modify_first (λ found. found.n == n)
            (λ found. record found { magnetic_link = magnetic_link; status = match_status })
            ev.matches;
    },
  )

-- `_scoring_list`: the table that the column holds, or the default one.
unfoldable pub scoring_list : Tournament → List ScoringEntry
scoring_list t = elim (t.scoring) [
  | bare ss ↦ ss
  | blob ss ↦ elim ss [ [] ↦ default_scoring t.num_teams | ◌∷◌ s rest ↦ s ∷ rest ]
  | other ↦ default_scoring t.num_teams
]

-- The first entry with placement 1, if its team id is a UUID.
unfoldable pub winner_uuid : Python → List ResultEntry → Option ℕ
winner_uuid py [] = none
winner_uuid py (r ∷ rs) =
    if eqb_ℤ r.placement (pos 1) then py.parse_uuid r.team_id else winner_uuid py rs

-- One entry of a stored result, put into the two dicts; a bravura of 0 is left out.
unfoldable pub add_entry : MatchResult → ResultEntry → MatchResult
add_entry d e = record {
  placements = insert e.team_id e.placement d.placements;
  bravura = if eqb_ℤ e.bravura (pos 0) then d.bravura else insert e.team_id e.bravura d.bravura;
}

unfoldable pub add_entries : MatchResult → List ResultEntry → MatchResult
unfolding add_entry
add_entries d [] = d
add_entries d (e ∷ es) = add_entries (add_entry d e) es

-- An ended match counts if it has a result with an entry.
unfoldable pub match_result : Match → Option MatchResult
unfolding add_entries
match_result mm = elim (mm.result) [
  | none ↦ none
  | some es ↦ elim es [
    | [] ↦ none
    | ◌∷◌ r rs ↦
        if is_ended mm.status
        then some (add_entries (record { placements = []; bravura = [] }) (r ∷ rs))
        else none
  ]
]

unfoldable pub build_match_results : List Match → List (Option MatchResult)
unfolding match_result
build_match_results = map match_result

-- The tournament becomes live, moves on, or closes after its last match.
unfoldable pub advance : ℕ → List Match → Tournament → Tournament
advance n matches t =
    let status = if is_upcoming t.status then live else t.status in
    if leb (n + 1) t.num_matches
    then record t { status = status; current_match = n + 1 }
    else if all (λ mm. is_ended mm.status) matches
    then record t { status = ended }
    else record t { status = status }

module _ (py : Python) where
  -- `t.penalties += add`, where the submission has a penalty for the team that is not 0.
  unfoldable pub add_penalty : Table Text ℤ → Team → Team
  add_penalty penalties t = elim (lookup (py.str_uuid t.id) penalties) [
    | none ↦ t
    | some add ↦ if eqb_ℤ add (pos 0) then t else record t { penalties = t.penalties +ℤ add }
  ]

  -- `if penalties:` is false for None and for an empty dict.
  unfoldable pub merge_penalties : Option (Table Text ℤ) → List Team → List Team
  unfolding add_penalty
  merge_penalties none teams = teams
  merge_penalties (some []) teams = teams
  merge_penalties (some (p ∷ ps)) teams = map (add_penalty (p ∷ ps)) teams

  -- `{str(t.id): t.penalties for t in teams}`
  pub penalty_map : List Team → Table Text ℤ → Table Text ℤ
  penalty_map [] d = d
  penalty_map (t ∷ ts) d = penalty_map ts (insert (py.str_uuid t.id) t.penalties d)

  -- `by_id[sr.team_id]` is the team of that id, which is a primary key.
  unfoldable pub write_row : TeamStanding → Team → Team
  write_row sr t =
      if text_eq (py.str_uuid t.id) sr.team_id
      then record t { per_match = sr.per_match; bonus = sr.bonus; total = sr.total }
      else t

  unfoldable pub write_rows : List TeamStanding → Team → Team
  unfolding write_row
  write_rows [] t = t
  write_rows (sr ∷ rows) t = write_rows rows (write_row sr t)

  -- The standings over the locked rows.
  unfoldable pub standings_of : Tournament → List Match → List Team → List TeamStanding
  unfolding compute_standings scoring_list build_match_results penalty_map scoring_to_dict
  standings_of tournament matches teams =
      compute_standings (map (λ t. py.str_uuid t.id) teams) (build_match_results matches)
        (scoring_to_dict (scoring_list tournament)) (penalty_map teams [])

  unfoldable pub close_match : List ResultEntry → Match → Match
  unfolding winner_uuid
  close_match results mm = record mm {
    result = some results;
    status = ended;
    winner_team_id = winner_uuid py results;
  }

  unfoldable pub submit_result_in :
      ℕ → List ResultEntry → Option (Table Text ℤ) → Event → Result Error (Unit {0} × Event)
  unfolding match_or_422 close_match merge_penalties standings_of write_rows advance
  submit_result_in n results penalties ev = do
    mm ← match_or_422 ev.matches n ev.tournament.num_matches
    let matches = modify_first (λ found. found.n == n) (close_match results) ev.matches
    let teams = merge_penalties penalties ev.teams
    let rows = standings_of ev.tournament matches teams
    ok (
      tt,
      record {
        tournament = advance n matches ev.tournament;
        teams = map (write_rows rows) teams;
        matches = matches;
      },
    )

  unfoldable pub set_match_link : Db → Text → ℕ → Text → Status → Result Error (Unit {0} × Db)
  unfolding set_match_link_in transaction
  set_match_link db tournament_id n magnetic_link match_status =
      transaction db (py.parse_uuid tournament_id) (set_match_link_in n magnetic_link match_status)

  unfoldable pub submit_result :
      Db → Text → ℕ → List ResultEntry → Option (Table Text ℤ) → Result Error (Unit {0} × Db)
  unfolding submit_result_in transaction
  submit_result db tournament_id n results penalties =
      transaction db (py.parse_uuid tournament_id) (submit_result_in n results penalties)

-- The order of the standings in `_project`: by total alone.
unfoldable pub shown_standings : List Team → List Team
unfolding sort_by
shown_standings = sort_by (λ a b. ltb_ℤ b.total a.total)
