-- ===== src/Tournament/Tests.antt =====
-- A tournament of two teams and two matches, its calls, and the theorems at these inputs.
use arena_rank_project.Prelude.{
  ◌⊎◌, ◌<◌, ℕ, ◌≡◌, ◌≤◌, refl, true, Option, none, some, List, [], ◌∷◌, map, Text, arith, ◌≢◌, ◌↔◌,
  inl, inr, length, all, text_eq,
}
use mathlib.Core.List.{Perm}
use arena_rank_project.Prelude.Int.{ℤ, pos, ◌+ℤ◌, ◌-ℤ◌}
use arena_rank_project.Prelude.Table.{Table, lookup_or, text_instance}
use arena_rank_project.Prelude.Sort.{sort_by}
use arena_rank_project.Prelude.Result.{Result, ok, err}
use arena_rank_project.Tournament.Provision.{Python, default_scoring}
use arena_rank_project.Tournament.Rows.{live, ended, Error, Event, Team, ResultEntry, Match}
use arena_rank_project.Tournament.Scoring.{
  MatchResult, TeamStanding, ended_from, standing_of, compute_standings, ranks_before, no_placement,
}
use arena_rank_project.Tournament.Scoring.Laws.{
  standing_of-total, compute_standings-IsRanked, IsRanked, ended_results, total_points, total_bonus,
}
use arena_rank_project.Tournament.Scoring.LastMatch.{standing_of-last_placement, up_to, placed_or}
use arena_rank_project.Tournament.Onboarding.{create_team_in, join_team_in}
use arena_rank_project.Tournament.Onboarding.Laws.{
  IsRoster, Seats, create_team_in-Seats, join_team_in-Seats,
}
use arena_rank_project.Tournament.Matches.{
  submit_result_in, match_or_422, is_ended, shown_standings,
}
use arena_rank_project.Tournament.Matches.Progress.{
  InProgress, match_or_422_total, submit_result_in_earlier, submit_result_in_last,
}
use arena_rank_project.Tournament.Matches.Shown.{shown_standings_tied}
use arena_rank_project.Tournament.Create.{TournamentCreate, Fresh, create_event}
use arena_rank_project.Tournament.Create.Life.{
  Reach, here, next, creates_team, joins_team, submits, IsValid, Reach-IsValid,
}

-- A UUID is shown as one character.
abbrev parse_one : Text → Option ℕ
parse_one [] = none
parse_one (c ∷ []) = some c
parse_one (c ∷ d ∷ t) = none

abbrev python : Python
python = record {
  strip_upper = λ s. s;
  parse_uuid = parse_one;
  str_uuid = λ n. n ∷ [];
  sha256 = length;
}

abbrev supplied : Fresh
supplied = record {
  team_id = λ j. j;
  gen_access_key = b'k' ∷ [];
  team_name = λ j. j ∷ [];
  lobby_link = λ n. [];
}

abbrev request : TournamentCreate
request = record { num_teams = 2; num_matches = 2; format = []; access_key = []; scoring = [] }

abbrev event_of : {A : Type 0} → Event → Result Error (A × Event) → Event
event_of ev (ok r) = r.1
event_of ev (err e) = ev

abbrev first_event : Event
first_event = create_event supplied request

abbrev ana : Text
ana = b'a' ∷ b'#' ∷ b'1' ∷ []

abbrev bia : Text
bia = b'b' ∷ b'#' ∷ b'2' ∷ []

abbrev with_ana : Event
with_ana = event_of first_event (create_team_in python (b'k' ∷ []) (b't' ∷ []) ana first_event)

abbrev with_bia : Event
with_bia = event_of with_ana (join_team_in python (b'k' ∷ []) (1 ∷ []) bia with_ana)

created : create_team_in python (b'k' ∷ []) (b't' ∷ []) ana first_event ≡ ok (1 ∷ [], with_ana)
unfolding create_team_in create_event
created = refl

joined : join_team_in python (b'k' ∷ []) (1 ∷ []) bia with_ana ≡ ok (1 ∷ [], with_bia)
unfolding join_team_in create_team_in create_event
joined = refl

-- The second team wins the first match, and the first one the second, with a bravura bonus over the cap.
abbrev first_result : List ResultEntry
first_result =
    record { team_id = 2 ∷ []; placement = pos 1; bravura = pos 0 }
    ∷ record { team_id = 1 ∷ []; placement = pos 2; bravura = pos 3 }
    ∷ []

abbrev second_result : List ResultEntry
second_result =
    record { team_id = 1 ∷ []; placement = pos 1; bravura = pos 9 }
    ∷ record { team_id = 2 ∷ []; placement = pos 2; bravura = pos 0 }
    ∷ []

abbrev deducted : Option (Table Text ℤ)
deducted = some ((1 ∷ [], pos 2) ∷ [])

abbrev after_first : Event
after_first = event_of with_bia (submit_result_in python 1 first_result none with_bia)

abbrev after_second : Event
after_second = event_of after_first (submit_result_in python 2 second_result deducted after_first)

submitted_first : submit_result_in python 1 first_result none with_bia ≡ ok (tt, after_first)
unfolding submit_result_in join_team_in create_team_in create_event
submitted_first = refl

submitted_second :
    submit_result_in python 2 second_result deducted after_first ≡ ok (tt, after_second)
unfolding submit_result_in join_team_in create_team_in create_event
submitted_second = refl

totals_are : map (λ t. t.total) after_second.teams ≡ pos 8 ∷ pos 3 ∷ []
unfolding submit_result_in join_team_in create_team_in create_event ◌-ℤ◌ ◌+ℤ◌ default_scoring
totals_are = refl

ends_with_last : after_second.tournament.status ≡ ended
unfolding submit_result_in join_team_in create_team_in create_event
ends_with_last = refl

reached : Reach python first_event after_second
reached =
    next
      (next
        (next (next here (creates_team (b'k' ∷ []) (b't' ∷ []) ana created))
          (joins_team (b'k' ∷ []) (1 ∷ []) bia joined))
        (submits 1 first_result none submitted_first))
      (submits 2 second_result deducted submitted_second)

Reach-IsValid_example : IsValid python after_second
Reach-IsValid_example =
    Reach-IsValid python supplied request {ev = after_second} (omega arith) reached

first-IsRoster : IsRoster python first_event
first-IsRoster =
    (Reach-IsValid python supplied request {ev = first_event} (omega arith) here).roster

ana-IsRoster : IsRoster python with_ana
ana-IsRoster =
    (Reach-IsValid python supplied request {ev = with_ana} (omega arith)
      (next here (creates_team (b'k' ∷ []) (b't' ∷ []) ana created))).roster

create_team_in-Seats_example : Seats python ana first_event with_ana
create_team_in-Seats_example =
    create_team_in-Seats python (b'k' ∷ []) (b't' ∷ []) ana first_event {r = (1 ∷ [], with_ana)}
      first-IsRoster created

join_team_in-Seats_example : Seats python bia with_ana with_bia
join_team_in-Seats_example =
    join_team_in-Seats python (b'k' ∷ []) (1 ∷ []) bia with_ana {r = (1 ∷ [], with_bia)}
      ana-IsRoster joined

one_before_last : 1 < with_bia.tournament.num_matches
unfolding join_team_in create_team_in create_event
one_before_last = omega arith

open_before_first : with_bia.tournament.status ≢ ended
unfolding join_team_in create_team_in create_event
open_before_first = λ e. cc

open_before_second : after_first.tournament.status ≢ ended
unfolding submit_result_in join_team_in create_team_in create_event
open_before_second = λ e. cc

submit_result_in_earlier_case :
    (after_first.tournament.status ≡ live) × (after_first.tournament.current_match ≡ 2)
submit_result_in_earlier_case =
    submit_result_in_earlier python 1 first_result none with_bia {r = (tt, after_first)}
      submitted_first one_before_last open_before_first

submit_result_in_last_case :
    (after_second.tournament.current_match ≡ after_first.tournament.current_match)
    × ((after_second.tournament.status ≡ ended)
        ↔ (all (λ m. is_ended m.status) after_second.matches ≡ true))
unfolding submit_result_in join_team_in text_eq create_team_in create_event
submit_result_in_last_case =
    submit_result_in_last python second_result deducted after_first {r = (tt, after_second)}
      submitted_second open_before_second

in_progress : InProgress with_bia
in_progress =
    (Reach-IsValid python supplied request {ev = with_bia} (omega arith) (
      next (next here (creates_team (b'k' ∷ []) (b't' ∷ []) ana created))
        (joins_team (b'k' ∷ []) (1 ∷ []) bia joined))).progress

match_or_422_total_case :
    (let r = match_or_422 with_bia.matches 3 with_bia.tournament.num_matches in
      ((1 ≤ 3) × (3 ≤ with_bia.tournament.num_matches) × ((mm : Match) × (r ≡ ok mm)))
      ⊎ (((◌≡◌ {A = ℕ} 3 0) ⊎ (with_bia.tournament.num_matches < 3))
          × (r ≡ err Error.match_out_of_range)))
match_or_422_total_case = match_or_422_total with_bia 3 in_progress

-- The results of two matches as the scoring engine takes them: the second one has a bonus over the cap.
abbrev one : Text
one = 1 ∷ []

abbrev two : Text
two = 2 ∷ []

abbrev first_match : MatchResult
first_match = record { placements = (one, pos 2) ∷ (two, pos 1) ∷ []; bravura = (one, pos 3) ∷ [] }

abbrev second_match : MatchResult
second_match = record { placements = (one, pos 1) ∷ (two, pos 2) ∷ []; bravura = (one, pos 9) ∷ [] }

abbrev points : Table ℤ ℤ
points = (pos 1, pos 2) ∷ (pos 2, pos 1) ∷ []

abbrev played : List (Option MatchResult)
played = some first_match ∷ none ∷ some second_match ∷ []

standing_of-total_example :
    (let row = standing_of (ended_from 0 played) points ((one, pos 2) ∷ []) one in
      (row.total
        ≡ total_points points one (ended_results played)
          +ℤ total_bonus one (ended_results played)
          -ℤ lookup_or one (pos 0) ((one, pos 2) ∷ []))
      × (row.bonus ≡ total_bonus one (ended_results played))
      × (row.penalties ≡ lookup_or one (pos 0) ((one, pos 2) ∷ [])))
standing_of-total_example = standing_of-total played points ((one, pos 2) ∷ []) one

standing_of-last_placement_case :
    (standing_of
      (ended_from 0 (up_to (some first_match ∷ none ∷ []) second_match 1))
      points
      []
      one).last_placement
    ≡ placed_or one second_match no_placement
standing_of-last_placement_case =
    standing_of-last_placement points [] one (some first_match ∷ none ∷ []) second_match 1

compute_standings-IsRanked_example :
    (let rows = compute_standings (two ∷ one ∷ []) played points [] in
      Perm rows (map (standing_of (ended_from 0 played) points []) (two ∷ one ∷ []))
      × IsRanked rows)
compute_standings-IsRanked_example = compute_standings-IsRanked (two ∷ one ∷ []) played points []

-- Two teams tied on 3 points, of which the second has won a match.
abbrev stored : ℕ → Team
stored j = record {
  id = j;
  seed = j;
  team_name = [];
  captain = none;
  players = [];
  per_match = [];
  penalties = pos 0;
  bonus = pos 0;
  total = pos 3;
}

abbrev tied : ℕ → ℕ → TeamStanding
tied j firsts = record {
  team_id = j ∷ [];
  per_match = [];
  bonus = pos 0;
  penalties = pos 0;
  total = pos 3;
  first_places = firsts;
  last_placement = pos 1;
}

tied_case :
    (shown_standings (stored 1 ∷ stored 2 ∷ []) ≡ stored 1 ∷ stored 2 ∷ [])
    × (sort_by ranks_before (tied 1 0 ∷ tied 2 1 ∷ []) ≡ tied 2 1 ∷ tied 1 0 ∷ [])
tied_case =
    shown_standings_tied (stored 1) (stored 2) (tied 1 0) (tied 2 1) refl refl refl
      (inr (inl (refl, omega arith)))
