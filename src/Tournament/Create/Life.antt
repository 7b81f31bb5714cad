-- ===== src/Tournament/Create/Life.antt =====
-- The events that the service can reach: created, then changed by any sequence of successful calls.
use arena_rank_project.Prelude.{
  ℕ, zero, suc, ◌*◌, ◌≤◌, ◌≡◌, refl, ap, sym, ◌∙◌, Option, none, some, List, [], ◌∷◌, map, Text,
  arith, All, length, length-replicate, All-map, All-of_map, ◌==◌,
}
use mathlib.Core.List.{map-id}
use arena_rank_project.Prelude.Int.{ℤ}
use arena_rank_project.Prelude.Table.{Table}
use arena_rank_project.Prelude.Result.{ok}
use arena_rank_project.Tournament.Provision.{Python, team_size, empty}
use arena_rank_project.Tournament.Rows.{Status, Event, ResultEntry, Team, Match, Tournament}
use arena_rank_project.Tournament.Scoring.{TeamStanding}
use arena_rank_project.Tournament.Onboarding.{modify_first, create_team_in, join_team_in}
use arena_rank_project.Tournament.Onboarding.Rosters.{enrolments, seated_in-empty_slots}
use arena_rank_project.Tournament.Onboarding.Laws.{
  IsRoster, Seats, create_team_in-Seats, join_team_in-Seats,
}
use arena_rank_project.Tournament.Matches.{
  set_match_link_in, submit_result_in, write_rows, write_row, merge_penalties, add_penalty, advance,
  follow_match, close_match, standings_of,
}
use arena_rank_project.Tournament.Matches.Progress.{
  InProgress, numbers_from, set_match_link_in-InProgress, submit_result_in-InProgress,
  submit_result_in-ok, set_match_link_in-ok,
}
use arena_rank_project.Tournament.Create.{
  TournamentCreate, Fresh, create_event, new_team, new_teams, new_match, new_matches,
}

module _ (py : Python) where
  -- One successful call of the service on an event.
  pub data Step (ev : Event) : Event → Type 0 where
    creates_team :
        (key team_name riot_id : Text) {r : Text × Event}
        → create_team_in py key team_name riot_id ev ≡ ok r
        → Step ev r.1
    joins_team :
        (key team_id riot_id : Text) {r : Text × Event}
        → join_team_in py key team_id riot_id ev ≡ ok r
        → Step ev r.1
    sets_link :
        (n : ℕ) (link : Text) (st : Status) {r : Unit {0} × Event}
        → set_match_link_in n link st ev ≡ ok r
        → Step ev r.1
    submits :
        (n : ℕ) (results : List ResultEntry) (penalties : Option (Table Text ℤ))
        {r : Unit {0} × Event}
        → submit_result_in py n results penalties ev ≡ ok r
        → Step ev r.1

  pub data Reach (ev : Event) : Event → Type 0 where
    here : Reach ev ev
    next : {ev' ev'' : Event} → Reach ev ev' → Step ev' ev'' → Reach ev ev''

-- A change of the teams that leaves their players alone keeps a roster.
module _ (py : Python) (f : Team → Team) (same : (t : Team) → (f t).players ≡ t.players) where
  enrolments-map :
      (target : Text) (ts : List Team) → enrolments py target (map f ts) ≡ enrolments py target ts
  enrolments-map target [] = refl
  enrolments-map target (t ∷ ts) = rw (same t, enrolments-map target ts)

  IsRoster-map :
      (ev ev' : Event)
      → IsRoster py ev
      → ev'.tournament.format ≡ ev.tournament.format
      → ev'.teams ≡ map f ev.teams
      → IsRoster py ev'
  IsRoster-map ev ev' w fmt e = record {
    sized =
        rw (e, fmt)
          (All-of_map _ f ev.teams (All-map _ _ ev.teams (λ t h. ap length (same t) ∙ h) w.sized));
    unique = λ target. rw (e, enrolments-map target ev.teams) (w.unique target);
  }

module _ (py : Python) where
  add_penalty-players :
      (penalties : Table Text ℤ) (t : Team) → (add_penalty py penalties t).players ≡ t.players
  unfolding add_penalty
  add_penalty-players penalties t = ground arith

  write_rows-players :
      (rows : List TeamStanding) (t : Team) → (write_rows py rows t).players ≡ t.players
  unfolding write_rows write_row
  write_rows-players [] t = refl
  write_rows-players (r ∷ rows) t =
      write_rows-players rows (write_row py r t) ∙ unfold write_row in ground arith

  merge_penalties-IsRoster :
      (penalties : Option (Table Text ℤ)) (ev : Event)
      → IsRoster py ev
      → IsRoster py (record ev { teams = merge_penalties py penalties ev.teams })
  unfolding merge_penalties
  merge_penalties-IsRoster none ev w = w
  merge_penalties-IsRoster (some []) ev w = w
  merge_penalties-IsRoster (some (p ∷ ps)) ev w =
      IsRoster-map py (add_penalty py (p ∷ ps)) (add_penalty-players (p ∷ ps)) ev _ w refl refl

  -- The format never changes.
  advance-format : (n : ℕ) (ms : List Match) (t : Tournament) → (advance n ms t).format ≡ t.format
  unfolding advance
  advance-format n ms t = ground arith

  follow_match-format :
      (n : ℕ) (st : Status) (t : Tournament) → (follow_match n st t).format ≡ t.format
  unfolding follow_match
  follow_match-format n st t = ground arith

  -- The invariant of an event: its rosters, and its progress.
  pub record IsValid (ev : Event) : Type 0 where
    pub roster : IsRoster py ev
    pub progress : InProgress ev

  Seats-IsValid :
      (riot_id : Text) (ev ev' : Event) → InProgress ev → Seats py riot_id ev ev' → IsValid ev'
  Seats-IsValid riot_id ev ev' p s = record {
    roster = s.roster;
    progress = record {
      numbered = rw (s.same_matches, s.same_tournament) p.numbered;
      current_low = rw s.same_tournament p.current_low;
      current_high = rw s.same_tournament p.current_high;
    };
  }

  Step-IsValid : {ev ev' : Event} → Step py ev ev' → IsValid ev → IsValid ev'
  Step-IsValid {ev} {ev'} (creates_team key name riot_id h) w =
      Seats-IsValid riot_id ev ev' w.progress
        (create_team_in-Seats py key name riot_id ev w.roster h)
  Step-IsValid {ev} {ev'} (joins_team key team_id riot_id h) w =
      Seats-IsValid riot_id ev ev' w.progress
        (join_team_in-Seats py key team_id riot_id ev w.roster h)
  Step-IsValid {ev} {ev'} (sets_link n link st h) w =
      let (lo, hi, e) = set_match_link_in-ok n link st ev h in
      record {
        roster =
            IsRoster-map py (λ t. t) (λ t. refl) ev ev' w.roster
              (rw e (follow_match-format n st ev.tournament)) (rw e (sym (map-id ev.teams)));
        progress = set_match_link_in-InProgress n link st ev w.progress h;
      }
  Step-IsValid {ev} {ev'} (submits n results penalties h) w =
      let (lo, hi, ms, t, ts) = submit_result_in-ok py n results penalties ev h in
      let closed = modify_first (λ m. m.n == n) (close_match py results) ev.matches in
      let merged = merge_penalties py penalties ev.teams in
      let rows = standings_of py ev.tournament closed merged in
      record {
        roster =
            IsRoster-map py (write_rows py rows) (write_rows-players rows)
              (record ev { teams = merged }) ev' (merge_penalties-IsRoster penalties ev w.roster)
              (rw t (advance-format n closed ev.tournament)) ts;
        progress = submit_result_in-InProgress py n results penalties ev w.progress h;
      }

  new_teams-valid :
      (fresh : Fresh) (size count j : ℕ)
      → All (λ t. length t.players ≡ size) (new_teams fresh size count j)
        × ((target : Text) → enrolments py target (new_teams fresh size count j) ≡ 0)
  unfolding new_teams new_team
  new_teams-valid fresh size zero j = (tt, λ target. refl)
  new_teams-valid fresh size (suc count) j =
      let (sized, none_yet) = new_teams-valid fresh size count (suc j) in
      (
        (length-replicate size empty, sized),
        λ target. omega (arith, none_yet target, (seated_in-empty_slots py target size).0),
      )

  numbers-new_matches :
      (fresh : Fresh) (lobby_max count n : ℕ)
      → map (λ m. m.n) (new_matches fresh lobby_max count n) ≡ numbers_from n count
  unfolding new_matches new_match
  numbers-new_matches fresh lobby_max zero n = refl
  numbers-new_matches fresh lobby_max (suc count) n =
      ap (◌∷◌ n) (numbers-new_matches fresh lobby_max count (suc n))

  create_event-IsValid :
      (fresh : Fresh) (body : TournamentCreate)
      → 1 ≤ body.num_matches
      → IsValid (create_event fresh body)
  unfolding create_event
  create_event-IsValid fresh body h =
      let size = team_size body.format in
      let (sized, none_yet) = new_teams-valid fresh size body.num_teams 1 in
      record {
        roster = record { sized = sized; unique = λ target. omega (arith, none_yet target) };
        progress = record {
          numbered = numbers-new_matches fresh (body.num_teams * size) body.num_matches 1;
          current_low = omega arith;
          current_high = h;
        };
      }

  -- Whatever successful calls follow the creation of a tournament with at least one match, in any
  -- order: every team has as many slots as the format says, no Riot ID is enrolled twice, the matches
  -- are numbered from 1, and the current match is one of them.
  pub Reach-IsValid :
      (fresh : Fresh) (body : TournamentCreate) {ev : Event}
      → 1 ≤ body.num_matches
      → Reach py (create_event fresh body) ev
      → IsValid ev
  Reach-IsValid fresh body h here = create_event-IsValid fresh body h
  Reach-IsValid fresh body h (next r s) = Step-IsValid s (Reach-IsValid fresh body h r)
