-- ===== src/Tournament/Onboarding.antt =====
-- The onboarding of players, backend/arena/tournaments/service.py: `create_team`, `join_team` and the
-- access check. An object that a query returned and that is then mutated is the first row that fits.
pub mod Rosters
pub mod Laws
use arena_rank_project.Prelude.{
  ℕ, zero, suc, ◌-◌, Bool, true, false, not, Option, none, some, List, [], ◌∷◌, map, ◌&&◌,
  if◌then◌else◌, ◌==◌, Text, text_eq, find, any,
}
use arena_rank_project.Prelude.Table.{lookup, nat_eq}
use arena_rank_project.Prelude.Result.{Result, ok, err, ◌>>=◌, ◌>>◌, raise_if}
use arena_rank_project.Tournament.Provision.{
  Python, Slot, empty, filled, team_size, normalize_key, make_player_slot, empty_slots, is_empty,
  count_real_players,
}
use arena_rank_project.Tournament.Rows.{Error, Tournament, Team, Event, Db, transaction}

-- The first row that passes the test, mutated in place.
abbrev pub modify_first {ℓ} : {A : Type ℓ} → (A → Bool) → (A → A) → List A → List A
modify_first p f [] = []
modify_first p f (x ∷ xs) = if p x then f x ∷ xs else x ∷ modify_first p f xs

-- `raise` where a `next(..., None)` found nothing.
abbrev pub or_raise {ℓ} : {A : Type ℓ} → Option A → Error → Result Error A
or_raise none e = err e
or_raise (some a) e = ok a

-- `rid and ...` is false for an empty id.
abbrev pub is_nonempty : Text → Bool
is_nonempty [] = false
is_nonempty (c ∷ t) = true

pub record AccessTeamSlot : Type 0 where
  pub team_id : Text
  pub team_name : Text
  pub open_slots : ℕ

abbrev pub is_free : Team → Bool
is_free t = count_real_players t.players == 0

-- `captain["name"]`
abbrev pub name_of : Slot → Option Text
name_of empty = none
name_of (filled name handle rid avatar) = some name

-- `t.id == team_pk`, where `team_pk` is None for a text that is no UUID.
abbrev pub has_id : Option ℕ → Team → Bool
has_id none t = false
has_id (some pk) t = t.id == pk

module _ (py : Python) where
  -- The key check that `_lock_tournament` makes.
  unfoldable pub check_key : Tournament → Text → Result Error (Unit {0})
  unfolding normalize_key
  check_key t key =
      raise_if (not (text_eq (normalize_key py t.access_key) (normalize_key py key)))
        Error.invalid_key

  -- Whether a slot holds the Riot ID `target`, in upper case.
  unfoldable pub holds : Text → Slot → Bool
  holds target empty = false
  holds target (filled name handle rid avatar) =
      is_nonempty rid && text_eq (py.strip_upper rid) target

  unfoldable pub is_enrolled : Text → List Team → Bool
  unfolding holds
  is_enrolled target teams = any (λ t. any (holds target) t.players) teams

  unfoldable pub reject_duplicate_riot_id : List Team → Text → Result Error (Unit {0})
  unfolding is_enrolled
  reject_duplicate_riot_id teams riot_id =
      raise_if (is_enrolled (py.strip_upper riot_id) teams) Error.duplicate_riot_id

  -- The free team is named, and its first slot is the captain's.
  unfoldable pub claim : Tournament → Text → Text → Team → Team
  unfolding make_player_slot team_size
  claim tournament team_name riot_id t =
      let captain = make_player_slot py riot_id in
      record t {
        team_name = team_name;
        captain = name_of captain;
        players = captain ∷ empty_slots (team_size tournament.format - 1);
      }

  unfoldable pub create_team_in : Text → Text → Text → Event → Result Error (Text × Event)
  unfolding check_key reject_duplicate_riot_id claim count_real_players
  create_team_in key team_name riot_id ev = do
    check_key ev.tournament key
    reject_duplicate_riot_id ev.teams riot_id
    free ← or_raise (find is_free ev.teams) Error.no_free_team
    ok (
      py.str_uuid free.id,
      record ev { teams = modify_first is_free (claim ev.tournament team_name riot_id) ev.teams },
    )

  unfoldable pub create_team : Db → Text → Text → Text → Text → Result Error (Text × Db)
  unfolding create_team_in transaction
  create_team db tournament_id key team_name riot_id =
      transaction db (py.parse_uuid tournament_id) (create_team_in key team_name riot_id)

  -- The first empty slot is filled.
  unfoldable pub seat : Text → Team → Team
  unfolding make_player_slot
  seat riot_id t = record t {
    players = modify_first is_empty (λ _. make_player_slot py riot_id) t.players;
  }

  unfoldable pub join_team_in : Text → Text → Text → Event → Result Error (Text × Event)
  unfolding check_key reject_duplicate_riot_id seat
  join_team_in key team_id riot_id ev = do
    let team_pk = py.parse_uuid team_id
    check_key ev.tournament key
    reject_duplicate_riot_id ev.teams riot_id
    team ← or_raise (find (has_id team_pk) ev.teams) Error.unknown_team
    slot ← or_raise (find is_empty team.players) Error.team_full
    ok (
      py.str_uuid team.id,
      record ev { teams = modify_first (has_id team_pk) (seat riot_id) ev.teams },
    )

  unfoldable pub join_team : Db → Text → Text → Text → Text → Result Error (Text × Db)
  unfolding join_team_in transaction
  join_team db tournament_id key team_id riot_id =
      transaction db (py.parse_uuid tournament_id) (join_team_in key team_id riot_id)

  -- `max(0, size - count)` is subtraction that stops at 0.
  unfoldable pub access_slot : Tournament → Team → AccessTeamSlot
  unfolding team_size count_real_players
  access_slot tournament t = record {
    team_id = py.str_uuid t.id;
    team_name = t.team_name;
    open_slots = team_size tournament.format - count_real_players t.players;
  }

  -- A read. An unknown tournament is answered like a wrong key, and an id that is no UUID by a 404.
  unfoldable pub validate_access : Db → Text → Text → Result Error (List AccessTeamSlot)
  unfolding check_key access_slot
  validate_access db tournament_id key = do
    pk ← or_raise (py.parse_uuid tournament_id) Error.unknown_tournament
    ev ← or_raise (lookup pk db) Error.invalid_key
    check_key ev.tournament key
    ok (map (access_slot ev.tournament) ev.teams)
