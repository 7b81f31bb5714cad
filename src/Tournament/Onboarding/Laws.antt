-- ===== src/Tournament/Onboarding/Laws.antt =====
-- What `create_team` and `join_team` do to the rosters:
-- backend/arena/tournaments/service.py.
use arena_rank_project.Prelude.{
  ℕ, ◌+◌, ◌≤◌, ◌≡◌, refl, sym, subst, ◌∙◌, Bool, true, false, some, List, Text, text_eq,
  eq_of_text_eq, find, arith, Bool-cases, Option-cases, inl, inr, length, All,
}
use arena_rank_project.Prelude.Result.{ok}
use arena_rank_project.Tournament.Provision.{Python, Slot, team_size, is_empty, count_real_players}
use arena_rank_project.Tournament.Rows.{Team, Event}
use arena_rank_project.Tournament.Onboarding.{
  modify_first, is_enrolled, is_free, claim, create_team_in, has_id, seat, join_team_in,
}
use arena_rank_project.Tournament.Onboarding.Rosters.{
  total, total-modify_first, All-modify_first, find_holds, enrolments, enrolments-zero, seated_in,
  seated_in-le, length-modify_first, newcomer, seated_in-claim, seated_in-seat,
}

-- The number of players of all the teams.
abbrev pub headcount : List Team → ℕ
headcount = total (λ t. count_real_players t.players)

-- A roster is well formed when every team has as many slots as its format says, and no Riot ID is
-- enrolled twice.
pub record IsRoster (py : Python) (ev : Event) : Type 0 where
  pub sized : All (λ t. length t.players ≡ team_size ev.tournament.format) ev.teams
  pub unique : (target : Text) → enrolments py target ev.teams ≤ 1

-- The call seated exactly the one new player and changed nothing else of the event.
pub record Seats (py : Python) (riot_id : Text) (ev ev' : Event) : Type 0 where
  pub roster : IsRoster py ev'
  pub headcount_grows : headcount ev'.teams ≡ headcount ev.teams + 1
  pub seated :
      (target : Text)
      → enrolments py target ev'.teams ≡ enrolments py target ev.teams + newcomer py riot_id target
  pub same_tournament : ev'.tournament ≡ ev.tournament
  pub same_matches : ev'.matches ≡ ev.matches

module _ (py : Python) where
  -- A newcomer who is not enrolled yet keeps the Riot IDs unique.
  unique_after :
      (riot_id target : Text) (ts : List Team)
      → is_enrolled py (py.strip_upper riot_id) ts ≡ false
      → enrolments py target ts ≤ 1
      → enrolments py target ts + newcomer py riot_id target ≤ 1
  unique_after riot_id target ts h u = elim (Bool-cases (text_eq (py.strip_upper riot_id) target)) [
    | inl e ↦
        let same = eq_of_text_eq (py.strip_upper riot_id) target e in
        let none_yet = enrolments-zero py target ts (rw same at h) in ground arith
    | inr e ↦ ground arith
  ]

  create_team_in-ok :
      (key team_name riot_id : Text) (ev : Event) {r : Text × Event}
      → create_team_in py key team_name riot_id ev ≡ ok r
      → (t : Team) × (is_enrolled py (py.strip_upper riot_id) ev.teams ≡ false)
        × (find is_free ev.teams ≡ some t)
        × (r.1 ≡ record ev {
          teams = modify_first is_free (claim py ev.tournament team_name riot_id) ev.teams;
        })
  unfolding create_team_in
  create_team_in-ok key team_name riot_id ev h = elim (Option-cases (find is_free ev.teams)) [
    | inl e ↦ absurd (ground arith)
    | inr (t, e) ↦ (t, ground arith, e, ground arith)
  ]

  is_free-seated_in :
      (target : Text) (t : Team)
      → is_free t ≡ true
      → (seated_in py target t.players ≡ 0) × (count_real_players t.players ≡ 0)
  is_free-seated_in target t h = ground (arith, seated_in-le py target t.players)

  -- Both calls mutate the one team that they found; this is what its own change must satisfy.
  Seats-of_modify_first :
      (riot_id : Text) (ev : Event) (p : Team → Bool) (f : Team → Team) (t : Team)
      → IsRoster py ev
      → is_enrolled py (py.strip_upper riot_id) ev.teams ≡ false
      → find p ev.teams ≡ some t
      → ((target : Text)
          → seated_in py target (f t).players
            ≡ seated_in py target t.players + newcomer py riot_id target)
      → count_real_players (f t).players ≡ count_real_players t.players + 1
      → ((u : Team)
          → length u.players ≡ team_size ev.tournament.format
          → length (f u).players ≡ team_size ev.tournament.format)
      → Seats py riot_id ev (record ev { teams = modify_first p f ev.teams })
  Seats-of_modify_first riot_id ev p f t w fresh found adds counts sizes = record {
    roster = record {
      sized = All-modify_first _ p f ev.teams sizes w.sized;
      unique = λ target.
          subst (λ n. n ≤ 1) (sym (grows target))
            (unique_after riot_id target ev.teams fresh (w.unique target));
    };
    headcount_grows = omega (
      arith,
      total-modify_first (λ u. count_real_players u.players) p f ev.teams t found,
      counts,
    );
    seated = grows;
    same_tournament = refl;
    same_matches = refl;
  }
    where
      grows :
          (target : Text)
          → enrolments py target (modify_first p f ev.teams)
            ≡ enrolments py target ev.teams + newcomer py riot_id target
      grows target = omega (
        arith,
        total-modify_first (λ u. seated_in py target u.players) p f ev.teams t found,
        adds target,
      )

  -- A successful `create_team` keeps the rosters well formed, enrols exactly one player, under the
  -- Riot ID given, and leaves the tournament and its matches alone.
  pub create_team_in-Seats :
      (key team_name riot_id : Text) (ev : Event) {r : Text × Event}
      → IsRoster py ev
      → create_team_in py key team_name riot_id ev ≡ ok r
      → Seats py riot_id ev r.1
  create_team_in-Seats key team_name riot_id ev w h =
      let (t, fresh, found, e) = create_team_in-ok key team_name riot_id ev h in
      let free = find_holds is_free ev.teams t found in
      rw e (
        Seats-of_modify_first riot_id ev is_free (claim py ev.tournament team_name riot_id) t w
          fresh found
          (λ target. omega (
            arith,
            is_free-seated_in target t free,
            seated_in-claim py ev.tournament team_name riot_id target t,
          ))
          (omega (
            arith,
            is_free-seated_in riot_id t free,
            seated_in-claim py ev.tournament team_name riot_id riot_id t,
          ))
          (λ u _. (seated_in-claim py ev.tournament team_name riot_id riot_id u).2))

  join_team_in-ok :
      (key team_id riot_id : Text) (ev : Event) {r : Text × Event}
      → join_team_in py key team_id riot_id ev ≡ ok r
      → (t : Team) × (p : Slot) × (is_enrolled py (py.strip_upper riot_id) ev.teams ≡ false)
        × (find (has_id (py.parse_uuid team_id)) ev.teams ≡ some t)
        × (find is_empty t.players ≡ some p)
        × (r.1 ≡ record ev {
          teams = modify_first (has_id (py.parse_uuid team_id)) (seat py riot_id) ev.teams;
        })
  unfolding join_team_in
  join_team_in-ok key team_id riot_id ev h =
      elim (Option-cases (find (has_id (py.parse_uuid team_id)) ev.teams)) [
        | inl e ↦ absurd (ground arith)
        | inr (t, e) ↦ elim (Option-cases (find is_empty t.players)) [
          | inl e' ↦ absurd (ground arith)
          | inr (p, e') ↦ (t, p, ground arith, e, e', ground arith)
        ]
      ]

  length-seat : (riot_id : Text) (t : Team) → length (seat py riot_id t).players ≡ length t.players
  unfolding seat
  length-seat riot_id t = length-modify_first is_empty _ t.players

  -- A successful `join_team` keeps the rosters well formed, so that no team has more players than slots,
  -- enrols exactly one player, under the Riot ID given, and leaves the tournament and its matches alone.
  pub join_team_in-Seats :
      (key team_id riot_id : Text) (ev : Event) {r : Text × Event}
      → IsRoster py ev
      → join_team_in py key team_id riot_id ev ≡ ok r
      → Seats py riot_id ev r.1
  join_team_in-Seats key team_id riot_id ev w h =
      let (t, p, fresh, found, free, e) = join_team_in-ok key team_id riot_id ev h in
      rw e (
        Seats-of_modify_first riot_id ev (has_id (py.parse_uuid team_id)) (seat py riot_id) t w
          fresh found (λ target. (seated_in-seat py riot_id target t p free).0)
          (seated_in-seat py riot_id riot_id t p free).1 (λ u sized. length-seat riot_id u ∙ sized))
