-- ===== src/Rating/Tests.antt =====
-- The engine at concrete inputs, over decimals with three places, which are ordered and round.
use arena_rank_project.Prelude.{
  ◌⊎◌, ℕ, suc, ◌≡◌, refl, ap, length, Bool, true, false, not, none, some, List, [], ◌∷◌, ◌++◌, All,
  any, replicate, ◌==◌,
}
use arena_rank_project.Prelude.Int.{ℤ, pos, negsuc, ◌+ℤ◌, ◌-ℤ◌, ltb_ℤ}
use arena_rank_project.Prelude.Result.{Result, ok, err}
use arena_rank_project.Prelude.Sort.{sort_by}
use arena_rank_project.Floats.Decimals.{whole, coarse, coarse_ordered}
use arena_rank_project.Floats.{fmin, fmax}
use arena_rank_project.Rating.Params.{Error, validate_params, RatingParams, CapParams}
use arena_rank_project.Rating.Caps.{zero_f, gain_cap, CapDecision, decide_pdl_cap}
use arena_rank_project.Rating.Caps.Laws.{Explains, decide_pdl_cap_sound}
use arena_rank_project.Rating.Modifiers.{PlayerState, to_cr, soft_reset}
use arena_rank_project.Rating.Modifiers.Laws.{streak_after, streak_after_run, soft_reset_lem}
use arena_rank_project.Rating.Engine.{
  capped, frozen, ParticipantInput, TeamInput, MatchInput, RatingResult,
}
use arena_rank_project.Rating.Rate.{
  rate, rate_all, rate_teams, rate_parts, rate_player, rate_eligible, finish, ordered, any_eligible,
}
use arena_rank_project.Rating.Rate.Laws.{IsFair, rate-IsFair}
use arena_rank_project.Rating.Rate.Players.{
  AreRatedInOrder, SameShape, rate_participants, result_ids, takes_part,
}

streak_of_four :
    (streak_after (pos 4) ((true ∷ true ∷ []) ++ (false ∷ true ∷ replicate 2 true)) ≡ pos 3)
    × (streak_after (pos 4) ((true ∷ true ∷ []) ++ (true ∷ false ∷ replicate 2 false)) ≡ negsuc 2)
streak_of_four = streak_after_run (pos 4) (true ∷ true ∷ []) 2

-- For two teams: the winner gains from 5 to 50, and the loser loses 50 at most.
abbrev pub caps_of_two : CapParams coarse
caps_of_two = record {
  base_cap_by_placement = (2, whole 50 ∷ whole 40 ∷ []) ∷ [];
  mismatch_beta = whole 1;
  mismatch_threshold = whole 10;
  mismatch_slope = whole 1;
  mismatch_max_mult = whole 2;
  mismatch_sigma_gate = whole 5;
  mismatch_games_gate = 10;
  high_cr_midpoint = whole 3000;
  high_cr_steepness = whole 100;
  high_cr_max_reduction = whole 0;
  composite_floor = whole 1;
  composite_ceil = whole 2;
  loss_clamp = none;
  loss_cap_by_placement = none;
  min_gain_by_placement = some ((2, whole 5 ∷ whole 0 ∷ []) ∷ []);
}

abbrev pub params : RatingParams coarse
params = record {
  mu0 = whole 25;
  sigma0 = whole 8;
  beta = whole 4;
  tau = whole 1;
  kappa = pos 1;
  scale_factor = whole 20;
  base_offset = whole 100;
  placement_weights = (2, whole 1 ∷ whole 1 ∷ []) ∷ [];
  placement_amp = whole 1;
  placement_match_count = 5;
  streak_loss_floor = whole 1;
  streak_win_ceil = whole 1;
  streak_threshold = pos 3;
  soft_cap_threshold = whole 3000;
  soft_cap_scale = whole 100;
  max_delta_mu = whole 10;
  dispersion_sigma_ref = whole 8;
  reset_anchor = whole 25;
  reset_factor = whole 1;
  sigma_reset_mult = whole 2;
  sigma_reset_cap = whole 8;
  caps = some caps_of_two;
}

abbrev pub player : ℕ → PlayerState coarse
player i = record {
  player_id = i;
  mu = whole 25;
  sigma = whole 8;
  cr = whole 120;
  current_streak = pos 2;
  matches_played = 20;
  placement_matches_remaining = pos 0;
  peak_cr = whole 150;
}

soft_reset_lem_case :
    (let s = soft_reset coarse (player 7) params in
      (ltb_ℤ s.cr (zero_f coarse) ≡ false)
      × (s.cr ≡ to_cr coarse s.mu s.sigma params)
      × (s.peak_cr ≡ s.cr)
      × (ltb_ℤ params.sigma_reset_cap s.sigma ≡ false)
      × (s.current_streak ≡ pos 0)
      × (s.placement_matches_remaining ≡ pos 5))
soft_reset_lem_case = soft_reset_lem coarse coarse_ordered (player 7) params

-- A raw gain of 80 is cut to 50.
abbrev cut : CapDecision coarse
cut = record {
  value = whole 50;
  changed = true;
  lo = negsuc 39999;
  hi = whole 50;
  floor = whole 5;
  bound = gain_cap;
}

cut_to_50 : decide_pdl_cap coarse (whole 80) 1 2 (whole 1) (whole 1) caps_of_two (whole 1) ≡ ok cut
unfolding decide_pdl_cap ◌+ℤ◌ ◌-ℤ◌ fmax fmin
cut_to_50 = refl

decide_pdl_cap_sound_example :
    (ltb_ℤ (whole 50) (negsuc 39999) ≡ false)
    × (ltb_ℤ (whole 50) (whole 50) ≡ false)
    × ((ltb_ℤ (zero_f coarse) (whole 5) ≡ false)
        ⊎ (ltb_ℤ (whole 50) (fmin coarse (whole 5) (whole 50)) ≡ false))
    × Explains coarse coarse_ordered (whole 80) (negsuc 39999) (whole 50) (whole 5) cut
decide_pdl_cap_sound_example =
    decide_pdl_cap_sound coarse coarse_ordered (whole 80) 1 2 (whole 1) (whole 1) caps_of_two
      (whole 1) {d = cut} cut_to_50 refl

abbrev pub participant : ℕ → Bool → ParticipantInput coarse
participant i eligible = record {
  player_id = i;
  state = player i;
  eligible_for_progression = eligible;
  boosting_penalty_factor = whole 0;
  party_penalty_factor = pos 0;
}

abbrev team : ℕ → ℕ → List (ParticipantInput coarse) → TeamInput coarse
team i placement participants = record {
  team_id = i;
  placement = placement;
  participants = participants;
}

-- The winners are given last, and one of them is not eligible.
abbrev played : MatchInput coarse
played = record {
  match_id = 9;
  teams =
      team 1 2 (participant 4 true ∷ participant 3 true ∷ [])
      ∷ team 2 1 (participant 2 false ∷ participant 1 true ∷ [])
      ∷ [];
  params = params;
}

-- An update that raises every mu by 1 and lowers every sigma by 1.
abbrev pub nudge_team : List (ℤ × ℤ) → List (ℤ × ℤ)
nudge_team [] = []
nudge_team ((mu, sigma) ∷ rest) = (mu +ℤ whole 1, sigma -ℤ whole 1) ∷ nudge_team rest

abbrev pub nudge : RatingParams coarse → List (List (ℤ × ℤ)) → List ℕ → List (List (ℤ × ℤ))
nudge p [] ranks = []
nudge p (t ∷ ts) ranks = nudge_team t ∷ nudge p ts ranks

nudge_team-shape : (t : List (ℤ × ℤ)) → length (nudge_team t) ≡ length t
nudge_team-shape [] = refl
nudge_team-shape (x ∷ t) = ap suc (nudge_team-shape t)

nudge-shape :
    (p : RatingParams coarse) (ts : List (List (ℤ × ℤ))) (ranks : List ℕ)
    → SameShape (nudge p ts ranks) ts
nudge-shape p [] ranks = refl
nudge-shape p (t ∷ ts) ranks = cc (nudge_team-shape t, nudge-shape p ts ranks)

abbrev result_of : Result Error (RatingResult coarse) → RatingResult coarse
result_of (ok r) = r
result_of (err e) = record { match_id = 0; voided = true; players = [] }

abbrev outcome : RatingResult coarse
outcome = result_of (rate coarse nudge played)

was_rated : rate coarse nudge played ≡ ok outcome
unfolding rate ◌+ℤ◌ ◌-ℤ◌ validate_params rate_all rate_teams ordered sort_by rate_parts rate_player
    rate_eligible capped decide_pdl_cap finish frozen
was_rated = refl

rate-IsFair_example : All (IsFair coarse coarse_ordered) outcome.players
rate-IsFair_example =
    rate-IsFair coarse coarse_ordered nudge played outcome
      ((refl, (refl, tt)), ((refl, (refl, tt)), tt)) was_rated

rate_participants_example :
    AreRatedInOrder coarse played.teams (result_ids coarse outcome.players)
    × (any (λ j. j == 3) (result_ids coarse outcome.players) ≡ takes_part coarse 3 played.teams)
    × (outcome.voided ≡ not (any_eligible coarse played.teams))
rate_participants_example = rate_participants coarse nudge nudge-shape played outcome 3 was_rated

listed_in_order : result_ids coarse outcome.players ≡ 1 ∷ 2 ∷ 3 ∷ 4 ∷ []
unfolding rate ◌+ℤ◌ ◌-ℤ◌ validate_params rate_all rate_teams ordered sort_by rate_parts rate_player
    rate_eligible capped decide_pdl_cap finish frozen
listed_in_order = refl
