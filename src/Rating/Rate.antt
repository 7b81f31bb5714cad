-- ===== src/Rating/Rate.antt =====
-- `rate` of backend/arena/rating/engine.py. The Plackett-Luce update is the `openskill` package's: it is an
-- argument, `pl_rate`, from the parameters, the teams' (mu, sigma) pairs and the placements to the new pairs.
pub mod Laws
pub mod Players
use arena_rank_project.Prelude.{
  ℕ, suc, ◌+◌, ◌-◌, ◌/◌, Bool, true, false, not, Option, none, some, List, [], ◌∷◌, ◌++◌, map, ◌||◌,
  ◌&&◌, if◌then◌else◌, ltb, leb, length, any, get_elem?,
}
use arena_rank_project.Prelude.{◌==◌ as nat_beq}
use arena_rank_project.Prelude.Int.{ℤ, pos, negsuc}
use arena_rank_project.Prelude.Sort.{sort_by}
use arena_rank_project.Prelude.Result.{Result, ok, err, ◌>>=◌, ◌>>◌, raise_if}
use arena_rank_project.Floats.{Floats}
use arena_rank_project.Rating.Params.{Error, value_error, RatingParams, validate_params}
use arena_rank_project.Rating.Caps.{zero_f, neg}
use arena_rank_project.Rating.Modifiers.{PlayerState, three, to_cr, next_streak}
use arena_rank_project.Rating.Engine.{
  AppliedModifiers, CapExplanation, ParticipantInput, TeamInput, MatchInput, PlayerRatingResult,
  RatingResult, frozen, modified_step, damped_sigma, mu_for, capped,
}

module _ (fl : Floats) where
  open fl use {Float, of_int, add, sub, mul, lt}

  -- `t.placement <= team_count // 2`
  abbrev pub wins : ℕ → ℕ → Bool
  wins placement team_count = leb placement (team_count / 2)

  -- The floor at 0 after the cap layer: (cr_after, mu_after).
  unfoldable pub floored : Float → Float → Float → RatingParams fl → Float × Float
  floored cr_after mu_after sigma_after p =
      if lt cr_after (zero_f fl)
      then (zero_f fl, mu_for fl (zero_f fl) sigma_after p)
      else (cr_after, mu_after)

  -- The end of the loop's body, from the step of mu with its record, the new sigma, the rating before the cap
  -- layer, and what that layer leaves.
  unfoldable pub finish :
      ℕ
      → ℕ
      → ParticipantInput fl
      → RatingParams fl
      → Float × AppliedModifiers fl
      → Float
      → Float
      → Float × Float × Option (CapExplanation fl)
      → Result Error (PlayerRatingResult fl)
  finish placement team_count pt p stepped sigma_new cr_stepped out =
      let s = pt.state in
      let last = floored out.0 out.1 sigma_new p in
      ok record {
        player_id = pt.player_id;
        mu_before = s.mu;
        mu_after = last.1;
        sigma_before = s.sigma;
        sigma_after = sigma_new;
        cr_before = s.cr;
        cr_after = last.0;
        cr_delta = sub last.0 s.cr;
        eligible = true;
        is_win = wins placement team_count;
        new_streak = next_streak s.current_streak (wins placement team_count);
        modifiers = stepped.1;
        cap = out.2;
        confidence_cr = mul (mul (neg fl (three fl)) (sub sigma_new s.sigma)) p.scale_factor;
        pre_cap_cr_delta = sub cr_stepped s.cr;
        team_count = team_count;
      }

  -- The body of the loop for an eligible player, whose pair after the update is (mu_pl, sigma_pl).
  unfoldable pub rate_eligible :
      ℕ
      → ℕ
      → Float
      → ℕ
      → ParticipantInput fl
      → Float
      → Float
      → RatingParams fl
      → Result Error (PlayerRatingResult fl)
  rate_eligible placement team_count sum_mu_all n_all pt mu_pl sigma_pl p =
      let stepped = modified_step fl placement team_count pt (sub mu_pl pt.state.mu) p in
      let mu_stepped = add pt.state.mu stepped.0 in
      let sigma_new = damped_sigma fl pt sigma_pl in
      let cr_stepped = to_cr fl mu_stepped sigma_new p in
      capped fl placement team_count pt sum_mu_all n_all cr_stepped mu_stepped sigma_new p
      >>= finish placement team_count pt p stepped sigma_new cr_stepped

  unfoldable pub rate_player :
      ℕ
      → ℕ
      → Float
      → ℕ
      → ParticipantInput fl
      → Float × Float
      → RatingParams fl
      → Result Error (PlayerRatingResult fl)
  rate_player placement team_count sum_mu_all n_all pt new_r p =
      if pt.eligible_for_progression
      then rate_eligible placement team_count sum_mu_all n_all pt new_r.0 new_r.1 p
      else ok (frozen fl pt (wins placement team_count) team_count)

  -- `for pt, new_r in zip(parts, new_team)`
  unfoldable pub rate_parts :
      ℕ
      → ℕ
      → Float
      → ℕ
      → RatingParams fl
      → List (ParticipantInput fl)
      → List (Float × Float)
      → Result Error (List (PlayerRatingResult fl))
  rate_parts placement team_count sum_mu_all n_all p [] news = ok []
  rate_parts placement team_count sum_mu_all n_all p (pt ∷ pts) [] = ok []
  rate_parts placement team_count sum_mu_all n_all p (pt ∷ pts) (new_r ∷ news) = do
    r ← rate_player placement team_count sum_mu_all n_all pt new_r p
    rs ← rate_parts placement team_count sum_mu_all n_all p pts news
    ok (r ∷ rs)

  -- `for t, parts, new_team in zip(ordered_teams, ordered_parts, updated)`
  unfoldable pub rate_teams :
      ℕ
      → Float
      → ℕ
      → RatingParams fl
      → List (TeamInput fl)
      → List (List (Float × Float))
      → Result Error (List (PlayerRatingResult fl))
  rate_teams team_count sum_mu_all n_all p [] updated = ok []
  rate_teams team_count sum_mu_all n_all p (t ∷ ts) [] = ok []
  rate_teams team_count sum_mu_all n_all p (t ∷ ts) (new_team ∷ updated) = do
    rs ← rate_parts t.placement team_count sum_mu_all n_all p t.participants new_team
    rest ← rate_teams team_count sum_mu_all n_all p ts updated
    ok (rs ++ rest)

  -- The keys of the two sorts.
  abbrev pub team_before : TeamInput fl → TeamInput fl → Bool
  team_before t u =
      ltb t.placement u.placement || (nat_beq t.placement u.placement && ltb t.team_id u.team_id)

  abbrev pub part_before : ParticipantInput fl → ParticipantInput fl → Bool
  part_before a b = ltb a.player_id b.player_id

  -- A team with its participants in the order of their ids.
  abbrev pub with_sorted : TeamInput fl → TeamInput fl
  with_sorted t = record t { participants = sort_by part_before t.participants }

  unfoldable pub ordered : List (TeamInput fl) → List (TeamInput fl)
  ordered ts = map with_sorted (sort_by team_before ts)

  unfoldable pub freeze_teams : ℕ → List (TeamInput fl) → List (PlayerRatingResult fl)
  freeze_teams team_count [] = []
  freeze_teams team_count (t ∷ ts) =
      map (λ pt. frozen fl pt (wins t.placement team_count) team_count) t.participants
      ++ freeze_teams team_count ts

  unfoldable pub states : List (TeamInput fl) → List (PlayerState fl)
  states [] = []
  states (t ∷ ts) = map (λ pt. pt.state) t.participants ++ states ts

  unfoldable pub sum_mu : Float → List (PlayerState fl) → Float
  sum_mu acc [] = acc
  sum_mu acc (s ∷ ss) = sum_mu (add acc s.mu) ss

  abbrev pub is_empty_team : TeamInput fl → Bool
  is_empty_team t = nat_beq (length t.participants) 0

  abbrev pub any_eligible : List (TeamInput fl) → Bool
  any_eligible ts = any (λ t. any (λ pt. pt.eligible_for_progression) t.participants) ts

  abbrev pub pairs_of : TeamInput fl → List (Float × Float)
  pairs_of t = map (λ pt. (pt.state.mu, pt.state.sigma)) t.participants

  module _
      (pl_rate : RatingParams fl
        → List (List (Float × Float))
        → List ℕ
        → List (List (Float × Float))) where
    -- The teams' new pairs, for the teams in their order.
    abbrev pub updated_of : RatingParams fl → List (TeamInput fl) → List (List (Float × Float))
    updated_of p ts = pl_rate p (map pairs_of ts) (map (λ t. t.placement) ts)

    -- The loop over the teams, in their order.
    unfoldable pub rate_all :
        ℕ → RatingParams fl → List (TeamInput fl) → Result Error (List (PlayerRatingResult fl))
    rate_all team_count p ts =
        rate_teams team_count (sum_mu (zero_f fl) (states ts)) (length (states ts)) p ts
          (updated_of p ts)

    unfoldable pub rate : MatchInput fl → Result Error (RatingResult fl)
    rate m = do
      validate_params fl m.params
      raise_if (ltb (length m.teams) 2) value_error
      raise_if (any is_empty_team m.teams) value_error
      if not (any_eligible m.teams)
          then ok record {
            match_id = m.match_id;
            voided = true;
            players = freeze_teams (length m.teams) (ordered m.teams);
          }
          else do
            players ← rate_all (length m.teams) m.params (ordered m.teams)
            ok record { match_id = m.match_id; voided = false; players = players }
