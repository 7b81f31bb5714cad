-- ===== src/Rating/Explain/Tests.antt =====
-- The explanation of a winner's result.
use arena_rank_project.Prelude.{◌≡◌, refl, true, List, [], ◌∷◌, map}
use arena_rank_project.Prelude.Int.{ℤ, pos, negsuc, ◌+ℤ◌, ◌-ℤ◌}
use arena_rank_project.Prelude.Result.{Result, ok, err}
use arena_rank_project.Floats.Decimals.{whole, coarse}
use arena_rank_project.Rating.Params.{Error}
use arena_rank_project.Rating.Caps.{decide_pdl_cap}
use arena_rank_project.Rating.Engine.{
  PlayerRatingResult, capped, frozen, modified_step, damped_sigma,
}
use arena_rank_project.Rating.Modifiers.{
  to_cr, dispersion_cap, placement_weight, placement_amp, streak_multiplier, boosting_penalty,
  party_dampener,
}
use arena_rank_project.Rating.Rate.{rate_player, rate_eligible, finish, floored}
use arena_rank_project.Rating.Tests.{params, participant}
use arena_rank_project.Rating.Explain.Entries.{PdlExplanation, chain_ledger}
use arena_rank_project.Rating.Explain.Tiers.{cap_stage}
use arena_rank_project.Rating.Explain.{closed_stage, explain, result_input, explain_result}
use arena_rank_project.Rating.Explain.Reconciled.{IsReconciled, explain-IsReconciled}
use arena_rank_project.Rating.Explain.Replay.{IsReplayed, rate_player-IsReplayed}

abbrev result_of : Result Error (PlayerRatingResult coarse) → PlayerRatingResult coarse
result_of (ok r) = r
result_of (err e) = frozen coarse (participant 1 true) true 2

abbrev winner : PlayerRatingResult coarse
winner =
    result_of (rate_player coarse 1 2 (whole 100) 4 (participant 1 true) (whole 30, whole 7) params)

winner_was_rated :
    rate_player coarse 1 2 (whole 100) 4 (participant 1 true) (whole 30, whole 7) params ≡ ok winner
unfolding rate_player rate_eligible capped decide_pdl_cap finish ◌+ℤ◌ ◌-ℤ◌
winner_was_rated = refl

rate_player-IsReplayed_example : IsReplayed coarse params 1 2 winner
rate_player-IsReplayed_example =
    rate_player-IsReplayed coarse 1 2 (whole 100) 4 (participant 1 true) (whole 30, whole 7) params
      winner winner_was_rated

replayed : IsReplayed coarse params 1 2 winner
replayed =
    rate_player-IsReplayed coarse 1 2 (whole 100) 4 (participant 1 true) (whole 30, whole 7) params
      winner winner_was_rated

replayed_input : explain coarse (result_input coarse params 1 2 winner) ≡ ok replayed.explanation
unfolding explain_result
replayed_input = replayed.returned

explain-IsReconciled_example :
    IsReconciled coarse (result_input coarse params 1 2 winner) replayed.explanation
unfolding rate_player rate_eligible finish capped decide_pdl_cap
explain-IsReconciled_example =
    explain-IsReconciled coarse (result_input coarse params 1 2 winner) replayed.explanation refl
      replayed_input

abbrev summary : Result Error (PdlExplanation coarse) → List ℤ
summary (ok out) = map (λ e. e.pdl) out.entries
summary (err e) = []

-- The gain of 100 and 60 is cut to 50.
winner_entries :
    summary (explain_result coarse params 1 2 winner)
    ≡ whole 100
      ∷ pos 0
      ∷ pos 0
      ∷ pos 0
      ∷ pos 0
      ∷ pos 0
      ∷ pos 0
      ∷ pos 0
      ∷ whole 60
      ∷ negsuc 109999
      ∷ []
unfolding rate_player rate_eligible finish capped decide_pdl_cap ◌+ℤ◌ ◌-ℤ◌ explain_result
    chain_ledger cap_stage closed_stage to_cr modified_step dispersion_cap placement_weight
    placement_amp streak_multiplier boosting_penalty party_dampener damped_sigma floored
winner_entries = refl
