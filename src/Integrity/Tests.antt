-- ===== src/Integrity/Tests.antt =====
-- The integrity rules at a concrete match and history.
use arena_rank_project.Prelude.{
  ℕ, ◌≡◌, refl, Bool, true, false, some, List, [], ◌∷◌, Text, arith, All, map, length, text_eq,
}
use arena_rank_project.Prelude.Int.{ℤ, pos, ◌-ℤ◌}
use arena_rank_project.Prelude.Result.{Result, ok, err, Returns}
use arena_rank_project.Floats.Decimals.{whole, coarse, coarse_ordered}
use arena_rank_project.Rating.Params.{Error}
use arena_rank_project.Integrity.Types.{
  Builtins, ParticipantSnapshot, MatchSnapshot, EvaluationResult,
}
use arena_rank_project.Integrity.Params.{
  warn_text, RdsTier, IntegrityParams, validate_integrity_params, validate_tier,
}
use arena_rank_project.Integrity.Fingerprint.{Sets, observe_set}
use arena_rank_project.Integrity.Fingerprint.Window.{replay, observe_set_refines}
use arena_rank_project.Integrity.Service.{evaluate_async, validate_match}
use arena_rank_project.Integrity.Service.Returns.{evaluate_async-Returns}
use arena_rank_project.Integrity.Service.Verdicts.{IsJudged, evaluate_async-IsJudged}

-- The match `a` is observed twice within the window, and once before.
observe_set_refines_example :
    (observe_set 30 15
      (b'a' ∷ [])
      (replay 15 ((b'a' ∷ [], 28) ∷ (b'b' ∷ [], 20) ∷ (b'c' ∷ [], 10) ∷ []))).0
    ≡ 2
unfolding text_eq
observe_set_refines_example =
    observe_set_refines 15 30 ((b'a' ∷ [], 28) ∷ (b'b' ∷ [], 20) ∷ (b'c' ∷ [], 10) ∷ []) (b'a' ∷ [])
      (omega arith) (omega arith, (omega arith, (omega arith, tt)))

abbrev python : Builtins coarse
python = record { sha256_hex = λ t. t; round_to = λ x digits. x; str_int = λ n. b'2' ∷ [] }

abbrev smurf_tier : RdsTier coarse
smurf_tier = record {
  min_cr_gap = whole 500;
  penalty_factor = pos 500;
  severity = warn_text;
  label = b'x' ∷ [];
}

abbrev params : IntegrityParams coarse
params = record {
  rds_tiers = smurf_tier ∷ [];
  rds_min_gap = whole 400;
  premade_strength = pos 500;
  premade_repeat_threshold = pos 2;
  premade_window_seconds = 100;
  premade_homogeneity_gap = whole 300;
  afk_min_participation = pos 500;
  afk_min_damage = pos 100;
  duration_mean_seconds = whole 900;
  duration_std_seconds = whole 100;
  duration_z_warn = whole 2;
  duration_z_critical = whole 3;
  duration_min_seconds = pos 300;
  repeated_lobby_window_seconds = 100;
  repeated_lobby_threshold = pos 1;
  repeated_lobby_critical = pos 5;
  dispersion_cr_warn = whole 400;
  dispersion_cr_critical = whole 800;
}

abbrev participant : Text → Bool → ℕ → ParticipantSnapshot coarse
participant name is_afk rating = record {
  player_id = name;
  team_id = pos 1;
  party_id = some (b'p' ∷ []);
  afk = is_afk;
  rounds_played = pos 5;
  rounds_total = pos 5;
  damage_dealt = pos 1000;
  cr = whole rating;
}

-- A pair with a large gap, of which one member is away.
abbrev duo : MatchSnapshot coarse
duo = record {
  match_id = b'm' ∷ [];
  mode = b'a' ∷ [];
  team_size = pos 2;
  duration_seconds = pos 200;
  participants = participant (b's' ∷ []) false 2000 ∷ participant (b't' ∷ []) true 1000 ∷ [];
}

params-AreValid : validate_integrity_params coarse params ≡ ok tt
unfolding validate_integrity_params validate_tier text_eq
params-AreValid = refl

duo-IsValid : validate_match coarse duo ≡ ok tt
unfolding validate_match text_eq
duo-IsValid = refl

duo-IsEvaluated : Returns (evaluate_async coarse python 50 [] [] duo params)
duo-IsEvaluated =
    evaluate_async-Returns coarse python 50 [] [] duo params params-AreValid duo-IsValid

evaluate_async-IsJudged_example :
    All (IsJudged coarse params duo-IsEvaluated.0.0.verdicts) duo.participants
evaluate_async-IsJudged_example =
    evaluate_async-IsJudged coarse coarse_ordered refl python 50 [] [] duo params duo-IsEvaluated.0
      duo-IsEvaluated.1

abbrev summary : Result Error (EvaluationResult coarse × Sets × Sets) → List (ℤ × Bool × ℤ) × ℕ
summary (err e) = ([], 0)
summary (ok out) = (
  map (λ v. (v.1.boosting_penalty_factor, v.1.eligible_for_progression, v.1.party_penalty_factor))
      out.0.verdicts,
  length out.0.flags,
)

-- The strong member of the pair is penalized, and the one that is away is not eligible.
duo_run :
    summary (evaluate_async coarse python 50 [] [] duo params)
    ≡ ((pos 500, true, pos 0) ∷ (pos 0, false, pos 0) ∷ [], 5)
unfolding evaluate_async validate_integrity_params validate_tier text_eq validate_match ◌-ℤ◌
duo_run = refl
