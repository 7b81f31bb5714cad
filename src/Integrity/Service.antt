-- ===== src/Integrity/Service.antt =====
-- backend/arena/integrity/service.py: the evaluation of a match, pure and with the two Redis stores.
pub mod Returns
pub mod Lookups
pub mod Factors
pub mod Verdicts
use arena_rank_project.Prelude.{
  ℕ, Bool, true, false, not, Option, none, some, List, [], ◌∷◌, ◌++◌, map, if◌then◌else◌, any, Text,
  text_eq,
}
use arena_rank_project.Prelude.Int.{ℤ}
use arena_rank_project.Prelude.Table.{Table, lookup_or, insert, text_instance, int_eq}
use arena_rank_project.Prelude.Result.{Result, ok, err, ◌>>=◌, ◌>>◌, raise_if}
use arena_rank_project.Floats.{Floats}
use arena_rank_project.Rating.Params.{Error, value_error}
use arena_rank_project.Integrity.Types.{
  Builtins, IntegrityFlag, ParticipantSnapshot, MatchSnapshot, ParticipantVerdict, EvaluationResult,
}
use arena_rank_project.Integrity.Params.{IntegrityParams, validate_integrity_params}
use arena_rank_project.Integrity.Fingerprint.{
  Sets, lobby_fingerprint, subteam_pair_keys, observe_lobby, observe_pairs,
}
use arena_rank_project.Integrity.Evaluators.{zero_f, evaluate_eligibility, evaluate_rds}
use arena_rank_project.Integrity.Premade.{group_subteams, evaluate_premade}
use arena_rank_project.Integrity.Signals.{
  evaluate_duration, evaluate_dispersion, build_repeated_lobby_flag,
}

abbrev is_empty {ℓ} : {A : Type ℓ} → List A → Bool
is_empty [] = true
is_empty (x ∷ xs) = false

module _ (fl : Floats) where
  open fl use {Float}

  unfoldable pub check_distinct :
      List Text → List (ParticipantSnapshot fl) → Result Error (Unit {0})
  check_distinct seen [] = ok tt
  check_distinct seen (part ∷ parts) = do
    raise_if (any (text_eq part.player_id) seen) value_error
    check_distinct (part.player_id ∷ seen) parts

  unfoldable pub validate_match : MatchSnapshot fl → Result Error (Unit {0})
  unfolding check_distinct
  validate_match m = do
    raise_if (is_empty m.participants) value_error
    check_distinct [] m.participants

  abbrev pub verdict_of :
      Table Text Float → Table Text Bool → Table Text Float → Text → ParticipantVerdict fl
  verdict_of boosting eligibility party pid = record {
    player_id = pid;
    boosting_penalty_factor = lookup_or pid (zero_f fl) boosting;
    eligible_for_progression = lookup_or pid true eligibility;
    party_penalty_factor = lookup_or pid (zero_f fl) party;
  }

  -- The dict comprehension over the participants.
  unfoldable pub verdicts_into :
      Table Text Float
      → Table Text Bool
      → Table Text Float
      → Table Text (ParticipantVerdict fl)
      → List (ParticipantSnapshot fl)
      → Table Text (ParticipantVerdict fl)
  verdicts_into boosting eligibility party d [] = d
  verdicts_into boosting eligibility party d (part ∷ parts) =
      verdicts_into boosting eligibility party
        (insert part.player_id (verdict_of boosting eligibility party part.player_id) d) parts

  unfoldable pub assemble :
      MatchSnapshot fl
      → Table Text Float
      → Table Text Bool
      → List (IntegrityFlag fl)
      → Table Text Float
      → EvaluationResult fl
  unfolding verdicts_into
  assemble m boosting eligibility flags party = record {
    match_id = m.match_id;
    flags = flags;
    verdicts = verdicts_into boosting eligibility party [] m.participants;
  }

  -- `{pid: v.boosting_penalty_factor for pid, v in pure.verdicts.items()}`
  unfoldable pub boosting_of : Table Text (ParticipantVerdict fl) → Table Text Float
  boosting_of [] = []
  boosting_of ((pid, v) ∷ d) = (pid, v.boosting_penalty_factor) ∷ boosting_of d

  unfoldable pub eligibility_in : Table Text (ParticipantVerdict fl) → Table Text Bool
  eligibility_in [] = []
  eligibility_in ((pid, v) ∷ d) = (pid, v.eligible_for_progression) ∷ eligibility_in d

  module _ (py : Builtins fl) where
    unfoldable pub evaluate :
        MatchSnapshot fl → IntegrityParams fl → Result Error (EvaluationResult fl)
    unfolding assemble evaluate_rds evaluate_eligibility evaluate_duration evaluate_dispersion
    evaluate m p = do
      validate_integrity_params fl p
      validate_match m
      (boosting, rds_flags) ← evaluate_rds fl py m p
      let (eligibility, afk_flags) = evaluate_eligibility fl py m p
      ok (
          assemble m boosting eligibility
            (rds_flags
              ++ (afk_flags ++ (evaluate_duration fl py m p ++ evaluate_dispersion fl py m p)))
            [])

    unfoldable pub pair_keys_of : Table ℤ (List (ParticipantSnapshot fl)) → List Text
    unfolding subteam_pair_keys
    pair_keys_of [] = []
    pair_keys_of ((team, members) ∷ d) =
        subteam_pair_keys fl py (map (λ part. part.player_id) members) ++ pair_keys_of d

    abbrev pub append_flag : Option (IntegrityFlag fl) → EvaluationResult fl → EvaluationResult fl
    append_flag none r = r
    append_flag (some flag) r = record r { flags = r.flags ++ (flag ∷ []) }

    -- The part after the pure pass, at the moment `now`. The sets of the pairs and of the lobbies are apart,
    -- by their key prefixes.
    unfoldable pub with_stores :
        ℕ
        → Sets
        → Sets
        → MatchSnapshot fl
        → IntegrityParams fl
        → EvaluationResult fl
        → EvaluationResult fl × Sets × Sets
    unfolding group_subteams pair_keys_of observe_pairs evaluate_premade assemble boosting_of
        eligibility_in lobby_fingerprint observe_lobby build_repeated_lobby_flag
    with_stores now party_sets lobby_sets m p pure =
        let pairs = pair_keys_of (group_subteams fl [] m.participants) in
        let (pair_counts, party_sets') =
          observe_pairs now p.premade_window_seconds pairs m.match_id party_sets in
        let party = evaluate_premade fl py pair_counts p m in
        let result =
          assemble m (boosting_of pure.verdicts) (eligibility_in pure.verdicts) pure.flags party in
        let fingerprint = lobby_fingerprint fl py m in
        let (count, lobby_sets') =
          observe_lobby now p.repeated_lobby_window_seconds fingerprint m.match_id lobby_sets in
        (
          append_flag (build_repeated_lobby_flag fl m fingerprint count p) result,
          party_sets',
          lobby_sets',
        )

    unfoldable pub evaluate_async :
        ℕ
        → Sets
        → Sets
        → MatchSnapshot fl
        → IntegrityParams fl
        → Result Error (EvaluationResult fl × Sets × Sets)
    unfolding evaluate with_stores
    evaluate_async now party_sets lobby_sets m p =
        evaluate m p >>= λ pure. ok (with_stores now party_sets lobby_sets m p pure)
