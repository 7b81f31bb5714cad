-- ===== src/Integrity/Signals.antt =====
-- The flags on a whole match, of backend/arena/integrity/evaluators.py: duration, dispersion and repeated
-- lobbies.
use arena_rank_project.Prelude.{
  ℕ, not, Option, none, some, List, [], ◌∷◌, map, if◌then◌else◌, ◌||◌, length, Text,
}
use arena_rank_project.Prelude.Int.{pos, ltb_ℤ, leb_ℤ}
use arena_rank_project.Floats.{Floats}
use arena_rank_project.Rating.Modifiers.{fabs}
use arena_rank_project.Integrity.Types.{
  FlagSeverity, warn, critical, repeated_lobby, unusual_duration, rating_dispersion, Builtins,
  duration_metadata, dispersion_metadata, lobby_metadata, IntegrityFlag, MatchSnapshot,
}
use arena_rank_project.Integrity.Params.{IntegrityParams}
use arena_rank_project.Integrity.Fingerprint.{distinct_texts}
use arena_rank_project.Integrity.Premade.{greatest_from, least_from}

module _ (fl : Floats) where
  open fl use {Float, of_int, sub, div, lt}

  abbrev z_score : MatchSnapshot fl → IntegrityParams fl → Float
  z_score m p = div (sub (of_int m.duration_seconds) p.duration_mean_seconds) p.duration_std_seconds

  unfoldable pub duration_severity : MatchSnapshot fl → IntegrityParams fl → Option FlagSeverity
  duration_severity m p =
      let abs_z = fabs fl (z_score m p) in
      if ltb_ℤ m.duration_seconds p.duration_min_seconds || not (lt abs_z p.duration_z_critical)
      then some critical
      else if not (lt abs_z p.duration_z_warn)
      then some warn
      else none

  unfoldable pub dispersion_severity : Float → IntegrityParams fl → Option FlagSeverity
  dispersion_severity spread p =
      if not (lt spread p.dispersion_cr_critical)
      then some critical
      else if not (lt spread p.dispersion_cr_warn)
      then some warn
      else none

  module _ (py : Builtins fl) where
    unfoldable pub evaluate_duration :
        MatchSnapshot fl → IntegrityParams fl → List (IntegrityFlag fl)
    unfolding duration_severity
    evaluate_duration m p = elim (duration_severity m p) [
      | none ↦ []
      | some severity ↦
          record {
            flag_type = unusual_duration;
            severity = severity;
            player_id = none;
            metadata =
                duration_metadata m.duration_seconds (py.round_to (z_score m p) 3)
                  p.duration_mean_seconds p.duration_std_seconds
                  (ltb_ℤ m.duration_seconds p.duration_min_seconds);
          }
          ∷ []
    ]

    dispersion_of : Float → List Float → IntegrityParams fl → List (IntegrityFlag fl)
    unfolding dispersion_severity greatest_from least_from
    dispersion_of cr crs p =
        let high = greatest_from fl cr crs in
        let low = least_from fl cr crs in
        elim (dispersion_severity (sub high low) p) [
          | none ↦ []
          | some severity ↦
              record {
                flag_type = rating_dispersion;
                severity = severity;
                player_id = none;
                metadata =
                    dispersion_metadata (py.round_to (sub high low) 2) (py.round_to high 2)
                      (py.round_to low 2) p.dispersion_cr_warn p.dispersion_cr_critical;
              }
              ∷ []
        ]

    unfoldable pub evaluate_dispersion :
        MatchSnapshot fl → IntegrityParams fl → List (IntegrityFlag fl)
    unfolding dispersion_of
    evaluate_dispersion m p = elim (m.participants) [
      | [] ↦ []
      | ◌∷◌ part parts ↦ dispersion_of part.cr (map (λ o. o.cr) parts) p
    ]

  unfoldable pub build_repeated_lobby_flag :
      MatchSnapshot fl → Text → ℕ → IntegrityParams fl → Option (IntegrityFlag fl)
  unfolding distinct_texts
  build_repeated_lobby_flag m fingerprint count p =
      if ltb_ℤ (pos count) p.repeated_lobby_threshold
      then none
      else some record {
        flag_type = repeated_lobby;
        severity = if leb_ℤ p.repeated_lobby_critical (pos count) then critical else warn;
        player_id = none;
        metadata =
            lobby_metadata fingerprint count p.repeated_lobby_threshold
              p.repeated_lobby_window_seconds
              (length (distinct_texts (map (λ part. part.player_id) m.participants)));
      }
