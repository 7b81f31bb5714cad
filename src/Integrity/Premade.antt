-- ===== src/Integrity/Premade.antt =====
-- The premade dampener of backend/arena/integrity/evaluators.py.
use arena_rank_project.Prelude.{ℕ, List, [], ◌∷◌, ◌++◌, map, if◌then◌else◌, Text, text_eq}
use arena_rank_project.Prelude.Int.{ℤ, pos, ◌-ℤ◌}
use arena_rank_project.Prelude.Table.{Table, lookup_or, insert, text_instance, int_eq}
use arena_rank_project.Floats.{Floats, clamp, fmax, fmin}
use arena_rank_project.Integrity.Types.{Builtins, ParticipantSnapshot, MatchSnapshot}
use arena_rank_project.Integrity.Params.{IntegrityParams}
use arena_rank_project.Integrity.Fingerprint.{pair_key}
use arena_rank_project.Integrity.Evaluators.{zero_f, one_f, zero_factors}

module _ (fl : Floats) where
  open fl use {Float, of_int, sub, mul, div, lt}

  -- `_confidence`
  unfoldable pub confidence_of : ℕ → IntegrityParams fl → Float
  unfolding clamp
  confidence_of count p =
      clamp fl (div (of_int (pos count -ℤ pos 1)) (of_int (p.premade_repeat_threshold -ℤ pos 1)))
        (zero_f fl) (one_f fl)

  -- `subteams.setdefault(part.team_id, []).append(part)`
  unfoldable pub group_subteams :
      Table ℤ (List (ParticipantSnapshot fl))
      → List (ParticipantSnapshot fl)
      → Table ℤ (List (ParticipantSnapshot fl))
  group_subteams d [] = d
  group_subteams d (part ∷ parts) =
      group_subteams (insert part.team_id (lookup_or part.team_id [] d ++ (part ∷ [])) d) parts

  -- `max` and `min` of a list that starts with the value given.
  unfoldable pub greatest_from : Float → List Float → Float
  unfolding fmax
  greatest_from x [] = x
  greatest_from x (y ∷ ys) = greatest_from (fmax fl x y) ys

  unfoldable pub least_from : Float → List Float → Float
  unfolding fmin
  least_from x [] = x
  least_from x (y ∷ ys) = least_from (fmin fl x y) ys

  unfoldable pub homogeneity_of : Float → List (ParticipantSnapshot fl) → IntegrityParams fl → Float
  unfolding greatest_from least_from clamp
  homogeneity_of cr others p =
      let crs = map (λ o. o.cr) others in
      let spread = sub (greatest_from cr crs) (least_from cr crs) in
      clamp fl (sub (one_f fl) (div spread p.premade_homogeneity_gap)) (zero_f fl) (one_f fl)

  module _ (py : Builtins fl) (pair_counts : Table Text ℕ) (p : IntegrityParams fl) where
    -- The loop over the others of the subteam.
    unfoldable pub confidence_from : Text → Float → List (ParticipantSnapshot fl) → Float
    unfolding confidence_of pair_key fmax
    confidence_from pid confidence [] = confidence
    confidence_from pid confidence (other ∷ others) =
        if text_eq other.player_id pid
        then confidence_from pid confidence others
        else confidence_from pid
            (fmax fl confidence
              (confidence_of (lookup_or (pair_key fl py pid other.player_id) 0 pair_counts) p))
            others

    unfoldable pub member_factor :
        Float → List (ParticipantSnapshot fl) → ParticipantSnapshot fl → Float
    unfolding confidence_from clamp
    member_factor homogeneity members member =
        let confidence = confidence_from member.player_id (zero_f fl) members in
        clamp fl (mul (mul p.premade_strength confidence) homogeneity) (zero_f fl) (one_f fl)

    unfoldable pub subteam_factors :
        Float
        → List (ParticipantSnapshot fl)
        → Table Text Float
        → List (ParticipantSnapshot fl)
        → Table Text Float
    unfolding member_factor
    subteam_factors homogeneity members factors [] = factors
    subteam_factors homogeneity members factors (m ∷ ms) =
        subteam_factors homogeneity members
          (insert m.player_id (member_factor homogeneity members m) factors) ms

    -- One round of the loop over the subteams.
    unfoldable pub premade_subteam :
        List (ParticipantSnapshot fl) → Table Text Float → Table Text Float
    unfolding homogeneity_of subteam_factors
    premade_subteam [] factors = factors
    premade_subteam (m ∷ []) factors = factors
    premade_subteam (m ∷ o ∷ others) factors =
        let homogeneity = homogeneity_of m.cr (o ∷ others) p in
        if lt (zero_f fl) homogeneity
        then subteam_factors homogeneity (m ∷ o ∷ others) factors (m ∷ o ∷ others)
        else factors

    unfoldable pub premade_subteams :
        Table ℤ (List (ParticipantSnapshot fl)) → Table Text Float → Table Text Float
    unfolding premade_subteam
    premade_subteams [] factors = factors
    premade_subteams ((team, members) ∷ d) factors =
        premade_subteams d (premade_subteam members factors)

    unfoldable pub evaluate_premade : MatchSnapshot fl → Table Text Float
    unfolding premade_subteams group_subteams zero_factors
    evaluate_premade m =
        premade_subteams (group_subteams [] m.participants) (zero_factors fl [] m.participants)
