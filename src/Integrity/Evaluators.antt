-- ===== src/Integrity/Evaluators.antt =====
-- backend/arena/integrity/evaluators.py: eligibility, the disparity of a party, the dampening of premades,
-- and the flags on duration, dispersion and repeated lobbies.
use arena_rank_project.Prelude.{
  ℕ, Bool, true, false, not, Option, none, some, List, [], ◌∷◌, ◌++◌, if◌then◌else◌, ◌&&◌, leb,
  length, Text,
}
use arena_rank_project.Prelude.Int.{pos, ltb_ℤ}
use arena_rank_project.Prelude.Table.{Table, lookup_or, insert, text_instance, int_eq}
use arena_rank_project.Prelude.Result.{Result, ok, ◌>>=◌}
use arena_rank_project.Floats.{Floats, clamp}
use arena_rank_project.Rating.Params.{Error}
use arena_rank_project.Integrity.Types.{
  FlagSeverity, info, warn, boosting_rds, afk_ineligible, Builtins, afk_metadata, rds_metadata,
  IntegrityFlag, ParticipantSnapshot, MatchSnapshot,
}
use arena_rank_project.Integrity.Params.{RdsTier, IntegrityParams, severity_of}

module _ (fl : Floats) where
  open fl use {Float, of_int, add, sub, mul, div, lt}

  abbrev pub zero_f : Float
  zero_f = of_int (pos 0)

  abbrev pub one_f : Float
  one_f = of_int (pos 1)

  -- `rounds_played / rounds_total`
  abbrev participation_of : ParticipantSnapshot fl → Float
  participation_of part = div (of_int part.rounds_played) (of_int part.rounds_total)

  unfoldable pub is_eligible : ParticipantSnapshot fl → IntegrityParams fl → Bool
  is_eligible part p =
      if part.afk
      then false
      else if ltb_ℤ (pos 0) part.rounds_total && lt (participation_of part) p.afk_min_participation
      then false
      else if ltb_ℤ (pos 0) part.rounds_played && ltb_ℤ part.damage_dealt p.afk_min_damage
      then false
      else true

  -- `parties.setdefault(pid, []).append(part)` for every participant with a party.
  unfoldable pub group_parties :
      Table Text (List (ParticipantSnapshot fl))
      → List (ParticipantSnapshot fl)
      → Table Text (List (ParticipantSnapshot fl))
  group_parties d [] = d
  group_parties d (part ∷ parts) = elim (part.party_id) [
    | none ↦ group_parties d parts
    | some pid ↦ group_parties (insert pid (lookup_or pid [] d ++ (part ∷ [])) d) parts
  ]

  -- The parties of two or more.
  unfoldable pub premades :
      Table Text (List (ParticipantSnapshot fl)) → Table Text (List (ParticipantSnapshot fl))
  premades [] = []
  premades ((pid, members) ∷ d) =
      let rest = premades d in if leb 2 (length members) then (pid, members) ∷ rest else rest

  unfoldable pub parties : MatchSnapshot fl → Table Text (List (ParticipantSnapshot fl))
  unfolding group_parties premades
  parties m = premades (group_parties [] m.participants)

  -- `max(members, key=lambda m: m.cr)` and `min`, from the first member on: the first of equal ones.
  unfoldable pub strongest_from :
      ParticipantSnapshot fl → List (ParticipantSnapshot fl) → ParticipantSnapshot fl
  strongest_from best [] = best
  strongest_from best (m ∷ ms) = strongest_from (if lt best.cr m.cr then m else best) ms

  unfoldable pub weakest_from :
      ParticipantSnapshot fl → List (ParticipantSnapshot fl) → ParticipantSnapshot fl
  weakest_from least [] = least
  weakest_from least (m ∷ ms) = weakest_from (if lt m.cr least.cr then m else least) ms

  -- The last tier that the gap reaches.
  unfoldable pub tier_for : Float → Option (RdsTier fl) → List (RdsTier fl) → Option (RdsTier fl)
  tier_for gap found [] = found
  tier_for gap found (t ∷ ts) =
      tier_for gap (if not (lt gap t.min_cr_gap) then some t else found) ts

  -- `{part.player_id: 0.0 for part in match.participants}`
  unfoldable pub zero_factors : Table Text Float → List (ParticipantSnapshot fl) → Table Text Float
  zero_factors d [] = d
  zero_factors d (part ∷ parts) = zero_factors (insert part.player_id zero_f d) parts

  module _ (py : Builtins fl) where
    unfoldable pub afk_flag : ParticipantSnapshot fl → IntegrityFlag fl
    afk_flag part =
        let participation =
          if ltb_ℤ (pos 0) part.rounds_total then participation_of part else zero_f in
        record {
          flag_type = afk_ineligible;
          severity = if part.afk then warn else info;
          player_id = some part.player_id;
          metadata =
              afk_metadata part.afk (py.round_to participation 4) part.rounds_played
                part.rounds_total part.damage_dealt;
        }

    unfoldable pub eligibility_of :
        IntegrityParams fl
        → Table Text Bool
        → List (ParticipantSnapshot fl)
        → Table Text Bool × List (IntegrityFlag fl)
    unfolding is_eligible afk_flag
    eligibility_of p d [] = (d, [])
    eligibility_of p d (part ∷ parts) =
        let is_ok = is_eligible part p in
        let rest = eligibility_of p (insert part.player_id is_ok d) parts in
        (rest.0, if is_ok then rest.1 else afk_flag part ∷ rest.1)

    unfoldable pub evaluate_eligibility :
        MatchSnapshot fl → IntegrityParams fl → Table Text Bool × List (IntegrityFlag fl)
    unfolding eligibility_of
    evaluate_eligibility m p = eligibility_of p [] m.participants

    unfoldable pub rds_flag :
        Text
        → RdsTier fl
        → FlagSeverity
        → Float
        → ParticipantSnapshot fl
        → ParticipantSnapshot fl
        → ℕ
        → IntegrityFlag fl
    rds_flag party_id tier severity gap strongest weakest size = record {
      flag_type = boosting_rds;
      severity = severity;
      player_id = some strongest.player_id;
      metadata =
          rds_metadata party_id (py.round_to gap 2) tier.label tier.penalty_factor
            strongest.player_id weakest.player_id size;
    }

    -- One round of the loop over the parties: the factor of a booster, and the flag.
    unfoldable pub rds_party :
        IntegrityParams fl
        → Text
        → ParticipantSnapshot fl
        → List (ParticipantSnapshot fl)
        → Result Error (Option ((Text × Float) × IntegrityFlag fl))
    unfolding strongest_from weakest_from tier_for severity_of rds_flag clamp
    rds_party p party_id first others =
        let strongest = strongest_from first others in
        let weakest = weakest_from first others in
        let gap = sub strongest.cr weakest.cr in
        if lt gap p.rds_min_gap then ok none else elim (tier_for gap none p.rds_tiers) [
          | none ↦ ok none
          | some tier ↦ severity_of tier.severity >>= λ severity. ok (
              some (
                (strongest.player_id, clamp fl tier.penalty_factor zero_f one_f),
                rds_flag party_id tier severity gap strongest weakest (length (first ∷ others)),
              ))
        ]

    -- `factors[strongest.player_id] = ...` and `flags.append(...)`, if the party is penalized.
    abbrev pub with_factor :
        Option ((Text × Float) × IntegrityFlag fl) → Table Text Float → Table Text Float
    with_factor none factors = factors
    with_factor (some out) factors = insert out.0.0 out.0.1 factors

    abbrev pub with_flag :
        Option ((Text × Float) × IntegrityFlag fl)
        → List (IntegrityFlag fl)
        → List (IntegrityFlag fl)
    with_flag none flags = flags
    with_flag (some out) flags = out.1 ∷ flags

    -- The loop over the parties, each of which has two members at least.
    unfoldable pub rds_parties :
        IntegrityParams fl
        → Table Text Float
        → Table Text (List (ParticipantSnapshot fl))
        → Result Error (Table Text Float × List (IntegrityFlag fl))
    unfolding rds_party
    rds_parties p factors [] = ok (factors, [])
    rds_parties p factors ((party_id, []) ∷ ps) = rds_parties p factors ps
    rds_parties p factors ((party_id, first ∷ others) ∷ ps) = do
      out ← rds_party p party_id first others
      rest ← rds_parties p (with_factor out factors) ps
      ok (rest.0, with_flag out rest.1)

    unfoldable pub evaluate_rds :
        MatchSnapshot fl
        → IntegrityParams fl
        → Result Error (Table Text Float × List (IntegrityFlag fl))
    unfolding zero_factors parties rds_parties
    evaluate_rds m p = rds_parties p (zero_factors [] m.participants) (parties m)
