-- ===== src/Integrity/Service/Factors.antt =====
-- The penalty factors of backend/arena/integrity: each is between 0 and 1.
use arena_rank_project.Prelude.{
  ℕ, ◌≡◌, subst, Bool, false, Option, none, some, List, [], ◌∷◌, Text, All, Bool-cases,
  Option-cases, inl, inr,
}
use arena_rank_project.Prelude.Int.{ℤ}
use arena_rank_project.Prelude.Table.{
  Table, insert, text_instance, int_eq, insert-All, lookup_or-All,
}
use arena_rank_project.Prelude.Result.{ok, >>=-eq-ok, ok_inj}
use arena_rank_project.Floats.{Floats, IsOrdered, clamp, clamp_bounds}
use arena_rank_project.Integrity.Types.{
  Builtins, IntegrityFlag, ParticipantSnapshot, MatchSnapshot, ParticipantVerdict,
}
use arena_rank_project.Integrity.Params.{IntegrityParams, severity_of}
use arena_rank_project.Integrity.Evaluators.{
  zero_f, one_f, zero_factors, with_factor, rds_party, rds_parties, evaluate_rds, tier_for,
  strongest_from, weakest_from, parties,
}
use arena_rank_project.Integrity.Premade.{
  member_factor, subteam_factors, premade_subteam, premade_subteams, evaluate_premade,
  group_subteams, homogeneity_of,
}
use arena_rank_project.Integrity.Service.{verdict_of, verdicts_into, boosting_of}

module _ (fl : Floats) where
  open fl use {Float, lt, sub}

  abbrev pub InUnit : Float → Type 0
  InUnit x = (lt x (zero_f fl) ≡ false) × (lt (one_f fl) x ≡ false)

  abbrev pub AreInUnit : Table Text Float → Type 0
  AreInUnit = All (λ e. InUnit e.1)

  pub boosting_of-AreInUnit :
      (vs : Table Text (ParticipantVerdict fl))
      → All (λ e. InUnit e.1.boosting_penalty_factor) vs
      → AreInUnit (boosting_of fl vs)
  unfolding boosting_of
  boosting_of-AreInUnit [] h = tt
  boosting_of-AreInUnit ((pid, v) ∷ vs) h = (h.0, boosting_of-AreInUnit vs h.1)

  module _ (ord : IsOrdered fl) (unit : lt (one_f fl) (zero_f fl) ≡ false) where
    pub zero-InUnit : InUnit (zero_f fl)
    zero-InUnit = (ord.lt_irrefl (zero_f fl), unit)

    clamp-InUnit : (x : Float) → InUnit (clamp fl x (zero_f fl) (one_f fl))
    clamp-InUnit x = clamp_bounds fl ord x (zero_f fl) (one_f fl) unit

    zero_factors-AreInUnit :
        (d : Table Text Float) (parts : List (ParticipantSnapshot fl))
        → AreInUnit d
        → AreInUnit (zero_factors fl d parts)
    unfolding zero_factors
    zero_factors-AreInUnit d [] h = h
    zero_factors-AreInUnit d (part ∷ parts) h =
        zero_factors-AreInUnit (insert part.player_id (zero_f fl) d) parts
          (insert-All _ part.player_id (zero_f fl) d zero-InUnit h)

    pub verdicts_into-InUnit :
        (b : Table Text Float) (e : Table Text Bool) (q : Table Text Float)
        (d : Table Text (ParticipantVerdict fl)) (parts : List (ParticipantSnapshot fl))
        → AreInUnit b
        → All (λ v. InUnit v.1.boosting_penalty_factor) d
        → All (λ v. InUnit v.1.boosting_penalty_factor) (verdicts_into fl b e q d parts)
    unfolding verdicts_into
    verdicts_into-InUnit b e q d [] hb h = h
    verdicts_into-InUnit b e q d (part ∷ parts) hb h =
        let v = verdict_of fl b e q part.player_id in
        verdicts_into-InUnit b e q (insert part.player_id v d) parts hb (
          insert-All _ part.player_id v d
            (lookup_or-All InUnit part.player_id (zero_f fl) b zero-InUnit hb) h)

    module _ (py : Builtins fl) (p : IntegrityParams fl) where
      -- The factor that a party hands out, if it is penalized.
      abbrev Penalizes : Option ((Text × Float) × IntegrityFlag fl) → Type 0
      Penalizes none = Unit
      Penalizes (some out) = InUnit out.0.1

      rds_party-Penalizes :
          (party_id : Text) (first : ParticipantSnapshot fl)
          (others : List (ParticipantSnapshot fl))
          (out : Option ((Text × Float) × IntegrityFlag fl))
          → rds_party fl py p party_id first others ≡ ok out
          → Penalizes out
      unfolding rds_party
      rds_party-Penalizes party_id first others none h = tt
      rds_party-Penalizes party_id first others (some out) h =
          let gap = sub (strongest_from fl first others).cr (weakest_from fl first others).cr in
          elim (Bool-cases (lt gap p.rds_min_gap)) [
            | inl e ↦ absurd (let found = rw e at h in cc)
            | inr e ↦ elim (Option-cases (tier_for fl gap none p.rds_tiers)) [
              | inl e' ↦ absurd (let found = rw (e, e') at h in cc)
              | inr (tier, e') ↦
                  let (severity, _, last) =
                    >>=-eq-ok (severity_of tier.severity) _ (rw (e, e') at h) in
                  subst Penalizes (ok_inj last) (clamp-InUnit tier.penalty_factor)
            ]
          ]

      with_factor-AreInUnit :
          (out : Option ((Text × Float) × IntegrityFlag fl)) (factors : Table Text Float)
          → Penalizes out
          → AreInUnit factors
          → AreInUnit (with_factor fl py out factors)
      with_factor-AreInUnit none factors h hs = hs
      with_factor-AreInUnit (some out) factors h hs = insert-All _ out.0.0 out.0.1 factors h hs

      rds_parties-AreInUnit :
          (factors : Table Text Float) (ps : Table Text (List (ParticipantSnapshot fl)))
          (r : Table Text Float × List (IntegrityFlag fl))
          → AreInUnit factors
          → rds_parties fl py p factors ps ≡ ok r
          → AreInUnit r.0
      unfolding rds_parties
      rds_parties-AreInUnit factors [] r hs h =
          subst (λ r. AreInUnit r.0) {x = (factors, [])} (ok_inj h) hs
      rds_parties-AreInUnit factors ((party_id, []) ∷ ps) r hs h =
          rds_parties-AreInUnit factors ps r hs h
      rds_parties-AreInUnit factors ((party_id, first ∷ others) ∷ ps) r hs h =
          let (out, e, h') = >>=-eq-ok (rds_party fl py p party_id first others) _ h in
          let factors' = with_factor fl py out factors in
          let (rest, e', last) = >>=-eq-ok (rds_parties fl py p factors' ps) _ h' in
          subst (λ r. AreInUnit r.0) {y = r} (ok_inj last)
            (rds_parties-AreInUnit factors' ps rest
              (with_factor-AreInUnit out factors (rds_party-Penalizes party_id first others out e)
                hs)
              e')

      module _ (counts : Table Text ℕ) where
        subteam_factors-AreInUnit :
            (homogeneity : Float) (members : List (ParticipantSnapshot fl))
            (factors : Table Text Float) (ms : List (ParticipantSnapshot fl))
            → AreInUnit factors
            → AreInUnit (subteam_factors fl py counts p homogeneity members factors ms)
        unfolding subteam_factors member_factor
        subteam_factors-AreInUnit homogeneity members factors [] h = h
        subteam_factors-AreInUnit homogeneity members factors (m ∷ ms) h =
            subteam_factors-AreInUnit homogeneity members
              (insert m.player_id (member_factor fl py counts p homogeneity members m) factors) ms
              (insert-All _ m.player_id (member_factor fl py counts p homogeneity members m) factors
                (clamp-InUnit _) h)

        premade_subteam-AreInUnit :
            (members : List (ParticipantSnapshot fl)) (factors : Table Text Float)
            → AreInUnit factors
            → AreInUnit (premade_subteam fl py counts p members factors)
        unfolding premade_subteam
        premade_subteam-AreInUnit [] factors h = h
        premade_subteam-AreInUnit (m ∷ []) factors h = h
        premade_subteam-AreInUnit (m ∷ o ∷ others) factors h =
            elim (Bool-cases (lt (zero_f fl) (homogeneity_of fl m.cr (o ∷ others) p))) [
              | inl e ↦
                  rw e (subteam_factors-AreInUnit _ (m ∷ o ∷ others) factors (m ∷ o ∷ others) h)
              | inr e ↦ rw e h
            ]

        premade_subteams-AreInUnit :
            (d : Table ℤ (List (ParticipantSnapshot fl))) (factors : Table Text Float)
            → AreInUnit factors
            → AreInUnit (premade_subteams fl py counts p d factors)
        unfolding premade_subteams
        premade_subteams-AreInUnit [] factors h = h
        premade_subteams-AreInUnit ((team, members) ∷ d) factors h =
            premade_subteams-AreInUnit d (premade_subteam fl py counts p members factors)
              (premade_subteam-AreInUnit members factors h)

  pub evaluate_rds-AreInUnit :
      IsOrdered fl
      → lt (one_f fl) (zero_f fl) ≡ false
      → (py : Builtins fl) (m : MatchSnapshot fl) (p : IntegrityParams fl)
        (r : Table Text Float × List (IntegrityFlag fl))
      → evaluate_rds fl py m p ≡ ok r
      → AreInUnit r.0
  unfolding evaluate_rds
  evaluate_rds-AreInUnit ord unit py m p r h =
      rds_parties-AreInUnit ord unit py p (zero_factors fl [] m.participants) (parties fl m) r
        (zero_factors-AreInUnit ord unit [] m.participants tt) h

  pub evaluate_premade-AreInUnit :
      IsOrdered fl
      → lt (one_f fl) (zero_f fl) ≡ false
      → (py : Builtins fl) (counts : Table Text ℕ) (p : IntegrityParams fl) (m : MatchSnapshot fl)
      → AreInUnit (evaluate_premade fl py counts p m)
  unfolding evaluate_premade
  evaluate_premade-AreInUnit ord unit py counts p m =
      premade_subteams-AreInUnit ord unit py p counts (group_subteams fl [] m.participants)
        (zero_factors fl [] m.participants) (zero_factors-AreInUnit ord unit [] m.participants tt)
