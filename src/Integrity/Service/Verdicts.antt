-- ===== src/Integrity/Service/Verdicts.antt =====
-- What the verdicts of backend/arena/integrity/service.py say.
use arena_rank_project.Prelude.Int.{ltb_ℤ, pos}
use arena_rank_project.Integrity.Service.Lookups.{
  AreDistinct, lookup-verdicts_into, lookup-eligibility_of, lookup-eligibility_in, any_self,
  All-pair, validate_match-AreDistinct, append_flag-verdicts,
}
use arena_rank_project.Integrity.Service.Factors.{
  InUnit, AreInUnit, boosting_of-AreInUnit, evaluate_rds-AreInUnit, evaluate_premade-AreInUnit,
  zero-InUnit, verdicts_into-InUnit,
}
use arena_rank_project.Prelude.{
  ◌⊎◌, sym, inl, inr, arith, Bool-cases, ◌&&◌, ℕ, ◌≡◌, refl, ap, ◌∙◌, subst, Bool, true, false,
  Option, none, some, List, [], any, Text, text_eq, All, All-map,
}
use arena_rank_project.Prelude.Table.{
  Table, lookup, lookup_or, text_instance, int_eq, lookup_or-All,
}
use arena_rank_project.Prelude.Result.{ok, >>=-eq-ok, after, ok_inj}
use arena_rank_project.Floats.{Floats, IsOrdered}
use arena_rank_project.Integrity.Types.{
  Builtins, ParticipantSnapshot, MatchSnapshot, EvaluationResult, ParticipantVerdict,
}
use arena_rank_project.Integrity.Params.{IntegrityParams, validate_integrity_params}
use arena_rank_project.Integrity.Fingerprint.{Sets, observe_pairs}
use arena_rank_project.Integrity.Evaluators.{
  zero_f, one_f, is_eligible, eligibility_of, evaluate_eligibility, evaluate_rds,
}
use arena_rank_project.Integrity.Premade.{evaluate_premade, group_subteams}
use arena_rank_project.Integrity.Service.{
  validate_match, verdict_of, verdicts_into, assemble, pair_keys_of, boosting_of, eligibility_in,
  evaluate, with_stores, evaluate_async,
}

one_false : (a b : Bool) → (a && b) ≡ false → (a ≡ false) ⊎ (b ≡ false)
one_false true b h = inr h
one_false false b h = inl refl

not_both : (a b : Bool) → (a && b) ≡ true → ¬ ((a ≡ false) ⊎ (b ≡ false))
not_both a b h (inl e) = absurd (ground arith)
not_both a b h (inr e) = absurd (ground arith)

module _ (fl : Floats) where
  open fl use {Float, of_int, div, lt, sub}

  -- A participant may progress: it was not away, did not play too small a share of the rounds that there were,
  -- and did not deal too little damage in the rounds that it played.
  abbrev pub MayProgress : IntegrityParams fl → ParticipantSnapshot fl → Type 0
  MayProgress p part =
      (part.afk ≡ false)
      × ((ltb_ℤ (pos 0) part.rounds_total ≡ false)
          ⊎ (lt (div (of_int part.rounds_played) (of_int part.rounds_total)) p.afk_min_participation
              ≡ false))
      × ((ltb_ℤ (pos 0) part.rounds_played ≡ false)
          ⊎ (ltb_ℤ part.damage_dealt p.afk_min_damage ≡ false))

  -- The answer is whether it may.
  abbrev pub SaysProgress : IntegrityParams fl → ParticipantSnapshot fl → Bool → Type 0
  SaysProgress p part true = MayProgress p part
  SaysProgress p part false = ¬ (MayProgress p part)

  is_eligible-Says :
      (p : IntegrityParams fl) (part : ParticipantSnapshot fl)
      → SaysProgress p part (is_eligible fl part p)
  unfolding is_eligible
  is_eligible-Says p part =
      let few =
        lt (div (of_int part.rounds_played) (of_int part.rounds_total)) p.afk_min_participation in
      elim (Bool-cases part.afk) [
        | inl e ↦ rw e (λ may. absurd (cc))
        | inr e ↦ elim (Bool-cases (ltb_ℤ (pos 0) part.rounds_total && few)) [
          | inl a ↦ rw (e, a) (λ may. not_both _ _ a may.1)
          | inr a ↦
              elim (Bool-cases
                (ltb_ℤ (pos 0) part.rounds_played && ltb_ℤ part.damage_dealt p.afk_min_damage)) [
                  | inl b ↦ rw (e, a, b) (λ may. not_both _ _ b may.2)
                  | inr b ↦ rw (e, a, b) (refl, one_false _ _ a, one_false _ _ b)
                ]
        ]
      ]

  -- What the result says of a participant.
  pub record IsJudged (p : IntegrityParams fl) (vs : Table Text (ParticipantVerdict fl))
      (part : ParticipantSnapshot fl) : Type 0 where
    pub verdict : ParticipantVerdict fl
    pub found : lookup part.player_id vs ≡ some verdict
    pub same_id : verdict.player_id ≡ part.player_id
    pub eligible : SaysProgress p part verdict.eligible_for_progression
    pub boosting : InUnit fl verdict.boosting_penalty_factor
    pub party : InUnit fl verdict.party_penalty_factor

  -- What the pure pass says, for the second one to carry over.
  record IsPure (p : IntegrityParams fl) (parts : List (ParticipantSnapshot fl))
      (vs : Table Text (ParticipantVerdict fl)) : Type 0 where
    boosting : All (λ v. InUnit fl v.1.boosting_penalty_factor) vs
    eligible :
        All
          (λ part. lookup_or part.player_id true (eligibility_in fl vs) ≡ is_eligible fl part p)
          parts

  module _ (ord : IsOrdered fl) (unit : lt (one_f fl) (zero_f fl) ≡ false) (py : Builtins fl)
      (m : MatchSnapshot fl) (p : IntegrityParams fl) where
    assemble-IsPure :
        (b : Table Text Float)
        → AreInUnit fl b
        → AreDistinct fl m.participants
        → IsPure p m.participants
            (verdicts_into fl b (eligibility_of fl py p [] m.participants).0 [] [] m.participants)
    assemble-IsPure b hb distinct =
        let e = (eligibility_of fl py p [] m.participants).0 in
        let vs = verdicts_into fl b e [] [] m.participants in
        record {
          boosting = verdicts_into-InUnit fl ord unit b e [] [] m.participants hb tt;
          eligible =
              All-map _ _ m.participants
                (λ part
                    (h : (any (λ q. text_eq q.player_id part.player_id) m.participants ≡ true)
                      × (lookup part.player_id e ≡ some (is_eligible fl part p))).
                  let found : lookup part.player_id vs
                      ≡ some (verdict_of fl b e [] part.player_id) =
                    lookup-verdicts_into fl b e [] [] m.participants part.player_id ∙ rw h.0 in
                  lookup-eligibility_in fl vs part.player_id
                  ∙ rw found (ap {A = Option Bool} (λ o. elim o [ none ↦ true | some w ↦ w ]) h.1))
                (All-pair fl _ _ m.participants (any_self fl m.participants)
                  (lookup-eligibility_of fl py p [] m.participants distinct));
        }

    evaluate-IsPure :
        (pure : EvaluationResult fl)
        → evaluate fl py m p ≡ ok pure
        → IsPure p m.participants pure.verdicts
    unfolding evaluate evaluate_eligibility assemble
    evaluate-IsPure pure h =
        let h₁ = after (validate_integrity_params fl p) _ h in
        let (_, sound, _) = >>=-eq-ok (validate_match fl m) _ h₁ in
        let (rds, e, last) =
          >>=-eq-ok (evaluate_rds fl py m p) _ (after (validate_match fl m) _ h₁) in
        subst (λ r. IsPure p m.participants r.verdicts) (ok_inj last)
          (assemble-IsPure rds.0 (evaluate_rds-AreInUnit fl ord unit py m p rds e)
            (validate_match-AreDistinct fl m sound))

    with_stores-IsJudged :
        (now : ℕ) (party_sets lobby_sets : Sets) (pure : EvaluationResult fl)
        → IsPure p m.participants pure.verdicts
        → All
            (IsJudged p (with_stores fl py now party_sets lobby_sets m p pure).0.verdicts)
            m.participants
    unfolding with_stores assemble
    with_stores-IsJudged now party_sets lobby_sets pure facts =
        let pairs = pair_keys_of fl py (group_subteams fl [] m.participants) in
        let counts = (observe_pairs now p.premade_window_seconds pairs m.match_id party_sets).0 in
        let b = boosting_of fl pure.verdicts in
        let e = eligibility_in fl pure.verdicts in
        let q = evaluate_premade fl py counts p m in
        let in_b = boosting_of-AreInUnit fl pure.verdicts facts.boosting in
        let in_q = evaluate_premade-AreInUnit fl ord unit py counts p m in
        All-map _ _ m.participants
          (λ part h. record {
            verdict = verdict_of fl b e q part.player_id;
            found =
                ap (λ vs. lookup part.player_id vs) (append_flag-verdicts fl py _ _)
                ∙ lookup-verdicts_into fl b e q [] m.participants part.player_id
                ∙ rw h.0;
            same_id = refl;
            eligible = subst (SaysProgress p part) (sym h.1) (is_eligible-Says p part);
            boosting =
                lookup_or-All (InUnit fl) part.player_id (zero_f fl) b (zero-InUnit fl ord unit)
                  in_b;
            party =
                lookup_or-All (InUnit fl) part.player_id (zero_f fl) q (zero-InUnit fl ord unit)
                  in_q;
          })
          (All-pair fl _ _ m.participants (any_self fl m.participants) facts.eligible)

  -- Where the floats are totally ordered, so that none is NaN, and 1 is not below 0, every participant of a
  -- match that is evaluated gets a verdict under its own id. It is eligible exactly if it was not away,
  -- played the least share of the rounds, if there were any, and dealt the least damage, if it played any.
  -- The two penalty factors are between 0 and 1, whatever the history in the stores.
  pub evaluate_async-IsJudged :
      IsOrdered fl
      → lt (one_f fl) (zero_f fl) ≡ false
      → (py : Builtins fl) (now : ℕ) (party_sets lobby_sets : Sets) (m : MatchSnapshot fl)
        (p : IntegrityParams fl) (out : EvaluationResult fl × Sets × Sets)
      → evaluate_async fl py now party_sets lobby_sets m p ≡ ok out
      → All (IsJudged p out.0.verdicts) m.participants
  unfolding evaluate_async
  evaluate_async-IsJudged ord unit py now party_sets lobby_sets m p out h =
      let (pure, e, last) = >>=-eq-ok (evaluate fl py m p) _ h in
      subst (λ r. All (IsJudged p r.0.verdicts) m.participants) (ok_inj last)
        (with_stores-IsJudged ord unit py m p now party_sets lobby_sets pure
          (evaluate-IsPure ord unit py m p pure e))
