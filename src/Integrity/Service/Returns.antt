-- ===== src/Integrity/Service/Returns.antt =====
-- When the evaluation of backend/arena/integrity/service.py returns.
use arena_rank_project.Prelude.{
  ℕ, ◌≡◌, refl, subst, Bool, true, false, not, Option, none, some, List, [], ◌∷◌, Text, text_eq,
  arith, All, Bool-cases, Option-cases, inl, inr, ◌||◌,
}
use arena_rank_project.Prelude.Table.{Table, text_instance}
use arena_rank_project.Prelude.Result.{
  ok, raise_if, >>=-eq-ok, after, Returns, bind-Returns, if-Returns,
}
use arena_rank_project.Floats.{Floats}
use arena_rank_project.Rating.Params.{value_error}
use arena_rank_project.Integrity.Types.{
  info, warn, critical, Builtins, ParticipantSnapshot, MatchSnapshot,
}
use arena_rank_project.Integrity.Params.{
  validate_scalars, in_unit, info_text, warn_text, critical_text, RdsTier, IntegrityParams,
  validate_integrity_params, validate_tier, validate_tiers, severity_of, is_severity,
}
use arena_rank_project.Integrity.Fingerprint.{Sets}
use arena_rank_project.Integrity.Evaluators.{
  zero_factors, parties, with_factor, rds_party, rds_parties, evaluate_rds, tier_for,
  strongest_from, weakest_from,
}
use arena_rank_project.Integrity.Service.{validate_match, evaluate, evaluate_async}

raise_if-ok : {E : Type 0} (b : Bool) (e : E) → raise_if (not b) e ≡ ok tt → b ≡ true
raise_if-ok true e h = refl
raise_if-ok false e h = cc

module _ (fl : Floats) where
  open fl use {Float, lt, sub, is_finite}

  tier_for-All :
      (P : RdsTier fl → Type 0) (gap : Float) (found : Option (RdsTier fl)) (ts : List (RdsTier fl))
      {t : RdsTier fl}
      → ((u : RdsTier fl) → found ≡ some u → P u)
      → All P ts
      → tier_for fl gap found ts ≡ some t
      → P t
  unfolding tier_for
  tier_for-All P gap found [] h hs e = h _ e
  tier_for-All P gap found (t ∷ ts) h hs e = elim (Bool-cases (lt gap t.min_cr_gap)) [
    | inl c ↦ tier_for-All P gap found ts h hs.1 (rw c at e)
    | inr c ↦ tier_for-All P gap (some t) ts (λ u same. subst P (cc) hs.0) hs.1 (rw c at e)
  ]

  severity_of-Returns : (value : Text) → is_severity value ≡ true → Returns (severity_of value)
  unfolding severity_of is_severity
  severity_of-Returns value h = elim (Bool-cases (text_eq value info_text)) [
    | inl e ↦ rw e (info, refl)
    | inr e ↦ elim (Bool-cases (text_eq value warn_text)) [
      | inl e' ↦ rw (e, e') (warn, refl)
      | inr e' ↦
          let e'' : text_eq value critical_text ≡ true = ground arith in
          rw (e, e', e'') (critical, refl)
    ]
  ]

  validate_tier-severity :
      (t : RdsTier fl) → validate_tier fl t ≡ ok tt → is_severity t.severity ≡ true
  unfolding validate_tier
  validate_tier-severity t h =
      let h₁ =
        after
          (raise_if (not (is_finite t.min_cr_gap) || not (is_finite t.penalty_factor)) value_error)
          _ h in
      let h₂ = after (raise_if (not (in_unit fl t.penalty_factor)) value_error) _ h₁ in
      raise_if-ok (is_severity t.severity) _ h₂

  validate_tiers-All :
      (ts : List (RdsTier fl))
      → validate_tiers fl ts ≡ ok tt
      → All (λ t. is_severity t.severity ≡ true) ts
  unfolding validate_tiers
  validate_tiers-All [] h = tt
  validate_tiers-All (t ∷ ts) h =
      let (_, first, _) = >>=-eq-ok (validate_tier fl t) (λ _. validate_tiers fl ts) h in
      (
        validate_tier-severity t first,
        validate_tiers-All ts (after (validate_tier fl t) (validate_tiers fl ts) h),
      )

  module _ (py : Builtins fl) (p : IntegrityParams fl)
      (severe : All (λ t. is_severity t.severity ≡ true) p.rds_tiers) where
    rds_party-Returns :
        (party_id : Text) (first : ParticipantSnapshot fl) (others : List (ParticipantSnapshot fl))
        → Returns (rds_party fl py p party_id first others)
    unfolding rds_party
    rds_party-Returns party_id first others =
        let gap = sub (strongest_from fl first others).cr (weakest_from fl first others).cr in
        if-Returns (lt gap p.rds_min_gap) _ _ (none, refl)
          (elim (Option-cases (tier_for fl gap none p.rds_tiers)) [
            | inl e ↦ rw e (none, refl)
            | inr (tier, e) ↦
                let is =
                  tier_for-All (λ t. is_severity t.severity ≡ true) gap none p.rds_tiers
                    (λ u h. absurd (cc)) severe e in
                rw e (
                  bind-Returns (severity_of tier.severity) _ (severity_of-Returns tier.severity is)
                    (λ s. (_, refl)))
          ])

    rds_parties-Returns :
        (factors : Table Text Float) (ps : Table Text (List (ParticipantSnapshot fl)))
        → Returns (rds_parties fl py p factors ps)
    unfolding rds_parties
    rds_parties-Returns factors [] = (_, refl)
    rds_parties-Returns factors ((party_id, []) ∷ ps) = rds_parties-Returns factors ps
    rds_parties-Returns factors ((party_id, first ∷ others) ∷ ps) =
        bind-Returns (rds_party fl py p party_id first others) _
          (rds_party-Returns party_id first others)
          (λ out.
            bind-Returns (rds_parties fl py p (with_factor fl py out factors) ps) _
              (rds_parties-Returns (with_factor fl py out factors) ps) (λ rest. (_, refl)))

  tiers_are_severe :
      (p : IntegrityParams fl)
      → validate_integrity_params fl p ≡ ok tt
      → All (λ t. is_severity t.severity ≡ true) p.rds_tiers
  unfolding validate_integrity_params
  tiers_are_severe p h =
      validate_tiers-All p.rds_tiers
        (after (validate_scalars fl p) (validate_tiers fl p.rds_tiers) h)

  evaluate-Returns :
      (py : Builtins fl) (m : MatchSnapshot fl) (p : IntegrityParams fl)
      → validate_integrity_params fl p ≡ ok tt
      → validate_match fl m ≡ ok tt
      → Returns (evaluate fl py m p)
  unfolding evaluate evaluate_rds
  evaluate-Returns py m p valid sound =
      rw (valid, sound)
        (bind-Returns (evaluate_rds fl py m p) _
          (rds_parties-Returns py p (tiers_are_severe p valid) (zero_factors fl [] m.participants)
            (parties fl m))
          (λ rds. (_, refl)))

  pub evaluate_async-Returns :
      (py : Builtins fl) (now : ℕ) (party_sets lobby_sets : Sets) (m : MatchSnapshot fl)
      (p : IntegrityParams fl)
      → validate_integrity_params fl p ≡ ok tt
      → validate_match fl m ≡ ok tt
      → Returns (evaluate_async fl py now party_sets lobby_sets m p)
  unfolding evaluate_async
  evaluate_async-Returns py now party_sets lobby_sets m p valid sound =
      bind-Returns (evaluate fl py m p) _ (evaluate-Returns py m p valid sound) (λ pure. (_, refl))
