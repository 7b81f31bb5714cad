-- ===== src/Integrity/Service/Lookups.antt =====
-- What the maps of backend/arena/integrity/service.py hold under the id of a participant.
use arena_rank_project.Prelude.{
  ◌≡◌, refl, sym, ap, ◌∙◌, Bool, true, false, Option, none, some, List, [], ◌∷◌, any, if◌then◌else◌,
  Text, text_eq, eq_of_text_eq, text_eq_self, arith, All, All-map, Bool-cases, inl, inr,
}
use arena_rank_project.Prelude.Table.{
  Table, lookup, lookup_or, insert, text_instance, int_eq, lookup-insert,
}
use arena_rank_project.Prelude.Result.{ok, raise_if, after}
use arena_rank_project.Floats.{Floats}
use arena_rank_project.Rating.Params.{value_error}
use arena_rank_project.Integrity.Types.{
  Builtins, IntegrityFlag, ParticipantSnapshot, MatchSnapshot, EvaluationResult, ParticipantVerdict,
}
use arena_rank_project.Integrity.Params.{IntegrityParams}
use arena_rank_project.Integrity.Evaluators.{is_eligible, eligibility_of}
use arena_rank_project.Integrity.Service.{
  check_distinct, validate_match, verdict_of, verdicts_into, eligibility_in, append_flag,
}

if_same {ℓ} : {A : Type ℓ} (b : Bool) {x y : A} → y ≡ x → (if b then x else y) ≡ x
if_same true h = refl
if_same false h = h

module _ (fl : Floats) where
  open fl use {Float, lt, sub}

  pub All-pair :
      (P Q : ParticipantSnapshot fl → Type 0) (parts : List (ParticipantSnapshot fl))
      → All P parts
      → All Q parts
      → All (λ part. P part × Q part) parts
  All-pair P Q [] h k = tt
  All-pair P Q (part ∷ parts) h k = ((h.0, k.0), All-pair P Q parts h.1 k.1)

  -- No participant of the list has the id `k`.
  abbrev pub IsAbsent : Text → List (ParticipantSnapshot fl) → Type 0
  IsAbsent k = All (λ q. text_eq q.player_id k ≡ false)

  abbrev pub AreDistinct : List (ParticipantSnapshot fl) → Type 0
  AreDistinct [] = Unit
  AreDistinct (part ∷ parts) = IsAbsent part.player_id parts × AreDistinct parts

  check_distinct-IsAbsent :
      (seen : List Text) (k : Text) (parts : List (ParticipantSnapshot fl))
      → any (text_eq k) seen ≡ true
      → check_distinct fl seen parts ≡ ok tt
      → IsAbsent k parts
  unfolding check_distinct
  check_distinct-IsAbsent seen k [] h e = tt
  check_distinct-IsAbsent seen k (part ∷ parts) h e = elim (Bool-cases (text_eq part.player_id k)) [
    | inl same ↦
        let twice : any (text_eq part.player_id) seen ≡ true =
          rw (eq_of_text_eq part.player_id k same) h in
        absurd (let raised = rw twice at e in cc)
    | inr other ↦ (
      other,
      check_distinct-IsAbsent (part.player_id ∷ seen) k parts (ground (arith, h)) (
          after (raise_if (any (text_eq part.player_id) seen) value_error)
            (check_distinct fl (part.player_id ∷ seen) parts) e),
    )
  ]

  check_distinct-AreDistinct :
      (seen : List Text) (parts : List (ParticipantSnapshot fl))
      → check_distinct fl seen parts ≡ ok tt
      → AreDistinct parts
  unfolding check_distinct
  check_distinct-AreDistinct seen [] e = tt
  check_distinct-AreDistinct seen (part ∷ parts) e =
      let rest =
        after (raise_if (any (text_eq part.player_id) seen) value_error)
          (check_distinct fl (part.player_id ∷ seen) parts) e in
      (
        check_distinct-IsAbsent (part.player_id ∷ seen) part.player_id parts
            (ground (arith, text_eq_self part.player_id)) rest,
        check_distinct-AreDistinct (part.player_id ∷ seen) parts rest,
      )

  -- The verdict of an id depends on nothing but the id.
  pub lookup-verdicts_into :
      (b : Table Text Float) (e : Table Text Bool) (q : Table Text Float)
      (d : Table Text (ParticipantVerdict fl)) (parts : List (ParticipantSnapshot fl)) (k : Text)
      → lookup k (verdicts_into fl b e q d parts) ≡ (
          if any (λ part. text_eq part.player_id k) parts
          then some (verdict_of fl b e q k)
          else lookup k d)
  unfolding verdicts_into
  lookup-verdicts_into b e q d [] k = refl
  lookup-verdicts_into b e q d (part ∷ parts) k =
      let pid = part.player_id in
      let d' = insert pid (verdict_of fl b e q pid) d in
      elim (Bool-cases (text_eq pid k)) [
        | inl same ↦
            let at_k : lookup k d' ≡ some (verdict_of fl b e q k) =
              lookup-insert pid k (verdict_of fl b e q pid) d
              ∙ rw same (ap (λ t. some (verdict_of fl b e q t)) (eq_of_text_eq pid k same)) in
            lookup-verdicts_into b e q d' parts k
            ∙ if_same (any (λ part. text_eq part.player_id k) parts) at_k
            ∙ sym (rw same)
        | inr other ↦
            let at_k : lookup k d' ≡ lookup k d =
              lookup-insert pid k (verdict_of fl b e q pid) d ∙ rw other in
            lookup-verdicts_into b e q d' parts k ∙ rw (other, at_k)
      ]

  -- The map of eligibility.
  lookup-eligibility_of_absent :
      (py : Builtins fl) (p : IntegrityParams fl) (d : Table Text Bool)
      (parts : List (ParticipantSnapshot fl)) (k : Text)
      → IsAbsent k parts
      → lookup k (eligibility_of fl py p d parts).0 ≡ lookup k d
  unfolding eligibility_of
  lookup-eligibility_of_absent py p d [] k h = refl
  lookup-eligibility_of_absent py p d (part ∷ parts) k h =
      lookup-eligibility_of_absent py p (insert part.player_id (is_eligible fl part p) d) parts k
        h.1
      ∙ lookup-insert part.player_id k (is_eligible fl part p) d
      ∙ rw h.0

  pub lookup-eligibility_of :
      (py : Builtins fl) (p : IntegrityParams fl) (d : Table Text Bool)
      (parts : List (ParticipantSnapshot fl))
      → AreDistinct parts
      → All
          (λ part.
            lookup part.player_id (eligibility_of fl py p d parts).0 ≡ some (is_eligible fl part p))
          parts
  unfolding eligibility_of
  lookup-eligibility_of py p d [] h = tt
  lookup-eligibility_of py p d (part ∷ parts) h =
      let d' = insert part.player_id (is_eligible fl part p) d in
      (
        lookup-eligibility_of_absent py p d' parts part.player_id h.0
            ∙ lookup-insert part.player_id part.player_id (is_eligible fl part p) d
            ∙ rw (text_eq_self part.player_id),
        lookup-eligibility_of py p d' parts h.1,
      )

  pub lookup-eligibility_in :
      (vs : Table Text (ParticipantVerdict fl)) (k : Text)
      → lookup_or k true (eligibility_in fl vs)
        ≡ (elim (lookup k vs) [ none ↦ true | some v ↦ v.eligible_for_progression ])
  unfolding eligibility_in
  lookup-eligibility_in [] k = refl
  lookup-eligibility_in ((j, v) ∷ vs) k = ground (arith, lookup-eligibility_in vs k)

  -- Every element of a list is one of it.
  pub any_self :
      (parts : List (ParticipantSnapshot fl))
      → All (λ part. any (λ q. text_eq q.player_id part.player_id) parts ≡ true) parts
  any_self [] = tt
  any_self (part ∷ parts) = (
    rw (text_eq_self part.player_id),
    All-map _ _ parts (λ q h. ground (arith, h)) (any_self parts),
  )

  pub validate_match-AreDistinct :
      (m : MatchSnapshot fl) → validate_match fl m ≡ ok tt → AreDistinct m.participants
  unfolding validate_match
  validate_match-AreDistinct m h =
      check_distinct-AreDistinct [] m.participants (after (raise_if _ value_error) _ h)

  pub append_flag-verdicts :
      (py : Builtins fl) (flag : Option (IntegrityFlag fl)) (r : EvaluationResult fl)
      → (append_flag fl py flag r).verdicts ≡ r.verdicts
  append_flag-verdicts py none r = refl
  append_flag-verdicts py (some flag) r = refl
