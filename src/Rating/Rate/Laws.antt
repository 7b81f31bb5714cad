-- ===== src/Rating/Rate/Laws.antt =====
-- What `rate` guarantees of the players of a match.
use arena_rank_project.Prelude.{
  ℕ, ◌≡◌, refl, ap, subst, Bool, true, false, not, Option, List, [], ◌∷◌, ◌++◌, map, if◌then◌else◌,
  ltb, length, any, arith, All, All-append, All-of_map, All-map, Bool-cases, inl, inr, ◌⊎◌,
}
use arena_rank_project.Prelude.Sort.{sort_by, sort_by-All}
use arena_rank_project.Prelude.Result.{after, ok_inj, ok, raise_if, >>=-eq-ok}
use arena_rank_project.Floats.{Floats, IsOrdered}
use arena_rank_project.Rating.Params.{Error, value_error, RatingParams, validate_params}
use arena_rank_project.Rating.Caps.{zero_f}
use arena_rank_project.Rating.Modifiers.{to_cr}
use arena_rank_project.Rating.Engine.{
  AppliedModifiers, ParticipantInput, TeamInput, MatchInput, CapExplanation, PlayerRatingResult,
  RatingResult, frozen, modified_step, damped_sigma, capped,
}
use arena_rank_project.Rating.Rate.{
  wins, floored, finish, updated_of, rate_all, rate_eligible, rate_player, rate_parts, rate_teams,
  ordered, freeze_teams, with_sorted, part_before, team_before, is_empty_team, any_eligible, rate,
}

map-append {ℓ κ} :
    {A : Type ℓ} {B : Type κ} (f : A → B) (xs ys : List A) → map f (xs ++ ys) ≡ map f xs ++ map f ys
map-append f [] ys = refl
map-append f (x ∷ xs) ys = ap (λ t. f x ∷ t) (map-append f xs ys)

map-map {ℓ κ μ} :
    {A : Type ℓ} {B : Type κ} {C : Type μ} (g : B → C) (f : A → B) (xs : List A)
    → map g (map f xs) ≡ map (λ x. g (f x)) xs
map-map g f [] = refl
map-map g f (x ∷ xs) = ap (λ t. g (f x) ∷ t) (map-map g f xs)

taken {ℓ} :
    {A : Type ℓ} (b : Bool) (x y : A) {z : A} → b ≡ true → (if not b then x else y) ≡ z → y ≡ z
taken b x y e h = ground arith

not_taken {ℓ} :
    {A : Type ℓ} (b : Bool) (x y : A) {z : A} → b ≡ false → (if not b then x else y) ≡ z → x ≡ z
not_taken b x y e h = ground arith

module _ (fl : Floats)
    (pl_rate : RatingParams fl
      → List (List (fl.Float × fl.Float))
      → List ℕ
      → List (List (fl.Float × fl.Float))) where
  -- What a call that returned went through.
  pub rate_inversion :
      (m : MatchInput fl) (r : RatingResult fl)
      → rate fl pl_rate m ≡ ok r
      → (any_eligible fl m.teams ≡ false)
          × (record {
            match_id = m.match_id;
            voided = true;
            players = freeze_teams fl (length m.teams) (ordered fl m.teams);
          }
              ≡ r)
        ⊎ (any_eligible fl m.teams ≡ true)
          × ((players : List (PlayerRatingResult fl)) × (rate_all fl pl_rate
                  (length m.teams)
                  m.params
                  (ordered fl m.teams)
                ≡ ok players)
              × (record { match_id = m.match_id; voided = false; players = players } ≡ r))
  unfolding rate
  rate_inversion m r h =
      let h₁ = after (validate_params fl m.params) _ h in
      let h₂ = after (raise_if (ltb (length m.teams) 2) value_error) _ h₁ in
      let h₃ = after (raise_if (any (is_empty_team fl) m.teams) value_error) _ h₂ in
      elim (Bool-cases (any_eligible fl m.teams)) [
        | inl e ↦
            let (players, done, last) =
              >>=-eq-ok (rate_all fl pl_rate (length m.teams) m.params (ordered fl m.teams))
                (λ players. ok record { match_id = m.match_id; voided = false; players = players })
                {b = r} (taken _ _ _ e h₃) in
            inr (e, (players, done, ok_inj last))
        | inr e ↦ inl (e, ok_inj (not_taken _ _ _ e h₃))
      ]

module _ (fl : Floats) (ord : IsOrdered fl) where
  open fl use {Float, lt, add, sub}
  open ord use {lt_irrefl}

  -- What a result says: the player was rated, to at least 0, or kept as it was.
  pub data IsFair (r : PlayerRatingResult fl) : Type 0 where
    rated :
        r.eligible ≡ true
        → lt r.cr_after (zero_f fl) ≡ false
        → r.cr_delta ≡ sub r.cr_after r.cr_before
        → IsFair r
    kept :
        r.eligible ≡ false
        → lt r.cr_after (zero_f fl) ≡ false
        → r.mu_after ≡ r.mu_before
        → r.sigma_after ≡ r.sigma_before
        → r.cr_after ≡ r.cr_before
        → IsFair r

  floored-nonneg :
      (cr mu sigma : Float) (p : RatingParams fl)
      → lt (floored fl cr mu sigma p).0 (zero_f fl) ≡ false
  unfolding floored
  floored-nonneg cr mu sigma p = ground (arith, lt_irrefl (zero_f fl))

  finish-IsFair :
      (placement team_count : ℕ) (pt : ParticipantInput fl) (p : RatingParams fl)
      (stepped : Float × AppliedModifiers fl) (sigma cr : Float)
      (out : Float × Float × Option (CapExplanation fl)) (r : PlayerRatingResult fl)
      → finish fl placement team_count pt p stepped sigma cr out ≡ ok r
      → (IsFair r) × (r.player_id ≡ pt.player_id)
  unfolding finish
  finish-IsFair placement team_count pt p stepped sigma cr out r h =
      subst (λ r. IsFair r × (r.player_id ≡ pt.player_id)) (ok_inj h)
        (rated refl (floored-nonneg out.0 out.1 sigma p) refl, refl)

  rate_eligible-IsFair :
      (placement team_count : ℕ) (total : Float) (n : ℕ) (pt : ParticipantInput fl)
      (mu sigma : Float) (p : RatingParams fl) (r : PlayerRatingResult fl)
      → rate_eligible fl placement team_count total n pt mu sigma p ≡ ok r
      → (IsFair r) × (r.player_id ≡ pt.player_id)
  unfolding rate_eligible
  rate_eligible-IsFair placement team_count total n pt mu sigma p r h =
      let stepped = modified_step fl placement team_count pt (sub mu pt.state.mu) p in
      let mu_stepped = add pt.state.mu stepped.0 in
      let sigma_new = damped_sigma fl pt sigma in
      let cr = to_cr fl mu_stepped sigma_new p in
      let (out, _, last) =
        >>=-eq-ok (capped fl placement team_count pt total n cr mu_stepped sigma_new p)
          (finish fl placement team_count pt p stepped sigma_new cr) h in
      finish-IsFair placement team_count pt p stepped sigma_new cr out r last

  rate_player-IsFair :
      (placement team_count : ℕ) (total : Float) (n : ℕ) (pt : ParticipantInput fl)
      (new_r : Float × Float) (p : RatingParams fl) (r : PlayerRatingResult fl)
      → lt pt.state.cr (zero_f fl) ≡ false
      → rate_player fl placement team_count total n pt new_r p ≡ ok r
      → (IsFair r) × (r.player_id ≡ pt.player_id)
  unfolding rate_player frozen
  rate_player-IsFair placement team_count total n pt new_r p r low h =
      elim (Bool-cases pt.eligible_for_progression) [
        | inl e ↦
            rate_eligible-IsFair placement team_count total n pt new_r.0 new_r.1 p r (ground arith)
        | inr e ↦
            subst (λ r. IsFair r × (r.player_id ≡ pt.player_id))
              (ok_inj {E = Error} {a = frozen fl pt (wins fl placement team_count) team_count}
                (ground arith))
              (kept refl low refl refl refl, refl)
      ]

  abbrev IsNonneg : ParticipantInput fl → Type 0
  IsNonneg pt = lt pt.state.cr (zero_f fl) ≡ false

  rate_parts-IsFair :
      (placement team_count : ℕ) (total : Float) (n : ℕ) (p : RatingParams fl)
      (pts : List (ParticipantInput fl)) (news : List (Float × Float))
      (rs : List (PlayerRatingResult fl))
      → All IsNonneg pts
      → rate_parts fl placement team_count total n p pts news ≡ ok rs
      → All IsFair rs
  unfolding rate_parts
  rate_parts-IsFair placement team_count total n p [] news rs low h =
      subst (All IsFair) (ok_inj h) tt
  rate_parts-IsFair placement team_count total n p (pt ∷ pts) [] rs low h =
      subst (All IsFair) (ok_inj h) tt
  rate_parts-IsFair placement team_count total n p (pt ∷ pts) (new_r ∷ news) rs low h =
      let (r, e, h') = >>=-eq-ok _ _ h in
      let (rest, e', h'') = >>=-eq-ok _ _ h' in
      subst (All IsFair) {x = r ∷ rest} (ok_inj h'') (
        (rate_player-IsFair placement team_count total n pt new_r p r low.0 e).0,
        rate_parts-IsFair placement team_count total n p pts news rest low.1 e',
      )

  rate_teams-IsFair :
      (team_count : ℕ) (total : Float) (n : ℕ) (p : RatingParams fl) (ts : List (TeamInput fl))
      (updated : List (List (Float × Float))) (rs : List (PlayerRatingResult fl))
      → All (λ t. All IsNonneg t.participants) ts
      → rate_teams fl team_count total n p ts updated ≡ ok rs
      → All IsFair rs
  unfolding rate_teams
  rate_teams-IsFair team_count total n p [] updated rs low h = subst (All IsFair) (ok_inj h) tt
  rate_teams-IsFair team_count total n p (t ∷ ts) [] rs low h = subst (All IsFair) (ok_inj h) tt
  rate_teams-IsFair team_count total n p (t ∷ ts) (new_team ∷ updated) rs low h =
      let (r, e, h') = >>=-eq-ok _ _ h in
      let (rest, e', h'') = >>=-eq-ok _ _ h' in
      subst (All IsFair) (ok_inj h'') (
        All-append IsFair r rest
          (rate_parts-IsFair t.placement team_count total n p t.participants new_team r low.0 e)
          (rate_teams-IsFair team_count total n p ts updated rest low.1 e'))

  freeze_teams-IsFair :
      (team_count : ℕ) (ts : List (TeamInput fl))
      → All (λ t. All IsNonneg t.participants) ts
      → All IsFair (freeze_teams fl team_count ts)
  unfolding freeze_teams frozen
  freeze_teams-IsFair team_count [] low = tt
  freeze_teams-IsFair team_count (t ∷ ts) low =
      All-append IsFair _ _
        (All-of_map IsFair _ t.participants
          (All-map _ _ t.participants (λ pt low_pt. kept refl low_pt refl refl refl) low.0))
        (freeze_teams-IsFair team_count ts low.1)

  ordered-IsNonneg :
      (ts : List (TeamInput fl))
      → All (λ t. All IsNonneg t.participants) ts
      → All (λ t. All IsNonneg t.participants) (ordered fl ts)
  unfolding ordered
  ordered-IsNonneg ts low = All-of_map _ (with_sorted fl) (sort_by (team_before fl) ts) (
      sort_by-All (team_before fl) _ ts
        (All-map _ _ ts (λ t h. sort_by-All (part_before fl) IsNonneg t.participants h) low))

  module _
      (pl_rate : RatingParams fl
        → List (List (Float × Float))
        → List ℕ
        → List (List (Float × Float))) where
    -- Every result of a call is fair, when no player came with a rating below 0: a rated player has a
    -- rating of at least 0, which differs from the old one by the delta that is reported, and an ineligible
    -- player keeps mu, sigma and rating.
    pub rate-IsFair :
        (m : MatchInput fl) (r : RatingResult fl)
        → All (λ t. All IsNonneg t.participants) m.teams
        → rate fl pl_rate m ≡ ok r
        → All IsFair r.players
    unfolding rate_all
    rate-IsFair m r low h = elim (rate_inversion fl pl_rate m r h) [
      | inl (_, e) ↦
          subst (λ r. All IsFair r.players) e
            (freeze_teams-IsFair _ _ (ordered-IsNonneg m.teams low))
      | inr (_, (players, done, e)) ↦
          subst (λ r. All IsFair r.players) e
            (rate_teams-IsFair _ _ _ _ _ (updated_of fl pl_rate m.params (ordered fl m.teams))
              players (ordered-IsNonneg m.teams low) done)
    ]
