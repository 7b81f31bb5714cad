-- ===== src/Rating/Rate/Players.antt =====
-- Who gets a result from `rate`.
use mathlib.Core.List.{Perm}
use arena_rank_project.Prelude.{
  true, false, ◌≤◌, ◌<◌, ◌⊎◌, All, ltb, any-map, any-append, ℕ, suc, ◌≡◌, refl, sym, ap, ◌∙◌, Bool,
  not, Option, List, [], ◌∷◌, ◌++◌, map, length, any, arith, Bool-cases, inl, inr,
}
use arena_rank_project.Prelude.{◌==◌ as nat_beq}
use arena_rank_project.Prelude.Sort.{
  IsSorted, IsAscending, IsSorted-IsAscending, sort_by-IsSorted, sort_by-perm, sort_by, sort_by-any,
}
use arena_rank_project.Prelude.Result.{ok_inj, ok, >>=-eq-ok}
use arena_rank_project.Floats.{Floats}
use arena_rank_project.Rating.Params.{Error, RatingParams}
use arena_rank_project.Rating.Engine.{
  AppliedModifiers, CapExplanation, modified_step, damped_sigma, capped, ParticipantInput,
  TeamInput, MatchInput, PlayerRatingResult, RatingResult, frozen,
}
use arena_rank_project.Rating.Modifiers.{to_cr}
use arena_rank_project.Rating.Rate.{
  wins, rate_player, rate_eligible, finish, rate_parts, rate_teams, rate_all, ordered, freeze_teams,
  with_sorted, part_before, team_before, any_eligible, pairs_of, updated_of, rate,
}
use arena_rank_project.Rating.Rate.Laws.{rate_inversion}

any-cong {ℓ} :
    {A : Type ℓ} (p q : A → Bool) (xs : List A) → ((x : A) → p x ≡ q x) → any p xs ≡ any q xs
any-cong p q [] h = refl
any-cong p q (x ∷ xs) h = ground (arith, h x, any-cong p q xs h)

map-append {ℓ κ} :
    {A : Type ℓ} {B : Type κ} (f : A → B) (xs ys : List A) → map f (xs ++ ys) ≡ map f xs ++ map f ys
map-append f [] ys = refl
map-append f (x ∷ xs) ys = ap (λ t. f x ∷ t) (map-append f xs ys)

map-map {ℓ κ μ} :
    {A : Type ℓ} {B : Type κ} {C : Type μ} (g : B → C) (f : A → B) (xs : List A)
    → map g (map f xs) ≡ map (λ x. g (f x)) xs
map-map g f [] = refl
map-map g f (x ∷ xs) = ap (λ t. g (f x) ∷ t) (map-map g f xs)

length-map {ℓ κ} :
    {A : Type ℓ} {B : Type κ} (f : A → B) (xs : List A) → length (map f xs) ≡ length xs
length-map f [] = refl
length-map f (x ∷ xs) = ap suc (length-map f xs)

-- Two lists of lists of the same lengths.
abbrev pub SameShape {ℓ κ} : {A : Type ℓ} {B : Type κ} → List (List A) → List (List B) → Type 0
SameShape xs ys = map length xs ≡ map length ys

module _ (fl : Floats) where
  open fl use {Float, add, sub}

  -- A better placement, or the same and no greater team id.
  abbrev pub InFront : TeamInput fl → TeamInput fl → Type 0
  InFront t u =
      (t.placement < u.placement) ⊎ ((t.placement ≡ u.placement) × (t.team_id ≤ u.team_id))

  -- The teams are in order, and within each team the players are by id.
  abbrev pub IsInOrder : List (TeamInput fl) → Type 0
  IsInOrder [] = Unit
  IsInOrder (t ∷ ts) =
      All (InFront t) ts × IsAscending (λ pt. pt.player_id) t.participants × IsInOrder ts

  -- The same teams one by one, each with its participants in some order.
  abbrev pub AreSameTeams : List (TeamInput fl) → List (TeamInput fl) → Type 0
  AreSameTeams [] [] = Unit
  AreSameTeams [] (u ∷ us) = ⊥
  AreSameTeams (t ∷ ts) [] = ⊥
  AreSameTeams (t ∷ ts) (u ∷ us) =
      (u.team_id ≡ t.team_id)
      × (u.placement ≡ t.placement)
      × Perm u.participants t.participants
      × AreSameTeams ts us

  team_before_asym : (t u : TeamInput fl) → team_before fl t u ≡ true → team_before fl u t ≡ false
  team_before_asym t u h = ground arith

  team_before_trans :
      (t u v : TeamInput fl)
      → team_before fl u t ≡ false
      → team_before fl v u ≡ false
      → team_before fl v t ≡ false
  team_before_trans t u v h k = ground arith

  not_team_before : (t u : TeamInput fl) → team_before fl u t ≡ false → InFront t u
  not_team_before t u h = elim (Bool-cases (ltb t.placement u.placement)) [
    | inl e ↦ inl (ground arith)
    | inr e ↦ inr (ground arith, ground arith)
  ]

  not_part_before :
      (a b : ParticipantInput fl) → part_before fl b a ≡ false → a.player_id ≤ b.player_id
  not_part_before a b h = ground arith

  with_sorted-InFront :
      (t : TeamInput fl) (us : List (TeamInput fl))
      → All (λ u. team_before fl u t ≡ false) us
      → All (InFront (with_sorted fl t)) (map (with_sorted fl) us)
  with_sorted-InFront t [] h = tt
  with_sorted-InFront t (u ∷ us) h = (not_team_before t u h.0, with_sorted-InFront t us h.1)

  with_sorted-IsInOrder :
      (ts : List (TeamInput fl))
      → IsSorted (team_before fl) ts
      → IsInOrder (map (with_sorted fl) ts)
  with_sorted-IsInOrder [] h = tt
  with_sorted-IsInOrder (t ∷ ts) h = (
    with_sorted-InFront t ts h.0,
    IsSorted-IsAscending (part_before fl) (λ pt. pt.player_id) not_part_before
        (sort_by (part_before fl) t.participants)
        (sort_by-IsSorted (part_before fl) (λ a b e. ground arith) (λ a b c e d. ground arith)
          t.participants),
    with_sorted-IsInOrder ts h.1,
  )

  with_sorted-AreSameTeams : (ts : List (TeamInput fl)) → AreSameTeams ts (map (with_sorted fl) ts)
  with_sorted-AreSameTeams [] = tt
  with_sorted-AreSameTeams (t ∷ ts) =
      (refl, refl, sort_by-perm (part_before fl) t.participants, with_sorted-AreSameTeams ts)

  -- The ids of the participants, in the order of the teams.
  abbrev pub participant_ids : List (TeamInput fl) → List ℕ
  participant_ids [] = []
  participant_ids (t ∷ ts) = map (λ pt. pt.player_id) t.participants ++ participant_ids ts

  -- The ids are those of the teams' participants, in the order of the teams and within them of the players.
  abbrev pub AreRatedInOrder : List (TeamInput fl) → List ℕ → Type 0
  AreRatedInOrder teams ids =
      (moved : List (TeamInput fl)) × Perm moved teams
      × ((rated : List (TeamInput fl)) × AreSameTeams moved rated
          × IsInOrder rated
          × (ids ≡ participant_ids rated))

  finish_id :
      (placement team_count : ℕ) (pt : ParticipantInput fl) (p : RatingParams fl)
      (stepped : Float × AppliedModifiers fl) (sigma cr : Float)
      (out : Float × Float × Option (CapExplanation fl)) (r : PlayerRatingResult fl)
      → finish fl placement team_count pt p stepped sigma cr out ≡ ok r
      → r.player_id ≡ pt.player_id
  unfolding finish
  finish_id placement team_count pt p stepped sigma cr out r h =
      ap (λ r. r.player_id) (sym (ok_inj h))

  rate_player_id :
      (placement team_count : ℕ) (total : Float) (n : ℕ) (pt : ParticipantInput fl)
      (new_r : Float × Float) (p : RatingParams fl) (r : PlayerRatingResult fl)
      → rate_player fl placement team_count total n pt new_r p ≡ ok r
      → r.player_id ≡ pt.player_id
  unfolding rate_player rate_eligible frozen
  rate_player_id placement team_count total n pt new_r p r h =
      elim (Bool-cases pt.eligible_for_progression) [
        | inl e ↦
            let stepped = modified_step fl placement team_count pt (sub new_r.0 pt.state.mu) p in
            let mu_stepped = add pt.state.mu stepped.0 in
            let sigma_new = damped_sigma fl pt new_r.1 in
            let cr = to_cr fl mu_stepped sigma_new p in
            let (out, _, last) =
              >>=-eq-ok (capped fl placement team_count pt total n cr mu_stepped sigma_new p)
                (finish fl placement team_count pt p stepped sigma_new cr) {b = r} (ground arith) in
            finish_id placement team_count pt p stepped sigma_new cr out r last
        | inr e ↦
            let same : frozen fl pt (wins fl placement team_count) team_count ≡ r =
              ok_inj {E = Error} (ground arith) in
            ap (λ r. r.player_id) (sym same)
      ]

  abbrev pub result_ids : List (PlayerRatingResult fl) → List ℕ
  result_ids rs = map (λ r. r.player_id) rs

  rate_parts-ids :
      (placement team_count : ℕ) (total : Float) (n : ℕ) (p : RatingParams fl)
      (pts : List (ParticipantInput fl)) (news : List (Float × Float))
      (rs : List (PlayerRatingResult fl))
      → length news ≡ length pts
      → rate_parts fl placement team_count total n p pts news ≡ ok rs
      → result_ids rs ≡ map (λ pt. pt.player_id) pts
  unfolding rate_parts
  rate_parts-ids placement team_count total n p [] news rs e h = ap result_ids (sym (ok_inj h))
  rate_parts-ids placement team_count total n p (pt ∷ pts) [] rs e h = cc
  rate_parts-ids placement team_count total n p (pt ∷ pts) (new_r ∷ news) rs e h =
      let (r, first, h') = >>=-eq-ok _ _ h in
      let (rest, others, h'') = >>=-eq-ok _ _ h' in
      let ih =
        rate_parts-ids placement team_count total n p pts news rest (omega (arith, e)) others in
      let id = rate_player_id placement team_count total n pt new_r p r first in
      let listed : r ∷ rest ≡ rs = ok_inj h'' in ap result_ids (sym listed) ∙ cc (ih, id)

  rate_teams-ids :
      (team_count : ℕ) (total : Float) (n : ℕ) (p : RatingParams fl) (ts : List (TeamInput fl))
      (updated : List (List (Float × Float))) (rs : List (PlayerRatingResult fl))
      → SameShape updated (map (λ t. t.participants) ts)
      → rate_teams fl team_count total n p ts updated ≡ ok rs
      → result_ids rs ≡ participant_ids ts
  unfolding rate_teams
  rate_teams-ids team_count total n p [] updated rs e h = ap result_ids (sym (ok_inj h))
  rate_teams-ids team_count total n p (t ∷ ts) [] rs e h = cc
  rate_teams-ids team_count total n p (t ∷ ts) (new_team ∷ updated) rs e h =
      let (r, first, h') = >>=-eq-ok _ _ h in
      let (rest, others, h'') = >>=-eq-ok _ _ h' in
      let e₁ : length new_team ≡ length t.participants = cc in
      let e₂ : SameShape updated (map (λ t. t.participants) ts) = cc in
      let ih = rate_teams-ids team_count total n p ts updated rest e₂ others in
      let ids =
        rate_parts-ids t.placement team_count total n p t.participants new_team r e₁ first in
      let listed : r ++ rest ≡ rs = ok_inj h'' in
      ap result_ids (sym listed) ∙ map-append _ r rest ∙ cc (ih, ids)

  freeze_teams-ids :
      (team_count : ℕ) (ts : List (TeamInput fl))
      → result_ids (freeze_teams fl team_count ts) ≡ participant_ids ts
  unfolding freeze_teams frozen
  freeze_teams-ids team_count [] = refl
  freeze_teams-ids team_count (t ∷ ts) =
      map-append _
        (map (λ pt. frozen fl pt (wins fl t.placement team_count) team_count) t.participants)
        (freeze_teams fl team_count ts)
      ∙ cc (
        freeze_teams-ids team_count ts,
        map-map (λ r. r.player_id) (λ pt. frozen fl pt (wins fl t.placement team_count) team_count)
            t.participants,
      )

  pub takes_part : ℕ → List (TeamInput fl) → Bool
  takes_part i ts = any (λ t. any (λ pt. nat_beq pt.player_id i) t.participants) ts

  participant_ids-any :
      (i : ℕ) (ts : List (TeamInput fl))
      → any (λ j. nat_beq j i) (participant_ids ts) ≡ takes_part i ts
  unfolding takes_part
  participant_ids-any i [] = refl
  participant_ids-any i (t ∷ ts) =
      any-append _ (map (λ pt. pt.player_id) t.participants) (participant_ids ts)
      ∙ cc
          (participant_ids-any i ts, any-map (λ j. nat_beq j i) (λ pt. pt.player_id) t.participants)

  ordered-takes_part :
      (i : ℕ) (ts : List (TeamInput fl)) → takes_part i (ordered fl ts) ≡ takes_part i ts
  unfolding ordered takes_part
  ordered-takes_part i ts =
      any-map _ (with_sorted fl) (sort_by (team_before fl) ts)
      ∙ any-cong _ _ (sort_by (team_before fl) ts)
          (λ t. sort_by-any (part_before fl) (λ pt. nat_beq pt.player_id i) t.participants)
      ∙ sort_by-any (team_before fl) _ ts

  shape-pairs :
      (ts : List (TeamInput fl))
      → map length (map (pairs_of fl) ts) ≡ map length (map (λ t. t.participants) ts)
  shape-pairs [] = refl
  shape-pairs (t ∷ ts) = cc (
    shape-pairs ts,
    length-map {B = Float × Float} (λ pt. (pt.state.mu, pt.state.sigma)) t.participants,
  )

  module _
      (pl_rate : RatingParams fl
        → List (List (Float × Float))
        → List ℕ
        → List (List (Float × Float)))
      (shape : (p : RatingParams fl) (pairs : List (List (Float × Float))) (ranks : List ℕ)
        → SameShape (pl_rate p pairs ranks) pairs) where
    -- When the update returns one pair per pair, a call that returns lists one result per participant: the
    -- teams by placement and then by id, and within a team the players by id. So a player has a result
    -- exactly if it took part. The match is voided exactly if no participant is eligible.
    pub rate_participants :
        (m : MatchInput fl) (r : RatingResult fl) (i : ℕ)
        → rate fl pl_rate m ≡ ok r
        → AreRatedInOrder m.teams (result_ids r.players)
          × (any (λ j. nat_beq j i) (result_ids r.players) ≡ takes_part i m.teams)
          × (r.voided ≡ not (any_eligible fl m.teams))
    unfolding rate_all ordered
    rate_participants m r i h =
        let ts = ordered fl m.teams in
        let found : (result_ids r.players ≡ participant_ids ts)
            × (r.voided ≡ not (any_eligible fl m.teams)) =
          elim (rate_inversion fl pl_rate m r h) [
            | inl (e, done) ↦ (
              ap (λ r. result_ids r.players) (sym done) ∙ freeze_teams-ids (length m.teams) ts,
              cc,
            )
            | inr (e, (players, rated, done)) ↦ (
              ap (λ r. result_ids r.players) (sym done)
                  ∙ rate_teams-ids _ _ _ m.params ts (updated_of fl pl_rate m.params ts) players
                      (shape m.params (map (pairs_of fl) ts) (map (λ t. t.placement) ts)
                        ∙ shape-pairs ts)
                      rated,
              cc,
            )
          ] in
        let sorted = sort_by (team_before fl) m.teams in
        (
          (
            sorted,
            sort_by-perm (team_before fl) m.teams,
            (
              ts,
              with_sorted-AreSameTeams sorted,
              with_sorted-IsInOrder sorted
                  (sort_by-IsSorted (team_before fl) team_before_asym team_before_trans m.teams),
              found.0,
            ),
          ),
          ap (any (λ j. nat_beq j i)) found.0
              ∙ participant_ids-any i ts
              ∙ ordered-takes_part i m.teams,
          found.1,
        )
