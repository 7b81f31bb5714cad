-- ===== src/Tournament/Onboarding/Rosters.antt =====
-- How often a Riot ID is seated, and what seating a player changes.
use arena_rank_project.Prelude.{
  ℕ, zero, suc, ◌+◌, ◌-◌, ◌≤◌, ◌<◌, ◌≡◌, refl, Bool, true, false, some, List, [], ◌∷◌,
  if◌then◌else◌, Text, text_eq, find, any, arith, Bool-cases, inl, inr, length, All,
  length-replicate,
}
use arena_rank_project.Tournament.Provision.{
  Python, Slot, empty, filled, team_size, make_player_slot, empty_slots, is_empty,
  count_real_players,
}
use arena_rank_project.Tournament.Rows.{Tournament, Team}
use arena_rank_project.Tournament.Onboarding.{
  modify_first, is_nonempty, holds, is_enrolled, claim, seat,
}

module _ {ℓ} {A : Type ℓ} where
  abbrev pub total : (A → ℕ) → List A → ℕ
  total m [] = 0
  total m (x ∷ xs) = m x + total m xs

  abbrev pub count_if : (A → Bool) → A → ℕ
  count_if p x = if p x then 1 else 0

  -- Mutating the row that was found moves a total by what that row gained.
  pub total-modify_first :
      (m : A → ℕ) (p : A → Bool) (f : A → A) (xs : List A) (x : A)
      → find p xs ≡ some x
      → total m (modify_first p f xs) + m x ≡ total m xs + m (f x)
  total-modify_first m p f [] x e = cc
  total-modify_first m p f (y ∷ ys) x e = elim (Bool-cases (p y)) [
    | inl h ↦ ground arith
    | inr h ↦ ground (arith, total-modify_first m p f ys x (ground arith))
  ]

  pub All-modify_first {κ} :
      (P : A → Type κ) (p : A → Bool) (f : A → A) (xs : List A)
      → ((x : A) → P x → P (f x))
      → All P xs
      → All P (modify_first p f xs)
  All-modify_first P p f [] h hs = tt
  All-modify_first P p f (x ∷ xs) h hs = elim (Bool-cases (p x)) [
    | inl e ↦ rw e (h x hs.0, hs.1)
    | inr e ↦ rw e (hs.0, All-modify_first P p f xs h hs.1)
  ]

  pub length-modify_first :
      (p : A → Bool) (f : A → A) (xs : List A) → length (modify_first p f xs) ≡ length xs
  length-modify_first p f [] = refl
  length-modify_first p f (x ∷ xs) = ground (arith, length-modify_first p f xs)

  pub find_holds : (p : A → Bool) (xs : List A) (x : A) → find p xs ≡ some x → p x ≡ true
  find_holds p [] x e = cc
  find_holds p (y ∷ ys) x e = elim (Bool-cases (p y)) [
    | inl h ↦ ground arith
    | inr h ↦ find_holds p ys x (ground arith)
  ]

team_size_pos : (fmt : Text) → 0 < team_size fmt
unfolding team_size
team_size_pos fmt = ground arith

module _ (py : Python) where
  abbrev pub seated_in : Text → List Slot → ℕ
  seated_in target = total (count_if (holds py target))

  -- How many slots of all the teams hold the Riot ID `target`.
  abbrev pub enrolments : Text → List Team → ℕ
  enrolments target = total (λ t. seated_in target t.players)

  seated_in-zero :
      (target : Text) (ps : List Slot) → any (holds py target) ps ≡ false → seated_in target ps ≡ 0
  seated_in-zero target [] h = refl
  seated_in-zero target (p ∷ ps) h = ground (arith, seated_in-zero target ps)

  pub enrolments-zero :
      (target : Text) (ts : List Team) → is_enrolled py target ts ≡ false → enrolments target ts ≡ 0
  unfolding is_enrolled
  enrolments-zero target [] h = refl
  enrolments-zero target (t ∷ ts) h =
      ground (arith, enrolments-zero target ts, seated_in-zero target t.players)

  pub seated_in-le : (target : Text) (ps : List Slot) → seated_in target ps ≤ count_real_players ps
  unfolding count_real_players holds
  seated_in-le target [] = omega arith
  seated_in-le target (p ∷ ps) = ground (arith, seated_in-le target ps)

  pub seated_in-empty_slots :
      (target : Text) (n : ℕ)
      → (seated_in target (empty_slots n) ≡ 0) × (count_real_players (empty_slots n) ≡ 0)
  unfolding count_real_players holds
  seated_in-empty_slots target zero = (refl, refl)
  seated_in-empty_slots target (suc n) =
      let h = seated_in-empty_slots target n in (omega (arith, h.0), h.1)

  -- What a newly made slot counts for.
  abbrev pub newcomer : Text → Text → ℕ
  newcomer riot_id target =
      if is_nonempty riot_id then count_if (text_eq (py.strip_upper riot_id)) target else 0

  pub holds-make_player_slot :
      (riot_id target : Text)
      → count_if (holds py target) (make_player_slot py riot_id) ≡ newcomer riot_id target
  unfolding make_player_slot holds
  holds-make_player_slot riot_id target = ground arith

  pub seated_in-claim :
      (tour : Tournament) (name riot_id target : Text) (t : Team)
      → (seated_in target (claim py tour name riot_id t).players ≡ newcomer riot_id target)
        × (count_real_players (claim py tour name riot_id t).players ≡ 1)
        × (length (claim py tour name riot_id t).players ≡ team_size tour.format)
  unfolding claim
  seated_in-claim tour name riot_id target t =
      let e = seated_in-empty_slots target (team_size tour.format - 1) in
      (
        omega (arith, holds-make_player_slot riot_id target, e.0),
        unfold make_player_slot count_real_players in omega (arith, e.1),
        omega
            (arith, length-replicate (team_size tour.format - 1) empty, team_size_pos tour.format),
      )

  seat-slot : (riot_id : Text) (ps : List Slot) {p : Slot} → find is_empty ps ≡ some p → p ≡ empty
  seat-slot riot_id ps {p = empty} e = refl
  seat-slot riot_id ps {p = filled a b c d} e = cc (find_holds is_empty ps (filled a b c d) e)

  real : Slot → ℕ
  real p = if is_empty p then 0 else 1

  real-total : (ps : List Slot) → total real ps ≡ count_real_players ps
  unfolding real count_real_players
  real-total [] = refl
  real-total (p ∷ ps) = ground (arith, real-total ps)

  pub seated_in-seat :
      (riot_id target : Text) (t : Team) (p : Slot)
      → find is_empty t.players ≡ some p
      → (seated_in target (seat py riot_id t).players
          ≡ seated_in target t.players + newcomer riot_id target)
        × (count_real_players (seat py riot_id t).players ≡ count_real_players t.players + 1)
        × (length (seat py riot_id t).players ≡ length t.players)
  unfolding seat
  seated_in-seat riot_id target t p e =
      let slot = make_player_slot py riot_id in
      let found = rw (seat-slot riot_id t.players e) at e in
      (
        unfold holds in
            omega (
              arith,
              holds-make_player_slot riot_id target,
              total-modify_first (count_if (holds py target)) is_empty (λ _. slot) t.players empty
                  found,
            ),
        unfold real make_player_slot in
            omega (
              arith,
              total-modify_first real is_empty (λ _. slot) t.players empty found,
              real-total t.players,
              real-total (modify_first is_empty (λ _. slot) t.players),
            ),
        length-modify_first is_empty (λ _. slot) t.players,
      )
