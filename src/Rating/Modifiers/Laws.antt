-- ===== src/Rating/Modifiers/Laws.antt =====
-- What the modifiers of backend/arena/rating/modifiers.py guarantee.
use arena_rank_project.Prelude.{
  ℕ, zero, suc, ◌+◌, ◌≡◌, refl, Bool, true, false, List, [], ◌∷◌, ◌++◌, arith, replicate, ap, ◌∙◌,
}
use arena_rank_project.Prelude.Int.{ℤ, pos, negsuc}
use arena_rank_project.Floats.{Floats, IsOrdered, fmin_le, lt_asym}
use arena_rank_project.Rating.Params.{RatingParams}
use arena_rank_project.Rating.Caps.{zero_f}
use arena_rank_project.Rating.Modifiers.{PlayerState, three, to_cr, next_streak, soft_reset}

-- The streak after a list of outcomes, oldest first.
abbrev pub streak_after : ℤ → List Bool → ℤ
streak_after s [] = s
streak_after s (w ∷ ws) = streak_after (next_streak s w) ws

streak_after-append :
    (s : ℤ) (xs ys : List Bool) → streak_after s (xs ++ ys) ≡ streak_after (streak_after s xs) ys
streak_after-append s [] ys = refl
streak_after-append s (x ∷ xs) ys = streak_after-append (next_streak s x) xs ys

next_streak-win : (n : ℕ) → next_streak (pos n) true ≡ pos (n + 1)
unfolding next_streak
next_streak-win n = ground arith

next_streak-loss : (n : ℕ) → next_streak (negsuc n) false ≡ negsuc (n + 1)
unfolding next_streak
next_streak-loss n = ground arith

wins_grow : (k n : ℕ) → streak_after (pos n) (replicate k true) ≡ pos (n + k)
wins_grow zero n = ap pos (omega arith)
wins_grow (suc k) n =
    ap (λ s. streak_after s (replicate k true)) (next_streak-win n)
    ∙ wins_grow k (n + 1)
    ∙ ap pos (omega arith)

losses_grow : (k n : ℕ) → streak_after (negsuc n) (replicate k false) ≡ negsuc (n + k)
losses_grow zero n = ap negsuc (omega arith)
losses_grow (suc k) n =
    ap (λ s. streak_after s (replicate k false)) (next_streak-loss n)
    ∙ losses_grow k (n + 1)
    ∙ ap negsuc (omega arith)

turn_to_win : (s : ℤ) → next_streak (next_streak s false) true ≡ pos 1
unfolding next_streak
turn_to_win s = ground arith

turn_to_loss : (s : ℤ) → next_streak (next_streak s true) false ≡ negsuc 0
unfolding next_streak
turn_to_loss s = ground arith

-- Whatever the streak was at first and whatever came before, after a loss and k + 1 wins it is k + 1, and
-- after a win and k + 1 losses it is -(k + 1).
pub streak_after_run :
    (s : ℤ) (earlier : List Bool) (k : ℕ)
    → (streak_after s (earlier ++ (false ∷ true ∷ replicate k true)) ≡ pos (k + 1))
      × (streak_after s (earlier ++ (true ∷ false ∷ replicate k false)) ≡ negsuc k)
streak_after_run s earlier k =
    let before = streak_after s earlier in
    (
      streak_after-append s earlier (false ∷ true ∷ replicate k true)
          ∙ ap (λ t. streak_after t (replicate k true)) (turn_to_win before)
          ∙ wins_grow k 1
          ∙ ap pos (omega arith),
      streak_after-append s earlier (true ∷ false ∷ replicate k false)
          ∙ ap (λ t. streak_after t (replicate k false)) (turn_to_loss before)
          ∙ losses_grow k 0
          ∙ ap negsuc (omega arith),
    )

module _ (fl : Floats) (ord : IsOrdered fl) where
  open fl use {Float, lt, mul}
  open ord use {lt_irrefl}

  -- The displayed rating is never below 0.
  pub to_cr-nonneg :
      (mu sigma : Float) (p : RatingParams fl) → lt (to_cr fl mu sigma p) (zero_f fl) ≡ false
  unfolding to_cr
  to_cr-nonneg mu sigma p =
      let cr = fl.add (mul (fl.sub mu (mul (three fl) sigma)) p.scale_factor) p.base_offset in
      ground (arith, lt_irrefl (zero_f fl), lt_asym fl ord (zero_f fl) cr)

  -- A season reset leaves a rating of at least 0 that is the one displayed for the new mu and sigma and the
  -- peak of the new season, a sigma of at most the cap, no streak, and a full provisional window.
  pub soft_reset_lem :
      (state : PlayerState fl) (p : RatingParams fl)
      → let s = soft_reset fl state p in
        (lt s.cr (zero_f fl) ≡ false)
        × (s.cr ≡ to_cr fl s.mu s.sigma p)
        × (s.peak_cr ≡ s.cr)
        × (lt p.sigma_reset_cap s.sigma ≡ false)
        × (s.current_streak ≡ pos 0)
        × (s.placement_matches_remaining ≡ pos p.placement_match_count)
  unfolding soft_reset
  soft_reset_lem state p = (
    to_cr-nonneg _ _ p,
    refl,
    refl,
    (fmin_le fl ord (mul state.sigma p.sigma_reset_mult) p.sigma_reset_cap).1,
    refl,
    refl,
  )
