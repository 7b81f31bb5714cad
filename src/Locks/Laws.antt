-- ===== src/Locks/Laws.antt =====
-- The rounds of backend/arena/services/locks.py, with the other clients between any two commands.
use arena_rank_project.Prelude.{
  ℕ, suc, ◌+◌, ◌≤◌, ◌≡◌, refl, true, false, some, List, [], ◌∷◌, arith, Bool, Bool-cases, inl, inr,
  ◌⊎◌, ◌==◌, ◌&&◌, length, any, All,
}
use arena_rank_project.Locks.{Redis, is_held, set_lock, set_all, release, release_all, attempt}

-- The other clients never write a token of this call, which are drawn at random, and leave a key that carries
-- one alone: they delete no token but their own, and no lock of the call lapses during it.
pub record Respects (ours : ℕ → Bool) (others : ℕ → Redis → Redis) : Type 0 where
  pub writes_none :
      (n : ℕ) (r : Redis) (k t : ℕ) → ours t ≡ true → others n r k ≡ some t → r k ≡ some t
  pub drops_none :
      (n : ℕ) (r : Redis) (k t : ℕ) → ours t ≡ true → r k ≡ some t → others n r k ≡ some t

set_lock_kept : (pid token k t : ℕ) (r : Redis) → r k ≡ some t → set_lock pid token r k ≡ some t
set_lock_kept pid token k t r h = ground arith

set_lock_other :
    (pid token k t : ℕ) (r : Redis)
    → ¬ (r k ≡ some t)
    → (pid == k && token == t) ≡ false
    → ¬ (set_lock pid token r k ≡ some t)
set_lock_other pid token k t r h e s = h (ground arith)

release_other :
    (pid token k t : ℕ) (r : Redis) → ¬ (r k ≡ some t) → ¬ (release pid token r k ≡ some t)
unfolding release
release_other pid token k t r h s = h (ground arith)

release_own :
    (pid token k t : ℕ) (r : Redis)
    → (pid == k && token == t) ≡ true
    → ¬ (release pid token r k ≡ some t)
unfolding release
release_own pid token k t r e s = ground arith

module _ (ours : ℕ → Bool) (others : ℕ → Redis → Redis) (respects : Respects ours others) where
  set_all_kept :
      (ps : List (ℕ × ℕ)) (n : ℕ) (r : Redis) (k t : ℕ)
      → ours t ≡ true
      → r k ≡ some t
      → (set_all others ps n r).1 k ≡ some t
  unfolding set_all
  set_all_kept [] n r k t o h = h
  set_all_kept ((pid, token) ∷ ps) n r k t o h =
      set_all_kept ps (suc n) (set_lock pid token (others n r)) k t o
        (set_lock_kept pid token k t (others n r) (respects.drops_none n r k t o h))

  length-set_all :
      (ps : List (ℕ × ℕ)) (n : ℕ) (r : Redis) → length (set_all others ps n r).0 ≤ length ps
  unfolding set_all
  length-set_all [] n r = omega arith
  length-set_all ((pid, token) ∷ ps) n r =
      ground (arith, length-set_all ps (suc n) (set_lock pid token (others n r)))

  -- If every SET was answered, every lock is held after the last of them.
  set_all_complete :
      (ps : List (ℕ × ℕ)) (n : ℕ) (r : Redis)
      → All (λ p. ours p.1 ≡ true) ps
      → length (set_all others ps n r).0 ≡ length ps
      → All (λ p. (set_all others ps n r).1 p.0 ≡ some p.1) ps
  unfolding set_all
  set_all_complete [] n r o h = tt
  set_all_complete ((pid, token) ∷ ps) n r o h =
      let seen = others n r in
      let r' = set_lock pid token seen in
      elim (Bool-cases (is_held (seen pid))) [
        | inl taken ↦
            let fewer : length (set_all others ps (suc n) r').0 ≡ suc (length ps) =
              ground (arith, taken, h) in
            absurd (omega (arith, length-set_all ps (suc n) r', fewer))
        | inr free ↦ (
          set_all_kept ps (suc n) r' pid token o.0 (ground arith),
          set_all_complete ps (suc n) r' o.1 (ground (arith, h)),
        )
      ]

  module _ (k t : ℕ) (own : ours t ≡ true) where
    -- A token that was not there before is one of those that were set, or is not there after.
    set_all_own :
        (ps : List (ℕ × ℕ)) (n : ℕ) (r : Redis)
        → ¬ (r k ≡ some t)
        → (any (λ p. p.0 == k && p.1 == t) (set_all others ps n r).0 ≡ true)
          ⊎ ¬ ((set_all others ps n r).1 k ≡ some t)
    unfolding set_all
    set_all_own [] n r h = inr h
    set_all_own ((pid, token) ∷ ps) n r h =
        let seen = others n r in
        let unseen : ¬ (seen k ≡ some t) = λ s. h (respects.writes_none n r k t own s) in
        elim (Bool-cases (is_held (seen pid))) [
          | inl taken ↦ rw taken (set_all_own ps (suc n) seen unseen)
          | inr free ↦ elim (Bool-cases (pid == k && token == t)) [
            | inl this ↦ rw free (inl (ground (arith, this)))
            | inr that ↦
                elim (set_all_own ps (suc n) (set_lock pid token seen)
                  (set_lock_other pid token k t seen unseen that)) [
                    | inl later ↦ inl (ground (arith, free, later))
                    | inr gone ↦ inr gone
                  ]
          ]
        ]

    release_all_own :
        (held : List (ℕ × ℕ)) (n : ℕ) (r : Redis)
        → (any (λ p. p.0 == k && p.1 == t) held ≡ true) ⊎ ¬ (r k ≡ some t)
        → ¬ (release_all others held n r k ≡ some t)
    unfolding release_all
    release_all_own [] n r (inl e) = absurd (cc)
    release_all_own [] n r (inr h) = h
    release_all_own ((pid, token) ∷ held) n r (inr h) =
        release_all_own held (suc n) (release pid token (others n r)) (
          inr (
            release_other pid token k t (others n r) (λ s. h (respects.writes_none n r k t own s))))
    release_all_own ((pid, token) ∷ held) n r (inl e) =
        let rest = release_all_own held (suc n) (release pid token (others n r)) in
        elim (Bool-cases (pid == k && token == t)) [
          | inl this ↦ rest (inr (release_own pid token k t (others n r) this))
          | inr that ↦ rest (inl (ground (arith, that, e)))
        ]

    -- However the other clients interfere, as long as they never write or drop a token of the call and none
    -- of its locks lapses: a round either has every lock at its end, each under its own token, or fails and
    -- leaves no token of the call at any key, if none was there before.
    pub attempt-All_or_none :
        (ps : List (ℕ × ℕ)) (n : ℕ) (r : Redis)
        → All (λ p. ours p.1 ≡ true) ps
        → ¬ (r k ≡ some t)
        → ((attempt others ps n r).0 ≡ true)
            × All (λ p. (attempt others ps n r).1 p.0 ≡ some p.1) ps
          ⊎ ((attempt others ps n r).0 ≡ false) × ¬ ((attempt others ps n r).1 k ≡ some t)
    unfolding attempt
    attempt-All_or_none ps n r o h =
        let (held, r') = set_all others ps n r in
        elim (Bool-cases (length (set_all others ps n r).0 == length ps)) [
          | inl e ↦ rw e (inl (refl, set_all_complete ps n r o (ground (arith, e))))
          | inr e ↦ rw e (
              inr (
                refl,
                release_all_own (set_all others ps n r).0 (n + length ps) (set_all others ps n r).1
                    (set_all_own ps n r h),
              ))
        ]
