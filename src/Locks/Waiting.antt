-- ===== src/Locks/Waiting.antt =====
-- The loop of `_acquire_all` of backend/arena/services/locks.py.
use arena_rank_project.Prelude.{
  length, false, Bool-cases, ℕ, zero, suc, ◌+◌, ◌≤◌, ◌≡◌, refl, ap, subst, Bool, true, Option, none,
  some, List, [], ◌∷◌, arith, inl, inr, leb, All, map,
}
use arena_rank_project.Locks.{
  Redis, attempt, with_tokens, Acquired, holds, timed_out, rounds, acquire_all,
}
use arena_rank_project.Locks.Laws.{Respects, attempt-All_or_none}

-- `waited` after so many sleeps.
abbrev pub waited_after : (ℕ → ℕ → ℕ) → ℕ → ℕ → ℕ
waited_after plus retry_delay zero = 0
waited_after plus retry_delay (suc n) = plus (waited_after plus retry_delay n) retry_delay

with_tokens-players :
    (f : ℕ → ℕ) (ordered : List ℕ) → map (λ p. p.0) (with_tokens f ordered) ≡ ordered
with_tokens-players f [] = refl
with_tokens-players f (p ∷ ps) = ap (◌∷◌ p) (with_tokens-players f ps)

module _ (ours : ℕ → Bool) (token : ℕ → ℕ → ℕ)
    (drawn : (i pid : ℕ) → ours (token i pid) ≡ true) where
  with_tokens-ours :
      (i : ℕ) (ordered : List ℕ) → All (λ p. ours p.1 ≡ true) (with_tokens (token i) ordered)
  with_tokens-ours i [] = tt
  with_tokens-ours i (p ∷ ps) = (drawn i p, with_tokens-ours i ps)

  -- How a call ends, by a key and a token of the call: every player asked for is locked by the token handed
  -- out for it, or it has timed out and the key does not carry the token.
  abbrev pub Ends : ℕ → ℕ → List ℕ → Option (Acquired × Redis) → Type 0
  Ends k t ordered none = ⊥
  Ends k t ordered (some (holds held, r')) =
      All (λ p. r' p.0 ≡ some p.1) held × (map (λ p. p.0) held ≡ ordered)
  Ends k t ordered (some (timed_out, r')) = ¬ (r' k ≡ some t)

  module _ (others : ℕ → Redis → Redis) (respects : Respects ours others) (plus : ℕ → ℕ → ℕ)
      (retry_delay max_wait k t : ℕ) (own : ours t ≡ true) where
    -- One round, with what the rounds after it end in.
    round-Ends :
        (fuel i n waited : ℕ) (ordered : List ℕ) (r : Redis)
        → ¬ (r k ≡ some t)
        → (leb max_wait waited ≡ false
            → (r' : Redis) → ¬ (r' k ≡ some t)
            → Ends k t ordered (
                rounds others plus retry_delay max_wait token fuel
                  (suc i)
                  (n + length ordered + length ordered)
                  (plus waited retry_delay)
                  ordered
                  r'))
        → Ends k t ordered
            (rounds others plus retry_delay max_wait token (suc fuel) i n waited ordered r)
    unfolding rounds
    round-Ends fuel i n waited ordered r fresh later =
        let ps = with_tokens (token i) ordered in
        elim (attempt-All_or_none ours others respects k t own ps n r (with_tokens-ours i ordered)
          fresh) [
            | inl (done, locked) ↦ rw done (locked, with_tokens-players (token i) ordered)
            | inr (failed, gone) ↦ rw failed (elim (Bool-cases (leb max_wait waited)) [
              | inl late ↦ rw late gone
              | inr early ↦ rw early (later early (attempt others ps n r).1 gone)
            ])
          ]

    rounds-Ends :
        (fuel i n : ℕ) (ordered : List ℕ) (r : Redis)
        → max_wait ≤ waited_after plus retry_delay (i + fuel)
        → ¬ (r k ≡ some t)
        → Ends k t ordered (
            rounds others plus retry_delay max_wait token
              (suc fuel)
              i
              n
              (waited_after plus retry_delay i)
              ordered
              r)
    rounds-Ends zero i n ordered r enough fresh =
        let now : max_wait ≤ waited_after plus retry_delay i =
          subst (λ m. max_wait ≤ waited_after plus retry_delay m) (omega arith) enough in
        round-Ends zero i n _ ordered r fresh (λ early. absurd (ground arith))
    rounds-Ends (suc fuel) i n ordered r enough fresh =
        round-Ends (suc fuel) i n _ ordered r fresh (λ early r' gone.
          rounds-Ends fuel (suc i) _ ordered r'
            (subst (λ m. max_wait ≤ waited_after plus retry_delay m) (omega arith) enough) gone)

    -- If the waits of some number of sleeps add up to the limit, as the floats add, a call ends within one
    -- round more, however the other clients act between any two commands, as long as they never write or
    -- drop one of the call's tokens, none of its locks lapses, and none of its tokens was there before: it
    -- holds exactly the locks asked for, each under its own token, or it has timed out and left none of its
    -- tokens at any key.
    pub acquire_all-Ends :
        (sleeps : ℕ) (ordered : List ℕ) (r : Redis)
        → max_wait ≤ waited_after plus retry_delay sleeps
        → ¬ (r k ≡ some t)
        → Ends k t ordered
            (acquire_all others plus retry_delay max_wait token (suc sleeps) ordered r)
    unfolding acquire_all
    acquire_all-Ends sleeps [] r enough fresh = (tt, refl)
    acquire_all-Ends sleeps (p ∷ ps) r enough fresh =
        rounds-Ends sleeps 0 0 (p ∷ ps) r
          (subst (λ m. max_wait ≤ waited_after plus retry_delay m) (omega arith) enough) fresh
