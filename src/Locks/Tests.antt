-- ===== src/Locks/Tests.antt =====
-- The locks at concrete inputs.
use arena_rank_project.Prelude.{
  ltb, leb, Bool, Option, ◌&&◌, if◌then◌else◌, ◌⊎◌, ℕ, ◌+◌, ◌*◌, ◌≡◌, refl, true, false, none, some,
  List, [], ◌∷◌, arith, All, any, ◌==◌,
}
use arena_rank_project.Locks.{lock_order, Redis, update, attempt, acquire_all, Acquired, holds}
use arena_rank_project.Locks.Waiting.{Ends, acquire_all-Ends}
use arena_rank_project.Locks.Order.{occurrences, lock_order-IsSorted}
use arena_rank_project.Prelude.Sort.{IsSorted}
use arena_rank_project.Locks.Laws.{attempt-All_or_none, Respects}

-- Player 3 is locked by another client, under the token 90.
abbrev shared : Redis
shared = update (λ k. none) 3 (some 90)

-- The tokens of this call.
abbrev ours : ℕ → Bool
ours t = leb 1000 t

abbrev token : ℕ → ℕ → ℕ
token i pid = 1000 + 100 * i + pid

-- The others leave the tokens of this call alone. One takes player 2 before the first command, under 91, and
-- from the sixth command on they hold nothing.
abbrev taken_by_others : ℕ → ℕ → Option ℕ → Option ℕ
taken_by_others n j none = if j == 2 && n == 0 then some 91 else none
taken_by_others n j (some t) = if leb 1000 t then some t else if leb 5 n then none else some t

abbrev others : ℕ → Redis → Redis
others n r j = taken_by_others n j (r j)

taken_by_others_writes :
    (n k t : ℕ) (v : Option ℕ) → ours t ≡ true → taken_by_others n k v ≡ some t → v ≡ some t
taken_by_others_writes n k t none o h = ground arith
taken_by_others_writes n k t (some u) o h = ground arith

taken_by_others_drops :
    (n k t : ℕ) (v : Option ℕ) → ours t ≡ true → v ≡ some t → taken_by_others n k v ≡ some t
taken_by_others_drops n k t none o h = ground arith
taken_by_others_drops n k t (some u) o h = ground arith

others-Respects : Respects ours others
others-Respects = record {
  writes_none = λ n r k t o h. taken_by_others_writes n k t (r k) o h;
  drops_none = λ n r k t o h. taken_by_others_drops n k t (r k) o h;
}

not_there : ¬ (shared 1 ≡ some 1001)
not_there h = absurd (cc)

attempt-All_or_none_example :
    (let ps : List (ℕ × ℕ) = (1, 1001) ∷ (2, 1002) ∷ (3, 1003) ∷ [] in
      ((attempt others ps 0 shared).0 ≡ true)
        × All (λ p. (attempt others ps 0 shared).1 p.0 ≡ some p.1) ps
      ⊎ ((attempt others ps 0 shared).0 ≡ false) × ¬ ((attempt others ps 0 shared).1 1 ≡ some 1001))
attempt-All_or_none_example =
    attempt-All_or_none ours others others-Respects 1 1001 refl
      ((1, 1001) ∷ (2, 1002) ∷ (3, 1003) ∷ []) 0 shared (refl, (refl, (refl, tt))) not_there

first_round : (attempt others ((1, 1001) ∷ (2, 1002) ∷ (3, 1003) ∷ []) 0 shared).0 ≡ false
unfolding attempt
first_round = refl

drawn : (i pid : ℕ) → ours (token i pid) ≡ true
drawn i pid = ground arith

-- Waits that add up exactly, 1 at a time, to a limit of 3.
acquire_all-Ends_example :
    Ends ours token drawn 1 1001
      (1 ∷ 2 ∷ 3 ∷ [])
      (acquire_all others ◌+◌ 1 3 token 4 (1 ∷ 2 ∷ 3 ∷ []) shared)
acquire_all-Ends_example =
    acquire_all-Ends ours token drawn others others-Respects ◌+◌ 1 3 1 1001 refl 3 (1 ∷ 2 ∷ 3 ∷ [])
      shared (omega arith) not_there

abbrev answer : Option (Acquired × Redis) → Option Acquired
answer none = none
answer (some (acquired, r)) = some acquired

second_round :
    answer (acquire_all others ◌+◌ 1 3 token 4 (1 ∷ 2 ∷ 3 ∷ []) shared)
    ≡ some (holds ((1, 1101) ∷ (2, 1102) ∷ (3, 1103) ∷ []))
unfolding acquire_all
second_round = refl

lock_order-IsSorted_case :
    IsSorted ltb (lock_order (3 ∷ 1 ∷ 3 ∷ []))
    × (occurrences 3 (lock_order (3 ∷ 1 ∷ 3 ∷ []))
        ≡ (if any (λ q. q == 3) (3 ∷ 1 ∷ 3 ∷ []) then 1 else 0))
lock_order-IsSorted_case = lock_order-IsSorted (3 ∷ 1 ∷ 3 ∷ []) 3
