-- ===== src/Locks/Order.antt =====
-- The order in which `lock_players` of backend/arena/services/locks.py takes the locks.
use arena_rank_project.Prelude.{
  ℕ, ◌≡◌, refl, ◌∙◌, List, [], ◌∷◌, arith, if◌then◌else◌, any, ◌==◌, ltb, Bool-cases, inl, inr,
}
use arena_rank_project.Prelude.Sort.{sum_by, sort_by-sum_by, IsSorted, sort_by-IsSorted}
use arena_rank_project.Locks.{distinct, lock_order}

-- How often a player stands in a list.
abbrev pub occurrences : ℕ → List ℕ → ℕ
occurrences k = sum_by (λ p. if p == k then 1 else 0)

distinct-occurrences :
    (k : ℕ) (ps : List ℕ) → occurrences k (distinct ps) ≡ (if any (λ q. q == k) ps then 1 else 0)
unfolding distinct
distinct-occurrences k [] = refl
distinct-occurrences k (p ∷ ps) = elim (Bool-cases (p == k)) [
  | inl e ↦ let same : p ≡ k = ground arith in ground (arith, distinct-occurrences k ps, same)
  | inr e ↦ ground (arith, distinct-occurrences k ps)
]

-- The locks of a match are taken in the order of the players' ids, each player's exactly once, and no
-- other player's.
pub lock_order-IsSorted :
    (player_ids : List ℕ) (k : ℕ)
    → IsSorted ltb (lock_order player_ids)
      × (occurrences k (lock_order player_ids) ≡ (if any (λ q. q == k) player_ids then 1 else 0))
unfolding lock_order
lock_order-IsSorted player_ids k = (
  sort_by-IsSorted ltb (λ x y h. ground arith) (λ x y z h h'. ground arith) (distinct player_ids),
  sort_by-sum_by ltb (λ p. if p == k then 1 else 0) (distinct player_ids)
      ∙ distinct-occurrences k player_ids,
)
