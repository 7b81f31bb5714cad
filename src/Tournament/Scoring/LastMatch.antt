-- ===== src/Tournament/Scoring/LastMatch.antt =====
-- The last tie-break of backend/arena/tournaments/scoring.py: the placement in the last ended match.
use arena_rank_project.Prelude.{
  ℕ, zero, suc, ◌+◌, ◌≡◌, refl, Option, none, some, List, [], ◌∷◌, ◌++◌, Text, arith, length,
  replicate, ◌∙◌, ap,
}
use arena_rank_project.Prelude.Int.{ℤ}
use arena_rank_project.Prelude.Table.{Table, lookup, text_instance}
use arena_rank_project.Tournament.Scoring.{
  MatchResult, Tally, start, no_placement, ended_from, last_index, count_match, count_matches,
  standing_of,
}

-- The match `r` is the last ended one: after it come `k` matches that have not ended.
abbrev pub up_to : List (Option MatchResult) → MatchResult → ℕ → List (Option MatchResult)
up_to earlier r k = earlier ++ (some r ∷ replicate k none)

ended_from-replicate : (i k : ℕ) → ended_from i (replicate k none) ≡ []
unfolding ended_from
ended_from-replicate i zero = refl
ended_from-replicate i (suc k) = ended_from-replicate (suc i) k

last_index-cons :
    (e : ℕ × MatchResult) (es : List (ℕ × MatchResult)) {j : ℕ}
    → last_index es ≡ some j
    → last_index (e ∷ es) ≡ some j
unfolding last_index
last_index-cons e [] h = ground arith
last_index-cons e (f ∷ fs) h = h

last_index-ended_from :
    (i : ℕ) (earlier : List (Option MatchResult)) (r : MatchResult) (k : ℕ)
    → last_index (ended_from i (up_to earlier r k)) ≡ some (i + length earlier)
unfolding ended_from
last_index-ended_from i [] r k =
    rw ended_from-replicate (unfold last_index in ap some (omega arith))
last_index-ended_from i (none ∷ rs) r k =
    last_index-ended_from (suc i) rs r k ∙ ap some (omega arith)
last_index-ended_from i (some q ∷ rs) r k =
    last_index-cons (i, q) _ (last_index-ended_from (suc i) rs r k) ∙ ap some (omega arith)

-- The placement in `r`, or else what was there before.
abbrev pub placed_or : Text → MatchResult → ℤ → ℤ
placed_or tid r before = elim (lookup tid r.placements) [ none ↦ before | some p ↦ p ]

count_matches-last_place :
    (scoring : Table ℤ ℤ) (tid : Text) (t : Tally) (i j : ℕ) (earlier : List (Option MatchResult))
    (r : MatchResult) (k : ℕ)
    → j ≡ i + length earlier
    → (count_matches scoring (some j) tid t (ended_from i (up_to earlier r k))).last_place
      ≡ placed_or tid r t.last_place
unfolding ended_from count_matches
count_matches-last_place scoring tid t i j [] r k e =
    rw ended_from-replicate (unfold count_match in ground arith)
count_matches-last_place scoring tid t i j (none ∷ rs) r k e =
    count_matches-last_place scoring tid t (suc i) j rs r k (omega arith)
count_matches-last_place scoring tid t i j (some q ∷ rs) r k e =
    count_matches-last_place scoring tid (count_match scoring (some j) tid t (i, q)) (suc i) j rs r
      k (omega arith)
    ∙ ap (placed_or tid r) (unfold count_match in ground arith)

-- Whatever came before it, the last ended match alone decides the last tie-break: it is the team's
-- placement there, and 10^9 for a team that has none in it.
pub standing_of-last_placement :
    (scoring : Table ℤ ℤ) (penalties : Table Text ℤ) (tid : Text)
    (earlier : List (Option MatchResult)) (r : MatchResult) (k : ℕ)
    → (standing_of (ended_from 0 (up_to earlier r k)) scoring penalties tid).last_placement
      ≡ placed_or tid r no_placement
unfolding standing_of
standing_of-last_placement scoring penalties tid earlier r k =
    rw (last_index-ended_from 0 earlier r k)
      (count_matches-last_place scoring tid start 0 _ earlier r k refl)
