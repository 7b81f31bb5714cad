-- ===== src/Tournament/Scoring/Laws.antt =====
-- What the standings of backend/arena/tournaments/scoring.py promise.
use mathlib.Core.Bool.{false≢true}
use mathlib.Core.List.{Perm}
use arena_rank_project.Prelude.{
  ℕ, suc, ◌≤◌, ◌<◌, ◌≡◌, refl, sym, ◌∙◌, true, false, Option, none, some, List, [], ◌∷◌, ◌++◌, map,
  ◌⊎◌, inl, inr, Text, arith, Option-cases, All, All-map,
}
use arena_rank_project.Prelude.Int.{
  ℤ, pos, ◌+ℤ◌, ◌-ℤ◌, ◌≤ℤ◌, ◌<ℤ◌, min_ℤ, +ℤ_assoc, +ℤ-zero, zero-+ℤ,
}
use arena_rank_project.Prelude.Table.{Table, lookup, lookup_or, text_instance, int_eq}
use arena_rank_project.Prelude.Sort.{sort_by-perm, sort_by-IsSorted, IsSorted}
use arena_rank_project.Tournament.Scoring.{
  MatchResult, TeamStanding, Tally, start, ended_from, last_index, count_match, count_matches,
  sum_from, standing_of, ranks_before, compute_standings,
}

-- The results of the matches that have ended, in order.
abbrev pub ended_results : List (Option MatchResult) → List MatchResult
ended_results [] = []
ended_results (none ∷ rs) = ended_results rs
ended_results (some r ∷ rs) = r ∷ ended_results rs

module _ (scoring : Table ℤ ℤ) (tid : Text) where
  -- The points, the bravura bonus, the wins and the rounds that one match adds.
  abbrev pub points_in : MatchResult → ℤ
  points_in r = elim (lookup tid r.placements) [
    | none ↦ pos 0
    | some place ↦ lookup_or place (pos 0) scoring
  ]

  abbrev pub total_points : List MatchResult → ℤ
  total_points [] = pos 0
  total_points (r ∷ rs) = points_in r +ℤ total_points rs

-- The bonus of one match, at most 4; a team that was not placed has none.
abbrev pub bonus_in : Text → MatchResult → ℤ
bonus_in tid r = elim (lookup tid r.placements) [
  | none ↦ pos 0
  | some _ ↦ min_ℤ (lookup_or tid (pos 0) r.bravura) (pos 4)
]

abbrev pub total_bonus : Text → List MatchResult → ℤ
total_bonus tid [] = pos 0
total_bonus tid (r ∷ rs) = bonus_in tid r +ℤ total_bonus tid rs

sum_from-append :
    (acc : ℤ) (xs : List ℤ) (x : ℤ) → sum_from acc (xs ++ (x ∷ [])) ≡ sum_from acc xs +ℤ x
unfolding sum_from
sum_from-append acc [] x = refl
sum_from-append acc (y ∷ ys) x = sum_from-append (acc +ℤ y) ys x

-- One round adds its match's points and bonus.
count_match-adds :
    (scoring : Table ℤ ℤ) (last : Option ℕ) (tid : Text) (t : Tally) (i : ℕ) (r : MatchResult)
    → let t' = count_match scoring last tid t (i, r) in
      (sum_from (pos 0) t'.per_match ≡ sum_from (pos 0) t.per_match +ℤ points_in scoring tid r)
      × (t'.bonus ≡ t.bonus +ℤ bonus_in tid r)
unfolding count_match
count_match-adds scoring last tid t i r = elim (Option-cases (lookup tid r.placements)) [
  | inl e ↦
      (ground (arith, +ℤ-zero (sum_from (pos 0) t.per_match)), ground (arith, +ℤ-zero t.bonus))
  | inr (place, e) ↦ (
    ground (arith, sum_from-append (pos 0) t.per_match (lookup_or place (pos 0) scoring)),
    ground arith,
  )
]

-- The loop adds up to the declarative sums over the ended matches.
count_matches-adds :
    (scoring : Table ℤ ℤ) (last : Option ℕ) (tid : Text) (t : Tally) (i : ℕ)
    (rs : List (Option MatchResult))
    → let t' = count_matches scoring last tid t (ended_from i rs) in
      (sum_from (pos 0) t'.per_match
        ≡ sum_from (pos 0) t.per_match +ℤ total_points scoring tid (ended_results rs))
      × (t'.bonus ≡ t.bonus +ℤ total_bonus tid (ended_results rs))
unfolding count_matches ended_from
count_matches-adds scoring last tid t i [] = (rw +ℤ-zero, rw +ℤ-zero)
count_matches-adds scoring last tid t i (none ∷ rs) =
    count_matches-adds scoring last tid t (suc i) rs
count_matches-adds scoring last tid t i (some r ∷ rs) =
    let h = count_match-adds scoring last tid t i r in
    let k =
      count_matches-adds scoring last tid (count_match scoring last tid t (i, r)) (suc i) rs in
    (k.0 ∙ rw h.0 (+ℤ_assoc _ _ _), k.1 ∙ rw h.1 (+ℤ_assoc _ _ _))

pub standing_of-team_id :
    (ended : List (ℕ × MatchResult)) (scoring : Table ℤ ℤ) (penalties : Table Text ℤ) (tid : Text)
    → (standing_of ended scoring penalties tid).team_id ≡ tid
unfolding standing_of
standing_of-team_id ended scoring penalties tid = refl

-- A team's total is the points of its placements in the ended matches, plus the bravura bonus (at
-- most 4 a match), less its penalties; the bonus of the row is that sum.
pub standing_of-total :
    (results : List (Option MatchResult)) (scoring : Table ℤ ℤ) (penalties : Table Text ℤ)
    (tid : Text)
    → let row = standing_of (ended_from 0 results) scoring penalties tid in
      (row.total
        ≡ total_points scoring tid (ended_results results)
          +ℤ total_bonus tid (ended_results results)
          -ℤ lookup_or tid (pos 0) penalties)
      × (row.bonus ≡ total_bonus tid (ended_results results))
      × (row.penalties ≡ lookup_or tid (pos 0) penalties)
unfolding standing_of
standing_of-total results scoring penalties tid =
    let last = last_index (ended_from 0 results) in
    let h = count_matches-adds scoring last tid start 0 results in
    let bonus_eq = h.1 ∙ zero-+ℤ _ in (rw (h.0, bonus_eq, sum_from, zero-+ℤ), bonus_eq, refl)

-- The key of the order, as an order on rows: a row is never in front of one with a higher total,
-- nor, at equal totals, of one with more first places, nor, at equal both, of one placed better in
-- the last ended match.
abbrev pub RanksBefore : TeamStanding → TeamStanding → Type 0
RanksBefore a b =
    (b.total <ℤ a.total)
    ⊎ ((b.total ≡ a.total) × (b.first_places < a.first_places))
    ⊎ ((b.total ≡ a.total)
        × (b.first_places ≡ a.first_places)
        × (a.last_placement <ℤ b.last_placement))

pub ranks_before_sound : (a b : TeamStanding) → RanksBefore a b → ranks_before a b ≡ true
unfolding ranks_before
ranks_before_sound a b h = ground arith

ranks_before_asym : (a b : TeamStanding) → ranks_before a b ≡ true → ranks_before b a ≡ false
unfolding ranks_before
ranks_before_asym a b h = ground arith

-- That `b` is not in front of `a`, in numbers.
abbrev NotBefore : TeamStanding → TeamStanding → Type 0
NotBefore b a =
    (b.total <ℤ a.total)
    ⊎ ((b.total ≤ℤ a.total) × (b.first_places < a.first_places))
    ⊎ ((b.total ≤ℤ a.total)
        × (b.first_places ≤ a.first_places)
        × (a.last_placement ≤ℤ b.last_placement))

ranks_before-NotBefore : (a b : TeamStanding) → ranks_before b a ≡ false → NotBefore b a
unfolding ranks_before
ranks_before-NotBefore a b h = ground arith

NotBefore-ranks_before : (a b : TeamStanding) → NotBefore b a → ranks_before b a ≡ false
unfolding ranks_before
NotBefore-ranks_before a b h = ground arith

NotBefore-trans : (a b c : TeamStanding) → NotBefore b a → NotBefore c b → NotBefore c a
NotBefore-trans a b c h k = omega arith

ranks_before_trans :
    (a b c : TeamStanding)
    → ranks_before b a ≡ false
    → ranks_before c b ≡ false
    → ranks_before c a ≡ false
ranks_before_trans a b c h k =
    NotBefore-ranks_before a c
      (NotBefore-trans a b c (ranks_before-NotBefore a b h) (ranks_before-NotBefore b c k))

-- The order of the table by the tie-break rules: total, then first places, both descending, then the
-- placement in the last ended match, ascending.
abbrev pub IsRanked : List TeamStanding → Type 0
IsRanked [] = Unit
IsRanked (x ∷ xs) = All (λ y. ¬ (RanksBefore y x)) xs × IsRanked xs

IsSorted-IsRanked : (rows : List TeamStanding) → IsSorted ranks_before rows → IsRanked rows
IsSorted-IsRanked [] h = tt
IsSorted-IsRanked (x ∷ xs) h = (
  All-map _ _ xs (λ y e r. false≢true (sym e ∙ ranks_before_sound y x r)) h.0,
  IsSorted-IsRanked xs h.1,
)

-- The table is a permutation of the rows of the teams given, each team's own row, and no row stands
-- behind one that the tie-break rules rank after it.
pub compute_standings-IsRanked :
    (team_ids : List Text) (results : List (Option MatchResult)) (scoring : Table ℤ ℤ)
    (penalties : Table Text ℤ)
    → let rows = compute_standings team_ids results scoring penalties in
      Perm rows (map (standing_of (ended_from 0 results) scoring penalties) team_ids)
      × IsRanked rows
unfolding compute_standings
compute_standings-IsRanked team_ids results scoring penalties =
    let rows = map (standing_of (ended_from 0 results) scoring penalties) team_ids in
    (
      sort_by-perm ranks_before rows,
      IsSorted-IsRanked _ (sort_by-IsSorted ranks_before ranks_before_asym ranks_before_trans rows),
    )
