-- ===== src/Tournament/Scoring.antt =====
-- backend/arena/tournaments/scoring.py: the standings of a tournament, computed from the results
-- of its ended matches. Python's ints are unbounded and signed, hence ℤ; counters are naturals. A
-- team id is a text, and a dict is an association list.
use arena_rank_project.Prelude.{
  ℕ, suc, ◌+◌, ◌≡◌, Bool, true, false, Option, none, some, List, [], ◌∷◌, ◌++◌, map, if◌then◌else◌,
  ◌||◌, ◌&&◌, Text, ltb,
}
use arena_rank_project.Prelude.{◌==◌ as nat_beq}
use arena_rank_project.Prelude.Int.{ℤ, pos, ◌+ℤ◌, ◌-ℤ◌, ltb_ℤ, eqb_ℤ, min_ℤ}
use arena_rank_project.Prelude.Table.{Table, lookup, lookup_or, text_instance, int_eq}
use arena_rank_project.Prelude.Sort.{sort_by}
pub mod Laws
pub mod LastMatch

abbrev pub bravura_cap : ℤ
bravura_cap = pos 4

-- `_NO_PLACEMENT`, for a team that was not in the last ended match.
abbrev pub no_placement : ℤ
no_placement = pos 1000000000

pub record MatchResult : Type 0 where
  pub placements : Table Text ℤ
  pub bravura : Table Text ℤ

pub record TeamStanding : Type 0 where
  pub team_id : Text
  pub per_match : List ℤ
  pub bonus : ℤ
  pub penalties : ℤ
  pub total : ℤ
  pub first_places : ℕ
  pub last_placement : ℤ

-- `[(i, r) for i, r in enumerate(results) if r is not None]`, counting from `i`.
unfoldable pub ended_from : ℕ → List (Option MatchResult) → List (ℕ × MatchResult)
ended_from i [] = []
ended_from i (none ∷ rs) = ended_from (suc i) rs
ended_from i (some r ∷ rs) = (i, r) ∷ ended_from (suc i) rs

-- `ended[-1][0] if ended else None`
unfoldable pub last_index : List (ℕ × MatchResult) → Option ℕ
last_index [] = none
last_index ((i, _) ∷ []) = some i
last_index (_ ∷ e ∷ es) = last_index (e ∷ es)

abbrev pub is_index : ℕ → Option ℕ → Bool
is_index i none = false
is_index i (some j) = nat_beq i j

-- The variables of the inner loop.
pub record Tally : Type 0 where
  pub per_match : List ℤ
  pub bonus : ℤ
  pub firsts : ℕ
  pub last_place : ℤ

abbrev pub start : Tally
start = record { per_match = []; bonus = pos 0; firsts = 0; last_place = no_placement }

-- One round of the inner loop, for the team `tid` and the match `(i, r)`.
unfoldable pub count_match : Table ℤ ℤ → Option ℕ → Text → Tally → ℕ × MatchResult → Tally
count_match scoring last_idx tid t (i, r) = elim (lookup tid r.placements) [
  | none ↦ t
  | some place ↦ record {
    per_match = t.per_match ++ (lookup_or place (pos 0) scoring ∷ []);
    bonus = t.bonus +ℤ min_ℤ (lookup_or tid (pos 0) r.bravura) bravura_cap;
    firsts = if eqb_ℤ place (pos 1) then suc t.firsts else t.firsts;
    last_place = if is_index i last_idx then place else t.last_place;
  }
]

unfoldable pub count_matches : Table ℤ ℤ → Option ℕ → Text → Tally → List (ℕ × MatchResult) → Tally
unfolding count_match
count_matches scoring last_idx tid t [] = t
count_matches scoring last_idx tid t (e ∷ es) =
    count_matches scoring last_idx tid (count_match scoring last_idx tid t e) es

-- Python's `sum` adds from the left.
unfoldable pub sum_from : ℤ → List ℤ → ℤ
sum_from acc [] = acc
sum_from acc (x ∷ xs) = sum_from (acc +ℤ x) xs

-- The body of the outer loop: the row of one team.
unfoldable pub standing_of : List (ℕ × MatchResult) → Table ℤ ℤ → Table Text ℤ → Text → TeamStanding
unfolding count_matches sum_from last_index
standing_of ended scoring penalties tid =
    let t = count_matches scoring (last_index ended) tid start ended in
    let pen = lookup_or tid (pos 0) penalties in
    record {
      team_id = tid;
      per_match = t.per_match;
      bonus = t.bonus;
      penalties = pen;
      total = sum_from (pos 0) t.per_match +ℤ t.bonus -ℤ pen;
      first_places = t.firsts;
      last_placement = t.last_place;
    }

-- Whether the key `(-total, -first_places, last_placement)` of `a` is the smaller one.
unfoldable pub ranks_before : TeamStanding → TeamStanding → Bool
ranks_before a b =
    ltb_ℤ b.total a.total
    || eqb_ℤ b.total a.total
      && (ltb b.first_places a.first_places
          || nat_beq b.first_places a.first_places && ltb_ℤ a.last_placement b.last_placement)

unfoldable pub compute_standings :
    List Text → List (Option MatchResult) → Table ℤ ℤ → Table Text ℤ → List TeamStanding
unfolding standing_of sort_by ranks_before ended_from
compute_standings team_ids results scoring penalties =
    sort_by ranks_before (map (standing_of (ended_from 0 results) scoring penalties) team_ids)
