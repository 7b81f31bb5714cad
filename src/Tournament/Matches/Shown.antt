-- ===== src/Tournament/Matches/Shown.antt =====
-- The order in which `_project` of backend/arena/tournaments/service.py lists the stored standings.
use arena_rank_project.Prelude.{◌≡◌, [], ◌∷◌, arith}
use arena_rank_project.Prelude.Sort.{sort_by}
use arena_rank_project.Tournament.Scoring.{TeamStanding, ranks_before}
use arena_rank_project.Tournament.Scoring.Laws.{RanksBefore, ranks_before_sound}
use arena_rank_project.Tournament.Rows.{Team}
use arena_rank_project.Tournament.Matches.{shown_standings}

-- Two teams that are tied on their totals are shown as they are stored, by seed, although the scoring
-- engine puts the second one first, by first places or by the last match.
pub shown_standings_tied :
    (a b : Team) (x y : TeamStanding)
    → a.total ≡ x.total
    → b.total ≡ y.total
    → a.total ≡ b.total
    → RanksBefore y x
    → (shown_standings (a ∷ b ∷ []) ≡ a ∷ b ∷ []) × (sort_by ranks_before (x ∷ y ∷ []) ≡ y ∷ x ∷ [])
unfolding shown_standings sort_by
shown_standings_tied a b x y p q tie r = (ground arith, rw (ranks_before_sound y x r))
