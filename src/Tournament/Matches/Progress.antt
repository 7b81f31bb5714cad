-- ===== src/Tournament/Matches/Progress.antt =====
-- How a tournament moves from match to match under `set_match_link` and `submit_result` of
-- backend/arena/tournaments/service.py.
use arena_rank_project.Prelude.{
  ◌⊎◌, ◌||◌, ltb, Bool-cases, ◌<◌, ℕ, zero, suc, ◌+◌, ◌≤◌, ◌≡◌, ◌≢◌, refl, ◌∙◌, ap, sym, ◌↔◌, Bool,
  true, Option, none, List, [], ◌∷◌, map, arith, Option-cases, inl, inr, Text, find, all, ◌==◌,
}
use arena_rank_project.Prelude.Int.{ℤ}
use arena_rank_project.Prelude.Table.{Table}
use arena_rank_project.Prelude.Result.{ok, err, >>=-eq-ok}
use arena_rank_project.Tournament.Provision.{Python}
use arena_rank_project.Tournament.Rows.{
  Status, live, ended, Error, Tournament, Match, Event, ResultEntry,
}
use arena_rank_project.Tournament.Onboarding.{modify_first}
use arena_rank_project.Tournament.Matches.{
  match_or_422, set_match_link_in, submit_result_in, close_match, advance, is_ended, follow_match,
  standings_of, merge_penalties, write_rows,
}

abbrev pub numbers_from : ℕ → ℕ → List ℕ
numbers_from k zero = []
numbers_from k (suc count) = k ∷ numbers_from (suc k) count

-- The matches are numbered from 1, and the current one is one of them.
pub record InProgress (ev : Event) : Type 0 where
  pub numbered : map (λ mm. mm.n) ev.matches ≡ numbers_from 1 ev.tournament.num_matches
  pub current_low : 1 ≤ ev.tournament.current_match
  pub current_high : ev.tournament.current_match ≤ ev.tournament.num_matches

numbers-modify_first :
    (p : Match → Bool) (f : Match → Match) (ms : List Match)
    → ((mm : Match) → (f mm).n ≡ mm.n)
    → map (λ mm. mm.n) (modify_first p f ms) ≡ map (λ mm. mm.n) ms
numbers-modify_first p f [] h = refl
numbers-modify_first p f (m ∷ ms) h = ground (arith, h m, numbers-modify_first p f ms h)

find_number :
    (n k count : ℕ) (ms : List Match)
    → map (λ mm. mm.n) ms ≡ numbers_from k count
    → k ≤ n
    → n < k + count
    → find (λ mm. mm.n == n) ms ≢ none
find_number n k zero ms e lo hi = absurd (omega arith)
find_number n k (suc count) [] e lo hi = absurd (cc)
find_number n k (suc count) (m ∷ ms) e lo hi =
    ground (arith, find_number n (suc k) count ms (ground arith))

-- In a tournament whose matches are numbered, every number in range names a match: the second error
-- of the check is never raised, and the first one exactly out of range.
pub match_or_422_total :
    (ev : Event) (n : ℕ)
    → InProgress ev
    → let r = match_or_422 ev.matches n ev.tournament.num_matches in
      ((1 ≤ n) × (n ≤ ev.tournament.num_matches) × ((mm : Match) × (r ≡ ok mm)))
      ⊎ (((n ≡ 0) ⊎ (ev.tournament.num_matches < n)) × (r ≡ err Error.match_out_of_range))
unfolding match_or_422
match_or_422_total ev n w = elim (Bool-cases (ltb n 1 || ltb ev.tournament.num_matches n)) [
  | inl e ↦ inr (ground arith, ground arith)
  | inr e ↦ elim (Option-cases (find (λ mm. mm.n == n) ev.matches)) [
    | inl missing ↦ absurd (
        find_number n 1 ev.tournament.num_matches ev.matches w.numbered (ground arith)
          (ground arith) missing)
    | inr (mm, found) ↦ inl (ground arith, ground arith, (mm, ground arith))
  ]
]

match_or_422-ok :
    (ms : List Match) (n num : ℕ) {mm : Match} → match_or_422 ms n num ≡ ok mm → (1 ≤ n) × (n ≤ num)
unfolding match_or_422
match_or_422-ok ms n num h = ground arith

pub set_match_link_in-ok :
    (n : ℕ) (link : Text) (st : Status) (ev : Event) {r : Unit {0} × Event}
    → set_match_link_in n link st ev ≡ ok r
    → (1 ≤ n)
      × (n ≤ ev.tournament.num_matches)
      × (r.1 ≡ record ev {
        tournament = follow_match n st ev.tournament;
        matches =
            modify_first
              (λ found. found.n == n)
              (λ found. record found { magnetic_link = link; status = st })
              ev.matches;
      })
unfolding set_match_link_in
set_match_link_in-ok n link st ev h =
    let (mm, found, e) = >>=-eq-ok (match_or_422 ev.matches n ev.tournament.num_matches) _ h in
    let range = match_or_422-ok ev.matches n ev.tournament.num_matches found in
    (range.0, range.1, ground arith)

follow_match_range :
    (n : ℕ) (st : Status) (t : Tournament)
    → 1 ≤ n
    → n ≤ t.num_matches
    → 1 ≤ t.current_match
    → t.current_match ≤ t.num_matches
    → let t' = follow_match n st t in
      (t'.num_matches ≡ t.num_matches) × (1 ≤ t'.current_match) × (t'.current_match ≤ t.num_matches)
unfolding follow_match
follow_match_range n st t a b c d = ground arith

-- Every successful `set_match_link` keeps the matches numbered and the current match in range.
pub set_match_link_in-InProgress :
    (n : ℕ) (link : Text) (st : Status) (ev : Event) {r : Unit {0} × Event}
    → InProgress ev
    → set_match_link_in n link st ev ≡ ok r
    → InProgress r.1
set_match_link_in-InProgress n link st ev w h =
    let (lo, hi, e) = set_match_link_in-ok n link st ev h in
    let (same, low, high) =
      follow_match_range n st ev.tournament lo hi w.current_low w.current_high in
    rw e (record {
      numbered =
          numbers-modify_first _ _ ev.matches (λ m. refl)
          ∙ w.numbered
          ∙ ap (numbers_from 1) (sym same);
      current_low = low;
      current_high = omega (arith, same, high);
    })

module _ (py : Python) where
  pub submit_result_in-ok :
      (n : ℕ) (results : List ResultEntry) (penalties : Option (Table Text ℤ)) (ev : Event)
      {r : Unit {0} × Event}
      → submit_result_in py n results penalties ev ≡ ok r
      → let matches = modify_first (λ found. found.n == n) (close_match py results) ev.matches in
        (1 ≤ n)
        × (n ≤ ev.tournament.num_matches)
        × (r.1.matches ≡ matches)
        × (r.1.tournament ≡ advance n matches ev.tournament)
        × (r.1.teams
            ≡ map
                (write_rows py
                  (standings_of py ev.tournament matches (merge_penalties py penalties ev.teams)))
                (merge_penalties py penalties ev.teams))
  unfolding submit_result_in
  submit_result_in-ok n results penalties ev h =
      let (mm, found, e) = >>=-eq-ok (match_or_422 ev.matches n ev.tournament.num_matches) _ h in
      let range = match_or_422-ok ev.matches n ev.tournament.num_matches found in
      (range.0, range.1, ground arith, ground arith, ground arith)

  advance_range :
      (n : ℕ) (ms : List Match) (t : Tournament)
      → 1 ≤ t.current_match
      → t.current_match ≤ t.num_matches
      → let t' = advance n ms t in
        (t'.num_matches ≡ t.num_matches)
        × (1 ≤ t'.current_match)
        × (t'.current_match ≤ t.num_matches)
  unfolding advance
  advance_range n ms t c d = ground arith

  -- Every successful `submit_result` does so too.
  pub submit_result_in-InProgress :
      (n : ℕ) (results : List ResultEntry) (penalties : Option (Table Text ℤ)) (ev : Event)
      {r : Unit {0} × Event}
      → InProgress ev
      → submit_result_in py n results penalties ev ≡ ok r
      → InProgress r.1
  submit_result_in-InProgress n results penalties ev {r} w h =
      let (lo, hi, ms, t, ts) = submit_result_in-ok n results penalties ev h in
      let found = λ (m : Match). m.n == n in
      let closed = modify_first found (close_match py results) ev.matches in
      let (same, low, high) = advance_range n closed ev.tournament w.current_low w.current_high in
      record {
        numbered =
            rw (ms, t)
              (numbers-modify_first found (close_match py results) ev.matches
                  (λ m. unfold close_match in refl)
                ∙ w.numbered
                ∙ ap (numbers_from 1) (sym same));
        current_low = rw t low;
        current_high = rw t (omega (arith, same, high));
      }

  -- Nothing but the number of the last match closes a tournament: after a result for an earlier match
  -- the tournament is `live` if it had not ended, even if that result was the last one missing.
  pub submit_result_in_earlier :
      (n : ℕ) (results : List ResultEntry) (penalties : Option (Table Text ℤ)) (ev : Event)
      {r : Unit {0} × Event}
      → submit_result_in py n results penalties ev ≡ ok r
      → n < ev.tournament.num_matches
      → ev.tournament.status ≢ ended
      → (r.1.tournament.status ≡ live) × (r.1.tournament.current_match ≡ n + 1)
  submit_result_in_earlier n results penalties ev h lt open_status =
      let (lo, hi, ms, t, ts) = submit_result_in-ok n results penalties ev h in
      unfold advance in (ground arith, ground arith)

  -- A result for the last match closes the tournament if every match has ended by then; if not, the
  -- tournament is live, and `current_match` stays.
  pub submit_result_in_last :
      (results : List ResultEntry) (penalties : Option (Table Text ℤ)) (ev : Event)
      {r : Unit {0} × Event}
      → submit_result_in py ev.tournament.num_matches results penalties ev ≡ ok r
      → ev.tournament.status ≢ ended
      → (r.1.tournament.current_match ≡ ev.tournament.current_match)
        × ((r.1.tournament.status ≡ ended) ↔ (all (λ m. is_ended m.status) r.1.matches ≡ true))
  submit_result_in_last results penalties ev h open_status =
      let (lo, hi, ms, t, ts) =
        submit_result_in-ok ev.tournament.num_matches results penalties ev h in
      unfold advance in (ground arith, (λ k. ground arith, λ k. ground arith))
