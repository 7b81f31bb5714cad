-- ===== src/Processing/Champions.antt =====
-- `_apply_champion_stat` of backend/arena/services/rating_service.py: the running figures of a player on a champion.
use arena_rank_project.Prelude.Sort.{sum_by}
use arena_rank_project.Prelude.{
  ◌≡◌, ◌≤◌, refl, sym, ap, ◌∙◌, arith, map, length-append, append_assoc, append-nil, ℕ, zero, suc,
  ◌+◌, ◌-◌, Bool, List, [], ◌∷◌, ◌++◌, if◌then◌else◌, length,
}
use arena_rank_project.Floats.{Floats}
use arena_rank_project.Rating.Caps.{zero_f}
use arena_rank_project.Processing.Rows.{ChampionStat}

-- `xs[k:]`
unfoldable pub drop {ℓ} : {A : Type ℓ} → ℕ → List A → List A
drop zero xs = xs
drop (suc k) [] = []
drop (suc k) (x ∷ xs) = drop k xs

-- `window[-10:]`
abbrev pub last_ten : List ℕ → List ℕ
last_ten window = drop (length window - 10) window

length-drop {ℓ} : {A : Type ℓ} (k : ℕ) (xs : List A) → length (drop k xs) ≡ length xs - k
unfolding drop
length-drop zero xs = omega arith
length-drop (suc k) [] = omega arith
length-drop (suc k) (x ∷ xs) = length-drop k xs ∙ omega arith

drop-nil {ℓ} : {A : Type ℓ} (k : ℕ) → drop {A = A} k [] ≡ []
unfolding drop
drop-nil zero = refl
drop-nil (suc k) = refl

drop-drop {ℓ} : {A : Type ℓ} (j k : ℕ) (xs : List A) → drop k (drop j xs) ≡ drop (j + k) xs
unfolding drop
drop-drop zero k xs = ap (λ i. drop i xs) (omega arith)
drop-drop (suc j) k [] = drop-nil k ∙ sym (drop-nil (suc j + k))
drop-drop (suc j) k (x ∷ xs) =
    let sum : suc (j + k) ≡ suc j + k = omega arith in
    drop-drop j k xs ∙ ap (λ i. drop i (x ∷ xs)) sum

drop-append {ℓ} :
    {A : Type ℓ} (k : ℕ) (xs ys : List A) → k ≤ length xs → drop k xs ++ ys ≡ drop k (xs ++ ys)
unfolding drop
drop-append zero xs ys h = refl
drop-append (suc k) [] ys h = absurd (omega (arith, h))
drop-append (suc k) (x ∷ xs) ys h = drop-append k xs ys (omega (arith, h))

-- A window that is kept as the list grows is the end of the whole list.
last_ten-append : (xs ys : List ℕ) → last_ten (last_ten xs ++ ys) ≡ last_ten (xs ++ ys)
last_ten-append xs ys =
    let k = length xs - 10 in
    let shorter = drop-append k xs ys (omega arith) in
    ap (λ l. drop (length l - 10) l) shorter
    ∙ drop-drop k (length (drop k (xs ++ ys)) - 10) (xs ++ ys)
    ∙ ap (λ i. drop i (xs ++ ys)) (omega (arith, length-drop k (xs ++ ys), length-append xs ys))

last_ten_id : (xs : List ℕ) → length xs ≤ 10 → last_ten xs ≡ xs
unfolding drop
last_ten_id xs h = let none : length xs - 10 ≡ 0 = omega (arith, h) in ap (λ k. drop k xs) none

last_ten-short : (xs : List ℕ) → length (last_ten xs) ≤ 10
last_ten-short xs = omega (arith, length-drop (length xs - 10) xs)

module _ (fl : Floats) where
  open fl use {Float, add}

  abbrev pub new_stat : ℕ → ℕ → ℕ → ChampionStat fl
  new_stat pid sid champion = record {
    player_id = pid;
    season_id = sid;
    champion_id = champion;
    matches_played = 0;
    wins = 0;
    top_half = 0;
    total_placement_sum = 0;
    cr_delta_sum = zero_f fl;
    last10_placements = [];
  }

  -- What a match adds to the row of the champion that was played.
  unfoldable pub count_game : ℕ → Bool → Float → ChampionStat fl → ChampionStat fl
  count_game placement is_win cr_delta cs = record cs {
    matches_played = cs.matches_played + 1;
    wins = if is_win then cs.wins + 1 else cs.wins;
    top_half = if is_win then cs.top_half + 1 else cs.top_half;
    total_placement_sum = cs.total_placement_sum + placement;
    cr_delta_sum = add cs.cr_delta_sum cr_delta;
    last10_placements = last_ten (cs.last10_placements ++ (placement ∷ []));
  }

  -- A game: its placement, whether it counts as a win, and the change of the rating.
  pub record Game : Type 0 where
    pub placement : ℕ
    pub is_win : Bool
    pub cr_delta : Float

  abbrev pub after_games : List Game → ChampionStat fl → ChampionStat fl
  after_games [] cs = cs
  after_games (g ∷ gs) cs = after_games gs (count_game g.placement g.is_win g.cr_delta cs)

  abbrev pub wins_in : List Game → ℕ
  wins_in gs = sum_by (λ g. if g.is_win then 1 else 0) gs

  abbrev pub placements : List Game → List ℕ
  placements gs = map (λ g. g.placement) gs

  -- The figures of a row that stood for the games before, after some more.
  abbrev pub Counts : ChampionStat fl → List Game → ChampionStat fl → Type 0
  Counts cs gs cs' =
      (cs'.matches_played ≡ cs.matches_played + length gs)
      × (cs'.wins ≡ cs.wins + wins_in gs)
      × (cs'.top_half ≡ cs.top_half + wins_in gs)
      × (cs'.total_placement_sum ≡ cs.total_placement_sum + sum_by (λ g. g.placement) gs)
      × (last_ten cs'.last10_placements ≡ last_ten (cs.last10_placements ++ placements gs))

  after_games-Counts : (gs : List Game) (cs : ChampionStat fl) → Counts cs gs (after_games gs cs)
  unfolding count_game
  after_games-Counts [] cs = (
    omega arith,
    omega arith,
    omega arith,
    omega arith,
    ap last_ten (sym (append-nil cs.last10_placements)),
  )
  after_games-Counts (g ∷ gs) cs =
      let after = count_game g.placement g.is_win g.cr_delta cs in
      let (played, won, top, total, window) = after_games-Counts gs after in
      (
        omega (arith, played),
        ground (arith, won),
        ground (arith, top),
        omega (arith, total),
        window
            ∙ last_ten-append (cs.last10_placements ++ (g.placement ∷ [])) (placements gs)
            ∙ ap last_ten (append_assoc cs.last10_placements (g.placement ∷ []) (placements gs)),
      )

  after_games-short :
      (gs : List Game) (cs : ChampionStat fl)
      → length cs.last10_placements ≤ 10
      → length (after_games gs cs).last10_placements ≤ 10
  unfolding count_game
  after_games-short [] cs h = h
  after_games-short (g ∷ gs) cs h =
      after_games-short gs (count_game g.placement g.is_win g.cr_delta cs)
        (last_ten-short (cs.last10_placements ++ (g.placement ∷ [])))

  -- The row of a player on a champion, which each match that counts updates, holds what the whole history
  -- gives: the number of games, the wins, twice, the sum of the placements, and the last ten of them in order.
  pub after_games-IsHistory :
      (pid sid champion : ℕ) (gs : List Game)
      → (let cs = after_games gs (new_stat pid sid champion) in
          (cs.matches_played ≡ length gs)
          × (cs.wins ≡ wins_in gs)
          × (cs.top_half ≡ wins_in gs)
          × (cs.total_placement_sum ≡ sum_by (λ g. g.placement) gs)
          × (cs.last10_placements ≡ last_ten (placements gs)))
  after_games-IsHistory pid sid champion gs =
      let cs = new_stat pid sid champion in
      let (played, won, top, total, window) = after_games-Counts gs cs in
      let short = after_games-short gs cs (omega arith) in
      (
        omega (arith, played),
        omega (arith, won),
        omega (arith, top),
        omega (arith, total),
        sym (last_ten_id (after_games gs cs).last10_placements short) ∙ window,
      )
