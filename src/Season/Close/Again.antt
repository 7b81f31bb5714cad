-- ===== src/Season/Close/Again.antt =====
-- Running `close_season` a second time.
use arena_rank_project.Prelude.{append-nil, ℕ, ◌≡◌, refl, sym, ap, ◌∙◌, subst, List, []}
use arena_rank_project.Prelude.Result.{ok, >>=-eq-ok, ok_inj}
use arena_rank_project.Floats.{Floats}
use arena_rank_project.Season.Rows.{Season, PlayerSeason, Store, get_season}
use arena_rank_project.Season.Close.{
  held_in, no_awards, CloseSeasonResult, end_season, ranked_rows, awards_of, close_season,
  with_added,
}
use arena_rank_project.Season.Close.Laws.{
  IsHonored, added_all-IsHonored, award_all_held, award_all-added, end_season_rows,
  end_season_again,
}

module _ (fl : Floats) (order_by_cr : List (PlayerSeason fl) → List (PlayerSeason fl)) where
  abbrev closed : ℕ → Season → Store fl → Store fl
  closed sid season store =
      end_season fl sid season.status
        (with_added fl (awards_of fl order_by_cr sid store).added store)

  same_ranked :
      (sid : ℕ) (s t : Store fl)
      → s.player_seasons ≡ t.player_seasons
      → ranked_rows fl order_by_cr sid s ≡ ranked_rows fl order_by_cr sid t
  unfolding ranked_rows
  same_ranked sid s t h = rw h refl

  -- After a run, everyone ranked holds the tier of the rank.
  pub closed-IsHonored :
      (sid : ℕ) (season : Season) (store : Store fl)
      → IsHonored fl 0
          (ranked_rows fl order_by_cr sid (closed sid season store))
          (held_in sid (closed sid season store).achievements)
  closed-IsHonored sid season store =
      let rows = ranked_rows fl order_by_cr sid store in
      let held = held_in sid store.achievements in
      let w = awards_of fl order_by_cr sid store in
      let (same_rows, same_achievements) =
        end_season_rows fl sid season.status (with_added fl w.added store) in
      rw
        (
          same_ranked sid (closed sid season store) store same_rows,
          same_achievements,
          award_all-added fl sid held 0 rows no_awards,
        )
        (added_all-IsHonored fl sid 0 rows store.achievements)

  abbrev pub none_awarded : ℕ → CloseSeasonResult
  none_awarded sid = record { season_id = sid; achievements_awarded = 0; awarded_by_tier = [] }

  awards_again :
      (sid : ℕ) (season : Season) (store : Store fl)
      → awards_of fl order_by_cr sid (closed sid season store) ≡ no_awards
  awards_again sid season store =
      award_all_held fl sid _ 0 _ no_awards (closed-IsHonored sid season store)

  with_none : (store : Store fl) → with_added fl [] store ≡ store
  with_none store = rw (append-nil store.achievements) refl

  closed_again :
      (sid : ℕ) (season : Season) (store : Store fl)
      → get_season fl sid store ≡ ok season
      → close_season fl order_by_cr sid (closed sid season store)
        ≡ ok (none_awarded sid, closed sid season store)
  unfolding close_season get_season
  closed_again sid season store e =
      let added = with_added fl (awards_of fl order_by_cr sid store).added store in
      let (season', e', keeps) = end_season_again fl sid season.status added e refl in
      let last = keeps (closed sid season store) in
      rw (e', awards_again sid season store)
        (ap (λ t. ok (none_awarded sid, end_season fl sid season'.status t))
            (with_none (closed sid season store))
          ∙ ap (λ t. ok (none_awarded sid, t)) last)

  -- Closing a season that was closed awards nothing and leaves the database as it is, when the query returns
  -- equal ratings in the same order.
  pub close_season_again :
      (sid : ℕ) (store : Store fl) {out : CloseSeasonResult × Store fl}
      → close_season fl order_by_cr sid store ≡ ok out
      → close_season fl order_by_cr sid out.1 ≡ ok (none_awarded sid, out.1)
  unfolding close_season
  close_season_again sid store {out = out} h =
      let (season, e, h') = >>=-eq-ok (get_season fl sid store) _ h in
      let out_is : out.1 ≡ closed sid season store = ap (λ m. m.1) (sym (ok_inj h')) in
      subst (λ t. close_season fl order_by_cr sid t ≡ ok (none_awarded sid, t)) (sym out_is)
        (closed_again sid season store e)
