-- ===== src/Tournament/Matches/Penalties.antt =====
-- The penalties that `submit_result` of backend/arena/tournaments/service.py merges and hands to the
-- scoring.
use arena_rank_project.Prelude.{
  ◌≡◌, refl, ◌∙◌, false, Option, none, some, List, [], ◌∷◌, map, arith, Text, text_eq, text_eq_self,
  All, All-map, All-of_map,
}
use arena_rank_project.Prelude.Int.{ℤ}
use arena_rank_project.Prelude.Table.{Table, lookup, insert, lookup-insert, text_instance}
use arena_rank_project.Tournament.Provision.{Python}
use arena_rank_project.Tournament.Rows.{Team}
use arena_rank_project.Tournament.Matches.{add_penalty, merge_penalties, penalty_map}

module _ (py : Python) where
  -- No two teams have the same id text.
  abbrev pub DistinctIds : List Team → Type 0
  DistinctIds [] = Unit
  DistinctIds (t ∷ ts) =
      All (λ u. text_eq (py.str_uuid u.id) (py.str_uuid t.id) ≡ false) ts × DistinctIds ts

  lookup-penalty_map_other :
      (k : Text) (ts : List Team) (d : Table Text ℤ)
      → All (λ u. text_eq (py.str_uuid u.id) k ≡ false) ts
      → lookup k (penalty_map py ts d) ≡ lookup k d
  unfolding penalty_map
  lookup-penalty_map_other k [] d h = refl
  lookup-penalty_map_other k (t ∷ ts) d h =
      lookup-penalty_map_other k ts (insert (py.str_uuid t.id) t.penalties d) h.1
      ∙ lookup-insert (py.str_uuid t.id) k t.penalties d
      ∙ rw h.0

  -- The dict of the penalties gives each team its own.
  pub lookup-penalty_map :
      (ts : List Team) (d : Table Text ℤ)
      → DistinctIds ts
      → All (λ t. lookup (py.str_uuid t.id) (penalty_map py ts d) ≡ some t.penalties) ts
  unfolding penalty_map
  lookup-penalty_map [] d h = tt
  lookup-penalty_map (t ∷ ts) d h =
      let d' = insert (py.str_uuid t.id) t.penalties d in
      (
        lookup-penalty_map_other (py.str_uuid t.id) ts d' h.0
            ∙ lookup-insert (py.str_uuid t.id) (py.str_uuid t.id) t.penalties d
            ∙ rw (text_eq_self (py.str_uuid t.id)),
        lookup-penalty_map ts d' h.1,
      )

  add_penalty-id : (penalties : Table Text ℤ) (t : Team) → (add_penalty py penalties t).id ≡ t.id
  unfolding add_penalty
  add_penalty-id penalties t = ground arith

  add_penalties-DistinctIds :
      (penalties : Table Text ℤ) (ts : List Team)
      → DistinctIds ts
      → DistinctIds (map (add_penalty py penalties) ts)
  add_penalties-DistinctIds penalties [] h = tt
  add_penalties-DistinctIds penalties (t ∷ ts) h = (
    All-of_map _ (add_penalty py penalties) ts
        (All-map _ _ ts (λ u e. rw (add_penalty-id penalties u, add_penalty-id penalties t) e) h.0),
    add_penalties-DistinctIds penalties ts h.1,
  )

  pub merge_penalties-DistinctIds :
      (penalties : Option (Table Text ℤ)) (ts : List Team)
      → DistinctIds ts
      → DistinctIds (merge_penalties py penalties ts)
  unfolding merge_penalties
  merge_penalties-DistinctIds none ts h = h
  merge_penalties-DistinctIds (some []) ts h = h
  merge_penalties-DistinctIds (some (p ∷ ps)) ts h = add_penalties-DistinctIds (p ∷ ps) ts h
