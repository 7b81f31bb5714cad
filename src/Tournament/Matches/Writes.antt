-- ===== src/Tournament/Matches/Writes.antt =====
-- How `submit_result` of backend/arena/tournaments/service.py writes the computed rows back into the teams.
use arena_rank_project.Prelude.{
  ◌≡◌, refl, ◌∙◌, ap, sym, subst, true, false, List, [], ◌∷◌, map, arith, Bool-cases, inl, inr,
  Text, text_eq, eq_of_text_eq, text_eq_self, any, All, All-map,
}
use arena_rank_project.Prelude.Table.{text_instance}
use arena_rank_project.Tournament.Provision.{Python}
use arena_rank_project.Tournament.Scoring.{TeamStanding}
use arena_rank_project.Tournament.Rows.{Team}
use arena_rank_project.Tournament.Matches.{write_row, write_rows}

module _ (py : Python) (row : Text → TeamStanding) where
  -- Rows that are all of the form `row tid`.
  abbrev pub AreRows : List TeamStanding → Type 0
  AreRows = All (λ sr. sr ≡ row sr.team_id)

  -- The team is as its row says.
  abbrev pub Scored : Team → Type 0
  Scored t =
      let sr = row (py.str_uuid t.id) in
      (t.per_match ≡ sr.per_match) × (t.bonus ≡ sr.bonus) × (t.total ≡ sr.total)

  write_row-keeps :
      (sr : TeamStanding) (t : Team)
      → ((write_row py sr t).id ≡ t.id)
        × ((write_row py sr t).penalties ≡ t.penalties)
        × ((write_row py sr t).players ≡ t.players)
  unfolding write_row
  write_row-keeps sr t = ground arith

  pub write_rows-keeps :
      (rows : List TeamStanding) (t : Team)
      → ((write_rows py rows t).id ≡ t.id)
        × ((write_rows py rows t).penalties ≡ t.penalties)
        × ((write_rows py rows t).players ≡ t.players)
  unfolding write_rows
  write_rows-keeps [] t = (refl, refl, refl)
  write_rows-keeps (sr ∷ rows) t =
      let (i, p, s) = write_row-keeps sr t in
      let (i', p', s') = write_rows-keeps rows (write_row py sr t) in (i' ∙ i, p' ∙ p, s' ∙ s)

  write_row-Scored :
      (sr : TeamStanding) (t : Team)
      → sr ≡ row sr.team_id
      → text_eq (py.str_uuid t.id) sr.team_id ≡ true
      → Scored (write_row py sr t)
  unfolding write_row
  write_row-Scored sr t e h =
      let same = eq_of_text_eq (py.str_uuid t.id) sr.team_id h in
      rw h (
        ap (λ u. u.per_match) (e ∙ ap row (sym same)),
        ap (λ u. u.bonus) (e ∙ ap row (sym same)),
        ap (λ u. u.total) (e ∙ ap row (sym same)),
      )

  write_row-other :
      (sr : TeamStanding) (t : Team)
      → text_eq (py.str_uuid t.id) sr.team_id ≡ false
      → write_row py sr t ≡ t
  unfolding write_row
  write_row-other sr t h = rw h

  write_rows-stay :
      (rows : List TeamStanding) (t : Team)
      → AreRows rows
      → Scored t
      → Scored (write_rows py rows t)
  unfolding write_rows
  write_rows-stay [] t h s = s
  write_rows-stay (sr ∷ rows) t h s = elim (Bool-cases (text_eq (py.str_uuid t.id) sr.team_id)) [
    | inl e ↦ write_rows-stay rows (write_row py sr t) h.1 (write_row-Scored sr t h.0 e)
    | inr e ↦
        subst (λ u. Scored (write_rows py rows u)) (sym (write_row-other sr t e))
          (write_rows-stay rows t h.1 s)
  ]

  -- A team that some row is for ends up as that row says.
  pub write_rows-Scored :
      (rows : List TeamStanding) (t : Team)
      → AreRows rows
      → any (λ sr. text_eq (py.str_uuid t.id) sr.team_id) rows ≡ true
      → Scored (write_rows py rows t)
  unfolding write_rows
  write_rows-Scored [] t h some_row = cc
  write_rows-Scored (sr ∷ rows) t h some_row =
      elim (Bool-cases (text_eq (py.str_uuid t.id) sr.team_id)) [
        | inl e ↦ write_rows-stay rows (write_row py sr t) h.1 (write_row-Scored sr t h.0 e)
        | inr e ↦
            subst (λ u. Scored (write_rows py rows u)) (sym (write_row-other sr t e))
              (write_rows-Scored rows t h.1 (rw e at some_row))
      ]

module _ (py : Python) (row : Text → TeamStanding)
    (named : (tid : Text) → (row tid).team_id ≡ tid) where
  pub rows-AreRows : (tids : List Text) → All (λ sr. sr ≡ row sr.team_id) (map row tids)
  rows-AreRows [] = tt
  rows-AreRows (k ∷ ks) = (ap row (sym (named k)), rows-AreRows ks)

  abbrev pub HasRow : List Text → Team → Type 0
  HasRow tids t = any (λ sr. text_eq (py.str_uuid t.id) sr.team_id) (map row tids) ≡ true

  pub every_team-HasRow : (ts : List Team) → All (HasRow (map (λ t. py.str_uuid t.id) ts)) ts
  every_team-HasRow [] = tt
  every_team-HasRow (t ∷ ts) = (
    rw (named (py.str_uuid t.id), text_eq_self (py.str_uuid t.id)),
    All-map _ _ ts (λ u h. ground arith) (every_team-HasRow ts),
  )
