-- ===== src/Pipeline/Replay/Laws.antt =====
-- Which matches a replay rates, and in which order.
use mathlib.Core.List.{Perm}
use arena_rank_project.Prelude.{
  ◌≤◌, ltb, ℕ, ◌+◌, ◌≡◌, refl, sym, ◌∙◌, subst, true, false, List, [], ◌∷◌, arith, if◌then◌else◌,
  length, All, inl, inr, Bool-cases,
}
use arena_rank_project.Prelude.Sort.{
  IsSorted-IsAscending, IsAscending, sort_by, IsSorted, sort_by-IsSorted, sort_by-perm,
}
use arena_rank_project.Prelude.Result.{ok, ◌>>=◌, >>=-eq-ok, ok_inj}
use arena_rank_project.Floats.{Floats}
use arena_rank_project.Processing.Rows.{Database}
use arena_rank_project.Processing.Match.{ProcessOutcome}
use arena_rank_project.Pipeline.Gate.{ParsedArenaMatch}
use arena_rank_project.Pipeline.Replay.{
  is_known, started_before, Replay, replay_one, replay_all, replay_chronological,
}

not_before : (a b : ℕ) → ltb b a ≡ false → a ≤ b
not_before a b h = ground arith

module _ (fl : Floats) (r : Replay fl) where
  -- The matches that are rated, of those that are looked at.
  abbrev pub known_of : List ParsedArenaMatch → List ParsedArenaMatch
  known_of [] = []
  known_of (parsed ∷ later) =
      let rest = known_of later in if is_known r.id_map parsed then parsed ∷ rest else rest

  known_of-All :
      (P : ParsedArenaMatch → Type 0) (ms : List ParsedArenaMatch) → All P ms → All P (known_of ms)
  known_of-All P [] h = tt
  known_of-All P (m ∷ ms) h = elim (Bool-cases (is_known r.id_map m)) [
    | inl e ↦ rw e (h.0, known_of-All P ms h.1)
    | inr e ↦ rw e (known_of-All P ms h.1)
  ]

  known_of-IsSorted :
      (ms : List ParsedArenaMatch)
      → IsSorted started_before ms
      → IsSorted started_before (known_of ms)
  known_of-IsSorted [] h = tt
  known_of-IsSorted (m ∷ ms) h = elim (Bool-cases (is_known r.id_map m)) [
    | inl e ↦ rw e (known_of-All _ ms h.0, known_of-IsSorted ms h.1)
    | inr e ↦ rw e (known_of-IsSorted ms h.1)
  ]

  -- The service was called for each of the matches in this order, and took the one database to the other.
  pub data Rated : List ParsedArenaMatch → ℕ → Database fl → Database fl → Type 0 where
    done : {n : ℕ} {db : Database fl} → Rated [] n db db
    then_one :
        {parsed : ParsedArenaMatch} {later : List ParsedArenaMatch} {n : ℕ} {db db' : Database fl}
        (out : ProcessOutcome × Database fl)
        → replay_one fl r n parsed db ≡ ok out
        → Rated later (n + 1) out.1 db'
        → Rated (parsed ∷ later) n db db'

  known_hit :
      (m : ParsedArenaMatch) (ms : List ParsedArenaMatch)
      → is_known r.id_map m ≡ true
      → known_of (m ∷ ms) ≡ m ∷ known_of ms
  known_hit m ms e = rw e refl

  known_miss :
      (m : ParsedArenaMatch) (ms : List ParsedArenaMatch)
      → is_known r.id_map m ≡ false
      → known_of (m ∷ ms) ≡ known_of ms
  known_miss m ms e = rw e refl

  replay_hit :
      (m : ParsedArenaMatch) (ms : List ParsedArenaMatch) (n : ℕ) (db : Database fl)
      → is_known r.id_map m ≡ true
      → replay_all fl r (m ∷ ms) n db
        ≡ (replay_one fl r n m db >>= (λ out. replay_all fl r ms (n + 1) out.1))
  unfolding replay_all
  replay_hit m ms n db e = rw e refl

  replay_miss :
      (m : ParsedArenaMatch) (ms : List ParsedArenaMatch) (n : ℕ) (db : Database fl)
      → is_known r.id_map m ≡ false
      → replay_all fl r (m ∷ ms) n db ≡ replay_all fl r ms n db
  unfolding replay_all
  replay_miss m ms n db e = rw e refl

  replay_all-Rated :
      (ms : List ParsedArenaMatch) (n : ℕ) (db : Database fl) {out : ℕ × Database fl}
      → replay_all fl r ms n db ≡ ok out
      → Rated (known_of ms) n db out.1 × (out.0 ≡ n + length (known_of ms))
  unfolding replay_all
  replay_all-Rated [] n db h =
      subst (λ o. Rated [] n db o.1 × (o.0 ≡ n + 0)) (ok_inj h) (done, omega arith)
  replay_all-Rated (m ∷ ms) n db {out = out} h = elim (Bool-cases (is_known r.id_map m)) [
    | inl e ↦
        let (first, rated, rest) =
          >>=-eq-ok (replay_one fl r n m db) _ (sym (replay_hit m ms n db e) ∙ h) in
        let (later, counts) = replay_all-Rated ms (n + 1) first.1 rest in
        subst (λ l. Rated l n db out.1 × (out.0 ≡ n + length l)) (sym (known_hit m ms e))
          (then_one first rated later, omega (arith, counts))
    | inr e ↦
        subst (λ l. Rated l n db out.1 × (out.0 ≡ n + length l)) (sym (known_miss m ms e))
          (replay_all-Rated ms n db (sym (replay_miss m ms n db e) ∙ h))
  ]

  started_before_asym :
      (a b : ParsedArenaMatch) → started_before a b ≡ true → started_before b a ≡ false
  started_before_asym a b h = ground arith

  started_before_trans :
      (a b c : ParsedArenaMatch)
      → started_before b a ≡ false
      → started_before c b ≡ false
      → started_before c a ≡ false
  started_before_trans a b c h k = ground arith

  -- A replay that returns has handed the matches whose participants are all known to the rating service, one
  -- after the other, each on the database that the one before it left: each as often as it was given, none
  -- after a match with a later start, which is 0 where there is none. It has counted as many. What the service
  -- does with a match that it has processed already is not part of this.
  pub replay_chronological-Rated :
      (matches : List ParsedArenaMatch) (db : Database fl) {out : ℕ × Database fl}
      → replay_chronological fl r matches db ≡ ok out
      → (ordered : List ParsedArenaMatch) × Perm ordered matches
        × IsAscending (λ m. m.started_at_ms) (known_of ordered)
        × Rated (known_of ordered) 0 db out.1
        × (out.0 ≡ length (known_of ordered))
  unfolding replay_chronological
  replay_chronological-Rated matches db h =
      let ordered = sort_by started_before matches in
      let (rated, counts) = replay_all-Rated ordered 0 db h in
      (
        ordered,
        sort_by-perm started_before matches,
        IsSorted-IsAscending started_before (λ m. m.started_at_ms)
            (λ x y h. not_before x.started_at_ms y.started_at_ms h) (known_of ordered)
            (known_of-IsSorted ordered
              (sort_by-IsSorted started_before started_before_asym started_before_trans matches)),
        rated,
        omega (arith, counts),
      )
