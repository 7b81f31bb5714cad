-- ===== src/Integrity/Fingerprint/Window.antt =====
-- What the stores of backend/arena/integrity/fingerprint.py count.
use arena_rank_project.Prelude.{
  ℕ, ◌+◌, ◌≤◌, ◌<◌, ◌≡◌, refl, sym, ◌∙◌, false, Option, none, some, List, [], ◌∷◌, if◌then◌else◌,
  ltb, leb, length, any, Text, text_eq, eq_of_text_eq, text_eq_self, All, All-map, arith,
  Bool-cases, inl, inr, ◌||◌,
}
use arena_rank_project.Prelude.Table.{Table, insert, insert-All, text_instance}
use arena_rank_project.Prelude.Sort.{sum_by}
use arena_rank_project.Integrity.Fingerprint.{SortedSet, read_set, trim, observe_set}

-- The observations of one fingerprint, the newest first: the match and the time.
abbrev pub Log : Type 0
Log = List (Text × ℕ)

-- The number of matches other than those in `excl` whose newest observation is within the window.
abbrev pub matches_within : ℕ → ℕ → List Text → Log → ℕ
matches_within window now excl [] = 0
matches_within window now excl ((m, t) ∷ log) =
    (if any (text_eq m) excl || leb (t + window) now then 0 else 1)
    + matches_within window now (m ∷ excl) log

-- The times of a log do not go back, and none is after `now`.
abbrev pub IsLog : ℕ → Log → Type 0
IsLog now [] = Unit
IsLog now ((m, t) ∷ log) = (t ≤ now) × IsLog t log

-- The key of the fingerprint after the observations.
unfoldable pub replay : ℕ → Log → Option SortedSet
replay window [] = none
replay window ((m, t) ∷ log) = some (observe_set t window m (replay window log)).1

-- What one member adds to a count.
abbrev weight : ℕ → ℕ → List Text → Text × ℕ → ℕ
weight window now excl (m, t) = if any (text_eq m) excl || leb (t + window) now then 0 else 1

-- No member stands twice.
abbrev IsDistinct : Table Text ℕ → Type 0
IsDistinct [] = Unit
IsDistinct ((m, t) ∷ ms) = All (λ e. text_eq e.0 m ≡ false) ms × IsDistinct ms

module _ (window : ℕ) where
  All-trim :
      (P : Text × ℕ → Type 0) (now : ℕ) (ms : Table Text ℕ) → All P ms → All P (trim now window ms)
  unfolding trim
  All-trim P now [] h = tt
  All-trim P now ((m, t) ∷ ms) h = elim (Bool-cases (leb (t + window) now)) [
    | inl e ↦ rw e (All-trim P now ms h.1)
    | inr e ↦ rw e (h.0, All-trim P now ms h.1)
  ]

  trim-IsDistinct : (now : ℕ) (ms : Table Text ℕ) → IsDistinct ms → IsDistinct (trim now window ms)
  unfolding trim
  trim-IsDistinct now [] h = tt
  trim-IsDistinct now ((m, t) ∷ ms) h = elim (Bool-cases (leb (t + window) now)) [
    | inl e ↦ rw e (trim-IsDistinct now ms h.1)
    | inr e ↦ rw e (All-trim _ now ms h.0, trim-IsDistinct now ms h.1)
  ]

  text_eq_flip : (s t : Text) → text_eq s t ≡ false → text_eq t s ≡ false
  text_eq_flip s t h = ground (arith, eq_of_text_eq t s, text_eq_self s)

  insert-IsDistinct :
      (m : Text) (t : ℕ) (ms : Table Text ℕ) → IsDistinct ms → IsDistinct (insert m t ms)
  insert-IsDistinct m t [] h = (tt, tt)
  insert-IsDistinct m t ((j, u) ∷ ms) h = elim (Bool-cases (text_eq j m)) [
    | inl e ↦ let same = eq_of_text_eq j m e in rw e (rw same at h)
    | inr e ↦ rw e (insert-All _ m t ms (text_eq_flip j m e) h.0, insert-IsDistinct m t ms h.1)
  ]

  -- A trimmed member would not have been counted later.
  trim-weight :
      (now later : ℕ) (excl : List Text) (ms : Table Text ℕ)
      → now ≤ later
      → sum_by (weight window later excl) (trim now window ms)
        ≡ sum_by (weight window later excl) ms
  unfolding trim
  trim-weight now later excl [] h = refl
  trim-weight now later excl ((m, t) ∷ ms) h = ground (arith, trim-weight now later excl ms h)

  trim_within :
      (now : ℕ) (ms : Table Text ℕ) → All (λ e. leb (e.1 + window) now ≡ false) (trim now window ms)
  unfolding trim
  trim_within now [] = tt
  trim_within now ((m, t) ∷ ms) = elim (Bool-cases (leb (t + window) now)) [
    | inl e ↦ rw e (trim_within now ms)
    | inr e ↦ rw e (e, trim_within now ms)
  ]

  length_within :
      (now : ℕ) (ms : Table Text ℕ)
      → All (λ e. leb (e.1 + window) now ≡ false) ms
      → length ms ≡ sum_by (weight window now []) ms
  length_within now [] h = refl
  length_within now ((m, t) ∷ ms) h = ground (arith, h.0, length_within now ms h.1)

  weight_expired :
      (expires later : ℕ) (excl : List Text) (ms : Table Text ℕ)
      → All (λ e. e.1 + window ≤ expires) ms
      → expires ≤ later
      → sum_by (weight window later excl) ms ≡ 0
  weight_expired expires later excl [] h le = refl
  weight_expired expires later excl ((m, t) ∷ ms) h le =
      ground (arith, h.0, weight_expired expires later excl ms h.1 le)

  -- A member that is left out anyway may be listed as excluded.
  weight-excl :
      (now : ℕ) (m : Text) (excl : List Text) (ms : Table Text ℕ)
      → All (λ e. text_eq e.0 m ≡ false) ms
      → sum_by (weight window now (m ∷ excl)) ms ≡ sum_by (weight window now excl) ms
  weight-excl now m excl [] h = refl
  weight-excl now m excl ((j, u) ∷ ms) h = ground (arith, h.0, weight-excl now m excl ms h.1)

  insert-weight :
      (now : ℕ) (excl : List Text) (m : Text) (t : ℕ) (ms : Table Text ℕ)
      → IsDistinct ms
      → sum_by (weight window now excl) (insert m t ms)
        ≡ weight window now excl (m, t) + sum_by (weight window now (m ∷ excl)) ms
  insert-weight now excl m t [] h = refl
  insert-weight now excl m t ((j, u) ∷ ms) h = elim (Bool-cases (text_eq j m)) [
    | inl e ↦
        let same = eq_of_text_eq j m e in
        let others = weight-excl now m excl ms (rw same at h.0) in rw e (omega (arith, others))
    | inr e ↦ rw e (omega (arith, insert-weight now excl m t ms h.1))
  ]

  abbrev members_of : Option SortedSet → Table Text ℕ
  members_of none = []
  members_of (some z) = z.members

  abbrev Lasts : Option SortedSet → Type 0
  Lasts none = Unit
  Lasts (some z) = All (λ e. e.1 + window ≤ z.expires) z.members

  -- A key holds a log as of `now`: from then on its members count as the log does.
  record IsStored (now : ℕ) (log : Log) (key : Option SortedSet) : Type 0 where
    is_distinct : IsDistinct (members_of key)
    low : All (λ e. e.1 ≤ now) (members_of key)
    lasts : Lasts key
    counts :
        (later : ℕ) (excl : List Text)
        → now ≤ later
        → sum_by (weight window later excl) (members_of key) ≡ matches_within window later excl log

  -- Whether the key has expired makes no difference.
  read_set-weight :
      (now later : ℕ) (excl : List Text) (key : Option SortedSet)
      → Lasts key
      → now ≤ later
      → sum_by (weight window later excl) (read_set now key)
        ≡ sum_by (weight window later excl) (members_of key)
  unfolding read_set
  read_set-weight now later excl none h le = refl
  read_set-weight now later excl (some z) h le = elim (Bool-cases (ltb now z.expires)) [
    | inl e ↦ rw e
    | inr e ↦ rw e (sym (weight_expired z.expires later excl z.members h (ground arith)))
  ]

  read_set-IsDistinct :
      (now : ℕ) (key : Option SortedSet)
      → IsDistinct (members_of key)
      → IsDistinct (read_set now key)
  unfolding read_set
  read_set-IsDistinct now none h = tt
  read_set-IsDistinct now (some z) h = elim (Bool-cases (ltb now z.expires)) [
    | inl e ↦ rw e h
    | inr e ↦ rw e tt
  ]

  read_set_low :
      (now : ℕ) (key : Option SortedSet)
      → All (λ e. e.1 ≤ now) (members_of key)
      → All (λ e. e.1 ≤ now) (read_set now key)
  unfolding read_set
  read_set_low now none h = tt
  read_set_low now (some z) h = elim (Bool-cases (ltb now z.expires)) [
    | inl e ↦ rw e h
    | inr e ↦ rw e tt
  ]

  observe_set-IsStored :
      (before now : ℕ) (log : Log) (key : Option SortedSet) (m : Text)
      → before ≤ now
      → 0 < window
      → IsStored before log key
      → let r = observe_set now window m key in
        IsStored now ((m, now) ∷ log) (some r.1)
        × (r.0 ≡ matches_within window now [] ((m, now) ∷ log))
  unfolding observe_set
  observe_set-IsStored before now log key m le pos w =
      let old = read_set now key in
      let old_distinct = read_set-IsDistinct now key w.is_distinct in
      let trimmed = trim now window old in
      let distinct = trim-IsDistinct now old old_distinct in
      let old_low =
        read_set_low now key (All-map _ _ (members_of key) (λ e h. omega arith) w.low) in
      let new_low = insert-All _ m now trimmed (omega arith) (All-trim _ now old old_low) in
      let counted : (later : ℕ) (excl : List Text)
          → now ≤ later
          → sum_by (weight window later excl) (insert m now trimmed)
            ≡ matches_within window later excl ((m, now) ∷ log) =
        λ later excl h. omega (
          arith,
          insert-weight later excl m now trimmed distinct,
          trim-weight now later (m ∷ excl) old h,
          read_set-weight now later (m ∷ excl) key w.lasts h,
          w.counts later (m ∷ excl) (omega arith),
        ) in
      (
        record {
          is_distinct = insert-IsDistinct m now trimmed distinct;
          low = new_low;
          lasts = All-map _ _ (insert m now trimmed) (λ e h. omega arith) new_low;
          counts = counted;
        },
        length_within now (insert m now trimmed)
              (insert-All _ m now trimmed (ground arith) (trim_within now old))
            ∙ counted now [] (omega arith),
      )

  replay-IsStored :
      (now : ℕ) (log : Log) → 0 < window → IsLog now log → IsStored now log (replay window log)
  unfolding replay
  replay-IsStored now [] pos h = record {
    is_distinct = tt;
    low = tt;
    lasts = tt;
    counts = λ later excl le. refl;
  }
  replay-IsStored now ((m, t) ∷ log) pos h =
      let stored =
        (observe_set-IsStored t t log (replay window log) m (omega arith) pos
          (replay-IsStored t log pos h.1)).0 in
      record {
        is_distinct = stored.is_distinct;
        low = All-map _ _ _ (λ e k. omega (arith, h.0)) stored.low;
        lasts = stored.lasts;
        counts = λ later excl le. stored.counts later excl (omega (arith, h.0));
      }

-- However the observations of a fingerprint are spread over time, each reply is the number of distinct
-- matches observed within the window up to then, this one included: a match that is delivered again is not
-- counted twice, and neither the trimming nor the expiry of the key ever loses one that still counts.
pub observe_set_refines :
    (window now : ℕ) (log : Log) (match_id : Text)
    → 0 < window
    → IsLog now log
    → (observe_set now window match_id (replay window log)).0
      ≡ matches_within window now [] ((match_id, now) ∷ log)
observe_set_refines window now log match_id pos h =
    (observe_set-IsStored window now now log (replay window log) match_id (omega arith) pos
      (replay-IsStored window now log pos h)).1
