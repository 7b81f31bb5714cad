-- ===== src/Pipeline/Watermark/Floor.antt =====
-- What the high-water mark and the replay floor are after any number of matches.
use arena_rank_project.Prelude.{
  subst, sym, ap, ◌∙◌, if_intro, All-map, map, zero, suc, ◌⊎◌, ◌==◌, All, min, ℕ, ◌+◌, ◌-◌, ◌<◌,
  ◌≡◌, refl, Bool, true, Option, none, some, List, [], ◌∷◌, arith, if◌then◌else◌, ltb, leb, any,
  inl, inr, Bool-cases,
}
use arena_rank_project.Pipeline.Watermark.{
  Marks, nothing, or_zero, lowered, note_out_of_order, note_late, note_marks, note_if_out_of_order,
}

abbrev pub unmarked : Marks
unmarked = record { hwm = none; replay_floor = none }

-- The marks now, where `past` has them after every call, the last one first.
abbrev pub latest : List Marks → Marks
latest [] = unmarked
latest (marks ∷ past) = marks

-- The mark before the last `age` calls.
abbrev pub mark_at : ℕ → List Marks → Option ℕ
mark_at age [] = none
mark_at zero (marks ∷ past) = marks.hwm
mark_at (suc age) (marks ∷ past) = mark_at age past

-- The marks after every call of a history, the last one first. A call is the time at which its match was
-- played, and how many calls of other workers have written between its read of the mark and its write.
unfoldable pub after_all : ℕ → List (ℕ × ℕ) → List Marks
after_all tolerance [] = []
after_all tolerance ((played, age) ∷ earlier) =
    let past = after_all tolerance earlier in
    note_if_out_of_order true nothing tolerance played (mark_at age past) (latest past) ∷ past

abbrev pub played_of : List (ℕ × ℕ) → List ℕ
played_of history = map (λ h. h.0) history

-- The calls' times of play, each with the mark that the call has read.
abbrev pub reads : ℕ → List (ℕ × ℕ) → List (ℕ × ℕ)
reads tolerance [] = []
reads tolerance ((played, age) ∷ earlier) =
    (played, or_zero (mark_at age (after_all tolerance earlier))) ∷ reads tolerance earlier

-- Nothing, or the time of play of one of the calls.
abbrev pub IsTimeOf : List (ℕ × ℕ) → ℕ → Type 0
IsTimeOf history n = (n ≡ 0) ⊎ (any (λ h. h.0 == n) history ≡ true)

abbrev pub greatest : List ℕ → ℕ
greatest [] = 0
greatest (p ∷ ps) = let rest = greatest ps in if ltb rest p then p else rest

-- Some earlier match was played later than this one, by the tolerance at least.
abbrev pub is_late : ℕ → ℕ → List ℕ → Bool
is_late tolerance played earlier = any (λ q. leb (played + tolerance) q) earlier

abbrev pub least_with : Option ℕ → ℕ → ℕ
least_with none p = p
least_with (some q) p = min q p

lowered_lem : (o : Option ℕ) (p : ℕ) → lowered o p ≡ least_with o p
unfolding lowered
lowered_lem none p = refl
lowered_lem (some q) p = ground arith

-- The least time of a late match.
abbrev pub least_late : ℕ → List ℕ → Option ℕ
least_late tolerance [] = none
least_late tolerance (played ∷ earlier) =
    let rest = least_late tolerance earlier in
    if is_late tolerance played earlier then some (least_with rest played) else rest

is_late_iff :
    (tolerance played : ℕ) (earlier : List ℕ)
    → 0 < tolerance
    → is_late tolerance played earlier ≡ leb (played + tolerance) (greatest earlier)
is_late_iff tolerance played [] h = ground arith
is_late_iff tolerance played (q ∷ earlier) h =
    ground (arith, h, is_late_iff tolerance played earlier h)

-- The least time of play that lies before the mark that its call has read, by the tolerance at least.
abbrev pub least_behind : ℕ → List (ℕ × ℕ) → Option ℕ
least_behind tolerance [] = none
least_behind tolerance ((played, hwm) ∷ earlier) =
    let rest = least_behind tolerance earlier in
    if leb (played + tolerance) hwm then some (least_with rest played) else rest

note_lem :
    (tolerance played : ℕ) (raw_hwm : Option ℕ) (marks : Marks)
    → 0 < tolerance
    → ((note_marks nothing tolerance played raw_hwm marks).hwm
        ≡ (if ltb (or_zero raw_hwm) played then some played else marks.hwm))
      × ((note_marks nothing tolerance played raw_hwm marks).replay_floor ≡ (
          if leb (played + tolerance) (or_zero raw_hwm)
          then some (least_with marks.replay_floor played)
          else marks.replay_floor))
unfolding note_marks note_late note_out_of_order
note_lem tolerance played raw_hwm marks h = elim (Bool-cases (ltb (or_zero raw_hwm) played)) [
  | inl e ↦ rw e (refl, ground (arith, h, e))
  | inr e ↦ rw e (elim (Bool-cases (ltb (or_zero raw_hwm - played) tolerance)) [
    | inl b ↦ rw b (refl, ground (arith, h, e, b))
    | inr b ↦ rw b (refl, ground (arith, h, e, b, lowered_lem marks.replay_floor played))
  ])
]

IsTimeOf-later :
    (call : ℕ × ℕ) (history : List (ℕ × ℕ)) (n : ℕ)
    → IsTimeOf history n
    → IsTimeOf (call ∷ history) n
IsTimeOf-later call history n (inl e) = inl e
IsTimeOf-later call history n (inr e) = inr (ground (arith, e))

latest-mark_at : (past : List Marks) → (latest past).hwm ≡ mark_at zero past
latest-mark_at [] = refl
latest-mark_at (marks ∷ past) = refl

mark_at-IsTimeOf :
    (tolerance : ℕ) (history : List (ℕ × ℕ)) (age : ℕ)
    → 0 < tolerance
    → IsTimeOf history (or_zero (mark_at age (after_all tolerance history)))
unfolding after_all
mark_at-IsTimeOf tolerance [] age h = inl refl
mark_at-IsTimeOf tolerance ((played, old) ∷ earlier) zero h =
    let past = after_all tolerance earlier in
    let seen = mark_at old past in
    let P : Option ℕ → Type 0 = λ o. IsTimeOf ((played, old) ∷ earlier) (or_zero o) in
    subst P (sym (note_lem tolerance played seen (latest past) h).0) (
      if_intro P (ltb (or_zero seen) played) (some played) (latest past).hwm
        (λ e. inr (ground arith))
        (λ e.
          subst P (sym (latest-mark_at past))
            (IsTimeOf-later (played, old) earlier _ (mark_at-IsTimeOf tolerance earlier 0 h))))
mark_at-IsTimeOf tolerance ((played, old) ∷ earlier) (suc age) h =
    IsTimeOf-later (played, old) earlier _ (mark_at-IsTimeOf tolerance earlier age h)

reads-AreTimesOf :
    (tolerance : ℕ) (history : List (ℕ × ℕ))
    → 0 < tolerance
    → All (λ r. IsTimeOf history r.1) (reads tolerance history)
reads-AreTimesOf tolerance [] h = tt
reads-AreTimesOf tolerance ((played, age) ∷ earlier) h = (
  IsTimeOf-later (played, age) earlier _ (mark_at-IsTimeOf tolerance earlier age h),
  All-map _ _ (reads tolerance earlier) (λ r e. IsTimeOf-later (played, age) earlier r.1 e)
      (reads-AreTimesOf tolerance earlier h),
)

floor-least_behind :
    (tolerance : ℕ) (history : List (ℕ × ℕ))
    → 0 < tolerance
    → (latest (after_all tolerance history)).replay_floor
      ≡ least_behind tolerance (reads tolerance history)
unfolding after_all
floor-least_behind tolerance [] h = refl
floor-least_behind tolerance ((played, age) ∷ earlier) h =
    let past = after_all tolerance earlier in
    (note_lem tolerance played (mark_at age past) (latest past) h).1
    ∙ rw (floor-least_behind tolerance earlier h) refl

-- Whatever other workers write between the read and the write of a call, with a positive tolerance and no
-- failures: the mark is 0 or the time of play of a match that was noted, and so is each mark that a call has
-- read; and the floor is the earliest time of play that lies before the mark that its own call has read by
-- the tolerance or more, if there is one.
pub after_all_interleaved :
    (tolerance : ℕ) (history : List (ℕ × ℕ))
    → 0 < tolerance
    → IsTimeOf history (or_zero (latest (after_all tolerance history)).hwm)
      × All (λ r. IsTimeOf history r.1) (reads tolerance history)
      × ((latest (after_all tolerance history)).replay_floor
          ≡ least_behind tolerance (reads tolerance history))
after_all_interleaved tolerance history h = (
  subst (λ o. IsTimeOf history (or_zero o)) (sym (latest-mark_at (after_all tolerance history)))
      (mark_at-IsTimeOf tolerance history 0 h),
  reads-AreTimesOf tolerance history h,
  floor-least_behind tolerance history h,
)

-- With a positive tolerance and no failures, in whatever order the matches are rated, if each call reads the
-- mark after all earlier ones have written: the mark is the latest time that any match was played, and the
-- floor is the earliest time of those that were rated late by the tolerance or more, if there was one.
pub after_all_lem :
    (tolerance : ℕ) (history : List (ℕ × ℕ))
    → 0 < tolerance
    → All (λ h. h.1 ≡ 0) history
    → (or_zero (latest (after_all tolerance history)).hwm ≡ greatest (played_of history))
      × ((latest (after_all tolerance history)).replay_floor
          ≡ least_late tolerance (played_of history))
unfolding after_all
after_all_lem tolerance [] h turns = (refl, refl)
after_all_lem tolerance ((played, age) ∷ earlier) h turns =
    let past = after_all tolerance earlier in
    let (mark, floor) = after_all_lem tolerance earlier h turns.1 in
    let late = is_late_iff tolerance played (played_of earlier) h in
    let seen : mark_at age past ≡ (latest past).hwm =
      ap (λ n. mark_at n past) turns.0 ∙ sym (latest-mark_at past) in
    let noted = note_lem tolerance played (mark_at age past) (latest past) h in
    (
      ap or_zero noted.0 ∙ ground (arith, seen, mark),
      noted.1 ∙ ground (arith, seen, mark, floor, late),
    )
