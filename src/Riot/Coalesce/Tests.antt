-- ===== src/Riot/Coalesce/Tests.antt =====
-- The coalescer with a leader that publishes its result, and in a race for the lease.
use arena_rank_project.Prelude.{
  ◌+◌, zero, suc, ◌≤◌, ◌<◌, ℕ, ◌≡◌, refl, Bool, none, some, [], ◌∷◌, Text, if◌then◌else◌, leb,
  arith,
}
use arena_rank_project.Prelude.Result.{ok}
use arena_rank_project.Riot.Coalesce.{Shared, World, Coalescer, loaded, lead, fetch_coordinated}
use arena_rank_project.Riot.Coalesce.Laws.{
  waited_after, Ends, IsFound, HasLeader, fetch_coordinated-Ends, fetch_coordinated-IsFound,
}

abbrev me : Text
me = b'm' ∷ []

abbrev other : Text
other = b'o' ∷ []

abbrev nothing : Shared Bool ℕ
nothing = record { lease = none; stored = none }

abbrev ten_polls : Coalescer Bool ℕ
ten_polls = record { poll = 2; follower_timeout = 20; plus = ◌+◌ }

-- The other worker leads throughout, and its result, 7, is there from the fifth command on.
abbrev led : World Bool ℕ
led = record {
  others = λ k s. record { lease = some other; stored = if leb 5 k then some 7 else none };
  loader = λ s. (ok 9, s);
}

led-HasLeader : HasLeader Bool ℕ led other 5 7
led-HasLeader = record { held = λ k s. refl; published = λ k s. refl }

fetch_coordinated-Ends_example :
    Ends Bool ℕ led me nothing (fetch_coordinated Bool ℕ led ten_polls me 11 nothing)
fetch_coordinated-Ends_example =
    fetch_coordinated-Ends Bool ℕ led me ten_polls 10 nothing (omega arith)

two_rounds : (m : ℕ) → m ≤ 2 → waited_after Bool ℕ ten_polls m < 20
two_rounds zero h = omega arith
two_rounds (suc zero) h = omega arith
two_rounds (suc (suc zero)) h = omega arith
two_rounds (suc (suc (suc m))) h = absurd (omega arith)

fetch_coordinated-IsFound_example :
    IsFound Bool ℕ led ten_polls me other 5 7 led-HasLeader
      (fetch_coordinated Bool ℕ led ten_polls me 3 nothing)
fetch_coordinated-IsFound_example =
    fetch_coordinated-IsFound Bool ℕ led ten_polls me other 5 7 led-HasLeader 3 2 nothing
      (omega arith) two_rounds (omega arith)

-- While the caller loads, its lease expires and another worker takes it: the release takes the other's lease away.
abbrev slow : World Bool ℕ
slow = record { others = λ k s. s; loader = λ s. (ok 9, record s { lease = some other }) }

lease_taken_away :
    fetch_coordinated Bool ℕ slow ten_polls me 21 nothing ≡ some (loaded (ok 9), nothing)
unfolding fetch_coordinated lead
lease_taken_away = refl
