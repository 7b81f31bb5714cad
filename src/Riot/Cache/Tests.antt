-- ===== src/Riot/Cache/Tests.antt =====
-- The cache when Redis has lost a value. A payload is a number, written in unary.
use arena_rank_project.Prelude.{
  ℕ, ◌≡◌, refl, true, false, none, some, [], ◌∷◌, Text, length, length-replicate, replicate, ap,
  ◌⊎◌, inl,
}
use arena_rank_project.Riot.Cache.{MatchCache, Tiers, get, set, Reach, cold_start, did_set}
use arena_rank_project.Riot.Cache.Laws.{get-IsOwn, get-set}

abbrev archive : MatchCache ℕ
archive = record {
  key_prefix = b'm' ∷ b':' ∷ b'r' ∷ [];
  has_overflow = true;
  dumps = λ n. replicate n b'1';
  loads = λ t. some (length t);
}

loads-dumps : (n : ℕ) → archive.loads (archive.dumps n) ≡ some n
loads-dumps n = ap some (length-replicate n b'1')

abbrev empty_tiers : Tiers ℕ
empty_tiers = record { hot = []; cold = [] }

abbrev second : Text
second = b'2' ∷ []

-- Every match has as many as its id is long.
abbrev sizes : Text → ℕ
sizes t = length t

stored-IsReached : Reach ℕ archive sizes (set ℕ archive true second 1 empty_tiers)
stored-IsReached = did_set true second cold_start

get-IsOwn_example :
    ((get ℕ archive false second (set ℕ archive true second 1 empty_tiers)).0 ≡ none)
    ⊎ ((get ℕ archive false second (set ℕ archive true second 1 empty_tiers)).0 ≡ some 1)
get-IsOwn_example =
    get-IsOwn ℕ archive sizes loads-dumps false second (set ℕ archive true second 1 empty_tiers)
      stored-IsReached

-- Redis has lost everything.
get-set_example :
    (get ℕ archive false second
      record { hot = []; cold = (set ℕ archive false second 8 empty_tiers).cold }).0
    ≡ some 8
get-set_example = get-set ℕ archive loads-dumps second 8 empty_tiers [] refl (inl refl)
