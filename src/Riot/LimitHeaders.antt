-- ===== src/Riot/LimitHeaders.antt =====
-- The parser of backend/arena/riot/limit_headers.py: the limits that Riot announces with each response.
pub mod Laws
mod Tests
use arena_rank_project.Prelude.{
  ℕ, Bool, true, false, Option, none, some, List, [], ◌∷◌, ◌++◌, map, if◌then◌else◌, Text, text_eq,
}
use arena_rank_project.Prelude.{◌==◌ as nat_beq}
use arena_rank_project.Prelude.Int.{ℤ, pos, ltb_ℤ, leb_ℤ, eqb_ℤ}
use arena_rank_project.Prelude.Table.{Table, lookup, lookup_or, insert, int_eq, text_instance}
use arena_rank_project.Prelude.Sort.{sort_by}

-- The calls of the standard library: `text.strip()`, `int(text)`, which may raise, and `text.lower()`.
pub record Builtins : Type 0 where
  pub strip : Text → Text
  pub parse_int : Text → Option ℤ
  pub lower : Text → Text

pub record LimitWindow : Type 0 where
  pub limit : ℤ
  pub seconds : ℤ
  pub count : ℤ

-- The moment of the snapshot is an argument.
pub record ObservedLimits : Type 0 where
  pub app : List LimitWindow
  pub method : List LimitWindow
  pub limit_type : Option Text
  pub observed_at : ℕ

abbrev prepend : ℕ → List Text → List Text
prepend c [] = (c ∷ []) ∷ []
prepend c (t ∷ ts) = (c ∷ t) ∷ ts

-- `raw.split(",")`
unfoldable pub split_comma : Text → List Text
split_comma [] = [] ∷ []
split_comma (c ∷ cs) =
    let rest = split_comma cs in if nat_beq c b',' then [] ∷ rest else prepend c rest

abbrev push_head : ℕ → Option (Text × Text) → Option (Text × Text)
push_head c none = none
push_head c (some ht) = some (c ∷ ht.0, ht.1)

-- `part.partition(":")`, if there is a colon in the part.
unfoldable pub partition_colon : Text → Option (Text × Text)
partition_colon [] = none
partition_colon (c ∷ cs) =
    let rest = partition_colon cs in if nat_beq c b':' then some ([], cs) else push_head c rest

-- A pair whose window is not positive is skipped.
abbrev positive_pair : ℤ → ℤ → Option (ℤ × ℤ)
positive_pair limit seconds = if leb_ℤ seconds (pos 0) then none else some (limit, seconds)

abbrev pub shorter : ℤ × ℤ → ℤ × ℤ → Bool
shorter a b = ltb_ℤ a.1 b.1

abbrev pub app_limit_name : Text
app_limit_name =
    b'X' ∷ b'-' ∷ b'A' ∷ b'p' ∷ b'p' ∷ b'-' ∷ b'R' ∷ b'a' ∷ b't' ∷ b'e' ∷ b'-' ∷ b'L' ∷ b'i' ∷ b'm'
    ∷ b'i' ∷ b't' ∷ []

abbrev pub app_count_name : Text
app_count_name =
    b'X' ∷ b'-' ∷ b'A' ∷ b'p' ∷ b'p' ∷ b'-' ∷ b'R' ∷ b'a' ∷ b't' ∷ b'e' ∷ b'-' ∷ b'L' ∷ b'i' ∷ b'm'
    ∷ b'i' ∷ b't' ∷ b'-' ∷ b'C' ∷ b'o' ∷ b'u' ∷ b'n' ∷ b't' ∷ []

abbrev pub method_limit_name : Text
method_limit_name =
    b'X' ∷ b'-' ∷ b'M' ∷ b'e' ∷ b't' ∷ b'h' ∷ b'o' ∷ b'd' ∷ b'-' ∷ b'R' ∷ b'a' ∷ b't' ∷ b'e' ∷ b'-'
    ∷ b'L' ∷ b'i' ∷ b'm' ∷ b'i' ∷ b't' ∷ []

abbrev pub method_count_name : Text
method_count_name =
    b'X' ∷ b'-' ∷ b'M' ∷ b'e' ∷ b't' ∷ b'h' ∷ b'o' ∷ b'd' ∷ b'-' ∷ b'R' ∷ b'a' ∷ b't' ∷ b'e' ∷ b'-'
    ∷ b'L' ∷ b'i' ∷ b'm' ∷ b'i' ∷ b't' ∷ b'-' ∷ b'C' ∷ b'o' ∷ b'u' ∷ b'n' ∷ b't' ∷ []

abbrev pub type_name : Text
type_name =
    b'X' ∷ b'-' ∷ b'R' ∷ b'a' ∷ b't' ∷ b'e' ∷ b'-' ∷ b'L' ∷ b'i' ∷ b'm' ∷ b'i' ∷ b't' ∷ b'-' ∷ b'T'
    ∷ b'y' ∷ b'p' ∷ b'e' ∷ []

module _ (py : Builtins) where
  -- `int(head.strip()), int(tail.strip())`
  unfoldable pub parse_ints : Text × Text → Option (ℤ × ℤ)
  parse_ints (head, tail) = elim (py.parse_int (py.strip head)) [
    | none ↦ none
    | some limit ↦ elim (py.parse_int (py.strip tail)) [
      | none ↦ none
      | some seconds ↦ positive_pair limit seconds
    ]
  ]

  -- One round of the loop over the chunks.
  unfoldable pub parse_chunk : Text → Option (ℤ × ℤ)
  unfolding partition_colon parse_ints
  parse_chunk chunk = elim (partition_colon (py.strip chunk)) [
    | none ↦ none
    | some ht ↦ parse_ints ht
  ]

  unfoldable pub parse_chunks : List Text → List (ℤ × ℤ)
  unfolding parse_chunk
  parse_chunks [] = []
  parse_chunks (chunk ∷ chunks) =
      let rest = parse_chunks chunks in
      elim (parse_chunk chunk) [ none ↦ rest | some pair ↦ pair ∷ rest ]

  unfoldable pub parse_limit_pairs : Option Text → List (ℤ × ℤ)
  unfolding parse_chunks split_comma sort_by
  parse_limit_pairs none = []
  parse_limit_pairs (some []) = []
  parse_limit_pairs (some (c ∷ cs)) = sort_by shorter (parse_chunks (split_comma (c ∷ cs)))

  -- `{seconds: count for count, seconds in ...}`
  unfoldable pub by_seconds : Table ℤ ℤ → List (ℤ × ℤ) → Table ℤ ℤ
  by_seconds d [] = d
  by_seconds d ((count, seconds) ∷ pairs) = by_seconds (insert seconds count d) pairs

  unfoldable pub windows_of : Table ℤ ℤ → List (ℤ × ℤ) → List LimitWindow
  windows_of counts [] = []
  windows_of counts ((limit, seconds) ∷ pairs) =
      record { limit = limit; seconds = seconds; count = lookup_or seconds (pos 0) counts }
      ∷ windows_of counts pairs

  unfoldable pub merge : Option Text → Option Text → List LimitWindow
  unfolding parse_limit_pairs by_seconds windows_of
  merge limits counts =
      windows_of (by_seconds [] (parse_limit_pairs counts)) (parse_limit_pairs limits)

  unfoldable pub header : Table Text Text → Text → Option Text
  header headers name = elim (lookup name headers) [
    | none ↦ lookup (py.lower name) headers
    | some value ↦ some value
  ]

  unfoldable pub parse_rate_limit_headers : ℕ → Table Text Text → ObservedLimits
  unfolding header merge
  parse_rate_limit_headers now headers = record {
    app = merge (header headers app_limit_name) (header headers app_count_name);
    method = merge (header headers method_limit_name) (header headers method_count_name);
    limit_type = elim (header headers type_name) [
      | none ↦ none
      | some t ↦ some (py.lower (py.strip t))
    ];
    observed_at = now;
  }

-- The message of `detect_drift`: a window that Riot does not announce, or a capacity over the announced one.
pub data Drift : Type 0 where
  unknown_window : ℤ → List LimitWindow → Drift
  over_driven : ℤ → ℤ → LimitWindow → Drift

-- `next((w for w in windows if w.seconds == target), None)`
unfoldable pub window_for : ℤ → List LimitWindow → Option LimitWindow
window_for target [] = none
window_for target (w ∷ ws) = if eqb_ℤ w.seconds target then some w else window_for target ws

-- The window of the configuration is rounded by `round`, whose result `target` is an argument.
unfoldable pub detect_drift : List LimitWindow → ℤ → ℤ → Option Drift
unfolding window_for
detect_drift [] capacity target = none
detect_drift (w ∷ ws) capacity target = elim (window_for target (w ∷ ws)) [
  | none ↦ some (unknown_window target (w ∷ ws))
  | some v ↦ if ltb_ℤ v.limit capacity then some (over_driven capacity target v) else none
]
