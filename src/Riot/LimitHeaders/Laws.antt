-- ===== src/Riot/LimitHeaders/Laws.antt =====
-- What backend/arena/riot/limit_headers.py reads from headers that announce windows.
use arena_rank_project.Prelude.{
  ℕ, ◌≡◌, refl, ap, ◌∙◌, true, false, some, List, [], ◌∷◌, ◌++◌, map, Text, text_eq, arith, All,
  All-map, All-append, All-of_map,
}
use arena_rank_project.Prelude.{◌==◌ as nat_beq}
use arena_rank_project.Prelude.Int.{ℤ, pos, ltb_ℤ, leb_ℤ, eqb_ℤ}
use arena_rank_project.Prelude.Table.{
  Table, lookup, lookup_or, insert, int_eq, text_instance, lookup-insert, beq_self,
}
use arena_rank_project.Prelude.Sort.{sort_by, IsSorted, sort_by_sorted}
use arena_rank_project.Riot.LimitHeaders.{
  Builtins, LimitWindow, split_comma, partition_colon, parse_ints, parse_chunk, parse_chunks,
  parse_limit_pairs, by_seconds, windows_of, merge, header, parse_rate_limit_headers, shorter,
  app_limit_name, app_count_name, method_limit_name, method_count_name,
}

-- A text without a comma or a colon.
abbrev pub IsPlain : Text → Type 0
IsPlain = All (λ c. (nat_beq c b',' ≡ false) × (nat_beq c b':' ≡ false))

split_comma-plain : (s : Text) → All (λ c. nat_beq c b',' ≡ false) s → split_comma s ≡ s ∷ []
unfolding split_comma
split_comma-plain [] h = refl
split_comma-plain (c ∷ s) h = rw (h.0, split_comma-plain s h.1) refl

split_comma-append :
    (s rest : Text)
    → All (λ c. nat_beq c b',' ≡ false) s
    → split_comma (s ++ (b',' ∷ rest)) ≡ s ∷ split_comma rest
unfolding split_comma
split_comma-append [] rest h = refl
split_comma-append (c ∷ s) rest h = rw (h.0, split_comma-append s rest h.1) refl

partition_colon-append :
    (s rest : Text) → IsPlain s → partition_colon (s ++ (b':' ∷ rest)) ≡ some (s, rest)
unfolding partition_colon
partition_colon-append [] rest h = refl
partition_colon-append (c ∷ s) rest h = rw (h.0.1, partition_colon-append s rest h.1) refl

-- The windows are positive, and each is shorter than those after it.
abbrev pub AreAnnounced : List LimitWindow → Type 0
AreAnnounced [] = Unit
AreAnnounced (w ∷ ws) =
    (leb_ℤ w.seconds (pos 0) ≡ false)
    × All (λ v. ltb_ℤ w.seconds v.seconds ≡ true) ws
    × AreAnnounced ws

parse_limit_pairs-some :
    (py : Builtins) (c : ℕ) (s rest : Text)
    → parse_limit_pairs py (some (s ++ (c ∷ rest)))
      ≡ sort_by shorter (parse_chunks py (split_comma (s ++ (c ∷ rest))))
unfolding parse_limit_pairs
parse_limit_pairs-some py c [] rest = refl
parse_limit_pairs-some py c (d ∷ s) rest = refl

pairs-IsSorted :
    (f : LimitWindow → ℤ) (ws : List LimitWindow)
    → AreAnnounced ws
    → IsSorted shorter (map (λ w. (f w, w.seconds)) ws)
pairs-IsSorted f [] h = tt
pairs-IsSorted f (w ∷ ws) h = (
  All-of_map _ (λ v. (f v, v.seconds)) ws (All-map _ _ ws (λ v k. ground (arith, k)) h.1),
  pairs-IsSorted f ws h.2,
)

-- `str(n)` is read back by `int`, and it has neither a comma nor a colon nor space around it.
pub record IsDecimal (py : Builtins) (str_int : ℤ → Text) : Type 0 where
  pub plain : (n : ℤ) → IsPlain (str_int n)
  pub reads : (n : ℤ) → py.parse_int (py.strip (str_int n)) ≡ some n
  pub tight :
      (n k : ℤ) → py.strip (str_int n ++ (b':' ∷ str_int k)) ≡ str_int n ++ (b':' ∷ str_int k)

module _ (str_int : ℤ → Text) where
  -- `f"{n}:{seconds}"`
  abbrev pub show : (LimitWindow → ℤ) → LimitWindow → Text
  show f w = str_int (f w) ++ (b':' ∷ str_int w.seconds)

  -- A header as Riot writes it.
  abbrev pub print : (LimitWindow → ℤ) → List LimitWindow → Text
  print f [] = []
  print f (w ∷ []) = show f w
  print f (w ∷ v ∷ ws) = show f w ++ (b',' ∷ print f (v ∷ ws))

  module _ (py : Builtins) (decimal : IsDecimal py str_int) (f : LimitWindow → ℤ) where
    parse_chunk-show :
        (w : LimitWindow)
        → leb_ℤ w.seconds (pos 0) ≡ false
        → parse_chunk py (show f w) ≡ some (f w, w.seconds)
    unfolding parse_chunk parse_ints
    parse_chunk-show w h =
        rw
          (
            parse_chunk,
            decimal.tight (f w) w.seconds,
            partition_colon-append (str_int (f w)) (str_int w.seconds) (decimal.plain (f w)),
            parse_ints,
            decimal.reads (f w),
            decimal.reads w.seconds,
            h,
          )
          refl

    show-plain : (w : LimitWindow) → All (λ c. nat_beq c b',' ≡ false) (show f w)
    show-plain w =
        All-append _ (str_int (f w)) (b':' ∷ str_int w.seconds)
          (All-map _ _ (str_int (f w)) (λ c h. h.0) (decimal.plain (f w)))
          (refl, All-map _ _ (str_int w.seconds) (λ c h. h.0) (decimal.plain w.seconds))

    parse_chunks-print :
        (w : LimitWindow) (ws : List LimitWindow)
        → AreAnnounced (w ∷ ws)
        → parse_chunks py (split_comma (print f (w ∷ ws))) ≡ map (λ v. (f v, v.seconds)) (w ∷ ws)
    unfolding parse_chunks
    parse_chunks-print w [] h =
        rw (split_comma-plain (show f w) (show-plain w), parse_chunks, parse_chunk-show w h.0) refl
    parse_chunks-print w (v ∷ ws) h =
        rw
          (
            split_comma-append (show f w) (print f (v ∷ ws)) (show-plain w),
            parse_chunks,
            parse_chunk-show w h.0,
            parse_chunks-print v ws h.2,
          )
          refl

    parse_limit_pairs-print :
        (ws : List LimitWindow)
        → AreAnnounced ws
        → parse_limit_pairs py (some (print f ws)) ≡ map (λ v. (f v, v.seconds)) ws
    unfolding parse_limit_pairs
    parse_limit_pairs-print [] h = refl
    parse_limit_pairs-print (w ∷ []) h =
        parse_limit_pairs-some py b':' (str_int (f w)) (str_int w.seconds)
        ∙ ap (sort_by shorter) (parse_chunks-print w [] h)
        ∙ sort_by_sorted shorter _ (pairs-IsSorted f (w ∷ []) h)
    parse_limit_pairs-print (w ∷ v ∷ ws) h =
        parse_limit_pairs-some py b',' (show f w) (print f (v ∷ ws))
        ∙ ap (sort_by shorter) (parse_chunks-print w (v ∷ ws) h)
        ∙ sort_by_sorted shorter _ (pairs-IsSorted f (w ∷ v ∷ ws) h)

abbrev counts_of : List LimitWindow → List (ℤ × ℤ)
counts_of = map (λ w. (w.count, w.seconds))

lookup-by_seconds_absent :
    (py : Builtins) (d : Table ℤ ℤ) (ws : List LimitWindow) (k : ℤ)
    → All (λ v. eqb_ℤ v.seconds k ≡ false) ws
    → lookup k (by_seconds py d (counts_of ws)) ≡ lookup k d
unfolding by_seconds
lookup-by_seconds_absent py d [] k h = refl
lookup-by_seconds_absent py d (w ∷ ws) k h =
    lookup-by_seconds_absent py (insert w.seconds w.count d) ws k h.1
    ∙ lookup-insert w.seconds k w.count d
    ∙ rw h.0 refl

lookup-by_seconds :
    (py : Builtins) (d : Table ℤ ℤ) (ws : List LimitWindow)
    → AreAnnounced ws
    → All (λ w. lookup w.seconds (by_seconds py d (counts_of ws)) ≡ some w.count) ws
unfolding by_seconds
lookup-by_seconds py d [] h = tt
lookup-by_seconds py d (w ∷ ws) h =
    let d' = insert w.seconds w.count d in
    (
      lookup-by_seconds_absent py d' ws w.seconds (All-map _ _ ws (λ v k. ground (arith, k)) h.1)
          ∙ lookup-insert w.seconds w.seconds w.count d
          ∙ rw (beq_self w.seconds) refl,
      lookup-by_seconds py d' ws h.2,
    )

windows_of-found :
    (py : Builtins) (d : Table ℤ ℤ) (ws : List LimitWindow)
    → All (λ w. lookup w.seconds d ≡ some w.count) ws
    → windows_of py d (map (λ w. (w.limit, w.seconds)) ws) ≡ ws
unfolding windows_of
windows_of-found py d [] h = refl
windows_of-found py d (w ∷ ws) h = rw (lookup_or, h.0, windows_of-found py d ws h.1) refl

module _ (py : Builtins) (str_int : ℤ → Text) (decimal : IsDecimal py str_int) where
  merge-print :
      (ws : List LimitWindow)
      → AreAnnounced ws
      → merge py (some (print str_int (λ w. w.limit) ws)) (some (print str_int (λ w. w.count) ws))
        ≡ ws
  unfolding merge
  merge-print ws h =
      rw
        (
          parse_limit_pairs-print str_int py decimal (λ w. w.limit) ws h,
          parse_limit_pairs-print str_int py decimal (λ w. w.count) ws h,
        )
        (windows_of-found py (by_seconds py [] (counts_of ws)) ws (lookup-by_seconds py [] ws h))

-- The headers with which Riot announces its windows.
abbrev pub announce : (ℤ → Text) → List LimitWindow → List LimitWindow → Table Text Text
announce str_int app method =
    (app_limit_name, print str_int (λ w. w.limit) app)
    ∷ (app_count_name, print str_int (λ w. w.count) app)
    ∷ (method_limit_name, print str_int (λ w. w.limit) method)
    ∷ (method_count_name, print str_int (λ w. w.count) method)
    ∷ []

-- The headers that announce windows, the app's and the method's, are read back as these windows, each limit
-- with its own count: for windows of positive and ascending lengths, and decimals that `int` reads back.
pub parse_rate_limit_headers-announce :
    (py : Builtins) (str_int : ℤ → Text) (now : ℕ) (app method : List LimitWindow)
    → IsDecimal py str_int
    → AreAnnounced app
    → AreAnnounced method
    → (let o = parse_rate_limit_headers py now (announce str_int app method) in
        (o.app ≡ app) × (o.method ≡ method))
unfolding parse_rate_limit_headers header text_eq
parse_rate_limit_headers-announce py str_int now app method decimal h k =
    (merge-print py str_int decimal app h, merge-print py str_int decimal method k)
