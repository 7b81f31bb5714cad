-- ===== src/Riot/LimitHeaders/Tests.antt =====
-- The parser at concrete headers, with numbers in unary.
use arena_rank_project.Prelude.{
  ℕ, zero, suc, ◌≡◌, refl, ap, Option, none, some, List, [], ◌∷◌, Text, length, length-replicate,
  replicate, if◌then◌else◌,
}
use arena_rank_project.Prelude.{◌==◌ as nat_beq}
use arena_rank_project.Prelude.Int.{ℤ, pos, negsuc}
use arena_rank_project.Riot.LimitHeaders.{Builtins, LimitWindow, parse_rate_limit_headers}
use arena_rank_project.Riot.LimitHeaders.Laws.{
  IsPlain, IsDecimal, announce, parse_rate_limit_headers-announce,
}

abbrev write : ℤ → Text
write (pos n) = b'+' ∷ replicate n b'1'
write (negsuc n) = b'-' ∷ replicate n b'1'

abbrev read_text : Text → Option ℤ
read_text [] = none
read_text (c ∷ t) =
    if nat_beq c b'+'
    then some (pos (length t))
    else if nat_beq c b'-'
    then some (negsuc (length t))
    else none

abbrev unary : Builtins
unary = record { strip = λ t. t; parse_int = read_text; lower = λ t. t }

ones-IsPlain : (n : ℕ) → IsPlain (replicate n b'1')
ones-IsPlain zero = tt
ones-IsPlain (suc n) = ((refl, refl), ones-IsPlain n)

write-IsPlain : (n : ℤ) → IsPlain (write n)
write-IsPlain (pos n) = ((refl, refl), ones-IsPlain n)
write-IsPlain (negsuc n) = ((refl, refl), ones-IsPlain n)

read-write : (n : ℤ) → read_text (write n) ≡ some n
read-write (pos n) = ap (λ m. some (pos m)) (length-replicate n b'1')
read-write (negsuc n) = ap (λ m. some (negsuc m)) (length-replicate n b'1')

unary-IsDecimal : IsDecimal unary write
unary-IsDecimal = record { plain = write-IsPlain; reads = read-write; tight = λ n k. refl }

abbrev window : ℕ → ℕ → ℕ → LimitWindow
window limit seconds count = record { limit = pos limit; seconds = pos seconds; count = pos count }

abbrev app_windows : List LimitWindow
app_windows = window 20 1 1 ∷ window 10 12 3 ∷ []

parse_rate_limit_headers-announce_example :
    (let o = parse_rate_limit_headers unary 7 (announce write app_windows (window 20 10 5 ∷ [])) in
      (o.app ≡ app_windows) × (o.method ≡ window 20 10 5 ∷ []))
parse_rate_limit_headers-announce_example =
    parse_rate_limit_headers-announce unary write 7 app_windows (window 20 10 5 ∷ [])
      unary-IsDecimal (refl, (refl, tt), (refl, tt, tt)) (refl, tt, tt)
