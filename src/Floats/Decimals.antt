-- ===== src/Floats/Decimals.antt =====
-- Decimals with three places, which are ordered and round, for the concrete inputs.
use arena_rank_project.Prelude.{ℕ, zero, suc, ◌+◌, ◌*◌, ◌/◌, ◌≡◌, true, false, arith}
use arena_rank_project.Prelude.Int.{ℤ, pos, negsuc, pos_part, neg_part, sub_ℕ, ◌+ℤ◌, ◌-ℤ◌, ltb_ℤ}
use arena_rank_project.Floats.{Floats, IsOrdered}

-- The product and the quotient of two numbers of thousandths, rounded towards 0; the quotient by 0 is 0.
abbrev thousandths : ℕ → ℕ → ℤ
thousandths a b = sub_ℕ (a / 1000) (b / 1000)

abbrev mul_ℤ : ℤ → ℤ → ℤ
mul_ℤ a b =
    thousandths (pos_part a * pos_part b + neg_part a * neg_part b)
      (pos_part a * neg_part b + neg_part a * pos_part b)

abbrev div_ℤ : ℤ → ℤ → ℤ
div_ℤ a (pos zero) = pos 0
div_ℤ a (pos (suc n)) = sub_ℕ (pos_part a * 1000 / suc n) (neg_part a * 1000 / suc n)
div_ℤ a (negsuc n) = sub_ℕ (neg_part a * 1000 / suc n) (pos_part a * 1000 / suc n)

-- A whole number.
abbrev pub whole : ℕ → ℤ
whole n = pos (n * 1000)

abbrev pub coarse : Floats
coarse = record {
  Float = ℤ;
  of_int = λ n. sub_ℕ (pos_part n * 1000) (neg_part n * 1000);
  neg_inf = negsuc 1000000000;
  pos_inf = pos 1000000000;
  add = ◌+ℤ◌;
  sub = ◌-ℤ◌;
  mul = mul_ℤ;
  div = div_ℤ;
  exp = λ x. x +ℤ whole 1;
  is_finite = λ x. true;
  lt = ltb_ℤ;
}

irrefl : (x : ℤ) → ltb_ℤ x x ≡ false
irrefl x = ground arith

trans : (x y z : ℤ) → ltb_ℤ x y ≡ true → ltb_ℤ y z ≡ true → ltb_ℤ x z ≡ true
trans x y z h k = ground arith

connex : (x y : ℤ) → ltb_ℤ x y ≡ false → ltb_ℤ y x ≡ false → x ≡ y
connex (pos a) (pos b) h k = ground arith
connex (pos a) (negsuc b) h k = ground arith
connex (negsuc a) (pos b) h k = ground arith
connex (negsuc a) (negsuc b) h k = ground arith

pub coarse_ordered : IsOrdered coarse
coarse_ordered = record { lt_irrefl = irrefl; lt_trans = trans; lt_connex = connex }
