-- ===== src/Prelude/Result.antt =====
-- A call that returns a value or raises.
use arena_rank_project.Prelude.{◌≡◌, refl, ap, ◌∙◌, if◌then◌else◌, Bool, true, false}

pub data Result {ℓ κ} (E : Type ℓ) (A : Type κ) : Type (ℓ ⊔ κ) where
  err : E → Result E A
  ok : A → Result E A

-- `if c: raise e`
abbrev pub raise_if {ℓ} : {E : Type ℓ} → Bool → E → Result E (Unit {0})
raise_if false e = ok tt
raise_if true e = err e

module _ {ℓ κ μ} {E : Type ℓ} {A : Type κ} {B : Type μ} where
  infixl 5 ◌>>=◌
  abbrev pub ◌>>=◌ : Result E A → (A → Result E B) → Result E B
  err e >>= next = err e
  ok a >>= next = next a

  -- Inversion of a successful bind.
  pub >>=-eq-ok :
      (first : Result E A) (next : A → Result E B) {b : B}
      → (first >>= next) ≡ ok b
      → (a : A) × (first ≡ ok a) × (next a ≡ ok b)
  >>=-eq-ok (err e) next h = cc
  >>=-eq-ok (ok a) next h = (a, refl, h)

infixl 5 ◌>>◌
abbrev pub ◌>>◌ {ℓ κ} : {E : Type ℓ} {B : Type κ} → Result E (Unit {0}) → Result E B → Result E B
check >> rest = check >>= λ _. rest

-- What follows a check that passed.
pub after {ℓ κ} :
    {E : Type ℓ} {B : Type κ} (check : Result E (Unit {0})) (rest : Result E B) {b : B}
    → (check >> rest) ≡ ok b
    → rest ≡ ok b
after check rest h = let (_, _, e) = >>=-eq-ok check (λ _. rest) h in e

pub ok_inj {ℓ κ} :
    {E : Type ℓ} {A : Type κ} {a b : A} → (let m : Result E A = ok a in m ≡ ok b) → a ≡ b
ok_inj h = cc

-- A call that returns, whatever it returns.
abbrev pub Returns {ℓ κ} : {E : Type ℓ} {A : Type κ} → Result E A → Type (ℓ ⊔ κ)
Returns {A = A} m = (a : A) × (m ≡ ok a)

pub bind-Returns {ℓ κ μ} :
    {E : Type ℓ} {A : Type κ} {B : Type μ} (first : Result E A) (next : A → Result E B)
    → Returns first
    → ((a : A) → Returns (next a))
    → Returns (first >>= next)
bind-Returns first next (a, e) h = let (b, e') = h a in (b, ap (λ m. m >>= next) e ∙ e')

pub if-Returns {ℓ κ} :
    {E : Type ℓ} {A : Type κ} (b : Bool) (m k : Result E A)
    → Returns m
    → Returns k
    → Returns (if b then m else k)
if-Returns true m k h h' = h
if-Returns false m k h h' = h'

-- What either branch of a test gives, once it returned.
pub if_result {ℓ κ μ} :
    {E : Type ℓ} {A : Type κ} {P : Type μ} (b : Bool) (m k : Result E A) {a : A}
    → (if b then m else k) ≡ ok a
    → (m ≡ ok a → P)
    → (k ≡ ok a → P)
    → P
if_result true m k h f g = f h
if_result false m k h f g = g h
