-- ===== src/Prelude/Table.antt =====
-- Equality tests as an interface, and a Python dict as an association list in insertion order.
use arena_rank_project.Prelude.{
  ℕ, ◌≡◌, ◌↔◌, refl, Bool, true, Option, none, some, List, [], ◌∷◌, arith, if◌then◌else◌, ==_iff,
  All, Bool-cases, inl, inr, Text, text_eq, eq_of_text_eq, text_eq_self, subst,
}
use arena_rank_project.Prelude.{◌==◌ as nat_beq}
use arena_rank_project.Prelude.Int.{ℤ, eqb_ℤ}

pub record Key {ℓ} (A : Type ℓ) : Type ℓ where
  pub same : A → A → Bool
  pub same_iff : (a b : A) → (same a b ≡ true) ↔ (a ≡ b)

infix 50 ◌==◌
abbrev pub ◌==◌ {ℓ} : {A : Type ℓ} ⦃e : Key A⦄ → A → A → Bool
◌==◌ ⦃e⦄ = e.same

instance abbrev pub nat_eq : Key ℕ
nat_eq = record { same = nat_beq; same_iff = ==_iff }

pub eqb_ℤ_iff : (a b : ℤ) → (eqb_ℤ a b ≡ true) ↔ (a ≡ b)
eqb_ℤ_iff a b = (λ h. ground arith, λ h. ground arith)

instance abbrev pub int_eq : Key ℤ
int_eq = record { same = eqb_ℤ; same_iff = eqb_ℤ_iff }

pub text_eq_iff : (s t : Text) → (text_eq s t ≡ true) ↔ (s ≡ t)
text_eq_iff s t = (eq_of_text_eq s t, λ h. subst (λ u. text_eq s u ≡ true) h (text_eq_self s))

instance abbrev pub text_instance : Key Text
text_instance = record { same = text_eq; same_iff = text_eq_iff }

pub beq_self {ℓ} : {A : Type ℓ} ⦃e : Key A⦄ (a : A) → (a == a) ≡ true
beq_self ⦃e⦄ a = (e.same_iff a a).1 refl

abbrev pub Table {ℓ κ} : Type ℓ → Type κ → Type (ℓ ⊔ κ)
Table K V = List (K × V)

module _ {ℓ κ} {K : Type ℓ} {V : Type κ} ⦃e : Key K⦄ where
  -- `d.get(k)`
  abbrev pub lookup : K → Table K V → Option V
  lookup k [] = none
  lookup k ((j, v) ∷ d) = if j == k then some v else lookup k d

  -- `d.get(k, default)`
  abbrev pub lookup_or : K → V → Table K V → V
  lookup_or k v d = elim (lookup k d) [ none ↦ v | some w ↦ w ]

  -- `d[k] = v`
  abbrev pub insert : K → V → Table K V → Table K V
  insert k v [] = (k, v) ∷ []
  insert k v ((j, w) ∷ d) = if j == k then (k, v) ∷ d else (j, w) ∷ insert k v d

  pub lookup-insert :
      (k j : K) (v : V) (d : Table K V)
      → lookup j (insert k v d) ≡ (if k == j then some v else lookup j d)
  lookup-insert k j v [] = refl
  lookup-insert k j v ((i, w) ∷ d) =
      ground (
        arith,
        e.same_iff k j,
        e.same_iff i k,
        e.same_iff i j,
        e.same_iff j j,
        lookup-insert k j v d,
      )

module _ {ℓ κ μ} {K : Type ℓ} {V : Type κ} ⦃e : Key K⦄ (P : K × V → Type μ) where
  pub insert-All : (k : K) (v : V) (d : Table K V) → P (k, v) → All P d → All P (insert k v d)
  insert-All k v [] h hs = (h, tt)
  insert-All k v ((j, w) ∷ d) h hs = elim (Bool-cases (j == k)) [
    | inl e ↦ rw e (h, hs.1)
    | inr e ↦ rw e (hs.0, insert-All k v d h hs.1)
  ]

module _ {ℓ κ μ} {K : Type ℓ} {V : Type κ} ⦃e : Key K⦄ (P : V → Type μ) where
  -- A value that a dict yields, or the default, has what all its values have.
  pub lookup_or-All :
      (k : K) (v : V) (d : Table K V) → P v → All (λ e. P e.1) d → P (lookup_or k v d)
  lookup_or-All k v [] h hs = h
  lookup_or-All k v ((j, w) ∷ d) h hs = elim (Bool-cases (j == k)) [
    | inl e ↦ rw (lookup_or, e) hs.0
    | inr e ↦ rw (lookup_or, e) (lookup_or-All k v d h hs.1)
  ]
