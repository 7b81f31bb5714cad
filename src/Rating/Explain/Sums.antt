-- ===== src/Rating/Explain/Sums.antt =====
-- The sums of the entries of backend/arena/rating/explain.py.
use arena_rank_project.Prelude.{
  ◌≡◌, refl, sym, ap, ◌∙◌, Bool, true, false, not, Option, none, List, [], ◌∷◌, ◌++◌, ◌&&◌,
  if◌then◌else◌, all, arith,
}
use arena_rank_project.Floats.{Floats}
use arena_rank_project.Rating.Caps.{zero_f}
use arena_rank_project.Rating.Modifiers.{soft_cap_factor}
use arena_rank_project.Rating.Explain.Entries.{
  LedgerKind, Fidelity, ExplainInput, LedgerEntry, Ledger, empty_ledger, enter, enter_steps,
  chain_steps, chain_ledger, dispersion_entry, exato, derivado, parcial,
}

abbrev pub is_partial : Fidelity → Bool
is_partial exato = false
is_partial derivado = false
is_partial parcial = true

abbrev pub is_empty_list {ℓ} : {A : Type ℓ} → List A → Bool
is_empty_list [] = true
is_empty_list (x ∷ xs) = false

pub all-append {ℓ} :
    {A : Type ℓ} (p : A → Bool) (xs : List A) (y : A) → all p (xs ++ (y ∷ [])) ≡ (all p xs && p y)
all-append p [] y = ground arith
all-append p (x ∷ xs) y = ground (arith, all-append p xs y)

pub append-nonempty {ℓ} :
    {A : Type ℓ} (xs : List A) (y : A) → is_empty_list (xs ++ (y ∷ [])) ≡ false
append-nonempty [] y = refl
append-nonempty (x ∷ xs) y = refl

pub ineligible_not {ℓ} :
    {A : Type ℓ} {b : Bool} {z : A} (x y : A) → b ≡ true → (if not b then x else y) ≡ z → y ≡ z
ineligible_not {b = true} x y e h = h
ineligible_not {b = false} x y e h = absurd (let c = e in cc)

pub true_is_not_false : ¬ (true ≡ false)
true_is_not_false h = cc

module _ (fl : Floats) where
  open fl use {Float, add, sub, lt}

  -- The sum of the contributions, in the order of the entries.
  abbrev pub sum_from : Float → List (LedgerEntry fl) → Float
  sum_from r [] = r
  sum_from r (e ∷ es) = sum_from (add r e.pdl) es

  -- Each entry carries the sum up to it.
  abbrev pub IsRunning : Float → List (LedgerEntry fl) → Type 0
  IsRunning r [] = Unit
  IsRunning r (e ∷ es) = (e.running_total ≡ add r e.pdl) × IsRunning (add r e.pdl) es

  sum_from-append :
      (r : Float) (es : List (LedgerEntry fl)) (e : LedgerEntry fl)
      → sum_from r (es ++ (e ∷ [])) ≡ add (sum_from r es) e.pdl
  sum_from-append r [] e = refl
  sum_from-append r (x ∷ es) e = sum_from-append (add r x.pdl) es e

  append-IsRunning :
      (r : Float) (es : List (LedgerEntry fl)) (e : LedgerEntry fl)
      → IsRunning r es
      → e.running_total ≡ add (sum_from r es) e.pdl
      → IsRunning r (es ++ (e ∷ []))
  append-IsRunning r [] e h k = (k, tt)
  append-IsRunning r (x ∷ es) e h k = (h.0, append-IsRunning (add r x.pdl) es e h.1 k)

  pub record IsTotalled (l : Ledger fl) : Type 0 where
    pub running : IsRunning (zero_f fl) l.entries
    pub total : l.running ≡ sum_from (zero_f fl) l.entries

  abbrev pub exact_all : List (LedgerEntry fl) → Bool
  exact_all = all (λ e. e.exact)

  pub enter-IsTotalled :
      (kind : LedgerKind) (pdl : Float) (mult : Option Float) (is : Bool) (l : Ledger fl)
      → IsTotalled l
      → IsTotalled (enter fl kind pdl mult is l)
  enter-IsTotalled kind pdl mult is l h =
      let e : LedgerEntry fl = record {
        kind = kind;
        pdl = pdl;
        multiplier = mult;
        running_total = add l.running pdl;
        exact = is;
      } in
      let total = ap (λ x. add x pdl) h.total in
      record {
        running = append-IsRunning (zero_f fl) l.entries e h.running total;
        total = total ∙ sym (sum_from-append (zero_f fl) l.entries e);
      }

  -- The ledger of a stage before it is closed.
  pub record IsOpen (l : Ledger fl) : Type 0 where
    pub totalled : IsTotalled l
    pub exact : exact_all l.entries ≡ true

  pub enter-IsOpen :
      (kind : LedgerKind) (pdl : Float) (mult : Option Float) (l : Ledger fl)
      → IsOpen l
      → IsOpen (enter fl kind pdl mult true l)
  enter-IsOpen kind pdl mult l h = record {
    totalled = enter-IsTotalled kind pdl mult true l h.totalled;
    exact = all-append (λ e. e.exact) l.entries _ ∙ rw h.exact refl;
  }

  enter_steps-IsOpen :
      (scale : Float) (steps : List (LedgerKind × Float × Option Float)) (l : Ledger fl)
      → IsOpen l
      → IsOpen (enter_steps fl scale steps l)
  unfolding enter_steps
  enter_steps-IsOpen scale [] l h = h
  enter_steps-IsOpen scale ((kind, mu_step, mult) ∷ steps) l h =
      enter_steps-IsOpen scale steps _ (enter-IsOpen kind _ mult l h)

  pub chain_ledger-IsOpen : (inp : ExplainInput fl) → IsOpen (chain_ledger fl inp)
  unfolding chain_ledger
  chain_ledger-IsOpen inp =
      let scf = soft_cap_factor fl inp.cr_before inp.pl_base_delta_mu inp.params in
      enter-IsOpen dispersion_entry _ none
        (enter_steps fl inp.params.scale_factor (chain_steps fl inp scf) (empty_ledger fl))
        (enter_steps-IsOpen inp.params.scale_factor (chain_steps fl inp scf) (empty_ledger fl)
          record { totalled = record { running = tt; total = refl }; exact = refl })
