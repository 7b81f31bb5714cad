-- ===== src/Rating/Explain/Entries.antt =====
-- The ledger of backend/arena/rating/explain.py, with its input and its result: the part that the modifiers
-- contribute. The epoch of the parameters is carried along and never read; a label in `unrecoverable` is a
-- constructor.
use arena_rank_project.Prelude.{
  ℕ, Bool, true, Option, none, some, List, [], ◌∷◌, ◌++◌, if◌then◌else◌, any,
}
use arena_rank_project.Prelude.{◌==◌ as nat_beq}
use arena_rank_project.Prelude.Int.{pos}
use arena_rank_project.Floats.{Floats}
use arena_rank_project.Rating.Params.{RatingParams}
use arena_rank_project.Rating.Caps.{CapBound, zero_f, one_f}
use arena_rank_project.Rating.Modifiers.{soft_cap_factor}
use arena_rank_project.Rating.Engine.{CapExplanation}

pub data LedgerKind : Type 0 where
  base_entry placement_entry provisional_entry streak_entry soft_cap_entry boosting_entry :
      LedgerKind
  party_entry dispersion_entry confidence_entry cap_entry zero_floor_entry display_adjust_entry :
      LedgerKind

pub data Fidelity : Type 0 where
  exato derivado parcial : Fidelity

-- What `unrecoverable` names.
pub data Lost : Type 0 where
  lost_cap_bounds lost_zero_floor lost_confidence lost_cap_adjustment lost_residual_gap : Lost

abbrev pub lost_code : Lost → ℕ
lost_code lost_cap_bounds = 0
lost_code lost_zero_floor = 1
lost_code lost_confidence = 2
lost_code lost_cap_adjustment = 3
lost_code lost_residual_gap = 4

-- `unrecoverable.extend(x for x in xs if x not in unrecoverable)`
unfoldable pub extend_lost : List Lost → List Lost → List Lost
extend_lost ls [] = ls
extend_lost ls (x ∷ xs) =
    if any (λ l. nat_beq (lost_code l) (lost_code x)) ls
    then extend_lost ls xs
    else extend_lost (ls ++ (x ∷ [])) xs

module _ (fl : Floats) where
  open fl use {Float, of_int, add, sub, mul, div, lt}

  -- `_RECONCILE_EPS`, which is 1e-6.
  abbrev pub reconcile_eps : Float
  reconcile_eps = div (one_f fl) (of_int (pos 1000000))

  pub record ExplainState : Type 0 where
    pub mu : Float
    pub sigma : Float
    pub matches_played : ℕ

  pub record ExplainInput : Type 0 where
    pub params : RatingParams fl
    pub placement : ℕ
    pub team_count : ℕ
    pub eligible : Bool
    pub cr_before : Float
    pub cr_after : Float
    pub cr_delta : Float
    pub pl_base_delta_mu : Float
    pub final_delta_mu : Float
    pub placement_weight : Float
    pub placement_amp : Float
    pub streak_mult : Float
    pub boosting_factor : Float
    pub party_factor : Float
    pub explain_version : ℕ
    pub confidence_cr : Option Float
    pub pre_cap_cr_delta : Option Float
    pub cap_facts : Option (CapExplanation fl)
    pub state : Option ExplainState
    pub lobby_mean_mu : Option Float
    pub gain_floor_mult : Float

  pub record LedgerEntry : Type 0 where
    pub kind : LedgerKind
    pub pdl : Float
    pub multiplier : Option Float
    pub running_total : Float
    pub exact : Bool

  pub record CapVerdict : Type 0 where
    pub active : Bool
    pub bound : CapBound
    pub gain_cap : Option Float
    pub loss_cap : Option Float
    pub min_gain : Option Float
    pub raw_pdl : Option Float
    pub adjustment_pdl : Option Float
    pub mismatch_override : Option Float
    pub high_cr_scale : Option Float
    pub composite_win : Option Float

  pub record PdlExplanation : Type 0 where
    pub fidelity : Fidelity
    pub cr_before : Float
    pub cr_after : Float
    pub cr_delta : Float
    pub placement : ℕ
    pub team_count : ℕ
    pub entries : List LedgerEntry
    pub cap : CapVerdict
    pub residual : Float
    pub unrecoverable : List Lost

  -- `running` and `entries`.
  pub record Ledger : Type 0 where
    pub running : Float
    pub entries : List LedgerEntry

  abbrev pub empty_ledger : Ledger
  empty_ledger = record { running = zero_f fl; entries = [] }

  -- `running += pdl` and `entries.append(LedgerEntry(kind, pdl, multiplier, running, exact))`
  abbrev pub enter : LedgerKind → Float → Option Float → Bool → Ledger → Ledger
  enter kind pdl multiplier exact l =
      let total = add l.running pdl in
      record {
        running = total;
        entries =
            l.entries
            ++ (record {
              kind = kind;
              pdl = pdl;
              multiplier = multiplier;
              running_total = total;
              exact = exact;
            }
                ∷ []);
      }

  -- `for kind, mu_step, mult in chain_steps`
  unfoldable pub enter_steps : Float → List (LedgerKind × Float × Option Float) → Ledger → Ledger
  enter_steps scale [] l = l
  enter_steps scale ((kind, mu_step, mult) ∷ steps) l =
      enter_steps scale steps (enter kind (mul mu_step scale) mult true l)

  -- `d6`, the step of mu after the first modifiers.
  abbrev pub step_from : ExplainInput → Float → Float
  step_from inp scf =
      mul
        (mul
          (mul
            (mul (mul (mul inp.pl_base_delta_mu inp.placement_weight) inp.placement_amp)
              inp.streak_mult)
            scf)
          inp.boosting_factor)
        inp.party_factor

  abbrev pub chain_steps : ExplainInput → Float → List (LedgerKind × Float × Option Float)
  chain_steps inp scf =
      let d0 = inp.pl_base_delta_mu in
      let d1 = mul d0 inp.placement_weight in
      let d2 = mul d1 inp.placement_amp in
      let d3 = mul d2 inp.streak_mult in
      let d4 = mul d3 scf in
      let d5 = mul d4 inp.boosting_factor in
      let d6 = mul d5 inp.party_factor in
      (base_entry, d0, none)
      ∷ (placement_entry, sub d1 d0, some inp.placement_weight)
      ∷ (provisional_entry, sub d2 d1, some inp.placement_amp)
      ∷ (streak_entry, sub d3 d2, some inp.streak_mult)
      ∷ (soft_cap_entry, sub d4 d3, some scf)
      ∷ (boosting_entry, sub d5 d4, some inp.boosting_factor)
      ∷ (party_entry, sub d6 d5, some inp.party_factor)
      ∷ []

  -- The chain of the modifiers up to `post_chain_cr`, which is the running total.
  unfoldable pub chain_ledger : ExplainInput → Ledger
  unfolding enter_steps soft_cap_factor
  chain_ledger inp =
      let scale = inp.params.scale_factor in
      let scf = soft_cap_factor fl inp.cr_before inp.pl_base_delta_mu inp.params in
      enter dispersion_entry (mul (sub inp.final_delta_mu (step_from inp scf)) scale) none true
        (enter_steps scale (chain_steps inp scf) empty_ledger)
