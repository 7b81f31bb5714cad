-- ===== src/Rating/Explain/Reconciled.antt =====
-- The ledgers of backend/arena/rating/explain.py add up.
use arena_rank_project.Prelude.{
  ◌≡◌, refl, sym, ap, ◌∙◌, subst, Bool, true, false, not, none, List, [], ◌∷◌, ◌++◌, all, any,
  if_intro, inl, inr, ◌⊎◌,
}
use arena_rank_project.Prelude.{◌==◌ as nat_beq}
use arena_rank_project.Prelude.Result.{ok, >>=-eq-ok, ok_inj}
use arena_rank_project.Floats.{Floats}
use arena_rank_project.Rating.Caps.{zero_f}
use arena_rank_project.Rating.Modifiers.{fabs}
use arena_rank_project.Rating.Explain.Entries.{
  LedgerKind, Lost, extend_lost, reconcile_eps, ExplainInput, LedgerEntry, PdlExplanation, Ledger,
  enter, chain_ledger, zero_floor_entry, display_adjust_entry, lost_confidence, lost_cap_adjustment,
  lost_residual_gap, lost_code,
}
use arena_rank_project.Rating.Explain.Tiers.{Stage, cap_stage}
use arena_rank_project.Rating.Explain.{
  lump_stage, zero_floor_stage, adjusted_stage, is_zero_floored, gap_stage, closed_stage,
  explanation_of, explain,
}
use arena_rank_project.Rating.Explain.Sums.{
  is_partial, is_empty_list, all-append, append-nonempty, ineligible_not, true_is_not_false,
  sum_from, IsRunning, IsTotalled, exact_all, enter-IsTotalled, IsOpen, chain_ledger-IsOpen,
}
use arena_rank_project.Rating.Explain.Stages.{IsSound, cap_from-IsSound}

extend_lost_keeps :
    (ls xs : List Lost) → is_empty_list ls ≡ false → is_empty_list (extend_lost ls xs) ≡ false
unfolding extend_lost
extend_lost_keeps ls [] h = h
extend_lost_keeps ls (x ∷ xs) h =
    if_intro (λ (t : List Lost). is_empty_list t ≡ false)
      (any (λ l. nat_beq (lost_code l) (lost_code x)) ls) _ _ (λ e. extend_lost_keeps ls xs h)
      (λ e. extend_lost_keeps (ls ++ (x ∷ [])) xs (append-nonempty ls x))

extend_lost-nonempty :
    (ls : List Lost)
    → is_empty_list (extend_lost ls (lost_confidence ∷ lost_cap_adjustment ∷ [])) ≡ false
unfolding extend_lost
extend_lost-nonempty [] = refl
extend_lost-nonempty (l ∷ ls) =
    extend_lost_keeps (l ∷ ls) (lost_confidence ∷ lost_cap_adjustment ∷ []) refl

module _ (fl : Floats) where
  open fl use {Float, add, sub, lt}

  -- The last entry is the whole of what was left.
  abbrev IsClosed : ExplainInput fl → List (LedgerEntry fl) → Type 0
  IsClosed inp es =
      (before : List (LedgerEntry fl)) × (last : LedgerEntry fl) × (es ≡ before ++ (last ∷ []))
      × (last.pdl ≡ sub inp.cr_delta (sum_from fl (zero_f fl) before))

  pub record IsReconciled (inp : ExplainInput fl) (out : PdlExplanation fl) : Type 0 where
    pub running : IsRunning fl (zero_f fl) out.entries
    pub residual : out.residual ≡ sub inp.cr_delta (sum_from fl (zero_f fl) out.entries)
    pub closed : lt (reconcile_eps fl) (fabs fl out.residual) ≡ false ⊎ IsClosed inp out.entries
    pub exact : all (λ e. e.exact) out.entries ≡ not (is_partial out.fidelity)
    pub lost : is_empty_list out.unrecoverable ≡ not (is_partial out.fidelity)

  enter-IsClosed :
      (inp : ExplainInput fl) (kind : LedgerKind) (is : Bool) (l : Ledger fl)
      → IsTotalled fl l
      → IsClosed inp (enter fl kind (sub inp.cr_delta l.running) none is l).entries
  enter-IsClosed inp kind is l h = (l.entries, _, refl, ap (sub inp.cr_delta) h.total)

  lost_of :
      (st : Stage fl)
      → IsSound fl st
      → st.lump ≡ false
      → is_empty_list st.unrecoverable ≡ not (is_partial st.fidelity)
  lost_of st h e = elim h.unrecoverable [
    | inl u ↦ absurd (true_is_not_false (sym u ∙ e))
    | inr u ↦ ap is_empty_list u ∙ rw (h.fidelity, e) refl
  ]

  small_gap :
      (inp : ExplainInput fl) (st : Stage fl)
      → IsSound fl st
      → st.lump ≡ false
      → lt (reconcile_eps fl) (fabs fl (sub inp.cr_delta st.ledger.running)) ≡ false
      → IsReconciled inp (explanation_of fl inp st)
  small_gap inp st h e z = record {
    running = h.ledger.totalled.running;
    residual = ap (sub inp.cr_delta) h.ledger.totalled.total;
    closed = inl z;
    exact = h.ledger.exact ∙ rw (h.fidelity, e) refl;
    lost = lost_of st h e;
  }

  closing :
      (inp : ExplainInput fl) (l : Ledger fl) (kind : LedgerKind) (is : Bool) (st : Stage fl)
      → IsOpen fl l
      → st.ledger ≡ enter fl kind (sub inp.cr_delta l.running) none is l
      → is ≡ not (is_partial st.fidelity)
      → is_empty_list st.unrecoverable ≡ not (is_partial st.fidelity)
      → IsReconciled inp (explanation_of fl inp st)
  closing inp l kind is st h e exact lost =
      let totalled =
        subst (IsTotalled fl) (sym e)
          (enter-IsTotalled fl kind (sub inp.cr_delta l.running) none is l h.totalled) in
      record {
        running = totalled.running;
        residual = ap (sub inp.cr_delta) totalled.total;
        closed =
            inr (
              subst (λ m. IsClosed inp m.entries) (sym e)
                (enter-IsClosed inp kind is l h.totalled));
        exact =
            ap (λ m. exact_all fl m.entries) e
            ∙ all-append (λ x. x.exact) l.entries _
            ∙ rw h.exact exact;
        lost = lost;
      }

  closed_stage-IsReconciled :
      (inp : ExplainInput fl) (st : Stage fl)
      → IsSound fl st
      → IsReconciled inp (explanation_of fl inp (closed_stage fl inp st))
  unfolding closed_stage extend_lost
  closed_stage-IsReconciled inp st h =
      let l = st.ledger in
      let gap = sub inp.cr_delta l.running in
      let P : Stage fl → Type 0 = λ s. IsReconciled inp (explanation_of fl inp s) in
      if_intro P st.lump (lump_stage fl inp st) (gap_stage fl inp st)
        (λ e.
          let whole = h.fidelity ∙ e in
          closing inp l display_adjust_entry false (lump_stage fl inp st) h.ledger refl
            (rw whole refl) (extend_lost-nonempty st.unrecoverable ∙ rw whole refl))
        (λ e.
          let whole = h.fidelity ∙ e in
          if_intro P (lt (reconcile_eps fl) (fabs fl gap)) _ st
            (λ z.
              if_intro P (is_zero_floored fl inp st) (zero_floor_stage fl inp st)
                (adjusted_stage fl inp st)
                (λ f.
                  closing inp l zero_floor_entry true (zero_floor_stage fl inp st) h.ledger refl
                    (rw whole refl) (lost_of st h e))
                (λ f.
                  closing inp l display_adjust_entry false (adjusted_stage fl inp st) h.ledger refl
                    refl (append-nonempty st.unrecoverable lost_residual_gap)))
            (λ z. small_gap inp st h e z))

  -- For a participant that was eligible, the entries of the ledger add up. Each carries the sum up to it, and the residual is what the sum of
  -- all of them leaves of the change of the displayed rating: more than 1e-6 only if the last entry is the
  -- whole of what the others left, so that it is the rounding of one subtraction. An entry that is not
  -- exact, a fidelity of `parcial` and something named unrecoverable come together or not at all.
  pub explain-IsReconciled :
      (inp : ExplainInput fl) (out : PdlExplanation fl)
      → inp.eligible ≡ true
      → explain fl inp ≡ ok out
      → IsReconciled inp out
  unfolding explain
  explain-IsReconciled inp out e h =
      let (st, is, last) =
        >>=-eq-ok (cap_stage fl inp (chain_ledger fl inp)) _ (ineligible_not _ _ e h) in
      subst (IsReconciled inp) (ok_inj last) (
        closed_stage-IsReconciled inp st (
          cap_from-IsSound fl inp (chain_ledger fl inp) (chain_ledger-IsOpen fl inp) inp.params.caps
            inp.cap_facts st is))
