-- ===== src/Linker/Select/Closed.antt =====
-- The rounds of `select_needed_objects` of linker/n65ld_input.c, and the state in which they stop.
use n.Prelude.{
  ℕ, zero, suc, ◌+◌, ◌<◌, ◌≤◌, ◌≡◌, refl, sym, ap, ◌∙◌, inl, inr, ◌⊎◌, Bool, true, false, Option,
  none, some, List, [], ◌∷◌, length, All, arith, Bool-cases, Option-cases, if_true, if_false,
}
use mathlib.Core.Path.{subst}
use n.Linker.Select.{
  InputSet, Provider, find_best_provider, include_object, select_round, select_needed_objects,
  selected_objects_export_symbol, collect_needed_symbols,
}
use n.Linker.Select.Progress.{unselected, IsInSync, include_object_lem, include_object-IsInSync}
use n.Linker.Select.Missing.{IsSettled, none-IsSettled, find_best_provider-IsFresh}

-- What a round does: nothing is left to do, or it takes in some of the objects.
abbrev RoundQuiet : InputSet → List (List ℕ) → Bool → InputSet × Bool → Type 0
RoundQuiet inputs names progress result =
    (result ≡ (inputs, false)) × (progress ≡ false) × All (IsSettled inputs) names

abbrev RoundBusy : InputSet → Bool → InputSet × Bool → Type 0
RoundBusy inputs progress result =
    (result.1 ≡ true)
    × IsInSync result.0
    × (length result.0.objects + unselected result.0 ≡ length inputs.objects + unselected inputs)
    × ((unselected result.0 < unselected inputs)
        ⊎ ((progress ≡ true) × (unselected result.0 ≤ unselected inputs)))

module _ (inputs : InputSet) (name : List ℕ) (names : List (List ℕ)) (progress : Bool) where
  abbrev round_for : Bool → Option Provider → InputSet × Bool
  round_for exported provider = elim exported [
    | true ↦ select_round inputs names progress
    | false ↦ elim provider [
      | none ↦ select_round inputs names progress
      | some p ↦ select_round (include_object inputs p) names true
    ]
  ]

  pub round_exported :
      selected_objects_export_symbol inputs name ≡ true
      → select_round inputs (name ∷ names) progress ≡ select_round inputs names progress
  unfolding select_round
  round_exported e = ap (λ b. round_for b (find_best_provider inputs name)) e

  pub round_missing :
      selected_objects_export_symbol inputs name ≡ false
      → find_best_provider inputs name ≡ none
      → select_round inputs (name ∷ names) progress ≡ select_round inputs names progress
  unfolding select_round
  round_missing e n =
      ap (λ b. round_for b (find_best_provider inputs name)) e ∙ ap (round_for false) n

  pub round_provided :
      (p : Provider)
      → selected_objects_export_symbol inputs name ≡ false
      → find_best_provider inputs name ≡ some p
      → select_round inputs (name ∷ names) progress
        ≡ select_round (include_object inputs p) names true
  unfolding select_round
  round_provided p e n =
      ap (λ b. round_for b (find_best_provider inputs name)) e ∙ ap (round_for false) n

  abbrev RoundLem : InputSet × Bool → Type 0
  RoundLem result =
      RoundQuiet inputs (name ∷ names) progress result ⊎ RoundBusy inputs progress result

  -- A symbol for which nothing is done.
  settled_step :
      IsSettled inputs name
      → select_round inputs (name ∷ names) progress ≡ select_round inputs names progress
      → RoundQuiet inputs names progress (select_round inputs names progress)
        ⊎ RoundBusy inputs progress (select_round inputs names progress)
      → RoundLem (select_round inputs (name ∷ names) progress)
  settled_step settled step (inl (e, off, rest)) = inl (step ∙ e, off, (settled, rest))
  settled_step settled step (inr busy) = inr (subst (RoundBusy inputs progress) (sym step) busy)

  -- A provider is taken in.
  provided_step :
      (p : Provider)
      → unselected inputs ≡ suc (unselected (include_object inputs p))
      → length (include_object inputs p).objects ≡ suc (length inputs.objects)
      → select_round inputs (name ∷ names) progress
        ≡ select_round (include_object inputs p) names true
      → RoundQuiet
          (include_object inputs p)
          names
          true
          (select_round (include_object inputs p) names true)
        ⊎ RoundBusy
            (include_object inputs p)
            true
            (select_round (include_object inputs p) names true)
      → RoundLem (select_round inputs (name ∷ names) progress)
  provided_step p count len step (inl (e, off, rest)) = cc
  provided_step p count len step (inr (on, sync, total, less)) =
      let down : unselected (select_round (include_object inputs p) names true).0
          < unselected inputs =
        elim less [
          | inl l ↦ omega (arith, l, count)
          | inr q ↦ (let l = q.1 in omega (arith, l, count))
        ] in
      inr (
        subst (RoundBusy inputs progress) (sym step)
          (on, sync, omega (arith, total, count, len), inl down))

select_round_lem :
    (inputs : InputSet) (names : List (List ℕ)) (progress : Bool)
    → IsInSync inputs
    → RoundQuiet inputs names progress (select_round inputs names progress)
      ⊎ RoundBusy inputs progress (select_round inputs names progress)
unfolding select_round
select_round_lem inputs [] true h = inr (refl, h, refl, inr (refl, omega arith))
select_round_lem inputs [] false h = inl (refl, refl, tt)
select_round_lem inputs (name ∷ names) progress h =
    let same = select_round_lem inputs names progress h in
    elim (Bool-cases (selected_objects_export_symbol inputs name)) [
      | inl e ↦
          settled_step inputs name names progress (inl e)
            (round_exported inputs name names progress e) same
      | inr e ↦ elim (Option-cases (find_best_provider inputs name)) [
        | inl n ↦
            settled_step inputs name names progress (none-IsSettled inputs name n)
              (round_missing inputs name names progress e n) same
        | inr (p, n) ↦
            let fresh = find_best_provider-IsFresh inputs name p h n in
            let (count, len) = include_object_lem inputs p fresh in
            provided_step inputs name names progress p count len
              (round_provided inputs name names progress p e n)
              (select_round_lem (include_object inputs p) names true
                (include_object-IsInSync inputs p fresh h))
      ]
    ]

-- A state in which the loop stops.
abbrev pub IsClosed : InputSet → Type 0
IsClosed inputs = All (IsSettled inputs) (collect_needed_symbols inputs)

pub select_needed_objects_lem :
    (fuel : ℕ) (inputs : InputSet)
    → IsInSync inputs
    → unselected inputs < fuel
    → (out : InputSet) × (select_needed_objects fuel inputs ≡ some out)
      × IsClosed out
      × (length out.objects + unselected out ≡ length inputs.objects + unselected inputs)
unfolding select_needed_objects
select_needed_objects_lem zero inputs h lt = elim lt [ ]
select_needed_objects_lem (suc fuel) inputs h lt =
    let r = select_round inputs (collect_needed_symbols inputs) false in
    let rest =
      select_needed_objects fuel (select_round inputs (collect_needed_symbols inputs) false).0 in
    elim (select_round_lem inputs (collect_needed_symbols inputs) false h) [
      | inl (e, off, settled) ↦ (
        inputs,
        if_false r.1 rest (some r.0) (ap (λ x. x.1) e) ∙ ap (λ x. some x.0) e,
        settled,
        refl,
      )
      | inr (on, sync, total, less) ↦
          let down : unselected (select_round inputs (collect_needed_symbols inputs) false).0
              < unselected inputs =
            elim less [ inl l ↦ l | inr q ↦ (let off = q.0 in cc) ] in
          let (out, e, closed, sum) =
            select_needed_objects_lem fuel r.0 sync (omega (arith, down)) in
          (out, if_true r.1 rest (some r.0) on ∙ e, closed, sum ∙ total)
    ]
