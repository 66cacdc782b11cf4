-- ===== src/Foreach/Elements.antt =====
-- The iteration of a foreach stage: the outer data are not touched while the elements run.
use rlng.Base.{
  ℕ, suc, ◌+◌, ◌≡◌, ◌≢◌, refl, ◌∙◌, ap, Option, none, some, List, [], ◌∷◌, arith, ⊤, length,
  Bool-cases, inl, inr,
}
use rlng.Base.Text.{Text}
use rlng.Base.Int.{pos}
use rlng.Value.{Value, signed, int, list, Fields, Arith}
use rlng.Value.Access.{of_items, to_items}
use rlng.Error.{panic, Result, ok, err, map_err, Cases, Result-Cases}
use rlng.Numeric.{aggregate}
use rlng.Scope.{Scope}
use rlng.Scope.Path.{lookup_path, qualify}
use rlng.Scope.Action.{lift, get, set, record_element_firings, record_element_derivations}
use rlng.Scope.Frame.{head_segment, Unchanged, >>=-Unchanged, set-Keeps, settings, set-settings}
use rlng.Stage.{Context, Exec, Stage}
use rlng.Pipeline.Run.{run, asked}
use rlng.Foreach.{
  ForEach, Rollup, foreach_error, set_rollup, reduce_rollup, apply_rollups, rollup_values,
  merge_element, keep_element, next_element, element_scope, run_element, run_elements,
  write_results, over_list, finish_elements, execute_for_each, objects,
}

merge_element-store :
    (f : ForEach) (i : ℕ) (esc s : Scope) → (merge_element f i esc s).store ≡ s.store
unfolding merge_element record_element_firings record_element_derivations
merge_element-store f i esc s = ground arith

-- What an element's scope leaves in the outer one does not show in `g`.
abbrev pub MergesUnseen : {X : Type 0} → (Scope → X) → ForEach → Type 0
MergesUnseen g f = (i : ℕ) (esc s : Scope) → g (merge_element f i esc s) ≡ g s

module _ {X : Type 0} (g : Scope → X) where
  keep_element-Unchanged :
      (f : ForEach) (i : ℕ) (x : Exec) (r : Result ⊤ × Exec)
      → MergesUnseen g f
      → g (keep_element f i x r).1.scope ≡ g x.scope
  keep_element-Unchanged f i x (ok done, y) h = h i y.scope x.scope
  keep_element-Unchanged f i x (err panic, y) h = refl
  keep_element-Unchanged f i x (err e, y) h = ground arith

  next_element-Unchanged :
      (o : X) (first : Result Fields × Exec) (rest : Exec → Result (List Fields) × Exec)
      → g first.1.scope ≡ o
      → ((x : Exec) → g (rest x).1.scope ≡ g x.scope)
      → g (next_element first rest).1.scope ≡ o
  next_element-Unchanged o (ok v, x) rest h k = k x ∙ h
  next_element-Unchanged o (err e, x) rest h k = h

next_element-ok :
    (first : Result Fields × Exec) (rest : Exec → Result (List Fields) × Exec) {items : List Fields}
    → (next_element first rest).0 ≡ ok items
    → (m : Fields) × (ms : List Fields) × (y : Exec) × ((rest y).0 ≡ ok ms) × (items ≡ m ∷ ms)
next_element-ok (ok m, y) rest h = elim (Result-Cases (rest y).0) [
  | Cases.good ms done ↦ (m, ms, y, done, ground arith)
  | Cases.bad e failed ↦ ground arith
]
next_element-ok (err e, y) rest h = ground arith

module _ (ctx : Context) (schedule : List Stage → List Stage) (f : ForEach) where
  module _ {X : Type 0} (g : Scope → X) (merges : MergesUnseen g f) where
    run_element-Unchanged :
        (i : ℕ) (el : Value) (x : Exec) → g (run_element ctx schedule f i el x).1.scope ≡ g x.scope
    unfolding run_element
    run_element-Unchanged i el x = elim (Bool-cases (ctx x.asks)) [
      | inl cancelled ↦ rw (cancelled, run_element)
      | inr going ↦
          rw (going, run_element)
            (keep_element-Unchanged g f i x
              (run ctx schedule f.inner
                (record { scope = element_scope f x.scope el; asks = suc x.asks }))
              merges)
    ]

    run_elements-Unchanged :
        (i : ℕ) (els : List Value) (x : Exec)
        → g (run_elements ctx schedule f i els x).1.scope ≡ g x.scope
    unfolding run_elements
    run_elements-Unchanged i [] x = refl
    run_elements-Unchanged i (el ∷ els) x =
        next_element-Unchanged g (g x.scope) (run_element ctx schedule f i el x)
          (run_elements ctx schedule f (i + 1) els) (run_element-Unchanged i el x)
          (run_elements-Unchanged (i + 1) els)

  -- While the elements run, whatever the inner pipeline does and however the iteration ends, the
  -- data of the outer scope stay as they were.
  pub run_elements-store :
      (i : ℕ) (els : List Value) (x : Exec)
      → (run_elements ctx schedule f i els x).1.scope.store ≡ x.scope.store
  run_elements-store = run_elements-Unchanged (λ s. s.store) (merge_element-store f)

  -- A completed iteration has one result for each element.
  pub length-run_elements :
      (i : ℕ) (els : List Value) (x : Exec) {items : List Fields}
      → (run_elements ctx schedule f i els x).0 ≡ ok items
      → length items ≡ length els
  unfolding run_elements
  length-run_elements i [] x h = ground arith
  length-run_elements i (el ∷ els) x h =
      let (m, ms, y, done, e) =
        next_element-ok (run_element ctx schedule f i el x)
          (run_elements ctx schedule f (i + 1) els) h in
      rw e (ap suc (length-run_elements (i + 1) els y done))

-- Writes under a name do not show in `g`.
abbrev pub WritesUnseen : {X : Type 0} → (Scope → X) → Text → Type 0
WritesUnseen g name = (key : Text) (v : Value) → Unchanged g (set (qualify name key) v)

module _ {X : Type 0} (ops : Arith) (g : Scope → X) (name : Text)
    (unseen : WritesUnseen g name) where
  set_rollup-Unchanged : (out : Text) (v : Value) → Unchanged g (set_rollup ops name out v)
  unfolding set_rollup
  set_rollup-Unchanged out v = unseen out v

  reduce_rollup-Unchanged :
      (r : Rollup) (vals : List Value) → Unchanged g (reduce_rollup ops name r vals)
  unfolding reduce_rollup
  reduce_rollup-Unchanged r [] s = ground (
    arith,
    set_rollup-Unchanged r.out (signed int (pos 0)) s,
    set_rollup-Unchanged r.out (list (to_items [])) s,
  )
  reduce_rollup-Unchanged r (v ∷ vals) s =
      >>=-Unchanged g (lift (map_err (foreach_error name) (aggregate ops r.agg (v ∷ vals)))) _
        (λ _. refl) (set_rollup-Unchanged r.out) s

  apply_rollups-Unchanged :
      (rs : List Rollup) (items : List Fields) → Unchanged g (apply_rollups ops name rs items)
  unfolding apply_rollups
  apply_rollups-Unchanged [] items s = refl
  apply_rollups-Unchanged (r ∷ rs) items s =
      >>=-Unchanged g (reduce_rollup ops name r (rollup_values r.key items)) _
        (reduce_rollup-Unchanged r (rollup_values r.key items))
        (λ _. apply_rollups-Unchanged rs items) s

module _ {X : Type 0} (ops : Arith) (g : Scope → X) (f : ForEach) (unseen : WritesUnseen g f.name)
    (elements : (ctx : Context) (schedule : List Stage → List Stage) (els : List Value) (x : Exec)
      → g (run_elements ctx schedule f 0 els x).1.scope ≡ g x.scope) where
  write_results-Unchanged : (items : List Fields) → Unchanged g (write_results ops f items)
  unfolding write_results
  write_results-Unchanged items =
      >>=-Unchanged g (apply_rollups ops f.name f.rollups items) _
        (apply_rollups-Unchanged ops g f.name unseen f.rollups items)
        (λ _. unseen f.output (list (to_items (objects items))))

  finish_elements-Unchanged :
      (r : Result (List Fields) × Exec) → g (finish_elements ops f r).1.scope ≡ g r.1.scope
  finish_elements-Unchanged (ok items, x) = write_results-Unchanged items x.scope
  finish_elements-Unchanged (err e, x) = refl

  over_list-Unchanged :
      (ctx : Context) (schedule : List Stage → List Stage) (v : Option Value) (x : Exec)
      → g (over_list ops ctx schedule f v x).1.scope ≡ g x.scope
  over_list-Unchanged ctx schedule none x = refl
  over_list-Unchanged ctx schedule (some (list xs)) x =
      finish_elements-Unchanged (run_elements ctx schedule f 0 (of_items xs) x)
      ∙ elements ctx schedule (of_items xs) x
  over_list-Unchanged ctx schedule (some v) x = refl

  pub execute_for_each-Unchanged :
      (schedule : List Stage → List Stage) (ctx : Context) (x : Exec)
      → g (execute_for_each ops schedule f ctx x).1.scope ≡ g x.scope
  unfolding execute_for_each
  execute_for_each-Unchanged schedule ctx x = elim (Bool-cases (ctx x.asks)) [
    | inl cancelled ↦ rw (cancelled, execute_for_each)
    | inr going ↦
        rw (going, execute_for_each)
          (over_list-Unchanged ctx schedule (get f.collection x.scope) (asked x))
  ]

get-of_store : (q : Text) (s t : Scope) → s.store ≡ t.store → get q s ≡ get q t
unfolding get
get-of_store q s t e = ap (λ m. lookup_path m q) e

module _ (ops : Arith) (q : Text) (f : ForEach) (apart : head_segment f.name ≢ head_segment q) where
  -- A foreach stage, with all that its inner pipelines do, changes nothing at a path whose first
  -- segment differs from that of its name.
  pub execute_for_each-Keeps :
      (schedule : List Stage → List Stage) (ctx : Context) (x : Exec)
      → get q (execute_for_each ops schedule f ctx x).1.scope ≡ get q x.scope
  execute_for_each-Keeps =
      execute_for_each-Unchanged ops (get q) f (set-Keeps q f.name apart) (λ ctx schedule els x.
        get-of_store q (run_elements ctx schedule f 0 els x).1.scope x.scope
          (run_elements-store ctx schedule f 0 els x))

merge_element-settings : (f : ForEach) → MergesUnseen settings f
unfolding merge_element record_element_firings record_element_derivations
merge_element-settings f i esc s = ground arith

-- A foreach stage changes none of the settings of a scope.
pub execute_for_each-settings :
    (ops : Arith) (f : ForEach) (schedule : List Stage → List Stage) (ctx : Context) (x : Exec)
    → settings (execute_for_each ops schedule f ctx x).1.scope ≡ settings x.scope
execute_for_each-settings ops f schedule ctx x =
    execute_for_each-Unchanged ops settings f (λ key v. set-settings (qualify f.name key) v)
      (λ ctx schedule. run_elements-Unchanged ctx schedule f settings (merge_element-settings f) 0)
      schedule ctx x
