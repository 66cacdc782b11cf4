-- ===== src/Foreach.antt =====
-- pipe/foreach.go: a stage that runs an inner pipeline once for each element of a list, against a
-- scope of its own, and rolls the results up.
pub mod Elements
use rlng.Base.{
  ℕ, zero, suc, ◌+◌, ◌/◌, ◌%◌, Bool, true, false, ◌||◌, Option, none, some, List, [], ◌∷◌, ◌++◌, ⊤,
  ltb, if◌then◌else◌,
}
use rlng.Base.Int.{pos}
use rlng.Base.Text.{Text, codes, is_empty}
use rlng.Value.{Value, signed, int, list, obj, Fields, Arith}
use rlng.Value.Access.{insert_field, to_items, of_items}
use rlng.Error.{
  Error, cancelled, panic, empty_stage_name, foreach_no_collection, foreach_not_list,
  foreach_empty_rollup, foreach_no_path, element, stage_error, foreach, Result, ok, err, map_err,
}
use rlng.Numeric.{
  CollectAggregation, aggregate_list, aggregate_sum, aggregate_min, aggregate_max, aggregate_count,
  aggregate,
}
use rlng.Scope.{Scope, ScopeOption, with_provenance, new_scope, snapshot}
use rlng.Scope.Path.{qualify, lookup_path}
use rlng.Scope.Action.{
  Action, pure, throw, lift, wrap_err, ◌>>=◌, ◌>>◌, get, set, record_element_firings,
  record_element_derivations,
}
use rlng.Stage.{Context, Exec, Step, Stage}
use rlng.Pipeline.Build.{Pipeline}
use rlng.Pipeline.Run.{run, on_scope, asked}

pub record Rollup : Type 0 where
  pub key : Text
  pub agg : CollectAggregation
  pub out : Text

pub record ForEach : Type 0 where
  pub name : Text
  pub collection : Text
  pub binding : Text
  pub output : Text
  pub deps : List Text
  pub inner : Pipeline
  pub rollups : List Rollup

pub data ForEachOption : Type 0 where
  with_for_each_as with_for_each_output : Text → ForEachOption
  with_for_each_depends_on : List Text → ForEachOption
  with_rollups : List Rollup → ForEachOption

abbrev configure : ForEach → ForEachOption → ForEach
configure f (with_for_each_as name) = record f { binding = name }
configure f (with_for_each_output key) = record f { output = key }
configure f (with_for_each_depends_on deps) = record f { deps = deps }
configure f (with_rollups rs) = record f { rollups = rs }

unfoldable pub configure_all : ForEach → List ForEachOption → ForEach
configure_all f [] = f
configure_all f (o ∷ os) = configure_all (configure f o) os

unfoldable pub has_empty_rollup : List Rollup → Bool
has_empty_rollup [] = false
has_empty_rollup (r ∷ rs) = (is_empty r.key || is_empty r.out) || has_empty_rollup rs

abbrev pub foreach_error : Text → Error → Error
foreach_error name = stage_error name foreach

-- `NewForEach`; the inner pipeline is not nil.
unfoldable pub new_for_each : Text → Text → Pipeline → List ForEachOption → Result ForEach
new_for_each [] collection inner opts = err (foreach_error [] empty_stage_name)
new_for_each (c ∷ name) [] inner opts = err (foreach_error (c ∷ name) foreach_no_path)
new_for_each (c ∷ name) (d ∷ collection) inner opts =
    let f =
      configure_all
        (record {
          name = c ∷ name;
          collection = d ∷ collection;
          binding = codes "item";
          output = codes "items";
          deps = [];
          inner = inner;
          rollups = [];
        })
        opts in
    if has_empty_rollup f.rollups then err (foreach_error (c ∷ name) foreach_empty_rollup) else ok f

-- The decimal digits of a number, on fuel.
digits_onto : ℕ → ℕ → Text → Text
digits_onto zero n s = s
digits_onto (suc fuel) n s =
    let rest = digits_onto fuel (n / 10) ((b'0' + n % 10) ∷ s) in
    if ltb n 10 then (b'0' + n) ∷ s else rest

-- `fmt.Sprintf("%s[%d]", name, i)`
unfoldable pub element_name : Text → ℕ → Text
unfolding digits_onto
element_name name i = name ++ codes "[" ++ digits_onto (i + 1) i [] ++ codes "]"

-- `vals` of `applyRollup`: what the elements hold at the key, without those that lack it.
abbrev push_found : Option Value → List Value → List Value
push_found none vals = vals
push_found (some v) vals = v ∷ vals

unfoldable pub rollup_values : Text → List Fields → List Value
rollup_values key [] = []
rollup_values key (m ∷ items) = push_found (lookup_path m key) (rollup_values key items)

module _ (ops : Arith) (name : Text) where
  unfoldable pub set_rollup : Text → Value → Action ⊤
  set_rollup out v = wrap_err (foreach_error name) (set (qualify name out) v)

  -- `applyRollup`, from the values found.
  unfoldable pub reduce_rollup : Rollup → List Value → Action ⊤
  reduce_rollup r [] = elim r.agg [
    | aggregate_count ↦ set_rollup r.out (signed int (pos 0))
    | aggregate_list ↦ set_rollup r.out (list (to_items []))
    | _ ↦ pure tt
  ]
  reduce_rollup r (v ∷ vals) = do
    reduced ← lift (map_err (foreach_error name) (aggregate ops r.agg (v ∷ vals)))
    set_rollup r.out reduced

  unfoldable pub apply_rollups : List Rollup → List Fields → Action ⊤
  apply_rollups [] items = pure tt
  apply_rollups (r ∷ rs) items = do
    reduce_rollup r (rollup_values r.key items)
    apply_rollups rs items

unfoldable pub objects : List Fields → List Value
objects [] = []
objects (m ∷ ms) = obj m ∷ objects ms

abbrev inherited : Scope → List ScopeOption
inherited s = if s.provenance then with_provenance ∷ [] else []

-- The scope of one element: the outer snapshot with the element bound in it.
unfoldable pub element_scope : ForEach → Scope → Value → Scope
element_scope f s el = new_scope (insert_field f.binding el (snapshot s)) (inherited s)

-- What an element's scope leaves in the outer one.
unfoldable pub merge_element : ForEach → ℕ → Scope → Scope → Scope
merge_element f i esc s =
    let prefix = element_name f.name i in
    let s' : Scope = elim esc.firing [
      | [] ↦ s
      | e ∷ es ↦ record_element_firings prefix (e ∷ es) s
    ] in
    record_element_derivations prefix esc.derivations s'

-- After the inner run of an element: its error, or its data and the outer scope. A panic goes on.
abbrev pub keep_element : ForEach → ℕ → Exec → Result ⊤ × Exec → Result Fields × Exec
keep_element f i x (err panic, y) = (err panic, record x { asks = y.asks })
keep_element f i x (err e, y) =
    (err (foreach_error f.name (element i e)), record x { asks = y.asks })
keep_element f i x (ok done, y) =
    (ok (snapshot y.scope), record { scope = merge_element f i y.scope x.scope; asks = y.asks })

abbrev pub next_element :
    Result Fields × Exec → (Exec → Result (List Fields) × Exec) → Result (List Fields) × Exec
next_element (err e, x) rest = (err e, x)
next_element (ok m, x) rest =
    let (r, y) = rest x in (elim r [ ok ms ↦ ok (m ∷ ms) | err e ↦ err e ], y)

module _ (ctx : Context) (schedule : List Stage → List Stage) (f : ForEach) where
  -- One element: a fresh scope, the inner pipeline, and the merge of what it recorded.
  unfoldable pub run_element : ℕ → Value → Exec → Result Fields × Exec
  run_element i el x =
      if ctx x.asks
      then (err (foreach_error f.name (element i cancelled)), asked x)
      else keep_element f i x (
          run ctx schedule f.inner
            (record { scope = element_scope f x.scope el; asks = suc x.asks }))

  unfoldable pub run_elements : ℕ → List Value → Exec → Result (List Fields) × Exec
  run_elements i [] x = (ok [], x)
  run_elements i (el ∷ els) x = next_element (run_element i el x) (run_elements (i + 1) els)

module _ (ops : Arith) where
  -- The roll-ups, and then the list of results.
  unfoldable pub write_results : ForEach → List Fields → Action ⊤
  write_results f items = do
    apply_rollups ops f.name f.rollups items
    wrap_err (foreach_error f.name)
        (set (qualify f.name f.output) (list (to_items (objects items))))

  abbrev pub finish_elements : ForEach → Result (List Fields) × Exec → Result ⊤ × Exec
  finish_elements f (err e, x) = (err e, x)
  finish_elements f (ok items, x) =
      let (r, s) = write_results f items x.scope in (r, record x { scope = s })

  abbrev pub over_list : Context → (List Stage → List Stage) → ForEach → Option Value → Step
  over_list ctx schedule f none x = (err (foreach_error f.name foreach_no_collection), x)
  over_list ctx schedule f (some (list xs)) x =
      finish_elements f (run_elements ctx schedule f 0 (of_items xs) x)
  over_list ctx schedule f (some _) x = (err (foreach_error f.name foreach_not_list), x)

  -- `Execute`
  unfoldable pub execute_for_each : (List Stage → List Stage) → ForEach → Context → Step
  execute_for_each schedule f ctx x =
      if ctx x.asks
      then (err (foreach_error f.name cancelled), asked x)
      else over_list ctx schedule f (get f.collection x.scope) (asked x)

  abbrev pub for_each_stage : (List Stage → List Stage) → ForEach → Stage
  for_each_stage schedule f = record {
    name = f.name;
    kind = foreach;
    depends_on = f.deps;
    execute = execute_for_each schedule f;
  }
