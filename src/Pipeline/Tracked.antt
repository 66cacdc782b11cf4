-- ===== src/Pipeline/Tracked.antt =====
-- pipe/timing.go: the recorded order of the stages and their recorded times hold the same stages.
use rlng.Base.{◌≡◌, refl, sym, ◌∙◌, ◌||◌, List, [], ◌∷◌, ◌++◌, arith, ap}
use rlng.Base.Int.{ℤ}
use rlng.Base.Text.{Text, text_eq, text_eq_iff, text_eq_refl}
use rlng.Base.Dict.{Dict, contains, insert, lookup, lookup-insert}
use rlng.Scope.{Scope}
use rlng.Pipeline.{mem_text}
use rlng.Pipeline.Run.{record_stage, reorder_stages, keep_ran}
use rlng.Pipeline.Timing.{reorder_timed, kept_times}

-- The stages with a recorded time are those in the recorded order.
abbrev pub Agrees : Dict ℤ → List Text → Type 0
Agrees times order = (name : Text) → contains name times ≡ mem_text name order

mem_text-append :
    (t u : Text) (order : List Text)
    → mem_text t (order ++ (u ∷ [])) ≡ (mem_text t order || text_eq u t)
unfolding mem_text
mem_text-append t u [] = ground arith
mem_text-append t u (v ∷ order) = ground (arith, mem_text-append t u order)

contains-insert :
    (t u : Text) (d : ℤ) (times : Dict ℤ)
    → contains t (insert u d times) ≡ (text_eq u t || contains t times)
contains-insert t u d times = ground (arith, lookup-insert u t d times)

pub Agrees-insert :
    (name : Text) (d : ℤ) (times : Dict ℤ) (s : Scope)
    → Agrees times s.stage_order
    → Agrees (insert name d times) (record_stage name s).stage_order
Agrees-insert name d times s h t = ground (
  arith,
  contains-insert t name d times,
  mem_text-append t name s.stage_order,
  text_eq_iff name t,
  h t,
  h name,
)

kept_times-eq :
    (times : Dict ℤ) (order topo : List Text)
    → Agrees times order
    → kept_times times topo ≡ keep_ran order topo
kept_times-eq times order [] h = refl
kept_times-eq times order (name ∷ topo) h = ground (arith, h name, kept_times-eq times order topo h)

untimed_order : (order : List Text) → Agrees [] order → order ≡ []
unfolding mem_text lookup
untimed_order [] h = refl
untimed_order (name ∷ order) h = ground (arith, h name, text_eq_refl name)

keep_ran-nil : (topo : List Text) → keep_ran [] topo ≡ []
unfolding mem_text
keep_ran-nil [] = refl
keep_ran-nil (name ∷ topo) = keep_ran-nil topo

pub reorder_timed-eq :
    (topo : List Text) (times : Dict ℤ) (s : Scope)
    → Agrees times s.stage_order
    → reorder_timed topo times s ≡ reorder_stages topo s
unfolding reorder_timed reorder_stages
reorder_timed-eq topo [] s h =
    let bare = untimed_order s.stage_order h in
    let e = bare ∙ sym (keep_ran-nil topo) ∙ ap (λ o. keep_ran o topo) (sym bare) in
    λ i. record s { stage_order = e i }
reorder_timed-eq topo (t ∷ ts) s h = rw (kept_times-eq (t ∷ ts) s.stage_order topo h) refl
