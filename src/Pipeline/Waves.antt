-- ===== src/Pipeline/Waves.antt =====
-- Waves of one stage each against the sequential run.
use rlng.Base.{◌≡◌, refl, true, none, some, List, [], ◌∷◌, arith, ⊤, All, Bool-cases, inl, inr}
use rlng.Base.Text.{Text, text_eq, text_eq_iff}
use rlng.Base.Dict.{lookup, insert}
use rlng.Error.{Error, Result, ok, err}
use rlng.Stage.{Context, Exec, Step, Stage}
use rlng.Pipeline.{mem_text, names}
use rlng.Pipeline.Run.{
  after, asked, settle, time_stage, note_error, first_error, run_level, run_levels, run_sequential,
}

abbrev pub singletons : List Stage → List (List Stage)
singletons [] = []
singletons (s ∷ ss) = (s ∷ []) ∷ singletons ss

pub first_error-none : (ss : List Stage) → first_error ss [] ≡ none
unfolding first_error lookup
first_error-none [] = refl
first_error-none (s ∷ ss) = first_error-none ss

first_error_one :
    (name : Text) (e : Error) (ss : List Stage)
    → mem_text name (names ss) ≡ true
    → first_error ss ((name, e) ∷ []) ≡ some e
unfolding first_error lookup mem_text
first_error_one name e [] h = ground arith
first_error_one name e (s ∷ ss) h = elim (Bool-cases (text_eq name s.name)) [
  | inl same ↦ rw (same, first_error)
  | inr other ↦
      rw (other, first_error)
        (first_error_one name e ss
          (ground (arith, text_eq_iff name s.name, text_eq_iff s.name name)))
]

settle-eq-after :
    (ordered : List Stage) (name : Text) (r : Result ⊤) (x : Exec) (next next' : Step)
    → mem_text name (names ordered) ≡ true
    → ((y : Exec) → next y ≡ next' y)
    → settle (first_error ordered (note_error name r [])) x next ≡ after (r, x) next'
unfolding insert
settle-eq-after ordered name (ok done) x next next' m h = rw (first_error-none ordered) (h x)
settle-eq-after ordered name (err e) x next next' m h = rw (first_error_one name e ordered m)

-- Where every level holds one stage, each of a name that is among the ordered ones, and the
-- scheduler keeps a list of one stage, the waves return the result, and leave the scope, of the
-- sequential run of these stages.
pub run_levels-eq-run_sequential :
    (ctx : Context) (schedule : List Stage → List Stage) (ordered ss : List Stage) (x : Exec)
    → ((s : Stage) → schedule (s ∷ []) ≡ s ∷ [])
    → All (λ s. mem_text s.name (names ordered) ≡ true) ss
    → run_levels ctx schedule ordered (singletons ss) x ≡ run_sequential ctx ss x
unfolding run_levels run_sequential run_level
run_levels-eq-run_sequential ctx schedule ordered [] x one h = refl
run_levels-eq-run_sequential ctx schedule ordered (s ∷ ss) x one h =
    elim (Bool-cases (ctx x.asks)) [
      | inl cancelled ↦ rw cancelled
      | inr going ↦
          rw (going, one s)
            (settle-eq-after ordered s.name (time_stage s.name (s.execute ctx) (asked x)).0
              (time_stage s.name (s.execute ctx) (asked x)).1
              (run_levels ctx schedule ordered (singletons ss)) (run_sequential ctx ss) h.0
              (λ y. run_levels-eq-run_sequential ctx schedule ordered ss y one h.1))
    ]
