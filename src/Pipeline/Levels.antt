-- ===== src/Pipeline/Levels.antt =====
-- Correctness of `computeLevels`: the stages of a level depend only on stages of earlier levels.
use rlng.Base.{
  ℕ, zero, suc, ◌+◌, ◌≤◌, ◌<◌, ◌≡◌, refl, true, ◌||◌, List, [], ◌∷◌, ◌++◌, append-nil, arith, All,
  All-map, All-append, inl, inr, Bool-cases, ltb, if◌then◌else◌, subst,
}
use rlng.Base.Text.{Text, text_eq, text_eq_iff}
use rlng.Base.Dict.{Dict, lookup, insert, lookup-insert}
use rlng.Error.{ok}
use rlng.Stage.{Stage}
use rlng.Pipeline.{
  mem_text, names, all_emitted, topo_sort, level_or_zero, level_of, place, levels_from,
  compute_levels,
}
use rlng.Pipeline.Topology.{IsSorted, topo_sort-IsSorted}

-- Each stage of each level has its dependencies in `before` or in the levels before its own.
abbrev pub IsLayered : List Stage → List (List Stage) → Type 0
IsLayered before [] = Unit
IsLayered before (l ∷ ls) =
    All (λ s. all_emitted s.depends_on before ≡ true) l × IsLayered (before ++ l) ls

-- `before` and the first levels.
unfoldable pub upto : ℕ → List Stage → List (List Stage) → List Stage
upto zero before levels = before
upto (suc n) before [] = before
upto (suc n) before (l ∷ ls) = upto n (before ++ l) ls

abbrev Has : Text → List Stage → Type 0
Has t b = mem_text t (names b) ≡ true

abbrev Within : List Stage → List Stage → Type 0
Within b c = (t : Text) → Has t b → Has t c

mem_text-append :
    (t : Text) (a b : List Stage)
    → mem_text t (names (a ++ b)) ≡ mem_text t (names a) || mem_text t (names b)
unfolding mem_text
mem_text-append t [] b = refl
mem_text-append t (x ∷ a) b = ground (arith, mem_text-append t a b)

Within-append : (b c d e : List Stage) → Within b c → Within d e → Within (b ++ d) (c ++ e)
Within-append b c d e h k t m =
    ground (arith, mem_text-append t b d, mem_text-append t c e, h t, k t)

Within-left : (b c d : List Stage) → Within b c → Within b (c ++ d)
Within-left b c d h t m = ground (arith, mem_text-append t c d, h t)

all_emitted-Within :
    (deps : List Text) (b c : List Stage)
    → Within b c
    → all_emitted deps b ≡ true
    → all_emitted deps c ≡ true
unfolding all_emitted
all_emitted-Within [] b c h e = refl
all_emitted-Within (dep ∷ deps) b c h e = ground (arith, h dep, all_emitted-Within deps b c h)

all_emitted_by :
    (deps : List Text) (b c : List Stage)
    → All (λ dep. Has dep b → Has dep c) deps
    → all_emitted deps b ≡ true
    → all_emitted deps c ≡ true
unfolding all_emitted
all_emitted_by [] b c h e = refl
all_emitted_by (dep ∷ deps) b c h e = ground (arith, h.0, all_emitted_by deps b c h.1)

IsLayered-Within :
    (b c : List Stage) (ls : List (List Stage)) → Within b c → IsLayered b ls → IsLayered c ls
IsLayered-Within b c [] h k = tt
IsLayered-Within b c (l ∷ ls) h k = (
  All-map _ _ l (λ s. all_emitted-Within s.depends_on b c h) k.0,
  IsLayered-Within (b ++ l) (c ++ l) ls (Within-append b c l l h (λ t m. m)) k.1,
)

upto-nil : (n : ℕ) (b : List Stage) → upto n b [] ≡ b
unfolding upto
upto-nil zero b = refl
upto-nil (suc n) b = refl

Within-upto :
    (n : ℕ) (b c : List Stage) (ls : List (List Stage)) → Within b c → Within b (upto n c ls)
unfolding upto
Within-upto zero b c ls h = h
Within-upto (suc n) b c [] h = h
Within-upto (suc n) b c (l ∷ ls) h = Within-upto n b (c ++ l) ls (Within-left b c l h)

upto-upto :
    (n : ℕ) (b c : List Stage) (ls : List (List Stage))
    → Within b c
    → Within (upto n b ls) (upto n c ls)
unfolding upto
upto-upto zero b c ls h = h
upto-upto (suc n) b c [] h = h
upto-upto (suc n) b c (l ∷ ls) h =
    upto-upto n (b ++ l) (c ++ l) ls (Within-append b c l l h (λ t m. m))

upto-le :
    (n m : ℕ) (b : List Stage) (ls : List (List Stage)) → n ≤ m → Within (upto n b ls) (upto m b ls)
unfolding upto
upto-le zero m b ls h = Within-upto m b b ls (λ t k. k)
upto-le (suc n) zero b ls h = absurd (omega arith)
upto-le (suc n) (suc m) b [] h = λ t k. k
upto-le (suc n) (suc m) b (l ∷ ls) h = upto-le n m (b ++ l) ls (omega arith)

upto-place :
    (n k : ℕ) (s : Stage) (b : List Stage) (ls : List (List Stage))
    → Within (upto n b ls) (upto n b (place k s ls))
unfolding upto place
upto-place zero k s b ls = λ t m. m
upto-place (suc n) zero s b [] =
    Within-upto n b (b ++ (s ∷ [])) [] (Within-left b b (s ∷ []) (λ t m. m))
upto-place (suc n) zero s b (l ∷ ls) =
    upto-upto n (b ++ l) (b ++ (l ++ (s ∷ []))) ls
      (Within-append b b l (l ++ s ∷ []) (λ t m. m) (Within-left l l (s ∷ []) (λ t m. m)))
upto-place (suc n) (suc k) s b [] =
    Within-upto n b (b ++ []) (place k s []) (Within-left b b [] (λ t m. m))
upto-place (suc n) (suc k) s b (l ∷ ls) = upto-place n k s (b ++ l) ls

place-Has :
    (n : ℕ) (s : Stage) (b : List Stage) (ls : List (List Stage))
    → Has s.name (upto (suc n) b (place n s ls))
unfolding upto place mem_text
place-Has zero s b [] = ground (arith, mem_text-append s.name b (s ∷ []), text_eq_iff s.name s.name)
place-Has zero s b (l ∷ ls) = ground (
  arith,
  mem_text-append s.name b (l ++ s ∷ []),
  mem_text-append s.name l (s ∷ []),
  text_eq_iff s.name s.name,
)
place-Has (suc n) s b [] = place-Has n s (b ++ []) []
place-Has (suc n) s b (l ∷ ls) = place-Has n s (b ++ l) ls

place-IsLayered :
    (n : ℕ) (s : Stage) (b : List Stage) (ls : List (List Stage))
    → IsLayered b ls
    → all_emitted s.depends_on (upto n b ls) ≡ true
    → IsLayered b (place n s ls)
unfolding upto place
place-IsLayered zero s b [] h e = ((e, tt), tt)
place-IsLayered zero s b (l ∷ ls) h e = (
  All-append _ l (s ∷ []) h.0 (e, tt),
  IsLayered-Within (b ++ l) (b ++ (l ++ (s ∷ []))) ls
      (Within-append b b l (l ++ s ∷ []) (λ t m. m) (Within-left l l (s ∷ []) (λ t m. m))) h.1,
)
place-IsLayered (suc n) s b [] h e =
    (tt, place-IsLayered n s (b ++ []) [] tt (rw (upto-nil, append-nil) e))
place-IsLayered (suc n) s b (l ∷ ls) h e = (h.0, place-IsLayered n s (b ++ l) ls h.1 e)

level_of-ge : (m : Dict ℕ) (deps : List Text) (lvl : ℕ) → lvl ≤ level_of m deps lvl
unfolding level_of
level_of-ge m [] lvl = omega arith
level_of-ge m (dep ∷ deps) lvl =
    ground (arith, level_of-ge m deps lvl, level_of-ge m deps (level_or_zero (lookup dep m) + 1))

level_of-above :
    (m : Dict ℕ) (deps : List Text) (lvl : ℕ)
    → All (λ dep. level_or_zero (lookup dep m) < level_of m deps lvl) deps
unfolding level_of
level_of-above m [] lvl = tt
level_of-above m (dep ∷ deps) lvl =
    let d = level_or_zero (lookup dep m) + 1 in
    (
      ground (arith, level_of-ge m deps lvl, level_of-ge m deps d),
      level_of-above m deps (if ltb lvl d then d else lvl),
    )

-- Every stage placed so far stands at the level recorded for its name, or before it.
abbrev Placed : List Stage → Dict ℕ → List (List Stage) → Type 0
Placed done m levels =
    (t : Text) → Has t done → Has t (upto (suc (level_or_zero (lookup t m))) [] levels)

deps-Placed :
    (deps : List Text) (done : List Stage) (m : Dict ℕ) (levels : List (List Stage))
    → Placed done m levels
    → all_emitted deps done ≡ true
    → all_emitted deps (upto (level_of m deps 0) [] levels) ≡ true
deps-Placed deps done m levels p e =
    all_emitted_by deps done (upto (level_of m deps 0) [] levels)
      (All-map _ _ deps
        (λ dep below has.
          upto-le (suc (level_or_zero (lookup dep m))) (level_of m deps 0) [] levels below dep
            (p dep has))
        (level_of-above m deps 0))
      e

place-Placed :
    (s : Stage) (n : ℕ) (done : List Stage) (m : Dict ℕ) (levels : List (List Stage))
    → Placed done m levels
    → Placed (done ++ (s ∷ [])) (insert s.name n m) (place n s levels)
unfolding mem_text
place-Placed s n done m levels p t has = elim (Bool-cases (text_eq s.name t)) [
  | inl same ↦
      rw (lookup-insert, same)
        (subst (λ u. Has u (upto (suc n) [] (place n s levels))) ((text_eq_iff s.name t).0 same)
          (place-Has n s [] levels))
  | inr other ↦
      rw (lookup-insert, other)
        (upto-place (suc (level_or_zero (lookup t m))) n s [] levels t
          (p t (ground (arith, mem_text-append t done (s ∷ [])))))
]

levels_from-IsLayered :
    (ss done : List Stage) (m : Dict ℕ) (levels : List (List Stage))
    → IsSorted done ss
    → Placed done m levels
    → IsLayered [] levels
    → IsLayered [] (levels_from ss m levels)
unfolding levels_from
levels_from-IsLayered [] done m levels h p k = k
levels_from-IsLayered (s ∷ ss) done m levels h p k =
    let n = level_of m s.depends_on 0 in
    levels_from-IsLayered ss (done ++ (s ∷ [])) (insert s.name n m) (place n s levels) h.2
      (place-Placed s n done m levels p)
      (place-IsLayered n s [] levels k (deps-Placed s.depends_on done m levels p h.0))

pub compute_levels-IsLayered :
    (stages : List Stage) {ordered : List Stage}
    → topo_sort stages ≡ ok ordered
    → IsLayered [] (compute_levels ordered)
unfolding compute_levels mem_text
compute_levels-IsLayered stages {ordered} e =
    levels_from-IsLayered ordered [] [] [] (topo_sort-IsSorted stages e).0 (λ t has. ground arith)
      tt
