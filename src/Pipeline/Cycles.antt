-- ===== src/Pipeline/Cycles.antt =====
-- The path that findCycle returns is a cycle of dependencies.
use rlng.Base.{
  ℕ, zero, suc, ◌+◌, ◌<◌, ◌≡◌, refl, ◌⊎◌, inl, inr, true, false, some, List, [], ◌∷◌, ◌++◌, arith,
  ⊤, length, length-append, All, All-append, All-Among, Among, Bool-cases, ◌==◌, leb, sym, subst,
  ap,
}
use rlng.Base.Text.{Text, text_eq, text_eq_iff, text_eq_refl}
use rlng.Error.{cycle_error, Result, err}
use rlng.Stage.{Stage}
use rlng.Pipeline.Topology.{length-le-emit_pass}
use rlng.Pipeline.Pigeonhole.{AreDistinct, pigeonhole, fresh, length-names}
use rlng.Pipeline.Complete.{IsDistinct}
use rlng.Pipeline.{
  mem_text, names, all_emitted, ready, emit_pass, stage_at, first_unmet, depends_of, from_first,
  follow, first_waiting, find_cycle, topo_loop, topo_sort,
}

module _ (stages : List Stage) where
  -- A stage named `a` depends on `b`.
  abbrev pub DependsOn : Text → Text → Type 0
  DependsOn a b = (s : Stage) × Among s stages × (s.name ≡ a) × (mem_text b s.depends_on ≡ true)

  -- Each text but the last depends on the next one.
  abbrev pub IsLinked : List Text → Type 0
  IsLinked [] = ⊤
  IsLinked (a ∷ []) = ⊤
  IsLinked (a ∷ b ∷ ts) = DependsOn a b × IsLinked (b ∷ ts)

  IsLinked-snoc :
      (ts : List Text) (a b : Text)
      → IsLinked (ts ++ a ∷ [])
      → DependsOn a b
      → IsLinked ((ts ++ a ∷ []) ++ b ∷ [])
  IsLinked-snoc [] a b h d = (d, tt)
  IsLinked-snoc (t ∷ []) a b h d = (h.0, (d, tt))
  IsLinked-snoc (t ∷ u ∷ ts) a b h d = (h.0, IsLinked-snoc (u ∷ ts) a b h.1 d)

  IsLinked-tail : (t : Text) (ts : List Text) → IsLinked (t ∷ ts) → IsLinked ts
  IsLinked-tail t [] h = tt
  IsLinked-tail t (u ∷ ts) h = h.1

  abbrev pub IsCycle : List Text → Type 0
  IsCycle path = (c : Text) × (ts : List Text) × (path ≡ c ∷ ts ++ c ∷ []) × IsLinked path

  closed-IsCycle :
      (cur : Text) (path : List Text)
      → mem_text cur path ≡ true
      → IsLinked (path ++ cur ∷ [])
      → IsCycle (from_first cur path ++ cur ∷ [])
  unfolding mem_text
  closed-IsCycle cur [] m h = ground arith
  closed-IsCycle cur (t ∷ ts) m h = elim (Bool-cases (text_eq t cur)) [
    | inl same ↦
        rw (from_first, same)
          (cur, ts, ap (λ x. x ∷ ts ++ cur ∷ []) ((text_eq_iff t cur).0 same), h)
    | inr other ↦
        rw (from_first, other)
          (closed-IsCycle cur ts (rw (other, mem_text) at m) (IsLinked-tail t (ts ++ cur ∷ []) h))
  ]

  module _ (ordered : List Stage) (stalled : All (λ s. ready s ordered ≡ false) stages)
      (known : All (λ s. All (λ dep. mem_text dep (names stages) ≡ true) s.depends_on) stages) where
    abbrev IsWaiting : Text → Type 0
    IsWaiting t = (mem_text t (names stages) ≡ true) × (mem_text t (names ordered) ≡ false)

    unmet :
        (deps : List Text) (cur : Text)
        → all_emitted deps ordered ≡ false
        → All (λ dep. mem_text dep (names stages) ≡ true) deps
        → IsWaiting (first_unmet deps ordered cur)
          × (mem_text (first_unmet deps ordered cur) deps ≡ true)
    unfolding all_emitted mem_text
    unmet [] cur h k = ground arith
    unmet (d ∷ deps) cur h k = elim (Bool-cases (mem_text d (names ordered))) [
      | inl met ↦
          let (w, m) = unmet deps cur (ground arith) k.1 in
          ((ground arith, ground arith), ground arith)
      | inr waiting ↦ ((ground arith, ground arith), ground (arith, text_eq_refl d))
    ]

    found-stage :
        (ss : List Stage) (cur : Text)
        → mem_text cur (names ss) ≡ true
        → (s : Stage) × (stage_at cur ss ≡ some s) × Among s ss × (s.name ≡ cur)
    unfolding mem_text
    found-stage [] cur h = ground arith
    found-stage (s ∷ ss) cur h = elim (Bool-cases (text_eq s.name cur)) [
      | inl same ↦ (s, rw (stage_at, same) refl, inl refl, (text_eq_iff s.name cur).0 same)
      | inr other ↦
          let (r, at, m, n) = found-stage ss cur (ground arith) in
          (r, rw (stage_at, other) at, inr m, n)
    ]

    blocked :
        (s : Stage)
        → ready s ordered ≡ false
        → mem_text s.name (names ordered) ≡ false
        → all_emitted s.depends_on ordered ≡ false
    blocked s r m = ground arith

    -- The next step of the walk from a stage that waits.
    step :
        (cur : Text)
        → IsWaiting cur
        → IsWaiting (first_unmet (depends_of (stage_at cur stages)) ordered cur)
          × DependsOn cur (first_unmet (depends_of (stage_at cur stages)) ordered cur)
    step cur h =
        let (s, at, m, n) = found-stage stages cur h.0 in
        let (w, d) =
          unmet s.depends_on cur
            (blocked s (All-Among (λ x. ready x ordered ≡ false) stages s stalled m)
              (subst (λ t. mem_text t (names ordered) ≡ false) (sym n) h.1))
            (All-Among _ stages s known m) in
        rw at (w, (s, m, n, d))

    snoc-distinct :
        (path : List Text) (cur : Text)
        → AreDistinct path
        → mem_text cur path ≡ false
        → AreDistinct (path ++ cur ∷ [])
    unfolding mem_text
    snoc-distinct [] cur d h = (refl, tt)
    snoc-distinct (t ∷ ts) cur d h = (
      fresh t ts cur d.0 (ground (arith, text_eq_iff t cur, text_eq_iff cur t)),
      snoc-distinct ts cur d.1 (ground arith),
    )

    follow-IsCycle :
        (fuel : ℕ) (path : List Text) (cur : Text)
        → length stages + 1 < length path + fuel
        → AreDistinct path
        → All (λ x. mem_text x (names stages) ≡ true) path
        → IsLinked (path ++ cur ∷ [])
        → IsWaiting cur
        → IsCycle (follow fuel stages ordered path cur)
    unfolding follow
    follow-IsCycle zero path cur h d all l w =
        let few = pigeonhole path (names stages) d all in ground (arith, length-names stages)
    follow-IsCycle (suc fuel) path cur h d all l w = elim (Bool-cases (mem_text cur path)) [
      | inl closed ↦ rw (follow, closed) (closed-IsCycle cur path closed l)
      | inr new ↦
          let (w', edge) = step cur w in
          rw (follow, new)
            (follow-IsCycle fuel (path ++ cur ∷ []) _
              (ground (arith, length-append path (cur ∷ []))) (snoc-distinct path cur d new)
              (All-append _ path (cur ∷ []) all (w.0, tt)) (IsLinked-snoc path cur _ l edge) w')
    ]

stalled-pass :
    (ss ordered : List Stage)
    → length (emit_pass ss ordered) ≡ length ordered
    → All (λ s. ready s ordered ≡ false) ss
unfolding emit_pass
stalled-pass [] ordered h = tt
stalled-pass (s ∷ ss) ordered h = elim (Bool-cases (ready s ordered)) [
  | inl now ↦
      let grown = length-le-emit_pass ss (ordered ++ s ∷ []) in
      let more = length-append ordered (s ∷ []) in ground arith
  | inr later ↦ (later, stalled-pass ss ordered (rw (later, emit_pass) at h))
]

names-AreDistinct : (ss : List Stage) → IsDistinct ss → AreDistinct (names ss)
names-AreDistinct [] d = tt
names-AreDistinct (s ∷ ss) d = (d.0, names-AreDistinct ss d.1)

waits-or_emitted :
    (ss ordered : List Stage)
    → ((mem_text (first_waiting ss ordered) (names ss) ≡ true)
        × (mem_text (first_waiting ss ordered) (names ordered) ≡ false))
      ⊎ All (λ t. mem_text t (names ordered) ≡ true) (names ss)
unfolding mem_text
waits-or_emitted [] ordered = inr tt
waits-or_emitted (s ∷ ss) ordered = elim (Bool-cases (mem_text s.name (names ordered))) [
  | inr waiting ↦ inl (ground (arith, text_eq_refl s.name), ground arith)
  | inl emitted ↦ elim (waits-or_emitted ss ordered) [
    | inl (m, w) ↦ inl (ground arith, ground arith)
    | inr all ↦ inr (emitted, all)
  ]
]

cycle_injective :
    (a b : List Text) (x : Result (List Stage))
    → x ≡ err (cycle_error a)
    → x ≡ err (cycle_error b)
    → a ≡ b
cycle_injective a b x h k = cc

topo_loop-IsCycle :
    (fuel : ℕ) (stages ordered : List Stage) (path : List Text)
    → IsDistinct stages
    → All (λ s. All (λ dep. mem_text dep (names stages) ≡ true) s.depends_on) stages
    → topo_loop fuel stages ordered ≡ err (cycle_error path)
    → IsCycle stages path
unfolding topo_loop find_cycle
topo_loop-IsCycle zero stages ordered path d known h = ground arith
topo_loop-IsCycle (suc fuel) stages ordered path d known h =
    elim (Bool-cases (leb (length stages) (length ordered))) [
      | inl done ↦ ground arith
      | inr more ↦ elim (Bool-cases (length (emit_pass stages ordered) == length ordered)) [
        | inr progress ↦
            topo_loop-IsCycle fuel stages (emit_pass stages ordered) path d known
              (rw (more, progress, topo_loop) at h)
        | inl same ↦
            let stalled = stalled-pass stages ordered (ground arith) in
            let reported =
              cycle_injective (find_cycle stages ordered) path
                (err (cycle_error (find_cycle stages ordered))) refl
                (rw (more, same, topo_loop) at h) in
            elim (waits-or_emitted stages ordered) [
              | inr all ↦
                  let few =
                    pigeonhole (names stages) (names ordered) (names-AreDistinct stages d) all in
                  ground (arith, length-names stages, length-names ordered)
              | inl waiting ↦ subst (IsCycle stages) reported (
                  follow-IsCycle stages ordered stalled known (length stages + 2) []
                    (first_waiting stages ordered) (omega arith) tt tt tt waiting)
            ]
      ]
    ]

-- Let the names be distinct and let every dependency name a stage. Where topoSort fails with a
-- cycle, the path that it reports begins and ends with the same name and each name on it but the
-- last is that of a stage that depends on the next.
pub topo_sort-IsCycle :
    (stages : List Stage) (path : List Text)
    → IsDistinct stages
    → All (λ s. All (λ dep. mem_text dep (names stages) ≡ true) s.depends_on) stages
    → topo_sort stages ≡ err (cycle_error path)
    → IsCycle stages path
unfolding topo_sort
topo_sort-IsCycle stages path d known h =
    topo_loop-IsCycle (length stages + 1) stages [] path d known h
