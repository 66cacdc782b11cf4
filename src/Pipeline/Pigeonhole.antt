-- ===== src/Pipeline/Pigeonhole.antt =====
-- Distinct names that all occur in a list, as the walk of findCycle has them.
use rlng.Base.{
  suc, ◌≤◌, ◌≡◌, refl, true, false, List, [], ◌∷◌, ◌++◌, arith, ⊤, length, All, ap, if◌then◌else◌,
}
use rlng.Base.Text.{Text, text_eq, text_eq_iff}
use rlng.Stage.{Stage}
use rlng.Pipeline.{mem_text, names}

-- No text twice.
abbrev pub AreDistinct : List Text → Type 0
AreDistinct [] = ⊤
AreDistinct (t ∷ ts) = (mem_text t ts ≡ false) × AreDistinct ts

remove : Text → List Text → List Text
remove t [] = []
remove t (u ∷ us) = let rest = remove t us in if text_eq u t then us else u ∷ rest

length-remove :
    (t : Text) (us : List Text) → mem_text t us ≡ true → suc (length (remove t us)) ≡ length us
unfolding remove mem_text
length-remove t [] h = ground arith
length-remove t (u ∷ us) h = ground (arith, length-remove t us)

mem-remove :
    (t x : Text) (us : List Text)
    → mem_text x us ≡ true
    → text_eq x t ≡ false
    → mem_text x (remove t us) ≡ true
unfolding remove mem_text
mem-remove t x [] h d = ground arith
mem-remove t x (u ∷ us) h d =
    ground (arith, mem-remove t x us, text_eq_iff u t, text_eq_iff u x, text_eq_iff x t)

All-remove :
    (t : Text) (ts us : List Text)
    → mem_text t ts ≡ false
    → All (λ x. mem_text x us ≡ true) ts
    → All (λ x. mem_text x (remove t us) ≡ true) ts
unfolding mem_text
All-remove t [] us h all = tt
All-remove t (x ∷ ts) us h all =
    (mem-remove t x us all.0 (ground arith), All-remove t ts us (ground arith) all.1)

-- Distinct texts that all occur in a list are no more than it holds.
pub pigeonhole :
    (ts us : List Text)
    → AreDistinct ts
    → All (λ x. mem_text x us ≡ true) ts
    → length ts ≤ length us
pigeonhole [] us d all = omega arith
pigeonhole (t ∷ ts) us d all =
    let few = pigeonhole ts (remove t us) d.1 (All-remove t ts us d.0 all.1) in
    let same = length-remove t us all.0 in omega arith

pub fresh :
    (t : Text) (ts : List Text) (cur : Text)
    → mem_text t ts ≡ false
    → text_eq cur t ≡ false
    → mem_text t (ts ++ cur ∷ []) ≡ false
unfolding mem_text
fresh t [] cur h d = ground arith
fresh t (u ∷ ts) cur h d = ground (arith, fresh t ts cur)

pub length-names : (ss : List Stage) → length (names ss) ≡ length ss
length-names [] = refl
length-names (s ∷ ss) = ap suc (length-names ss)
