-- ===== src/Scope/Frame.antt =====
-- A stage that writes under its own name leaves the rest of the scope alone: a rule for actions.
use rlng.Base.{
  ◌≡◌, ◌≢◌, refl, ◌∙◌, Bool, true, false, List, [], ◌∷◌, arith, ◌==◌, if◌then◌else◌, Bool-cases,
  inl, inr,
}
use rlng.Base.Text.{Text, text_eq_iff}
use rlng.Value.{Value}
use rlng.Error.{Result, ok, err}
use rlng.Scope.{Derivation, FiringRule, RulesetIdentity, Scope}
use rlng.Scope.Path.{split_dots, qualify}
use rlng.Scope.Action.{
  Action, and_then, ◌>>=◌, set, get, derive, derive_or_set, record_firings, record_firing,
  record_derivation, modify,
}
use rlng.Scope.Segments.{diverge}
use rlng.Scope.Roundtrip.{get-set_ne}

-- The part of a path before its first dot.
unfoldable pub head_segment : Text → Text
head_segment [] = []
head_segment (c ∷ s) = let rest = head_segment s in if c == b'.' then [] else c ∷ rest

pub split_dots-head : (s : Text) → (ks : List Text) × (split_dots s ≡ head_segment s ∷ ks)
unfolding split_dots head_segment
split_dots-head [] = ([], refl)
split_dots-head (c ∷ s) =
    let (ks, e) = split_dots-head s in
    elim (Bool-cases (c == b'.')) [
      | inl dot ↦ (split_dots s, rw dot)
      | inr plain ↦ (ks, rw (plain, e))
    ]

head_segment-qualify : (name key : Text) → head_segment (qualify name key) ≡ head_segment name
unfolding head_segment qualify
head_segment-qualify [] key = refl
head_segment-qualify (c ∷ name) key = ground (arith, head_segment-qualify name key)

pub diverge_of_heads :
    (p q : Text) → head_segment p ≢ head_segment q → diverge (split_dots p) (split_dots q) ≡ true
diverge_of_heads p q h =
    let (ks, e) = split_dots-head p in
    let (js, f) = split_dots-head q in
    rw (e, f) (ground (arith, text_eq_iff (head_segment p) (head_segment q)))

-- The action does not change what `g` observes of the scope.
abbrev pub Unchanged : {A X : Type 0} → (Scope → X) → Action A → Type 0
Unchanged g m = (s : Scope) → g (m s).1 ≡ g s

-- The action does not change what is read at `q`.
abbrev pub Keeps : {A : Type 0} → Text → Action A → Type 0
Keeps q m = Unchanged (get q) m

module _ {X : Type 0} (g : Scope → X) where
  pub and_then-Unchanged :
      {A B : Type 0} (r : Result A) (f : A → Action B)
      → ((a : A) → Unchanged g (f a))
      → Unchanged g (and_then r f)
  and_then-Unchanged (ok a) f h s = h a s
  and_then-Unchanged (err e) f h s = refl

  pub >>=-Unchanged :
      {A B : Type 0} (m : Action A) (f : A → Action B)
      → Unchanged g m
      → ((a : A) → Unchanged g (f a))
      → Unchanged g (m >>= f)
  >>=-Unchanged m f h k s = and_then-Unchanged (m s).0 f k (m s).1 ∙ h s

  pub if-Unchanged :
      {A : Type 0} (b : Bool) (m n : Action A)
      → Unchanged g m
      → Unchanged g n
      → Unchanged g (if b then m else n)
  if-Unchanged true m n h k = h
  if-Unchanged false m n h k = k

  -- Writes under a name, and firings recorded for it, do not show in `g`.
  abbrev pub IsBlind : Text → Type 0
  IsBlind name =
      ((key : Text) (v : Value) (d : Derivation)
        → Unchanged g (derive_or_set (qualify name key) v d))
      × ((rules : List FiringRule) (s : Scope) → g (record_firings name rules s) ≡ g s)

  pub record_firing-Unchanged :
      (name id message : Text) (d : Bool) (s : Scope)
      → IsBlind name
      → g (record_firing name id message d s) ≡ g s
  unfolding record_firing
  record_firing-Unchanged name id message d s blind = blind.1 _ s

module _ (q : Text) where
  pub record_firings-Keeps :
      (stage : Text) (rules : _) (s : Scope) → get q (record_firings stage rules s) ≡ get q s
  unfolding record_firings get
  record_firings-Keeps stage rules s = refl

  path_set-Keeps :
      (p : Text) (v : Value) → diverge (split_dots p) (split_dots q) ≡ true → Keeps q (set p v)
  path_set-Keeps p v apart s = get-set_ne p q v s apart

  record_derivation-Keeps :
      (path : Text) (v : Value) (d : Derivation) (s : Scope)
      → get q (record_derivation path v d s) ≡ get q s
  unfolding get
  record_derivation-Keeps path v d s = ground arith

  -- A write that records its provenance changes nothing at a path that diverges from its own.
  pub output-Keeps :
      (p : Text) (v : Value) (d : Derivation)
      → diverge (split_dots p) (split_dots q) ≡ true
      → Keeps q (derive_or_set p v d)
  unfolding derive_or_set derive
  output-Keeps p v d apart s = ground (
    arith,
    path_set-Keeps p v apart s,
    >>=-Unchanged (get q) (set p v) (λ _. modify (record_derivation p v d))
        (path_set-Keeps p v apart) (λ _ s'. record_derivation-Keeps p v d s') s,
  )

  module _ (name : Text) (apart : head_segment name ≢ head_segment q) where
    diverge-qualify : (key : Text) → diverge (split_dots (qualify name key)) (split_dots q) ≡ true
    diverge-qualify key =
        diverge_of_heads (qualify name key) q (rw (head_segment-qualify name key) apart)

    pub set-Keeps : (key : Text) (v : Value) → Keeps q (set (qualify name key) v)
    set-Keeps key v = path_set-Keeps (qualify name key) v (diverge-qualify key)

    pub derive_or_set-Keeps :
        (key : Text) (v : Value) (d : Derivation) → Keeps q (derive_or_set (qualify name key) v d)
    derive_or_set-Keeps key v d = output-Keeps (qualify name key) v d (diverge-qualify key)

    -- What is read at `q` is blind to a name whose first segment differs from that of `q`.
    pub get-IsBlind : IsBlind (get q) name
    get-IsBlind = (derive_or_set-Keeps, λ rules s. record_firings-Keeps name rules s)

-- What a Scope is set to but for its data and its records.
abbrev pub settings : Scope → Bool × Bool × RulesetIdentity × Bool × List Text
settings s = (s.strict, s.provenance, s.identity, s.concurrent, s.stage_order)

pub set-settings : (p : Text) (v : Value) → Unchanged settings (set p v)
unfolding set
set-settings p v s = ground arith

pub output-settings :
    (p : Text) (v : Value) (d : Derivation) → Unchanged settings (derive_or_set p v d)
unfolding derive_or_set derive set
output-settings p v d s = ground arith

pub settings-IsBlind : (name : Text) → IsBlind settings name
unfolding record_firings
settings-IsBlind name = ((λ key v d. output-settings (qualify name key) v d), λ rules s. refl)
