-- ===== src/Profiles/Resolution.antt =====
-- What `resolve` of profiles.py grants: no more than the request needs.
use meetings.Prelude.{
  String, ◌≡◌, refl, Bool, true, false, eq_iff, Option, List, [], ◌∷◌, ◌++◌, elem, subset, All,
  arith, elem-subset, elem-append, Bool-cases, length, ◌≤◌, inl, inr, sym, ◌∙◌, ap,
}
use meetings.Profiles.{
  Profile, ok, profiles, baseline, counsel, strategist, chief, analyst, quant, covers, wanted_tools,
  resolve, run_python_analysis,
}
use meetings.Profiles.Covering.{FirstCovering, here, later, resolve-FirstCovering}

subset_without :
    (x : String) (w ts : List String)
    → elem x w ≡ false
    → subset w (ts ++ x ∷ []) ≡ true
    → subset w ts ≡ true
subset_without x [] ts n s = refl
subset_without x (y ∷ w) ts n s =
    ground (arith, elem-append y ts (x ∷ []), eq_iff x y, eq_iff y x, subset_without x w ts)

abbrev executes : List String → Bool
executes w = elem run_python_analysis w

-- At a profile without the interpreter.
plain :
    (w : List String) (p q : Profile)
    → p ≡ q
    → covers w p ≡ true
    → executes q.tools ≡ false
    → q.can_execute_code ≡ false
    → p.can_execute_code ≡ executes w
plain w p q e c n f = elim (Bool-cases (executes w)) [
  | inl y ↦ absurd (ground (arith, e, elem-subset run_python_analysis w p.tools c y))
  | inr m ↦ ground (arith, e, m)
]

-- At the quant, which follows the analyst.
interpreter :
    (w : List String) (p : Profile)
    → p ≡ quant
    → covers w p ≡ true
    → covers w analyst ≡ false
    → p.can_execute_code ≡ executes w
interpreter w p e c n = elim (Bool-cases (executes w)) [
  | inl y ↦ ground (arith, e, y)
  | inr m ↦ absurd (
      ground (
        arith,
        e,
        subset_without run_python_analysis w analyst.tools m (ap (covers w) (sym e) ∙ c),
      ))
]

executes_lem :
    (w : List String) (p : Profile) → FirstCovering w p profiles → p.can_execute_code ≡ executes w
executes_lem w p (here e c) = plain w p baseline e c refl refl
executes_lem w p (later _ (here e c)) = plain w p counsel e c refl refl
executes_lem w p (later _ (later _ (here e c))) = plain w p strategist e c refl refl
executes_lem w p (later _ (later _ (later _ (here e c)))) = plain w p analyst e c refl refl
executes_lem w p (later _ (later _ (later _ (later n (here e c))))) = interpreter w p e c n
executes_lem w p (later _ (later _ (later _ (later _ (later _ (here e c)))))) =
    plain w p chief e c refl refl
executes_lem w p (later _ (later _ (later _ (later _ (later _ (later _ f)))))) = elim f [ ]

-- The resolved profile may execute code exactly if the request names the code interpreter.
pub resolve-executes :
    (requested : Option (List String)) (p : Profile)
    → resolve requested ≡ ok p
    → p.can_execute_code ≡ elem run_python_analysis (wanted_tools requested)
resolve-executes requested p h =
    executes_lem (wanted_tools requested) p (resolve-FirstCovering requested p h)

-- The catalogue is in order of size.
abbrev Rising : List Profile → Type 0
Rising [] = Unit
Rising (p ∷ ps) = All (λ q. length p.tools ≤ length q.tools) ps × Rising ps

profiles-Rising : Rising profiles
profiles-Rising = omega arith

-- No profile of the list that covers the request has fewer tools.
abbrev pub Smallest : List String → Profile → List Profile → Type 0
Smallest w p qs = All (λ q. covers w q ≡ true → length p.tools ≤ length q.tools) qs

All-weaken :
    (w : List String) (p q : Profile) (qs : List Profile)
    → p ≡ q
    → All (λ r. length q.tools ≤ length r.tools) qs
    → Smallest w p qs
All-weaken w p q [] e a = tt
All-weaken w p q (r ∷ qs) e a = (λ _. ground (arith, e, a.0), All-weaken w p q qs e a.1)

FirstCovering-Smallest :
    (w : List String) (p : Profile) (qs : List Profile)
    → Rising qs
    → FirstCovering w p qs
    → Smallest w p qs
FirstCovering-Smallest w p [] r f = elim f [ ]
FirstCovering-Smallest w p (q ∷ qs) r (here e c) =
    (λ _. ground (arith, e), All-weaken w p q qs e r.0)
FirstCovering-Smallest w p (q ∷ qs) r (later n f) =
    (λ y. absurd (ground (arith, n, y)), FirstCovering-Smallest w p qs r.1 f)

-- Of all profiles that cover the request, the resolved one has the fewest tools.
pub resolve-Smallest :
    (requested : Option (List String)) (p : Profile)
    → resolve requested ≡ ok p
    → Smallest (wanted_tools requested) p profiles
resolve-Smallest requested p h =
    FirstCovering-Smallest (wanted_tools requested) p profiles profiles-Rising
      (resolve-FirstCovering requested p h)
