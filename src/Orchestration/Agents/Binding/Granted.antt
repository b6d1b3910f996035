-- ===== src/Orchestration/Agents/Binding/Granted.antt =====
-- A role's tools, from its request to the tools that its sandbox builds.
use meetings.Prelude.{
  String, ◌≡◌, refl, ◌∙◌, Bool, true, false, ◌||◌, eq_iff, List, [], ◌∷◌, elem, subset, all, All,
  arith, elem-subset,
}
use meetings.Prelude.Order.{sorted, elem-sorted}
use meetings.Profiles.{Profile, ok, profiles, wanted_tools, resolve, covers}
use meetings.Profiles.Covering.{FirstCovering, here, later, resolve-FirstCovering}
use meetings.Runtime.Capabilities.{resolve_grant, resolve_grant-elem}
use meetings.Runtime.Prompt.{build_tools, build_tools-elem, single_tools, artifact_tools}
use meetings.Orchestration.Agents.Binding.{
  RoleAgent, ProcessSettings, ModelSettings, bind_request, bound_persona, persona_scopes,
  persona_from_role,
}
use meetings.Runtime.Tools.Retrieval.{search_scopes}

abbrev built_here : String → Bool
built_here t = elem t single_tools || elem t artifact_tools

-- Every tool of a profile is one that a sandbox can build.
profiles-built : All (λ p. all built_here p.tools ≡ true) profiles
profiles-built = (refl, (refl, (refl, (refl, (refl, (refl, tt))))))

all-elem :
    (p : String → Bool) (t : String) (xs : List String)
    → all p xs ≡ true
    → elem t xs ≡ true
    → p t ≡ true
all-elem p t [] a m = absurd (cc)
all-elem p t (x ∷ xs) a m = ground (arith, a, m, all-elem p t xs, eq_iff t x)

covering-built :
    (w : List String) (p : Profile) (qs : List Profile)
    → FirstCovering w p qs
    → All (λ q. all built_here q.tools ≡ true) qs
    → all built_here p.tools ≡ true
covering-built w p [] f a = elim f [ ]
covering-built w p (q ∷ qs) (here e c) a = rw e a.0
covering-built w p (q ∷ qs) (later n f) a = covering-built w p qs f a.1

covering-covers :
    (w : List String) (p : Profile) (qs : List Profile) → FirstCovering w p qs → covers w p ≡ true
covering-covers w p [] f = elim f [ ]
covering-covers w p (q ∷ qs) (here e c) = c
covering-covers w p (q ∷ qs) (later n f) = covering-covers w p qs f

-- What is granted, in a sandbox that allows it all.
granted_elem :
    (allowed tools : List String) (t : String)
    → subset tools allowed ≡ true
    → (elem t (resolve_grant allowed (sorted tools)).0 ≡ elem t tools)
      × (elem t (resolve_grant allowed (sorted tools)).1 ≡ false)
granted_elem allowed tools t s =
    let r = resolve_grant-elem allowed (sorted tools) t in
    let m = elem-sorted t tools in
    (
      ground (arith, r.0, m, elem-subset t tools allowed s),
      ground (arith, r.1, m, elem-subset t tools allowed s),
    )

module _ {F : Type 0} (default_agent_prompt : String) (p : ProcessSettings) (m : ModelSettings F)
    (agent_id meeting_id : String) (r : RoleAgent) where
  -- A role that resolves to a profile, in a sandbox whose capability file allows the profile's tools:
  -- no tool is refused, the tools that the sandbox builds are exactly the profile's, and every tool
  -- that the role asks for is among them.
  pub bound_persona-build_tools :
      (profile : Profile) (allowed : List String) (t : String)
      → resolve r.role.default_tools ≡ ok profile
      → subset profile.tools allowed ≡ true
      → let bound =
          bound_persona allowed
            (bind_request default_agent_prompt p m agent_id meeting_id r profile) in
        (elem t bound.1 ≡ false)
        × (elem t (build_tools bound.0.active_tools) ≡ elem t profile.tools)
        × (elem t (wanted_tools r.role.default_tools) ≡ true
            → elem t (build_tools bound.0.active_tools) ≡ true)
  unfolding bound_persona bind_request
  bound_persona-build_tools profile allowed t e s =
      let f = resolve-FirstCovering r.role.default_tools profile e in
      let g = granted_elem allowed profile.tools t s in
      let active = (resolve_grant allowed (sorted profile.tools)).0 in
      let same : elem t (build_tools active) ≡ elem t profile.tools = ground (
        arith,
        build_tools-elem active t,
        g.0,
        all-elem built_here t profile.tools
            (covering-built (wanted_tools r.role.default_tools) profile profiles f profiles-built),
      ) in
      (
        g.1,
        same,
        λ w.
            same
            ∙ elem-subset t (wanted_tools r.role.default_tools) profile.tools
                (covering-covers (wanted_tools r.role.default_tools) profile profiles f) w,
      )

  -- A role without access to the shared library: its persona's document search never asks for the
  -- company's documents, whatever the tool's own switches are.
  pub bind_request-persona_scopes :
      (profile : Profile) (company private : Bool)
      → r.allowed_shared_library_access ≡ false
      → elem "company" (
          persona_scopes company private
            (bind_request default_agent_prompt p m agent_id meeting_id r profile))
        ≡ false
  unfolding persona_scopes bind_request persona_from_role search_scopes
  bind_request-persona_scopes profile company private n = ground (arith, n)
