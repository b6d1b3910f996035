-- ===== src/Settings.antt =====
-- backend/app: the tunables of the settings (services/settings_service.py), behind a cache of the
-- process, the address of an endpoint (core/network.py), and the calls of the embedding model
-- (services/embedding_service.py). A tunable is a name with a value.
pub mod Embedding
mod Tests
use Prim.Native.Char.{code}
use Prim.Native.String.{[], ◌∷◌, count, ◌++◌ as text_append}
use meetings.Prelude.{
  ℕ, suc, ◌≡◌, refl, sym, String, ◌==◌, Bool, true, false, not, ◌||◌, Option, none, some, List,
  filter, map, all, elem, if◌then◌else◌, ltb, nat_eq, arith, ap, ◌∙◌,
}
use meetings.Prelude.Order.{sorted}
use meetings.Dict.{Dict, get, put, has_key, string_eq}
use meetings.Text.{strip, contains, join}
use meetings.Text.Replace.{rstrip_slash}

abbrev pub Tunables : Type 0
Tunables = Dict String String

-- The module's state, and the row of the database, if it was created.
pub record SettingsState : Type 0 where
  pub row : Option Tunables
  pub cache : Option Tunables
  pub version : ℕ

-- invalidate_cache
unfoldable pub invalidate_cache : SettingsState → SettingsState
invalidate_cache s = record s { cache = none; version = suc s.version }

abbrev or_defaults : Tunables → Option Tunables → Tunables
or_defaults defaults none = defaults
or_defaults defaults (some row) = row

-- `is_attribute` is whether SystemSettings, a class of the ORM, has an attribute of a name.
module _ (defaults : Tunables) (is_attribute : String → Bool) where
  load_cached : Option Tunables → SettingsState → Tunables × SettingsState
  load_cached (some tunables) s = (tunables, s)
  load_cached none s = (
    or_defaults defaults s.row,
    record s { row = some (or_defaults defaults s.row); cache = some (or_defaults defaults s.row) },
  )

  -- _load_tunables
  unfoldable pub load_tunables : SettingsState → Tunables × SettingsState
  unfolding load_cached
  load_tunables s = load_cached s.cache s

  set_all : Tunables → Tunables → Tunables
  unfolding put
  set_all List.[] row = row
  set_all (List.◌∷◌ (k, v) changes) row = set_all changes (put k v row)

  abbrev is_refused_name : String × String → Bool
  is_refused_name change = not (is_attribute change.0)

  -- update_tunables: the names that are refused, or the new row
  apply_changes :
      List (String × String) → Tunables → SettingsState → Option (List String) × SettingsState
  unfolding set_all invalidate_cache sorted
  apply_changes List.[] changes s = (
    none,
    invalidate_cache (record s { row = some (set_all changes (or_defaults defaults s.row)) }),
  )
  apply_changes (List.◌∷◌ k ks) changes s = (some (sorted (map (λ c. c.0) (List.◌∷◌ k ks))), s)

  unfoldable pub update_tunables : Tunables → SettingsState → Option (List String) × SettingsState
  unfolding apply_changes
  update_tunables changes s = apply_changes (filter is_refused_name changes) changes s

  -- What the process does with its settings.
  pub data SettingsAccess : Type 0 where
    reads : SettingsAccess
    writes : Tunables → SettingsAccess

  unfoldable pub access : SettingsAccess → SettingsState → SettingsState
  unfolding load_tunables update_tunables
  access reads s = (load_tunables s).1
  access (writes changes) s = (update_tunables changes s).1

  unfoldable pub access_all : List SettingsAccess → SettingsState → SettingsState
  unfolding access
  access_all List.[] s = s
  access_all (List.◌∷◌ a actions) s = access_all actions (access a s)

  -- The cache, if it is filled, holds the row.
  pub IsCoherent : SettingsState → Type 0
  IsCoherent s = (t : Tunables) → s.cache ≡ some t → s.row ≡ some t

  load-IsCoherent :
      (o : Option Tunables) (s : SettingsState)
      → s.cache ≡ o
      → IsCoherent s
      → IsCoherent (load_cached o s).1
  unfolding load_cached IsCoherent
  load-IsCoherent (some t) s e h = h
  load-IsCoherent none s e h = λ t k. k

  update-IsCoherent :
      (unknown : List (String × String)) (changes : Tunables) (s : SettingsState)
      → IsCoherent s
      → IsCoherent (apply_changes unknown changes s).1
  unfolding apply_changes invalidate_cache IsCoherent
  update-IsCoherent List.[] changes s h = λ t k. absurd (cc)
  update-IsCoherent (List.◌∷◌ u us) changes s h = h

  access_all-IsCoherent :
      (actions : List SettingsAccess) (s : SettingsState)
      → IsCoherent s
      → IsCoherent (access_all actions s)
  unfolding access_all access load_tunables update_tunables
  access_all-IsCoherent List.[] s h = h
  access_all-IsCoherent (List.◌∷◌ reads actions) s h =
      access_all-IsCoherent actions _ (load-IsCoherent s.cache s refl h)
  access_all-IsCoherent (List.◌∷◌ (writes changes) actions) s h =
      access_all-IsCoherent actions _
        (update-IsCoherent (filter is_refused_name changes) changes s h)

  load_row :
      (o : Option Tunables) (s : SettingsState)
      → s.cache ≡ o
      → IsCoherent s
      → (load_cached o s).0 ≡ or_defaults defaults s.row
  unfolding load_cached IsCoherent
  load_row (some t) s e h = sym (ap (or_defaults defaults) (h t e))
  load_row none s e h = refl

  -- In one process whose cache holds the row, after any reads and writes of the settings, refused ones
  -- among them: what a read gives is the row of the database, or the defaults before there is one.
  pub access_all-load_tunables :
      (actions : List SettingsAccess) (s : SettingsState)
      → IsCoherent s
      → (load_tunables (access_all actions s)).0 ≡ or_defaults defaults (access_all actions s).row
  unfolding load_tunables
  access_all-load_tunables actions s h =
      load_row (access_all actions s).cache (access_all actions s) refl
        (access_all-IsCoherent actions s h)

-- s.endswith(suffix)
unfoldable pub ends_with : String → String → Bool
ends_with suffix [] = suffix == ""
ends_with suffix (c ∷ s) = c ∷ s == suffix || ends_with suffix s

-- s.count("/")
unfoldable pub slashes : String → ℕ
slashes [] = 0
slashes (c ∷ s) = let rest = slashes s in if nat_eq (code c) 47 then suc rest else rest

-- normalize_v1_endpoint
unfoldable pub normalize_v1_endpoint : (String → String) → String → String
unfolding strip rstrip_slash ends_with contains slashes
normalize_v1_endpoint lower endpoint =
    let e = rstrip_slash (strip endpoint) in
    if ends_with "/v1" (lower e) || contains "/v1/" (lower e)
    then e
    else if ltb (slashes e) 3
    then text_append e "/v1"
    else e
