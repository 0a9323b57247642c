-- ===== src/Base/Dict.antt =====
-- Go's `map[string]V` as an association list. Iteration order is the list's, and no theorem
-- depends on it.
use mathlib.Core.List.{List, [], ◌∷◌}
use mathlib.Core.Path.{◌≡◌, refl}
use mathlib.Core.Option.{Option, none, some}
use Prim.Native.String.{String}
use native.Mathlib.Omega.{arith}
use text.Mathlib.Text.{◌==◌}
use text.Mathlib.TextEquality.{eq_iff}
use ratchet_cli.Base.Tests.{if◌then◌else◌}

abbrev pub Dict {ℓ} : Type ℓ → Type ℓ
Dict V = List (String × V)

module _ {ℓ} {V : Type ℓ} where
  -- `delete(m, key)`
  unfoldable pub remove : String → Dict V → Dict V
  remove key [] = []
  remove key ((k, v) ∷ rest) =
      let rest' = remove key rest in if k == key then rest' else (k, v) ∷ rest'

  -- `for k, v := range m { m[k] = f(k, v) }`
  unfoldable pub map_entries : (String → V → V) → Dict V → Dict V
  map_entries f [] = []
  map_entries f ((k, v) ∷ rest) = (k, f k v) ∷ map_entries f rest

  -- `v, ok := m[key]`
  unfoldable pub lookup : String → Dict V → Option V
  lookup key [] = none
  lookup key ((k, v) ∷ rest) = if k == key then some v else lookup key rest

  abbrev pub apply_at : (V → V) → Option V → Option V
  apply_at f none = none
  apply_at f (some v) = some (f v)

  pub lookup-map_entries :
      (f : String → V → V) (key : String) (m : Dict V)
      → lookup key (map_entries f m) ≡ apply_at (f key) (lookup key m)
  unfolding lookup map_entries
  lookup-map_entries f key [] = refl
  lookup-map_entries f key ((k, v) ∷ rest) =
      ground (arith, lookup-map_entries f key rest, eq_iff k key)

  pub lookup-remove :
      (key asked : String) (m : Dict V)
      → lookup asked (remove key m) ≡ (if key == asked then none else lookup asked m)
  unfolding lookup remove
  lookup-remove key asked [] = ground arith
  lookup-remove key asked ((k, v) ∷ rest) =
      ground (arith, lookup-remove key asked rest, eq_iff key asked, eq_iff k key, eq_iff k asked)

  -- `m[key] = new`
  unfoldable pub insert : String → V → Dict V → Dict V
  insert key new [] = (key, new) ∷ []
  insert key new ((k, v) ∷ rest) =
      if k == key then (k, new) ∷ rest else (k, v) ∷ insert key new rest

  pub lookup-insert :
      (key asked : String) (new : V) (m : Dict V)
      → lookup asked (insert key new m) ≡ (if key == asked then some new else lookup asked m)
  unfolding lookup insert
  lookup-insert key asked new [] = refl
  lookup-insert key asked new ((k, v) ∷ rest) =
      ground
        (arith, lookup-insert key asked new rest, eq_iff key asked, eq_iff k key, eq_iff k asked)
