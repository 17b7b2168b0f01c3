-- ===== src/Common/Dict.antt =====
-- A `Map` with texts as keys, in the order of first insertion.
use Prim.Native.String.{String}
use mathlib.Core.Path.{◌≡◌, refl}
use mathlib.Core.List.{List, [], ◌∷◌}
use mathlib.Core.Option.{Option, none, some}
use native.Mathlib.Omega.{arith}
use text.Mathlib.Text.{◌==◌}
use text.Mathlib.TextEquality.{eq_iff}
use pvpentech_core.Common.Tests.{if◌then◌else◌}

-- `Map<string, Content>`
abbrev Dict {ℓ} : Type ℓ → Type ℓ
Dict Content = List (String × Content)

module _ {ℓ} {Content : Type ℓ} where
  -- `map.delete(name)`
  unfoldable pub remove : (name : String) → Dict Content → Dict Content
  remove name [] = []
  remove name (entry ∷ entries) =
      let others = remove name entries in if entry.0 == name then others else entry ∷ others

  -- `map.set(name, content)`, which keeps the place of a name that is there.
  unfoldable pub insert : (name : String) (content : Content) → Dict Content → Dict Content
  insert name content [] = (name, content) ∷ []
  insert name content (entry ∷ entries) =
      if entry.0 == name then (name, content) ∷ entries else entry ∷ insert name content entries

  -- `map.get(name)`
  unfoldable pub lookup : (name : String) → Dict Content → Option Content
  lookup name [] = none
  lookup name (entry ∷ entries) = if entry.0 == name then some entry.1 else lookup name entries

  pub lookup-remove :
      (gone name : String) (dict : Dict Content)
      → lookup name (remove gone dict) ≡ (if gone == name then none else lookup name dict)
  unfolding remove lookup
  lookup-remove gone name [] = ground arith
  lookup-remove gone name (entry ∷ entries) =
      let earlier = lookup-remove gone name entries in
      ground (earlier, eq_iff entry.0 gone, eq_iff gone name, eq_iff entry.0 name, arith)

  pub lookup-insert :
      (new name : String) (content : Content) (dict : Dict Content)
      → lookup name (insert new content dict)
        ≡ (if new == name then some content else lookup name dict)
  unfolding insert lookup
  lookup-insert new name content [] = refl
  lookup-insert new name content (entry ∷ entries) =
      let earlier = lookup-insert new name content entries in
      ground (earlier, eq_iff entry.0 new, eq_iff new name, eq_iff entry.0 name, arith)
