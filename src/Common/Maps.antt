-- ===== src/Common/Maps.antt =====
-- Maps from byte strings as association lists (QHash, QMap).
use mathlib.Core.Path.{◌≡◌, refl}
use mathlib.Core.List.{List, [], ◌∷◌}
use mathlib.Core.Option.{Option, none, some}
use native.Mathlib.Omega.{arith}
use mailove.Common.Tests.{if◌then◌else◌}
use mailove.Common.Octets.{Bytes, equal, equal_iff}

module _ {ℓ} {V : Type ℓ} where
  unfoldable pub lookup : Bytes → List (Bytes × V) → Option V
  lookup key [] = none
  lookup key ((name, value) ∷ rest) = if equal name key then some value else lookup key rest

  unfoldable pub insert : Bytes → V → List (Bytes × V) → List (Bytes × V)
  insert key new [] = (key, new) ∷ []
  insert key new ((name, value) ∷ rest) =
      let others = insert key new rest in
      if equal name key then (name, new) ∷ rest else (name, value) ∷ others

  -- remove(key)
  unfoldable pub erase : Bytes → List (Bytes × V) → List (Bytes × V)
  erase key [] = []
  erase key ((name, value) ∷ rest) =
      let others = erase key rest in if equal name key then others else (name, value) ∷ others

  pub lookup-insert :
      (key asked : Bytes) (new : V) (entries : List (Bytes × V))
      → lookup asked (insert key new entries)
        ≡ (if equal key asked then some new else lookup asked entries)
  unfolding lookup insert
  lookup-insert key asked new [] = refl
  lookup-insert key asked new ((name, value) ∷ rest) = ground (
    arith,
    lookup-insert key asked new rest,
    equal_iff name asked,
    equal_iff name key,
    equal_iff key asked,
  )

  pub lookup-insert_self :
      (key : Bytes) (new : V) (entries : List (Bytes × V))
      → lookup key (insert key new entries) ≡ some new
  lookup-insert_self key new entries =
      ground (arith, lookup-insert key key new entries, equal_iff key key)

  pub lookup-erase_self :
      (key : Bytes) (entries : List (Bytes × V)) → lookup key (erase key entries) ≡ none
  unfolding lookup erase
  lookup-erase_self key [] = refl
  lookup-erase_self key ((name, value) ∷ rest) = ground (arith, lookup-erase_self key rest)

  pub lookup-erase :
      (key asked : Bytes) (entries : List (Bytes × V))
      → lookup asked (erase key entries) ≡ (if equal key asked then none else lookup asked entries)
  unfolding lookup erase
  lookup-erase key asked [] = ground (arith)
  lookup-erase key asked ((name, value) ∷ rest) = ground (
    arith,
    lookup-erase key asked rest,
    equal_iff name asked,
    equal_iff name key,
    equal_iff key asked,
  )
