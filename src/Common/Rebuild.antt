-- ===== src/Common/Rebuild.antt =====
-- Copying a Go map entry by entry into another one, as `for k, v := range m { out[k] = f(v) }` does.
use mathlib.Core.Path.{◌≡◌, refl, ap, sym, ◌∙◌}
use mathlib.Core.List.{[], ◌∷◌, ◌++◌, append-nil, append_assoc}
use mathlib.Core.Option.{none}
use native.Mathlib.Omega.{arith}
use secu_msg_server.Common.Tests.{Eq}
use secu_msg_server.Common.Maps.{Map, lookup, insert, IsDistinct, insert_new, lookup-insert_ne}

module _ {ℓ κ μ} {K : Type ℓ} {V : Type κ} {W : Type μ} ⦃e : Eq K⦄ (f : V → W) where
  abbrev pub copy_map : Map K V → Map K W → Map K W
  copy_map [] acc = acc
  copy_map ((k, v) ∷ m) acc = copy_map m (insert k (f v) acc)

  abbrev pub map_values : Map K V → Map K W
  map_values [] = []
  map_values ((k, v) ∷ m) = (k, f v) ∷ map_values m

  -- No key of the map is in the other.
  abbrev pub IsApart : Map K V → Map K W → Type μ
  IsApart [] acc = Unit
  IsApart ((k, v) ∷ m) acc = (lookup k acc ≡ none) × IsApart m acc

  IsApart-insert :
      (k : K) (w : W) (m : Map K V) (acc : Map K W)
      → lookup k m ≡ none
      → IsApart m acc
      → IsApart m (insert k w acc)
  IsApart-insert k w [] acc new apart = tt
  IsApart-insert k w ((j, v) ∷ m) acc new apart = (
    lookup-insert_ne k j w acc (λ same. ground (arith, e.same_iff j k)) ∙ apart.0,
    IsApart-insert k w m acc (ground (arith, e.same_iff j k)) apart.1,
  )

  -- A copy of a map with distinct keys into one that has none of them adds the entries.
  pub copy_map_lem :
      (m : Map K V) (acc : Map K W)
      → IsDistinct m
      → IsApart m acc
      → copy_map m acc ≡ acc ++ map_values m
  copy_map_lem [] acc distinct apart = sym (append-nil acc)
  copy_map_lem ((k, v) ∷ m) acc distinct apart =
      copy_map_lem m (insert k (f v) acc) distinct.1
        (IsApart-insert k (f v) m acc distinct.0 apart.1)
      ∙ ap (λ a. a ++ map_values m) (insert_new k (f v) acc apart.0)
      ∙ append_assoc acc ((k, f v) ∷ []) (map_values m)

  IsApart-nil : (m : Map K V) → IsApart m []
  IsApart-nil [] = tt
  IsApart-nil ((k, v) ∷ m) = (refl, IsApart-nil m)

  -- A copy into an empty map keeps the entries in their order.
  pub copy_map-nil : (m : Map K V) → IsDistinct m → copy_map m [] ≡ map_values m
  copy_map-nil m distinct = copy_map_lem m [] distinct (IsApart-nil m)

  pub IsDistinct-map_values : (m : Map K V) → IsDistinct m → IsDistinct (map_values m)
  IsDistinct-map_values [] d = tt
  IsDistinct-map_values ((k, v) ∷ m) d = (lookup-map_values k m d.0, IsDistinct-map_values m d.1)
    where
      lookup-map_values : (j : K) (l : Map K V) → lookup j l ≡ none → lookup j (map_values l) ≡ none
      lookup-map_values j [] h = refl
      lookup-map_values j ((i, w) ∷ l) h = ground (arith, lookup-map_values j l)
