-- ===== src/Common/Lookup.antt =====
-- Entries of an association list by position.
use Prim.Native.Nat.{ℕ, zero, suc}
use mathlib.Core.Path.{◌≡◌}
use mathlib.Core.List.{[], ◌∷◌}
use mathlib.Core.Option.{some}
use native.Mathlib.Omega.{arith}
use secu_msg_server.Common.Tests.{Eq, ◌==◌, if◌then◌else◌, ==_refl}
use secu_msg_server.Common.Lists.{get_elem?}
use secu_msg_server.Common.Maps.{Map, lookup}

-- The key at a position is a key of the map.
pub lookup_of_get_elem? {ℓ κ} :
    {K : Type ℓ} {V : Type κ} ⦃e : Eq K⦄ (k : K) (v : V) (m : Map K V) (i : ℕ)
    → get_elem? m i ≡ some (k, v)
    → (w : V) × (lookup k m ≡ some w)
lookup_of_get_elem? k v [] i h = absurd (ground arith)
lookup_of_get_elem? k v ((j, w) ∷ m) zero h = (w, ground (arith, ==_refl j))
lookup_of_get_elem? k v ((j, w) ∷ m) (suc i) h =
    let (u, found) = lookup_of_get_elem? k v m i h in (if j == k then w else u, ground arith)
