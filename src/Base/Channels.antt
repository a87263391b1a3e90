-- ===== src/Base/Channels.antt =====
-- A Go channel with a buffer, as the values that wait in it, oldest first. A send that gives up when
-- the buffer is full is `select` with a default branch.
use Prim.Native.Nat.{ℕ, ◌+◌, ◌≤◌}
use mathlib.Core.Path.{◌≡◌}
use mathlib.Core.List.{List, [], ◌∷◌, ◌++◌}
use native.Mathlib.Omega.{arith}
use synapse_oms.Base.Tests.{ltb, if◌then◌else◌}
use synapse_oms.Base.Lists.{length}

pub record Channel {ℓ} (A : Type ℓ) : Type ℓ where
  pub capacity : ℕ
  pub queue : List A

module _ {ℓ} {A : Type ℓ} where
  unfoldable pub offer : A → Channel A → Channel A
  offer a c =
      if ltb (length c.queue) c.capacity then record c { queue = c.queue ++ (a ∷ []) } else c

  pub offer-room :
      (a : A) (c : Channel A)
      → length c.queue + 1 ≤ c.capacity
      → offer a c ≡ record c { queue = c.queue ++ (a ∷ []) }
  unfolding offer
  offer-room a c h = ground arith
