-- ===== src/Ws/Acts.antt =====
-- The interleavings of the hub of gateway/internal/ws/hub.go.
use synapse_oms.Base.{ℕ, ◌≤◌, Bool, false, Option, none, some, List, [], ◌∷◌, leb, if◌then◌else◌}
use synapse_oms.Ws.Messages.{StreamType, PositionData, Message}
use synapse_oms.Ws.Hub.{Hub, broadcast, throttle, fire}

-- What happens to the hub: an update of a position, another broadcast, or the timer's turn, which comes at
-- any time but runs the function only when it is due.
pub data Act (B : Type 0) : Type 0 where
  update : PositionData → Act B
  other : StreamType → B → Act B
  turn : Act B

abbrev pub is_due : Option ℕ → ℕ → Bool
is_due none now = false
is_due (some due) now = leb due now

-- The last update of a run, and its time.
abbrev pub last_update :
    {B : Type 0} → Option (PositionData × ℕ) → List (Act B × ℕ) → Option (PositionData × ℕ)
last_update last [] = last
last_update last ((update pd, now) ∷ acts) = last_update (some (pd, now)) acts
last_update last ((other stream bytes, now) ∷ acts) = last_update last acts
last_update last ((turn, now) ∷ acts) = last_update last acts

-- The clock does not go back.
abbrev pub Ticks : {B : Type 0} → ℕ → List (Act B × ℕ) → Type 0
Ticks clock [] = Unit
Ticks clock ((a, now) ∷ acts) = (clock ≤ now) × Ticks now acts

abbrev pub last_time : {B : Type 0} → ℕ → List (Act B × ℕ) → ℕ
last_time clock [] = clock
last_time clock ((a, now) ∷ acts) = last_time now acts

module _ {B F : Type 0} (marshal : Message F → Option B) where
  unfoldable pub act : Act B → ℕ → Hub B → Hub B
  unfolding throttle broadcast fire
  act (update pd) now h = throttle marshal pd now h
  act (other stream bytes) now h = broadcast stream bytes h
  act turn now h = if is_due h.pos_timer now then fire marshal now h else h

  unfoldable pub run : List (Act B × ℕ) → Hub B → Hub B
  unfolding act
  run [] h = h
  run ((a, now) ∷ acts) h = run acts (act a now h)
