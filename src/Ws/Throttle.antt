-- ===== src/Ws/Throttle.antt =====
-- The throttle of position updates, through any interleaving of updates, other broadcasts and the timer.
use synapse_oms.Base.{
  ℕ, ◌+◌, ◌-◌, ◌≤◌, ◌≡◌, refl, sym, ap, ◌∙◌, subst, true, Option, none, some, List, [], ◌∷◌, leb,
  Bool-cases, ◌⊎◌, inl, inr, arith,
}
use mathlib.Core.Option.{some-injective}
use mathlib.Core.List.{Memᴰ}
use synapse_oms.Ws.Messages.{StreamType, positions, PositionData, Message, position_update}
use synapse_oms.Ws.Acts.{Act, update, other, turn, is_due, last_update, Ticks, last_time, act, run}
use synapse_oms.Ws.Hub.{
  Hub, new_hub, position_throttle_interval, broadcast, send_position_update, throttle, timer_or,
  fire, fire_pending,
}

module _ {B F : Type 0} (marshal : Message F → Option B) (bytes : PositionData → B)
    (marshals : (pd : PositionData) → marshal (position_update pd) ≡ some (bytes pd)) where
  abbrev pub Sent : PositionData → Hub B → Type 0
  Sent pd h = Memᴰ (positions, bytes pd) h.broadcasts

  record Waits (pd : PositionData) (t : ℕ) (h : Hub B) : Type 0 where
    pub due : ℕ
    pub pending : h.pos_pending ≡ some pd
    pub timer : h.pos_timer ≡ some due
    pub soon : due ≤ t + position_throttle_interval

  record Served (last : Option (PositionData × ℕ)) (clock : ℕ) (h : Hub B) : Type 0 where
    pub due_soon : (due : ℕ) → h.pos_timer ≡ some due → due ≤ clock + position_throttle_interval
    pub served : (pd : PositionData) (t : ℕ) → last ≡ some (pd, t) → Sent pd h ⊎ Waits pd t h

  send_position_update-Sent :
      (pd : PositionData) (h : Hub B) → Sent pd (send_position_update marshal pd h)
  unfolding send_position_update broadcast
  send_position_update-Sent pd h = rw (marshals pd) (Memᴰ.head refl)

  send_position_update-keeps :
      (pd qd : PositionData) (h : Hub B) → Sent pd h → Sent pd (send_position_update marshal qd h)
  unfolding send_position_update broadcast
  send_position_update-keeps pd qd h m = rw (marshals qd) (Memᴰ.tail m)

  timer_kept :
      (qd : PositionData) (h : Hub B) → (send_position_update marshal qd h).pos_timer ≡ h.pos_timer
  unfolding send_position_update broadcast
  timer_kept qd h = rw (marshals qd) refl

  -- The timer that runs after an update has to wait.
  pended_timer :
      (last : Option (PositionData × ℕ)) (clock now wait : ℕ) (h : Hub B) (t : Option ℕ)
      → clock ≤ now
      → Served last clock h
      → wait ≤ position_throttle_interval
      → h.pos_timer ≡ t
      → (due : ℕ) × (timer_or (now + wait) t ≡ some due) × (due ≤ now + position_throttle_interval)
  pended_timer last clock now wait h none later s w e = (now + wait, refl, omega arith)
  pended_timer last clock now wait h (some due) later s w e =
      (due, refl, omega (arith, s.due_soon due e))

  pended :
      (pd : PositionData) (last : Option (PositionData × ℕ)) (clock now wait : ℕ) (h : Hub B)
      → clock ≤ now
      → Served last clock h
      → wait ≤ position_throttle_interval
      → Served
          (some (pd, now))
          now
          (record h { pos_pending = some pd; pos_timer = timer_or (now + wait) h.pos_timer })
  pended pd last clock now wait h later s w =
      let (due, e, soon) = pended_timer last clock now wait h h.pos_timer later s w refl in
      record {
        due_soon = λ d k.
            subst (λ x. x ≤ now + position_throttle_interval) (some-injective due d (sym e ∙ k))
              soon;
        served = λ qd t k. inr (
            subst
              (λ (x : PositionData × ℕ).
                Waits x.0 x.1 (record h {
                  pos_pending = some pd;
                  pos_timer = timer_or (now + wait) h.pos_timer;
                }))
              (some-injective _ _ k)
              (record { due = due; pending = refl; timer = e; soon = soon }));
      }

  update-Served :
      (pd : PositionData) (last : Option (PositionData × ℕ)) (clock now : ℕ) (h : Hub B)
      → clock ≤ now
      → Served last clock h
      → Served (some (pd, now)) now (throttle marshal pd now h)
  unfolding throttle
  update-Served pd last clock now h later s =
      elim (Bool-cases (leb position_throttle_interval (now - h.pos_last_broadcast))) [
        | inl e ↦ rw e (record {
          due_soon = λ due k. omega (arith, s.due_soon due (sym (timer_kept pd h) ∙ k));
          served = λ qd t k. inl (
              subst (λ x. Sent x (send_position_update marshal pd h))
                (ap (λ x. x.0) (some-injective _ _ k)) (send_position_update-Sent pd h));
        })
        | inr e ↦ rw e (
            pended pd last clock now (position_throttle_interval - (now - h.pos_last_broadcast)) h
              later s (omega arith))
      ]

  fired :
      (last : Option (PositionData × ℕ)) (clock now : ℕ) (h : Hub B) (found : Option PositionData)
      → h.pos_pending ≡ found
      → Served last clock h
      → (pd : PositionData) (t : ℕ) → last ≡ some (pd, t)
      → Sent pd (fire_pending marshal found now h)
  fired last clock now h none e s pd t k = elim (s.served pd t k) [
    | inl m ↦ m
    | inr w ↦ absurd (ground (arith, sym e ∙ w.pending))
  ]
  fired last clock now h (some qd) e s pd t k = elim (s.served pd t k) [
    | inl m ↦ send_position_update-keeps pd qd h m
    | inr w ↦
        subst (λ x. Sent x (send_position_update marshal qd h))
          (some-injective qd pd (sym e ∙ w.pending)) (send_position_update-Sent qd h)
  ]

  timer_off :
      (now : ℕ) (h : Hub B) (found : Option PositionData)
      → (fire_pending marshal found now h).pos_timer ≡ none
  timer_off now h none = refl
  timer_off now h (some qd) = refl

  turn-Served :
      (last : Option (PositionData × ℕ)) (clock now : ℕ) (h : Hub B)
      → clock ≤ now
      → Served last clock h
      → Served last now (act marshal turn now h)
  unfolding act fire
  turn-Served last clock now h later s = elim (Bool-cases (is_due h.pos_timer now)) [
    | inl e ↦ rw e record {
      due_soon = λ due k. absurd (ground (arith, sym (timer_off now h h.pos_pending) ∙ k));
      served = λ pd t k. inl (fired last clock now h h.pos_pending refl s pd t k);
    }
    | inr e ↦ rw e record { due_soon = λ due k. omega (arith, s.due_soon due k); served = s.served }
  ]

  other-Served :
      (stream : StreamType) (b : B) (last : Option (PositionData × ℕ)) (clock now : ℕ) (h : Hub B)
      → clock ≤ now
      → Served last clock h
      → Served last now (broadcast stream b h)
  unfolding broadcast
  other-Served stream b last clock now h later s = record {
    due_soon = λ due k. omega (arith, s.due_soon due k);
    served = λ pd t k. elim (s.served pd t k) [
      | inl m ↦ inl (Memᴰ.tail m)
      | inr w ↦ inr (record { due = w.due; pending = w.pending; timer = w.timer; soon = w.soon })
    ];
  }

  run-Served :
      (acts : List (Act B × ℕ)) (last : Option (PositionData × ℕ)) (clock : ℕ) (h : Hub B)
      → Ticks clock acts
      → Served last clock h
      → Served (last_update last acts) (last_time clock acts) (run marshal acts h)
  unfolding run act
  run-Served [] last clock h ticks s = s
  run-Served ((update pd, now) ∷ acts) last clock h (later, ticks) s =
      run-Served acts _ now _ ticks (update-Served pd last clock now h later s)
  run-Served ((other stream b, now) ∷ acts) last clock h (later, ticks) s =
      run-Served acts _ now _ ticks (other-Served stream b last clock now h later s)
  run-Served ((turn, now) ∷ acts) last clock h (later, ticks) s =
      run-Served acts _ now _ ticks (turn-Served last clock now h later s)

  new_hub-Served : Served none 0 new_hub
  unfolding new_hub
  new_hub-Served = record {
    due_soon = λ due k. absurd (ground (arith, k));
    served = λ pd t k. absurd (ground (arith, k));
  }

  is_due-true :
      (timer : Option ℕ) (due now : ℕ) → timer ≡ some due → due ≤ now → is_due timer now ≡ true
  is_due-true none due now k h = absurd (ground (arith, k))
  is_due-true (some d) due now k h = rw (some-injective d due k) (ground arith)

  -- Of a new hub, through any updates of positions, other broadcasts and turns of the timer, in any order
  -- and at times that do not go back, the last update has been broadcast to the positions stream
  -- once the timer has had a turn a throttle interval (100 ms) after that update, or later: updates are
  -- merged and delayed, but the last one is not lost. Positions can be marshaled.
  pub last_update-Sent :
      (acts : List (Act B × ℕ)) (pd : PositionData) (t now : ℕ)
      → Ticks 0 acts
      → last_update none acts ≡ some (pd, t)
      → t + position_throttle_interval ≤ now
      → Sent pd (act marshal turn now (run marshal acts new_hub))
  unfolding act fire
  last_update-Sent acts pd t now ticks k after =
      let h = run marshal acts new_hub in
      let s = run-Served acts none 0 new_hub ticks new_hub-Served in
      elim (Bool-cases (is_due h.pos_timer now)) [
        | inl e ↦
            rw e
              (fired (last_update none acts) (last_time 0 acts) now h h.pos_pending refl s pd t k)
        | inr e ↦ rw e (elim (s.served pd t k) [
          | inl m ↦ m
          | inr w ↦ absurd (
              ground
                (arith, sym e ∙ is_due-true h.pos_timer w.due now w.timer (omega (arith, w.soon))))
        ])
      ]
