-- ===== src/Domain/Order/Lifecycle.antt =====
-- The lifecycle of an order: which calls are accepted, what they leave alone, and where it ends.
use synapse_oms.Base.{
  ℕ, ◌≡◌, refl, ◌⊎◌, Bool, true, false, none, some, List, [], ◌∷◌, arith, ok, err, after,
  Bool-cases, inl, inr, ◌∙◌, if◌then◌else◌, any,
}
use synapse_oms.Decimal.{Decimal}
use synapse_oms.Domain.Order.Calls.{Call, transition, fills, call, run}
use synapse_oms.Domain.Order.{
  Order, OrderStatus, new, acknowledged, partially_filled, filled, canceled, rejected, status_eq,
  valid_transitions, invalid_transition, apply_transition, apply_fill,
}

-- The diagram of the allowed changes of status.
infix 40 ◌⟶◌
pub data ◌⟶◌ : OrderStatus → OrderStatus → Type 0 where
  acknowledge : new ⟶ acknowledged
  refuse : new ⟶ rejected
  begin : acknowledged ⟶ partially_filled
  cancel : acknowledged ⟶ canceled
  bounce : acknowledged ⟶ rejected
  finish : partially_filled ⟶ filled
  withdraw : partially_filled ⟶ canceled

ruleset edges = (acknowledge, refuse, begin, cancel, bounce, finish, withdraw)

abbrev pub IsTerminal : OrderStatus → Type 0
IsTerminal s = (s ≡ filled) ⊎ (s ≡ canceled) ⊎ (s ≡ rejected)

abbrev allows : OrderStatus → OrderStatus → Bool
unfolding valid_transitions
allows a b = elim (valid_transitions a) [ none ↦ false | some l ↦ any (λ s. status_eq s b) l ]

allows→⟶ : (a b : OrderStatus) → allows a b ≡ true → a ⟶ b
unfolding valid_transitions
allows→⟶ a b h = grind (arith, edges)

⟶→allows : {a b : OrderStatus} → a ⟶ b → allows a b ≡ true
unfolding valid_transitions
⟶→allows acknowledge = refl
⟶→allows refuse = refl
⟶→allows begin = refl
⟶→allows cancel = refl
⟶→allows bounce = refl
⟶→allows finish = refl
⟶→allows withdraw = refl

module _ {D : Type 0} where
  apply_transition-allows :
      (o : Order D) (s : OrderStatus) (now : ℕ)
      → apply_transition o s now ≡ (
          if allows o.status s
          then ok (record o { status = s; updated_at = now })
          else err invalid_transition)
  unfolding apply_transition
  apply_transition-allows o s now = ground arith

  -- A transition succeeds exactly along an edge of the diagram, and then writes the status and the
  -- time of the update and nothing else; any other transition is refused with
  -- `invalid_transition`.
  pub apply_transition_lem :
      (o : Order D) (s : OrderStatus) (now : ℕ)
      → ((o.status ⟶ s) → apply_transition o s now ≡ ok (record o { status = s; updated_at = now }))
        × (¬ (o.status ⟶ s) → apply_transition o s now ≡ err invalid_transition)
  apply_transition_lem o s now = (
    λ e. apply_transition-allows o s now ∙ rw (⟶→allows e),
    λ h. elim (Bool-cases (allows o.status s)) [
      | inl e ↦ absurd (h (allows→⟶ _ _ e))
      | inr e ↦ apply_transition-allows o s now ∙ rw e
    ],
  )

module _ {D : Type 0} ⦃d : Decimal D⦄ where
  call_of_IsTerminal :
      (o : Order D) (c : Call D) (now : ℕ) → IsTerminal o.status → after o (call o c now) ≡ o
  unfolding call apply_transition apply_fill
  call_of_IsTerminal o (transition s) now h = ground arith
  call_of_IsTerminal o (fills f) now h = ground arith

  -- A filled, canceled or rejected order never changes again, whatever calls are made on it.
  pub terminal_absorbs : (o : Order D) (cs : List (Call D × ℕ)) → IsTerminal o.status → run o cs ≡ o
  unfolding run
  terminal_absorbs o [] h = refl
  terminal_absorbs o ((c, now) ∷ cs) h = rw (call_of_IsTerminal o c now h) (terminal_absorbs o cs h)

  -- What no call on an order changes.
  pub record IsSameOrder (o p : Order D) : Type 0 where
    pub same_id : p.id ≡ o.id
    pub same_client : p.client_order_id ≡ o.client_order_id
    pub same_instrument : p.instrument_id ≡ o.instrument_id
    pub same_side : p.side ≡ o.side
    pub same_type : p.order_type ≡ o.order_type
    pub same_quantity : p.quantity ≡ o.quantity
    pub same_price : p.price ≡ o.price
    pub same_venue : p.venue_id ≡ o.venue_id

  call-IsSameOrder : (o : Order D) (c : Call D) (now : ℕ) → IsSameOrder o (after o (call o c now))
  unfolding call apply_transition apply_fill
  call-IsSameOrder o (transition s) now = ground arith
  call-IsSameOrder o (fills f) now = ground arith

  IsSameOrder-trans : (o p q : Order D) → IsSameOrder o p → IsSameOrder p q → IsSameOrder o q
  IsSameOrder-trans o p q h k = ground arith

  -- No history of calls changes what was ordered: the identifiers, side, type, quantity, limit price
  -- and venue stay.
  pub run-IsSameOrder : (o : Order D) (cs : List (Call D × ℕ)) → IsSameOrder o (run o cs)
  unfolding run
  run-IsSameOrder o [] = ground arith
  run-IsSameOrder o ((c, now) ∷ cs) =
      IsSameOrder-trans o _ _ (call-IsSameOrder o c now)
        (run-IsSameOrder (after o (call o c now)) cs)
