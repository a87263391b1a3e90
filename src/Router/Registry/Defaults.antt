-- ===== src/Router/Registry/Defaults.antt =====
-- Which strategy a name stands for.
use synapse_oms.Base.{
  String, ◌≡◌, ◌≢◌, refl, false, Option, none, some, List, [], ◌∷◌, All, arith, if◌then◌else◌, ok,
  ◌==◌, eq_iff, eq_refl, is_empty,
}
use synapse_oms.Base.Maps.{Map, lookup, insert, lookup-insert}
use synapse_oms.Router.Types.{RoutingStrategy}
use synapse_oms.Router.Registry.{
  Router, default_strategy_key, new_router, register, named_strategy, resolve,
}

module _ {D F : Type 0} where
  -- What a name stands for once there is a default: the strategy registered under it, and else the
  -- default.
  abbrev pub Default : Router D F → RoutingStrategy D F → Type 0
  Default r s = lookup default_strategy_key r.strategies ≡ some s

  abbrev pub choice : Router D F → String → RoutingStrategy D F → RoutingStrategy D F
  choice r name fallback = elim (named_strategy r name) [ some s ↦ s | none ↦ fallback ]

  not-empty :
      (entries : Map (RoutingStrategy D F)) (k : String) {s : RoutingStrategy D F}
      → lookup k entries ≡ some s
      → is_empty entries ≡ false
  unfolding lookup
  not-empty [] k e = cc
  not-empty (_ ∷ _) k e = refl

  resolve-choice :
      (r : Router D F) (s : RoutingStrategy D F) (name : String)
      → Default r s
      → resolve r name ≡ ok (choice r name s)
  unfolding resolve
  resolve-choice r s name e = ground (arith, not-empty r.strategies default_strategy_key e)

  lookup-register :
      (r : Router D F) (s : RoutingStrategy D F) (k : String)
      → k ≢ default_strategy_key
      → lookup k (register r s).strategies ≡ (if k == s.name then some s else lookup k r.strategies)
  unfolding register
  lookup-register r s k h =
      let named = insert s.name s r.strategies in
      ground (
        arith,
        lookup-insert s.name k s r.strategies,
        lookup-insert default_strategy_key k s named,
        eq_iff k default_strategy_key,
      )

  register-Default :
      (r : Router D F) (s t : RoutingStrategy D F)
      → s.name ≢ default_strategy_key
      → Default r t
      → Default (register r s) t
  unfolding register
  register-Default r s t h e = ground (
    arith,
    lookup-insert s.name default_strategy_key s r.strategies,
    eq_iff default_strategy_key s.name,
  )

  first-Default :
      (r : Router D F) (s : RoutingStrategy D F)
      → lookup default_strategy_key r.strategies ≡ none
      → Default (register r s) s
  unfolding register
  first-Default r s e = ground (
    arith,
    lookup-insert s.name default_strategy_key s r.strategies,
    lookup-insert default_strategy_key default_strategy_key s (insert s.name s r.strategies),
    eq_refl default_strategy_key,
    eq_iff default_strategy_key s.name,
  )

  -- A router that strategies were registered with, one after another.
  unfoldable pub register_all : Router D F → List (RoutingStrategy D F) → Router D F
  register_all r [] = r
  register_all r (s ∷ ss) = register_all (register r s) ss

  -- The last of the strategies with a name.
  unfoldable pub last_named : String → List (RoutingStrategy D F) → Option (RoutingStrategy D F)
  last_named k [] = none
  last_named k (s ∷ ss) = elim (last_named k ss) [
    | some t ↦ some t
    | none ↦ if k == s.name then some s else none
  ]

  -- A name that is not kept for the default.
  abbrev pub IsOrdinary : RoutingStrategy D F → Type 0
  IsOrdinary s = s.name ≢ default_strategy_key

  register_all-Default :
      (r : Router D F) (ss : List (RoutingStrategy D F)) (t : RoutingStrategy D F)
      → All IsOrdinary ss
      → Default r t
      → Default (register_all r ss) t
  unfolding register_all
  register_all-Default r [] t h e = e
  register_all-Default r (s ∷ ss) t (h, hs) e =
      register_all-Default (register r s) ss t hs (register-Default r s t h e)

  lookup-register_all :
      (r : Router D F) (ss : List (RoutingStrategy D F)) (k : String)
      → k ≢ default_strategy_key
      → lookup k (register_all r ss).strategies
        ≡ elim (last_named k ss) [ some t ↦ some t | none ↦ lookup k r.strategies ]
  unfolding register_all last_named
  lookup-register_all r [] k h = refl
  lookup-register_all r (s ∷ ss) k h =
      ground (arith, lookup-register_all (register r s) ss k h, lookup-register r s k h)

  -- Once strategies are registered on a new router, none of them named "default", every request but one
  -- for "default" resolves: to the last strategy registered under the requested name if there is
  -- one, and else, as when no name is given, to the strategy that was registered first.
  pub resolve-register_all :
      (s : RoutingStrategy D F) (ss : List (RoutingStrategy D F)) (k : String)
      → All IsOrdinary (s ∷ ss)
      → k ≢ default_strategy_key
      → resolve (register_all new_router (s ∷ ss)) k
        ≡ ok (elim (if k == "" then none else last_named k (s ∷ ss)) [ some t ↦ t | none ↦ s ])
  unfolding new_router lookup
  resolve-register_all s ss k (h, hs) g =
      let r = register_all new_router (s ∷ ss) in
      let first : Default r s =
        unfold register_all in
        register_all-Default (register new_router s) ss s hs (first-Default new_router s refl) in
      ground (arith, resolve-choice r s k first, lookup-register_all new_router (s ∷ ss) k g)
