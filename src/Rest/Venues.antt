-- ===== src/Rest/Venues.antt =====
-- What the check of an order's venue in gateway/internal/rest/handler_order.go finds out.
use synapse_oms.Base.{
  ◌≡◌, ◌≢◌, refl, sym, subst, ◌⊎◌, inl, inr, String, ◌==◌, Bool, true, false, Option, none, some,
  List, [], ◌∷◌, map, select, any, Bool-cases, arith, eq_iff, if◌then◌else◌,
}
use mathlib.Core.List.{Memᴰ}
use synapse_oms.Base.Maps.{lookup}
use synapse_oms.Domain.Instrument.{AssetClass}
use synapse_oms.Adapter.{VenueStatus, is_connected, is_disconnected}
use synapse_oms.Adapter.Registry.{
  Registry, check_venue_ready, ready_of, get_instance, list_connected,
}
use synapse_oms.Rest.Orders.{
  ApiError, Provider, class_eq, supports, check_supported, status_of, is_ready, check_venue,
}

abbrev pub Supports : AssetClass → Provider → Type 0
Supports asset_class provider = Memᴰ asset_class provider.supported_asset_classes

-- Some connected adapter supports the class.
pub record IsServed (registry : Registry Provider) (asset_class : AssetClass) : Type 0 where
  pub provider : Provider
  pub registered : Memᴰ provider (map (λ entry. entry.1) registry.instances)
  pub connected : provider.status ≡ VenueStatus.connected
  pub supported : Supports asset_class provider

-- The adapter of a venue, which is not disconnected and supports the class.
pub record IsReachable (registry : Registry Provider) (asset_class : AssetClass) (venue_id : String)
    : Type 0 where
  pub provider : Provider
  pub registered : lookup venue_id registry.instances ≡ some provider
  pub reachable : provider.status ≢ VenueStatus.disconnected
  pub supported : Supports asset_class provider

-- An order without a venue can be served; a named venue has such an adapter, or none at all.
pub record IsRoutable (registry : Registry Provider) (asset_class : AssetClass) (venue_id : String)
    : Type 0 where
  pub smart : venue_id ≡ "" → IsServed registry asset_class
  pub named :
      venue_id ≢ ""
      → (lookup venue_id registry.instances ≡ none) ⊎ IsReachable registry asset_class venue_id

class_eq-true : (a b : AssetClass) → class_eq a b ≡ true → a ≡ b
class_eq-true a b h = ground arith

any-class_eq :
    (c : AssetClass) (cs : List AssetClass) → any (λ x. class_eq x c) cs ≡ true → Memᴰ c cs
any-class_eq c [] h = absurd (ground (arith, h))
any-class_eq c (x ∷ cs) h = elim (Bool-cases (class_eq x c)) [
  | inl e ↦ Memᴰ.head (sym (class_eq-true x c e))
  | inr e ↦ Memᴰ.tail (any-class_eq c cs (rw e at h))
]

any-select {ℓ} :
    {A : Type ℓ} (f g : A → Bool) (xs : List A)
    → any f (select g xs) ≡ true
    → (x : A) × Memᴰ x xs × (g x ≡ true) × (f x ≡ true)
any-select f g [] h = absurd (ground (arith, h))
any-select f g (x ∷ xs) h = elim (Bool-cases (g x)) [
  | inr e ↦ let (y, m, k, l) = any-select f g xs (rw e at h) in (y, Memᴰ.tail m, k, l)
  | inl e ↦ elim (Bool-cases (f x)) [
    | inl k ↦ (x, Memᴰ.head refl, e, k)
    | inr k ↦ let (y, m, a, b) = any-select f g xs (rw k at (rw e at h)) in (y, Memᴰ.tail m, a, b)
  ]
]

connected_status : (s : VenueStatus) → is_connected s ≡ true → s ≡ VenueStatus.connected
connected_status s h = ground arith

smart_venue :
    (registry : Registry Provider) (asset_class : AssetClass)
    → check_venue registry asset_class "" ≡ none
    → IsServed registry asset_class
unfolding check_venue list_connected
smart_venue registry asset_class h =
    elim (Bool-cases (any (supports asset_class) (list_connected status_of registry))) [
      | inr e ↦ absurd (ground (arith, rw e at h))
      | inl e ↦
          let (provider, m, k, l) =
            any-select (supports asset_class) (λ p. is_connected (status_of p))
              (map (λ entry. entry.1) registry.instances) e in
          record {
            provider = provider;
            registered = m;
            connected = connected_status provider.status k;
            supported = any-class_eq asset_class provider.supported_asset_classes l;
          }
    ]

reachable_status : (s : VenueStatus) → is_disconnected s ≡ false → s ≢ VenueStatus.disconnected
reachable_status s h e = ground arith

named_venue :
    (registry : Registry Provider) (asset_class : AssetClass) (venue_id : String)
    (found : Option Provider)
    → lookup venue_id registry.instances ≡ found
    → (if is_ready (ready_of status_of venue_id found)
        then check_supported asset_class found
        else some ApiError.venue_not_connected)
      ≡ none
    → (lookup venue_id registry.instances ≡ none) ⊎ IsReachable registry asset_class venue_id
named_venue registry asset_class venue_id none same h = inl same
named_venue registry asset_class venue_id (some provider) same h =
    elim (Bool-cases (is_disconnected provider.status)) [
      | inl e ↦ absurd (ground (arith, rw e at h))
      | inr e ↦ elim (Bool-cases (supports asset_class provider)) [
        | inr k ↦ absurd (ground (arith, rw k at (rw e at h)))
        | inl k ↦ inr (record {
          provider = provider;
          registered = same;
          reachable = reachable_status provider.status e;
          supported = any-class_eq asset_class provider.supported_asset_classes k;
        })
      ]
    ]

pub check_venue-IsRoutable :
    (registry : Registry Provider) (asset_class : AssetClass) (venue_id : String)
    → check_venue registry asset_class venue_id ≡ none
    → IsRoutable registry asset_class venue_id
unfolding check_venue check_venue_ready get_instance
check_venue-IsRoutable registry asset_class venue_id h = record {
  smart = λ e.
      smart_venue registry asset_class (subst (λ v. check_venue registry asset_class v ≡ none) e h);
  named = λ other. elim (Bool-cases (venue_id == "")) [
    | inl e ↦ absurd (other ((eq_iff venue_id "").0 e))
    | inr e ↦ named_venue registry asset_class venue_id _ refl (rw e at h)
  ];
}
