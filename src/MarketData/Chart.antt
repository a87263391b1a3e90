-- ===== src/MarketData/Chart.antt =====
-- What the bars of one instrument should be, given its ticks: a tick opens a period when the one before
-- it is of another period, and the bar of a period summarises all of its ticks.
use Prim.Native.Nat.{◌/◌, ◌%◌}
use synapse_oms.Base.{
  ℕ, zero, suc, ◌-◌, ◌*◌, ◌≤◌, ◌≡◌, refl, ap, ◌∙◌, Bool, some, List, [], ◌∷◌, ◌++◌, arith, eqb,
  if◌then◌else◌,
}
use synapse_oms.Adapter.{MarketDataSnapshot}
use synapse_oms.MarketData.{second, aligned, align_to_period}

-- The start of the period that a time falls in.
abbrev pub period_of : ℕ → ℕ → ℕ
period_of interval ts = (ts / second - ts / second % (interval / second)) * second

aligned-some : (secs unix : ℕ) → 1 ≤ secs → aligned secs unix ≡ some ((unix - unix % secs) * second)
unfolding aligned
aligned-some zero unix h = absurd (omega arith)
aligned-some (suc n) unix h = refl

pub align_to_period-some :
    (interval ts : ℕ)
    → second ≤ interval
    → align_to_period interval ts ≡ some (period_of interval ts)
unfolding align_to_period aligned
align_to_period-some interval ts h = aligned-some (interval / second) (ts / second) (omega arith)

-- The ticks of one period: the first one, and those after it.
abbrev pub Period : Type 0 → Type 0
Period D = MarketDataSnapshot D × List (MarketDataSnapshot D)

module _ {D : Type 0} (interval : ℕ) where
  abbrev pub same_period : MarketDataSnapshot D → MarketDataSnapshot D → Bool
  same_period t u = eqb (period_of interval u.timestamp) (period_of interval t.timestamp)

  abbrev join : MarketDataSnapshot D → List (Period D) → List (Period D)
  join t [] = (t, []) ∷ []
  join t (g ∷ gs) = if same_period t g.0 then (t, g.0 ∷ g.1) ∷ gs else (t, []) ∷ g ∷ gs

  -- The ticks of one instrument, cut into periods.
  unfoldable pub chart : List (MarketDataSnapshot D) → List (Period D)
  chart [] = []
  chart (t ∷ ts) = join t (chart ts)

  abbrev pub extend_from : Period D → List (Period D) → MarketDataSnapshot D → List (Period D)
  extend_from g [] t = if same_period g.0 t then (g.0, g.1 ++ (t ∷ [])) ∷ [] else g ∷ (t, []) ∷ []
  extend_from g (h ∷ hs) t = g ∷ extend_from h hs t

  -- A later tick changes the last period only, or opens one.
  abbrev pub extend : List (Period D) → MarketDataSnapshot D → List (Period D)
  extend [] t = (t, []) ∷ []
  extend (g ∷ gs) t = extend_from g gs t

  join-extend :
      (t u : MarketDataSnapshot D) (gs : List (Period D))
      → join t (extend gs u) ≡ extend (join t gs) u
  join-extend t u [] = refl
  join-extend t u (g ∷ []) = ground arith
  join-extend t u (g ∷ h ∷ hs) = ground arith

  pub chart_snoc :
      (ts : List (MarketDataSnapshot D)) (u : MarketDataSnapshot D)
      → chart (ts ++ (u ∷ [])) ≡ extend (chart ts) u
  unfolding chart
  chart_snoc [] u = refl
  chart_snoc (t ∷ ts) u = ap (join t) (chart_snoc ts u) ∙ join-extend t u (chart ts)
