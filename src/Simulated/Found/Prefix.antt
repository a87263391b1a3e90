-- ===== src/Simulated/Found/Prefix.antt =====
-- The prefix of the simulated exchange in gateway/internal/adapter/simulated/adapter.go: the law that the venues'
-- identifiers tell orders apart can be met.
use Prim.Native.String.{String, [], ◌∷◌}
use synapse_oms.Base.{◌≡◌, ap}

abbrev pub sim_prefixed : String → String
sim_prefixed order_id = "S" ∷ "I" ∷ "M" ∷ "-" ∷ order_id

abbrev tail : String → String
tail [] = []
tail (c ∷ text) = text

pub sim_prefixed_injective : (x y : String) → sim_prefixed x ≡ sim_prefixed y → x ≡ y
sim_prefixed_injective x y h = ap (λ t. tail (tail (tail (tail t)))) h
