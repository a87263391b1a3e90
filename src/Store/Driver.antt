-- ===== src/Store/Driver.antt =====
-- The laws of the driver can be met: whole numbers written as tallies, even ones for what is not negative.
use Prim.Native.Nat.{◌/◌, ◌%◌}
use Prim.Native.String.{String, [], ◌∷◌}
use synapse_oms.Base.{
  ℕ, zero, suc, ◌+◌, ◌*◌, ◌≡◌, refl, ap, ◌∙◌, some, arith, eqb, if◌then◌else◌, Bool,
}
use synapse_oms.Base.Int.{ℤ, pos, negsuc}
use synapse_oms.Store.Tables.{Driver, IsDriver}

abbrev tally : ℕ → String
tally zero = []
tally (suc n) = "x" ∷ tally n

abbrev size : String → ℕ
size [] = 0
size (c ∷ s) = suc (size s)

size-tally : (n : ℕ) → size (tally n) ≡ n
size-tally zero = refl
size-tally (suc n) = ap suc (size-tally n)

abbrev code : ℤ → ℕ
code (pos n) = 2 * n
code (negsuc n) = 2 * n + 1

abbrev decoded : ℕ → ℤ
decoded k = if eqb (k % 2) 0 then pos (k / 2) else negsuc (k / 2)

decoded-code : (x : ℤ) → decoded (code x) ≡ x
decoded-code (pos n) = ground arith
decoded-code (negsuc n) = ground arith

instance abbrev pub tallies : Driver ℤ
tallies = record {
  to_string = λ x. tally (code x);
  numeric = λ s. some (decoded (size s));
  stored_time = λ t. t / 1000 * 1000;
  marshal = λ schedule. some schedule.timezone;
  unmarshal = λ text. some (record {
    is_24x7 = Bool.false;
    market_open = "";
    market_close = "";
    pre_market = "";
    after_hours = "";
    timezone = text;
  });
}

pub tallies-IsDriver : IsDriver ℤ
tallies-IsDriver = record {
  numeric-to_string =
      λ x. ap (λ k. some (decoded k)) (size-tally (code x)) ∙ ap some (decoded-code x);
}
