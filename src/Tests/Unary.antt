-- ===== src/Tests/Unary.antt =====
-- Numbers as texts of that many characters, for the example servers.
use Prim.Native.Nat.{ℕ, zero, suc}
use Prim.Native.String.{String, [], ◌∷◌}
use mathlib.Core.Path.{◌≡◌, refl, ap}

abbrev pub unary : ℕ → String
unary zero = ""
unary (suc n) = "x" ∷ unary n

abbrev pub characters : String → ℕ
characters [] = 0
characters (c ∷ s) = suc (characters s)

pub characters-unary : (n : ℕ) → characters (unary n) ≡ n
characters-unary zero = refl
characters-unary (suc n) = ap suc (characters-unary n)
