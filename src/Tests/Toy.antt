-- ===== src/Tests/Toy.antt =====
-- A float arithmetic to run the models with: numbers in hundredths.
use voxray.Base.{ℕ, ◌+◌, ◌-◌, ◌*◌, ◌/◌, ltb, leb}
use voxray.Base.Int.{ℤ, pos, negsuc}
use voxray.Audio.Floats.{Floats}

abbrev pub abs_hundredths : ℤ → ℕ
abs_hundredths (pos n) = n * 100
abs_hundredths (negsuc n) = (n + 1) * 100

abbrev pub toy : Floats
toy = record {
  F = ℕ;
  lit = λ a b. a * 100 / b;
  of_int = abs_hundredths;
  of_nat = λ n. n * 100;
  add = λ a b. a + b;
  sub = λ a b. a - b;
  mul = λ a b. a * b / 100;
  div = λ a b. a * 100 / b;
  sqrt = λ a. a;
  round = λ a. (a + 50) / 100;
  trunc = λ a. a / 100;
  le = leb;
  lt = ltb;
}
