-- ===== src/Measures/Wrap.antt =====
-- Arithmetic of `int` in units.c.
use blangc.Measures.{wrap_int}
use blangc.Prelude.Int.{ℤ, ◌+ℤ◌}
use blangc.Prelude.{◌≡◌, arith}

pub wrap_int-wrap_int : (a : ℤ) → wrap_int (wrap_int a) ≡ wrap_int a
unfolding wrap_int
wrap_int-wrap_int a = ground arith

pub wrap_add : (a b : ℤ) → wrap_int (wrap_int a +ℤ b) ≡ wrap_int (a +ℤ b)
unfolding wrap_int ◌+ℤ◌
wrap_add a b = ground arith
