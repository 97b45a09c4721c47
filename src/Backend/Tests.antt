-- ===== src/Backend/Tests.antt =====
-- `powi` on the natural numbers.
use oddio.Base.{ℕ, ◌/◌, ◌≡◌, some, arith}
use oddio.Base.Int.{pos, negsuc}
use oddio.Float.Natural.{natural}
use oddio.Backend.{powi}
use oddio.Backend.Powi.{by_digits, squares, powi_lem}

powi_lem_example :
    let three : ℕ = 3 in (powi three (pos 5) ≡ some 243) × (powi three (negsuc 5) ≡ some (1 / 729))
unfolding by_digits squares
powi_lem_example = powi_lem 3 5 (omega arith)
