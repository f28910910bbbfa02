-- ===== src/Position/Distance.antt =====
-- The distances of js/position.js: nautical miles, kilometres and metres. The numbers are whole and
-- below 2 ^ 40, where the products are exact in floating point and the quotients round as exact
-- ones do; `none` is `undefined`.
use ais_store.Prelude.{ℕ, zero, suc, ◌+◌, ◌*◌, ◌/◌, Option, none, some, ◌≡◌, arith, refl, ap}

-- `Math.round(a / b)`
abbrev pub round_quotient : ℕ → ℕ → ℕ
round_quotient a b = (2 * a + b) / (2 * b)

unfoldable pub nm2km : Option ℕ → Option ℕ
nm2km none = none
nm2km (some zero) = none
nm2km (some (suc k)) = some (round_quotient (suc k * 1852) 1000)

unfoldable pub km2nm : Option ℕ → Option ℕ
km2nm none = none
km2nm (some zero) = none
km2nm (some (suc k)) = some (round_quotient (suc k * 1000) 1852)

unfoldable pub m2nm : Option ℕ → Option ℕ
m2nm none = none
m2nm (some zero) = none
m2nm (some (suc k)) = some (round_quotient (suc k) 1852)

km2nm_positive : (m k : ℕ) → m ≡ round_quotient (suc k * 1852) 1000 → km2nm (some m) ≡ some (suc k)
unfolding km2nm
km2nm_positive zero k e = absurd (omega arith)
km2nm_positive (suc m) k e = ap some (omega arith)

-- Every whole number of nautical miles but 0 comes back when it is converted to whole kilometres
-- and from there to nautical miles.
km2nm-nm2km : (k : ℕ) → km2nm (nm2km (some (suc k))) ≡ some (suc k)
unfolding nm2km
km2nm-nm2km k = km2nm_positive _ k refl
