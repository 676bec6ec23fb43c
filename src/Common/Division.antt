-- ===== src/Common/Division.antt =====
-- How a quotient grows when the dividend does.
use Prim.Native.Nat.{ℕ, suc, ◌+◌, ◌*◌, ◌/◌, ◌%◌, ◌<◌}
use mathlib.Core.Path.{◌≡◌, ap}
use native.Mathlib.Decide.{dec_lt}
use native.Mathlib.Nat.{div-add-mod, div-eq_of_lt-le, div-eq_of_eq-mul_right}
use native.Mathlib.Omega.{arith}
use faultline.Common.Tests.{nat_beq, if◌then◌else◌}

module _ (q k : ℕ) where
  parts : (suc k * (q / suc k) + q % suc k ≡ q) × (q % suc k < suc k)
  parts = (div-add-mod q (suc k), omega arith)

  suc-div_inside : q % suc k + 1 < suc k → ((q + 1) / suc k ≡ q / suc k) × (0 < (q + 1) % suc k)
  suc-div_inside h =
      let same : (q + 1) / suc k ≡ q / suc k =
        div-eq_of_lt-le {k = q / suc k} (suc k) (omega (arith, parts.0)) (omega (arith, parts.0)) in
      (
        same,
        omega (arith, same, parts.0, div-add-mod (q + 1) (suc k), ap (λ (t : ℕ). suc k * t) same),
      )

  suc-div_edge : suc k ≡ q % suc k + 1 → ((q + 1) / suc k ≡ q / suc k + 1) × ((q + 1) % suc k ≡ 0)
  suc-div_edge h =
      let next : (q + 1) / suc k ≡ q / suc k + 1 =
        div-eq_of_eq-mul_right {n = suc k} (omega arith) (omega (arith, parts.0)) in
      (
        next,
        omega (arith, next, parts.0, div-add-mod (q + 1) (suc k), ap (λ (t : ℕ). suc k * t) next),
      )

  pub suc-div : (q + 1) / suc k ≡ (if nat_beq ((q + 1) % suc k) 0 then q / suc k + 1 else q / suc k)
  suc-div = elim (dec_lt (q % suc k + 1) (suc k)) [
    | yes h ↦ ground (arith, suc-div_inside h)
    | no h ↦ ground (arith, suc-div_edge (omega (arith, parts.1)))
  ]
