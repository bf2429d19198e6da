-- ===== src/Mesh/StoreForward/Backoff.antt =====
-- aegis-mesh/crates/aegis-core/src/mesh/store_forward.rs: the waiting time before an attempt.
use Prim.Native.Nat.{min}
use aegis_mesh.Base.{
  leb, leb→le, Bool-cases, inl, inr, ℕ, zero, suc, ◌-◌, ◌*◌, ◌^◌, ◌≤◌, ◌≡◌, ap, arith,
}
use aegis_mesh.Base.Clock.{seconds}
use aegis_mesh.Mesh.StoreForward.{new, backoff_for}

two_pow-ge-one : (n : ℕ) → 1 ≤ 2 ^ n
two_pow-ge-one zero = omega arith
two_pow-ge-one (suc n) = omega (arith, two_pow-ge-one n)

two_pow-le : (m n : ℕ) → m ≤ n → 2 ^ m ≤ 2 ^ n
two_pow-le zero n h = two_pow-ge-one n
two_pow-le (suc m) zero h = omega arith
two_pow-le (suc m) (suc n) h = omega (arith, two_pow-le m n (omega arith))

-- A power of two with an exponent that stops at 10.
two_pow-min_ten : (n : ℕ) → min (min (30 * 2 ^ min n 10) (2 ^ 64 - 1)) 3600 ≡ min (30 * 2 ^ n) 3600
two_pow-min_ten n = elim (Bool-cases (leb n 10)) [
  | inl small ↦
      let few = leb→le n 10 small in
      let same : min n 10 ≡ n = omega arith in rw same (omega (arith, two_pow-le n 10 few))
  | inr large ↦
      let same : min n 10 ≡ 10 = ground arith in
      rw same (omega (arith, two_pow-le 10 n (ground arith)))
]

-- With the settings of `new`, an entry waits for thirty seconds, twice as long for each attempt
-- that it counts, but never for more than an hour.
pub backoff_for_lem :
    (attempts : ℕ) → backoff_for new attempts ≡ seconds (min (30 * 2 ^ attempts) 3600)
unfolding backoff_for new
backoff_for_lem attempts = ap seconds (two_pow-min_ten attempts)
