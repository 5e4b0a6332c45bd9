-- ===== src/Api/Registry/Backoff.antt =====
-- The delays of scheduleRetryLocked (internal/api/watcher.go).
use Prim.Native.Nat.{min}
use native.Mathlib.Nat.{pow-suc}
use proxs.Prelude.{ℕ, zero, suc, ◌*◌, ◌^◌, ◌≤◌, ◌≡◌, arith, nat_eq, list_eq}
use proxs.Api.Registry.{max_delay, double_delay, retry_delay}

shift : (n delay : ℕ) → delay * 2 * 2 ^ n ≡ delay * 2 ^ suc n
shift n delay = rw pow-suc (grind arith)

one_le_pow : (n : ℕ) → 1 ≤ 2 ^ n
one_le_pow zero = omega arith
one_le_pow (suc n) = rw pow-suc (omega (arith, one_le_pow n))

grows : (n delay : ℕ) → delay ≤ delay * 2 ^ n
grows n delay = grind (arith, one_le_pow n)

double_delay-eq :
    (attempts delay : ℕ)
    → min (double_delay attempts delay) max_delay ≡ min (delay * 2 ^ attempts) max_delay
unfolding double_delay
double_delay-eq zero delay = omega arith
double_delay-eq (suc attempts) delay =
    ground (
      arith,
      double_delay-eq attempts (delay * 2),
      shift attempts delay,
      grows (suc attempts) delay,
    )

-- The n-th consecutive failure waits for the base delay doubled n times, and never longer than
-- thirty minutes.
pub retry_delay-eq :
    (retry_base attempt : ℕ)
    → retry_delay retry_base attempt ≡ min (retry_base * 2 ^ attempt) max_delay
unfolding retry_delay
retry_delay-eq retry_base attempt = ground (arith, double_delay-eq attempt retry_base)
