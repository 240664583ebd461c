-- ===== src/Retry/Bounds.antt =====
-- config.go: how long DefaultBackoff waits.
use agentturn.Base.{
  ℕ, zero, suc, ◌*◌, ◌^◌, ◌-◌, ◌≤◌, min, ◌≡◌, sym, ap, ◌∙◌, false, none, ltb, arith, by_if,
}
use native.Mathlib.Nat.{mul_assoc, pow-succ', one-le-pow, le-mul_of_pos_right}
use agentturn.Retry.{double, default_backoff, first_wait, longest_wait}

double_assoc : (d n : ℕ) → d * 2 * 2 ^ n ≡ d * 2 ^ suc n
double_assoc d n = mul_assoc d 2 (2 ^ n) ∙ ap (◌*◌ d) (sym (pow-succ' 2 n))

grown : (d n : ℕ) → d ≤ d * 2 ^ n
grown d n = le-mul_of_pos_right d (one-le-pow n 2 (omega arith))

at_least : (d : ℕ) → ltb d longest_wait ≡ false → longest_wait ≤ d
at_least d b = ground (arith, b)

double-min : (n d : ℕ) → min (double n d) longest_wait ≡ min (d * 2 ^ n) longest_wait
unfolding double
double-min zero d = omega arith
double-min (suc n) d =
    by_if (λ r. min r longest_wait ≡ min (d * 2 ^ suc n) longest_wait) (ltb d longest_wait)
      (λ b. double-min n (d * 2) ∙ ap (λ r. min r longest_wait) (double_assoc d n))
      (λ b. omega (arith, at_least d b, grown d (suc n)))

-- Without a Retry-After the wait before a retry is half a second, doubled at each retry after the
-- first, and cut to thirty seconds; it is never less than half a second.
pub default_backoff-eq :
    (attempt : ℕ)
    → (default_backoff attempt none ≡ min (first_wait * 2 ^ (attempt - 1)) longest_wait)
      × (first_wait ≤ default_backoff attempt none)
      × (default_backoff attempt none ≤ longest_wait)
unfolding default_backoff
default_backoff-eq attempt =
    let n = attempt - 1 in
    let waits = double-min n first_wait in
    (waits, omega (arith, waits, grown first_wait n), omega arith)
