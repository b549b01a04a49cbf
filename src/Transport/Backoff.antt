-- ===== src/Transport/Backoff.antt =====
-- pkg/utils/backoff.go: the wait before the next attempt, in nanoseconds. A Duration is an int64: its
-- products wrap around, which is written out. An attempt below 1 is 0 here.
use voxray.Base.{
  true, ℕ, ◌+◌, ◌-◌, ◌*◌, ◌%◌, ◌^◌, ◌<◌, min, ◌≡◌, refl, arith, leb, ◌==◌, if◌then◌else◌,
}
use voxray.Base.{holds_below, holds_below_at, ==_iff}
use voxray.Base.Int.{ℤ, pos, negsuc, ltb_ℤ}

-- time.Second
abbrev pub second : ℕ
second = 1000000000

-- BackoffCap
abbrev pub backoff_cap : ℤ
backoff_cap = pos (60 * second)

-- The int64 of a pattern of 64 bits.
unfoldable pub int64 : ℕ → ℤ
int64 n = let m = n % 2 ^ 64 in if leb (2 ^ 63) m then negsuc (2 ^ 64 - 1 - m) else pos m

-- time.Duration(1<<uint(attempt)) * time.Second
unfoldable pub exponential : ℕ → ℤ
exponential attempt = int64 (2 ^ attempt % 2 ^ 64 * second)

unfoldable pub exponential_backoff : ℕ → ℤ
exponential_backoff attempt =
    let d = exponential (if attempt == 0 then 1 else attempt) in
    if ltb_ℤ backoff_cap d then backoff_cap else d

same_wait : ℕ → ℤ → ℕ
same_wait n (pos m) = if n == m then 1 else 0
same_wait n (negsuc m) = 0

same_wait_sound : (n : ℕ) (d : ℤ) → same_wait n d ≡ 1 → d ≡ pos n
unfolding same_wait
same_wait_sound n (pos m) h = ground (arith, ==_iff n m)
same_wait_sound n (negsuc m) h = absurd (omega arith)

waits_checked :
    holds_below
      (λ k. same_wait (min (2 ^ (k + 1)) 60 * second) (exponential_backoff (k + 1)) == 1)
      33
    ≡ true
unfolding holds_below same_wait exponential_backoff exponential int64
waits_checked = refl

-- For each of the first 33 attempts the wait is 2 to the power of the attempt in seconds, or 60
-- seconds where these are fewer.
pub exponential_backoff-min :
    (k : ℕ) → k < 33 → exponential_backoff (k + 1) ≡ pos (min (2 ^ (k + 1)) 60 * second)
exponential_backoff-min k h =
    let checked =
      holds_below_at
        (λ k. same_wait (min (2 ^ (k + 1)) 60 * second) (exponential_backoff (k + 1)) == 1) 33
        waits_checked k h in
    same_wait_sound (min (2 ^ (k + 1)) 60 * second) (exponential_backoff (k + 1))
      ((==_iff _ 1).0 checked)
