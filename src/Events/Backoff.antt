-- ===== src/Events/Backoff.antt =====
-- The sleeps between the attempts of runWithRetries.
use talemu.Prelude.{
  ℕ, ◌*◌, ◌≤◌, leb, Bool, true, ◌&&◌, List, [], ◌∷◌, if◌then◌else◌, ◌≡◌, refl, arith,
}
use talemu.Events.{Attempt, next_backoff, sleeps_from, run_with_retries}

-- Each sleep is at least `low`, at most 30, and twice the one before unless it is 30.
unfoldable pub is_backoff : ℕ → List ℕ → Bool
is_backoff low [] = true
is_backoff low (n ∷ ns) =
    leb low n && leb n 30 && is_backoff (if leb (n * 2) 30 then n * 2 else 30) ns

sleeps_from-is_backoff :
    (low n : ℕ) (attempts : List Attempt)
    → low ≤ n
    → n ≤ 30
    → is_backoff low (sleeps_from n attempts) ≡ true
unfolding is_backoff sleeps_from next_backoff
sleeps_from-is_backoff low n [] h k = refl
sleeps_from-is_backoff low n (a ∷ rest) h k = ground (
  arith,
  sleeps_from-is_backoff (if leb (n * 2) 30 then n * 2 else 30) (next_backoff n a.drawn) rest,
)

-- Whatever the attempts do and the random source draws, the sleeps are at least a second and at
-- most 30, and each is at least twice the one before it or is 30 seconds.
pub run_with_retries-is_backoff :
    (attempts : List Attempt) → is_backoff 1 (run_with_retries attempts) ≡ true
unfolding run_with_retries
run_with_retries-is_backoff attempts =
    sleeps_from-is_backoff 1 1 attempts (ground arith) (ground arith)
