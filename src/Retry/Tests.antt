-- ===== src/Retry/Tests.antt =====
-- config.go: DefaultBackoff at its second retry, and past the cap.
use agentturn.Base.{◌*◌, ◌^◌, ◌≤◌, min, ◌≡◌, none}
use agentturn.Retry.{default_backoff, first_wait, longest_wait}
use agentturn.Retry.Bounds.{default_backoff-eq}

default_backoff-eq_example :
    (default_backoff 9 none ≡ min (first_wait * 2 ^ 8) longest_wait)
    × (first_wait ≤ default_backoff 9 none)
    × (default_backoff 9 none ≤ longest_wait)
default_backoff-eq_example = default_backoff-eq 9
