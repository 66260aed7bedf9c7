-- ===== src/Time.antt =====
-- Python's `datetime`: an instant in microseconds, with the offset of its zone when it has one.
use job_slayer.Base.{ℕ, ◌+◌, ◌*◌}

pub record Stamp : Type 0 where
  pub instant : ℕ
  pub offset : ℕ

-- A `datetime` with or without a timezone.
pub data Datetime : Type 0 where
  naive : ℕ → Datetime
  aware : Stamp → Datetime

-- `timedelta(seconds=n)`
abbrev pub add_seconds : Stamp → ℕ → Stamp
add_seconds t seconds = record t { instant = t.instant + seconds * 1000000 }
