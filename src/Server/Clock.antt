-- ===== src/Server/Clock.antt =====
-- clock/clock.go: a clock whose hand moves once a second.
use nfs4go.Common.{ℕ, ◌+◌, ltb, if◌then◌else◌}
use nfs4go.Worker.Cache.{second}

-- `MustIncrement`, where the clock shows `now`.
unfoldable pub must_increment : ℕ → ℕ → ℕ
must_increment now prev = if ltb now prev then now + second else now
