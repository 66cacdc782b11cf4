-- ===== src/Codec/Times.antt =====
-- pipe/json.go: the timing of a Scope in its envelope.
use rlng.Base.{ℕ, ◌≡◌, ◌≢◌, Option, none, some, ◌==◌, arith, if◌then◌else◌}
use rlng.Base.Int.{ℤ}
use rlng.Pipeline.Timing.{Timing, started_at, duration}

-- `scopeTimingJSON`
pub record TimingJson : Type 0 where
  pub started : ℕ
  pub duration_ns : ℤ

-- The timing in `MarshalJSON`: left out at the zero time.
unfoldable pub marshal_timing : Timing → Option TimingJson
marshal_timing t =
    if t.started_at == 0
    then none
    else some (record { started = t.started_at; duration_ns = t.duration })

-- The timing in `UnmarshalJSON`
unfoldable pub restore_timing : Option TimingJson → Timing → Timing
restore_timing none t = t
restore_timing (some j) t = record t { started_at = j.started; duration = j.duration_ns }

-- A Scope that a run has stamped reports the same start and the same duration after its envelope.
pub restore_timing-marshal_timing :
    (t blank : Timing)
    → t.started_at ≢ 0
    → (started_at (restore_timing (marshal_timing t) blank) ≡ started_at t)
      × (duration (restore_timing (marshal_timing t) blank) ≡ duration t)
unfolding marshal_timing restore_timing
restore_timing-marshal_timing t blank h = ground arith
