-- ===== src/Benchmark/Sidecar/Tests.antt =====
-- A process that says after 250 milliseconds that it is ready, and one that never does.
use fingerprint_full_matcher.Prelude.{ℕ, true, false, none, some, List, [], ◌∷◌, ◌≡◌, refl, arith}
use fingerprint_full_matcher.Prelude.Int.{ℤ, pos}
use fingerprint_full_matcher.Prelude.Result.{Result, ok, err}
use fingerprint_full_matcher.Benchmark.Sidecar.{
  Line, invalid_json, message, SidecarError, startup_error, System, Sidecar, start,
}
use fingerprint_full_matcher.Benchmark.Sidecar.Started.{IsStarted, start-total}

abbrev system : System
system = record {
  signature = some (80 ∷ 75 ∷ 3 ∷ 4 ∷ []);
  spawns = true;
  ends_at = none;
  delay = λ now. 1;
  health = λ port. ok tt;
  stops_on_terminate = false;
  stops_on_kill = true;
}

abbrev stopped : List (ℕ × Line) → Sidecar
stopped lines = record {
  process = false;
  client = none;
  spawned = false;
  stopped = false;
  clock = 1000;
  lines = lines;
}

abbrev lines : List (ℕ × Line)
lines = (1020, invalid_json) ∷ (1250, message (some "ready") (some (pos 8080))) ∷ []

connected :
    start system 400 300 (stopped lines)
    ≡ some (
      ok (pos 8080),
      record (stopped []) {
        process = true;
        client = some (pos 8080);
        spawned = true;
        clock = 1251;
      },
    )
unfolding start
connected = refl

timed_out :
    start system 400 150 (stopped lines)
    ≡ some (
      err (startup_error "timed out waiting for sidecar readiness"),
      record (stopped ((1250, message (some "ready") (some (pos 8080))) ∷ [])) {
        spawned = true;
        stopped = true;
        clock = 1151;
      },
    )
unfolding start
timed_out = refl

start-total_example :
    (r : Result SidecarError ℤ × Sidecar) × (start system 400 300 (stopped lines) ≡ some r)
    × IsStarted system (stopped lines) r
start-total_example = start-total system refl 300 400 (stopped lines) (omega arith) refl refl refl
