-- ===== src/Benchmark/Sidecar.antt =====
-- src/fingerprint_benchmark/sourceafis_sidecar.py: the life of the sidecar's process. Times are whole
-- milliseconds. The queue of the lines that look like JSON is the list of those that the process writes,
-- with the time of each; the other output is left out. The loop of `start` takes fuel.
-- A port that the process announces is one that the client's constructor takes.
pub mod Started
mod Tests
use fingerprint_full_matcher.Prelude.{
  ℕ, zero, suc, ◌+◌, ◌-◌, min, max, String, Bool, true, false, not, ◌&&◌, Option, none, some, List,
  [], ◌∷◌, leb, ltb, str_eq, if◌then◌else◌, ◌==◌,
}
use fingerprint_full_matcher.Prelude.Int.{ℤ}
use fingerprint_full_matcher.Prelude.Result.{Result, ok, err}

-- `json.loads` of a line; `none` is a key that is missing or a value of another type.
pub data Line : Type 0 where
  invalid_json : Line
  message : Option String → Option ℤ → Line

pub data SidecarError : Type 0 where
  already_started : SidecarError
  startup_error : String → SidecarError
  os_error : SidecarError
  timeout_expired : SidecarError
  client_error : SidecarError

-- What the file and the system do: the first bytes of the JAR, whether `Popen` succeeds, when the process
-- ends by itself, how long after its turn came the program goes on, what the health check of the service
-- at a port gives, and which of the two signals ends the process within five seconds.
pub record System : Type 0 where
  pub signature : Option (List ℕ)
  pub spawns : Bool
  pub ends_at : Option ℕ
  pub delay : ℕ → ℕ
  pub health : ℤ → Result SidecarError (Unit {0})
  pub stops_on_terminate : Bool
  pub stops_on_kill : Bool

-- `spawned`: there was a process, and `stopped`: a signal has ended it. `process` says that the attribute is
-- not `None`, and `client` is the port of the client.
pub record Sidecar : Type 0 where
  pub process : Bool
  pub client : Option ℤ
  pub spawned : Bool
  pub stopped : Bool
  pub clock : ℕ
  pub lines : List (ℕ × Line)

unfoldable pub same_bytes : List ℕ → List ℕ → Bool
same_bytes [] [] = true
same_bytes (x ∷ xs) (y ∷ ys) = x == y && same_bytes xs ys
same_bytes xs ys = false

module _ (system : System) where
  unfoldable pub has_ended : Option ℕ → ℕ → Bool
  has_ended none now = false
  has_ended (some t) now = leb t now

  -- `process.poll() is None`
  unfoldable pub is_running : Sidecar → Bool
  unfolding has_ended
  is_running s = s.spawned && not s.stopped && not (has_ended system.ends_at s.clock)

  stop : Bool → Sidecar → Result SidecarError (Unit {0}) × Sidecar
  stop true s = (ok tt, record s { stopped = true })
  stop false s = (err timeout_expired, s)

  -- `process.terminate()`, and `process.kill()` where that was of no use.
  unfoldable pub end_process : Sidecar → Result SidecarError (Unit {0}) × Sidecar
  unfolding stop
  end_process s =
      if system.stops_on_terminate
      then (ok tt, record s { stopped = true })
      else stop system.stops_on_kill s

  unfoldable pub close : Sidecar → Result SidecarError (Unit {0}) × Sidecar
  unfolding end_process is_running
  close s =
      let closed : Sidecar = record s { client = none; process = false } in
      if s.process && is_running s then end_process closed else (ok tt, closed)

  -- How long one round waits, and what the queue gives: the next line if it comes in time.
  unfoldable pub timeout : ℕ → ℕ → ℕ
  timeout deadline now = min 100 (max 10 (deadline - now))

  unfoldable pub get : ℕ → List (ℕ × Line) → ℕ → Option Line × List (ℕ × Line) × ℕ
  get wait [] now = (none, [], now + wait)
  get wait ((at, line) ∷ lines) now =
      if leb at (now + wait)
      then (some line, lines, max now at)
      else (none, (at, line) ∷ lines, now + wait)

  -- The port of a line that says that the service is ready.
  unfoldable pub ready_port : Option Line → Option ℤ
  ready_port (some (message (some status) port)) = if str_eq status "ready" then port else none
  ready_port line = none

  unfoldable pub connect : ℤ → Sidecar → Result SidecarError ℤ × Sidecar
  connect port s = (
    elim (system.health port) [ ok u ↦ ok port | err e ↦ err e ],
    record s { client = some port },
  )

  -- The state after one round's wait.
  unfoldable pub waited : ℕ → Sidecar → Option Line × Sidecar
  unfolding get timeout
  waited deadline s =
      let (line, lines, now) = get (timeout deadline s.clock) s.lines s.clock in
      (line, record s { lines = lines; clock = now + system.delay now })

  unfoldable pub wait_ready : ℕ → ℕ → Sidecar → Option (Result SidecarError ℤ × Sidecar)
  unfolding is_running waited ready_port connect
  wait_ready zero deadline s = none
  wait_ready (suc fuel) deadline s =
      let (line, s') = waited deadline s in
      let rest = wait_ready fuel deadline s' in
      if not (ltb s.clock deadline)
      then some (err (startup_error "timed out waiting for sidecar readiness"), s)
      else if not (is_running s)
      then some (err (startup_error "sidecar exited during startup"), s)
      else elim (ready_port line) [ none ↦ rest | some port ↦ some (connect port s') ]

  -- `except BaseException: self.close(); raise`
  unfoldable pub close_and_raise : Result SidecarError ℤ × Sidecar → Result SidecarError ℤ × Sidecar
  unfolding close
  close_and_raise (ok port, s) = (ok port, s)
  close_and_raise (err e, s) =
      let (r, s') = close s in (elim r [ ok u ↦ err e | err raised ↦ err raised ], s')

  unfoldable pub finish :
      Option (Result SidecarError ℤ × Sidecar) → Option (Result SidecarError ℤ × Sidecar)
  unfolding close_and_raise
  finish none = none
  finish (some r) = some (close_and_raise r)

  -- After `Popen`, which succeeded or not.
  unfoldable pub spawned_or_not : Bool → ℕ → ℕ → Sidecar → Option (Result SidecarError ℤ × Sidecar)
  unfolding wait_ready finish
  spawned_or_not true fuel startup_timeout s =
      finish
        (wait_ready fuel (s.clock + startup_timeout) (record s { process = true; spawned = true }))
  spawned_or_not false fuel startup_timeout s = some (err os_error, s)

  unfoldable pub check_signature :
      Option (List ℕ) → ℕ → ℕ → Sidecar → Option (Result SidecarError ℤ × Sidecar)
  unfolding same_bytes
  check_signature none fuel startup_timeout s =
      some (err (startup_error "sidecar JAR does not exist"), s)
  check_signature (some bytes) fuel startup_timeout s =
      let spawned = spawned_or_not system.spawns fuel startup_timeout s in
      if same_bytes bytes (80 ∷ 75 ∷ 3 ∷ 4 ∷ [])
      then spawned
      else some (err (startup_error "sidecar artifact is not a valid JAR/ZIP file"), s)

  unfoldable pub start_unless : Bool → ℕ → ℕ → Sidecar → Option (Result SidecarError ℤ × Sidecar)
  unfolding check_signature
  start_unless true fuel startup_timeout s = some (err already_started, s)
  start_unless false fuel startup_timeout s =
      check_signature system.signature fuel startup_timeout s

  unfoldable pub start : ℕ → ℕ → Sidecar → Option (Result SidecarError ℤ × Sidecar)
  unfolding start_unless spawned_or_not
  start fuel startup_timeout s = start_unless s.process fuel startup_timeout s
