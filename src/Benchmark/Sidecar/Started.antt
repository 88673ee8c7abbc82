-- ===== src/Benchmark/Sidecar/Started.antt =====
-- How `start` ends.
use fingerprint_full_matcher.Prelude.{
  ℕ, zero, suc, ◌+◌, ◌-◌, ◌<◌, ◌≤◌, Bool, true, false, Option, none, some, List, [], ◌∷◌, leb, ltb,
  length, ◌≡◌, ◌⊎◌, ◌||◌, inl, inr, refl, ap, ◌∙◌, arith, Bool-cases, ltb→lt, Option-cases,
}
use fingerprint_full_matcher.Prelude.Int.{ℤ}
use fingerprint_full_matcher.Prelude.Result.{Result, ok, err}
use fingerprint_full_matcher.Benchmark.Sidecar.{
  Line, SidecarError, startup_error, os_error, System, Sidecar, is_running, close, get, timeout,
  waited, ready_port, connect, wait_ready, close_and_raise, finish, spawned_or_not, check_signature,
  start_unless, same_bytes, start,
}

module _ (system : System) where
  -- The rounds that are left at most: one for each line, and one for each millisecond.
  abbrev bound : ℕ → Sidecar → ℕ
  bound deadline s = (deadline - s.clock) + length s.lines

  timeout-ge : (deadline now : ℕ) → 10 ≤ timeout system deadline now
  unfolding timeout
  timeout-ge deadline now = ground arith

  get-lt :
      (deadline wait now later : ℕ) (lines : List (ℕ × Line))
      → now < deadline
      → 10 ≤ wait
      → (get system wait lines now).2 ≤ later
      → (deadline - later) + length (get system wait lines now).1 < (deadline - now) + length lines
  unfolding get
  get-lt deadline wait now later [] h k le = omega arith
  get-lt deadline wait now later ((at, line) ∷ lines) h k le = ground arith

  waited-lt :
      (deadline : ℕ) (s : Sidecar)
      → s.clock < deadline
      → bound deadline (waited system deadline s).1 < bound deadline s
  unfolding waited
  waited-lt deadline s h =
      get-lt deadline (timeout system deadline s.clock) s.clock _ s.lines h
        (timeout-ge deadline s.clock) (omega arith)

  -- Some line says that the service is ready at the port.
  abbrev pub Announced : ℤ → List (ℕ × Line) → Type 0
  Announced port [] = ⊥
  Announced port ((at, line) ∷ lines) =
      (ready_port system (some line) ≡ some port) ⊎ Announced port lines

  -- The service is connected, or an exception is on its way; the process is the same.
  abbrev Ended : Sidecar → Result SidecarError ℤ × Sidecar → Type 0
  Ended s (ok port, s') =
      (s'.process ≡ s.process)
      × (s'.client ≡ some port)
      × (system.health port ≡ ok tt)
      × Announced port s.lines
  Ended s (err e, s') = s'.process ≡ s.process

  get-Announced :
      (port : ℤ) (wait now : ℕ) (lines : List (ℕ × Line))
      → (ready_port system (get system wait lines now).0 ≡ some port)
        ⊎ Announced port (get system wait lines now).1
      → Announced port lines
  unfolding get ready_port
  get-Announced port wait now [] (inl h) = cc h
  get-Announced port wait now [] (inr h) = h
  get-Announced port wait now ((at, line) ∷ lines) h = elim (Bool-cases (leb at (now + wait))) [
    | inl here ↦ rw here at h
    | inr later ↦
        let split : (◌≡◌ {A = Option ℤ} none (some port)) ⊎ Announced port ((at, line) ∷ lines) =
          rw later at h in
        elim split [ inl impossible ↦ cc impossible | inr announced ↦ announced ]
  ]

  Ended-connect :
      (s : Sidecar) (lines : List (ℕ × Line)) (now : ℕ) (port : ℤ)
      → Announced port s.lines
      → Ended s (connect system port (record s { lines = lines; clock = now }))
  unfolding connect
  Ended-connect s lines now port announced = health-cases (system.health port) refl
    where
      health-cases :
          (r : Result SidecarError (Unit {0}))
          → system.health port ≡ r
          → Ended s (
            elim r [ ok u ↦ ok port | err e ↦ err e ],
            record s { client = some port; lines = lines; clock = now },
          )
      health-cases (ok u) h = (refl, refl, h, announced)
      health-cases (err e) h = refl

  Ended-waited :
      (deadline : ℕ) (s : Sidecar) (r : Result SidecarError ℤ × Sidecar)
      → Ended (waited system deadline s).1 r
      → Ended s r
  unfolding waited
  Ended-waited deadline s (ok port, s') (process, client, health, announced) = (
    process,
    client,
    health,
    get-Announced port (timeout system deadline s.clock) s.clock s.lines (inr announced),
  )
  Ended-waited deadline s (err e, s') h = h

  -- Any fuel above the bound is enough: the loop ends.
  wait_ready-total :
      (fuel deadline : ℕ) (s : Sidecar)
      → bound deadline s < fuel
      → (r : Result SidecarError ℤ × Sidecar) × (wait_ready system fuel deadline s ≡ some r)
        × Ended s r
  unfolding wait_ready
  wait_ready-total zero deadline s h = elim h [ ]
  wait_ready-total (suc fuel) deadline s h =
      let (line, s') = waited system deadline s in
      elim (Bool-cases (ltb s.clock deadline)) [
        | inr late ↦
            ((err (startup_error "timed out waiting for sidecar readiness"), s), rw late refl, refl)
        | inl early ↦ elim (Bool-cases (is_running system s)) [
          | inr ended ↦ (
            (err (startup_error "sidecar exited during startup"), s),
            rw (early, ended) refl,
            refl,
          )
          | inl running ↦ elim (Option-cases (ready_port system line)) [
            | inr (port, ready) ↦ (
              connect system port s',
              rw (early, running, ready, wait_ready) refl,
              Ended-connect s _ _ port (
                  get-Announced port (timeout system deadline s.clock) s.clock s.lines (inl ready)),
            )
            | inl other ↦
                let (r, e, ended) =
                  wait_ready-total fuel deadline s'
                    (omega (arith, waited-lt deadline s (ltb→lt _ _ early))) in
                (r, rw (early, running, other) e, Ended-waited deadline s r ended)
          ]
        ]
      ]

  close-ends :
      (s : Sidecar)
      → system.stops_on_terminate || system.stops_on_kill ≡ true
      → s.process ≡ true
      → ((close system s).0 ≡ ok tt)
        × ((close system s).1.process ≡ false)
        × ((close system s).1.client ≡ none)
        × (is_running system (close system s).1 ≡ false)
  unfolding close
  close-ends s stops process = (ground arith, ground arith, ground arith, ground arith)

  abbrev pub IsStarted : Sidecar → Result SidecarError ℤ × Sidecar → Type 0
  IsStarted s (ok port, s') =
      (s'.process ≡ true)
      × (s'.client ≡ some port)
      × (system.health port ≡ ok tt)
      × Announced port s.lines
  IsStarted s (err e, s') =
      (s'.process ≡ false) × (s'.client ≡ none) × (is_running system s' ≡ false)

  close_and_raise-IsStarted :
      (s : Sidecar) (r : Result SidecarError ℤ × Sidecar)
      → system.stops_on_terminate || system.stops_on_kill ≡ true
      → Ended (record s { process = true; spawned = true }) r
      → IsStarted s (close_and_raise system r)
  unfolding close_and_raise
  close_and_raise-IsStarted s (ok port, s') stops ended = ended
  close_and_raise-IsStarted s (err e, s') stops ended =
      let (closed, process, client, gone) = close-ends s' stops ended in
      rw (closed) (process, client, gone)

  module _ (stops : system.stops_on_terminate || system.stops_on_kill ≡ true)
      (startup_timeout fuel : ℕ) (s : Sidecar) (enough : startup_timeout + length s.lines < fuel)
      (new : s.process ≡ false) (no_client : s.client ≡ none)
      (not_spawned : s.spawned ≡ false) where
    abbrev Starts : Option (Result SidecarError ℤ × Sidecar) → Type 0
    Starts ended = (r : Result SidecarError ℤ × Sidecar) × (ended ≡ some r) × IsStarted s r

    unchanged : (e : SidecarError) → Starts (some (err e, s))
    unfolding is_running
    unchanged e = ((err e, s), refl, (new, no_client, ground arith))

    spawned_or_not-Starts :
        (spawns : Bool) → Starts (spawned_or_not system spawns fuel startup_timeout s)
    unfolding spawned_or_not finish
    spawned_or_not-Starts false = unchanged os_error
    spawned_or_not-Starts true =
        let (r, e, ended) =
          wait_ready-total fuel (s.clock + startup_timeout)
            (record s { process = true; spawned = true }) (omega arith) in
        (close_and_raise system r, ap (finish system) e, close_and_raise-IsStarted s r stops ended)

    check_signature-Starts :
        (signature : Option (List ℕ))
        → Starts (check_signature system signature fuel startup_timeout s)
    unfolding check_signature
    check_signature-Starts none = unchanged _
    check_signature-Starts (some bytes) =
        elim (Bool-cases (same_bytes bytes (80 ∷ 75 ∷ 3 ∷ 4 ∷ []))) [
          | inl jar ↦ rw jar (spawned_or_not-Starts system.spawns)
          | inr other ↦ rw other (unchanged _)
        ]

    -- For a sidecar that was not started, and a process that one of the two signals ends: with fuel for the
    -- startup's milliseconds and the lines, `start` ends. If it returns, the process and the client are set,
    -- some line of the process said that it is ready at the client's port, and the service there is
    -- healthy; if it raises, there is neither process nor client, and no process is left running.
    pub start-total :
        (r : Result SidecarError ℤ × Sidecar) × (start system fuel startup_timeout s ≡ some r)
        × IsStarted s r
    unfolding start start_unless
    start-total =
        let (r, e, started) = check_signature-Starts system.signature in
        (r, ap (λ process. start_unless system process fuel startup_timeout s) new ∙ e, started)
