-- ===== src/Server/Heartbeats.antt =====
-- The thread that is to send the heartbeats of the primary
-- (server-side/source/Server.cpp:1208-1234; the calls that would start it are commented out). What
-- `clock()` returns, one reading after the other, is a list; the times are whole numbers, which a
-- `double` holds as they are up to 2^53.
use dropbox_simulator.Common.{
  ℕ, suc, ◌+◌, ◌-◌, ◌*◌, ◌≡◌, ◌≤◌, refl, sym, ap, ◌∙◌, ℤ, Bytes, List, [], ◌∷◌, append-nil, concat,
  map, replicate, ltb, ltb→lt, if◌then◌else◌, arith, Bool-cases, inl, inr,
}
use dropbox_simulator.Wire.Laws.{length-to_le}
use dropbox_simulator.Thread.{pure, done, after, gets, ◌>>=◌, ◌>>◌}
use dropbox_simulator.Wire.{to_le}
use dropbox_simulator.Server.{World, Server, send}
use dropbox_simulator.Server.Backups.{for_each_server, server_sockets}
use dropbox_simulator.Server.Session.Broadcast.{
  Steady, having_sent, having_sent_twice, sent_to, send_lem, for_each_server_lem,
}

abbrev pub heartbeat_empty : ℕ
heartbeat_empty = 1

-- One heartbeat: a `PropagationPackage`, which is an `int`, to each backup server.
unfoldable pub beat : Server (Unit {0})
beat = do
  servers ← gets (λ w. w.servers)
  for_each_server (λ socket. send socket (to_le 4 heartbeat_empty)) servers

-- The loop, for the readings that are still to come; `counter` and `previous` are `timeCounter`
-- and `previousTime`, and `period` is `NUM_SECONDS * CLOCKS_PER_SEC`.
unfoldable pub heartbeat_loop : ℕ → ℕ → ℕ → List ℕ → Server (Unit {0})
heartbeat_loop period counter previous [] = pure tt
heartbeat_loop period counter previous (now ∷ readings) =
    let elapsed = counter + (now - previous) in
    let due = ltb period elapsed in
    let rest = heartbeat_loop period (if due then elapsed - period else elapsed) now readings in
    if due then (beat >> rest) else rest

abbrev pub num_seconds : ℕ
num_seconds = 3

-- `sendHeartbeatThreadFunction`, where the first reading is `start`.
unfoldable pub send_heartbeats : ℕ → ℕ → List ℕ → Server (Unit {0})
send_heartbeats clocks_per_sec start = heartbeat_loop (num_seconds * clocks_per_sec) 0 start

-- The clock never goes back, and is read at least once in a period.
abbrev pub Ticks : ℕ → ℕ → List ℕ → Type 0
Ticks period previous [] = Unit
Ticks period previous (now ∷ readings) =
    (previous ≤ now) × (now ≤ previous + period) × Ticks period now readings

abbrev pub last_reading : ℕ → List ℕ → ℕ
last_reading previous [] = previous
last_reading previous (now ∷ readings) = last_reading now readings

-- What goes out in one beat.
abbrev pub heartbeats : World → List (ℤ × Bytes)
heartbeats w = concat (map (λ k. sent_to k (to_le 4 heartbeat_empty)) (server_sockets w.servers))

beat_lem : (w : World) → Steady w → beat w ≡ (done tt, having_sent (heartbeats w) w)
unfolding beat
beat_lem w h =
    for_each_server_lem (λ socket. send socket (to_le 4 heartbeat_empty))
      (λ u socket. sent_to socket (to_le 4 heartbeat_empty)) (λ xs u k. refl)
      (λ k u steady.
        send_lem k (to_le 4 heartbeat_empty) u steady
          (omega (arith, length-to_le 4 heartbeat_empty)))
      w.servers w h

suc_mul : (n m : ℕ) → suc n * m ≡ m + n * m
suc_mul n m = omega arith

heartbeat_loop_lem :
    (period counter previous : ℕ) (readings : List ℕ) (w : World)
    → Steady w
    → counter ≤ period
    → Ticks period previous readings
    → (n : ℕ) × (left : ℕ) × (heartbeat_loop period counter previous readings w
        ≡ (done tt, having_sent (concat (replicate n (heartbeats w))) w))
      × (n * period + left + previous ≡ counter + last_reading previous readings)
      × (left ≤ period)
      × (previous ≤ last_reading previous readings)
unfolding heartbeat_loop
heartbeat_loop_lem period counter previous [] w h c t = (
  0,
  counter,
  ap (λ o. (done tt, record w { net = record w.net { outbox = o } }))
      (sym (append-nil w.net.outbox)),
  omega arith,
  c,
  omega arith,
)
heartbeat_loop_lem period counter previous (now ∷ readings) w h c (up, soon, t) =
    elim (Bool-cases (ltb period (counter + (now - previous)))) [
      | inl due ↦
          let (n, left, r, e, l, m) =
            heartbeat_loop_lem period (counter + (now - previous) - period) now readings
              (having_sent (heartbeats w) w)
              (record { whole_writes = h.whole_writes; memory = h.memory }) (ground arith) t in
          (
            suc n,
            left,
            rw due (
                after _ (beat_lem w h) (
                  r
                  ∙ ap (λ u. (done tt, u))
                      (having_sent_twice (heartbeats w) (concat (replicate n (heartbeats w))) w))),
            omega (arith, suc_mul n period, ltb→lt period (counter + (now - previous)) due),
            l,
            omega arith,
          )
      | inr early ↦
          let (n, left, r, e, l, m) =
            heartbeat_loop_lem period (counter + (now - previous)) now readings w h (ground arith)
              t in
          (n, left, rw early r, omega arith, l, omega arith)
    ]

-- Up to any reading of the clock, the thread has sent to each backup server, again and again, one
-- heartbeat, and nothing else; the time since its start is at least one period of three seconds
-- for each of them, and at most one period more. (With whole writes, a clock that never goes back
-- and is read at least once in a period.)
pub send_heartbeats_lem :
    (clocks_per_sec start : ℕ) (readings : List ℕ) (w : World)
    → Steady w
    → Ticks (num_seconds * clocks_per_sec) start readings
    → (n : ℕ) × (send_heartbeats clocks_per_sec start readings w
        ≡ (done tt, having_sent (concat (replicate n (heartbeats w))) w))
      × (n * (num_seconds * clocks_per_sec) ≤ last_reading start readings - start)
      × (last_reading start readings - start ≤ suc n * (num_seconds * clocks_per_sec))
unfolding send_heartbeats
send_heartbeats_lem clocks_per_sec start readings w h t =
    let period = num_seconds * clocks_per_sec in
    let (n, left, r, e, l, m) = heartbeat_loop_lem period 0 start readings w h (omega arith) t in
    (n, r, omega arith, omega (arith, suc_mul n period))
