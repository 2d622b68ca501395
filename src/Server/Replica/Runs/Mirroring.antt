-- ===== src/Server/Replica/Runs/Mirroring.antt =====
-- The backup server follows the primary (server-side/source/Server.cpp:149-261 and 899-1049).
use dropbox_simulator.Common.{
  ℕ, suc, ◌+◌, ◌≡◌, refl, sym, ap, ◌∙◌, ℤ, Bytes, List, [], ◌++◌, append_assoc, append-nil, arith,
}
use dropbox_simulator.Thread.{Answer, done}
use dropbox_simulator.Server.{World}
use dropbox_simulator.Server.Commands.Peers.{facing}
use dropbox_simulator.Server.Commands.Serving.{delivered, delivered-append}
use dropbox_simulator.Server.Replica.{serve_primary, serve_primary_loop}
use dropbox_simulator.Server.Replica.Runs.{
  written_to, IsPrimary, Mirrors, Serves, connects, uploads, deletes, Runs, start, goes_on,
}
use dropbox_simulator.Server.Replica.Runs.Messages.{written_to-append}
use dropbox_simulator.Server.Replica.Runs.Steps.{
  Repeated, connection_step, upload_step, deletion_step,
}

Serves-Repeated :
    {k : ℤ} {w u : World} → Serves k w u → IsPrimary k w → IsPrimary k u × Repeated k w u
Serves-Repeated {k} (connects {w} name connection socket ok is_conn in_range short welcome other)
      p =
    connection_step k w name connection socket ok is_conn in_range short welcome other p
Serves-Repeated {k}
      (uploads {w} current command name payload kind rest ds at kind_fits named path_named short
        some_bytes small writable is_upload other others)
      p =
    upload_step k w current command name payload kind rest ds at kind_fits named path_named short
      some_bytes small writable is_upload other others p
Serves-Repeated {k} (deletes {w} current command name ds at named path_named short is_delete others)
      p =
    deletion_step k w current command name ds at named path_named short is_delete others p

-- One more round of the loop.
serve_primary_loop-done :
    (rounds : ℕ) (w v : World)
    → serve_primary w ≡ (done tt, v)
    → serve_primary_loop (suc rounds) w ≡ serve_primary_loop rounds v
unfolding serve_primary_loop
serve_primary_loop-done rounds w v e = rw e refl

-- A whole run, repeated by every backup that has all that the primary had at its start.
pub runs_repeated :
    {k : ℤ} {n : ℕ} {p u : World}
    → Runs k n p u
    → IsPrimary k p
    → IsPrimary k u
      × ((ms : List (ℤ × Bytes)) × (u.net.outbox ≡ p.net.outbox ++ ms)
          × ((b : World) (rounds : ℕ) (rest : List Answer)
              → Mirrors p b
              → (c : World) × (serve_primary_loop
                    (n + rounds)
                    (facing (delivered (written_to k ms) ++ rest) b)
                  ≡ serve_primary_loop rounds (facing rest c))
                × Mirrors u c))
unfolding written_to
runs_repeated {p = p} start primary = (
  primary,
  (
    [],
    sym (append-nil p.net.outbox),
    λ b rounds rest mirrors. let e : 0 + rounds ≡ rounds = omega arith in (b, rw e refl, mirrors),
  ),
)
runs_repeated {k} {p = p} (goes_on {n} {t = t} serves runs) primary =
    let (primary', (ms, out, once)) = Serves-Repeated serves primary in
    let (primary'', (ns, out', later)) = runs_repeated runs primary' in
    (
      primary'',
      (
        ms ++ ns,
        out' ∙ ap (λ o. o ++ ns) out ∙ append_assoc p.net.outbox ms ns,
        λ b rounds rest mirrors.
            let after_one = delivered (written_to k ns) ++ rest in
            let (c, r, mirrors') = once b after_one mirrors in
            let (d, r', mirrors'') = later c rounds rest mirrors' in
            let e : suc n + rounds ≡ suc (n + rounds) = omega arith in
            let split : delivered (written_to k (ms ++ ns)) ++ rest
                ≡ delivered (written_to k ms) ++ after_one =
              ap (λ o. delivered o ++ rest) (written_to-append k ms ns)
              ∙ delivered-append (written_to k ms) (written_to k ns) rest in
            (
              d,
              rw (e, split)
                  (serve_primary_loop-done (n + rounds)
                      (facing (delivered (written_to k ms) ++ after_one) b) (facing after_one c) r
                    ∙ r'),
              mirrors'',
            ),
      ),
    )

-- What the primary server `p` writes to the socket `k` of a backup while it serves `n` clients, one
-- after the other, makes a backup `b` that has all that it had follow it: after `n` rounds of its
-- loop, whatever comes next, the backup has the same users with the same devices in the same
-- slots, the same files and the same directories as the primary. (With whole writes, both
-- semaphores free and a well-formed table at the primary, the socket of the backup once among its
-- servers and used for no client; with connections that are let in, of users whose names have less
-- than 39 bytes, and uploads and deletions by users who are there, of files with paths of less than
-- 100 bytes, the uploads as `uploadFileCommand` takes them, to paths that both accept.)
pub serve_primary_loop-Mirrors :
    {k : ℤ} {n : ℕ} {p u : World} (b : World) (rounds : ℕ) (rest : List Answer)
    → Runs k n p u
    → IsPrimary k p
    → Mirrors p b
    → (ms : List (ℤ × Bytes)) × (c : World) × (u.net.outbox ≡ p.net.outbox ++ ms)
      × (serve_primary_loop (n + rounds) (facing (delivered (written_to k ms) ++ rest) b)
          ≡ serve_primary_loop rounds (facing rest c))
      × Mirrors u c
serve_primary_loop-Mirrors b rounds rest runs primary mirrors =
    let (_, (ms, out, follows)) = runs_repeated runs primary in
    let (c, r, mirrors') = follows b rounds rest mirrors in (ms, c, out, r, mirrors')
