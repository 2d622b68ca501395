-- ===== src/Transfer/Sending.antt =====
-- `sendLargePayloadToSocket` (server-side/source/Server.cpp:571-592), whatever the network does.
use dropbox_simulator.Common.{ℕ, ◌≡◌, ◌<◌, ◌⊎◌, ℤ, pos, negsuc, Bytes, List, [], ◌∷◌, ◌++◌, length}
use dropbox_simulator.Thread.{Result, done, exits, blocks, faults, diverges, Net}

-- The result of a send that has gone wrong.
abbrev Failed : Result ℤ × Net → Type 0
Failed (done (pos k), t) = ⊥
Failed (done (negsuc k), t) = Unit
Failed (faults, t) = Unit
Failed (exits, t) = ⊥
Failed (blocks, t) = ⊥
Failed (diverges, t) = ⊥

-- How a send of `sent`, the last of `total` bytes, may end: with all of it written, or gone wrong.
abbrev pub Sent : ℕ → List (ℤ × Bytes) → Net → Result ℤ × Net → Type 0
Sent total sent s (done (pos k), t) = (k ≡ total) × (t.outbox ≡ s.outbox ++ sent)
Sent total sent s (done (negsuc k), t) = Unit
Sent total sent s (faults, t) = Unit
Sent total sent s (exits, t) = ⊥
Sent total sent s (blocks, t) = ⊥
Sent total sent s (diverges, t) = ⊥

-- A write takes all, or less, or fails.
abbrev Written : ℤ → Bytes → Net → Result ℤ × Net → Type 0
Written socket bs s r =
    ((t : Net) × (r ≡ (done (pos (length bs)), t)) × (t.outbox ≡ s.outbox ++ ((socket, bs) ∷ [])))
    ⊎ ((m : ℕ) × (t : Net) × (m < length bs) × (r ≡ (done (pos m), t)))
    ⊎ ((t : Net) × (r ≡ (done (negsuc 0), t)))
