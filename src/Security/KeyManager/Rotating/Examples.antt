-- ===== src/Security/KeyManager/Rotating/Examples.antt =====
-- The theorems on the loops of the rotation at a run with one loop.
use chat_gateway.Prelude.{ℕ, ◌≡◌, refl, true, false, [], ◌∷◌}
use chat_gateway.Storage.Collection.{In}
use chat_gateway.Security.KeyManager.Rotating.{
  selecting, Rotating, not_rotating, start, stop, select, Reach, here, next,
}
use chat_gateway.Security.KeyManager.Rotating.Sound.{rotation_stops}

abbrev stopped : Rotating
stopped = record { running = false; stop_chan = 1; closed = 1 ∷ []; loops = selecting 1 ∷ [] }

stopped_run : Reach not_rotating stopped
unfolding not_rotating
stopped_run = next (next (next here (start refl)) (select [] [] refl)) (stop refl)

rotation_stops_example :
    (stopped.running ≡ true → ¬ In stopped.stop_chan stopped.closed)
    × (stopped.running ≡ false → (c : ℕ) → In (selecting c) stopped.loops → In c stopped.closed)
rotation_stops_example = rotation_stops stopped stopped_run
