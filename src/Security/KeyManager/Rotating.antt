-- ===== src/Security/KeyManager/Rotating.antt =====
-- key_manager_v2.go, `StartAutoRotation`, `StopAutoRotation` and `autoRotationLoop`: the loops that a
-- manager starts, as interleaved steps. Start and stop hold the mutex; a loop reads the field
-- `stopChan` without it, each time that it comes to its `select`. A channel is a number, 0 the nil
-- one; what a round of the loop does to the keys is in Upkeep.
pub mod Sound
pub mod Doubled
mod Examples
use chat_gateway.Prelude.{if◌then◌else◌, ℕ, suc, ◌≡◌, Bool, true, false, List, [], ◌∷◌, ◌++◌}
use chat_gateway.Storage.Collection.{In}

-- A loop outside its `select`, at its start or in `checkAndRotateKeys`, or in it with a channel.
pub data Loop : Type 0 where
  busy : Loop
  selecting : ℕ → Loop

pub record Rotating : Type 0 where
  pub running : Bool
  pub stop_chan : ℕ
  pub closed : List ℕ
  pub loops : List Loop

unfoldable pub not_rotating : Rotating
not_rotating = record { running = false; stop_chan = 0; closed = []; loops = [] }

-- A start while it runs, or a stop while it does not, changes nothing.
pub data Step (s : Rotating) : Rotating → Type 0 where
  start :
      s.running ≡ false
      → Step s (record s { running = true; stop_chan = suc s.stop_chan; loops = busy ∷ s.loops })
  stop : s.running ≡ true → Step s (record s { running = false; closed = s.stop_chan ∷ s.closed })
  -- The loop comes to its `select` and reads the field.
  select :
      (before after : List Loop)
      → s.loops ≡ before ++ busy ∷ after
      → Step s (record s { loops = before ++ selecting s.stop_chan ∷ after })
  tick :
      (c : ℕ) (before after : List Loop)
      → s.loops ≡ before ++ selecting c ∷ after
      → Step s (record s { loops = before ++ busy ∷ after })
  end :
      (c : ℕ) (before after : List Loop)
      → s.loops ≡ before ++ selecting c ∷ after
      → In c s.closed
      → Step s (record s { loops = before ++ after })

pub data Reach (s : Rotating) : Rotating → Type 0 where
  here : Reach s s
  next : {t u : Rotating} → Reach s t → Step t u → Reach s u

-- `StartAutoRotation` as a function; its loop begins with a check of the keys.
unfoldable pub start_auto_rotation : Rotating → Rotating
start_auto_rotation s =
    if s.running
    then s
    else record s { running = true; stop_chan = suc s.stop_chan; loops = busy ∷ s.loops }
