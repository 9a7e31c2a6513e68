-- ===== src/Security/KeyManager/Rotating/Doubled.antt =====
-- key_manager_v2.go: loops that are at work during a stop and a start go on with the new channel.
use chat_gateway.Prelude.{
  ℕ, zero, suc, ◌≡◌, ◌∙◌, refl, sym, ap, true, false, List, [], ◌∷◌, ◌++◌, replicate, append_assoc,
}
use chat_gateway.Security.KeyManager.Rotating.{
  Loop, busy, selecting, Rotating, not_rotating, start, stop, select, tick, Reach, here, next,
}

Reach-append : {s t u : Rotating} → Reach s t → Reach t u → Reach s u
Reach-append r here = r
Reach-append r (next q step) = next (Reach-append r q) step

-- A run that only moves loops.
pub record Moved (s : Rotating) (loops : List Loop) : Type 0 where
  pub end : Rotating
  pub run : Reach s end
  pub runs : end.running ≡ s.running
  pub stop_with : end.stop_chan ≡ s.stop_chan
  pub moved : end.loops ≡ loops

-- The hour of every loop strikes.
all_tick :
    (n c : ℕ) (before : List Loop) (s : Rotating)
    → s.loops ≡ before ++ replicate n (selecting c)
    → Moved s (before ++ replicate n busy)
all_tick zero c before s h = record {
  end = s;
  run = here;
  runs = refl;
  stop_with = refl;
  moved = h;
}
all_tick (suc n) c before s h =
    let s' : Rotating = record s { loops = before ++ busy ∷ replicate n (selecting c) } in
    let m =
      all_tick n c (before ++ busy ∷ []) s'
        (sym (append_assoc before (busy ∷ []) (replicate n (selecting c)))) in
    record {
      end = m.end;
      run = Reach-append (next here (tick c before (replicate n (selecting c)) h)) m.run;
      runs = m.runs;
      stop_with = m.stop_with;
      moved = m.moved ∙ append_assoc before (busy ∷ []) (replicate n busy);
    }

-- Every loop comes to its `select`.
all_select :
    (n : ℕ) (before : List Loop) (s : Rotating)
    → s.loops ≡ before ++ replicate n busy
    → Moved s (before ++ replicate n (selecting s.stop_chan))
all_select zero before s h = record {
  end = s;
  run = here;
  runs = refl;
  stop_with = refl;
  moved = h;
}
all_select (suc n) before s h =
    let s' : Rotating = record s { loops = before ++ selecting s.stop_chan ∷ replicate n busy } in
    let m =
      all_select n (before ++ selecting s.stop_chan ∷ []) s'
        (sym (append_assoc before (selecting s.stop_chan ∷ []) (replicate n busy))) in
    record {
      end = m.end;
      run = Reach-append (next here (select before (replicate n busy) h)) m.run;
      runs = m.runs;
      stop_with = m.stop_with;
      moved =
          m.moved
          ∙ append_assoc before (selecting s.stop_chan ∷ []) (replicate n (selecting s.stop_chan));
    }

-- A rotation that runs with `n` loops, all in their `select` on one channel that is open.
pub record RunsWith (n : ℕ) (s : Rotating) : Type 0 where
  pub on : s.running ≡ true
  pub waiting : s.loops ≡ replicate n (selecting s.stop_chan)

-- One stop and one start while the loops are at work leave one loop more.
one_more : (n : ℕ) (s : Rotating) → RunsWith n s → (t : Rotating) × Reach s t × RunsWith (suc n) t
one_more n s h =
    let m = all_tick n s.stop_chan [] s h.waiting in
    let off : Rotating = record m.end {
      running = false;
      closed = m.end.stop_chan ∷ m.end.closed;
    } in
    let on : Rotating = record off {
      running = true;
      stop_chan = suc off.stop_chan;
      loops = busy ∷ off.loops;
    } in
    let r = all_select (suc n) [] on (ap (λ (ls : List Loop). busy ∷ ls) m.moved) in
    (
      r.end,
      Reach-append (Reach-append m.run (next (next here (stop (m.runs ∙ h.on))) (start refl)))
          r.run,
      record {
        on = r.runs;
        waiting = r.moved ∙ ap (λ (c : ℕ). replicate (suc n) (selecting c)) (sym r.stop_with);
      },
    )

-- `StartAutoRotation` is to leave one loop, but for every number there is a run of starts and stops,
-- each stop before a start, after which that many loops wait on the one open channel: a loop that is
-- at work on the keys during a stop and the next start reads the new channel and stays.
pub loops_pile_up : (n : ℕ) → (s : Rotating) × Reach not_rotating s × RunsWith (suc n) s
unfolding not_rotating
loops_pile_up zero =
    let on : Rotating = record not_rotating { running = true; stop_chan = 1; loops = busy ∷ [] } in
    (
      record on { loops = selecting 1 ∷ [] },
      next (next here (start refl)) (select [] [] refl),
      record { on = refl; waiting = refl },
    )
loops_pile_up (suc n) =
    let (s, r, h) = loops_pile_up n in
    let (t, q, more) = one_more (suc n) s h in (t, Reach-append r q, more)
