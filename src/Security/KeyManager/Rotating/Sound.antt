-- ===== src/Security/KeyManager/Rotating/Sound.antt =====
-- key_manager_v2.go: no channel is closed twice, and a stop reaches every loop.
use chat_gateway.Prelude.{
  ℕ, suc, ◌≤◌, ◌≡◌, ◌⊎◌, ◌∙◌, inl, inr, refl, sym, subst, true, false, List, [], ◌∷◌, ◌++◌, All,
  All-append, arith,
}
use chat_gateway.Storage.Collection.{In}
use chat_gateway.Security.KeyManager.Rotating.{
  Loop, busy, selecting, Rotating, not_rotating, Step, start, stop, select, tick, end, Reach, here,
  next,
}

-- A loop that waits will see a stop: its channel is closed, or the one that a stop would close.
abbrev pub HeedsStop : List ℕ → ℕ → Loop → Type 0
HeedsStop closed stop_chan busy = Unit {0}
HeedsStop closed stop_chan (selecting c) = In c closed ⊎ (c ≡ stop_chan)

pub record IsSound (s : Rotating) : Type 0 where
  pub old : All (λ c. c ≤ s.stop_chan) s.closed
  -- The channel that `close` would close is open.
  pub opened : s.running ≡ true → ¬ In s.stop_chan s.closed
  pub stopped : s.running ≡ false → (s.loops ≡ []) ⊎ In s.stop_chan s.closed
  pub heeding : All (HeedsStop s.closed s.stop_chan) s.loops

All-middle {ℓ} :
    {A : Type 0} (P : A → Type ℓ) (xs : List A) (y : A) (ys : List A)
    → All P (xs ++ y ∷ ys)
    → All P xs × P y × All P ys
All-middle P [] y ys h = (tt, h.0, h.1)
All-middle P (x ∷ xs) y ys h =
    let (left, this, right) = All-middle P xs y ys h.1 in ((h.0, left), this, right)

below_new : (n : ℕ) (cs : List ℕ) → All (λ c. c ≤ n) cs → All (λ c. c ≤ suc n) cs
below_new n [] h = tt
below_new n (c ∷ cs) h = (omega (arith, h.0), below_new n cs h.1)

new_unused : (n : ℕ) (cs : List ℕ) → All (λ c. c ≤ n) cs → ¬ In (suc n) cs
new_unused n [] h there = absurd there
new_unused n (c ∷ cs) h (inl same) = omega (arith, h.0, same)
new_unused n (c ∷ cs) h (inr there) = new_unused n cs h.1 there

not_nil : (xs : List Loop) (l : Loop) (ys : List Loop) → ¬ (xs ++ l ∷ ys ≡ [])
not_nil [] l ys h = cc
not_nil (x ∷ xs) l ys h = cc

-- A loop of a closed channel goes on heeding it when there is a new one.
heeds_start :
    (closed : List ℕ) (n : ℕ) (ls : List Loop)
    → In n closed
    → All (HeedsStop closed n) ls
    → All (HeedsStop closed (suc n)) ls
heeds_start closed n [] there h = tt
heeds_start closed n (busy ∷ ls) there h = (tt, heeds_start closed n ls there h.1)
heeds_start closed n (selecting c ∷ ls) there h = (
  elim (h.0) [ inl old ↦ inl old | inr same ↦ inl (rw same there) ],
  heeds_start closed n ls there h.1,
)

heeds_stop :
    (closed : List ℕ) (n : ℕ) (ls : List Loop)
    → All (HeedsStop closed n) ls
    → All (HeedsStop (n ∷ closed) n) ls
heeds_stop closed n [] h = tt
heeds_stop closed n (busy ∷ ls) h = (tt, heeds_stop closed n ls h.1)
heeds_stop closed n (selecting c ∷ ls) h =
    (elim (h.0) [ inl old ↦ inl (inr old) | inr same ↦ inl (inl same) ], heeds_stop closed n ls h.1)

-- There is a loop, so the channel is one that was closed.
closed_below :
    (s : Rotating) (l : Loop) (before after : List Loop)
    → IsSound s
    → s.loops ≡ before ++ l ∷ after
    → s.running ≡ false
    → In s.stop_chan s.closed
closed_below s l before after h found off = elim (h.stopped off) [
  | inl nothing ↦ absurd (not_nil before l after (sym found ∙ nothing))
  | inr there ↦ there
]

Step-IsSound : (s t : Rotating) → Step s t → IsSound s → IsSound t
Step-IsSound s t (start off) h = record {
  old = below_new s.stop_chan s.closed h.old;
  opened = λ on. new_unused s.stop_chan s.closed h.old;
  stopped = λ no_way. cc;
  heeding = (
    tt,
    elim (h.stopped off) [
      | inl nothing ↦ rw nothing tt
      | inr there ↦ heeds_start s.closed s.stop_chan s.loops there h.heeding
    ],
  );
}
Step-IsSound s t (stop on) h = record {
  old = (omega arith, h.old);
  opened = λ no_way. cc;
  stopped = λ off. inr (inl refl);
  heeding = heeds_stop s.closed s.stop_chan s.loops h.heeding;
}
Step-IsSound s t (select before after there) h =
    let parts =
      All-middle (HeedsStop s.closed s.stop_chan) before busy after (rw there at h.heeding) in
    record {
      old = h.old;
      opened = h.opened;
      stopped = λ off. inr (closed_below s busy before after h there off);
      heeding =
          All-append (HeedsStop s.closed s.stop_chan) before (selecting s.stop_chan ∷ after)
            (parts.0) (inr refl, parts.2);
    }
Step-IsSound s t (tick c before after there) h =
    let parts =
      All-middle (HeedsStop s.closed s.stop_chan) before (selecting c) after
        (rw there at h.heeding) in
    record {
      old = h.old;
      opened = h.opened;
      stopped = λ off. inr (closed_below s (selecting c) before after h there off);
      heeding =
          All-append (HeedsStop s.closed s.stop_chan) before (busy ∷ after) (parts.0) (tt, parts.2);
    }
Step-IsSound s t (end c before after there gone) h =
    let parts =
      All-middle (HeedsStop s.closed s.stop_chan) before (selecting c) after
        (rw there at h.heeding) in
    record {
      old = h.old;
      opened = h.opened;
      stopped = λ off. inr (closed_below s (selecting c) before after h there off);
      heeding = All-append (HeedsStop s.closed s.stop_chan) before after (parts.0) (parts.2);
    }

-- A loop in its `select` while the rotation is stopped.
waits_closed :
    (s : Rotating) (c : ℕ) (ls : List Loop)
    → In s.stop_chan s.closed
    → All (HeedsStop s.closed s.stop_chan) ls
    → In (selecting c) ls
    → In c s.closed
waits_closed s c [] last h there = absurd there
waits_closed s c (l ∷ ls) last h (inl same) =
    elim (subst (HeedsStop s.closed s.stop_chan) (sym same) h.0) [
      | inl gone ↦ gone
      | inr now ↦ rw now last
    ]
waits_closed s c (l ∷ ls) last h (inr there) = waits_closed s c ls last h.1 there

Reach-IsSound : (s : Rotating) → Reach not_rotating s → IsSound s
unfolding not_rotating
Reach-IsSound s here = record {
  old = tt;
  opened = λ no_way. cc;
  stopped = λ off. inl refl;
  heeding = tt;
}
Reach-IsSound s (next {t = t} r step) = Step-IsSound t s step (Reach-IsSound t r)

-- However starts, stops and loops interleave: `StopAutoRotation` never closes a channel that is
-- closed, which would panic, and while the rotation is stopped every loop that waits in its `select`
-- waits on a closed channel.
pub rotation_stops :
    (s : Rotating)
    → Reach not_rotating s
    → (s.running ≡ true → ¬ In s.stop_chan s.closed)
      × (s.running ≡ false → (c : ℕ) → In (selecting c) s.loops → In c s.closed)
rotation_stops s r =
    let h = Reach-IsSound s r in
    (
      h.opened,
      λ off c there. elim (h.stopped off) [
        | inl nothing ↦ absurd (rw nothing at there)
        | inr last ↦ waits_closed s c s.loops last h.heeding there
      ],
    )
