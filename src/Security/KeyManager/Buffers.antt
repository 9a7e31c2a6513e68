-- ===== src/Security/KeyManager/Buffers.antt =====
-- key_manager_v2.go: the byte slices that keys and callers hold, by address.
use chat_gateway.Prelude.{
  sym, zero, ap, length-replicate, ◌∙◌, arith, ℕ, ◌+◌, ◌≡◌, refl, length, replicate, ◌==◌,
  if◌then◌else◌,
}
use chat_gateway.Prelude.Text.{Text}

pub record Heap : Type 0 where
  pub next : ℕ
  pub cell : ℕ → Text

-- `make` and `copy`.
unfoldable pub alloc : Text → Heap → ℕ × Heap
alloc bytes h =
    (h.next, record { next = h.next + 1; cell = λ p. if p == h.next then bytes else h.cell p })

-- `for i := range b { b[i] = 0 }`
unfoldable pub wipe : ℕ → Heap → Heap
wipe a h = record h { cell = λ p. if p == a then replicate (length (h.cell a)) 0 else h.cell p }

pub cell-alloc :
    (bytes : Text) (h : Heap) (p : ℕ)
    → (alloc bytes h).1.cell p ≡ (if p == h.next then bytes else h.cell p)
unfolding alloc
cell-alloc bytes h p = refl

pub next-alloc :
    (bytes : Text) (h : Heap) → ((alloc bytes h).0 ≡ h.next) × ((alloc bytes h).1.next ≡ h.next + 1)
unfolding alloc
next-alloc bytes h = (refl, refl)

pub cell-wipe :
    (a : ℕ) (h : Heap) (p : ℕ)
    → (wipe a h).cell p ≡ (if p == a then replicate (length (h.cell a)) 0 else h.cell p)
unfolding wipe
cell-wipe a h p = refl

pub next-wipe : (a : ℕ) (h : Heap) → (wipe a h).next ≡ h.next
unfolding wipe
next-wipe a h = refl

-- Bytes that have been wiped.
abbrev pub zeros : ℕ → Text
zeros n = replicate n 0

-- Wiping two buffers, which may be one.
pub wipe_both :
    (a b : ℕ) (h : Heap)
    → ((wipe a (wipe b h)).cell a ≡ zeros (length (h.cell a)))
      × ((wipe a (wipe b h)).cell b ≡ zeros (length (h.cell b)))
unfolding wipe
wipe_both a b h = (
  ground (
    arith,
    length-replicate {0} (length (h.cell a)) zero,
    length-replicate {0} (length (h.cell b)) zero,
  ),
  ground (
    arith,
    length-replicate {0} (length (h.cell a)) zero,
    length-replicate {0} (length (h.cell b)) zero,
  ),
)

pub zeros-length : (n : ℕ) (t : Text) → t ≡ zeros n → t ≡ zeros (length t)
zeros-length n t e = e ∙ ap zeros (sym (ap length e ∙ length-replicate n zero))
