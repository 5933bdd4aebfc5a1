-- ===== src/Ring/Preservation.antt =====
-- Every statement keeps the invariant of the ring buffer.
pub mod Plain
pub mod Calls
use native.Mathlib.Decide.{ℕ_discrete, dec_lt}
use operating_system_pa.Base.{
  ℕ, ◌+◌, ◌≤◌, ◌<◌, ◌≡◌, ◌≢◌, refl, sym, ap, ◌∙◌, true, false, List, [], ◌∷◌, ◌++◌, length,
  append-nil, arith,
}
use operating_system_pa.Ring.State.{
  Side, enqueue, dequeue, advancing, Line, between, within, Ring, silent, Effect, asleep, aborted,
  next, put_in, taken_out,
}
use operating_system_pa.Ring.Lines.{entered, entered_alone}
use operating_system_pa.Ring.Invariant.{Intact}

-- What a statement may lead to: the queue gets what is put into the buffer at its end, and loses
-- what is taken out at its front, and no assertion fails.
abbrev pub Moved : ℕ → List ℕ → Effect → Type 0
Moved threads q asleep = Unit
Moved threads q aborted = ⊥
Moved threads q (next s e) =
    (q' : List ℕ) × Intact threads s q' × (q ++ put_in e ≡ taken_out e ++ q')

-- A statement that leaves the queue as it is.
pub silent-Moved :
    (threads : ℕ) (q : List ℕ) (s : Ring) → Intact threads s q → Moved threads q (next s silent)
silent-Moved threads q s k = (q, k, append-nil q)

-- While a thread has the mutex, no other is about to move an index.
pub alone :
    (threads : ℕ) (q : List ℕ) (s : Ring) (t : ℕ)
    → Intact threads s q
    → t < threads
    → entered (s.line t) ≡ 1
    → (u : ℕ) (e : Side) → s.line u ≡ within e advancing
    → ¬ (u ≢ t)
alone threads q s t k small at u e same ne =
    let inside : u < threads = elim (dec_lt u threads) [
      | yes l ↦ l
      | no out ↦
          let off = k.stocked.far u (omega (arith, out)) in absurd (ground (arith, off, same))
    ] in
    let in_too : entered (s.line u) ≡ 1 = ap entered same in
    entered_alone k.counted t small u inside at in_too (λ x. ne (sym x))
