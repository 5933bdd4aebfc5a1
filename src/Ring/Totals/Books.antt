-- ===== src/Ring/Totals/Books.antt =====
-- The books of the threads hold in every state that is reached, and a thread that generates nothing
-- stays without a count.
use native.Mathlib.Decide.{ℕ_discrete}
use operating_system_pa.Base.{
  ℕ, ◌+◌, ◌^◌, ◌≤◌, ◌<◌, ◌≡◌, refl, subst, inl, inr, List, [], ◌∷◌, ◌==◌, ==_refl, length,
  Bool-cases, term-le-sum_below, arith,
}
use operating_system_pa.Ring.State.{
  enqueue, dequeue, Ring, Event, put_in, Interleaved, started, ran,
}
use operating_system_pa.Ring.Totals.Ledger.{
  tally, Hands, hands, ahead, held, Ledger, Entry, Ledger-Entry,
}
use operating_system_pa.Ring.Totals.Entries.{Entered, Room, run_line-Entered}

pub tally-le-length : (v : ℕ) (l : List ℕ) → tally v l ≤ length l
tally-le-length v [] = omega arith
tally-le-length v (x ∷ l) =
    let rest = tally-le-length v l in
    elim (Bool-cases (v == x)) [
      | inl e ↦ rw e (omega (arith, rest))
      | inr e ↦ rw e (omega (arith, rest))
    ]

module _ (threads puts takes : ℕ) (few_puts : puts < 2 ^ 64) (few_takes : takes < 2 ^ 64) where
  -- The counts stay below the number of requests.
  Ledger-Room :
      (t : ℕ) (s : Ring) (w r : List ℕ)
      → t < threads
      → Ledger threads puts takes (hands s) w r
      → Room t s
  Ledger-Room t s w r small l = record {
    generated = λ at.
        let v = s.value t in
        let one : held enqueue v (hands s) t ≡ 1 = rw (==_refl v, at) refl in
        omega (
          arith,
          one,
          few_puts,
          l.stored_count v,
          l.puts_left,
          tally-le-length v w,
          term-le-sum_below threads (λ u. s.generated u v) t small,
          term-le-sum_below threads (held enqueue v (hands s)) t small,
        );
    taken = λ at.
        let v = s.value t in
        let one : held dequeue v (hands s) t ≡ 1 = rw (==_refl v, at) refl in
        omega (
          arith,
          one,
          few_takes,
          l.loaded_count v,
          l.takes_left,
          tally-le-length v r,
          term-le-sum_below threads (held dequeue v (hands s)) t small,
        );
  }

  pub Interleaved-Ledger :
      (s₀ : Ring)
      → Ledger threads puts takes (hands s₀) [] []
      → (s : Ring) (w r : List ℕ) → Interleaved threads s₀ s w r
      → Ledger threads puts takes (hands s) w r
  Interleaved-Ledger s₀ l s w r started = l
  Interleaved-Ledger s₀ l s w r (ran t s₁ s' e w₁ r₁ before small step) =
      let l₁ = Interleaved-Ledger s₀ l s₁ w₁ r₁ before in
      Ledger-Entry threads puts takes (hands s₁) (hands s) w₁ r₁ t e small l₁ (
        subst (λ o. Entered t (hands s₁) o) step
          (run_line-Entered t s₁ (s₁.line t) refl (Ledger-Room t s₁ w₁ r₁ small l₁)))

-- A thread that has nothing to put in, and has put in nothing.
pub record Mute (u : ℕ) (h : Hands) : Type 0 where
  pub nothing : ahead enqueue h u ≡ 0
  pub unused : (v : ℕ) → h.generated u v + held enqueue v h u ≡ 0

pub Mute-Entry : (u t : ℕ) (h h' : Hands) (e : Event) → Mute u h → Entry t h h' e → Mute u h'
Mute-Entry u t h h' e m n = elim (ℕ_discrete u t) [
  | no ne ↦ record {
    nothing = rw (n.lines u ne, n.requests u ne) m.nothing;
    unused = λ v. rw (n.lines u ne, n.values u ne, n.counts u ne) (m.unused v);
  }
  | yes same ↦
      let before : Mute t h = subst (λ x. Mute x h) same m in
      rw same (record {
        nothing = omega (arith, n.puts, before.nothing);
        unused = λ v. omega (
          arith,
          n.stores v,
          before.unused v,
          n.puts,
          before.nothing,
          tally-le-length v (put_in e),
        );
      })
]

module _ (threads puts takes : ℕ) (few_puts : puts < 2 ^ 64) (few_takes : takes < 2 ^ 64) where
  pub Interleaved-Mute :
      (s₀ : Ring)
      → Ledger threads puts takes (hands s₀) [] []
      → (u : ℕ) → Mute u (hands s₀)
      → (s : Ring) (w r : List ℕ) → Interleaved threads s₀ s w r
      → Mute u (hands s)
  Interleaved-Mute s₀ l u m s w r started = m
  Interleaved-Mute s₀ l u m s w r (ran t s₁ s' e w₁ r₁ before small step) =
      let l₁ = Interleaved-Ledger threads puts takes few_puts few_takes s₀ l s₁ w₁ r₁ before in
      let room = Ledger-Room threads puts takes few_puts few_takes t s₁ w₁ r₁ small l₁ in
      Mute-Entry u t (hands s₁) (hands s) e (Interleaved-Mute s₀ l u m s₁ w₁ r₁ before)
        (subst (λ o. Entered t (hands s₁) o) step (run_line-Entered t s₁ (s₁.line t) refl room))
