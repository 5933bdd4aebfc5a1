-- ===== src/Ring/Slots.antt =====
-- The slots of the ring buffer as a queue: from `out` on, round the end of the array, up to `in`.
use native.Mathlib.Nat.{mod-lt, mod-eq_of_lt, mod-eq-sub-mod, mod-add-mod}
use native.Mathlib.Decide.{dec_lt}
use operating_system_pa.Base.{
  ℕ, suc, ◌+◌, ◌-◌, ◌%◌, ◌≤◌, ◌<◌, ◌≡◌, ◌≢◌, sym, ap, ◌∙◌, List, [], ◌∷◌, ◌++◌, ==_ne, length,
  length-append, update, arith,
}

-- The slots from `o` on hold the list.
abbrev pub Holds : ℕ → (ℕ → ℕ) → ℕ → List ℕ → Type 0
Holds n slots o [] = Unit
Holds n slots o (x ∷ q) = (slots o ≡ x) × Holds n slots ((o + 1) % n) q

pub record Filled (n : ℕ) (slots : ℕ → ℕ) (i o : ℕ) (q : List ℕ) : Type 0 where
  pub inside : o < n
  pub end : i ≡ (o + length q) % n
  pub holds : Holds n slots o q

-- Fewer than `n` steps round the ring do not lead back.
ahead : (n o k : ℕ) → o < n → 1 ≤ k → k < n → (o + k) % n ≢ o
ahead n o k l a b e = elim (dec_lt (o + k) n) [
  | yes less ↦ let same = mod-eq_of_lt less in absurd (omega (arith, same, e, a))
  | no more ↦
      let wraps = mod-eq-sub-mod {n = o + k} {m = n} (omega (arith, more)) in
      let rest : o + k - n < n = omega (arith, l, b) in
      let same = mod-eq_of_lt rest in absurd (omega (arith, wraps, same, e, a, b, l))
]

step_lt : (n o : ℕ) → o < n → (o + 1) % n < n
step_lt n o l = mod-lt (o + 1) (omega (arith, l))

step-end : (n o k : ℕ) → (o + suc k) % n ≡ ((o + 1) % n + k) % n
step-end n o k =
    let e : o + suc k ≡ o + 1 + k = omega arith in ap (λ x. x % n) e ∙ sym (mod-add-mod (o + 1) n k)

-- A write at the end does not touch the list while there is room.
write-Holds :
    (n : ℕ) (slots : ℕ → ℕ) (i v o : ℕ) (q : List ℕ)
    → o < n
    → length q < n
    → i ≡ (o + length q) % n
    → Holds n slots o q
    → Holds n (update slots i v) o q
write-Holds n slots i v o [] l room e h = tt
write-Holds n slots i v o (x ∷ q) l room e h =
    let far = ahead n o (suc (length q)) l (omega arith) room in
    let other : o ≢ i = λ same. far (sym (same ∙ e)) in
    (
      rw (==_ne o i other) h.0,
      write-Holds n slots i v ((o + 1) % n) q (step_lt n o l) (omega (arith, room))
          (e ∙ step-end n o (length q)) h.1,
    )

append-Holds :
    (n : ℕ) (slots : ℕ → ℕ) (i v o : ℕ) (q : List ℕ)
    → o < n
    → i ≡ (o + length q) % n
    → slots i ≡ v
    → Holds n slots o q
    → Holds n slots o (q ++ v ∷ [])
append-Holds n slots i v o [] l e at h =
    let zero_on : o + 0 ≡ o = omega arith in
    let same : i ≡ o = e ∙ ap (λ x. x % n) zero_on ∙ mod-eq_of_lt l in (rw (← same) at, tt)
append-Holds n slots i v o (x ∷ q) l e at h = (
  h.0,
  append-Holds n slots i v ((o + 1) % n) q (step_lt n o l) (e ∙ step-end n o (length q)) at h.1,
)

-- The store into the slot at `in`, before `in` moves.
pub write-Filled :
    (n : ℕ) (slots : ℕ → ℕ) (i v o : ℕ) (q : List ℕ)
    → length q < n
    → Filled n slots i o q
    → Filled n (update slots i v) i o q
write-Filled n slots i v o q room f = record {
  inside = f.inside;
  end = f.end;
  holds = write-Holds n slots i v o q f.inside room f.end f.holds;
}

-- `in` moves behind the new entry.
pub append-Filled :
    (n : ℕ) (slots : ℕ → ℕ) (i v o : ℕ) (q : List ℕ)
    → slots i ≡ v
    → Filled n slots i o q
    → Filled n slots ((i + 1) % n) o (q ++ v ∷ [])
append-Filled n slots i v o q at f = record {
  inside = f.inside;
  end =
      let longer : o + length q + 1 ≡ o + length (q ++ v ∷ []) =
        omega (arith, length-append q (v ∷ [])) in
      ap (λ x. (x + 1) % n) f.end ∙ mod-add-mod (o + length q) n 1 ∙ ap (λ x. x % n) longer;
  holds = append-Holds n slots i v o q f.inside f.end at f.holds;
}

-- `out` moves behind the first entry.
pub remove-Filled :
    (n : ℕ) (slots : ℕ → ℕ) (i o x : ℕ) (q : List ℕ)
    → Filled n slots i o (x ∷ q)
    → Filled n slots i ((o + 1) % n) q
remove-Filled n slots i o x q f = record {
  inside = step_lt n o f.inside;
  end = f.end ∙ step-end n o (length q);
  holds = f.holds.1;
}

pub empty-Filled : (n : ℕ) (slots : ℕ → ℕ) → 1 ≤ n → Filled n slots 0 0 []
empty-Filled n slots l = record {
  inside = omega (arith, l);
  end = sym (mod-eq_of_lt (omega (arith, l)));
  holds = tt;
}
