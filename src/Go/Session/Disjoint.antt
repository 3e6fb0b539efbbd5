-- ===== src/Go/Session/Disjoint.antt =====
-- The comparison of two tensors in `run` is exact.
use onnxcraft.Common.{
  ℕ, ◌+◌, ◌≤◌, ◌<◌, ◌^◌, ◌≡◌, refl, ◌↔◌, Bool, true, false, ◌&&◌, inl, inr, Bool-cases, arith, ltb,
}
use native.Mathlib.Nat.{mod-eq_of_lt}
use onnxcraft.Go.Session.Operand.{Operand, byte_size, overlaps}

pub not_both : {b : Bool} → b ≡ true → b ≡ false → ⊥
not_both e f = cc

-- The address is one of the tensor's data.
pub record Covers (t : Operand) (address : ℕ) : Type 0 where
  pub low : t.data_at ≤ address
  pub high : address < t.data_at + byte_size t

-- The data lies within the address space.
abbrev pub IsPlaced : Operand → Type 0
IsPlaced t = t.data_at + byte_size t < 2 ^ 64

-- No address is covered by both.
abbrev pub Disjoint : Operand → Operand → Type 0
Disjoint t u = (address : ℕ) → Covers t address → ¬ Covers u address

ltb_iff : (m n : ℕ) → (ltb m n ≡ true) ↔ (m < n)
ltb_iff m n = (λ e. ground arith, λ lt. ground arith)

four :
    (b c d e : Bool)
    → b && (c && (d && e)) ≡ true
    → (b ≡ true) × (c ≡ true) × (d ≡ true) × (e ≡ true)
four true true true true h = (refl, refl, refl, refl)
four true true true false h = cc
four true true false e h = cc
four true false d e h = cc
four false c d e h = cc

-- The four comparisons, of two ranges that begin at `a` and `b` and end before `e` and `f`.
touching :
    (a e b f : ℕ)
    → (ltb a e && (ltb b f && (ltb a f && ltb b e)) ≡ true)
      ↔ ((x : ℕ) × ((a ≤ x) × (x < e)) × ((b ≤ x) × (x < f)))
touching a e b f = (there, back)
  where
    meet :
        (a < e) × (b < f) × (a < f) × (b < e) → (x : ℕ) × ((a ≤ x) × (x < e)) × ((b ≤ x) × (x < f))
    meet h = elim (Bool-cases (ltb a b)) [
      | inl lt ↦
          let less : a < b = (ltb_iff a b).0 lt in
          (b, (omega arith, omega (arith, h.3)), (omega arith, omega (arith, h.1)))
      | inr ge ↦
          let more : b ≤ a = ground arith in
          (a, (omega arith, omega (arith, h.0)), (omega arith, omega (arith, h.2)))
    ]

    there :
        ltb a e && (ltb b f && (ltb a f && ltb b e)) ≡ true
        → (x : ℕ) × ((a ≤ x) × (x < e)) × ((b ≤ x) × (x < f))
    there h =
        let k = four (ltb a e) (ltb b f) (ltb a f) (ltb b e) h in
        meet ((ltb_iff a e).0 k.0, (ltb_iff b f).0 k.1, (ltb_iff a f).0 k.2, (ltb_iff b e).0 k.3)

    back :
        (x : ℕ) × ((a ≤ x) × (x < e)) × ((b ≤ x) × (x < f))
        → ltb a e && (ltb b f && (ltb a f && ltb b e)) ≡ true
    back h =
        rw
          (
            (ltb_iff a e).1 (omega (arith, h.1.0, h.1.1)),
            (ltb_iff b f).1 (omega (arith, h.2.0, h.2.1)),
            (ltb_iff a f).1 (omega (arith, h.1.0, h.2.1)),
            (ltb_iff b e).1 (omega (arith, h.2.0, h.1.1)),
          )
          refl

-- The test of the code finds an address that is covered by both, exactly where there is one.
overlaps_lem :
    (t u : Operand)
    → IsPlaced t
    → IsPlaced u
    → (overlaps t u ≡ true) ↔ ((address : ℕ) × Covers t address × Covers u address)
unfolding overlaps
overlaps_lem t u p q =
    let meets = touching t.data_at (t.data_at + byte_size t) u.data_at (u.data_at + byte_size u) in
    rw (mod-eq_of_lt p, mod-eq_of_lt q)
      (
        λ h.
            let m = meets.0 h in
            (m.0, record { low = m.1.0; high = m.1.1 }, record { low = m.2.0; high = m.2.1 }),
        λ m. meets.1 (m.0, (m.1.low, m.1.high), (m.2.low, m.2.high)),
      )

pub overlaps-Disjoint :
    (t u : Operand) → IsPlaced t → IsPlaced u → (overlaps t u ≡ false) ↔ Disjoint t u
overlaps-Disjoint t u p q =
    let exact = overlaps_lem t u p q in
    (
      λ none a c d. not_both (exact.1 (a, c, d)) none,
      λ apart. elim (Bool-cases (overlaps t u)) [
        | inl e ↦ let m = exact.0 e in absurd (apart m.0 m.1 m.2)
        | inr e ↦ e
      ],
    )
