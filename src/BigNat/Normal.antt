-- ===== src/BigNat/Normal.antt =====
-- What the routines of compiler/float_bignat.c expect of a number: words below 2 ^ 32, the highest
-- of them not 0.
use n.Prelude.{
  ℕ, ◌^◌, ◌<◌, ◌≤◌, ◌≡◌, ◌≢◌, refl, inl, inr, ◌⊎◌, List, [], ◌∷◌, ◌==◌, length, arith, Bool-cases,
}
use mathlib.Core.Path.{subst}
use native.Mathlib.Nat.{pow-succ', pow-zero, mul-le-mul_left}
use n.Digits.{value, AreDigits}
use n.BigNat.{word, bn_normalize}

abbrev pub IsNormal : List ℕ → Type 0
IsNormal [] = Unit
IsNormal (w ∷ []) = w ≢ 0
IsNormal (w ∷ x ∷ ws) = IsNormal (x ∷ ws)

abbrev pub IsNumber : List ℕ → Type 0
IsNumber ws = AreDigits word ws × IsNormal ws

List-cases : (ws : List ℕ) → (ws ≡ []) ⊎ ((x : ℕ) × (xs : List ℕ) × (ws ≡ x ∷ xs))
List-cases [] = inl refl
List-cases (x ∷ xs) = inr (x, xs, refl)

pub value-normalize : (ws : List ℕ) → value word (bn_normalize ws) ≡ value word ws
unfolding bn_normalize
value-normalize [] = refl
value-normalize (w ∷ ws) = elim (List-cases (bn_normalize ws)) [
  | inl e ↦
      let z : 0 ≡ value word ws =
        subst (λ y. value word y ≡ value word ws) e (value-normalize ws) in
      rw e (ground (arith, z))
  | inr p ↦
      let z : value word (p.0 ∷ p.1) ≡ value word ws =
        subst (λ y. value word y ≡ value word ws) p.2 (value-normalize ws) in
      rw p.2 (omega (arith, z))
]

normalize-AreDigits : (ws : List ℕ) → AreDigits word ws → AreDigits word (bn_normalize ws)
unfolding bn_normalize
normalize-AreDigits [] h = tt
normalize-AreDigits (w ∷ ws) h = elim (List-cases (bn_normalize ws)) [
  | inl e ↦ elim (Bool-cases (w == 0)) [ inl q ↦ rw (e, q) tt | inr q ↦ rw (e, q) (h.0, tt) ]
  | inr p ↦
      let ih = subst (λ y. AreDigits word y) p.2 (normalize-AreDigits ws h.1) in rw p.2 (h.0, ih)
]

normalize-IsNormal : (ws : List ℕ) → IsNormal (bn_normalize ws)
unfolding bn_normalize
normalize-IsNormal [] = tt
normalize-IsNormal (w ∷ ws) = elim (List-cases (bn_normalize ws)) [
  | inl e ↦ elim (Bool-cases (w == 0)) [
    | inl q ↦ rw (e, q) tt
    | inr q ↦ rw (e, q) (λ z. ground arith)
  ]
  | inr p ↦ let ih = subst (λ y. IsNormal y) p.2 (normalize-IsNormal ws) in rw p.2 ih
]

pub normalize-IsNumber : (ws : List ℕ) → AreDigits word ws → IsNumber (bn_normalize ws)
normalize-IsNumber ws h = (normalize-AreDigits ws h, normalize-IsNormal ws)

-- The highest word makes the number large.
pub pow-le-value :
    (w : ℕ) (ws : List ℕ) → IsNormal (w ∷ ws) → word ^ length ws ≤ value word (w ∷ ws)
pow-le-value w [] h = rw pow-zero (ground (arith, h))
pow-le-value w (x ∷ ws) h =
    rw (pow-succ' word (length ws)) (omega (arith, mul-le-mul_left word (pow-le-value x ws h)))

-- A word below a normalised number.
pub IsNormal-behind : (w : ℕ) (xs : List ℕ) → 0 < length xs → IsNormal xs → IsNormal (w ∷ xs)
IsNormal-behind w [] h n = elim h [ ]
IsNormal-behind w (x ∷ xs) h n = n
