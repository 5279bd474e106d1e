-- ===== src/Assembler/Emit/Writes.antt =====
-- What an operation of the second pass writes, said by a list of bytes.
use n.Prelude.{
  ℕ, suc, ◌+◌, ◌-◌, ◌≡◌, ◌≤◌, ◌<◌, refl, ◌∙◌, Bool, true, false, Option, none, some, List, [], ◌∷◌,
  ◌++◌, lt→ltb, le→ltb, length, length-append, arith,
}
use native.Mathlib.Decide.{dec_lt}
use n.Assembler.Image.{Image, ihex_store, ihex_write_byte, ihex_addr_ok, ihex_max_addr}
use n.Assembler.Emit.{Output, Emitter, proceed, ◌>>◌, done, fail, emit_byte, report_unwritten}

-- The bytes from an address on.
unfoldable pub write_bytes : Image → ℕ → List ℕ → Image
write_bytes img at [] = img
write_bytes img at (b ∷ bytes) = write_bytes (ihex_store img at b) (at + 1) bytes

abbrev pub written : Output → ℕ → List ℕ → Output
written out at bytes = record out { image = write_bytes out.image at bytes }

-- One error more, and the statement ends.
abbrev pub Failed : Output × Bool → Output → Type 0
Failed r out = (r.1 ≡ false) × (r.0.error_count ≡ out.error_count + 1)

-- The operation writes the bytes if they fit, and else fails; without bytes it fails.
abbrev pub Emits : Emitter → ℕ → Option (List ℕ) → Type 0
Emits m at none = (out : Output) → Failed (m out) out
Emits m at (some bytes) =
    ((out : Output) → length bytes ≤ ihex_max_addr - at → m out ≡ (written out at bytes, true))
    × ((out : Output) → ihex_max_addr - at < length bytes → Failed (m out) out)

abbrev pub join : Option (List ℕ) → Option (List ℕ) → Option (List ℕ)
join none y = none
join (some bytes) none = none
join (some bytes) (some more) = some (bytes ++ more)

pub write_bytes-append :
    (img : Image) (at : ℕ) (bytes more : List ℕ)
    → write_bytes img at (bytes ++ more)
      ≡ write_bytes (write_bytes img at bytes) (at + length bytes) more
unfolding write_bytes
write_bytes-append img at [] more = ground arith
write_bytes-append img at (b ∷ bytes) more =
    let shift : at + suc (length bytes) ≡ at + 1 + length bytes = omega arith in
    rw shift (write_bytes-append (ihex_store img at b) (at + 1) bytes more)

Failed-first :
    (r : Output × Bool) (k : Emitter) (out : Output) → Failed r out → Failed (proceed r k) out
unfolding proceed
Failed-first (out', true) k out h = cc (h.0)
Failed-first (out', false) k out h = h

pub fail-Emits : (at : ℕ) → Emits fail at none
unfolding fail
fail-Emits at out = (refl, refl)

pub emit_byte-Emits : (at b : ℕ) → Emits (emit_byte at b) at (some (b ∷ []))
unfolding emit_byte ihex_write_byte ihex_addr_ok report_unwritten write_bytes
emit_byte-Emits at b = (
  λ out h. rw (lt→ltb at 65536 (omega arith)) refl,
  λ out h. rw (le→ltb at 65536 (omega arith)) (refl, refl),
)

-- One operation after the other.
pub seq-Emits :
    (m k : Emitter) (at at' : ℕ) (x y : Option (List ℕ))
    → Emits m at x
    → Emits k at' y
    → ((bytes : List ℕ) → x ≡ some bytes → at' ≡ at + length bytes)
    → Emits (m >> k) at (join x y)
seq-Emits m k at at' none y h g e = λ out. Failed-first (m out) k out (h out)
seq-Emits m k at at' (some bytes) none h g e = λ out. elim (dec_lt (65536 - at) (length bytes)) [
  | yes far ↦ Failed-first (m out) k out (h.1 out far)
  | no near ↦ rw (h.0 out (omega arith)) (unfold proceed in g (written out at bytes))
]
seq-Emits m k at at' (some bytes) (some more) h g e =
    let next = e bytes refl in
    let total = length-append bytes more in
    (
      λ out fits. rw (h.0 out (omega (arith, total))) (
          unfold proceed in
          g.0 (written out at bytes) (omega (arith, total, next))
          ∙ rw (next, write_bytes-append out.image at bytes more) refl),
      λ out far. elim (dec_lt (65536 - at) (length bytes)) [
        | yes over ↦ Failed-first (m out) k out (h.1 out over)
        | no near ↦
            rw (h.0 out (omega arith))
              (unfold proceed in g.1 (written out at bytes) (omega (arith, total, next)))
      ],
    )

pub Failed-done : (r : Output × Bool) (out : Output) → Failed r out → Failed (proceed r done) out
Failed-done r out h = Failed-first r done out h

pub done-Emits : (at : ℕ) → Emits done at (some [])
unfolding done write_bytes
done-Emits at = (λ out h. refl, λ out h. absurd (omega arith))

-- An operation that goes on has written its bytes, which fit.
pub Emits-done :
    (m : Emitter) (at : ℕ) (x : Option (List ℕ)) (out : Output)
    → Emits m at x
    → (m out).1 ≡ true
    → (bytes : List ℕ) × (x ≡ some bytes) × (m out ≡ (written out at bytes, true))
Emits-done m at none out h on = let off = (h out).0 in absurd (cc)
Emits-done m at (some bytes) out h on = elim (dec_lt (ihex_max_addr - at) (length bytes)) [
  | yes far ↦ let off = (h.1 out far).0 in absurd (cc)
  | no near ↦ (bytes, refl, h.0 out (omega arith))
]
