-- ===== src/Archiver/Format.antt =====
-- The fields of an archive of archiver/n65ar.c, written and read.
use n.Prelude.{
  ℕ, zero, suc, ◌+◌, ◌-◌, ◌*◌, ◌/◌, ◌%◌, ◌^◌, ◌<◌, ◌≤◌, ◌≡◌, ◌≢◌, refl, sym, ap, ◌∙◌, true, Option,
  none, some, List, [], ◌∷◌, ◌++◌, length, All, arith, if_true, if_false, ltb, leb, take, drop,
  take-append_length, drop-append_length, length-append, ◌==◌, if◌then◌else◌,
}
use mathlib.Core.Path.{subst}
use mathlib.Core.List.{append_assoc}
use n.Archiver.{
  ◌>>=◌, write_u16_le, write_u32_le, read_u16_le, read_u32_le, fread, copy_buffer_size, copy_loop,
  copy_n_bytes, skip_n_bytes, c_string, member_header, MemberHeader, member, read_member_header,
}

pub append_nil : {A : Type 0} (xs : List A) → xs ++ [] ≡ xs
append_nil [] = refl
append_nil (x ∷ xs) = ap (λ l. x ∷ l) (append_nil xs)

read_u16_le-write :
    (n : ℕ) (r : List ℕ) → n < 2 ^ 16 → read_u16_le (write_u16_le n ++ r) ≡ some (n, r)
unfolding read_u16_le write_u16_le
read_u16_le-write n r h =
    let e : n % 256 + n / 256 % 256 * 2 ^ 8 ≡ n = omega (arith, h) in ap (λ x. some (x, r)) e

read_u32_le-write :
    (n : ℕ) (r : List ℕ) → n < 2 ^ 32 → read_u32_le (write_u32_le n ++ r) ≡ some (n, r)
unfolding read_u32_le write_u32_le
read_u32_le-write n r h =
    let e : n % 256
          + n / 2 ^ 8 % 256 * 2 ^ 8
          + n / 2 ^ 16 % 256 * 2 ^ 16
          + n / 2 ^ 24 % 256 * 2 ^ 24
        ≡ n =
      omega (arith, h) in
    ap (λ x. some (x, r)) e

pub fread-append : (p r : List ℕ) → fread (length p) (p ++ r) ≡ some (p, r)
unfolding fread
fread-append p r =
    let long : leb (length p) (length (p ++ r)) ≡ true =
      (let l = length-append p r in ground (arith, l)) in
    if_true (leb (length p) (length (p ++ r)))
      (some (take (length p) (p ++ r), drop (length p) (p ++ r))) none long
    ∙ rw (take-append_length p r, drop-append_length p r) refl

-- A list in two parts, the first of a given length.
abbrev Parts : ℕ → List ℕ → Type 0
Parts c p = (a : List ℕ) × (b : List ℕ) × (p ≡ a ++ b) × (length a ≡ c)

parts : (c : ℕ) (p : List ℕ) → c ≤ length p → Parts c p
parts zero p h = ([], p, refl, refl)
parts (suc c) [] h = elim h [ ]
parts (suc c) (x ∷ p) h =
    let (a, b, e, l) = parts c p (omega (arith, h)) in (x ∷ a, b, ap (λ y. x ∷ y) e, ap suc l)

abbrev chunk_of : ℕ → ℕ
chunk_of remaining = if ltb copy_buffer_size remaining then copy_buffer_size else remaining

chunk-bounds : (n : ℕ) → 0 < n → (0 < chunk_of n) × (chunk_of n ≤ n)
chunk-bounds n h = ground arith

copy_loop_step :
    (fuel n : ℕ) (a rest out : List ℕ)
    → 0 < n
    → chunk_of n ≡ length a
    → copy_loop (suc fuel) n (a ++ rest) out ≡ copy_loop fuel (n - length a) rest (out ++ a)
unfolding copy_loop
copy_loop_step fuel n a rest out pos e =
    if_true (ltb 0 n)
      (fread (chunk_of n) (a ++ rest) >>= λ got.
        copy_loop fuel (n - chunk_of n) got.1 (out ++ got.0))
      (some (a ++ rest, out)) (ground (arith, pos))
    ∙ ap (λ c. fread c (a ++ rest) >>= λ got. copy_loop fuel (n - c) got.1 (out ++ got.0)) e
    ∙ ap (λ o. o >>= λ got. copy_loop fuel (n - length a) got.1 (out ++ got.0))
        (fread-append a rest)

-- The chunks together are what is asked for.
copy_loop_lem :
    (fuel n : ℕ) (p r out : List ℕ)
    → n ≡ length p
    → n < fuel
    → copy_loop fuel n (p ++ r) out ≡ some (r, out ++ p)
unfolding copy_loop
copy_loop_lem zero n p r out e h = elim h [ ]
copy_loop_lem (suc fuel) n [] r out e h =
    if_false (ltb 0 n)
      (fread (chunk_of n) r >>= λ got. copy_loop fuel (n - chunk_of n) got.1 (out ++ got.0))
      (some (r, out)) (ground (arith, e))
    ∙ ap (λ y. some (r, y)) (sym (append_nil out))
copy_loop_lem (suc fuel) n (x ∷ p) r out e h =
    let (low, high) = chunk-bounds n (omega (arith, e)) in
    let (a, b, split, l) = parts (chunk_of n) (x ∷ p) (subst (λ k. chunk_of n ≤ k) e high) in
    let total : n ≡ length a + length b = e ∙ ap length split ∙ length-append a b in
    ap (λ q. copy_loop (suc fuel) n (q ++ r) out) split
    ∙ ap (λ q. copy_loop (suc fuel) n q out) (append_assoc a b r)
    ∙ copy_loop_step fuel n a (b ++ r) out (omega (arith, e)) (sym l)
    ∙ copy_loop_lem fuel (n - length a) b r (out ++ a) (omega (arith, total))
        (omega (arith, total, l, low, h))
    ∙ ap (λ q. some (r, q)) (append_assoc out a b ∙ ap (λ q. out ++ q) (sym split))

pub copy_n_bytes-append :
    (p r out : List ℕ) → copy_n_bytes (p ++ r) out (length p) ≡ some (r, out ++ p)
unfolding copy_n_bytes
copy_n_bytes-append p r out = copy_loop_lem (suc (length p)) (length p) p r out refl (omega arith)

pub skip_n_bytes-append : (p r : List ℕ) → skip_n_bytes (p ++ r) (length p) ≡ some r
unfolding skip_n_bytes
skip_n_bytes-append p r = rw (copy_n_bytes-append p r []) refl

pub c_string-eq : (name : List ℕ) → All (λ b. b ≢ 0) name → c_string name ≡ name
unfolding c_string
c_string-eq [] h = refl
c_string-eq (b ∷ name) h =
    if_false (b == 0) [] (b ∷ c_string name) (let z = h.0 in ground (arith, z))
    ∙ ap (λ y. b ∷ y) (c_string-eq name h.1)

abbrev named : ℕ → ℕ × List ℕ → Option MemberHeader
named len size =
    if len == 0
    then none
    else fread len size.1 >>= λ name. some (member (c_string name.0) size.0 name.1)

named-eq :
    (name : List ℕ) (size : ℕ) (r : List ℕ)
    → 0 < length name
    → All (λ b. b ≢ 0) name
    → named (length name) (size, name ++ r) ≡ some (member name size r)
named-eq name size r pos clean =
    if_false (length name == 0) none
      (fread (length name) (name ++ r) >>= λ got. some (member (c_string got.0) size got.1))
      (ground (arith, pos))
    ∙ ap (λ o. o >>= λ got. some (member (c_string got.0) size got.1)) (fread-append name r)
    ∙ ap (λ y. some (member y size r)) (c_string-eq name clean)

-- A header that was written is read, in front of whatever follows.
pub read_member_header-member_header :
    (name : List ℕ) (size : ℕ) (r : List ℕ)
    → 0 < length name
    → length name < 2 ^ 16
    → All (λ b. b ≢ 0) name
    → size < 2 ^ 32
    → read_member_header (member_header name size ++ r) ≡ some (member name size r)
unfolding read_member_header member_header write_u16_le
read_member_header-member_header name size r pos short clean small =
    let wrap : length name % 2 ^ 16 ≡ length name = omega (arith, short) in
    ap (λ o. o >>= λ len. read_u32_le len.1 >>= named len.0)
      (read_u16_le-write (length name % 2 ^ 16) (write_u32_le size ++ name ++ r) (omega arith))
    ∙ ap (λ n. read_u32_le (write_u32_le size ++ name ++ r) >>= named n) wrap
    ∙ ap (λ l. read_u32_le l >>= named (length name)) (append_assoc (write_u32_le size) name r)
    ∙ ap (λ o. o >>= named (length name)) (read_u32_le-write size (name ++ r) small)
    ∙ named-eq name size r pos clean
