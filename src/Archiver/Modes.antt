-- ===== src/Archiver/Modes.antt =====
-- `parse_mode_string` of archiver/n65ar.c against a description of the strings that it accepts.
use n.Prelude.{
  ℕ, ◌≡◌, ◌≢◌, refl, ap, ◌∙◌, ◌⊎◌, inl, inr, Bool, true, false, ◌&&◌, ◌||◌, Option, none, some,
  List, [], ◌∷◌, ◌==◌, if◌then◌else◌, arith, Bool-cases, ==_iff,
}
use n.Archiver.Commands.{ArOptions, mode_loop, skip_dash, is_empty, parse_mode_string}

abbrev pub is_operation : ℕ → Bool
is_operation p = (p == 114) || (p == 113) || (p == 116) || (p == 120)

abbrev pub all_known : List ℕ → Bool
all_known [] = true
all_known (p ∷ arg) = (is_operation p || (p == 99) || (p == 115) || (p == 118)) && all_known arg

abbrev pub operations : List ℕ → List ℕ
operations [] = []
operations (p ∷ arg) = if is_operation p then p ∷ operations arg else operations arg

-- With an operation at hand there may be no other; without one there must be just one.
abbrev pub single_operation : Bool → ℕ → List ℕ → Bool → Bool → Option ArOptions
single_operation true op [] c v =
    some (record { op = op; suppress_create_message = c; verbose = v })
single_operation true op (x ∷ ops) c v = none
single_operation false op [] c v = none
single_operation false op (x ∷ ops) c v = single_operation true x ops c v

-- Whether a letter stands in the string.
abbrev pub mentions : ℕ → List ℕ → Bool
mentions c [] = false
mentions c (p ∷ arg) = (p == c) || mentions c arg

-- One operation among known letters, c and v where they stand.
abbrev pub mode_of : List ℕ → Option ArOptions
mode_of arg =
    if all_known arg
    then single_operation false 0 (operations arg) (mentions 99 arg) (mentions 118 arg)
    else none

abbrev expected : Bool → ℕ → Bool → List ℕ → Bool → Bool → Option ArOptions
expected have op known ops c v = if known then single_operation have op ops c v else none

or_true : (a b : Bool) → true || b ≡ a || (true || b)
or_true true b = refl
or_true false b = refl

or_false : (a : Bool) → a ≡ a || false
or_false true = refl
or_false false = refl

known_none : (known : Bool) → ◌≡◌ {A = Option ArOptions} none (if known then none else none)
known_none true = refl
known_none false = refl

-- A round, on what the tests of the letter gave; `l1` to `l4` are the rest of the loop in each case.
module _ (have : Bool) (p op : ℕ) (known : Bool) (ops : List ℕ) (c v s w : Bool) where
  abbrev round_of :
      Bool
      → Bool
      → Bool
      → Bool
      → Option ArOptions
      → Option ArOptions
      → Option ArOptions
      → Option ArOptions
      → Option ArOptions
  round_of b1 b2 b3 b4 l1 l2 l3 l4 =
      if b1
      then (if have then none else l1)
      else if b2
      then l2
      else if b3
      then l3
      else if b4
      then l4
      else none

  abbrev expected_of : Bool → Bool → Bool → Bool → Option ArOptions
  expected_of b1 b2 b3 b4 =
      expected have op ((b1 || b2 || b3 || b4) && known) (if b1 then p ∷ ops else ops)
        (s || (b2 || c)) (w || (b4 || v))

round_lem :
    (have : Bool) (p op : ℕ) (known : Bool) (ops : List ℕ) (c v s w : Bool) (b1 b2 b3 b4 : Bool)
    (l1 l2 l3 l4 : Option ArOptions)
    → b1 && b2 ≡ false
    → b1 && b4 ≡ false
    → b2 && b4 ≡ false
    → b3 && b4 ≡ false
    → l1 ≡ expected true p known ops (s || c) (w || v)
    → l2 ≡ expected have op known ops (true || c) (w || v)
    → l3 ≡ expected have op known ops (s || c) (w || v)
    → l4 ≡ expected have op known ops (s || c) (true || v)
    → round_of have p op known ops c v s w b1 b2 b3 b4 l1 l2 l3 l4
      ≡ expected_of have p op known ops c v s w b1 b2 b3 b4
round_lem true p op known ops c v s w true false b3 false l1 l2 l3 l4 x12 x14 x24 x34 e1 e2 e3 e4 =
    known_none known
round_lem false p op known ops c v s w true false b3 false l1 l2 l3 l4 x12 x14 x24 x34 e1 e2 e3 e4 =
    e1
round_lem have p op known ops c v s w true true b3 b4 l1 l2 l3 l4 x12 x14 x24 x34 e1 e2 e3 e4 = cc
round_lem have p op known ops c v s w true false b3 true l1 l2 l3 l4 x12 x14 x24 x34 e1 e2 e3 e4 =
    cc
round_lem have p op known ops c v s w false true b3 true l1 l2 l3 l4 x12 x14 x24 x34 e1 e2 e3 e4 =
    cc
round_lem have p op known ops c v s w false true b3 false l1 l2 l3 l4 x12 x14 x24 x34 e1 e2 e3 e4 =
    e2 ∙ ap (λ x. expected have op known ops x (w || v)) (or_true s c)
round_lem have p op known ops c v s w false false true true l1 l2 l3 l4 x12 x14 x24 x34 e1 e2 e3
      e4 =
    cc
round_lem have p op known ops c v s w false false true false l1 l2 l3 l4 x12 x14 x24 x34 e1 e2 e3
      e4 =
    e3
round_lem have p op known ops c v s w false false false true l1 l2 l3 l4 x12 x14 x24 x34 e1 e2 e3
      e4 =
    e4 ∙ ap (λ x. expected have op known ops (s || c) x) (or_true w v)
round_lem have p op known ops c v s w false false false false l1 l2 l3 l4 x12 x14 x24 x34 e1 e2 e3
      e4 =
    refl

mode_loop_lem :
    (arg : List ℕ) (have : Bool) (opts : ArOptions)
    → mode_loop arg have opts
      ≡ expected have opts.op
          (all_known arg)
          (operations arg)
          (opts.suppress_create_message || mentions 99 arg)
          (opts.verbose || mentions 118 arg)
unfolding mode_loop
mode_loop_lem [] true opts =
    ap (λ c. some (record { op = opts.op; suppress_create_message = c; verbose = opts.verbose }))
      (or_false opts.suppress_create_message)
    ∙ ap
        (λ v. some (record {
          op = opts.op;
          suppress_create_message = opts.suppress_create_message || false;
          verbose = v;
        }))
        (or_false opts.verbose)
mode_loop_lem [] false opts = refl
mode_loop_lem (p ∷ arg) have opts =
    round_lem have p opts.op (all_known arg) (operations arg) (mentions 99 arg) (mentions 118 arg)
      opts.suppress_create_message opts.verbose (is_operation p) (p == 99) (p == 115) (p == 118)
      (mode_loop arg true (record {
        op = p;
        suppress_create_message = opts.suppress_create_message;
        verbose = opts.verbose;
      }))
      (mode_loop arg have
        (record { op = opts.op; suppress_create_message = true; verbose = opts.verbose }))
      (mode_loop arg have opts)
      (mode_loop arg have (record {
        op = opts.op;
        suppress_create_message = opts.suppress_create_message;
        verbose = true;
      }))
      (ground arith) (ground arith) (ground arith) (ground arith)
      (mode_loop_lem arg true (record {
        op = p;
        suppress_create_message = opts.suppress_create_message;
        verbose = opts.verbose;
      }))
      (mode_loop_lem arg have
        (record { op = opts.op; suppress_create_message = true; verbose = opts.verbose }))
      (mode_loop_lem arg have opts)
      (mode_loop_lem arg have (record {
        op = opts.op;
        suppress_create_message = opts.suppress_create_message;
        verbose = true;
      }))

skip_dash-plain : (arg : List ℕ) → ((rest : List ℕ) → arg ≢ b'-' ∷ rest) → skip_dash arg ≡ arg
unfolding skip_dash
skip_dash-plain [] h = refl
skip_dash-plain (p ∷ arg) h = elim (Bool-cases (p == 45)) [
  | inl e ↦ absurd (h arg (ap (λ (q : ℕ). q ∷ arg) ((==_iff p 45).0 e)))
  | inr e ↦ rw e refl
]

abbrev no_options : ArOptions
no_options = record { op = 0; suppress_create_message = false; verbose = false }

accepted-eq :
    (arg : List ℕ) → (if is_empty arg then none else mode_loop arg false no_options) ≡ mode_of arg
unfolding is_empty
accepted-eq [] = refl
accepted-eq (p ∷ arg) = mode_loop_lem (p ∷ arg) false no_options

-- The letters of a mode string: what stands behind a dash at its start, or the whole string if it
-- does not begin with one.
abbrev pub AreLetters : List ℕ → List ℕ → Type 0
AreLetters arg letters =
    (arg ≡ b'-' ∷ letters) ⊎ ((arg ≡ letters) × ((rest : List ℕ) → arg ≢ b'-' ∷ rest))

skip_dash_lem : (arg letters : List ℕ) → AreLetters arg letters → skip_dash arg ≡ letters
skip_dash_lem arg letters (inl e) = rw e (unfold skip_dash in refl)
skip_dash_lem arg letters (inr (e, plain)) = skip_dash-plain arg plain ∙ e

-- A mode string is accepted just when all its letters, behind a dash if it starts with one, are
-- known and exactly one is an operation; the options are then that operation, and whether c and v
-- stand among the letters.
pub parse_mode_string_lem :
    (arg letters : List ℕ) → AreLetters arg letters → parse_mode_string arg ≡ mode_of letters
unfolding parse_mode_string
parse_mode_string_lem arg letters h =
    accepted-eq (skip_dash arg) ∙ ap mode_of (skip_dash_lem arg letters h)
