-- ===== src/Abi/Agreement.antt =====
-- The comparison of records in `validate_abi_metadata` of linker/n65ld_abi.c.
use n.Prelude.{◌≡◌, ◌≢◌, ◌⊎◌, Option, none, some, List, [], ◌∷◌, All, if◌then◌else◌}
use n.Abi.{AbiRecord, AbiFault, malformed_metadata, fingerprint_mismatch, has_mismatch}

-- Two records of different kinds, symbols or roles, or with one fingerprint.
abbrev pub Agree : AbiRecord → AbiRecord → Type 0
Agree a b =
    (a.kind ≢ b.kind)
    ⊎ ((a.symbol ≢ b.symbol) ⊎ ((a.role ≢ b.role) ⊎ (a.fingerprint ≡ b.fingerprint)))

-- Every two of the records agree, in either order.
abbrev pub AllAgree : List AbiRecord → Type 0
AllAgree records = All (λ a. All (Agree a) records) records

-- As the loops go: each record with those behind it.
abbrev Pairwise : List AbiRecord → Type 0
Pairwise [] = Unit
Pairwise (rec ∷ records) = All (Agree rec) records × Pairwise records

abbrev verdict_of : List AbiRecord → Option AbiFault
verdict_of records = if has_mismatch records then some fingerprint_mismatch else none

abbrev verdict : Option (List AbiRecord) → Option AbiFault
verdict collected = elim collected [
  | none ↦ some malformed_metadata
  | some records ↦ verdict_of records
]
