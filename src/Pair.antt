-- ===== src/Pair.antt =====
-- compiler/pair.c: a map from strings to pointers, in 101 chains. A pointer is a number, NULL is 0.
pub mod Chain
pub mod Refines
mod Tests
use n.Prelude.{
  ℕ, ◌+◌, ◌*◌, ◌%◌, ◌^◌, Bool, true, false, Option, none, some, List, [], ◌∷◌, ◌==◌, if◌then◌else◌,
  set, get_or, replicate, str_eq,
}

-- `Entry`, less the link of the chain.
pub record Entry : Type 0 where
  pub key : List ℕ
  pub value : ℕ

abbrev pub table_size : ℕ
table_size = 101

pub record Pair : Type 0 where
  pub buckets : List (List Entry)

-- The loop of `hash`, on an `unsigned int` of 32 bits.
unfoldable pub hash_loop : ℕ → List ℕ → ℕ
hash_loop h [] = h
hash_loop h (c ∷ key) = hash_loop ((h * 31 + c) % 2 ^ 32) key

unfoldable pub hash : List ℕ → ℕ
hash key = hash_loop 0 key % table_size

unfoldable pub pair_create : Pair
pair_create = record { buckets = replicate table_size [] }

unfoldable pub bucket_of : Pair → List ℕ → List Entry
bucket_of pair key = get_or pair.buckets (hash key) []

-- The loop of `pair_insert`; `none` where no node has the key.
unfoldable pub update_chain : List Entry → List ℕ → ℕ → Option (List Entry)
update_chain [] key value = none
update_chain (e ∷ nodes) key value = elim (str_eq e.key key) [
  | true ↦ some (record e { value = value } ∷ nodes)
  | false ↦ elim (update_chain nodes key value) [ none ↦ none | some nodes' ↦ some (e ∷ nodes') ]
]

unfoldable pub insert_chain : List Entry → List ℕ → ℕ → List Entry
insert_chain nodes key value = elim (update_chain nodes key value) [
  | some nodes' ↦ nodes'
  | none ↦ record { key = key; value = value } ∷ nodes
]

unfoldable pub pair_insert : Pair → List ℕ → ℕ → Pair
pair_insert pair key value = record {
  buckets = set pair.buckets (hash key) (insert_chain (bucket_of pair key) key value);
}

unfoldable pub exists_chain : List Entry → List ℕ → Bool
exists_chain [] key = false
exists_chain (e ∷ nodes) key = if str_eq e.key key then true else exists_chain nodes key

unfoldable pub pair_exists : Pair → List ℕ → Bool
pair_exists pair key = exists_chain (bucket_of pair key) key

unfoldable pub get_chain : List Entry → List ℕ → ℕ
get_chain [] key = 0
get_chain (e ∷ nodes) key = if str_eq e.key key then e.value else get_chain nodes key

unfoldable pub pair_get : Pair → List ℕ → ℕ
pair_get pair key = get_chain (bucket_of pair key) key

unfoldable pub delete_chain : List Entry → List ℕ → List Entry
delete_chain [] key = []
delete_chain (e ∷ nodes) key = if str_eq e.key key then nodes else e ∷ delete_chain nodes key

unfoldable pub pair_delete : Pair → List ℕ → Pair
pair_delete pair key = record {
  buckets = set pair.buckets (hash key) (delete_chain (bucket_of pair key) key);
}

unfoldable pub null_chain : List Entry → Option (List ℕ)
null_chain [] = none
null_chain (e ∷ nodes) = if e.value == 0 then some e.key else null_chain nodes

unfoldable pub null_buckets : List (List Entry) → Option (List ℕ)
null_buckets [] = none
null_buckets (nodes ∷ buckets) = elim (null_chain nodes) [
  | some key ↦ some key
  | none ↦ null_buckets buckets
]

unfoldable pub pair_null_value : Pair → Option (List ℕ)
pair_null_value pair = null_buckets pair.buckets
