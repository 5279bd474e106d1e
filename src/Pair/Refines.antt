-- ===== src/Pair/Refines.antt =====
-- compiler/pair.c as a map from keys to values.
use n.Prelude.{
  ℕ, ◌≡◌, ◌<◌, refl, ap, ◌∙◌, inl, inr, true, Option, none, some, List, [], ◌∷◌, ◌==◌,
  if◌then◌else◌, length, length-set, get_or, get_or-set, get_or-replicate, set, str_eq, str_eq→eq,
  Bool-cases, arith,
}
use n.Pair.{
  Entry, Pair, hash, pair_create, bucket_of, insert_chain, pair_insert, pair_exists, pair_get,
  delete_chain, pair_delete,
}
use n.Pair.Chain.{
  find_chain, Distinct, is_some, or_null, exists-find, get-find, find-insert, insert-Distinct,
  find-delete, delete-Distinct,
}

hash-lt : (key : List ℕ) → hash key < 101
unfolding hash
hash-lt key = omega arith

-- A map as a function, and its two updates.
unfoldable pub with_key : (List ℕ → Option ℕ) → List ℕ → ℕ → List ℕ → Option ℕ
with_key f key value k = if str_eq key k then some value else f k

unfoldable pub without_key : (List ℕ → Option ℕ) → List ℕ → List ℕ → Option ℕ
without_key f key k = if str_eq key k then none else f k

-- The table holds the map `f`: it has its 101 chains, no chain has a key twice, and the chain of
-- a key has the key's value.
record Represents (pair : Pair) (f : List ℕ → Option ℕ) : Type 0 where
  chains : length pair.buckets ≡ 101
  distinct : (i : ℕ) → Distinct (get_or pair.buckets i [])
  found : (k : List ℕ) → find_chain (bucket_of pair k) k ≡ f k

pair_create-Represents : Represents pair_create (λ k. none)
unfolding pair_create bucket_of find_chain
pair_create-Represents = record {
  chains = refl;
  distinct = λ i. rw (get_or-replicate {A = List Entry} 101 i []) tt;
  found = λ k. rw (get_or-replicate {A = List Entry} 101 (hash k) []) refl;
}

-- The chains behind a write into the chain of a key.
chain_set :
    (pair : Pair) (key : List ℕ) (nodes : List Entry) (i : ℕ)
    → length pair.buckets ≡ 101
    → get_or (set pair.buckets (hash key) nodes) i []
      ≡ (if hash key == i then nodes else get_or pair.buckets i [])
chain_set pair key nodes i h =
    get_or-set pair.buckets (hash key) i nodes [] (omega (arith, hash-lt key))

set-Distinct :
    (pair : Pair) (key : List ℕ) (nodes : List Entry)
    → length pair.buckets ≡ 101
    → ((i : ℕ) → Distinct (get_or pair.buckets i []))
    → Distinct nodes
    → (i : ℕ) → Distinct (get_or (set pair.buckets (hash key) nodes) i [])
set-Distinct pair key nodes h d n i = elim (Bool-cases (hash key == i)) [
  | inl q ↦ rw (chain_set pair key nodes i h, q) n
  | inr q ↦ rw (chain_set pair key nodes i h, q) (d i)
]

hash_same : (a b : List ℕ) → str_eq a b ≡ true → hash a ≡ hash b
hash_same a b e = ap hash (str_eq→eq a b e)

pair_insert-Represents :
    (pair : Pair) (f : List ℕ → Option ℕ) (key : List ℕ) (value : ℕ)
    → Represents pair f
    → Represents (pair_insert pair key value) (with_key f key value)
unfolding pair_insert bucket_of with_key
pair_insert-Represents pair f key value r =
    let nodes = insert_chain (get_or pair.buckets (hash key) []) key value in
    record {
      chains = length-set pair.buckets (hash key) nodes ∙ r.chains;
      distinct =
          set-Distinct pair key nodes r.chains r.distinct
            (insert-Distinct (get_or pair.buckets (hash key) []) key value (r.distinct (hash key)));
      found = λ k. ground (
        arith,
        chain_set pair key nodes (hash k) r.chains,
        find-insert (get_or pair.buckets (hash key) []) key k value,
        hash_same key k,
        r.found k,
      );
    }

pair_delete-Represents :
    (pair : Pair) (f : List ℕ → Option ℕ) (key : List ℕ)
    → Represents pair f
    → Represents (pair_delete pair key) (without_key f key)
unfolding pair_delete bucket_of without_key
pair_delete-Represents pair f key r =
    let nodes = delete_chain (get_or pair.buckets (hash key) []) key in
    record {
      chains = length-set pair.buckets (hash key) nodes ∙ r.chains;
      distinct =
          set-Distinct pair key nodes r.chains r.distinct
            (delete-Distinct (get_or pair.buckets (hash key) []) key (r.distinct (hash key)));
      found = λ k. ground (
        arith,
        chain_set pair key nodes (hash k) r.chains,
        find-delete (get_or pair.buckets (hash key) []) key k (r.distinct (hash key)),
        hash_same key k,
        r.found k,
      );
    }

-- The calls that change a table.
pub data Call : Type 0 where
  insert : List ℕ → ℕ → Call
  delete : List ℕ → Call

unfoldable pub apply_calls : Pair → List Call → Pair
apply_calls pair [] = pair
apply_calls pair (insert key value ∷ calls) = apply_calls (pair_insert pair key value) calls
apply_calls pair (delete key ∷ calls) = apply_calls (pair_delete pair key) calls

-- The same calls on a map.
unfoldable pub map_after : (List ℕ → Option ℕ) → List Call → List ℕ → Option ℕ
map_after f [] = f
map_after f (insert key value ∷ calls) = map_after (with_key f key value) calls
map_after f (delete key ∷ calls) = map_after (without_key f key) calls

calls-Represents :
    (pair : Pair) (f : List ℕ → Option ℕ) (calls : List Call)
    → Represents pair f
    → Represents (apply_calls pair calls) (map_after f calls)
unfolding apply_calls map_after
calls-Represents pair f [] r = r
calls-Represents pair f (insert key value ∷ calls) r =
    calls-Represents (pair_insert pair key value) (with_key f key value) calls
      (pair_insert-Represents pair f key value r)
calls-Represents pair f (delete key ∷ calls) r =
    calls-Represents (pair_delete pair key) (without_key f key) calls
      (pair_delete-Represents pair f key r)

-- After any sequence of insertions and deletions, from an empty table on, `pair_exists` and
-- `pair_get` answer for every key what the finite map answers after the same sequence, where
-- `pair_get` has NULL for a key that is not there.
pub pair_refines :
    (calls : List Call) (key : List ℕ)
    → (pair_exists (apply_calls pair_create calls) key ≡ is_some (map_after (λ k. none) calls key))
      × (pair_get (apply_calls pair_create calls) key ≡ or_null (map_after (λ k. none) calls key))
unfolding pair_exists pair_get
pair_refines calls key =
    let r = calls-Represents pair_create (λ k. none) calls pair_create-Represents in
    (
      exists-find (bucket_of (apply_calls pair_create calls) key) key ∙ ap is_some (r.found key),
      get-find (bucket_of (apply_calls pair_create calls) key) key ∙ ap or_null (r.found key),
    )
