-- ===== src/Pair/Tests.antt =====
-- A table of compiler/pair.c in use, and the theorem about it applied to the same calls.
use n.Prelude.{◌≡◌, refl, false, none, some, List, [], ◌∷◌, codes, str_eq}
use n.Pair.{
  hash_loop, hash, pair_create, bucket_of, update_chain, insert_chain, pair_insert, exists_chain,
  pair_exists, get_chain, pair_get, delete_chain, pair_delete, null_chain, null_buckets,
  pair_null_value,
}
use n.Pair.Chain.{is_some, or_null}
use n.Pair.Refines.{Call, insert, delete, apply_calls, map_after, pair_refines}

program : Unit {0}
unfolding str_eq hash_loop hash pair_create bucket_of update_chain insert_chain pair_insert
    exists_chain pair_exists get_chain pair_get delete_chain pair_delete null_chain null_buckets
    pair_null_value apply_calls
program = tt

abbrev calls : List Call
calls =
    insert (codes "int") 5
    ∷ insert (codes "char") 6
    ∷ insert (codes "int") 7
    ∷ delete (codes "char")
    ∷ insert (codes "void") 0
    ∷ []

updated : pair_get (apply_calls pair_create calls) (codes "int") ≡ 7
unfolding program
updated = refl

deleted : pair_exists (apply_calls pair_create calls) (codes "char") ≡ false
unfolding program
deleted = refl

null_value : pair_null_value (apply_calls pair_create calls) ≡ some (codes "void")
unfolding program
null_value = refl

pair_refines_example :
    (pair_exists (apply_calls pair_create calls) (codes "int")
      ≡ is_some (map_after (λ k. none) calls (codes "int")))
    × (pair_get (apply_calls pair_create calls) (codes "int")
        ≡ or_null (map_after (λ k. none) calls (codes "int")))
pair_refines_example = pair_refines calls (codes "int")
