-- ===== src/Sync/Tests.antt =====
-- runtime/pullrun-sync/src/bloom.rs and delta.rs on concrete filters.
use pullrun.Base.{◌≡◌, refl, some, List, [], ◌∷◌, arith}
use pullrun.Base.Words.{Bytes}
use pullrun.Sync.Bloom.{
  BloomFilter, new, insert, contains, merge, to_le, from_le, hash_seed, insert_loop, contains_loop,
  g_i, read_word, set_bit, merge_words,
}
use pullrun.Sync.Bloom.Member.{IsFilter, IsFilter-new}
use pullrun.Sync.Delta.{
  compute_delta, insert_all, rebuild_bloom_filter, IsDelta, compute_delta-IsDelta,
}

-- A hash that is the item itself.
abbrev toy : Bytes → Bytes
toy b = b

abbrev empty : BloomFilter
empty = new 128 2

empty-IsFilter : IsFilter empty
empty-IsFilter = IsFilter-new 128 2 (omega arith)

abbrev three : BloomFilter
three = record { bits = 4608 ∷ 0 ∷ []; k = 2; m = 128; num_items = 1 }

abbrev forty : BloomFilter
forty = record { bits = 0 ∷ 1099511627777 ∷ []; k = 2; m = 128; num_items = 1 }

insert-three : insert toy (3 ∷ []) empty ≡ some three
unfolding insert insert_loop hash_seed to_le from_le g_i set_bit new
insert-three = refl

three-forty :
    merge three forty
    ≡ some (record { bits = 4608 ∷ 1099511627777 ∷ []; k = 2; m = 128; num_items = 1 })
unfolding merge merge_words
three-forty = refl

insert-forty :
    insert toy (40 ∷ 1 ∷ []) three
    ≡ some (record { bits = 4608 ∷ 1099511627777 ∷ []; k = 2; m = 128; num_items = 2 })
unfolding insert insert_loop hash_seed to_le from_le g_i set_bit
insert-forty = refl

three-IsFilter : IsFilter three
three-IsFilter = record { some_bits = omega arith; words = refl }

compute_delta-IsDelta_example :
    (out : List Bytes) × (compute_delta toy ((3 ∷ []) ∷ (40 ∷ 1 ∷ []) ∷ []) three ≡ some out)
    × IsDelta toy ((3 ∷ []) ∷ (40 ∷ 1 ∷ []) ∷ []) three out
compute_delta-IsDelta_example =
    compute_delta-IsDelta toy ((3 ∷ []) ∷ (40 ∷ 1 ∷ []) ∷ []) three three-IsFilter

rebuild-three : rebuild_bloom_filter toy 128 2 ((3 ∷ []) ∷ []) ≡ some (three, 1)
unfolding rebuild_bloom_filter insert_all
rebuild-three = rw insert-three

delta-three : compute_delta toy ((3 ∷ []) ∷ (40 ∷ 1 ∷ []) ∷ []) three ≡ some ((40 ∷ 1 ∷ []) ∷ [])
unfolding compute_delta contains contains_loop hash_seed to_le from_le g_i read_word
delta-three = refl

abbrev sent : List Bytes
sent = (40 ∷ 1 ∷ []) ∷ []
