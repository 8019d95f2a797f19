-- ===== src/Tests/Writes.antt =====
-- Removals of include/qvcache/qvcache.h on small shards.
use qvcache.Common.{
  ℕ, List, [], ◌∷◌, true, false, none, some, put, erase, find, ℕ_discrete, dec_le, ◌≡◌, refl, arith,
  map,
}
use qvcache.Lru.{init, access}
use qvcache.Cache.{mem_tag_of, insert_point_into_shard, has_k_live_results}
use qvcache.QvCache.{Backend, QvCache}
use qvcache.Writes.{insert, remove}
use qvcache.Cache.Admission.{reclaim_insert_slots, admit_to, try_admit_data_vector}
use qvcache.Writes.Removed.{Write, inserted, removed, run, remove-not_live}
use qvcache.Tests.Tenths.{tenths}
use qvcache.Tests.GlobalTheta.{fresh}
use qvcache.Tests.Region.{project, learned}
use qvcache.Tests.Cache.{counting, three_shards}

-- It holds the ids that it was given.
abbrev pub id_list : Backend ℕ
id_list = record {
  State = List ℕ;
  supports_updates = true;
  insert_vector = λ id v ids. id ∷ ids;
  remove_vector = λ id ids. ids;
  fetch_vectors_by_ids = λ ids wanted. some (map some wanted);
}

abbrev pub q : QvCache tenths ℕ project counting id_list
q = record {
  shards = three_shards;
  pca_utils = learned;
  thresholds = fresh;
  use_regional_theta = true;
  lazy_theta_updates = true;
  parallel = true;
  write_theta_discount = 8;
  region_invalidations = 0;
  updates = [];
  backend = [];
}

-- Id 4 is removed, 9 is removed, and a vector is written for 2.
abbrev writes : List (Write ℕ)
writes = removed 9 none ∷ inserted 2 (some 20) ∷ []

abbrev removed_one : QvCache tenths ℕ project counting id_list
removed_one = remove tenths ℕ project counting id_list q 4 (some 15)

abbrev after : QvCache tenths ℕ project counting id_list
after = elim (run tenths ℕ project counting id_list writes removed_one) [ none ↦ q | some q' ↦ q' ]

run-removed_one : run tenths ℕ project counting id_list writes removed_one ≡ some after
unfolding insert remove try_admit_data_vector put erase ℕ_discrete reclaim_insert_slots admit_to
    access find insert_point_into_shard init dec_le
run-removed_one = refl

remove-not_live_example :
    has_k_live_results ℕ counting after.shards 2 (some (3 ∷ 5 ∷ [])) 2 ≡ some false
unfolding mem_tag_of
remove-not_live_example =
    remove-not_live tenths ℕ project counting id_list 4 (some 15) writes q after (3 ∷ 5 ∷ []) 1 2 2
      (tt, ((λ e. absurd (omega (arith, e))), tt)) run-removed_one (omega arith) (omega arith)
      (omega arith) refl
