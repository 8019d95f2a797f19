-- ===== src/Search.antt =====
-- The search of `QVCache` in include/qvcache/qvcache.h, sequential and parallel: every shard is
-- searched, the results are merged, and an answer of K live results within the threshold is a hit.
-- Otherwise the backend answers, and its neighbours are queued for the insert shard. The caller
-- gives both buffers; what a shard writes of vectors is empty, so that `res` is left out.
pub mod Parallel
pub mod Tried
pub mod Missed
pub mod Collected
pub mod Strategies
pub mod Outcome
use qvcache.Common.{
  ℕ, zero, suc, ◌+◌, ◌-◌, ◌%◌, ◌^◌, ◌==◌, ltb, leb, ◌&&◌, List, [], ◌∷◌, ◌++◌, map, Bool, true,
  false, if◌then◌else◌, Option, none, some, ◌>>=◌, find, length, get_elem?, set, take, ℕ_discrete,
}
use qvcache.Floats.{Floats}
use qvcache.Region.Key.{Coordinate}
use qvcache.Lru.{LruCache, access, get_all_tags}
use qvcache.Merge.{MergedResult, AllResults, merge_and_rerank_results}
use qvcache.Cache.{Diskann, Task, Cache, tag_max, is_deleted_id}
use qvcache.Cache.Admission.{ensure_admit_shard}
use qvcache.QvCache.{Backend, Update, QvCache, fetched, update_theta, catch_up, is_hit}

-- The searches that the cache calls. An index takes K and the size of its candidate list, which is
-- `memory_L` of the cache and K at least, or else DiskANN throws. The backend writes into the two
-- buffers, and one that throws is none.
pub record Engines (F : Floats) (Vec : Type 0) (D : Diskann Vec) (B : Backend Vec) : Type 0 where
  pub memory_L : ℕ
  pub search_with_tags : Vec → ℕ → ℕ → D.Index → List (ℕ × F.Real)
  pub search_backend : B.State → Vec → ℕ → Option (List ℕ × List F.Real)

-- Empty vectors, as many as there are shards.
unfoldable pub blanks {ℓ} : {A : Type ℓ} → ℕ → List (List A)
blanks zero = []
blanks (suc n) = [] ∷ blanks n

unfoldable pub entry {ℓ} : {A : Type ℓ} → List (List A) → ℕ → List A
entry lists id = elim (get_elem? lists id) [ none ↦ [] | some l ↦ l ]

unfoldable pub touch : List ℕ → LruCache ℕ → Option (LruCache ℕ)
touch [] lru = some lru
touch (id ∷ ids) lru = do (lru', _) ← access ℕ_discrete lru id; touch ids lru'

unfoldable pub is_in : ℕ → List ℕ → Bool
is_in id [] = false
is_in id (x ∷ xs) = if x == id then true else is_in id xs

-- What the caller finds in the buffers, and the returned flag.
pub record Answer (F : Floats) : Type 0 where
  pub hit : Bool
  pub tags : List ℕ
  pub distances : List F.Real

module _ (F : Floats) (Vec : Type 0) (project : Vec → List (Coordinate F)) (D : Diskann Vec)
    (B : Backend Vec) (E : Engines F Vec D B) where
  open F use {Real, zero_real}
  open D use {Index, active}
  open E use {memory_L, search_with_tags, search_backend}

  abbrev pub Q : Type 0
  Q = QvCache F Vec project D B

  abbrev pub Merged : Type 0
  Merged = MergedResult F Vec

  -- The search of an index, which throws if K is more than its list holds.
  unfoldable pub search_index : Vec → ℕ → Index → Option (List (ℕ × Real))
  search_index query K index =
      if ltb memory_L K then none else some (search_with_tags query K memory_L index)

  -- A shard with live points is searched; any other is passed over, and has no results.
  unfoldable pub search_shard : Q → Vec → ℕ → ℕ → Option (Option (List (ℕ × Real)))
  unfolding search_index
  search_shard q query K id = elim (get_elem? q.shards.memory_indices id) [
    | none ↦ some none
    | some index ↦
        if ltb 0 (active index)
        then (do found ← search_index query K index; some (some found))
        else some none
  ]

  unfoldable pub store : AllResults F Vec → ℕ → List (ℕ × Real) → AllResults F Vec
  store all id found = record {
    all_tags = set all.all_tags id (map (λ r. r.0) found);
    all_dists = set all.all_dists id (map (λ r. r.1) found);
    all_res = set all.all_res id [];
  }

  -- The results of the listed shards, and the list of those that were searched.
  unfoldable pub collect :
      Q → Vec → ℕ → List ℕ → AllResults F Vec × List ℕ → Option (AllResults F Vec × List ℕ)
  unfolding search_shard store
  collect q query K [] (all, searched) = some (all, searched)
  collect q query K (id ∷ ids) (all, searched) = elim (search_shard q query K id) [
    | none ↦ none
    | some r ↦ elim r [
      | none ↦ collect q query K ids (all, searched)
      | some found ↦ collect q query K ids (store all id found, searched ++ id ∷ [])
    ]
  ]

  unfoldable pub no_results : ℕ → AllResults F Vec
  unfolding blanks
  no_results n = record { all_tags = blanks n; all_dists = blanks n; all_res = blanks n }

  -- If the results are a hit, they are the answer, and the shards that gave them are used, the last
  -- one last.
  unfoldable pub answer_if_hit :
      Q → Vec → ℕ → List ℕ → List ℕ → List Real → Option (Q × Option (Answer F))
  unfolding touch
  answer_if_hit q query K ids tags dists = do
    (q', hit) ← is_hit F Vec project D B q query K dists tags (length tags)
    if hit
        then (do
          lru ← touch ids q'.shards.lru_cache
          some (
            record q' { shards = record q'.shards { lru_cache = lru } },
            some (record { hit = true; tags = take K tags; distances = take K dists }),
          ))
        else some (q', none)

  -- Fewer than K results are no answer.
  unfoldable pub attempt :
      Q → Vec → ℕ → List ℕ → List ℕ → List Real → Option (Q × Option (Answer F))
  attempt q query K ids tags dists =
      if leb K (length tags) && leb K (length dists)
      then answer_if_hit q query K ids tags dists
      else some (q, none)

  -- The fast path, if one shard alone was searched.
  unfoldable pub attempt_single :
      Q → Vec → ℕ → AllResults F Vec → List ℕ → Option (Q × Option (Answer F))
  unfolding entry attempt
  attempt_single q query K all [] = some (q, none)
  attempt_single q query K all (id ∷ []) =
      attempt q query K (id ∷ []) (entry all.all_tags id) (entry all.all_dists id)
  attempt_single q query K all (id ∷ id' ∷ ids) = some (q, none)

  -- The first shard, in the order given, whose own results are a hit.
  unfoldable pub attempt_each :
      Q → Vec → ℕ → AllResults F Vec → List ℕ → List ℕ → Option (Q × Option (Answer F))
  unfolding entry attempt is_in
  attempt_each q query K all searched [] = some (q, none)
  attempt_each q query K all searched (id ∷ ids) = elim (is_in id searched) [
    | false ↦ attempt_each q query K all searched ids
    | true ↦ elim (attempt q query K (id ∷ []) (entry all.all_tags id) (entry all.all_dists id)) [
      | none ↦ none
      | some r ↦ elim r.1 [
        | some answer ↦ some (r.0, some answer)
        | none ↦ attempt_each r.0 query K all searched ids
      ]
    ]
  ]

  -- A try that found no hit is followed by the next.
  abbrev pub or_try :
      Option (Q × Option (Answer F))
      → (Q → Option (Q × Option (Answer F)))
      → Option (Q × Option (Answer F))
  or_try none next = none
  or_try (some (q, some answer)) next = some (q, some answer)
  or_try (some (q, none)) next = next q

  abbrev pub or_else :
      Option (Q × Option (Answer F)) → (Q → Option (Q × Answer F)) → Option (Q × Answer F)
  or_else none next = none
  or_else (some (q, some answer)) next = some (q, answer)
  or_else (some (q, none)) next = next q

  -- The ids to be inserted: those that are set and not deleted. An id is read in 32 bits.
  unfoldable pub admissible : Cache Vec D → ℕ → List ℕ → Option (List ℕ)
  unfolding is_deleted_id tag_max
  admissible c zero tags = some []
  admissible c (suc k) [] = none
  admissible c (suc k) (t ∷ tags) = do
    rest ← admissible c k tags
    some
        (if t % 2 ^ 32 == tag_max then rest else if is_deleted_id Vec D c t then rest else t ∷ rest)

  unfoldable pub submit : Q → ℕ → List ℕ → Option (Update F Vec project D B) → Q
  submit q target ids u = record q {
    shards = record q.shards {
      tasks = q.shards.tasks ++ record { target = target; to_be_inserted = ids } ∷ [];
    };
    updates = q.updates ++ u ∷ [];
  }

  unfoldable pub kth_distance : ℕ → List Real → Option Real
  kth_distance zero dists = some zero_real
  kth_distance (suc k) dists = get_elem? dists k

  unfoldable pub handle_backend_miss : Q → Vec → ℕ → Option (Q × Answer F)
  unfolding admissible submit kth_distance
  handle_backend_miss q query K = do
    (tags, dists) ← search_backend q.backend query K
    ids ← admissible q.shards K tags
    (shards, target) ← ensure_admit_shard Vec D (fetched F Vec project D B q.backend) q.shards
    kth ← kth_distance K dists
    let caught = catch_up F Vec project D B (record q { shards = shards })
    let u : Update F Vec project D B = record { query_ptr = query; K = K; query_distance = kth }
    some (
      (if q.lazy_theta_updates
          then submit caught target ids (some u)
          else submit (update_theta F Vec project D B caught u) target ids none),
      record {
        hit = false;
        tags = map (λ t. (t + 1) % 2 ^ 32) (take K tags);
        distances = take K dists;
      },
    )

  -- The merge reads its maps in some order.
  module _ (arrange : List Merged → List Merged)
      (arrange_counts : List (ℕ × ℕ) → List (ℕ × ℕ)) where
    unfoldable pub attempt_merged :
        Q → Vec → ℕ → AllResults F Vec → List ℕ → Option (Q × Option (Answer F))
    attempt_merged q query K all searched =
        let (merged, contributing) =
          merge_and_rerank_results F Vec arrange arrange_counts all searched K in
        attempt q query K contributing (map (λ r. r.tag) merged) (map (λ r. r.distance) merged)

    -- The shards in the order of their last use.
    unfoldable pub search_sequential : Q → Vec → ℕ → Option (Q × Answer F)
    search_sequential q query K = do
      let order = get_all_tags q.shards.lru_cache
      (all, searched) ← collect q query K order (no_results q.shards.number_of_mini_indexes, [])
      or_else (attempt_single q query K all searched) (λ q1.
          or_else (attempt_merged q1 query K all searched) (λ q2.
            or_else (attempt_each q2 query K all searched order)
              (λ q3. handle_backend_miss q3 query K)))
