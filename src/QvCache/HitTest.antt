-- ===== src/QvCache/HitTest.antt =====
-- The updates of include/qvcache/qvcache.h leave the shards alone, and its hit test returns whenever
-- it is given K tags and K distances.
use qvcache.Common.{
  ℕ, ◌-◌, ◌≤◌, List, [], ◌∷◌, Bool, false, Option, none, some, length, get_elem?-some, take, All,
  ◌≡◌, refl, ◌∙◌, arith, Bool-cases, ◌⊎◌, inl, inr, ℕ_discrete, dec_lt,
}
use qvcache.Floats.{Floats}
use qvcache.Region.Key.{Coordinate}
use qvcache.Region.Theta.Regions.{is_hit_total}
use qvcache.Region.Theta.{is_uninitialized_theta}
use qvcache.GlobalTheta
use qvcache.GlobalTheta.{Thresholds, theta_of}
use qvcache.Cache.{Diskann, Task, get_number_of_vectors}
use qvcache.Cache.Live.{IsLive, has_k_live_results-IsLive}
use qvcache.QvCache.{
  Backend, Update, QvCache, update_theta, finish, finish_all, settle, catch_up, is_hit,
}

module _ (F : Floats) (Vec : Type 0) (project : Vec → List (Coordinate F)) (D : Diskann Vec)
    (B : Backend Vec) where
  open F use {Real}

  abbrev Q : Type 0
  Q = QvCache F Vec project D B

  abbrev U : Type 0
  U = Update F Vec project D B

  -- The parts that the thresholds have no say in.
  pub record SameShards (q q' : Q) : Type 0 where
    pub shards : q'.shards ≡ q.shards
    pub backend : q'.backend ≡ q.backend
    pub lazy : q'.lazy_theta_updates ≡ q.lazy_theta_updates

  pub update_theta-SameShards : (q : Q) (u : U) → SameShards q (update_theta F Vec project D B q u)
  unfolding update_theta
  update_theta-SameShards q u = elim (Bool-cases q.use_regional_theta) [
    | inl e ↦ rw (e, update_theta) record { shards = refl; backend = refl; lazy = refl }
    | inr e ↦ rw (e, update_theta) record { shards = refl; backend = refl; lazy = refl }
  ]

  pub finish-SameShards : (q : Q) (u : Option U) → SameShards q (finish F Vec project D B q u)
  unfolding finish
  finish-SameShards q none = record { shards = refl; backend = refl; lazy = refl }
  finish-SameShards q (some u) = update_theta-SameShards q u

  pub trans-SameShards : (a b c : Q) → SameShards a b → SameShards b c → SameShards a c
  trans-SameShards a b c h k = record {
    shards = k.shards ∙ h.shards;
    backend = k.backend ∙ h.backend;
    lazy = k.lazy ∙ h.lazy;
  }

  finish_all-SameShards :
      (us : List (Option U)) (q : Q) → SameShards q (finish_all F Vec project D B us q)
  unfolding finish_all
  finish_all-SameShards [] q = record { shards = refl; backend = refl; lazy = refl }
  finish_all-SameShards (u ∷ us) q =
      trans-SameShards q _ _ (finish-SameShards q u) (finish_all-SameShards us _)

  settle-SameShards : (tasks : List Task) (q : Q) → SameShards q (settle F Vec project D B tasks q)
  unfolding settle
  settle-SameShards [] q =
      trans-SameShards q (record q { updates = [] }) _
        record { shards = refl; backend = refl; lazy = refl }
        (finish_all-SameShards q.updates (record q { updates = [] }))
  settle-SameShards (t ∷ ts) q = record { shards = refl; backend = refl; lazy = refl }

  pub catch_up-SameShards : (q : Q) → SameShards q (catch_up F Vec project D B q)
  unfolding catch_up
  catch_up-SameShards q = settle-SameShards q.shards.tasks q

  global_is_hit_total :
      (t : Thresholds F) (vectors K : ℕ) (ds : List Real)
      → K ≤ length ds
      → (r : Thresholds F × Bool) × (GlobalTheta.is_hit F t vectors K (some ds) ≡ some r)
  unfolding GlobalTheta.is_hit
  global_is_hit_total t vectors K ds h = elim (dec_lt vectors K) [
    | yes few ↦ ((t, false), ground arith)
    | no enough ↦ elim (ℕ_discrete K 0) [
      | yes z ↦ ((t, false), ground arith)
      | no pos ↦
          let (t', theta) = theta_of F t K in
          let (d, e) = get_elem?-some ds (K - 1) (omega arith) in
          elim (Bool-cases (is_uninitialized_theta F t.is_cosine theta)) [
            | inl g ↦ ((t', false), ground arith)
            | inr g ↦ (
              (t', F.le_real d (F.mul (F.add F.one_real t.deviation_factor) theta)),
              ground arith,
            )
          ]
    ]
  ]

  -- What a hit test gives: the shards as they were, and if it holds, K live tags.
  pub record Tested (q : Q) (K : ℕ) (tags : List ℕ) (num_results : ℕ) (q' : Q) (hit : Bool)
      : Type 0 where
    pub same : SameShards q q'
    pub live : (hit ≡ false) ⊎ ((K ≤ num_results) × All (IsLive Vec D q.shards) (take K tags))

  pub is_hit-Tested :
      (q : Q) (query : Vec) (K : ℕ) (ds : List Real) (tags : List ℕ) (num_results : ℕ)
      → K ≤ length ds
      → K ≤ length tags
      → (q' : Q) × (hit : Bool) × (is_hit F Vec project D B q query K ds tags num_results
          ≡ some (q', hit))
        × Tested q K tags num_results q' hit
  unfolding is_hit
  is_hit-Tested q query K ds tags num_results hd ht =
      elim (has_k_live_results-IsLive Vec D q.shards K tags num_results ht) [
        | inl (e, few, l) ↦ elim (Bool-cases q.use_regional_theta) [
          | inl r ↦
              let (out, ran) =
                is_hit_total F Vec project q.pca_utils query K ds
                  (get_number_of_vectors Vec D q.shards) q.thresholds.deviation_factor hd in
              (
                record q { pca_utils = out.0 },
                out.1,
                rw (e, is_hit, r, ran) refl,
                record {
                  same = record { shards = refl; backend = refl; lazy = refl };
                  live = inr (few, l);
                },
              )
          | inr r ↦
              let (out, ran) =
                global_is_hit_total q.thresholds (get_number_of_vectors Vec D q.shards) K ds hd in
              (
                record q { thresholds = out.0 },
                out.1,
                rw (e, is_hit, r, ran) refl,
                record {
                  same = record { shards = refl; backend = refl; lazy = refl };
                  live = inr (few, l);
                },
              )
        ]
        | inr (e, dead) ↦ (
          q,
          false,
          rw (e, is_hit) refl,
          record { same = record { shards = refl; backend = refl; lazy = refl }; live = inl refl },
        )
      ]
