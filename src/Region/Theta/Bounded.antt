-- ===== src/Region/Theta/Bounded.antt =====
-- The maps of `PCAUtils` of include/qvcache/pca_utils.h stay in step, and the number of regions
-- stays within its limit.
use qvcache.Common.{
  ℕ, suc, ◌≤◌, max, List, [], ◌∷◌, ◌++◌, none, some, find, put, erase, keys, DistinctKeys,
  keys-put_present, keys-put_absent, put-DistinctKeys, find-put, find-erase, length-put_absent,
  erase-head, length, dec_le, List-cases, length-map, ◌≡◌, ◌≢◌, refl, sym, ap, ◌∙◌, arith, inl, inr,
  Option-cases,
}
use qvcache.Floats.{Floats}
use qvcache.Region.Key.{Coordinate}
use qvcache.Region.Theta.{
  PcaUtils, code_discrete, evict_region, add_region, lazy_init_region, reset_theta_entry,
}

module _ (F : Floats) (Vec : Type 0) (project : Vec → List (Coordinate F)) where
  open F use {Real}

  abbrev pub Utils : Type 0
  Utils = PcaUtils F Vec project

  pub record IsTracked (u : PcaUtils F Vec project) : Type 0 where
    pub ordered : keys code_discrete u.region_theta_map ≡ u.region_insertion_order
    pub distinct : DistinctKeys code_discrete u.region_theta_map
    pub discounted :
        (k : List ℕ)
        → find code_discrete k u.region_theta_map ≡ none
        → find code_discrete k u.region_discount_map ≡ none
    pub bounded : length u.region_theta_map ≤ max 1 u.max_regions

  length-map_nil : (m : List (List ℕ × List (ℕ × Real))) → keys code_discrete m ≡ [] → length m ≡ 0
  length-map_nil [] h = refl
  length-map_nil (x ∷ m) h = cc

  -- New values under a key that is there.
  pub replaced-IsTracked :
      (u : Utils) (key : List ℕ) (old new : List (ℕ × Real)) (d : List (List ℕ × Real))
      → IsTracked u
      → find code_discrete key u.region_theta_map ≡ some old
      → ((k : List ℕ)
          → k ≢ key
          → find code_discrete k d ≡ find code_discrete k u.region_discount_map)
      → IsTracked (record u {
        region_theta_map = put code_discrete key new u.region_theta_map;
        region_discount_map = d;
      })
  replaced-IsTracked u key old new d t e h =
      let same = keys-put_present code_discrete key new old u.region_theta_map e in
      record {
        ordered = same ∙ t.ordered;
        distinct = put-DistinctKeys code_discrete key new u.region_theta_map t.distinct;
        discounted = λ k g. elim (code_discrete key k) [
          | yes p ↦ absurd (ground (arith, find-put code_discrete key k new u.region_theta_map))
          | no p ↦
              h k (λ q. p (sym q))
              ∙ t.discounted k (ground (arith, find-put code_discrete key k new u.region_theta_map))
        ];
        bounded = omega (
          arith,
          t.bounded,
          ap length same,
          length-map {0, 0} (λ (x : List ℕ × List (ℕ × Real)). x.0)
              (put code_discrete key new u.region_theta_map),
          length-map {0, 0} (λ (x : List ℕ × List (ℕ × Real)). x.0) u.region_theta_map,
        );
      }

  pub find-put_ne :
      (key k : List ℕ) (v : Real) (m : List (List ℕ × Real))
      → k ≢ key
      → find code_discrete k (put code_discrete key v m) ≡ find code_discrete k m
  find-put_ne key k v m h = ground (arith, find-put code_discrete key k v m)

  evict_region-IsTracked :
      (u : Utils)
      → IsTracked u
      → IsTracked (evict_region F Vec project u)
        × (suc (length (evict_region F Vec project u).region_theta_map) ≤ max 1 u.max_regions)
        × ((evict_region F Vec project u).max_regions ≡ u.max_regions)
        × ((k : List ℕ)
            → find code_discrete k u.region_theta_map ≡ none
            → find code_discrete k (evict_region F Vec project u).region_theta_map ≡ none)
  unfolding evict_region
  evict_region-IsTracked u t = elim (dec_le u.max_regions (length u.region_theta_map)) [
    | no room ↦ ground arith
    | yes full ↦ elim (List-cases u.region_insertion_order) [
      | inl e ↦
          let none_left : length u.region_theta_map ≡ 0 =
            length-map_nil u.region_theta_map (t.ordered ∙ e) in
          ground (arith, none_left)
      | inr (k, rest, e) ↦
          let (ordered, distinct, shorter) =
            erase-head code_discrete u.region_theta_map k rest t.distinct (t.ordered ∙ e) in
          let erased = λ (q : List ℕ). find-erase code_discrete k q u.region_theta_map in
          let r = evict_region F Vec project u in
          let e' : r ≡ record u {
            region_insertion_order = rest;
            region_theta_map = erase code_discrete k u.region_theta_map;
            region_discount_map = erase code_discrete k u.region_discount_map;
          } =
            ground arith in
          rw e' (
            record {
              ordered = ordered;
              distinct = distinct;
              discounted = λ q g. ground (
                arith,
                erased q,
                find-erase code_discrete k q u.region_discount_map,
                t.discounted q,
              );
              bounded = omega (arith, t.bounded, shorter);
            },
            omega (arith, t.bounded, shorter),
            refl,
            λ q g. ground (arith, erased q),
          )
    ]
  ]

  add_region-IsTracked :
      (u : Utils) (key : List ℕ)
      → IsTracked u
      → suc (length u.region_theta_map) ≤ max 1 u.max_regions
      → find code_discrete key u.region_theta_map ≡ none
      → IsTracked (add_region F Vec project u key)
  unfolding add_region
  add_region-IsTracked u key t room new = record {
    ordered =
        keys-put_absent code_discrete key (reset_theta_entry F u.is_cosine []) u.region_theta_map
          new
        ∙ ap (λ l. l ++ key ∷ []) t.ordered;
    distinct = put-DistinctKeys code_discrete key _ u.region_theta_map t.distinct;
    discounted = λ k g. t.discounted k (
        ground (
          arith,
          find-put code_discrete key k (reset_theta_entry F u.is_cosine []) u.region_theta_map,
        ));
    bounded = omega (
      arith,
      length-put_absent code_discrete key (reset_theta_entry F u.is_cosine []) u.region_theta_map
          new,
    );
  }

  pub lazy_init_region-IsTracked :
      (u : Utils) (key : List ℕ) → IsTracked u → IsTracked (lazy_init_region F Vec project u key)
  unfolding lazy_init_region
  lazy_init_region-IsTracked u key t =
      elim (Option-cases (find code_discrete key u.region_theta_map)) [
        | inr (entry, e) ↦ rw (e, lazy_init_region) t
        | inl e ↦
            let (t', room, limit, gone) = evict_region-IsTracked u t in
            rw (e, lazy_init_region)
              (add_region-IsTracked (evict_region F Vec project u) key t' (rw limit room)
                (gone key e))
      ]
