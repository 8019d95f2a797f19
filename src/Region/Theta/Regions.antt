-- ===== src/Region/Theta/Regions.antt =====
-- Every operation of `PCAUtils` of include/qvcache/pca_utils.h keeps its maps in step, so that the
-- number of regions never passes its limit.
use qvcache.Common.{
  ℕ, subst, All, ◌>>=◌, ◌-◌, get_elem?-some, ◌≤◌, max, List, [], ◌∷◌, Bool, false, Option, none,
  some, find, put, length, ◌≡◌, refl, arith, inl, inr, Option-cases, find-put, ℕ_discrete, dec_lt,
  Bool-cases, ◌||◌,
}
use mathlib.Core.Option
use qvcache.Floats.{Floats}
use qvcache.Region.Key.{Coordinate}
use qvcache.Region.Ball.{walk}
use qvcache.Region.Ball.Kept.{Keeps, walk-Keeps}
use qvcache.Region.Theta.{
  PcaUtils, code_discrete, init, set_write_l1_radius, invalidate_theta, tighten_one_region_locked,
  tighten_theta_for_vector, add_region, evict_region, lazy_init_region, touch_theta, thetas, is_hit,
  update_theta, get_number_of_active_regions, region, is_uninitialized_theta, reset_theta_entry,
  scale_entry,
}
use qvcache.Region.Theta.Bounded.{
  IsTracked, replaced-IsTracked, find-put_ne, lazy_init_region-IsTracked,
}

module _ (F : Floats) (Vec : Type 0) (project : Vec → List (Coordinate F)) where
  open F use {Real}

  abbrev Pca : Type 0
  Pca = PcaUtils F Vec project

  abbrev Tracked : Pca → Type 0
  Tracked = IsTracked F Vec project

  init-IsTracked :
      (pca_dim buckets_per_dim : ℕ) (is_cosine : Bool) (max_regions : ℕ) (u : Pca)
      → init F Vec project pca_dim buckets_per_dim is_cosine max_regions ≡ some u
      → Tracked u
  unfolding init find
  init-IsTracked pca_dim buckets_per_dim is_cosine max_regions u e = record {
    ordered = ground arith;
    distinct = ground arith;
    discounted = λ k g. ground arith;
    bounded = ground arith;
  }

  -- The region of the key is there once it was initialised.
  pub lazy_init_region-find :
      (u : Pca) (key : List ℕ)
      → (entry : List (ℕ × Real)) × (find code_discrete key
            (lazy_init_region F Vec project u key).region_theta_map
          ≡ some entry)
  unfolding lazy_init_region add_region
  lazy_init_region-find u key = elim (Option-cases (find code_discrete key u.region_theta_map)) [
    | inr (entry, e) ↦ (entry, rw (e, lazy_init_region) e)
    | inl e ↦
        let v = evict_region F Vec project u in
        (
          reset_theta_entry F v.is_cosine [],
          rw (e, lazy_init_region)
              (ground (
                arith,
                find-put code_discrete key key (reset_theta_entry F v.is_cosine [])
                    v.region_theta_map,
              )),
        )
  ]

  touch_theta-IsTracked :
      (u : Pca) (key : List ℕ) (K : ℕ) (entry : List (ℕ × Real))
      → Tracked u
      → find code_discrete key u.region_theta_map ≡ some entry
      → Tracked (touch_theta F Vec project u key K).0
  unfolding touch_theta
  touch_theta-IsTracked u key K entry t e =
      elim (Option-cases (find ℕ_discrete K (thetas F Vec project u key))) [
        | inr (v, g) ↦ rw (g, touch_theta) t
        | inl g ↦
            rw (g, touch_theta)
              (replaced-IsTracked F Vec project u key entry _ u.region_discount_map t e
                (λ k h. refl))
      ]

  touch_theta-find :
      (u : Pca) (key : List ℕ) (K : ℕ) (entry : List (ℕ × Real))
      → find code_discrete key u.region_theta_map ≡ some entry
      → (entry' : List (ℕ × Real)) × (find code_discrete key
            (touch_theta F Vec project u key K).0.region_theta_map
          ≡ some entry')
  unfolding touch_theta
  touch_theta-find u key K entry e =
      let fresh = put ℕ_discrete K F.zero_real (thetas F Vec project u key) in
      elim (Option-cases (find ℕ_discrete K (thetas F Vec project u key))) [
        | inr (v, g) ↦ (entry, rw (g, touch_theta) e)
        | inl g ↦ (
          fresh,
          rw (g, touch_theta)
              (ground (arith, find-put code_discrete key key fresh u.region_theta_map)),
        )
      ]

  is_hit-IsTracked :
      (u u' : Pca) (q : Vec) (K : ℕ) (ds : Option (List Real)) (n : ℕ) (dev : Real) (hit : Bool)
      → Tracked u
      → is_hit F Vec project u q K ds n dev ≡ some (u', hit)
      → Tracked u'
  unfolding is_hit
  is_hit-IsTracked u u' q K none n dev hit t e = ground arith
  is_hit-IsTracked u u' q K (some ds) n dev hit t e =
      let key = region F Vec project u q in
      let (entry, there) = lazy_init_region-find u key in
      let t' =
        touch_theta-IsTracked (lazy_init_region F Vec project u key) key K entry
          (lazy_init_region-IsTracked F Vec project u key t) there in
      ground (arith, t')

  update_theta-IsTracked :
      (u : Pca) (q : Vec) (K : ℕ) (d p : Real)
      → Tracked u
      → Tracked (update_theta F Vec project u q K d p)
  unfolding update_theta
  update_theta-IsTracked u q K d p t =
      let key = region F Vec project u q in
      let ready = lazy_init_region F Vec project u key in
      let (entry, there) = lazy_init_region-find u key in
      let ready' = lazy_init_region-IsTracked F Vec project u key t in
      let (entry', there') = touch_theta-find ready key K entry there in
      replaced-IsTracked F Vec project (touch_theta F Vec project ready key K).0 key entry' _ _
        (touch_theta-IsTracked ready key K entry ready' there) there'
        (λ k h.
          find-put_ne F Vec project key k _
            (touch_theta F Vec project ready key K).0.region_discount_map h)

  invalidate_theta-IsTracked :
      (u : Pca) (vec : Option Vec) → Tracked u → Tracked (invalidate_theta F Vec project u vec)
  unfolding invalidate_theta
  invalidate_theta-IsTracked u none t = t
  invalidate_theta-IsTracked u (some vec) t =
      let key = region F Vec project u vec in
      elim (Option-cases (find code_discrete key u.region_theta_map)) [
        | inl e ↦ rw (e, invalidate_theta) t
        | inr (entry, e) ↦
            rw (e, invalidate_theta)
              (replaced-IsTracked F Vec project u key entry _ _ t e
                (λ k h. find-put_ne F Vec project key k _ u.region_discount_map h))
      ]

  tighten_one-IsTracked :
      (alpha : Real) (k : List ℕ) (u : Pca) (n : ℕ)
      → Tracked u
      → Tracked (tighten_one_region_locked F Vec project alpha k (u, n)).0
  unfolding tighten_one_region_locked
  tighten_one-IsTracked alpha k u n t =
      elim (Option-cases (find code_discrete k u.region_theta_map)) [
        | inl e ↦ ground arith
        | inr (entry, e) ↦
            let t' =
              replaced-IsTracked F Vec project u k entry (scale_entry F u.is_cosine alpha entry)
                (put code_discrete k alpha u.region_discount_map) t e
                (λ j h. find-put_ne F Vec project k j alpha u.region_discount_map h) in
            ground (arith, t')
      ]

  tighten_theta_for_vector-IsTracked :
      (u : Pca) (vec : Option Vec) (alpha : Real)
      → Tracked u
      → Tracked (tighten_theta_for_vector F Vec project u vec alpha).0
  unfolding tighten_theta_for_vector
  tighten_theta_for_vector-IsTracked u none alpha t = t
  tighten_theta_for_vector-IsTracked u (some vec) alpha t =
      let key = region F Vec project u vec in
      let one = tighten_one_region_locked F Vec project alpha in
      let kept =
        walk-Keeps (λ (s : Pca × ℕ). Tracked s.0) u.buckets_per_dim one key 0 u.write_l1_radius
          (key, (u, 0)) (λ k s. tighten_one-IsTracked alpha k s.0 s.1) t in
      elim (Bool-cases (F.le_real F.one_real alpha || F.le_real alpha F.zero_real)) [
        | inl e ↦ rw e t
        | inr e ↦
            elim (Option-cases (walk u.buckets_per_dim one key 0 u.write_l1_radius (key, (u, 0)))) [
              | inl f ↦ rw (e, f) t
              | inr (r, f) ↦ rw (e, f) (subst (Keeps (λ (s : Pca × ℕ). Tracked s.0)) f kept)
            ]
      ]

  -- One call of a public operation.
  pub data Call : Type 0 where
    hit_test : Vec → ℕ → Option (List Real) → ℕ → Real → Call
    learn : Vec → ℕ → Real → Real → Call
    tighten : Option Vec → Real → Call
    invalidate : Option Vec → Call
    set_radius : ℕ → Call

  -- The state after a call; `none` is the fault of a read past the end.
  pub after : Pca → Call → Option Pca
  after u (hit_test q K ds n dev) =
      Option.map (λ (r : Pca × Bool). r.0) (is_hit F Vec project u q K ds n dev)
  after u (learn q K d p) = some (update_theta F Vec project u q K d p)
  after u (tighten vec alpha) = some (tighten_theta_for_vector F Vec project u vec alpha).0
  after u (invalidate vec) = some (invalidate_theta F Vec project u vec)
  after u (set_radius r) = some (set_write_l1_radius F Vec project u r)

  abbrev Sized : Call → Type 0
  Sized (hit_test q K (some ds) n dev) = K ≤ length ds
  Sized _ = Unit

  -- The state after a list of calls.
  pub run : Pca → List Call → Option Pca
  run u [] = some u
  run u (c ∷ cs) = do u' ← after u c; run u' cs

  pub is_hit_total :
      (u : Pca) (q : Vec) (K : ℕ) (ds : List Real) (n : ℕ) (dev : Real)
      → K ≤ length ds
      → (r : Pca × Bool) × (is_hit F Vec project u q K (some ds) n dev ≡ some r)
  unfolding is_hit
  is_hit_total u q K ds n dev h = elim (dec_lt n K) [
    | yes few ↦ ((u, false), ground arith)
    | no enough ↦ elim (ℕ_discrete K 0) [
      | yes z ↦ ((u, false), ground arith)
      | no pos ↦
          let key = region F Vec project u q in
          let (u', theta) =
            touch_theta F Vec project (lazy_init_region F Vec project u key) key K in
          let (d, e) = get_elem?-some ds (K - 1) (omega arith) in
          elim (Bool-cases (is_uninitialized_theta F u'.is_cosine theta)) [
            | inl g ↦ ((u', false), ground arith)
            | inr g ↦ ((u', F.le_real d (F.mul (F.add F.one_real dev) theta)), ground arith)
          ]
    ]
  ]

  after-IsTracked :
      (u : Pca) (c : Call) → Tracked u → Sized c → (u' : Pca) × (after u c ≡ some u') × Tracked u'
  unfolding after set_write_l1_radius
  after-IsTracked u (hit_test q K none n dev) t h = (u, unfold is_hit in refl, t)
  after-IsTracked u (hit_test q K (some ds) n dev) t h =
      let (r, e) = is_hit_total u q K ds n dev h in
      (r.0, rw e, is_hit-IsTracked u r.0 q K (some ds) n dev r.1 t e)
  after-IsTracked u (learn q K d p) t h = (_, refl, update_theta-IsTracked u q K d p t)
  after-IsTracked u (tighten vec alpha) t h =
      (_, refl, tighten_theta_for_vector-IsTracked u vec alpha t)
  after-IsTracked u (invalidate vec) t h = (_, refl, invalidate_theta-IsTracked u vec t)
  after-IsTracked u (set_radius r) t h = (
    _,
    refl,
    record {
      ordered = t.ordered;
      distinct = t.distinct;
      discounted = t.discounted;
      bounded = t.bounded;
    },
  )

  -- From any state whose maps agree, any list of calls whose hit tests are given at least K distances
  -- runs through. It ends with agreeing maps and with at most `max_regions` regions, or one if that
  -- is 0. A walk that overflows an `int` is taken to leave the state alone.
  pub run-IsTracked :
      (cs : List Call) (u : Pca)
      → Tracked u
      → All Sized cs
      → (u' : Pca) × (run u cs ≡ some u')
        × Tracked u'
        × (get_number_of_active_regions F Vec project u' ≤ max 1 u'.max_regions)
  unfolding run get_number_of_active_regions
  run-IsTracked [] u t h = (u, refl, t, t.bounded)
  run-IsTracked (c ∷ cs) u t h =
      let (u', e, t') = after-IsTracked u c t h.0 in
      let (u'', e', t'', bound) = run-IsTracked cs u' t' h.1 in (u'', rw (e, e'), t'', bound)
