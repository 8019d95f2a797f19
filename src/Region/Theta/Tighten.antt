-- ===== src/Region/Theta/Tighten.antt =====
-- `tighten_theta_for_vector` of include/qvcache/pca_utils.h: which regions a write tightens.
use qvcache.Common.{
  ℕ, map, Bool-cases, ◌+◌, ◌≤◌, List, [], ◌∷◌, Bool, true, false, not, ◌||◌, if◌then◌else◌, Option,
  none, some, find, ◌≡◌, refl, ap, ◌∙◌, arith, inl, inr, Option-cases, find-put, ◌==◌, ◌↔◌,
}
use qvcache.Floats.{Floats}
use qvcache.Region.Key.{Coordinate}
use qvcache.Region.Key.Bucket.{code-bytes}
use qvcache.Region.Ball.Free.{walk-runs}
use qvcache.Region.Ball.Visits.{visit_all, free_walk-ball, ball}
use qvcache.Region.Ball.Exact.{Fits, near, occurrences, occurrences-ball, same_code}
use qvcache.Region.Theta.{
  PcaUtils, code_discrete, tighten_one_region_locked, tighten_theta_for_vector, region, scale_entry,
  entry_has_live_theta, discount, is_uninitialized_theta,
}

same_code_iff : (xs ys : List ℕ) → (same_code xs ys ≡ true) ↔ (xs ≡ ys)
same_code_iff [] [] = (λ _. refl, λ _. refl)
same_code_iff [] (y ∷ ys) = (λ e. cc, λ e. cc)
same_code_iff (x ∷ xs) [] = (λ e. cc, λ e. cc)
same_code_iff (x ∷ xs) (y ∷ ys) =
    let (there, here) = same_code_iff xs ys in
    (λ e. ground (arith, there), λ e. ground (arith, here))

module _ (F : Floats) (Vec : Type 0) (project : Vec → List (Coordinate F)) where
  open F use {Real}

  abbrev Pca : Type 0
  Pca = PcaUtils F Vec project

  -- What the state says of a region: its thresholds, if it is learned, and its discount.
  abbrev pub Told : Type 0
  Told = Option (List (ℕ × Real)) × Real

  abbrev pub told : Pca → List ℕ → Told
  told u k = (find code_discrete k u.region_theta_map, discount F Vec project u k)

  -- What scaling makes of the thresholds of a region: those that have a value are multiplied.
  abbrev scaled : Bool → Real → List (ℕ × Real) → List (ℕ × Real)
  scaled cosine alpha entry =
      map (λ kv. (kv.0, if is_uninitialized_theta F cosine kv.1 then kv.1 else F.mul kv.1 alpha))
        entry

  -- Some threshold has a value.
  abbrev has_value : Bool → List (ℕ × Real) → Bool
  has_value cosine [] = false
  has_value cosine ((k, v) ∷ entry) =
      not (is_uninitialized_theta F cosine v) || has_value cosine entry

  scale_entry-scaled :
      (cosine : Bool) (alpha : Real) (entry : List (ℕ × Real))
      → scale_entry F cosine alpha entry ≡ scaled cosine alpha entry
  unfolding scale_entry
  scale_entry-scaled cosine alpha [] = refl
  scale_entry-scaled cosine alpha ((k, v) ∷ entry) =
      rw (scale_entry-scaled cosine alpha entry)
        (elim (Bool-cases (is_uninitialized_theta F cosine v)) [
          | inl e ↦ rw (e) refl
          | inr e ↦ rw (e) refl
        ])

  entry_has_live_theta-has_value :
      (cosine : Bool) (entry : List (ℕ × Real))
      → entry_has_live_theta F cosine entry ≡ has_value cosine entry
  unfolding entry_has_live_theta
  entry_has_live_theta-has_value cosine [] = refl
  entry_has_live_theta-has_value cosine ((k, v) ∷ entry) =
      rw (entry_has_live_theta-has_value cosine entry)
        (elim (Bool-cases (is_uninitialized_theta F cosine v)) [
          | inl e ↦ rw (e) refl
          | inr e ↦ rw (e) refl
        ])

  -- What a visit makes of that: a learned region with a live threshold whose discount is not yet
  -- down to `alpha` has its live thresholds scaled and its discount set.
  unfoldable pub tightened : Bool → Bool → Real → Told → Told
  tightened false cosine alpha t = t
  tightened true cosine alpha (none, d) = (none, d)
  tightened true cosine alpha (some entry, d) =
      if not (has_value cosine entry) || F.le_real d alpha
      then (some entry, d)
      else (some (scaled cosine alpha entry), alpha)

  tighten_one-told :
      (alpha : Real) (fine k : List ℕ) (u : Pca) (n : ℕ)
      → told (tighten_one_region_locked F Vec project alpha fine (u, n)).0 k
        ≡ tightened (same_code k fine) u.is_cosine alpha (told u k)
  unfolding tighten_one_region_locked tightened discount
  tighten_one-told alpha fine k u n =
      let same = same_code_iff k fine in
      elim (Option-cases (find code_discrete fine u.region_theta_map)) [
        | inl e ↦ ground (arith, same)
        | inr (entry, e) ↦ ground (
          arith,
          same,
          scale_entry-scaled u.is_cosine alpha entry,
          entry_has_live_theta-has_value u.is_cosine entry,
          find-put code_discrete fine k (scale_entry F u.is_cosine alpha entry) u.region_theta_map,
          find-put code_discrete fine k alpha u.region_discount_map,
        )
      ]

  tighten_one-is_cosine :
      (alpha : Real) (fine : List ℕ) (s : Pca × ℕ)
      → (tighten_one_region_locked F Vec project alpha fine s).0.is_cosine ≡ s.0.is_cosine
  unfolding tighten_one_region_locked
  tighten_one-is_cosine alpha fine s = ground arith

  tightened_once :
      (m : Bool) (n : ℕ) (c : Bool) (alpha : Real) (t : Told)
      → (if m then 1 else 0) + n ≤ 1
      → tightened (n == 1) c alpha (tightened m c alpha t)
        ≡ tightened ((if m then 1 else 0) + n == 1) c alpha t
  unfolding tightened
  tightened_once true n c alpha t h = let e : n ≡ 0 = omega arith in rw e
  tightened_once false n c alpha t h = let e : 0 + n ≡ n = omega arith in rw e

  visit_all-told :
      (alpha : Real) (k : List ℕ) (ks : List (List ℕ)) (s : Pca × ℕ)
      → occurrences k ks ≤ 1
      → told (visit_all (tighten_one_region_locked F Vec project alpha) s ks).0 k
        ≡ tightened (occurrences k ks == 1) s.0.is_cosine alpha (told s.0 k)
  unfolding occurrences
  visit_all-told alpha k [] s h = unfold tightened in refl
  visit_all-told alpha k (l ∷ ks) s h =
      let s' = tighten_one_region_locked F Vec project alpha l s in
      let ih = visit_all-told alpha k ks s' (ground arith) in
      ih
      ∙ rw (tighten_one-is_cosine alpha l s, tighten_one-told alpha l k s.0 s.1)
          (tightened_once (same_code k l) (occurrences k ks) s.0.is_cosine alpha (told s.0 k) h)

  -- A write at a vector, with a discount `alpha` strictly between 0 and 1, tightens exactly the regions
  -- within the write radius of the vector's own, once each: one that is learned, has a threshold with
  -- a value and a discount above `alpha` has each such threshold multiplied by `alpha` and its discount
  -- set to `alpha`; every other region keeps its thresholds and discount. The buckets fit a byte, and
  -- the radius an `int` with a byte added.
  pub tighten_theta_for_vector-told :
      (u : Pca) (vec : Vec) (alpha : Real) (k : List ℕ)
      → Fits u.buckets_per_dim u.write_l1_radius
      → F.le_real F.one_real alpha ≡ false
      → F.le_real alpha F.zero_real ≡ false
      → told (tighten_theta_for_vector F Vec project u (some vec) alpha).0 k
        ≡ tightened
            (near u.buckets_per_dim k (region F Vec project u vec) u.write_l1_radius)
            u.is_cosine
            alpha
            (told u k)
  unfolding tighten_theta_for_vector region
  tighten_theta_for_vector-told u vec alpha k fits below above =
      let key = region F Vec project u vec in
      let ks = ball u.buckets_per_dim key u.write_l1_radius in
      let one = tighten_one_region_locked F Vec project alpha in
      let m = near u.buckets_per_dim k key u.write_l1_radius in
      let count = occurrences-ball u.buckets_per_dim key u.write_l1_radius k fits in
      let walked =
        walk-runs u.buckets_per_dim one key 0 u.write_l1_radius (key, (u, 0))
          (code-bytes F u.pca_dim u.buckets_per_dim (project vec)) fits.1
        ∙ ap some (free_walk-ball u.buckets_per_dim one key u.write_l1_radius (u, 0)) in
      rw (below, above, walked)
        (visit_all-told alpha k ks (u, 0) (rw count (small m))
          ∙ ap (λ (b : Bool). tightened b u.is_cosine alpha (told u k)) (rw count (is_one m)))
    where
      small : (b : Bool) → (if b then 1 else 0) ≤ 1
      small b = ground arith

      is_one : (b : Bool) → ((if b then 1 else 0) == 1) ≡ b
      is_one true = refl
      is_one false = refl
