-- ===== src/Lru/Order.antt =====
-- include/qvcache/lru_cache.h against the list of tags, most recently used first.
mod Recency
pub use Recency.{
  remove, All-remove, back-some, back-tags, tags-pop_back, pop_back-append-back, length-tags,
  remove_absent, take-touch-take,
}
use Recency.{tags-unlink}
use qvcache.Common.{
  ℕ, zero, suc, ◌+◌, ◌-◌, ◌≤◌, ◌<◌, min, ite, dec_le, List, [], ◌∷◌, ◌++◌, reverse, Bool, true,
  false, not, Option, none, some, ◌>>=◌, find, put, erase, length, back, pop_back, take, ◌≡◌, refl,
  sym, ap, ◌∙◌, arith, Option-cases, ◌⊎◌, inl, inr, if_pos, if_neg, take_of_length-le, dec_lt,
  pop_back-take, foldl,
}
use qvcache.Lru.{
  Node, LruCache, init, tag_at, unlink, splice_front, order, contains, tags, drop_lru, push_new,
  access, evict_loop, evict, get_lru_tags, get_mru_tags,
}
use qvcache.Lru.Invariant.{
  Distinct, IsValid, HasRoom, tag_at-find, push_new-IsValid, drop_lru-IsValid, length-pop_back_lem,
  find-pop_back, relinked-IsValid,
}

-- What a call of `access` gives: a valid cache whose order is the abstract one, cut to capacity.
pub record Accessed {A : Type 0} (dec : Discrete A) (c c' : LruCache A) (t : A) : Type 0 where
  pub valid : IsValid dec c'
  pub capacity : c'.max_capacity ≡ c.max_capacity
  pub ordered : order c' ≡ take c.max_capacity (t ∷ remove dec t (order c))

module _ {A : Type 0} (dec : Discrete A) where
  access_old :
      (c : LruCache A) (t : A) (a : ℕ)
      → IsValid dec c
      → find dec t c.tag_map ≡ some a
      → (c' : LruCache A) × (access dec c t ≡ some (c', false)) × Accessed dec c c' t
  unfolding access splice_front
  access_old c t a v e =
      let here = sym (v.agree t) ∙ e in
      let at = tag_at-find dec t a c.next_address c.order_list v.distinct here in
      let moved : LruCache A = record c { order_list = (t, a) ∷ unlink a c.order_list } in
      let valid = relinked-IsValid dec c t a v here in
      (
        moved,
        ground arith,
        record {
          valid = valid;
          capacity = refl;
          ordered = rw (← tags-unlink dec t a c.next_address c.order_list v.distinct here) (
              sym (
                take_of_length-le c.max_capacity (order moved)
                  (omega (arith, valid.bounded, length-tags (unlink a c.order_list)))));
        },
      )

  access_new :
      (c : LruCache A) (t : A)
      → IsValid dec c
      → HasRoom c
      → find dec t c.tag_map ≡ none
      → Accessed dec c (push_new dec c t) t
  unfolding push_new
  access_new c t v room e =
      let absent = sym (v.agree t) ∙ e in
      record {
        valid = push_new-IsValid dec c t v room absent;
        capacity = refl;
        ordered = rw (remove_absent dec t c.order_list absent) (
            sym (
              take_of_length-le c.max_capacity (t ∷ order c)
                (omega (arith, length-tags c.order_list))));
      }

  access_full :
      (c : LruCache A) (t : A) (k : ℕ) (n : Node A)
      → IsValid dec c
      → c.max_capacity ≡ suc k
      → length c.order_list ≡ suc k
      → back c.order_list ≡ some n
      → find dec t c.tag_map ≡ none
      → Accessed dec c
          (push_new dec
            (record c { order_list = pop_back c.order_list; tag_map = erase dec n.0 c.tag_map })
            t)
          t
  unfolding push_new
  access_full c t k n v cap len last e =
      let absent = sym (v.agree t) ∙ e in
      let dropped : LruCache A = record c {
        order_list = pop_back c.order_list;
        tag_map = erase dec n.0 c.tag_map;
      } in
      let shorter = length-pop_back_lem c.order_list (omega arith) in
      record {
        valid = push_new-IsValid dec dropped t (drop_lru-IsValid dec c n v last) (omega arith) (
            ground
              (arith, find-pop_back dec n t c.next_address c.order_list v.distinct last, absent));
        capacity = refl;
        ordered =
            rw (cap, remove_absent dec t c.order_list absent, tags-pop_back c.order_list)
              (ap (◌∷◌ t) (pop_back-take k (order c) (omega (arith, length-tags c.order_list))));
      }

  -- An access never faults while the capacity is positive: it keeps the invariant, moves the tag to
  -- the front and keeps as many tags as fit. It reports a new tag exactly when the map had none.
  pub access-Accessed :
      (c : LruCache A) (t : A)
      → IsValid dec c
      → 0 < c.max_capacity
      → (c' : LruCache A) × (access dec c t ≡ some (c', not (contains dec c t)))
        × Accessed dec c c' t
  unfolding access drop_lru contains
  access-Accessed c t v pos = elim (Option-cases (find dec t c.tag_map)) [
    | inr (a, e) ↦ let (c', ran, done) = access_old c t a v e in (c', ground arith, done)
    | inl e ↦ elim (dec_lt (length c.order_list) c.max_capacity) [
      | yes room ↦ (push_new dec c t, ground arith, access_new c t v room e)
      | no full ↦
          let (n, last) = back-some c.order_list (omega (arith, v.bounded)) in
          (
            push_new dec
                (record c { order_list = pop_back c.order_list; tag_map = erase dec n.0 c.tag_map })
                t,
            ground arith,
            access_full c t (c.max_capacity - 1) n v (omega arith) (omega (arith, v.bounded)) last
                e,
          )
    ]
  ]

  -- With no capacity the first access reads the back of an empty list.
  pub access_no_capacity : (t : A) → access dec (init 0) t ≡ none
  unfolding access drop_lru init find dec_le
  access_no_capacity t = refl
