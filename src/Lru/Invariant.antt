-- ===== src/Lru/Invariant.antt =====
-- The order list and the tag map of include/qvcache/lru_cache.h agree, and every operation keeps
-- them so.
mod Nodes
pub use Nodes.{Distinct, tag_at-find, find-pop_back, length-pop_back_lem}
use qvcache.Common.{
  ℕ, zero, suc, ◌+◌, ◌≤◌, ◌<◌, ite, dec_le, List, [], ◌∷◌, Bool, true, false, Option, none, some,
  ◌>>=◌, find, put, erase, length, back, pop_back, ◌≡◌, refl, arith, find-put, find-erase, ◌∙◌,
  Option-cases, ◌⊎◌, inl, inr, if_pos, if_neg,
}
use qvcache.Lru.{
  Node, LruCache, init, tag_at, unlink, splice_front, clear, drop_lru, push_new, access, evict_loop,
  evict,
}
use Nodes.{
  find-unlink, unlink-Distinct, tag_at-unlink_self, Distinct-below, length-unlink, Distinct-suc,
  Distinct-fresh, pop_back-Distinct, length-pop_back,
}

pub record IsValid {A : Type 0} (dec : Discrete A) (c : LruCache A) : Type 0 where
  pub distinct : Distinct dec c.next_address c.order_list
  pub agree : (t : A) → find dec t c.tag_map ≡ find dec t c.order_list
  pub bounded : length c.order_list ≤ c.max_capacity

-- A node for `n` more tags.
abbrev pub HasRoom : {A : Type 0} → LruCache A → Type 0
HasRoom c = length c.order_list < c.max_capacity

module _ {A : Type 0} (dec : Discrete A) where
  pub init-IsValid : (capacity : ℕ) → IsValid dec (init capacity)
  unfolding init find
  init-IsValid capacity = record { distinct = tt; agree = λ t. refl; bounded = omega arith }

  pub clear-IsValid : (c : LruCache A) → IsValid dec c → IsValid dec (clear c)
  unfolding clear find
  clear-IsValid c v = record { distinct = tt; agree = λ t. refl; bounded = omega arith }

  pub push_new-IsValid :
      (c : LruCache A) (tag : A)
      → IsValid dec c
      → HasRoom c
      → find dec tag c.order_list ≡ none
      → IsValid dec (push_new dec c tag)
  unfolding push_new find
  push_new-IsValid c tag v room new = record {
    distinct = (
      new,
      Distinct-fresh dec c.next_address c.next_address c.order_list v.distinct (omega arith),
      omega arith,
      Distinct-suc dec c.next_address c.order_list v.distinct,
    );
    agree = λ t. ground (arith, find-put dec tag t c.next_address c.tag_map, v.agree t);
    bounded = omega arith;
  }

  pub drop_lru-IsValid :
      (c : LruCache A) (n : Node A)
      → IsValid dec c
      → back c.order_list ≡ some n
      → IsValid dec
          (record c { order_list = pop_back c.order_list; tag_map = erase dec n.0 c.tag_map })
  drop_lru-IsValid c n v e = record {
    distinct = pop_back-Distinct dec c.next_address c.order_list v.distinct;
    agree = λ t. ground (
      arith,
      find-erase dec n.0 t c.tag_map,
      v.agree t,
      find-pop_back dec n t c.next_address c.order_list v.distinct e,
    );
    bounded = omega (arith, length-pop_back c.order_list);
  }

  -- The node of a tag moves to the front.
  pub relinked-IsValid :
      (c : LruCache A) (t : A) (a : ℕ)
      → IsValid dec c
      → find dec t c.order_list ≡ some a
      → IsValid dec (record c { order_list = (t, a) ∷ unlink a c.order_list })
  unfolding find
  relinked-IsValid c t a v e =
      let at = tag_at-find dec t a c.next_address c.order_list v.distinct e in
      let gone = find-unlink dec t t a c.next_address c.order_list v.distinct e in
      record {
        distinct = (
          gone ∙ if_pos (dec t t) refl _ _,
          tag_at-unlink_self dec a c.next_address c.order_list v.distinct,
          Distinct-below dec a c.next_address t c.order_list v.distinct at,
          unlink-Distinct dec a c.next_address c.order_list v.distinct,
        );
        agree = λ q.
            ground
              (arith, v.agree q, find-unlink dec t q a c.next_address c.order_list v.distinct e);
        bounded = omega (arith, length-unlink dec a t c.order_list at);
      }
