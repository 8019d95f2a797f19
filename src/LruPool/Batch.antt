-- ===== src/LruPool/Batch.antt =====
-- A batch of include/qvcache/lru_thread_pool.h against the history of the tags.
use qvcache.Common.{
  suc, ◌<◌, List, [], ◌∷◌, Bool, not, some, foldl, take, length, ◌≡◌, refl, ap, ◌∙◌,
}
use qvcache.Lru.{LruCache, order, contains}
use qvcache.Lru.Invariant.{IsValid}
use qvcache.Lru.Order.{remove, access-Accessed, take-touch-take}
use qvcache.LruPool.{access_batch}

module _ {A : Type 0} (dec : Discrete A) where
  -- Every tag that was used so far, the latest use first: nothing is forgotten.
  abbrev pub uses : List A → List A → List A
  uses = foldl (λ seen t. t ∷ remove dec t seen)

  -- A batch never faults. Afterwards the cache holds the `max_capacity` tags whose last use is the
  -- latest, in the order of that use, and there is one result for each tag of the batch.
  pub access_batch-uses :
      (ts : List A) (c : LruCache A) (seen : List A)
      → IsValid dec c
      → 0 < c.max_capacity
      → order c ≡ take c.max_capacity seen
      → (c' : LruCache A) × (results : List Bool) × (access_batch dec c ts ≡ some (c', results))
        × IsValid dec c'
        × (order c' ≡ take c.max_capacity (uses seen ts))
        × (length results ≡ length ts)
  unfolding access_batch
  access_batch-uses [] c seen v pos e = (c, [], refl, v, e, refl)
  access_batch-uses (t ∷ ts) c seen v pos e =
      let (c', ran, done) = access-Accessed dec c t v pos in
      let window : order c' ≡ take c.max_capacity (t ∷ remove dec t seen) =
        done.ordered
        ∙ ap (λ l. take c.max_capacity (t ∷ remove dec t l)) e
        ∙ take-touch-take dec c.max_capacity t seen in
      let (c'', results, ran', v', e', len) =
        access_batch-uses ts c' (t ∷ remove dec t seen) done.valid (rw done.capacity pos)
          (rw done.capacity window) in
      (
        c'',
        not (contains dec c t) ∷ results,
        rw (ran, ran'),
        v',
        rw (← done.capacity) e',
        ap suc len,
      )
