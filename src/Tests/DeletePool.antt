-- ===== src/Tests/DeletePool.antt =====
-- A run of the pool of src/delete_consolidate_thread_pool.cpp with one thread and one task.
use qvcache.Common.{ℕ, [], ◌∷◌, true, total, ◌≡◌, refl}
use qvcache.DeletePool.{
  returned, Pool, submit, take_task, finish, worker_return, shut_down, init, Reach, start, later,
}
use qvcache.DeletePool.Accounted.{join-finished}

abbrev joined : Pool ℕ
joined = record {
  workers = returned ∷ [];
  tasks = [];
  stop = true;
  submitted = 7 ∷ [];
  finished = 7 ∷ [];
}

joined-Reach : Reach ℕ 1 joined
unfolding init
joined-Reach =
    later
      (later (later (later (later start (submit 7 refl)) (take_task 0 7 [] refl refl)) shut_down)
        (finish 0 7 refl))
      (worker_return 0 refl refl refl)

join-finished_example : total (λ t. t) joined.submitted ≡ total (λ t. t) joined.finished
join-finished_example = join-finished ℕ 0 joined joined-Reach refl (λ t. t)
