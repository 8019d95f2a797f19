-- ===== src/Tests/InsertPool.antt =====
-- Runs of the pool of src/insert_thread_pool.cpp with one thread and one caller.
use qvcache.Common.{ℕ, [], ◌∷◌, true, false, ◌≡◌, refl, arith}
use qvcache.InsertPool.{
  waiting, running, returned, elsewhere, asleep, wake, Pool, is_idle, submit, take_task, finish,
  fetch_sub, notify_all, worker_return, shut_down, init, stay, later, Reach,
}
use qvcache.InsertPool.Sound.{Sound, Reach-Sound}
use qvcache.InsertPool.Finished.{AllFinished, wait_idle-AllFinished, join-AllFinished}
use qvcache.InsertPool.Drain.{Drains, Reach-Drains}
use qvcache.InsertPool.Lost.{Stuck, lost_wakeup}

-- Tasks 7 and 8 are submitted, and the thread is in task 7.
abbrev in_task : Pool ℕ
in_task = record {
  tasks = 8 ∷ [];
  stop = false;
  inflight = 1;
  workers = running 7 ∷ [];
  callers = elsewhere ∷ [];
  locked = false;
  submitted = 7 ∷ 8 ∷ [];
  started = 7 ∷ [];
  finished = [];
}

in_task-Reach : Reach ℕ 1 1 in_task
unfolding init
in_task-Reach =
    later (later (later stay (submit 7 refl refl)) (submit 8 refl refl))
      (take_task 0 7 (8 ∷ []) refl refl refl)

-- One task, done.
abbrev done : Pool ℕ
done = record {
  tasks = [];
  stop = false;
  inflight = 0;
  workers = waiting ∷ [];
  callers = elsewhere ∷ [];
  locked = false;
  submitted = 7 ∷ [];
  started = 7 ∷ [];
  finished = 7 ∷ [];
}

done-Reach : Reach ℕ 1 1 done
unfolding init wake
done-Reach =
    later
      (later
        (later (later (later stay (submit 7 refl refl)) (take_task 0 7 [] refl refl refl))
          (finish 0 7 refl))
        (fetch_sub 0 refl))
      (notify_all 0 refl)

abbrev joined : Pool ℕ
joined = record done { stop = true; workers = returned ∷ [] }

joined-Reach : Reach ℕ 1 1 joined
joined-Reach = later (later done-Reach (shut_down refl)) (worker_return 0 refl refl refl refl)

Reach-Sound_example : Sound ℕ in_task
Reach-Sound_example = Reach-Sound ℕ 1 1 in_task in_task-Reach

Reach-Drains_example : Drains ℕ in_task
Reach-Drains_example = Reach-Drains ℕ 1 1 in_task in_task-Reach (omega arith)

wait_idle-AllFinished_example : AllFinished ℕ done
unfolding is_idle
wait_idle-AllFinished_example = wait_idle-AllFinished ℕ 1 1 done done-Reach refl

join-AllFinished_example : (joined.tasks ≡ []) × AllFinished ℕ joined
join-AllFinished_example = join-AllFinished ℕ 0 1 joined joined-Reach refl

lost_wakeup_example :
    (s : Pool ℕ) × Reach ℕ 3 1 s
    × (s.callers ≡ asleep ∷ [])
    × (is_idle ℕ s ≡ true)
    × AllFinished ℕ s
    × Stuck ℕ s
lost_wakeup_example = lost_wakeup ℕ 2 7
