-- ===== src/Smp/Tests.antt =====
-- Kernel/drivers/core/smp.c: tasks on a core.
use aos.Base.{ℕ, ◌+◌, ◌≡◌, refl, arith, [], ◌∷◌, ◌>>=◌, Ends}
use aos.Smp.{Thread, Core, core_ready, dead, push_task, take_task, yield_task}
use aos.Smp.Order.{fresh, Runs, push-take_order}
use aos.Smp.Again.{push_task-shares}

-- Threads that are done, each before the one 0x1000 behind it.
abbrev finished : ℕ → Thread
finished a = record {
  rsp = 0;
  entry = 0;
  arg = 0;
  stack_bottom = 0x9000;
  stack_size = 4096;
  status = dead;
  next = a + 0x1000;
  prev = 0;
}

abbrev busy : Core
busy = record (fresh core_ready 0x500 finished []) {
  finished_list = 0x1000;
  finished_list_end = 0x2000;
}

push-take_order_example :
    Ends
      (push_task 4 (fresh core_ready 0x500 finished ((0x3000, 0x4000) ∷ (0x5000, 0x6000) ∷ [])) 7 1
        >>= λ c. push_task 4 c 8 2)
      (λ c.
        let c1 = take_task 5 c in
        let c2 = take_task 5 (yield_task c1) in
        Runs c1 0x3000 7 1
        × Runs c2 0x5000 8 2
        × ((yield_task c2).cur_thread ≡ 0x500)
        × (c2.ready_list ≡ 0)
        × (c2.finished_list ≡ 0x3000)
        × (c2.ready_list_end ≡ 0x3000))
push-take_order_example =
    push-take_order core_ready 0x500 finished 0x3000 0x5000 0x4000 0x6000 [] (λ e. omega (arith, e))
      (λ e. omega (arith, e)) (λ e. omega (arith, e)) (λ e. omega (arith, e))
      (λ e. omega (arith, e)) 4 7 1 8 2 (λ e. omega (arith, e)) (λ e. omega (arith, e))

push_task-shares_example : Ends (push_task 4 busy 7 1) (λ c'.
    (c'.ready_list ≡ 0x1000)
    × ((c'.threads 0x1000).entry ≡ 7)
    × ((c'.threads 0x1000).next ≡ 0x2000)
    × (c'.finished_list ≡ 0x2000)
    × ((c'.threads 0x1000).rsp ≡ 0xA000))
push_task-shares_example =
    push_task-shares busy 0x1000 3 7 1 (λ e. omega (arith, e)) refl refl (omega arith)
      (λ e. omega (arith, e)) (λ e. omega (arith, e)) refl refl
