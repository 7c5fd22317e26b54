-- ===== src/Smp/Again.antt =====
-- Kernel/drivers/core/smp.c: `smp_push_task` with a finished thread that is used again.
use aos.Base.{ℕ, suc, ◌+◌, ◌≤◌, ◌≡◌, ◌≢◌, refl, ap, ◌∙◌, arith, true, false, ltb, ◌==◌}
use aos.Base.{done, fault, Ends}
use aos.Smp.{Core, set_thread, recycle, unlink_finished, set_task, enqueue, push_task}
use aos.Smp.Order.{if_false}
use aos.Smp.{create_thread, queued, or_create, dead}

-- A thread that goes into an empty list.
enqueue-first :
    (c : Core) (t arg : ℕ)
    → c.ready_list ≡ 0
    → c.ready_list_end ≡ 0
    → ((enqueue c t arg).ready_list ≡ t)
      × (((enqueue c t arg).threads t).entry ≡ (c.threads t).entry)
      × (((enqueue c t arg).threads t).next ≡ (c.threads t).next)
      × ((enqueue c t arg).finished_list ≡ c.finished_list)
      × (((enqueue c t arg).threads t).rsp ≡ (c.threads t).rsp)
unfolding enqueue set_thread
enqueue-first c t arg e f =
    let same : (t == t) ≡ true = ground arith in
    let l0 : (c.ready_list == 0) ≡ true = ground (arith, e) in
    let e0 : (c.ready_list_end == 0) ≡ true = ground (arith, f) in
    rw (e0, l0, same) (refl, refl, refl, refl, refl)

queued-there :
    (t entry arg : ℕ) (c : Core)
    → t ≢ 0
    → queued arg (or_create entry arg (t, c)) ≡ done (enqueue c t arg)
queued-there t entry arg c n =
    let t0 : (t == 0) ≡ false = ground (arith, n) in
    ap (queued arg) (if_false (t == 0) (create_thread c entry arg) (t, c) t0)
    ∙ if_false (t == 0) fault (done (enqueue c t arg)) t0

module _ (c : Core) (t rounds entry arg : ℕ) (nt : t ≢ 0) (first : c.finished_list ≡ t)
    (done_with : (c.threads t).status ≡ dead) (large : 1024 ≤ (c.threads t).stack_size)
    (more : (c.threads t).next ≢ 0) (apart : (c.threads t).next ≢ t) (no_list : c.ready_list ≡ 0)
    (no_end : c.ready_list_end ≡ 0) where
  abbrev used_again : Core
  used_again = set_thread (unlink_finished c 0 t) t (set_task entry arg)

  recycled : recycle (suc rounds) c entry arg 0 c.finished_list ≡ (t, used_again)
  unfolding recycle
  recycled =
      let t0 : (t == 0) ≡ false = ground (arith, nt) in
      let room : ltb (c.threads t).stack_size 1024 ≡ false = ground (arith, large) in
      ap (recycle (suc rounds) c entry arg 0) first ∙ rw (t0, done_with, room) refl

  pushed : push_task (suc rounds) c entry arg ≡ done (enqueue used_again t arg)
  unfolding push_task
  pushed =
      ap (λ (r : ℕ × Core). queued arg (or_create entry arg r)) recycled
      ∙ queued-there t entry arg used_again nt

  taken_out :
      (used_again.ready_list ≡ 0)
      × (used_again.ready_list_end ≡ 0)
      × ((used_again.threads t).entry ≡ entry)
      × ((used_again.threads t).next ≡ (c.threads t).next)
      × (used_again.finished_list ≡ (c.threads t).next)
      × ((used_again.threads t).rsp ≡ (c.threads t).stack_bottom + (c.threads t).stack_size)
  unfolding unlink_finished set_thread
  taken_out =
      let same : (t == t) ≡ true = ground arith in
      let n0 : ((c.threads t).next == 0) ≡ false = ground (arith, more) in
      let tn : (t == (c.threads t).next) ≡ false = ground (arith, apart) in
      let ft : (c.finished_list == t) ≡ true = ground (arith, first) in
      rw (n0, same, tn, ft) (no_list, no_end, refl, refl, refl, refl)

  -- A finished thread that is used again is queued with its task, but its `next` is not set: where
  -- another thread finished after it, that one is now in both lists, the ready list, which was empty,
  -- and the finished list, whose first it is. Its `rsp` is the top of its stack, above the words
  -- that are laid there for the switch.
  pub push_task-shares : Ends (push_task (suc rounds) c entry arg) (λ c'.
      (c'.ready_list ≡ t)
      × ((c'.threads t).entry ≡ entry)
      × ((c'.threads t).next ≡ (c.threads t).next)
      × (c'.finished_list ≡ (c.threads t).next)
      × ((c'.threads t).rsp ≡ (c.threads t).stack_bottom + (c.threads t).stack_size))
  push_task-shares =
      let (list, entered, next, finished, rsp) =
        enqueue-first used_again t arg taken_out.0 taken_out.1 in
      rw pushed
        (list, entered ∙ taken_out.2, next ∙ taken_out.3, finished ∙ taken_out.4, rsp ∙ taken_out.5)
