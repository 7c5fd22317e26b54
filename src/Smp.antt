-- ===== src/Smp.antt =====
-- Kernel/drivers/core/smp.c: the tasks of a core. Threads stand in a store by their addresses; 0 is
-- NULL. A core has the list of the threads that are ready and that of those that are finished.
pub mod Order
pub mod Again
mod Tests
use aos.Base.{ℕ, zero, suc, ◌+◌, ◌-◌, Bool, true, false, not, ◌&&◌, ◌||◌, ltb, ◌==◌}
use aos.Base.{List, [], ◌∷◌, Option, none, some, if◌then◌else◌, Exec, done, fault, ◌>>=◌}
use aos.Avmf.{page_size}

-- `enum thread_status`.
pub data ThreadStatus : Type 0 where
  ready running blocked dead : ThreadStatus

-- `enum core_status`.
pub data CoreStatus : Type 0 where
  core_ready core_reserved core_running : CoreStatus

-- `struct thread_state`, less `context`; `entry` is the word at the top of its stack, where a task
-- starts.
pub record Thread : Type 0 where
  pub rsp : ℕ
  pub entry : ℕ
  pub arg : ℕ
  pub stack_bottom : ℕ
  pub stack_size : ℕ
  pub status : ThreadStatus
  pub next : ℕ
  pub prev : ℕ

-- The part of `struct core_state` that tasks use, the threads, and what `avmf_alloc` answers for
-- thread after thread: the addresses of the thread and of its stack.
pub record Core : Type 0 where
  pub status : CoreStatus
  pub idle_status : CoreStatus
  pub cur_thread : ℕ
  pub idle_thread : ℕ
  pub ready_list : ℕ
  pub ready_list_end : ℕ
  pub finished_list : ℕ
  pub finished_list_end : ℕ
  pub threads : ℕ → Thread
  pub answers : List (ℕ × ℕ)

abbrev pub is_dead : ThreadStatus → Bool
is_dead dead = true
is_dead ready = false
is_dead running = false
is_dead blocked = false

abbrev pub is_ready : ThreadStatus → Bool
is_ready ready = true
is_ready running = false
is_ready blocked = false
is_ready dead = false

unfoldable pub set_thread : Core → (t : ℕ) → (Thread → Thread) → Core
set_thread c t f = record c { threads = λ a. if a == t then f (c.threads a) else c.threads a }

-- A pointer that is followed where it is not NULL.
abbrev pub set_thread_if : Core → (t : ℕ) → (Thread → Thread) → Core
set_thread_if c t f = if t == 0 then c else set_thread c t f

-- Eight words for the registers are laid on the stack; `rsp` stays above them.
abbrev pub set_task : (entry arg : ℕ) → Thread → Thread
set_task entry arg x = record x { rsp = x.stack_bottom + x.stack_size; entry = entry }

-- The thread of `create_thread`, whose `rsp` is below the eight words.
abbrev pub new_thread : (stack entry arg : ℕ) → Thread
new_thread stack entry arg = record {
  rsp = stack + page_size - 64;
  entry = entry;
  arg = arg;
  stack_bottom = stack;
  stack_size = page_size;
  status = ready;
  next = 0;
  prev = 0;
}

abbrev pub create_from : Core → (entry arg : ℕ) → List (ℕ × ℕ) → ℕ × Core
create_from c entry arg [] = (0, c)
create_from c entry arg ((thread, stack) ∷ answers) =
    let c' = record c { answers = answers } in
    if thread == 0 || stack == 0
    then (0, c')
    else (thread, set_thread c' thread (λ x. new_thread stack entry arg))

abbrev pub create_thread : Core → (entry arg : ℕ) → ℕ × Core
create_thread c entry arg = create_from c entry arg c.answers

-- A thread is taken out of the finished list, behind `p`. Its own `next` and `prev` stay.
unfoldable pub unlink_finished : Core → (p t : ℕ) → Core
unfolding set_thread
unlink_finished c p t =
    let n = (c.threads t).next in
    let c1 = set_thread_if c p (λ x. record x { next = n }) in
    let c2 = set_thread_if c1 n (λ x. record x { prev = p }) in
    record c2 {
      finished_list = if c2.finished_list == t then (c2.threads t).next else c2.finished_list;
      finished_list_end =
          if c2.finished_list_end == t then (c2.threads t).prev else c2.finished_list_end;
    }

-- A thread whose stack is too small for a task is given up.
abbrev pub give_up : Core → (t : ℕ) → Core
give_up c t = set_thread c t (λ x. record x { stack_bottom = 0; stack_size = 0; rsp = 0 })

-- The loop over the finished threads, as far as `rounds`, for one that can be used again; 0 if there
-- is none.
unfoldable pub recycle : (rounds : ℕ) → Core → (entry arg p t : ℕ) → ℕ × Core
unfolding unlink_finished
recycle zero c entry arg p t = (0, c)
recycle (suc rounds) c entry arg p t =
    let x = c.threads t in
    let c' = unlink_finished c p t in
    let dropped = recycle rounds (give_up c' t) entry arg p (c'.threads t).next in
    let over = recycle rounds c entry arg t x.next in
    if t == 0
    then (0, c)
    else if not (is_dead x.status)
    then over
    else if ltb x.stack_size 1024
    then dropped
    else (t, set_thread c' t (set_task entry arg))

-- The thread goes to the end of the ready list. Its `next` is not set.
unfoldable pub enqueue : Core → (t arg : ℕ) → Core
unfolding set_thread
enqueue c t arg =
    let c1 = set_thread c t (λ x. record x { arg = arg; status = ready }) in
    let c2 = set_thread_if c1 c1.ready_list_end (λ x. record x { next = t }) in
    let c3 = set_thread c2 t (λ x. record x { prev = c2.ready_list_end }) in
    record c3 { ready_list_end = t; ready_list = if c3.ready_list == 0 then t else c3.ready_list }

abbrev pub or_create : (entry arg : ℕ) → ℕ × Core → ℕ × Core
or_create entry arg (t, c) = if t == 0 then create_thread c entry arg else (t, c)

-- The thread is there, or an access through NULL faults.
abbrev pub queued : (arg : ℕ) → ℕ × Core → Exec Core
queued arg (t, c) = if t == 0 then fault else done (enqueue c t arg)

-- `smp_push_task` on a core that is there and may be given tasks: the core after it. Whether it is
-- woken is left out.
unfoldable pub push_task : (rounds : ℕ) → Core → (entry arg : ℕ) → Exec Core
unfolding recycle enqueue
push_task rounds c entry arg =
    queued arg (or_create entry arg (recycle rounds c entry arg 0 c.finished_list))

-- The first thread of a list that is ready, as far as `rounds`; 0 if there is none.
unfoldable pub first_ready : (rounds : ℕ) → (ℕ → Thread) → (t : ℕ) → ℕ
first_ready zero threads t = 0
first_ready (suc rounds) threads t =
    let rest = first_ready rounds threads (threads t).next in
    if t == 0 then 0 else if is_ready (threads t).status then t else rest

-- No task is found: the core sleeps, until an interrupt wakes it up.
abbrev pub wait_for_task : Core → Core
wait_for_task c = record c { status = c.idle_status }

abbrev pub wake : Core → Core
wake c = record c { status = core_running }

abbrev pub run_thread : Core → (t : ℕ) → Core
run_thread c t =
    if t == 0
    then wait_for_task c
    else record (set_thread
        (record c {
          ready_list = (c.threads t).next;
          ready_list_end = if c.ready_list_end == t then (c.threads t).prev else c.ready_list_end;
        })
        t (λ x. record x { status = running })) { cur_thread = t }

-- One round of the loop of `ap_kernel_entry`, without a command: the core takes the next task.
unfoldable pub take_task : (rounds : ℕ) → Core → Core
unfolding first_ready set_thread
take_task rounds c =
    if c.ready_list == 0
    then wait_for_task c
    else run_thread c (first_ready rounds c.threads c.ready_list)

-- `smp_yield` on a core that is not the first: the task is done.
unfoldable pub yield_task : Core → Core
unfolding set_thread
yield_task c =
    let t = c.cur_thread in
    let c1 = set_thread c t (λ x. record x { status = dead; next = 0 }) in
    let c2 = set_thread_if c1 c1.finished_list_end (λ x. record x { next = t }) in
    let c3 = set_thread c2 t (λ x. record x { prev = c2.finished_list_end }) in
    if t == c.idle_thread then c else record c3 {
      finished_list_end = t;
      finished_list = if c3.finished_list == 0 then t else c3.finished_list;
      cur_thread = c.idle_thread;
    }
