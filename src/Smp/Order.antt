-- ===== src/Smp/Order.antt =====
-- Kernel/drivers/core/smp.c: the order in which tasks run, and what the lists are then.
use aos.Base.{ℕ, zero, suc, ◌≡◌, ◌≢◌, refl, sym, ap, ◌∙◌, arith, Bool, true, false, ◌==◌, List, ◌∷◌}
use aos.Base.{if◌then◌else◌, Exec, done, ◌>>=◌, Ends}
use aos.Smp.{
  Thread, Core, CoreStatus, set_thread, recycle, enqueue, push_task, take_task, yield_task,
  new_thread, queued, or_create, create_from, run_thread,
}
use aos.Smp.{first_ready, ready, running}

-- A core that runs its idle thread, and has no tasks yet.
abbrev pub fresh : (status : CoreStatus) (idle : ℕ) (threads : ℕ → Thread) → List (ℕ × ℕ) → Core
fresh status idle threads answers = record {
  status = status;
  idle_status = status;
  cur_thread = idle;
  idle_thread = idle;
  ready_list = 0;
  ready_list_end = 0;
  finished_list = 0;
  finished_list_end = 0;
  threads = threads;
  answers = answers;
}

-- Does the core run the task?
abbrev pub Runs : Core → (t entry arg : ℕ) → Type 0
Runs c t entry arg = (c.cur_thread ≡ t) × ((c.threads t).entry ≡ entry) × ((c.threads t).arg ≡ arg)

recycle-nothing : (rounds : ℕ) (c : Core) (entry arg : ℕ) → recycle rounds c entry arg 0 0 ≡ (0, c)
unfolding recycle
recycle-nothing zero c entry arg = refl
recycle-nothing (suc rounds) c entry arg = refl

-- A thread behind the end of the ready list, and into a list that is empty.
enqueue-behind :
    (c : Core) (t arg e : ℕ)
    → c.ready_list_end ≡ e
    → e ≢ 0
    → e ≢ t
    → ((enqueue c t arg).threads t ≡ record (c.threads t) { arg = arg; status = ready; prev = e })
      × ((enqueue c t arg).threads e ≡ record (c.threads e) { next = t })
      × ((enqueue c t arg).ready_list ≡ (if c.ready_list == 0 then t else c.ready_list))
      × ((enqueue c t arg).ready_list_end ≡ t)
      × ((enqueue c t arg).idle_thread ≡ c.idle_thread)
      × ((enqueue c t arg).finished_list ≡ c.finished_list)
      × ((enqueue c t arg).finished_list_end ≡ c.finished_list_end)
unfolding enqueue set_thread
enqueue-behind c t arg e same ne apart =
    let e0 : (c.ready_list_end == 0) ≡ false = ground (arith, same, ne) in
    let tt' : (t == t) ≡ true = ground arith in
    let te : (t == e) ≡ false = ground (arith, apart) in
    let et : (e == t) ≡ false = ground (arith, apart) in
    let tc : (t == c.ready_list_end) ≡ false = ground (arith, apart, same) in
    let ec : (e == c.ready_list_end) ≡ true = ground (arith, same) in
    rw (e0, tt', tc, et, ec)
      (
        ap (λ (p : ℕ). record (c.threads t) { arg = arg; status = ready; prev = p }) same,
        refl,
        refl,
        refl,
        refl,
        refl,
        refl,
      )

pub if_false : {A : Type 0} (t : Bool) (x y : A) → t ≡ false → (if t then x else y) ≡ y
if_false true x y e = absurd cc
if_false false x y e = refl

-- The first thread of the ready list is ready, and so it runs.
take_task-first :
    (rounds : ℕ) (c : Core) (t : ℕ)
    → c.ready_list ≡ t
    → t ≢ 0
    → (c.threads t).status ≡ ready
    → ((take_task (suc rounds) c).cur_thread ≡ t)
      × ((take_task (suc rounds) c).threads t ≡ record (c.threads t) { status = running })
      × ((u : ℕ) → u ≢ t → (take_task (suc rounds) c).threads u ≡ c.threads u)
      × ((take_task (suc rounds) c).ready_list ≡ (c.threads t).next)
      × ((take_task (suc rounds) c).ready_list_end
          ≡ (if c.ready_list_end == t then (c.threads t).prev else c.ready_list_end))
      × ((take_task (suc rounds) c).idle_thread ≡ c.idle_thread)
      × ((take_task (suc rounds) c).finished_list ≡ c.finished_list)
      × ((take_task (suc rounds) c).finished_list_end ≡ c.finished_list_end)
unfolding take_task first_ready set_thread
take_task-first rounds c t e n r =
    let t0 : (t == 0) ≡ false = ground (arith, n) in
    let l0 : (c.ready_list == 0) ≡ false = ground (arith, e, n) in
    let same : (t == t) ≡ true = ground arith in
    let found : first_ready (suc rounds) c.threads c.ready_list ≡ t =
      ap (first_ready (suc rounds) c.threads) e ∙ rw (t0, r) refl in
    let taken : take_task (suc rounds) c ≡ run_thread c t =
      if_false (c.ready_list == 0) _ _ l0 ∙ ap (run_thread c) found in
    rw (taken, t0, same)
      (
        refl,
        refl,
        (λ u d. let other : (u == t) ≡ false = ground (arith, d) in rw other refl),
        refl,
        refl,
        refl,
        refl,
        refl,
      )

-- The first task that is done: its thread begins the finished list, and the ready list stays.
yield_task-first :
    (c : Core) (t : ℕ)
    → c.cur_thread ≡ t
    → t ≢ c.idle_thread
    → c.finished_list ≡ 0
    → c.finished_list_end ≡ 0
    → ((u : ℕ) → u ≢ t → (yield_task c).threads u ≡ c.threads u)
      × ((yield_task c).ready_list ≡ c.ready_list)
      × ((yield_task c).ready_list_end ≡ c.ready_list_end)
      × ((yield_task c).finished_list ≡ t)
      × ((yield_task c).idle_thread ≡ c.idle_thread)
unfolding yield_task set_thread
yield_task-first c t e n f g =
    let busy : (t == c.idle_thread) ≡ false = ground (arith, n) in
    let none : (c.finished_list == 0) ≡ true = ground (arith, f) in
    let last : (c.finished_list_end == 0) ≡ true = ground (arith, g) in
    rw (e, busy, last, none)
      (
        (λ u d. let other : (u == t) ≡ false = ground (arith, d) in rw other refl),
        refl,
        refl,
        refl,
        refl,
      )

-- A thread that has been made for a task, wherever it is linked, runs it.
take_task-Runs :
    (c : Core) (t next prev stack entry arg : ℕ)
    → c.cur_thread ≡ t
    → c.threads t
      ≡ record (new_thread stack entry arg) { status = running; next = next; prev = prev }
    → Runs c t entry arg
take_task-Runs c t next prev stack entry arg e made =
    (e, ap (λ (x : Thread). x.entry) made, ap (λ (x : Thread). x.arg) made)

yield_task-rests :
    (c : Core) → c.cur_thread ≢ c.idle_thread → (yield_task c).cur_thread ≡ c.idle_thread
unfolding yield_task set_thread
yield_task-rests c n =
    let busy : (c.cur_thread == c.idle_thread) ≡ false = ground (arith, n) in rw busy refl

-- Where no thread is finished, a task gets a new one.
push-new :
    (rounds : ℕ) (c : Core) (t stack entry arg : ℕ) (answers : List (ℕ × ℕ))
    → c.finished_list ≡ 0
    → c.answers ≡ (t, stack) ∷ answers
    → t ≢ 0
    → stack ≢ 0
    → push_task rounds c entry arg
      ≡ done (
          enqueue
            (set_thread (record c { answers = answers }) t (λ x. new_thread stack entry arg))
            t
            arg)
unfolding push_task
push-new rounds c t stack entry arg answers e f nt ns =
    let t0 : (t == 0) ≡ false = ground (arith, nt) in
    let s0 : (stack == 0) ≡ false = ground (arith, ns) in
    let made : ℕ × Core =
      (t, set_thread (record c { answers = answers }) t (λ x. new_thread stack entry arg)) in
    let created : create_from c entry arg ((t, stack) ∷ answers) ≡ made = rw (t0, s0) refl in
    ap (λ (l : ℕ). queued arg (or_create entry arg (recycle rounds c entry arg 0 l))) e
    ∙ ap (λ (r : ℕ × Core). queued arg (or_create entry arg r)) (recycle-nothing rounds c entry arg)
    ∙ ap (λ (l : List (ℕ × ℕ)). queued arg (create_from c entry arg l)) f
    ∙ ap (λ (r : ℕ × Core). queued arg r) created
    ∙ rw t0 refl

module _ (status : CoreStatus) (idle : ℕ) (threads : ℕ → Thread) (a b sa sb : ℕ)
    (answers : List (ℕ × ℕ)) (na : a ≢ 0) (nb : b ≢ 0) (nsa : sa ≢ 0) (nsb : sb ≢ 0) (apart : a ≢ b)
    (rounds entry arg entry' arg' : ℕ) where
  abbrev start : Core
  start = fresh status idle threads ((a, sa) ∷ (b, sb) ∷ answers)

  abbrev one_pushed : Core
  one_pushed =
      enqueue
        (set_thread (record start { answers = (b, sb) ∷ answers }) a (λ x. new_thread sa entry arg))
        a arg

  abbrev two_pushed : Core
  two_pushed =
      enqueue
        (set_thread (record one_pushed { answers = answers }) b (λ x. new_thread sb entry' arg')) b
        arg'

  pushed :
      (push_task rounds start entry arg >>= λ c. push_task rounds c entry' arg') ≡ done two_pushed
  unfolding enqueue set_thread
  pushed =
      ap (λ (m : Exec Core). m >>= λ c. push_task rounds c entry' arg')
        (push-new rounds start a sa entry arg ((b, sb) ∷ answers) refl refl na nsa)
      ∙ push-new rounds one_pushed b sb entry' arg' answers refl refl nb nsb

  -- What the two threads and the list are then.
  threads_pushed :
      (two_pushed.threads a ≡ record (new_thread sa entry arg) { next = b })
      × (two_pushed.threads b ≡ record (new_thread sb entry' arg') { prev = a })
      × (two_pushed.ready_list ≡ a)
      × (two_pushed.ready_list_end ≡ b)
      × (two_pushed.idle_thread ≡ idle)
      × (two_pushed.finished_list ≡ 0)
      × (two_pushed.finished_list_end ≡ 0)
  unfolding enqueue set_thread
  threads_pushed =
      let a0 : (a == 0) ≡ false = ground (arith, na) in
      let aa : (a == a) ≡ true = ground arith in
      let bb : (b == b) ≡ true = ground arith in
      let ab : (a == b) ≡ false = ground (arith, apart) in
      let behind =
        enqueue-behind
          (set_thread (record one_pushed { answers = answers }) b (λ x. new_thread sb entry' arg'))
          b arg' a refl na apart in
      (
        behind.1 ∙ rw (ab, aa) refl,
        behind.0 ∙ rw bb refl,
        behind.2 ∙ rw a0 refl,
        behind.3,
        behind.4,
        behind.5,
        behind.6,
      )

  -- Two tasks that are pushed to a core that has none, where memory is to be had for two threads other
  -- than the idle one, run in the order in which they were pushed: the core takes the first, and takes
  -- the second when the first has yielded, and is at rest when the second has. Then the ready list is
  -- empty and the finished list begins with the first, but the end of the ready list is still the
  -- thread of the first.
  pub push-take_order :
      a ≢ idle
      → b ≢ idle
      → Ends
          (push_task rounds (fresh status idle threads ((a, sa) ∷ (b, sb) ∷ answers)) entry arg
            >>= λ c. push_task rounds c entry' arg')
          (λ c.
            let c1 = take_task (suc rounds) c in
            let c2 = take_task (suc rounds) (yield_task c1) in
            Runs c1 a entry arg
            × Runs c2 b entry' arg'
            × ((yield_task c2).cur_thread ≡ idle)
            × (c2.ready_list ≡ 0)
            × (c2.finished_list ≡ a)
            × (c2.ready_list_end ≡ a))
  push-take_order da db =
      let (ta, tb, l, e, i, f, g) = threads_pushed in
      let first = take_task-first rounds two_pushed a l na (ap (λ (x : Thread). x.status) ta) in
      let c1 = take_task (suc rounds) two_pushed in
      let ba : b ≢ a = λ e. apart (sym e) in
      let kept : (two_pushed.ready_list_end == a) ≡ false = ground (arith, e, apart) in
      let idle1 : c1.idle_thread ≡ idle = first.5 ∙ i in
      let busy1 : a ≢ c1.idle_thread = λ same. da (same ∙ idle1) in
      let done1 = yield_task-first c1 a first.0 busy1 (first.6 ∙ f) (first.7 ∙ g) in
      let b1 : (yield_task c1).threads b ≡ record (new_thread sb entry' arg') { prev = a } =
        done1.0 b ba ∙ first.2 b ba ∙ tb in
      let list1 : (yield_task c1).ready_list ≡ b =
        done1.1 ∙ first.3 ∙ ap (λ (x : Thread). x.next) ta in
      let second =
        take_task-first rounds (yield_task c1) b list1 nb (ap (λ (x : Thread). x.status) b1) in
      let end1 : (yield_task c1).ready_list_end ≡ b = done1.2 ∙ first.4 ∙ rw kept e in
      let last : ((yield_task c1).ready_list_end == b) ≡ true = ground (arith, end1) in
      let c2 = take_task (suc rounds) (yield_task c1) in
      let idle2 : c2.idle_thread ≡ idle = second.5 ∙ done1.4 ∙ idle1 in
      let busy2 : c2.cur_thread ≢ c2.idle_thread = λ same. db (sym second.0 ∙ same ∙ idle2) in
      let run = λ (x : Thread). record x { status = running } in
      rw pushed (
        take_task-Runs c1 a b 0 sa entry arg first.0 (first.1 ∙ ap run ta),
        take_task-Runs c2 b 0 a sb entry' arg' second.0 (second.1 ∙ ap run b1),
        yield_task-rests c2 busy2 ∙ idle2,
        second.3 ∙ ap (λ (x : Thread). x.next) b1,
        second.6 ∙ done1.3,
        second.4 ∙ rw last (ap (λ (x : Thread). x.prev) b1),
      )
