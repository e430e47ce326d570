-- ===== src/Scheduler/Life.antt =====
-- Handles, exit and fork of processes, in src/harlin/proc/scheduler.c. A process that exits closes
-- its pipes, queues and semaphores, which wakes the processes that wait for them, and gives its
-- pages back. The calls of `vmm_unmap` are returned as the list of the addresses.
pub mod OneCpu
pub mod Pages
pub mod Exit
pub mod Forked
use har_lin_kernel.Base.{
  ℕ, zero, suc, ◌+◌, ◌-◌, ◌*◌, ◌%◌, ◌^◌, Bool, true, false, not, ◌||◌, ◌&&◌, Option, none, some,
  List, [], ◌∷◌, ◌++◌, map, ltb, leb, ◌==◌, if◌then◌else◌, length, get_or, set, take, drop,
  replicate, min, ℤ, pos, negsuc, index,
}
use har_lin_kernel.Pmm
use har_lin_kernel.Pmm.{Pmm}
use har_lin_kernel.Pipe
use har_lin_kernel.Pipe.{Pipe}
use har_lin_kernel.Ipc.Msg
use har_lin_kernel.Ipc.Msg.{Queue}
use har_lin_kernel.Ipc.Sem
use har_lin_kernel.Ipc.Sem.{Semaphore}
use har_lin_kernel.Scheduler.{
  Process, ProcessState, absent, ready, no_process, Sched, Context, Loaded, process, change,
  set_current, process_current, is_absent, wake, schedule, max_processes, max_pages, max_handles,
  default_time_slice,
}

abbrev pub handle_kind_pipe : ℕ
handle_kind_pipe = 1

abbrev pub handle_kind_msgq : ℕ
handle_kind_msgq = 2

abbrev pub handle_kind_sem : ℕ
handle_kind_sem = 3

-- The tables that a process has a share in.
pub record Kernel : Type 0 where
  pub sched : Sched
  pub pipes : List Pipe
  pub queues : List Queue
  pub semaphores : List Semaphore
  pub pmm : Pmm

add_handle : ℕ → ℤ → Process → Process
add_handle kind id p = record p {
  handles = set p.handles p.handle_count id;
  handle_kinds = set p.handle_kinds p.handle_count kind;
  handle_count = p.handle_count + 1;
}

register_at : Option ℕ → ℕ → ℤ → Sched → Bool × Sched
register_at none kind id s = (false, s)
register_at (some i) kind id s =
    if leb max_handles (process s i).handle_count
    then (false, s)
    else (true, change i (add_handle kind id) s)

-- `process_register_handle`: whether it succeeds.
pub register_handle : ℕ → ℕ → ℤ → Sched → Bool × Sched
unfolding register_at add_handle
register_handle cpu kind id s = register_at (process_current cpu s) kind id s

-- `handles[i] == id`, of two numbers.
abbrev pub same_id : ℤ → ℤ → Bool
same_id (pos a) (pos b) = a == b
same_id (negsuc a) (negsuc b) = a == b
same_id (pos a) (negsuc b) = false
same_id (negsuc a) (pos b) = false

-- The outer loop of `process_unregister_handle`: the first handle `id`, with `rounds` left from
-- `i`.
pub find_handle : List ℤ → ℤ → ℕ → ℕ → Option ℕ
find_handle handles id zero i = none
find_handle handles id (suc rounds) i =
    let later = find_handle handles id rounds (i + 1) in
    if same_id (get_or handles i (pos 0)) id then some i else later

-- Its inner loop, on one of the arrays: what stands behind `j` moves one place down.
pub move_down {ℓ} : {A : Type ℓ} → A → ℕ → ℕ → List A → List A
move_down d zero j xs = xs
move_down d (suc rounds) j xs = move_down d rounds (j + 1) (set xs j (get_or xs (j + 1) d))

remove_handle : Option ℕ → Process → Process
remove_handle none p = p
remove_handle (some i) p = record p {
  handles = move_down (pos 0) (p.handle_count - 1 - i) i p.handles;
  handle_kinds = move_down 0 (p.handle_count - 1 - i) i p.handle_kinds;
  handle_count = p.handle_count - 1;
}

pub drop_handle : ℤ → Process → Process
unfolding remove_handle find_handle move_down
drop_handle id p = remove_handle (find_handle p.handles id p.handle_count 0) p

unregister_at : Option ℕ → ℤ → Sched → Sched
unregister_at none id s = s
unregister_at (some i) id s = change i (drop_handle id) s

-- `process_unregister_handle`
pub unregister_handle : ℕ → ℤ → Sched → Sched
unfolding unregister_at drop_handle
unregister_handle cpu id s = unregister_at (process_current cpu s) id s

-- `process_wake` of each of the processes.
pub wake_all : List ℕ → Sched → Sched
wake_all [] s = s
wake_all (pid ∷ pids) s = wake_all pids (wake (pos pid) s)

-- What `process_close_handles` does with one handle.
pub close_handle : ℕ → ℤ → Kernel → Kernel
unfolding wake_all
close_handle kind id k =
    if kind == handle_kind_pipe
    then (let (pipes, woken, freed) = Pipe.close id k.pipes in
        record k { pipes = pipes; sched = wake_all woken k.sched })
    else if kind == handle_kind_msgq
    then (let (r, woken, queues) = Msg.destroy id k.queues in
        record k { queues = queues; sched = wake_all woken k.sched })
    else if kind == handle_kind_sem
    then (let (r, woken, semaphores) = Sem.destroy id k.semaphores in
        record k { semaphores = semaphores; sched = wake_all woken k.sched })
    else k

-- Its loop, with `rounds` left from handle `i` on.
pub close_loop : ℕ → ℕ → ℕ → Kernel → Kernel
close_loop pid zero i k = k
close_loop pid (suc rounds) i k =
    let p = process k.sched pid in
    close_loop pid rounds (i + 1)
      (close_handle (get_or p.handle_kinds i 0) (get_or p.handles i (pos 0)) k)

-- An assignment to fields of process `pid`.
abbrev pub change_process : ℕ → (Process → Process) → Kernel → Kernel
change_process pid f k = record k { sched = change pid f k.sched }

abbrev pub no_handles : Process → Process
no_handles p = record p { handle_count = 0 }

-- `process_close_handles`
pub close_handles : ℕ → Kernel → Kernel
unfolding close_loop close_handle
close_handles pid k =
    change_process pid no_handles (close_loop pid (process k.sched pid).handle_count 0 k)

-- `pmm_free`, but not of address 0.
abbrev pub free_phys : ℕ → Pmm → Pmm
free_phys phys m = if phys == 0 then m else Pmm.free phys m

abbrev pub unmap_virt : ℕ → List ℕ
unmap_virt virt = if virt == 0 then [] else virt ∷ []

-- The loop of `process_free_pages`, with `rounds` left from page `i` on.
pub free_loop : Process → ℕ → ℕ → Pmm → List ℕ × Pmm
free_loop p zero i m = ([], m)
free_loop p (suc rounds) i m =
    let rest = free_loop p rounds (i + 1) (free_phys (get_or p.user_pages i 0) m) in
    (unmap_virt (get_or p.user_vaddrs i 0) ++ rest.0, rest.1)

abbrev pub no_pages : Process → Process
no_pages p = record p { page_count = 0 }

-- `process_free_pages`
pub free_pages : ℕ → Kernel → List ℕ × Kernel
unfolding free_loop
free_pages pid k =
    let p = process k.sched pid in
    let (unmapped, m) = free_loop p p.page_count 0 k.pmm in
    (unmapped, change_process pid no_pages (record k { pmm = m }))

-- The loop of `process_free_kernel_stack`.
pub free_stack_loop : Process → ℕ → ℕ → Pmm → List ℕ × Pmm
free_stack_loop p zero j m = ([], m)
free_stack_loop p (suc rounds) j m =
    let rest =
      free_stack_loop p rounds (j + 1) (free_phys (get_or p.kernel_stack_pages_phys j 0) m) in
    ((p.kernel_stack_base + j * 4096) % 2 ^ 64 ∷ rest.0, rest.1)

-- The first `n` numbers become 0.
abbrev pub clear_first : ℕ → List ℕ → List ℕ
clear_first zero xs = xs
clear_first (suc n) [] = []
clear_first (suc n) (x ∷ xs) = 0 ∷ clear_first n xs

abbrev pub no_kernel_stack : Process → Process
no_kernel_stack p = record p {
  kernel_stack_pages_phys = clear_first p.kernel_stack_pages_count p.kernel_stack_pages_phys;
  kernel_stack_base = 0;
  kernel_stack_top = 0;
  kernel_stack_pages_count = 0;
}

-- `process_free_kernel_stack`
pub free_kernel_stack : ℕ → Kernel → List ℕ × Kernel
unfolding free_stack_loop
free_kernel_stack pid k =
    let p = process k.sched pid in
    let (unmapped, m) = free_stack_loop p p.kernel_stack_pages_count 0 k.pmm in
    if p.kernel_stack_base == 0
    then ([], k)
    else (unmapped, change_process pid no_kernel_stack (record k { pmm = m }))

abbrev pub set_absent : Process → Process
set_absent p = record p { state = absent }

-- What `process_exit` does before it calls `schedule`.
pub end_process : ℕ → ℕ → Kernel → List ℕ × Kernel
unfolding close_handles free_pages free_kernel_stack
end_process cpu cp k =
    let (pages, k') = free_pages cp (close_handles cp k) in
    let (stack, k'') = free_kernel_stack cp k' in
    let s = set_current cpu none (change cp set_absent k''.sched) in
    (pages ++ stack, record k'' { sched = s })

exit_at : ℕ → Option ℕ → Kernel → List ℕ × Kernel
exit_at cpu none k = ([], k)
exit_at cpu (some cp) k = end_process cpu cp k

-- `process_exit`, up to the first halt: what is loaded, what is unmapped, and the kernel.
pub exit : ℕ → Context → Kernel → Option Loaded × List ℕ × Kernel
unfolding exit_at
exit cpu c k =
    let (unmapped, k') = exit_at cpu (process_current cpu k.sched) k in
    let (loaded, s) = schedule cpu c k'.sched in (loaded, unmapped, record k' { sched = s })

-- The first slot that is free, from slot `i` on.
pub find_absent : List Process → ℕ → Option ℕ
find_absent [] i = none
find_absent (p ∷ ps) i =
    let later = find_absent ps (i + 1) in if is_absent p.state then some i else later

-- The first `n` places of `src` over those of `dst`.
abbrev pub copy_first {ℓ} : {A : Type ℓ} → ℕ → List A → List A → List A
copy_first n src dst = take n src ++ drop n dst

-- What `Harlin_Fork` writes into the slot of the child.
pub fork_child : Process → Process → Process
fork_child parent child = record child {
  rip = parent.rip;
  rsp = parent.rsp;
  rflags = 0x202;
  state = ready;
  first_run = true;
  page_count = parent.page_count;
  user_vaddrs = copy_first (min parent.page_count 64) parent.user_vaddrs child.user_vaddrs;
  user_pages = copy_first (min parent.page_count 64) parent.user_pages child.user_pages;
  next_alloc_virt = parent.next_alloc_virt;
  cpu = none;
  priority = parent.priority;
  time_slice = default_time_slice;
  sleep_until = 0;
  nice = parent.nice;
  runtime_ns = 0;
  fair_key = 0;
  pml4_phys = (parent.pml4_phys + 0x1000) % 2 ^ 64;
  kernel_stack_top = (parent.kernel_stack_top + 0x1000) % 2 ^ 64;
  kernel_stack_base = (parent.kernel_stack_base + 0x1000) % 2 ^ 64;
  kernel_stack_pages_count = parent.kernel_stack_pages_count;
  kernel_stack_pages_phys = map (λ a. (a + 0x1000) % 2 ^ 64) parent.kernel_stack_pages_phys;
  handle_count = parent.handle_count;
  handles = copy_first (min parent.handle_count 16) parent.handles child.handles;
}

fork_into : ℕ → Option ℕ → Sched → Option ℕ × Sched
fork_into parent none s = (none, s)
fork_into parent (some child) s = (some child, change child (fork_child (process s parent)) s)

fork_at : Option ℕ → Sched → Option ℕ × Sched
fork_at none s = (none, s)
fork_at (some i) s =
    if is_absent (process s i).state then (none, s) else fork_into i (find_absent s.processes 0) s

-- `Harlin_Fork`: the child, or `none` for the result -1.
unfoldable pub fork : ℤ → Sched → Option ℕ × Sched
unfolding fork_at fork_into fork_child find_absent
fork parent_pid s = fork_at (index max_processes parent_pid) s
