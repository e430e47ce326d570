-- ===== src/Scheduler/Affinity.antt =====
-- Which process runs on which CPU, in src/harlin/proc/scheduler.c: a process that a CPU runs bears
-- the number of this CPU, and so no other CPU runs it.
use har_lin_kernel.Base.{
  ℕ, zero, suc, ◌≤◌, ◌<◌, ◌≡◌, ◌≢◌, refl, ap, sym, ◌∙◌, true, false, Option, none, some, List, [],
  ◌∷◌, map, arith, length, get_or, set, get_or-set_self, get_or-set_ne, length-set,
}
use mathlib.Core.Path.{subst}
use native.Mathlib.Decide.{ℕ_discrete, dec_lt}
use har_lin_kernel.Scheduler.{
  Process, no_process, Sched, process, change, set_current, runnable, may_run_on, is_absent, run_on,
  start_on, max_processes, max_cpus,
}

-- Process `i` is at home on CPU `c`.
pub record Home (s : Sched) (c i : ℕ) : Type 0 where
  pub in_table : i < max_processes
  pub on : (process s i).cpu ≡ some c
  pub alive : is_absent (process s i).state ≡ false

pub record IsValid (s : Sched) : Type 0 where
  pub size : length s.processes ≡ max_processes
  pub cpus : length s.current ≡ max_cpus
  pub home : (c i : ℕ) → get_or s.current c none ≡ some i → Home s c i

-- A change that keeps this: no CPU starts another process, no process moves, and none goes away.
pub record Keeps (s s' : Sched) : Type 0 where
  pub same_size : length s'.processes ≡ length s.processes
  pub same_cpus : length s'.current ≡ length s.current
  pub no_start : (c i : ℕ) → get_or s'.current c none ≡ some i → get_or s.current c none ≡ some i
  pub no_move : (i : ℕ) → (process s' i).cpu ≡ (process s i).cpu
  pub no_end :
      (i : ℕ) → is_absent (process s i).state ≡ false → is_absent (process s' i).state ≡ false

pub Keeps-IsValid : {s s' : Sched} → Keeps s s' → IsValid s → IsValid s'
Keeps-IsValid k v = record {
  size = k.same_size ∙ v.size;
  cpus = k.same_cpus ∙ v.cpus;
  home = λ c i e.
      let h = v.home c i (k.no_start c i e) in
      record { in_table = h.in_table; on = k.no_move i ∙ h.on; alive = k.no_end i h.alive };
}

pub Keeps-refl : (s : Sched) → Keeps s s
Keeps-refl s = record {
  same_size = refl;
  same_cpus = refl;
  no_start = λ c i e. e;
  no_move = λ i. refl;
  no_end = λ i e. e;
}

pub Keeps-trans : {s t u : Sched} → Keeps s t → Keeps t u → Keeps s u
Keeps-trans k l = record {
  same_size = l.same_size ∙ k.same_size;
  same_cpus = l.same_cpus ∙ k.same_cpus;
  no_start = λ c i e. k.no_start c i (l.no_start c i e);
  no_move = λ i. l.no_move i ∙ k.no_move i;
  no_end = λ i e. l.no_end i (k.no_end i e);
}

set-past {ℓ} : {A : Type ℓ} (xs : List A) (i : ℕ) (v : A) → length xs ≤ i → set xs i v ≡ xs
set-past [] i v h = refl
set-past (x ∷ xs) zero v h = absurd (omega arith)
set-past (x ∷ xs) (suc i) v h = ap (λ t. x ∷ t) (set-past xs i v (omega arith))

-- Every process is its old self, or, at `i`, what `f` makes of it.
pub process-change {ℓ} :
    (P : Process → Type ℓ) (i : ℕ) (f : Process → Process) (s : Sched) (j : ℕ)
    → P (process s j)
    → P (f (process s j))
    → P (process (change i f s) j)
process-change P i f s j old new = elim (ℕ_discrete i j) [
  | yes e ↦ elim (dec_lt i (length s.processes)) [
    | yes lt ↦
        subst P
          (sym (
            ap (process (change i f s)) (sym e)
            ∙ get_or-set_self s.processes i (f (process s i)) no_process lt
            ∙ ap (λ k. f (process s k)) e))
          new
    | no past ↦
        subst P
          (sym (
            ap (λ t. get_or t j no_process)
              (set-past s.processes i (f (process s i)) (omega arith))))
          old
  ]
  | no ne ↦ subst P (sym (get_or-set_ne s.processes i j (f (process s i)) no_process ne)) old
]

-- What a change of one process must respect.
pub record Respects (f : Process → Process) : Type 0 where
  pub cpu : (p : Process) → (f p).cpu ≡ p.cpu
  pub stays : (p : Process) → is_absent p.state ≡ false → is_absent (f p).state ≡ false

pub Keeps-change : (i : ℕ) (f : Process → Process) (s : Sched) → Respects f → Keeps s (change i f s)
Keeps-change i f s r = record {
  same_size = length-set s.processes i (f (process s i));
  same_cpus = refl;
  no_start = λ c k e. e;
  no_move = λ k. process-change (λ p. p.cpu ≡ (process s k).cpu) i f s k refl (r.cpu (process s k));
  no_end =
      λ k e. process-change (λ p. is_absent p.state ≡ false) i f s k e (r.stays (process s k) e);
}

pub length-map {ℓ} : {A B : Type ℓ} (f : A → B) (xs : List A) → length (map f xs) ≡ length xs
length-map f [] = refl
length-map f (x ∷ xs) = ap suc (length-map f xs)

get_or-map {ℓ} :
    {A B : Type ℓ} (f : A → B) (xs : List A) (i : ℕ) (d : A)
    → get_or (map f xs) i (f d) ≡ f (get_or xs i d)
get_or-map f [] i d = refl
get_or-map f (x ∷ xs) zero d = refl
get_or-map f (x ∷ xs) (suc i) d = get_or-map f xs i d

-- The same change to every process; a slot that is not there stays absent.
pub process-map :
    (f : Process → Process) (ps : List Process) (i : ℕ)
    → f no_process ≡ no_process
    → get_or (map f ps) i no_process ≡ f (get_or ps i no_process)
process-map f ps i e = ap (get_or (map f ps) i) (sym e) ∙ get_or-map f ps i no_process

pub Keeps-map :
    (f : Process → Process) (now : ℕ) (s : Sched)
    → f no_process ≡ no_process
    → Respects f
    → Keeps s (record s { tick_count = now; processes = map f s.processes })
Keeps-map f now s e r = record {
  same_size = length-map f s.processes;
  same_cpus = refl;
  no_start = λ c k h. h;
  no_move = λ k. ap (λ p. p.cpu) (process-map f s.processes k e) ∙ r.cpu (process s k);
  no_end =
      λ k h. ap (λ p. is_absent p.state) (process-map f s.processes k e) ∙ r.stays (process s k) h;
}

set-none_self : {A : Type 0} (xs : List (Option A)) (i : ℕ) → get_or (set xs i none) i none ≡ none
set-none_self [] i = refl
set-none_self (x ∷ xs) zero = refl
set-none_self (x ∷ xs) (suc i) = set-none_self xs i

-- A CPU that has given up its process runs none.
pub cleared :
    (cpu c i : ℕ) (s : Sched) → cpu ≡ c → get_or (set_current cpu none s).current c none ≢ some i
cleared cpu c i s same e = ground (
  arith,
  sym (set-none_self s.current cpu) ∙ ap (λ k. get_or (set s.current cpu none) k none) same ∙ e,
)

-- A CPU gives up its process.
pub Keeps-clear : (cpu : ℕ) (s : Sched) → Keeps s (set_current cpu none s)
Keeps-clear cpu s = record {
  same_size = refl;
  same_cpus = length-set s.current cpu none;
  no_start = λ c i e. elim (ℕ_discrete cpu c) [
    | yes same ↦ absurd (cleared cpu c i s same e)
    | no ne ↦ sym (get_or-set_ne s.current cpu c none none ne) ∙ e
  ];
  no_move = λ i. refl;
  no_end = λ i h. h;
}

-- A process that is at home on another CPU cannot run here.
not_elsewhere :
    (cpu c i next : ℕ) (s : Sched)
    → Home s c i
    → runnable cpu (process s next) ≡ true
    → cpu ≢ c
    → next ≢ i
not_elsewhere cpu c i next s h r ne e =
    let on : (process s next).cpu ≡ some c = ap (λ k. (process s k).cpu) e ∙ h.on in
    ground (arith, ne, ap (may_run_on cpu) on)

some-injective {ℓ} : {A : Type ℓ} {a b : A} → some a ≡ some b → a ≡ b
some-injective {a} e = ap (λ o. elim o [ none ↦ a | some x ↦ x ]) e

-- A process that can run on the CPU can start there.
pub run_on-IsValid :
    (cpu next : ℕ) (s : Sched)
    → cpu < max_cpus
    → next < max_processes
    → runnable cpu (process s next) ≡ true
    → IsValid s
    → IsValid (run_on cpu next s)
unfolding run_on
run_on-IsValid cpu next s c n r v =
    let size : next < length s.processes = omega (arith, v.size) in
    let there = get_or-set_self s.processes next (start_on cpu (process s next)) no_process size in
    let started = get_or-set_self s.current cpu (some next) none (omega (arith, v.cpus)) in
    let here : Home (run_on cpu next s) cpu next = record {
      in_table = n;
      on = ap (λ p. p.cpu) there;
      alive = ap (λ p. is_absent p.state) there;
    } in
    record {
      size = length-set s.processes next _ ∙ v.size;
      cpus = length-set s.current cpu (some next) ∙ v.cpus;
      home = λ d i e. elim (ℕ_discrete cpu d) [
        | yes same ↦
            let is_next : next ≡ i =
              some-injective
                (sym started ∙ ap (λ k. get_or (set s.current cpu (some next)) k none) same ∙ e) in
            subst (Home (run_on cpu next s) d) (is_next)
              (subst (λ k. Home (run_on cpu next s) k next) (same) here)
        | no ne ↦
            let h = v.home d i (sym (get_or-set_ne s.current cpu d (some next) none ne) ∙ e) in
            let old =
              get_or-set_ne s.processes next i (start_on cpu (process s next)) no_process
                (not_elsewhere cpu d i next s h r ne) in
            record {
              in_table = h.in_table;
              on = ap (λ p. p.cpu) old ∙ h.on;
              alive = ap (λ p. is_absent p.state) old ∙ h.alive;
            }
      ];
    }

-- A process that is at home on the CPU can become the one that it runs.
pub set_current-IsValid :
    (cpu next : ℕ) (s : Sched)
    → cpu < max_cpus
    → Home s cpu next
    → IsValid s
    → IsValid (set_current cpu (some next) s)
set_current-IsValid cpu next s c h v =
    let there = get_or-set_self s.current cpu (some next) none (omega (arith, v.cpus)) in
    record {
      size = v.size;
      cpus = length-set s.current cpu (some next) ∙ v.cpus;
      home = λ d i e. elim (ℕ_discrete cpu d) [
        | yes same ↦
            let is_next : next ≡ i =
              some-injective
                (sym there ∙ ap (λ k. get_or (set s.current cpu (some next)) k none) same ∙ e) in
            let old : Home s d i = subst (Home s d) is_next (subst (λ k. Home s k next) same h) in
            record { in_table = old.in_table; on = old.on; alive = old.alive }
        | no ne ↦
            let old = v.home d i (sym (get_or-set_ne s.current cpu d (some next) none ne) ∙ e) in
            record { in_table = old.in_table; on = old.on; alive = old.alive }
      ];
    }

-- In such a state no two CPUs run the same process.
pub one_cpu :
    (s : Sched) (c d i : ℕ)
    → IsValid s
    → get_or s.current c none ≡ some i
    → get_or s.current d none ≡ some i
    → c ≡ d
one_cpu s c d i v e f = some-injective (sym (v.home c i e).on ∙ (v.home d i f).on)
