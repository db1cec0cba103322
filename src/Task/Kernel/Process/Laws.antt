-- ===== src/Task/Kernel/Process/Laws.antt =====
-- `exit_current_and_run_next`: what becomes of the process and of its children.
use ch_os.Base.{
  ℕ, ◌≡◌, ◌≢◌, refl, sym, ap, subst, ◌∙◌, true, false, List, [], ◌∷◌, ◌++◌, none, some, arith, ◌==◌,
  ==-ne, ==-refl, if◌then◌else◌, update, contains, Bool-cases, inl, inr,
}
use ch_os.Base.Outcome.{done, panic, Meets, Meets->>=, Meets-self, >>=-eq-done}
use ch_os.Memory.PageTable.{Machine}
use ch_os.Memory.MemorySet.{MemorySet, recycle_data_pages, drop_areas}
use ch_os.Task.Manager.{zombie, take_current_task}
use ch_os.Task.Kernel.{Kernel, TaskControlBlock}
use ch_os.Task.Kernel.Process.{adopt, push_child, exit_current_and_run_next}

++-assoc : (xs ys zs : List ℕ) → (xs ++ ys) ++ zs ≡ xs ++ (ys ++ zs)
++-assoc [] ys zs = refl
++-assoc (x ∷ xs) ys zs = ap (λ l. x ∷ l) (++-assoc xs ys zs)

++-nil : (xs : List ℕ) → xs ++ [] ≡ xs
++-nil [] = refl
++-nil (x ∷ xs) = ap (λ l. x ∷ l) (++-nil xs)

pub update-at : {A : Type 0} (f : ℕ → A) (p : ℕ) (v : A) → update f p v p ≡ v
update-at f p v = rw (==-refl p) refl

pub update-off : {A : Type 0} (f : ℕ → A) (p q : ℕ) (v : A) → q ≢ p → update f p v q ≡ f q
update-off f p q v h = rw (==-ne q p h) refl

-- One round of the loop.
abbrev adopt_one : ℕ → ℕ → (ℕ → TaskControlBlock) → ℕ → TaskControlBlock
adopt_one c i blocks =
    let moved = update blocks c (record (blocks c) { parent = some i }) in
    update moved i (push_child (moved i) c)

-- `INITPROC` gets the children in order.
adopt-initproc :
    (cs : List ℕ) (i : ℕ) (blocks : ℕ → TaskControlBlock)
    → contains i cs ≡ false
    → (adopt cs i blocks i).children ≡ (blocks i).children ++ cs
unfolding adopt
adopt-initproc [] i blocks h = sym (++-nil (blocks i).children)
adopt-initproc (c ∷ cs) i blocks h =
    let held = adopt_one c i blocks in
    let moved = update blocks c (record (blocks c) { parent = some i }) in
    let apart : i ≢ c = λ e. ground arith in
    let at : (held i).children ≡ (blocks i).children ++ (c ∷ []) =
      ap (λ (t : TaskControlBlock). t.children) (update-at moved i (push_child (moved i) c))
      ∙ ap (λ (t : TaskControlBlock). t.children ++ (c ∷ [])) (update-off blocks c i _ apart) in
    adopt-initproc cs i held (ground arith)
    ∙ ap (λ l. l ++ cs) at
    ∙ ++-assoc (blocks i).children (c ∷ []) cs

-- The others keep their blocks, but for the new parent of the children.
adopt-other :
    (cs : List ℕ) (i b : ℕ) (blocks : ℕ → TaskControlBlock)
    → b ≢ i
    → adopt cs i blocks b
      ≡ (if contains b cs then record (blocks b) { parent = some i } else blocks b)
unfolding adopt
adopt-other [] i b blocks h = refl
adopt-other (c ∷ cs) i b blocks h =
    let child = λ (t : TaskControlBlock). record t { parent = some i } in
    let moved = update blocks c (child (blocks c)) in
    let pushed : adopt_one c i blocks b ≡ moved b = update-off moved i b _ h in
    adopt-other cs i b (adopt_one c i blocks) h
    ∙ ap {A = TaskControlBlock} {B = TaskControlBlock}
        (λ t. if contains b cs then record t { parent = some i } else t) pushed
    ∙ elim (Bool-cases (c == b)) [
      | inl hit ↦
          let same : c ≡ b = ground arith in
          let at : moved b ≡ record (blocks b) { parent = some i } =
            subst (λ x. update blocks c (child (blocks c)) x ≡ child (blocks x)) same
              (update-at blocks c (child (blocks c))) in
          ap {A = TaskControlBlock} {B = TaskControlBlock}
            (λ t. if contains b cs then record t { parent = some i } else t) at
          ∙ rw hit (elim (Bool-cases (contains b cs)) [
            | inl more ↦ rw more refl
            | inr none_left ↦ rw none_left refl
          ])
      | inr miss ↦
          let apart : b ≢ c = λ e. ground arith in
          ap {A = TaskControlBlock} {B = TaskControlBlock}
            (λ t. if contains b cs then record t { parent = some i } else t)
            (update-off blocks c b _ apart)
          ∙ rw miss refl
    ]

-- What the end of the process `self` leaves.
pub record Ended (code initproc self : ℕ) (k k' : Kernel) : Type 0 where
  pub is_zombie : k'.scheduler.task_status self ≡ zombie
  pub code_kept : k'.scheduler.exit_code self ≡ code
  pub stopped : k'.scheduler.current ≡ none
  pub childless : (k'.blocks self).children ≡ []
  pub no_areas : (k'.blocks self).memory_set.areas ≡ []
  pub adopted :
      (k'.blocks initproc).children ≡ (k.blocks initproc).children ++ (k.blocks self).children
  pub parents :
      (c : ℕ) → contains c (k.blocks self).children ≡ true → (k'.blocks c).parent ≡ some initproc
  pub others :
      (b : ℕ)
      → b ≢ self
      → b ≢ initproc
      → contains b (k.blocks self).children ≡ false
      → k'.blocks b ≡ k.blocks b

recycle_data_pages-areas :
    (ms : MemorySet) (m : Machine)
    → Meets
        (recycle_data_pages ms m ≡ panic)
        (λ (ms', m'). ms'.areas ≡ [])
        (recycle_data_pages ms m)
unfolding recycle_data_pages
recycle_data_pages-areas ms m =
    Meets-self (λ (ms', m'). ms'.areas ≡ []) (recycle_data_pages ms m) (λ a e. no_areas a e)
  where
    no_areas : (a : MemorySet × Machine) → recycle_data_pages ms m ≡ done a → a.0.areas ≡ []
    no_areas a e = let (m', dropped, ends) = >>=-eq-done (drop_areas ms.areas m) _ e in cc ends

-- The running process, other than `initproc` and neither its own child nor the parent of
-- `initproc`, ends: it becomes a zombie with its exit code, without children and without areas,
-- nothing runs, its children become those of `initproc` in their order, with `initproc` as their
-- parent, and every other block stays. It panics only where a frame of its areas is refused.
pub exit_current_and_run_next-Ended :
    (code initproc self : ℕ) (k : Kernel)
    → k.scheduler.current ≡ some self
    → self ≢ initproc
    → contains initproc (k.blocks self).children ≡ false
    → contains self (k.blocks self).children ≡ false
    → Meets
        (recycle_data_pages (k.blocks self).memory_set k.machine ≡ panic)
        (λ k'. Ended code initproc self k k')
        (exit_current_and_run_next code initproc k)
unfolding exit_current_and_run_next take_current_task
exit_current_and_run_next-Ended code initproc self k current apart outside own =
    let cs = (k.blocks self).children in
    let blocks' = adopt cs initproc k.blocks in
    let kept : blocks' self ≡ k.blocks self =
      adopt-other cs initproc self k.blocks apart ∙ rw own refl in
    rw (current, ==-ne self initproc apart, kept)
      (Meets->>= _ (recycle_data_pages (k.blocks self).memory_set k.machine) _
        (recycle_data_pages-areas (k.blocks self).memory_set k.machine) (λ e. e)
        (λ (ms', m') cleared. record {
          is_zombie = update-at k.scheduler.task_status self zombie;
          code_kept = update-at k.scheduler.exit_code self code;
          stopped = refl;
          childless = ap (λ (t : TaskControlBlock). t.children) (update-at blocks' self _);
          no_areas =
              ap (λ (t : TaskControlBlock). t.memory_set.areas) (update-at blocks' self _)
              ∙ cleared;
          adopted =
              ap (λ (t : TaskControlBlock). t.children)
                (update-off blocks' self initproc _ (λ e. apart (sym e)))
              ∙ adopt-initproc cs initproc k.blocks outside;
          parents = λ c h.
              let not_self : c ≢ self = λ e. ground (arith, ap (λ b. contains b cs) e) in
              let not_init : c ≢ initproc = λ e. ground (arith, ap (λ b. contains b cs) e) in
              let given : (if contains c cs
                    then record (k.blocks c) { parent = some initproc }
                    else k.blocks c).parent
                  ≡ some initproc =
                rw h refl in
              ap (λ (t : TaskControlBlock). t.parent)
                (update-off blocks' self c _ not_self ∙ adopt-other cs initproc c k.blocks not_init)
              ∙ given;
          others = λ b ne ni h.
              update-off blocks' self b _ ne ∙ adopt-other cs initproc b k.blocks ni ∙ rw h refl;
        }))
