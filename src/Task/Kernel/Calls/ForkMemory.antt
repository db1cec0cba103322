-- ===== src/Task/Kernel/Calls/ForkMemory.antt =====
-- `TaskControlBlock::fork` of os/src/task/task.rs: the memory of the child, and when there is one.
use ch_os.Base.{
  ℕ, ◌+◌, ◌*◌, ◌-◌, ◌<◌, ◌^◌, ◌≡◌, ◌≢◌, ◌⊎◌, inl, inr, refl, sym, ap, ◌∙◌, subst, true, false, List,
  [], ◌∷◌, Option, none, some, arith, contains, Option-cases, Bool-cases, All, update,
}
use ch_os.Base.Outcome.{done, Meets, Meets->>=}
use ch_os.Memory.Address
use ch_os.Memory.Address.{virt_addr, virt_to_page, phys_addr, phys_to_page}
use ch_os.Memory.Entry
use ch_os.Memory.Frames.Laws.{free_frames}
use ch_os.Memory.PageTable.{Machine, PageTable, write_word}
use ch_os.Memory.PageTable.Tree.{Node}
use ch_os.Memory.PageTable.Grow.{IsTable}
use ch_os.Memory.PageTable.Refine.{page_entry}
use ch_os.Memory.PageTable.Data.{SameNodes, IsTree-same, page_entry-same}
use ch_os.Memory.MapArea.{MapArea, frame_at}
use ch_os.Memory.MapArea.Laws.{range_of}
use ch_os.Memory.MemorySet.{MemorySet, trap_context}
use ch_os.Memory.MemorySet.Fork.{from_existed_user}
use ch_os.Memory.MemorySet.Fork.Pages.{translate-page_entry}
use ch_os.Memory.MemorySet.Fork.Area.{IsMapped, CopyOf}
use ch_os.Memory.MemorySet.Fork.AreaCopy.{entry_of-framed}
use ch_os.Memory.MemorySet.Fork.Areas.{Copies, Disjoint, in_areas, page_count}
use ch_os.Memory.MemorySet.Fork.Whole.{SpaceCopied, trampoline_page, from_existed_user-SpaceCopied}
use ch_os.Task.Pid
use ch_os.Task.Kernel.{Platform, Kernel, TaskControlBlock, trap_cx_frame, cx_kernel_sp}
use ch_os.Task.Kernel.Stack
use ch_os.Task.Kernel.Process.{fork, forked}
use ch_os.Task.Kernel.Process.Laws.{update-at, update-off}
use ch_os.Task.Kernel.Process.KernelStack.{Stacked, StackTaken, new-Stacked}
use ch_os.Task.Kernel.Calls.Fork.{Forked, made, made-Forked}

-- The page of the trap context, the one below the trampoline's.
abbrev pub trap_page : ℕ
trap_page = 2 ^ 27 - 2

CopyOf-entry :
    (start : ℕ) (m : Machine) (a : MapArea) {owner' : ℕ → Option Node} (pt' : PageTable)
    (b : MapArea) (m' : Machine) (v : ℕ)
    → CopyOf start m a owner' pt' b m'
    → contains v (range_of a) ≡ true
    → page_entry m'.words pt' v ≢ none
CopyOf-entry start m a pt' b m' v c h =
    let same_range : range_of b ≡ range_of a = ap range_of c.same_area in
    let inside : contains v (range_of b) ≡ true = ap (contains v) same_range ∙ h in
    elim (Option-cases (frame_at b.data_frames v)) [
      | inl e ↦ absurd (c.mapped.present v inside e)
      | inr (f, e) ↦
          λ n. cc (c.mapped.entries v inside, entry_of-framed b v f c.mapped.is_framed e, n)
    ]

Copies-entry :
    (start : ℕ) (m : Machine) (areas : List MapArea) (owner' : ℕ → Option Node) (pt' : PageTable)
    (news : List MapArea) (m' : Machine) (v : ℕ)
    → Copies start m areas owner' pt' news m'
    → in_areas v areas ≡ true
    → page_entry m'.words pt' v ≢ none
Copies-entry start m [] owner' pt' news m' v c h = cc h
Copies-entry start m (a ∷ olds) owner' pt' [] m' v c h = absurd c
Copies-entry start m (a ∷ olds) owner' pt' (b ∷ news) m' v (c, cs) h =
    elim (Bool-cases (contains v (range_of a))) [
      | inl e ↦ CopyOf-entry start m a pt' b m' v c e
      | inr e ↦ Copies-entry start m olds owner' pt' news m' v cs (ground arith)
    ]

trap_page-at : virt_to_page (virt_addr trap_context) ≡ done trap_page
unfolding virt_to_page virt_addr Address.virt_offset Address.virt_floor
trap_page-at = refl

-- A mapped page for the trap context has a frame, which `trap_cx_frame` gives.
trap_cx_frame-entry :
    (ms : MemorySet) (m : Machine)
    → page_entry m.words ms.page_table trap_page ≢ none
    → (bits : ℕ) × (page_entry m.words ms.page_table trap_page ≡ some bits)
      × (trap_cx_frame ms m ≡ done (Entry.ppn bits))
unfolding trap_cx_frame
trap_cx_frame-entry ms m h = elim (Option-cases (page_entry m.words ms.page_table trap_page)) [
  | inl e ↦ absurd (h e)
  | inr (bits, e) ↦ (bits, e, rw (trap_page-at, translate-page_entry ms m trap_page bits e) refl)
]

-- The memory of the child `b` after the fork of `self`: `m₁` is the machine when its address space
-- was made, `m₂` when its kernel stack was.
pub record ForkMemory (start ppn : ℕ) (kernel_owner : ℕ → Option Node) (self : ℕ) (k : Kernel)
    (b : ℕ) (k' : Kernel) : Type 0 where
  pub m₁ : Machine
  pub m₂ : Machine
  pub copied :
      SpaceCopied start ppn (k.blocks self).memory_set k.machine (k'.blocks b).memory_set m₁
  pub bits : ℕ
  pub trap_entry : page_entry m₁.words (k'.blocks b).memory_set.page_table trap_page ≡ some bits
  pub trap_frame : (k'.blocks b).trap_cx_ppn ≡ Entry.ppn bits
  pub stack : Stacked start kernel_owner (k'.blocks b).pid k.kernel_space m₁ k'.kernel_space m₂
  pub written : k'.machine ≡ record m₂ {
    words =
        write_word m₂.words
          (k'.blocks b).trap_cx_ppn
          cx_kernel_sp
          (Stack.get_top (k'.blocks b).pid);
  }

-- The kernel's address space while the child's is made.
module _ (start ppn : ℕ) (kernel_owner : ℕ → Option Node) (user ks : MemorySet) (m : Machine)
    (kernel : IsTable start kernel_owner ks.page_table m) (ms' : MemorySet) (m₁ : Machine)
    (c : SpaceCopied start ppn user m ms' m₁) where
  kernel-same : SameNodes kernel_owner m.words m₁.words
  kernel-same q i n o = c.kept.same_data q i (kernel.owned q n o) refl

  kernel-IsTable : IsTable start kernel_owner ks.page_table m₁
  kernel-IsTable = record {
    tree = IsTree-same kernel.tree kernel-same;
    frames_valid = c.table.frames_valid;
    owned = λ q n o. c.kept.allocated q (kernel.owned q n o);
  }

  StackTaken-before : (pid : ℕ) → StackTaken pid ks m₁ → StackTaken pid ks m
  StackTaken-before pid (v, h, e) =
      (v, h, λ n. e (page_entry-same ks.page_table v kernel.tree kernel-same ∙ n))

made-ForkMemory :
    (start ppn : ℕ) (kernel_owner : ℕ → Option Node) (p : Platform) (self : ℕ) (k : Kernel)
    → self ≢ k.next_block
    → (ms : MemorySet) (m₁ : Machine) (bits : ℕ) (ks : MemorySet) (m₂ : Machine)
    → SpaceCopied start ppn (k.blocks self).memory_set k.machine ms m₁
    → page_entry m₁.words ms.page_table trap_page ≡ some bits
    → Stacked start kernel_owner (Pid.alloc k.pids).0 k.kernel_space m₁ ks m₂
    → ForkMemory start ppn kernel_owner self k k.next_block
        (made p self k ms (Entry.ppn bits) ks m₂)
made-ForkMemory start ppn kernel_owner p self k apart ms m₁ bits ks m₂ c e s =
    let pid = (Pid.alloc k.pids).0 in
    let frame = Entry.ppn bits in
    let born : TaskControlBlock = forked p self (k.blocks self) ms frame pid in
    let k' : Kernel = made p self k ms frame ks m₂ in
    let child : k'.blocks k.next_block ≡ born =
      update-off (update k.blocks k.next_block born) self k.next_block _ (λ e. apart (sym e))
      ∙ update-at k.blocks k.next_block born in
    record {
      m₁ = m₁;
      m₂ = m₂;
      copied =
          subst
            (λ (t : TaskControlBlock).
              SpaceCopied start ppn (k.blocks self).memory_set k.machine t.memory_set m₁)
            (sym child) c;
      bits = bits;
      trap_entry =
          ap (λ (t : TaskControlBlock). page_entry m₁.words t.memory_set.page_table trap_page) child
          ∙ e;
      trap_frame = ap (λ (t : TaskControlBlock). t.trap_cx_ppn) child;
      stack =
          subst (λ (t : TaskControlBlock). Stacked start kernel_owner t.pid k.kernel_space m₁ ks m₂)
            (sym child) s;
      written =
          ap
            (λ (t : TaskControlBlock). record m₂ {
              words = write_word m₂.words t.trap_cx_ppn cx_kernel_sp (Stack.get_top t.pid);
            })
            (sym child);
    }

-- The process `self`, whose block is not the next one to be made, forks. Its page table is well
-- formed, its areas share no page, have their pages mapped to their frames, and hold the page of
-- the trap context but not the trampoline's; the kernel's page table is well formed; the identifier
-- that is next is below 2^25. The fork makes a child that stands to its parent as `Forked` says. The
-- child's address space is a copy of the parent's, its trap context is in the frame of that page,
-- its kernel stack is mapped in the kernel's address space, and the top of that stack is then
-- written into the trap context. It panics only where fewer than three frames for each page of the
-- parent's areas, and nine more, are free, or a page of the kernel stack is mapped already.
pub fork-ForkMemory :
    (start ppn : ℕ) (owner kernel_owner : ℕ → Option Node) (p : Platform) (self : ℕ) (k : Kernel)
    → self ≢ k.next_block
    → phys_to_page (phys_addr p.strampoline) ≡ done ppn
    → ppn < 2 ^ 44
    → IsTable start owner (k.blocks self).memory_set.page_table k.machine
    → Disjoint (k.blocks self).memory_set.areas
    → All
        (λ a. IsMapped start owner (k.blocks self).memory_set.page_table a k.machine)
        (k.blocks self).memory_set.areas
    → in_areas trap_page (k.blocks self).memory_set.areas ≡ true
    → in_areas trampoline_page (k.blocks self).memory_set.areas ≡ false
    → IsTable start kernel_owner k.kernel_space.page_table k.machine
    → (Pid.alloc k.pids).0 < 2 ^ 25
    → Meets
        ((free_frames k.machine.allocator < 3 * page_count (k.blocks self).memory_set.areas + 9)
          ⊎ StackTaken (Pid.alloc k.pids).0 k.kernel_space k.machine)
        (λ (b, k').
          (b ≡ k.next_block) × Forked p self b k k' × ForkMemory start ppn kernel_owner self k b k')
        (fork p self k)
unfolding fork
fork-ForkMemory start ppn owner kernel_owner p self k apart code small parent disjoint mapped trap
      below kernel pid_small =
    let user = (k.blocks self).memory_set in
    let pid = (Pid.alloc k.pids).0 in
    Meets->>= _ (from_existed_user p.strampoline user k.machine) _
      (from_existed_user-SpaceCopied start owner user k.machine ppn parent disjoint mapped below
        p.strampoline code small)
      (λ few. inl (omega arith))
      (λ (ms, m₁) c.
        let (bits, e, frame) = trap_cx_frame-entry ms m₁ (
          Copies-entry start k.machine user.areas c.owner' ms.page_table ms.areas m₁ trap_page
            c.copies trap) in
        rw frame (
          Meets->>= _ (Stack.new pid k.kernel_space m₁) _
            (new-Stacked start pid k.kernel_space m₁ pid_small
              (kernel-IsTable start ppn kernel_owner user k.kernel_space k.machine kernel ms m₁ c))
            (λ e. elim e [
              | inl few ↦ inl (omega (arith, c.count))
              | inr taken ↦ inr (
                  StackTaken-before start ppn kernel_owner user k.kernel_space k.machine kernel ms
                    m₁ c pid taken)
            ])
            (λ (ks, m₂) s. (
              refl,
              made-Forked p self k apart ms (Entry.ppn bits) ks m₂,
              made-ForkMemory start ppn kernel_owner p self k apart ms m₁ bits ks m₂ c e s,
            ))))
