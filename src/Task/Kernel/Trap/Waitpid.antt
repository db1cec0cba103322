-- ===== src/Task/Kernel/Trap/Waitpid.antt =====
-- `sys_waitpid` of os/src/syscall/process.rs: what it returns and what becomes of the child.
use ch_os.Base.{ℕ, ◌-◌, ◌≡◌, ◌⊎◌, true, false, not, Option, none, some, List, if◌then◌else◌, update}
use ch_os.Base.Outcome.{Outcome, done, panic}
use ch_os.Memory.Address.{virt_addr}
use ch_os.Memory.PageTable.{translate_va}
use ch_os.Memory.UserString.{store_i32}
use ch_os.Syscall.Wait.{Child, any_match, take_zombie, any_zombie, Reaped}
use ch_os.Task.Kernel.{Kernel}
use ch_os.Task.Kernel.Process.{drop_block}
use ch_os.Task.Kernel.Calls.{Outside, minus_one, user_table}
use ch_os.Task.Kernel.Trap.{child_views, child_blocks, reap}

-- What the call sees of the children of the process `t`.
abbrev pub views : Outside → Kernel → ℕ → List Child
views out k t = child_views out k (k.blocks t).children

-- Where the exit code goes in memory, for an address that `t` gives.
abbrev pub code_address : Kernel → ℕ → ℕ → Option ℕ
code_address k t exit_code_ptr =
    translate_va k.machine.words (user_table k t) (virt_addr exit_code_ptr)

-- The state with the exit code of the child `c` at `pa` and the children `rest`, before the control
-- block of `c` is dropped.
abbrev pub collected : Kernel → ℕ → Child → List Child → ℕ → Kernel
collected k t c rest pa =
    let block = k.blocks t in
    let m = k.machine in
    record k {
      blocks = update k.blocks t (record block { children = child_blocks rest });
      machine = record m { words = store_i32 m.words pa c.exit_code };
    }

-- The result and the state after the call.
abbrev pub Waited : List Child → ℕ → ℕ → ℕ → Kernel → ℕ → Kernel → Type 0
Waited ps pid exit_code_ptr t k result k' =
    ((any_match pid ps ≡ false) × (result ≡ minus_one) × (k' ≡ k))
    ⊎ ((any_match pid ps ≡ true)
        × (any_zombie pid ps ≡ false)
        × (result ≡ minus_one - 1)
        × (k' ≡ k))
    ⊎ ((c : Child) × (rest : List Child) × (pa : ℕ) × Reaped pid ps c rest
        × (result ≡ c.pid)
        × (code_address k t exit_code_ptr ≡ some pa)
        × (drop_block c.block (collected k t c rest pa) ≡ done k'))

-- A child is there to be collected, and cannot be.
abbrev pub Stuck : List Child → ℕ → ℕ → ℕ → Kernel → Type 0
Stuck ps pid exit_code_ptr t k =
    (c : Child) × (rest : List Child) × Reaped pid ps c rest
    × ((code_address k t exit_code_ptr ≡ none)
        ⊎ ((pa : ℕ) × (code_address k t exit_code_ptr ≡ some pa)
            × (drop_block c.block (collected k t c rest pa) ≡ panic)))

abbrev wait_call : Outside → ℕ → ℕ → Kernel → ℕ → Outcome (ℕ × Kernel)
wait_call out pid exit_code_ptr k t =
    if not (any_match pid (views out k t))
    then done (minus_one, k)
    else reap (take_zombie pid (views out k t)) t exit_code_ptr k
