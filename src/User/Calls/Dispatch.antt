-- ===== src/User/Calls/Dispatch.antt =====
-- The calls of the library on the side of the kernel.
use ch_os.Base.{ℕ, ◌^◌, ◌%◌, ◌<◌, ◌≡◌, ◌≢◌, ◌⊎◌, refl, sym, ap, subst, ◌∙◌, some, arith}
use ch_os.Base.Bits.{add_usize}
use ch_os.Base.Outcome.{Outcome, done, panic, unwrap, ◌>>=◌, Meets, Meets->>=, Meets-self}
use ch_os.Task.Kernel.{Platform, Kernel, cx_sepc}
use ch_os.Task.Kernel.Process.{exit_current_and_run_next}
use ch_os.Task.Kernel.Calls.{
  Outside, sys_open, sys_close, sys_read, sys_write, sys_yield, sys_getpid, sys_fork, sys_exec,
  current_task,
}
use ch_os.Task.Kernel.Trap.{
  Return, returned, switched, suspended, resume, return, yielded, syscall, sys_waitpid, sys_exit,
  env_call, trap_handler, user_env_call, cx_word, set_cx_word, set_result,
}
use ch_os.User.Calls.{
  Call, open_, close, read, write, exit, yield_, get_time, getpid, fork, exec, waitpid, request,
  sign_extend,
}

-- What the kernel is to do for a call.
abbrev pub serve : Platform → Outside → Call → Kernel → Outcome Return
serve p out (open_ path flags) k = return (sys_open out path flags k)
serve p out (close fd) k = return (sys_close fd k)
serve p out (read fd buffer len) k = return (sys_read out fd buffer len k)
serve p out (write fd buffer len) k = return (sys_write out fd buffer len k)
serve p out (exit code) k = do
  k' ← exit_current_and_run_next code out.initproc k
  done (switched k')
serve p out yield_ k = yielded (sys_yield k)
serve p out get_time k = done (returned out.time_ms k)
serve p out getpid k = do pid ← sys_getpid k; done (returned pid k)
serve p out fork k = return (sys_fork p k)
serve p out (exec path) k = return (sys_exec p out path k)
serve p out (waitpid pid exit_code) k = return (sys_waitpid out pid exit_code k)

-- The arguments that have 32 bits.
abbrev pub Fits : Call → Type 0
Fits (open_ path flags) = flags < 2 ^ 32
Fits (exit code) = code < 2 ^ 32
Fits _ = Unit {0}

sign_extend-mod : (code : ℕ) → code < 2 ^ 32 → sign_extend code % 2 ^ 32 ≡ code
sign_extend-mod code h = ground arith

syscall-request :
    (p : Platform) (out : Outside) (c : Call) (k : Kernel)
    → Fits c
    → syscall p out (request c).0 (request c).1 k ≡ serve p out c k
unfolding syscall request sys_exit
syscall-request p out (open_ path flags) k h =
    ap (λ f. return (sys_open out path f k)) (omega arith)
syscall-request p out (close fd) k h = refl
syscall-request p out (read fd buffer len) k h = refl
syscall-request p out (write fd buffer len) k h = refl
syscall-request p out (exit code) k h = rw (sign_extend-mod code h) refl
syscall-request p out yield_ k h = refl
syscall-request p out get_time k h = refl
syscall-request p out getpid k h = refl
syscall-request p out fork k h = refl
syscall-request p out (exec path) k h = refl
syscall-request p out (waitpid pid exit_code) k h = refl

cx_word-other :
    (k : Kernel) (t i v : ℕ) → i ≢ cx_sepc → cx_word (set_cx_word k t cx_sepc v) t i ≡ cx_word k t i
cx_word-other k t i v h = ground arith

-- `env_call` from the four registers on.
abbrev call_with : Platform → Outside → Kernel → ℕ → ℕ → ℕ → ℕ → ℕ → ℕ → Outcome Return
call_with p out k t v id a0 a1 a2 =
    syscall p out id (record { a0 = a0; a1 = a1; a2 = a2 }) (set_cx_word k t cx_sepc v) >>= λ r.
    done (set_result t r)

registers-same :
    (p : Platform) (out : Outside) (k : Kernel) (t v : ℕ) {id id' a a' b b' c c' : ℕ}
    → id ≡ id'
    → a ≡ a'
    → b ≡ b'
    → c ≡ c'
    → call_with p out k t v id a b c ≡ call_with p out k t v id' a' b' c'
registers-same p out k t v d e f g = λ i. call_with p out k t v (d i) (e i) (f i) (g i)

abbrev call_of : Platform → Outside → Kernel → ℕ → Outcome Return
call_of p out k t =
    let v = add_usize (cx_word k t cx_sepc) 4 in
    let k₁ = set_cx_word k t cx_sepc v in
    call_with p out k t v (cx_word k₁ t 17) (cx_word k₁ t 10) (cx_word k₁ t 11) (cx_word k₁ t 12)

served_call :
    (p : Platform) (out : Outside) (c : Call) (t : ℕ) (k : Kernel)
    → Fits c
    → k.scheduler.current ≡ some t
    → cx_word k t 17 ≡ (request c).0
    → cx_word k t 10 ≡ (request c).1.a0
    → cx_word k t 11 ≡ (request c).1.a1
    → cx_word k t 12 ≡ (request c).1.a2
    → trap_handler p out user_env_call k ≡ (
        serve p out c (set_cx_word k t cx_sepc (add_usize (cx_word k t cx_sepc) 4)) >>= λ r.
        done (set_result t r))
unfolding trap_handler env_call current_task
served_call p out c t k fits current h17 h10 h11 h12 =
    let v = add_usize (cx_word k t cx_sepc) 4 in
    let kept = λ (i : ℕ) (h : i ≢ cx_sepc). cx_word-other k t i v h in
    subst
      (λ o.
        (o >>= call_of p out k)
        ≡ (serve p out c (set_cx_word k t cx_sepc v) >>= λ r. done (set_result t r)))
      (sym (ap unwrap current))
      (registers-same p out k t v (kept 17 (omega arith) ∙ h17) (kept 10 (omega arith) ∙ h10)
          (kept 11 (omega arith) ∙ h11) (kept 12 (omega arith) ∙ h12)
        ∙ ap (λ o. o >>= λ r. done (set_result t r))
            (syscall-request p out c (set_cx_word k t cx_sepc v) fits))

-- The state `k'` is `k` with `v` in the word `i` of the trap context of the process `t`.
pub record Written (t i v : ℕ) (k k' : Kernel) : Type 0 where
  pub here : cx_word k' t i ≡ v
  pub others :
      (f j : ℕ)
      → (f ≢ (k.blocks t).trap_cx_ppn) ⊎ (j ≢ i)
      → k'.machine.words f j ≡ k.machine.words f j
  pub same_rest : k' ≡ record k { machine = record k'.machine { allocator = k.machine.allocator } }

set_cx_word-Written : (k : Kernel) (t i v : ℕ) → Written t i v k (set_cx_word k t i v)
set_cx_word-Written k t i v = record {
  here = ground arith;
  others = λ f j h. ground arith;
  same_rest = refl;
}

-- What the process `t` sees of a call that the kernel serves in the state `k`.
abbrev pub Served : Platform → Outside → Call → ℕ → Kernel → Return → Type 0
Served p out c t k (returned result k') =
    (k₂ : Kernel) × (serve p out c k ≡ done (returned result k₂)) × Written t 10 result k₂ k'
Served p out c t k (switched k') = serve p out c k ≡ done (switched k')
Served p out c t k (suspended result k') =
    (serve p out c k ≡ done (suspended result k'))
    × ((later : Kernel) → Written t 10 result later (resume t result later))

set_result-Served :
    (p : Platform) (out : Outside) (c : Call) (t : ℕ) (k : Kernel) (r : Return)
    → serve p out c k ≡ done r
    → Served p out c t k (set_result t r)
unfolding resume
set_result-Served p out c t k (returned result k₂) e = (k₂, e, set_cx_word-Written k₂ t 10 result)
set_result-Served p out c t k (switched k') e = e
set_result-Served p out c t k (suspended result k') e =
    (e, λ later. set_cx_word-Written later t 10 result)

-- A process traps with a call of the library in its registers, the arguments in their 32 bits
-- where they have so many. The kernel puts the address of the next instruction into its trap
-- context, changes nothing else, and does what that call is for, with the same arguments; it panics
-- just where that does. Where that returns, its result is in register 10 of the trap context of the
-- process afterwards, and nothing else is changed; `exit` does not return; after `yield_`, the
-- result is put there when the process is switched to again.
pub trap_handler-Served :
    (p : Platform) (out : Outside) (c : Call) (t : ℕ) (k : Kernel)
    → Fits c
    → k.scheduler.current ≡ some t
    → cx_word k t 17 ≡ (request c).0
    → cx_word k t 10 ≡ (request c).1.a0
    → cx_word k t 11 ≡ (request c).1.a1
    → cx_word k t 12 ≡ (request c).1.a2
    → (k₁ : Kernel) × Written t cx_sepc (add_usize (cx_word k t cx_sepc) 4) k k₁
      × Meets
          (serve p out c k₁ ≡ panic)
          (λ r. Served p out c t k₁ r)
          (trap_handler p out user_env_call k)
trap_handler-Served p out c t k fits current h17 h10 h11 h12 =
    let k₁ = set_cx_word k t cx_sepc (add_usize (cx_word k t cx_sepc) 4) in
    (
      k₁,
      set_cx_word-Written k t cx_sepc (add_usize (cx_word k t cx_sepc) 4),
      subst (λ o. Meets (serve p out c k₁ ≡ panic) (λ r. Served p out c t k₁ r) o)
          (sym (served_call p out c t k fits current h17 h10 h11 h12))
          (Meets->>= _ (serve p out c k₁) _
            (Meets-self (λ r. serve p out c k₁ ≡ done r) (serve p out c k₁) (λ r e. e)) (λ e. e)
            (λ r e. set_result-Served p out c t k₁ r e)),
    )
