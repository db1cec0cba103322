-- ===== src/Syscall/Wait.antt =====
-- The search of `sys_waitpid` of os/src/syscall/process.rs in the children of the calling process;
-- the call itself is in Task.Kernel.Trap.
use ch_os.Base.{
  ℕ, ◌-◌, ◌^◌, ◌≡◌, refl, Bool, true, false, not, ◌&&◌, ◌||◌, Option, none, some, List, [], ◌∷◌,
  ◌++◌, arith, ◌==◌, if◌then◌else◌, Bool-cases, inl, inr, ap,
}

-- What the call reads of a child, whose control block has the number `block`; `strong_count` is
-- that of its `Arc`.
pub record Child : Type 0 where
  pub block : ℕ
  pub pid : ℕ
  pub zombie : Bool
  pub exit_code : ℕ
  pub strong_count : ℕ

-- `pid == -1 || pid as usize == p.getpid()`, with the argument as a word of 64 bits.
abbrev pub matches : ℕ → Child → Bool
matches pid p = (pid == 2 ^ 64 - 1) || (pid == p.pid)

unfoldable pub any_match : ℕ → List Child → Bool
any_match pid [] = false
any_match pid (p ∷ ps) = matches pid p || any_match pid ps

-- The first child that is a zombie and matches, and the children without it.
unfoldable pub take_zombie : ℕ → List Child → Option (Child × List Child)
take_zombie pid [] = none
take_zombie pid (p ∷ ps) =
    if p.zombie && matches pid p
    then some (p, ps)
    else elim (take_zombie pid ps) [ none ↦ none | some (c, rest) ↦ some (c, p ∷ rest) ]

-- Each child that is a zombie is held by its parent alone: it is in no queue and does not run.
abbrev pub zombies_unshared : List Child → Bool
zombies_unshared [] = true
zombies_unshared (p ∷ ps) = (not p.zombie || (p.strong_count == 1)) && zombies_unshared ps

abbrev pub any_zombie : ℕ → List Child → Bool
any_zombie pid [] = false
any_zombie pid (p ∷ ps) = (p.zombie && matches pid p) || any_zombie pid ps

pub any_match-any_zombie :
    (pid : ℕ) (ps : List Child) → any_zombie pid ps ≡ true → any_match pid ps ≡ true
unfolding any_match
any_match-any_zombie pid [] h = ground arith
any_match-any_zombie pid (p ∷ ps) h = ground (arith, any_match-any_zombie pid ps)

-- How the first zombie that matches stands among the children.
pub record Reaped (pid : ℕ) (ps : List Child) (c : Child) (rest : List Child) : Type 0 where
  pub before : List Child
  pub after : List Child
  pub was : ps ≡ before ++ (c ∷ after)
  pub left : rest ≡ before ++ after
  pub first : any_zombie pid before ≡ false
  pub is_zombie : c.zombie ≡ true
  pub fits : matches pid c ≡ true

-- What the search gives.
abbrev pub TakenBy : ℕ → List Child → Option (Child × List Child) → Type 0
TakenBy pid ps none = any_zombie pid ps ≡ false
TakenBy pid ps (some (c, rest)) =
    Reaped pid ps c rest × (zombies_unshared ps ≡ true → c.strong_count ≡ 1)

TakenBy-later :
    (pid : ℕ) (p : Child) (ps : List Child) (o : Option (Child × List Child))
    → (p.zombie && matches pid p) ≡ false
    → TakenBy pid ps o
    → TakenBy pid (p ∷ ps) (elim o [ none ↦ none | some (c, rest) ↦ some (c, p ∷ rest) ])
TakenBy-later pid p ps none other t = ground arith
TakenBy-later pid p ps (some (c, rest)) other (r, alone) = (
  record {
    before = p ∷ r.before;
    after = r.after;
    was = ap (λ q. p ∷ q) r.was;
    left = ap (λ q. p ∷ q) r.left;
    first = ground (arith, r.first);
    is_zombie = r.is_zombie;
    fits = r.fits;
  },
  λ u. alone (ground arith),
)

pub take_zombie-TakenBy : (pid : ℕ) (ps : List Child) → TakenBy pid ps (take_zombie pid ps)
unfolding take_zombie
take_zombie-TakenBy pid [] = refl
take_zombie-TakenBy pid (p ∷ ps) = elim (Bool-cases (p.zombie && matches pid p)) [
  | inl hit ↦
      rw (hit, take_zombie)
        (
          record {
            before = [];
            after = ps;
            was = refl;
            left = refl;
            first = refl;
            is_zombie = ground arith;
            fits = ground arith;
          },
          λ u. ground arith,
        )
  | inr other ↦
      rw (other, take_zombie)
        (TakenBy-later pid p ps (take_zombie pid ps) other (take_zombie-TakenBy pid ps))
]
