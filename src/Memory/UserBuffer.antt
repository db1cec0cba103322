-- ===== src/Memory/UserBuffer.antt =====
-- os/src/memory/page_table.rs, `translated_byte_buffer`: the bytes of a user buffer, page by page.
-- A slice of a frame is its number with the first offset and the one past the last.
use ch_os.Base.{
  ℕ, zero, suc, ◌+◌, ◌-◌, ◌*◌, ◌/◌, ◌%◌, ◌^◌, ◌≤◌, ◌<◌, ◌≡◌, refl, ap, sym, ◌∙◌, min, true, false,
  some, List, [], ◌∷◌, ◌++◌, arith, ◌==◌, ltb, if◌then◌else◌, Option-cases, inl, inr,
}
use ch_os.Base.Bits.{add_usize}
use ch_os.Base.Outcome.{Outcome, done, panic, unwrap, ◌>>=◌}
use ch_os.Memory.Address.{virt_addr, virt_floor, virt_offset, page_to_virt, step}
use ch_os.Memory.Address.Pages.{virt_addr-mod, virt_offset-mod}
use ch_os.Memory.Entry
use ch_os.Memory.PageTable.{PageTable, translate}

pub record Slice : Type 0 where
  pub frame : ℕ
  pub from : ℕ
  pub to : ℕ

-- `end_va` of one round.
abbrev pub slice_end : ℕ → ℕ → ℕ
slice_end start end = min (page_to_virt (step (virt_floor (virt_addr start)))) (virt_addr end)

-- The loop, on fuel.
pub slices_from : (ℕ → ℕ → ℕ) → PageTable → ℕ → ℕ → ℕ → Outcome (List Slice)
slices_from words pt zero start end = if ltb start end then panic else done []
slices_from words pt (suc fuel) start end = elim (ltb start end) [
  | false ↦ done []
  | true ↦ do
    bits ← unwrap (translate words pt (virt_floor (virt_addr start)))
    rest ← slices_from words pt fuel (slice_end start end) end
    done (
        record {
          frame = Entry.ppn bits;
          from = virt_offset (virt_addr start);
          to =
              if virt_offset (slice_end start end) == 0
              then 4096
              else virt_offset (slice_end start end);
        }
        ∷ rest)
]

-- Each round takes a byte at least where the buffer ends below 2^39, so `len` rounds are enough
-- there. Beyond, `end_va` has lost its upper bits, and the loop of the source may not end.
pub translated_byte_buffer : (ℕ → ℕ → ℕ) → PageTable → ℕ → ℕ → Outcome (List Slice)
translated_byte_buffer words pt ptr len = slices_from words pt len ptr (add_usize ptr len)

-- The places of `n` bytes of a frame.
abbrev pub span : ℕ → ℕ → ℕ → List (ℕ × ℕ)
span frame o zero = []
span frame o (suc n) = (frame, o) ∷ span frame (o + 1) n

abbrev pub places : List Slice → List (ℕ × ℕ)
places [] = []
places (s ∷ ss) = span s.frame s.from (s.to - s.from) ++ places ss

-- The same, address by address: the frame and the offset of each byte.
pub byte_places : (ℕ → ℕ → ℕ) → PageTable → ℕ → ℕ → Outcome (List (ℕ × ℕ))
byte_places words pt a zero = done []
byte_places words pt a (suc n) = do
  bits ← unwrap (translate words pt (a / 4096))
  rest ← byte_places words pt (a + 1) n
  done ((Entry.ppn bits, a % 4096) ∷ rest)

done_then :
    {A B C : Type 0} (m : Outcome A) (f : A → B) (g : B → C)
    → (m >>= (λ a. done (f a)) >>= λ b. done (g b)) ≡ (m >>= λ a. done (g (f a)))
done_then (done a) f g = refl
done_then panic f g = refl

first_byte :
    (words : ℕ → ℕ → ℕ) (pt : PageTable) (bits a n : ℕ)
    → translate words pt (a / 4096) ≡ some bits
    → byte_places words pt a (suc n)
      ≡ (byte_places words pt (a + 1) n >>= λ rest. done ((Entry.ppn bits, a % 4096) ∷ rest))
unfolding byte_places
first_byte words pt bits a n h = rw h refl

-- A run of bytes in one page.
byte_places-run :
    (words : ℕ → ℕ → ℕ) (pt : PageTable) (bits k a m : ℕ)
    → translate words pt (a / 4096) ≡ some bits
    → a % 4096 + suc k ≤ 4096
    → byte_places words pt a (suc (k + m)) ≡ (
        byte_places words pt (a + suc k) m >>= λ rest.
        done (span (Entry.ppn bits) (a % 4096) (suc k) ++ rest))
byte_places-run words pt bits zero a m h fits =
    let e : 0 + m ≡ m = omega arith in rw e (first_byte words pt bits a m h)
byte_places-run words pt bits (suc k) a m h fits =
    let e : suc k + m ≡ suc (k + m) = omega arith in
    let same : (a + 1) / 4096 ≡ a / 4096 = omega arith in
    let next : (a + 1) % 4096 ≡ a % 4096 + 1 = omega arith in
    let there : a + 1 + suc k ≡ a + suc (suc k) = omega arith in
    let later =
      byte_places-run words pt bits k (a + 1) m (ap (translate words pt) same ∙ h) (omega arith) in
    rw e (
      first_byte words pt bits a (suc (k + m)) h
      ∙ ap (λ r. r >>= λ rest. done ((Entry.ppn bits, a % 4096) ∷ rest)) later
      ∙ done_then (byte_places words pt (a + 1 + suc k) m)
          (λ rest. span (Entry.ppn bits) ((a + 1) % 4096) (suc k) ++ rest)
          (λ rest. (Entry.ppn bits, a % 4096) ∷ rest)
      ∙ rw (next, there) refl)

slice_end-eq :
    (start end : ℕ)
    → start < end
    → end < 2 ^ 39
    → slice_end start end ≡ min ((start / 4096 + 1) * 4096) end
unfolding page_to_virt step virt_floor
slice_end-eq start end h k = omega (arith, virt_addr-mod start, virt_addr-mod end)

virt_floor-eq : (a : ℕ) → a < 2 ^ 39 → virt_floor (virt_addr a) ≡ a / 4096
unfolding virt_floor
virt_floor-eq a h = omega (arith, virt_addr-mod a)

virt_offset-eq : (a : ℕ) → a < 2 ^ 39 → virt_offset (virt_addr a) ≡ a % 4096
virt_offset-eq a h = omega (arith, virt_addr-mod a, virt_offset-mod (virt_addr a))

-- The slice of a round.
abbrev slice_of : ℕ → ℕ → ℕ → Slice
slice_of bits start e = record {
  frame = Entry.ppn bits;
  from = virt_offset (virt_addr start);
  to = if virt_offset e == 0 then 4096 else virt_offset e;
}

one_slice :
    (words : ℕ → ℕ → ℕ) (pt : PageTable) (fuel start end bits : ℕ)
    → ltb start end ≡ true
    → translate words pt (virt_floor (virt_addr start)) ≡ some bits
    → slices_from words pt (suc fuel) start end ≡ (
        slices_from words pt fuel (slice_end start end) end >>= λ rest.
        done (slice_of bits start (slice_end start end) ∷ rest))
unfolding slices_from
one_slice words pt fuel start end bits run h = rw (run, h, slices_from) refl

slices_from-byte_places :
    (words : ℕ → ℕ → ℕ) (pt : PageTable) (fuel start n : ℕ)
    → n ≤ fuel
    → start + n < 2 ^ 39
    → (slices_from words pt fuel start (start + n) >>= λ ss. done (places ss))
      ≡ byte_places words pt start n
unfolding slices_from byte_places
slices_from-byte_places words pt zero start zero l h =
    let stop : ltb start (start + 0) ≡ false = ground arith in rw (stop, slices_from) refl
slices_from-byte_places words pt zero start (suc n) l h = absurd (omega arith)
slices_from-byte_places words pt (suc fuel) start zero l h =
    let stop : ltb start (start + 0) ≡ false = ground arith in rw (stop, slices_from) refl
slices_from-byte_places words pt (suc fuel) start (suc n) l h =
    let run : ltb start (start + suc n) ≡ true = ground arith in
    let floor = virt_floor-eq start (omega arith) in
    elim (Option-cases (translate words pt (start / 4096))) [
      | inl unmapped ↦ rw (run, floor, unmapped, slices_from) refl
      | inr (bits, mapped) ↦
          let e = slice_end start (start + suc n) in
          let e_eq = slice_end-eq start (start + suc n) (omega arith) h in
          let k = e - start - 1 in
          let m = start + suc n - e in
          let length_eq : suc n ≡ suc (k + m) = omega (arith, e_eq) in
          let place_eq : start + suc k ≡ e = omega (arith, e_eq) in
          let end_eq : e + m ≡ start + suc n = omega (arith, e_eq) in
          let from_eq = virt_offset-eq start (omega arith) in
          let to_eq = virt_offset-mod e in
          let width_eq : (slice_of bits start e).to - (slice_of bits start e).from ≡ suc k =
            ground (arith, e_eq, from_eq, to_eq) in
          let later =
            slices_from-byte_places words pt fuel e m (omega (arith, e_eq)) (omega (arith, e_eq)) in
          let end = start + suc n in
          let s = slice_of bits start e in
          let then_span = λ (o w : ℕ) (r : Outcome (List (ℕ × ℕ))).
            r >>= λ q. done (span (Entry.ppn bits) o w ++ q) in
          ap (λ r. r >>= λ ss. done (places ss))
            (one_slice words pt fuel start end bits run (ap (translate words pt) floor ∙ mapped))
          ∙ done_then (slices_from words pt fuel e end) (λ rest. s ∷ rest) places
          ∙ sym (
              done_then (slices_from words pt fuel e end) places
                (λ q. span s.frame s.from (s.to - s.from) ++ q))
          ∙ ap
              (λ q.
                then_span s.from (s.to - s.from)
                  (slices_from words pt fuel e q >>= λ ss. done (places ss)))
              (sym end_eq)
          ∙ ap (then_span s.from (s.to - s.from)) later
          ∙ ap (λ w. then_span s.from w (byte_places words pt e m)) width_eq
          ∙ ap (λ o. then_span o (suc k) (byte_places words pt e m)) from_eq
          ∙ ap (λ a. then_span (start % 4096) (suc k) (byte_places words pt a m)) (sym place_eq)
          ∙ sym (byte_places-run words pt bits k start m mapped (omega (arith, e_eq)))
          ∙ ap (byte_places words pt start) (sym length_eq)
    ]

-- For a buffer that ends below 2^39, the slices of `translated_byte_buffer` hold, in order, just the
-- bytes to which the page table takes each address of the buffer; it panics just where the walk of
-- the table finds no entry for one of these addresses. The `len` rounds of fuel are enough.
pub translated_byte_buffer-byte_places :
    (words : ℕ → ℕ → ℕ) (pt : PageTable) (ptr len : ℕ)
    → ptr + len < 2 ^ 39
    → (translated_byte_buffer words pt ptr len >>= λ ss. done (places ss))
      ≡ byte_places words pt ptr len
unfolding translated_byte_buffer
translated_byte_buffer-byte_places words pt ptr len h =
    let end : add_usize ptr len ≡ ptr + len = omega arith in
    rw end (slices_from-byte_places words pt len ptr len (omega arith) h)
