-- ===== src/Drivers/Virtio.antt =====
-- os/src/drivers/block/virtio_blk.rs: the memory that the driver of virtio devices asks for. A frame
-- that is taken stays in `QUEUE_FRAMES`, here `queue`.
pub mod Dma
pub mod Reuse
use ch_os.Base.{ℕ, zero, suc, ◌+◌, List, [], ◌∷◌, ◌++◌, Option, none, some, ◌==◌, if◌then◌else◌}
use ch_os.Base.Bits.{add_usize}
use ch_os.Base.Outcome.{Outcome, done, panic, assert, unwrap, ◌>>=◌, ◌>>◌}
use ch_os.Memory.Address.{page_to_phys, phys_to_page, step, virt_addr}
use ch_os.Memory.Frames.{StackFrameAllocator, dealloc}
use ch_os.Memory.PageTable.{Machine, PageTable, frame_alloc, translate_va}

-- The loop of `virtio_dma_alloc`, `left` rounds from the round `i` on.
unfoldable pub dma_from : ℕ → ℕ → ℕ → List ℕ → Machine → Outcome (ℕ × List ℕ × Machine)
dma_from zero i ppn_base queue m = done (ppn_base, queue, m)
dma_from (suc left) i ppn_base queue m = do
  (frame, m') ← frame_alloc m
  let base = if i == 0 then frame else ppn_base
  assert (frame == add_usize base i)
  dma_from left (i + 1) base (queue ++ frame ∷ []) m'

unfoldable pub virtio_dma_alloc : ℕ → List ℕ → Machine → Outcome (ℕ × List ℕ × Machine)
virtio_dma_alloc pages queue m = do
  (ppn_base, queue', m') ← dma_from pages 0 0 queue m
  done (page_to_phys ppn_base, queue', m')

-- The loop of `virtio_dma_dealloc`. The frames stay in `QUEUE_FRAMES`.
unfoldable pub release_from : ℕ → ℕ → StackFrameAllocator → Outcome StackFrameAllocator
release_from zero ppn_base s = done s
release_from (suc pages) ppn_base s = do
  s' ← dealloc s ppn_base
  release_from pages (step ppn_base) s'

unfoldable pub virtio_dma_dealloc : ℕ → ℕ → Machine → Outcome Machine
virtio_dma_dealloc pa pages m = do
  ppn_base ← phys_to_page pa
  allocator' ← release_from pages ppn_base m.allocator
  done (record m { allocator = allocator' })

pub virtio_phys_to_virt : ℕ → ℕ
virtio_phys_to_virt paddr = paddr

-- Through the kernel's page table.
pub virtio_virt_to_phys : PageTable → ℕ → Machine → Outcome ℕ
virtio_virt_to_phys kernel vaddr m = unwrap (translate_va m.words kernel vaddr)
