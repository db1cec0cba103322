-- ===== src/Drivers/VirtioTests.antt =====
-- Memory for a device at a concrete allocator.
use ch_os.Base.{ℕ, ◌*◌, ◌^◌, ◌≡◌, refl, List, [], ◌∷◌, ◌++◌, arith}
use ch_os.Base.Outcome.{done, panic}
use ch_os.Memory.Address
use ch_os.Memory.Address.Range.{count_up}
use ch_os.Memory.Frames
use ch_os.Memory.PageTable.{Machine}
use ch_os.Drivers.Virtio.{virtio_dma_alloc, virtio_dma_dealloc, release_from}
use ch_os.Drivers.Virtio.Dma.{Taken, virtio_dma_alloc-fresh}
use ch_os.Drivers.Virtio.Reuse.{virtio_dma_alloc-after_dealloc}

abbrev machine : ℕ → List ℕ → Machine
machine current recycled = record {
  words = λ p w. 7;
  allocator = record { current = current; end = 100; recycled = recycled };
}

virtio_dma_alloc-fresh_example :
    (m' : Machine) × (virtio_dma_alloc 2 (9 ∷ []) (machine 20 [])
      ≡ done (20 * 2 ^ 12, 9 ∷ [] ++ count_up 20 2, m'))
    × Taken 2 (machine 20 []) m'
virtio_dma_alloc-fresh_example =
    virtio_dma_alloc-fresh 2 (9 ∷ []) (machine 20 []) (omega arith) refl (omega arith) (omega arith)

given_back : virtio_dma_dealloc (20 * 4096) 2 (machine 22 []) ≡ done (machine 22 (21 ∷ 20 ∷ []))
unfolding virtio_dma_dealloc release_from Address.phys_to_page Address.phys_offset
    Address.phys_floor Frames.dealloc Address.step
given_back = refl

virtio_dma_alloc-after_dealloc_example : virtio_dma_alloc 2 [] (machine 22 (21 ∷ 20 ∷ [])) ≡ panic
virtio_dma_alloc-after_dealloc_example =
    virtio_dma_alloc-after_dealloc (20 * 4096) 0 0 [] (machine 22 []) (machine 22 (21 ∷ 20 ∷ []))
      (omega arith) given_back
