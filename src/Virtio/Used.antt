-- ===== src/Virtio/Used.antt =====
-- What `vart_virtio_queue_push_used` leaves in guest memory, and that numbers written there read back.
use vart.Common.{
  ℕ, zero, suc, ◌+◌, ◌*◌, ◌/◌, ◌%◌, ◌^◌, ◌≤◌, ◌<◌, ◌≡◌, refl, sym, ap, ◌∙◌, subst, ◌⊎◌, inr, some,
  List, [], ◌∷◌, ◌++◌, arith, ok, length, length-append, done,
}
use native.Mathlib.Nat.{mod-lt, mod-eq_of_lt, pow-suc}
use mathlib.Core.List.{append-nil}
use vart.AddressSpace.Access.{copy_in, copy_out}
use vart.AddressSpace.Buffer.{copy_in-outside, copy_out-copy_in, copy_out_agree}
use vart.Virtio.Defs.{DmaCallbacks, Queue, Device, load_le, store_le, store_le16, store_le32}
use vart.Virtio.Queue.{set_queue, queue_get, queue_write, push_index, queue_push_used}
use vart.Virtio.Invariant.{IsRing, IsQueue, IsDevice, queue_get-IsRing}

load_le-cons :
    (b : ℕ) (bytes : List ℕ) (offset n : ℕ)
    → load_le (b ∷ bytes) (suc offset) n ≡ load_le bytes offset n
unfolding load_le
load_le-cons b bytes offset zero = refl
load_le-cons b bytes offset (suc n) = ground (arith, load_le-cons b bytes (offset + 1) n)

-- A little-endian number that fits `n` bytes and was stored in them is loaded as it was, whatever
-- bytes follow.
pub load_le-store_le :
    (n value : ℕ) (rest : List ℕ) → value < 256 ^ n → load_le (store_le n value ++ rest) 0 n ≡ value
unfolding load_le store_le
load_le-store_le zero value rest h = omega arith
load_le-store_le (suc n) value rest h =
    let p = pow-suc 256 n in
    let below : value / 256 < 256 ^ n = omega arith in
    omega (
      arith,
      load_le-cons (value % 256) (store_le n (value / 256) ++ rest) 0 n,
      load_le-store_le n (value / 256) rest below,
    )

load_le-append : (xs ys : List ℕ) (n : ℕ) → load_le (xs ++ ys) (length xs) n ≡ load_le ys 0 n
load_le-append [] ys n = refl
load_le-append (x ∷ xs) ys n = load_le-cons x (xs ++ ys) (length xs) n ∙ load_le-append xs ys n

length-store_le : (n value : ℕ) → length (store_le n value) ≡ n
unfolding store_le
length-store_le zero value = refl
length-store_le (suc n) value = ap suc (length-store_le n (value / 256))

-- Guest memory as a DMA target: reads and writes that always succeed.
unfoldable pub plain_memory : DmaCallbacks (ℕ → ℕ)
plain_memory = record {
  dma_read = λ f opaque address size m. (m, ok (copy_out m address size));
  dma_write = λ f opaque address bytes m. (copy_in m address bytes, done);
}

module _ (d : Device) (i head written : ℕ) (q : Queue) where
  -- Where the element and the index go.
  abbrev element_at : ℕ
  element_at = q.used_address + 4 + q.next_used % q.size * 8

  abbrev index_at : ℕ
  index_at = q.used_address + 2

  abbrev element : List ℕ
  element = store_le32 head ++ store_le32 written

  abbrev used_index : ℕ
  used_index = (q.next_used + 1) % 2 ^ 16

  -- Memory after the two writes.
  abbrev published : (ℕ → ℕ) → ℕ → ℕ
  published m = copy_in (copy_in m element_at element) index_at (store_le16 used_index)

  length-element : length element ≡ 8
  length-element =
      length-append (store_le 4 head) (store_le 4 written)
      ∙ omega (arith, length-store_le 4 head, length-store_le 4 written)

  -- The index lies below the elements.
  element-published : (m : ℕ → ℕ) → copy_out (published m) element_at 8 ≡ element
  element-published m =
      copy_out_agree (published m) (copy_in m element_at element) element_at 8 (λ j l.
        copy_in-outside (copy_in m element_at element) index_at (store_le16 used_index) j
          (inr (omega (arith, length-store_le 2 used_index))))
      ∙ subst (λ n. copy_out (copy_in m element_at element) element_at n ≡ element) length-element
          (copy_out-copy_in m element_at element)

  index-published : (m : ℕ → ℕ) → copy_out (published m) index_at 2 ≡ store_le16 used_index
  index-published m =
      subst (λ n. copy_out (published m) index_at n ≡ store_le16 used_index)
        (length-store_le 2 used_index)
        (copy_out-copy_in (copy_in m element_at element) index_at (store_le16 used_index))

  -- On a queue whose rings are set up, and memory whose DMA succeeds, `vart_virtio_queue_push_used`
  -- succeeds for every head in the table: the element at the slot of the used index holds the head
  -- and the length, the used index in memory is one more modulo 2^16 and so is the device's, and no
  -- other byte of memory changes.
  pub queue_push_used_lem :
      (f : ℕ) (m : ℕ → ℕ)
      → IsDevice d
      → queue_get d i ≡ ok q
      → q.dma.write ≡ some f
      → head < q.size
      → written < 2 ^ 32
      → (v : ℕ → ℕ) × (queue_push_used plain_memory d i head written m
          ≡ (v, set_queue d i (record q { next_used = (q.next_used + 1) % 2 ^ 16 }), done))
        × (load_le (copy_out v element_at 8) 0 4 ≡ head)
        × (load_le (copy_out v element_at 8) 4 4 ≡ written)
        × (load_le (copy_out v index_at 2) 0 2 ≡ (q.next_used + 1) % 2 ^ 16)
        × ((j : ℕ)
            → (j < index_at) ⊎ (index_at + 2 ≤ j)
            → (j < element_at) ⊎ (element_at + 8 ≤ j)
            → v j ≡ m j)
  unfolding queue_push_used push_index queue_write plain_memory
  queue_push_used_lem f m valid got writes inside small =
      let (good, ring, _) = queue_get-IsRing d i q valid got in
      (
        published m,
        pushed good ring,
        ap (λ bytes. load_le bytes 0 4) (element-published m)
            ∙ load_le-store_le 4 head (store_le32 written) (let b = ring.small in omega arith),
        ap (λ bytes. load_le bytes 4 4) (element-published m)
            ∙ subst (λ n. load_le element n 4 ≡ load_le (store_le32 written) 0 4)
                (length-store_le 4 head) (load_le-append (store_le32 head) (store_le32 written) 4)
            ∙ ap (λ bytes. load_le bytes 0 4) (sym (append-nil (store_le32 written)))
            ∙ load_le-store_le 4 written [] small,
        ap (λ bytes. load_le bytes 0 2) (index-published m ∙ sym (append-nil _))
            ∙ load_le-store_le 2 used_index [] (omega arith),
        λ j away far.
            copy_in-outside (copy_in m element_at element) index_at (store_le16 used_index) j
              (omega (arith, length-store_le 2 used_index))
            ∙ copy_in-outside m element_at element j (omega (arith, length-element)),
      )
    where
      pushed :
          IsQueue q
          → IsRing q
          → queue_push_used plain_memory d i head written m
            ≡ (published m, set_queue d i (record q { next_used = used_index }), done)
      pushed good ring =
          let slot = mod-lt q.next_used ring.nonempty in
          let low : element_at < 2 ^ 64 = let u = ring.used_fits in omega arith in
          let lower : index_at < 2 ^ 64 = let u = ring.used_fits in omega arith in
          ground (arith, mod-eq_of_lt low, mod-eq_of_lt lower)
