-- ===== src/Blk/Segments.antt =====
-- The transfer of a request reaches the file only within the capacity of the device.
use vart.Common.{
  ℕ, ◌+◌, ◌%◌, ◌^◌, ◌≤◌, ◌≡◌, refl, ap, ◌∙◌, subst, inl, inr, Bool, false, not, List, [], ◌∷◌,
  arith, Bool-cases, ok, err, length, Errno, Result, Status,
}
use vart.Virtio.Defs.{Descriptor}
use vart.Blk.Defs.{Host}
use vart.Blk.Transfer.{fill, drain, deliver, save, transfer, transfer_step, transfer_all}
use vart.Blk.Loops.{IsHost, Whole, Fills, Lands, fill-agree, drain-agree}

-- The host with another file
abbrev pub with_file :
    {W : Type 0}
    → Host W
    → (ℕ → ℕ → W → W × Result (List ℕ))
    → (List ℕ → ℕ → W → W × Result ℕ)
    → Host W
with_file host pread pwrite = record host { pread = pread; pwrite = pwrite }

abbrev pub total_length : List Descriptor → ℕ
total_length [] = 0
total_length (d ∷ ds) = d.length + total_length ds

module _ {W : Type 0} (host : Host W) (laws : IsHost host) (pread : ℕ → ℕ → W → W × Result (List ℕ))
    (pwrite : List ℕ → ℕ → W → W × Result ℕ) (cap : ℕ) (to_guest : Bool)
    (same_read : (n offset : ℕ) (w : W)
      → offset + n ≤ cap
      → host.pread n offset w ≡ pread n offset w)
    (same_write : (bytes : List ℕ) (offset : ℕ) (w : W)
      → to_guest ≡ false
      → offset + length bytes ≤ cap
      → host.pwrite bytes offset w ≡ pwrite bytes offset w) where
  abbrev other : Host W
  other = with_file host pread pwrite

  deliver-agree :
      (d : Descriptor) (end : ℕ) (r : W × Result (List ℕ × ℕ))
      → Fills end r
      → (deliver host d r ≡ deliver other d r) × Lands end (deliver host d r)
  unfolding deliver
  deliver-agree d end (w, err e) h = (refl, tt)
  deliver-agree d end (w, ok (bytes, offset)) h = step (host.dma_write d.address bytes w)
    where
      step :
          (r : W × Status)
          → (elim r.1 as (λ _. W × Result ℕ) [
            | err e ↦ (r.0, err Errno.eio)
            | ok _ ↦ (r.0, ok offset)
          ]
              ≡ elim r.1 as (λ _. W × Result ℕ) [
                | err e ↦ (r.0, err Errno.eio)
                | ok _ ↦ (r.0, ok offset)
              ])
            × Lands end (elim r.1 as (λ _. W × Result ℕ) [
              | err e ↦ (r.0, err Errno.eio)
              | ok _ ↦ (r.0, ok offset)
            ])
      step (v, err e) = (refl, tt)
      step (v, ok _) = (refl, h)

  save-agree :
      to_guest ≡ false
      → (size offset : ℕ) (r : W × Result (List ℕ)) → Whole size r
      → offset + size ≤ cap
      → (save host size offset r ≡ save other size offset r)
        × Lands (offset + size) (save host size offset r)
  unfolding save
  save-agree out size offset (w, err e) h p = (refl, tt)
  save-agree out size offset (w, ok bytes) h p =
      let (a, f) =
        drain-agree host other laws cap (λ bytes offset w. same_write bytes offset w out) size bytes
          offset w (omega arith) (omega arith) in
      (a, subst (λ n. Lands (offset + n) (drain host size bytes offset w)) h f)

  transfer-agree :
      (d : Descriptor) (offset : ℕ) (w : W)
      → offset + d.length ≤ cap
      → (transfer host to_guest d offset w ≡ transfer other to_guest d offset w)
        × Lands (offset + d.length) (transfer host to_guest d offset w)
  unfolding transfer
  transfer-agree d offset w p = elim (Bool-cases (not (host.allocates d.length w))) [
    | inl full ↦ rw full (refl, tt)
    | inr room ↦ elim (Bool-cases to_guest) [
      | inl in_ ↦
          let (a, f) =
            fill-agree host other laws cap same_read d.length d.length offset w (omega arith) p in
          let (b, g) =
            deliver-agree d (offset + d.length) (fill host d.length d.length offset w) f in
          rw (room, in_) (b ∙ ap (deliver other d) a, g)
      | inr out ↦
          rw (room, out)
            (save-agree out d.length offset (host.dma_read d.address d.length w)
              (laws.whole_dma d.address d.length w) p)
    ]
  ]

  pub transfer_all-agree :
      (ds : List Descriptor) (offset used : ℕ) (w : W)
      → offset + total_length ds ≤ cap
      → transfer_all host to_guest ds offset used w ≡ transfer_all other to_guest ds offset used w
  unfolding transfer_all transfer_step
  transfer_all-agree [] offset used w p = refl
  transfer_all-agree (d ∷ ds) offset used w p =
      let (a, f) = transfer-agree d offset w (omega arith) in
      step (transfer host to_guest d offset w) f (transfer_all-agree ds)
      ∙ ap (λ r. transfer_step d.length used (transfer_all other to_guest ds) r) a
    where
      step :
          (r : W × Result ℕ)
          → Lands (offset + d.length) r
          → ((offset used : ℕ) (w : W)
              → offset + total_length ds ≤ cap
              → transfer_all host to_guest ds offset used w
                ≡ transfer_all other to_guest ds offset used w)
          → transfer_step d.length used (transfer_all host to_guest ds) r
            ≡ transfer_step d.length used (transfer_all other to_guest ds) r
      step (v, err e) f again = refl
      step (v, ok next) f again = again next ((used + d.length) % 2 ^ 32) v (omega arith)
