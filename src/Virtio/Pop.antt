-- ===== src/Virtio/Pop.antt =====
-- What `vart_virtio_queue_pop` takes from a ring that the guest controls.
use vart.Common.{
  ℕ, zero, suc, ◌+◌, ◌-◌, ◌%◌, ◌^◌, ◌≤◌, ◌<◌, ◌≡◌, refl, ap, ◌≢◌, ◌⊎◌, inl, inr, true, false,
  Option, none, some, List, [], ◌∷◌, arith, ltb, leb, ◌==◌, Bool-cases, ok, err, length, get_elem?,
  In, All-of_In, Errno, Result, Result-cases, Once, Once-length,
}
use vart.Virtio.Defs.{
  DmaCallbacks, Descriptor, Chain, Queue, Device, max_queue_size, has_next, is_indirect,
  has_unknown, load_le16,
}
use vart.Virtio.Queue.{
  set_queue, queue_get, walk, decode, visited_at, chain_step, judge, Verdict, then_cons, pop_finish,
  pop_head, pop_index, queue_pop,
}
use vart.Virtio.Invariant.{IsDevice, advanced, queue_get-IsRing}

abbrev Fine : ℕ → List ℕ → ℕ → Descriptor → Type 0
Fine size visited index d =
    (index < size)
    × (visited_at visited index ≡ false)
    × (d.flags < 8)
    × (is_indirect d.flags ≡ false)

-- A chain that begins at `index`: every index is in the table and met for the first time, no
-- descriptor is indirect or has an unknown flag, and exactly the last has no NEXT flag.
abbrev pub IsPath : ℕ → List ℕ → ℕ → List Descriptor → Type 0
IsPath size visited index [] = ⊥
IsPath size visited index (d ∷ []) = Fine size visited index d × (has_next d.flags ≡ false)
IsPath size visited index (d ∷ (e ∷ es)) =
    Fine size visited index d
    × (has_next d.flags ≡ true)
    × IsPath size (index ∷ visited) d.next (e ∷ es)

-- The table indices of a chain that begins at `index`.
abbrev pub indexes : ℕ → List Descriptor → List ℕ
indexes index [] = []
indexes index (d ∷ ds) = index ∷ indexes d.next ds

length-indexes : (index : ℕ) (ds : List Descriptor) → length (indexes index ds) ≡ length ds
length-indexes index [] = refl
length-indexes index (d ∷ ds) = ap suc (length-indexes d.next ds)

visited_at-In : (visited : List ℕ) (i : ℕ) → In i visited → visited_at visited i ≡ true
unfolding visited_at
visited_at-In [] i m = elim m [ ]
visited_at-In (v ∷ vs) i (inl e) = ground arith
visited_at-In (v ∷ vs) i (inr m) = ground (arith, visited_at-In vs i m)

-- The indices of a chain are in the table, differ from one another and from those visited before.
IsPath-fresh :
    (size : ℕ) (visited : List ℕ) (index : ℕ) (ds : List Descriptor)
    → IsPath size visited index ds
    → (i : ℕ) → In i (indexes index ds)
    → (i < size) × (visited_at visited i ≡ false)
unfolding visited_at
IsPath-fresh size visited index [] h i m = elim h [ ]
IsPath-fresh size visited index (d ∷ []) (f, n) i (inl e) = ground arith
IsPath-fresh size visited index (d ∷ []) (f, n) i (inr m) = elim m [ ]
IsPath-fresh size visited index (d ∷ (e ∷ es)) (f, n, h) i (inl same) = ground arith
IsPath-fresh size visited index (d ∷ (e ∷ es)) (f, n, h) i (inr m) =
    let later = IsPath-fresh size (index ∷ visited) d.next (e ∷ es) h i m in ground arith

IsPath-Once :
    (size : ℕ) (visited : List ℕ) (index : ℕ) (ds : List Descriptor)
    → IsPath size visited index ds
    → Once (indexes index ds)
unfolding visited_at
IsPath-Once size visited index [] h = tt
IsPath-Once size visited index (d ∷ []) h = ((λ m. m), tt)
IsPath-Once size visited index (d ∷ (e ∷ es)) (f, n, h) = (
  (λ m.
      let later = IsPath-fresh size (index ∷ visited) d.next (e ∷ es) h index m in
      absurd (ground arith)),
  IsPath-Once size (index ∷ visited) d.next (e ∷ es) h,
)

-- So a chain is no longer than the table.
pub IsPath-length :
    (size index : ℕ) (ds : List Descriptor) → IsPath size [] index ds → length ds ≤ size
IsPath-length size index ds h =
    let short = Once-length size (indexes index ds) (IsPath-Once size [] index ds h) (
      All-of_In (λ i. i < size) (indexes index ds)
        λ i m. (IsPath-fresh size [] index ds h i m).0) in
    omega (arith, length-indexes index ds)

-- What the three verdicts say of the descriptor.
judge-last :
    (q : Queue) (count : ℕ) (d : Descriptor)
    → judge q count d ≡ Verdict.last
    → (d.flags < 8) × (is_indirect d.flags ≡ false) × (has_next d.flags ≡ false)
unfolding judge has_unknown
judge-last q count d h = ground arith

pub judge-goes_on :
    (q : Queue) (count : ℕ) (d : Descriptor)
    → judge q count d ≡ Verdict.goes_on
    → (d.flags < 8)
      × (is_indirect d.flags ≡ false)
      × (has_next d.flags ≡ true)
      × (d.next < q.size)
      × (count ≢ max_queue_size)
unfolding judge has_unknown
judge-goes_on q count d h = ground arith

module _ {W : Type 0} where
  -- An answer of the loop: it ended, and a chain that it returns is one.
  abbrev IsWalk : Queue → ℕ → List ℕ → Option (W × Result (List Descriptor)) → Type 0
  IsWalk q index visited none = ⊥
  IsWalk q index visited (some (v, err e)) = Unit {0}
  IsWalk q index visited (some (v, ok ds)) = IsPath q.size visited index ds

  IsWalk-cons :
      (q : Queue) (index : ℕ) (visited : List ℕ) (d : Descriptor)
      (rest : Option (W × Result (List Descriptor)))
      → Fine q.size visited index d
      → has_next d.flags ≡ true
      → IsWalk q d.next (index ∷ visited) rest
      → IsWalk q index visited (then_cons d rest)
  unfolding then_cons
  IsWalk-cons q index visited d none f n h = h
  IsWalk-cons q index visited d (some (v, err e)) f n h = tt
  IsWalk-cons q index visited d (some (v, ok [])) f n h = elim h [ ]
  IsWalk-cons q index visited d (some (v, ok (e ∷ es))) f n h = (f, n, h)

pub Verdict-cases :
    (v : Verdict)
    → ((e : Errno) × (v ≡ Verdict.fails e)) ⊎ (v ≡ Verdict.last) ⊎ (v ≡ Verdict.goes_on)
Verdict-cases (Verdict.fails e) = inl (e, refl)
Verdict-cases Verdict.last = inr (inl refl)
Verdict-cases Verdict.goes_on = inr (inr refl)

module _ {W : Type 0} where
  -- What `vart_virtio_queue_pop` may answer on the queue `i`.
  abbrev pub IsPop : Device → ℕ → Option (W × Device × Result Chain) → Type 0
  IsPop d i none = ⊥
  IsPop d i (some (v, e, err _)) = e ≡ d
  IsPop d i (some (v, e, ok chain)) =
      (q : Queue) × (get_elem? d.queues i ≡ some q)
      × (e ≡ set_queue d i (advanced q))
      × (chain.count ≡ length chain.descriptors)
      × (chain.count ≤ q.size)
      × IsPath q.size [] chain.head chain.descriptors

  finish-IsPop :
      (d : Device) (i : ℕ) (q : Queue) (head : ℕ) (ret : Option (W × Result (List Descriptor)))
      → get_elem? d.queues i ≡ some q
      → IsWalk q head [] ret
      → IsPop d i (pop_finish d i q head ret)
  unfolding pop_finish
  finish-IsPop d i q head none g h = h
  finish-IsPop d i q head (some (v, err e)) g h = refl
  finish-IsPop d i q head (some (v, ok ds)) g h =
      (q, g, refl, refl, IsPath-length q.size head ds h, h)

module _ {W : Type 0} (c : DmaCallbacks W) where
  step-IsWalk :
      (q : Queue) (index count : ℕ) (visited : List ℕ)
      (next : ℕ → W → Option (W × Result (List Descriptor))) (ret : W × Result (List ℕ))
      → index < q.size
      → visited_at visited index ≡ false
      → ((i : ℕ) (v : W)
          → i < q.size
          → count ≢ max_queue_size
          → IsWalk q i (index ∷ visited) (next i v))
      → IsWalk q index visited (chain_step q count next ret)
  unfolding chain_step
  step-IsWalk q index count visited next (v, err e) inside first ends = tt
  step-IsWalk q index count visited next (v, ok bytes) inside first ends =
      elim (Verdict-cases (judge q count (decode bytes))) [
        | inl (e, bad) ↦ rw (bad, chain_step) tt
        | inr (inl end) ↦
            rw (end, chain_step)
              (let (a, b, n) = judge-last q count (decode bytes) end in ((inside, first, a, b), n))
        | inr (inr on) ↦
            rw (on, chain_step)
              (let (a, b, n, below, room) = judge-goes_on q count (decode bytes) on in
                IsWalk-cons q index visited (decode bytes) _ (inside, first, a, b) n
                  (ends (decode bytes).next v below room))
      ]

  -- With as much fuel as descriptors may still be read, the loop ends.
  walk-IsWalk :
      (fuel : ℕ) (q : Queue) (index count : ℕ) (visited : List ℕ) (w : W)
      → index < q.size
      → count < max_queue_size
      → count + fuel ≡ max_queue_size
      → IsWalk q index visited (walk c fuel q index count visited w)
  unfolding walk
  walk-IsWalk zero q index count visited w inside room enough = absurd (omega arith)
  walk-IsWalk (suc fuel) q index count visited w inside room enough =
      elim (Bool-cases (visited_at visited index)) [
        | inl again ↦ rw again tt
        | inr first ↦ rw first (
            step-IsWalk q index (count + 1) visited _ _ inside first (λ i v below ne.
              walk-IsWalk fuel q i (count + 1) (index ∷ visited) v below (omega arith)
                (omega arith)))
      ]

  head-IsPop :
      (d : Device) (i : ℕ) (q : Queue) (ret : W × Result (List ℕ))
      → get_elem? d.queues i ≡ some q
      → IsPop d i (pop_head c d i q ret)
  unfolding pop_head
  head-IsPop d i q (v, err e) g = refl
  head-IsPop d i q (v, ok raw) g = elim (Bool-cases (leb q.size (load_le16 raw 0))) [
    | inl bad ↦ rw bad refl
    | inr good ↦ rw good (
        finish-IsPop d i q (load_le16 raw 0) _ g (
          walk-IsWalk max_queue_size q (load_le16 raw 0) 0 [] v (ground arith) (omega arith)
            (omega arith)))
  ]

  index-IsPop :
      (d : Device) (i : ℕ) (q : Queue) (ret : W × Result (List ℕ))
      → get_elem? d.queues i ≡ some q
      → IsPop d i (pop_index c d i q ret)
  unfolding pop_index
  index-IsPop d i q (v, err e) g = refl
  index-IsPop d i q (v, ok raw) g = elim (Bool-cases (load_le16 raw 0 == q.last_avail)) [
    | inl empty ↦ rw empty refl
    | inr pending ↦
        elim (Bool-cases (ltb q.size ((load_le16 raw 0 + 2 ^ 16 - q.last_avail) % 2 ^ 16))) [
          | inl too_many ↦ rw (pending, too_many) refl
          | inr fits ↦ rw (pending, fits) (head-IsPop d i q _ g)
        ]
  ]

  -- `vart_virtio_queue_pop` always ends, whatever the guest's memory holds. On an error the device is
  -- as it was. On success only the consumption index of the queue has moved, by one modulo 2^16, and
  -- the chain has as many descriptors as it says, at most the queue's size: they begin at its head,
  -- follow the `next` fields through table indices that are below the size and never repeat, none is
  -- indirect or has an unknown flag, and exactly the last has no NEXT flag.
  pub queue_pop_lem : (d : Device) (i : ℕ) (w : W) → IsDevice d → IsPop d i (queue_pop c d i w)
  unfolding queue_pop
  queue_pop_lem d i w v = elim (Result-cases (queue_get d i)) [
    | inr (e, failed) ↦ rw (failed, queue_pop) refl
    | inl (q, got) ↦ rw (got, queue_pop) (index-IsPop d i q _ (queue_get-IsRing d i q v got).2)
  ]
