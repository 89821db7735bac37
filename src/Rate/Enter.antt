-- ===== src/Rate/Enter.antt =====
-- Bytes enter the window: into a new item, or into the last one.
use bifrost_sdk.Base.{
  ℕ, ◌+◌, ◌-◌, ◌*◌, ◌≤◌, ◌<◌, ◌≡◌, refl, ap, ◌∙◌, true, false, Bool-cases, inl, inr, leb,
  if◌then◌else◌, some, List, [], ◌∷◌, length, get_elem?, set, get_elem?-set_self, get_elem?-set_ne,
  arith,
}
use bifrost_sdk.Rate.{BufferItem, next_index}
use bifrost_sdk.Rate.Window.{steps, steps_next, Holds, total, last_time}

abbrev pub item : ℕ → ℕ → BufferItem
item size now_ms = record { count = size; time = now_ms }

-- The bytes go into the last item, if that is less than `gap` old, and into a new one otherwise.
unfoldable pub add_bytes : ℕ → ℕ → ℕ → List BufferItem → List BufferItem
add_bytes gap size now_ms [] = item size now_ms ∷ []
add_bytes gap size now_ms (it ∷ []) =
    if leb gap (now_ms - it.time)
    then it ∷ item size now_ms ∷ []
    else record it { count = it.count + size } ∷ []
add_bytes gap size now_ms (it ∷ next ∷ items) = it ∷ add_bytes gap size now_ms (next ∷ items)

-- It starts with an item of the same time.
add_bytes-head :
    (gap size now_ms : ℕ) (it : BufferItem) (items : List BufferItem)
    → (x : BufferItem) × (rest : List BufferItem) × (add_bytes gap size now_ms (it ∷ items)
        ≡ x ∷ rest)
      × (x.time ≡ it.time)
unfolding add_bytes
add_bytes-head gap size now_ms it [] = elim (Bool-cases (leb gap (now_ms - it.time))) [
  | inl e ↦ (it, item size now_ms ∷ [], rw e refl, refl)
  | inr e ↦ (record it { count = it.count + size }, [], rw e refl, refl)
]
add_bytes-head gap size now_ms it (next ∷ items) =
    (it, add_bytes gap size now_ms (next ∷ items), refl, refl)

module _ (n gap w size now_ms : ℕ) where
  -- Writing a new item to the free slot behind the newest.
  pub Holds-push :
      (ring : List BufferItem) (o : ℕ) (it : BufferItem) (items : List BufferItem)
      → o < n
      → w < n
      → length ring ≡ n
      → length items ≡ steps n o w
      → steps n o (next_index n w) ≡ length items + 1
      → gap ≤ now_ms - last_time it items
      → last_time it items ≤ now_ms
      → Holds n gap w ring o (it ∷ items)
      → Holds n gap
          (next_index n w)
          (set ring (next_index n w) (item size now_ms))
          o
          (add_bytes gap size now_ms (it ∷ items))
  unfolding Holds last_time add_bytes
  Holds-push ring o it [] a b l s e g c h =
      let k = next_index n w in
      let new = item size now_ms in
      let t : leb gap (now_ms - it.time) ≡ true = ground arith in
      rw t (
        get_elem?-set_ne ring new (ground arith) ∙ h.0,
        omega arith,
        (rw (h.1) (get_elem?-set_self ring k new (ground arith)), rw (h.1) refl),
      )
  Holds-push ring o it (next ∷ items) a b l s e g c h =
      let k = next_index n w in
      let new = item size now_ms in
      let (x, rest, eq, tm) = add_bytes-head gap size now_ms next items in
      let m = steps_next n gap w o w a b (omega (arith, s)) in
      let m' = steps_next n gap w o k a (ground arith) (omega (arith, e)) in
      let ih =
        Holds-push ring (next_index n o) next items (ground arith) b l (omega (arith, s, m))
          (omega (arith, e, m')) g c h.2 in
      rw eq (get_elem?-set_ne ring new (ground (arith, e)) ∙ h.0, rw tm (h.1), (rw eq at ih))

  -- Adding to the newest item.
  pub Holds-add :
      (ring : List BufferItem) (o : ℕ) (it last : BufferItem) (items : List BufferItem)
      → o < n
      → w < n
      → length ring ≡ n
      → length items ≡ steps n o w
      → get_elem? ring w ≡ some last
      → now_ms - last_time it items < gap
      → Holds n gap w ring o (it ∷ items)
      → Holds n gap w
          (set ring w (record last { count = last.count + size }))
          o
          (add_bytes gap size now_ms (it ∷ items))
  unfolding Holds last_time add_bytes
  Holds-add ring o it last [] a b l s f g h =
      let t : leb gap (now_ms - it.time) ≡ false = ground arith in
      let same : last ≡ it = ground (arith, h.0, h.1) in
      rw t (
        rw (h.1, same)
            (get_elem?-set_self ring w (record it { count = it.count + size }) (ground arith)),
        h.1,
      )
  Holds-add ring o it last (next ∷ items) a b l s f g h =
      let new = record last { count = last.count + size } in
      let (x, rest, eq, tm) = add_bytes-head gap size now_ms next items in
      let m = steps_next n gap w o w a b (omega (arith, s)) in
      let ih =
        Holds-add ring (next_index n o) next last items (ground arith) b l (omega (arith, s, m)) f g
          h.2 in
      rw eq (get_elem?-set_ne ring new (ground (arith, s)) ∙ h.0, rw tm (h.1), (rw eq at ih))

  -- The newest item.
  pub Holds-last :
      (ring : List BufferItem) (o : ℕ) (it : BufferItem) (items : List BufferItem)
      → Holds n gap w ring o (it ∷ items)
      → (last : BufferItem) × (get_elem? ring w ≡ some last) × (last.count ≤ total (it ∷ items))
  unfolding Holds total
  Holds-last ring o it [] h = (it, rw (← h.1) (h.0), omega arith)
  Holds-last ring o it (next ∷ items) h =
      let (last, e, l) = Holds-last ring (next_index n o) next items h.2 in
      (last, e, omega (arith, l))

  -- Items that are `gap` apart take their time.
  pub spaced :
      (ring : List BufferItem) (o : ℕ) (it : BufferItem) (items : List BufferItem)
      → Holds n gap w ring o (it ∷ items)
      → it.time + length items * gap ≤ last_time it items
  unfolding Holds last_time
  spaced ring o it [] h = omega arith
  spaced ring o it (next ∷ items) h =
      grind (arith, spaced ring (next_index n o) next items h.2, h.1)

pub total-add_bytes :
    (gap size now_ms : ℕ) (items : List BufferItem)
    → total (add_bytes gap size now_ms items) ≡ total items + size
unfolding total add_bytes
total-add_bytes gap size now_ms [] = omega arith
total-add_bytes gap size now_ms (it ∷ []) = ground arith
total-add_bytes gap size now_ms (it ∷ next ∷ items) =
    omega (arith, total-add_bytes gap size now_ms (next ∷ items))

-- The shape of the window with the bytes, by whether the last item is older than the gap.
abbrev pub Added : ℕ → ℕ → BufferItem → List BufferItem → BufferItem → List BufferItem → Type 0
Added gap now_ms it items x rest =
    (x.time ≡ it.time)
    × (gap ≤ now_ms - last_time it items
        → (last_time x rest ≡ now_ms) × (length rest ≡ length items + 1))
    × (now_ms - last_time it items < gap
        → (last_time x rest ≡ last_time it items) × (length rest ≡ length items))

pub add_bytes-Added :
    (gap size now_ms : ℕ) (it : BufferItem) (items : List BufferItem)
    → (x : BufferItem) × (rest : List BufferItem) × (add_bytes gap size now_ms (it ∷ items)
        ≡ x ∷ rest)
      × Added gap now_ms it items x rest
unfolding add_bytes last_time
add_bytes-Added gap size now_ms it [] = elim (Bool-cases (leb gap (now_ms - it.time))) [
  | inl e ↦
      (it, item size now_ms ∷ [], rw e refl, (refl, (λ l. (refl, omega arith)), λ l. ground arith))
  | inr e ↦ (
    record it { count = it.count + size },
    [],
    rw e refl,
    (refl, (λ l. ground arith), λ l. (refl, refl)),
  )
]
add_bytes-Added gap size now_ms it (next ∷ items) =
    let (x, rest, e, a) = add_bytes-Added gap size now_ms next items in
    (
      it,
      x ∷ rest,
      ap (λ xs. it ∷ xs) e,
      (
        refl,
        (λ l. ((a.1 l).0, omega (arith, (a.1 l).1))),
        λ l. ((a.2 l).0, omega (arith, (a.2 l).1)),
      ),
    )
