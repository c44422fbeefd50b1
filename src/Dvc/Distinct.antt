-- ===== src/Dvc/Distinct.antt =====
-- The invariant of the table of dynamic channels.
use rdesktop.Common.{ℕ, ◌≡◌, ◌≢◌, refl, sym, ◌∙◌, Bool, true, false, List, [], ◌∷◌}
use rdesktop.Common.{Bool-cases, inl, inr, ◌==◌, arith, All, ◌⊎◌}
use rdesktop.Dvc.{Slot, find, update, is_found, has_hash, has_id, utils_djb2_hash, updated}
use rdesktop.Dvc.{dvc_channels_exists, dvc_channels_add, dvc_channels_set_id, free_slot}
use rdesktop.Dvc.{dvc_channels_remove_by_id}
use mathlib.Core.Path.{subst}
use rdesktop.Dvc.Slots.{Changes, here, there, update-Changes, update-none}

-- No two slots in use share a hash.
abbrev pub IsDistinct : List Slot → Type 0
IsDistinct [] = Unit
IsDistinct (c ∷ cs) = ((c.hash ≡ 0) ⊎ All (λ d. d.hash ≢ c.hash) cs) × IsDistinct cs

module _ (test : Slot → Bool) (change : Slot → Slot) where
  -- A hash that the changed slot does not get stays apart from all.
  All-Changes :
      (h : ℕ) {cs cs' : List Slot}
      → Changes test change cs cs'
      → ((c : Slot) → test c ≡ true → c.hash ≢ h → (change c).hash ≢ h)
      → All (λ d. d.hash ≢ h) cs
      → All (λ d. d.hash ≢ h) cs'
  All-Changes h (here c cs at) kept (apart, all) = (kept c at apart, all)
  All-Changes h (there c cs cs' past step) kept (apart, all) = (apart, All-Changes h step kept all)

  -- A changed slot that is free, or has a hash of no other slot.
  IsDistinct-placed :
      (v : ℕ) {cs cs' : List Slot}
      → ((c : Slot) → (change c).hash ≡ v)
      → ((v ≡ 0) ⊎ All (λ d. d.hash ≢ v) cs)
      → Changes test change cs cs'
      → IsDistinct cs
      → IsDistinct cs'
  IsDistinct-placed v is_v new (here c cs at) (head, rest) = (
    elim new [
      | inl free ↦ inl (is_v c ∙ free)
      | inr apart ↦ inr (subst (λ w. All (λ d. d.hash ≢ w) cs) (sym (is_v c)) apart.1)
    ],
    rest,
  )
  IsDistinct-placed v is_v new (there c cs cs' past step) (head, rest) = (
    elim (Bool-cases (c.hash == 0)) [
      | inl free ↦ inl (ground arith)
      | inr used ↦ elim head [
        | inl zero_ ↦ inl zero_
        | inr all ↦ inr (All-Changes c.hash step (λ d at off. placed_apart c new used d) all)
      ]
    ],
    IsDistinct-placed v is_v (elim new [ inl free ↦ inl free | inr apart ↦ inr apart.1 ]) step rest,
  )
    where
      placed_apart :
          (c : Slot)
          → ((v ≡ 0) ⊎ All (λ d. d.hash ≢ v) (c ∷ cs))
          → (c.hash == 0) ≡ false
          → (d : Slot) → (change d).hash ≢ c.hash
      placed_apart c (inl free) used d = λ e. absurd (let z = is_v d in ground arith)
      placed_apart c (inr apart) used d = λ e. absurd (apart.0 (sym e ∙ is_v d))

  -- A change that keeps the hash.
  IsDistinct-kept :
      {cs cs' : List Slot}
      → ((c : Slot) → (change c).hash ≡ c.hash)
      → Changes test change cs cs'
      → IsDistinct cs
      → IsDistinct cs'
  IsDistinct-kept same (here c cs at) (head, rest) = (rw same head, rest)
  IsDistinct-kept same (there c cs cs' past step) (head, rest) = (
    elim head [
      | inl free ↦ inl free
      | inr all ↦ inr (All-Changes c.hash step (λ d at off. rw same off) all)
    ],
    IsDistinct-kept same step rest,
  )

-- A search for a hash that finds none.
absent-All :
    (h : ℕ) (cs : List Slot) → is_found (find (has_hash h) cs) ≡ false → All (λ d. d.hash ≢ h) cs
unfolding find
absent-All h [] e = tt
absent-All h (c ∷ cs) e = elim (Bool-cases (c.hash == h)) [
  | inl finds ↦ absurd (let t = rw finds at e in cc)
  | inr skips ↦ ((λ same. absurd (ground arith)), absent-All h cs (rw skips at e))
]

-- What an update makes of the table, or the table where it finds nothing.
updated-IsDistinct :
    (test : Slot → Bool) (change : Slot → Slot) (cs : List Slot)
    → ((cs' : List Slot) → Changes test change cs cs' → IsDistinct cs')
    → IsDistinct cs
    → IsDistinct (updated cs (update test change cs)).1
updated-IsDistinct test change cs changed before = elim (Bool-cases (is_found (find test cs))) [
  | inl some_ ↦ let (cs', e, step) = update-Changes test change cs some_ in rw e (changed cs' step)
  | inr none_ ↦ rw (update-none test change cs none_) before
]

-- Every function that changes the table keeps the hashes of the slots in use distinct: the
-- registration of any name, the setting of an id, and the removal of a channel.
pub table-IsDistinct :
    (name : List ℕ) (handler id : ℕ) (cs : List Slot)
    → IsDistinct cs
    → IsDistinct (dvc_channels_add name handler id cs).1
      × IsDistinct (dvc_channels_set_id name id cs).1
      × IsDistinct (dvc_channels_remove_by_id id cs).1
unfolding dvc_channels_add dvc_channels_set_id dvc_channels_remove_by_id dvc_channels_exists
table-IsDistinct name handler id cs distinct =
    let hash = utils_djb2_hash name in
    let slot : Slot = record { hash = hash; channel_id = id; handler = handler } in
    let change : Slot → Slot = λ c. record c { channel_id = id } in
    (
      elim (Bool-cases (dvc_channels_exists name cs)) [
        | inl present ↦ rw present distinct
        | inr absent ↦ rw absent (
            updated-IsDistinct (has_hash 0) (λ c. slot) cs
              (λ cs' step.
                IsDistinct-placed (has_hash 0) (λ c. slot) hash (λ c. refl)
                  (inr (absent-All hash cs absent)) step distinct)
              distinct)
      ],
      updated-IsDistinct (has_hash hash) change cs
          (λ cs' step. IsDistinct-kept (has_hash hash) change (λ c. refl) step distinct) distinct,
      updated-IsDistinct (has_id id) (λ c. free_slot) cs
          (λ cs' step.
            IsDistinct-placed (has_id id) (λ c. free_slot) 0 (λ c. refl) (inl refl) step distinct)
          distinct,
    )
