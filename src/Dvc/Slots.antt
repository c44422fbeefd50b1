-- ===== src/Dvc/Slots.antt =====
-- `find` and `update`: the searches that the functions of dvc.c make.
use rdesktop.Common.{◌≡◌, refl, ap, Bool, true, false, List, [], ◌∷◌, some, none}
use rdesktop.Common.{Bool-cases, inl, inr, length, suc, ◌⊎◌}
use rdesktop.Dvc.{Slot, find, update, is_found}

-- The first slot that passes the test is the one that changes.
pub data Changes (test : Slot → Bool) (change : Slot → Slot) : List Slot → List Slot → Type 0 where
  here : (c : Slot) (cs : List Slot) → test c ≡ true → Changes test change (c ∷ cs) (change c ∷ cs)
  there :
      (c : Slot) (cs cs' : List Slot)
      → test c ≡ false
      → Changes test change cs cs'
      → Changes test change (c ∷ cs) (c ∷ cs')

module _ (test : Slot → Bool) (change : Slot → Slot) where
  -- An update is one where a search finds.
  pub update-Changes :
      (cs : List Slot)
      → is_found (find test cs) ≡ true
      → (cs' : List Slot) × (update test change cs ≡ some cs') × Changes test change cs cs'
  unfolding find update
  update-Changes [] h = absurd cc
  update-Changes (c ∷ cs) h = elim (Bool-cases (test c)) [
    | inl at ↦ (change c ∷ cs, rw at refl, here c cs at)
    | inr past ↦
        let (cs', e, step) = update-Changes cs (rw past at h) in
        (c ∷ cs', rw (past, e) refl, there c cs cs' past step)
  ]

  pub update-none :
      (cs : List Slot) → is_found (find test cs) ≡ false → update test change cs ≡ none
  unfolding find update
  update-none [] h = refl
  update-none (c ∷ cs) h = elim (Bool-cases (test c)) [
    | inl at ↦ absurd (let t = rw at at h in cc)
    | inr past ↦ rw (past, update-none cs (rw past at h)) refl
  ]

  pub length-Changes : {cs cs' : List Slot} → Changes test change cs cs' → length cs' ≡ length cs
  length-Changes (here c cs at) = refl
  length-Changes (there c cs cs' past step) = ap suc (length-Changes step)

  module _ (seek : Slot → Bool) where
    -- A test that the changed slot passes, and none before it did, finds the changed slot.
    pub find-Changes :
        {cs cs' : List Slot}
        → ((c : Slot) → test c ≡ true → seek (change c) ≡ true)
        → Changes test change cs cs'
        → is_found (find seek cs) ≡ false ⊎ ((c : Slot) → test c ≡ false → seek c ≡ false)
        → (c : Slot) × (find test cs ≡ some c) × (find seek cs' ≡ some (change c))
    unfolding find
    find-Changes made (here c cs at) apart = (c, rw at refl, rw (made c at) refl)
    find-Changes made (there c cs cs' past step) apart =
        let skips : seek c ≡ false = elim apart [
          | inl missing ↦ elim (Bool-cases (seek c)) [
            | inl finds ↦ absurd (let t = rw finds at missing in cc)
            | inr skip ↦ skip
          ]
          | inr all ↦ all c past
        ] in
        let (found, before, after) =
          find-Changes made step
            (elim apart [ inl missing ↦ inl (rw skips at missing) | inr all ↦ inr all ]) in
        (found, rw past before, rw skips after)

    -- A test that the changed slot fails before and after finds what it found.
    pub find-Changes_other :
        {cs cs' : List Slot}
        → ((c : Slot) → test c ≡ true → (seek c ≡ false) × (seek (change c) ≡ false))
        → Changes test change cs cs'
        → find seek cs' ≡ find seek cs
    unfolding find
    find-Changes_other apart (here c cs at) = rw ((apart c at).0, (apart c at).1) refl
    find-Changes_other apart (there c cs cs' past step) = rw (find-Changes_other apart step) refl

-- What a search finds passes the test.
pub find-passes :
    (test : Slot → Bool) (cs : List Slot) {c : Slot} → find test cs ≡ some c → test c ≡ true
unfolding find
find-passes test [] h = absurd cc
find-passes test (d ∷ cs) {c} h = elim (Bool-cases (test d)) [
  | inl at ↦ let e = rw at at h in cc
  | inr past ↦ find-passes test cs (rw past at h)
]

-- Where none passes before the change, and what changes does not, none passes after it.
pub find-Changes_none :
    (test : Slot → Bool) (change : Slot → Slot) (seek : Slot → Bool) {cs cs' : List Slot}
    → ((c : Slot) → test c ≡ true → seek (change c) ≡ false)
    → Changes test change cs cs'
    → is_found (find seek cs) ≡ false
    → is_found (find seek cs') ≡ false
unfolding find
find-Changes_none test change seek apart (here c cs at) none_found = elim (Bool-cases (seek c)) [
  | inl finds ↦ absurd (let t = rw finds at none_found in cc)
  | inr skip ↦ rw (apart c at) (rw skip at none_found)
]
find-Changes_none test change seek apart (there c cs cs' past step) none_found =
    elim (Bool-cases (seek c)) [
      | inl finds ↦ absurd (let t = rw finds at none_found in cc)
      | inr skip ↦ rw skip (find-Changes_none test change seek apart step (rw skip at none_found))
    ]
