-- ===== src/Dvc/Lookup.antt =====
-- The table of dynamic channels as a map from names to ids and handlers.
use rdesktop.Common.{ℕ, ◌≡◌, ◌≢◌, refl, sym, ◌∙◌, ap, true, false, List, some}
use rdesktop.Common.{Bool-cases, inl, inr, length, ◌==◌, arith, ◌⊎◌}
use rdesktop.Dvc.{Slot, find, is_found, has_hash, has_id, utils_djb2_hash}
use rdesktop.Dvc.{
  dvc_channels_exists, dvc_channels_get_id, dvc_channels_get_by_id, dvc_channels_add,
}
use rdesktop.Dvc.{dvc_channels_set_id, dvc_channels_register}
use rdesktop.Dvc.{invalid_channel}
use rdesktop.Dvc.Slots.{update-Changes, length-Changes, find-Changes, update-none}
use rdesktop.Dvc.Slots.{find-Changes_other, find-Changes_none}

pub ==-differs : (a b : ℕ) → a ≢ b → (a == b) ≡ false
==-differs a b h = ground arith

==-same : (a b : ℕ) → a ≡ b → (a == b) ≡ true
==-same a b h = ground arith

==-at : (a b : ℕ) → (a == b) ≡ true → a ≡ b
==-at a b h = ground arith

some_inj : (a b : Slot) → some a ≡ some b → a ≡ b
some_inj a b h = cc

-- For a name that is in the table, `dvc_channels_set_id` succeeds; the name then has the new id,
-- every name of another hash has the id it had, and the table its length.
pub set_id-get_id :
    (name other : List ℕ) (id : ℕ) (cs : List Slot)
    → dvc_channels_exists name cs ≡ true
    → utils_djb2_hash other ≢ utils_djb2_hash name
    → (cs' : List Slot) × (dvc_channels_set_id name id cs ≡ (true, cs'))
      × (dvc_channels_get_id name cs' ≡ id)
      × (dvc_channels_get_id other cs' ≡ dvc_channels_get_id other cs)
      × (length cs' ≡ length cs)
unfolding dvc_channels_set_id dvc_channels_exists dvc_channels_get_id
set_id-get_id name other id cs present differ =
    let test = has_hash (utils_djb2_hash name) in
    let change : Slot → Slot = λ c. record c { channel_id = id } in
    let (cs', e, step) = update-Changes test change cs present in
    let (c, before, after) = find-Changes test change test (λ c h. h) step (inr (λ c h. h)) in
    (
      cs',
      rw e refl,
      rw (after, dvc_channels_get_id) refl,
      rw
          (
            find-Changes_other test change (has_hash (utils_djb2_hash other))
                (λ c h.
                  let at = ==-at c.hash (utils_djb2_hash name) h in
                  let off = ==-differs c.hash (utils_djb2_hash other) (λ e. differ (sym e ∙ at)) in
                  (off, off))
                step,
            dvc_channels_get_id,
          )
          refl,
      length-Changes test change step,
    )

-- `dvc_channels_register` refuses a name whose hash is in the table, and any name where no slot is
-- free, and leaves the table as it is.
pub register-refused :
    (name : List ℕ) (handler : ℕ) (cs : List Slot)
    → (dvc_channels_exists name cs ≡ true) ⊎ (is_found (find (has_hash 0) cs) ≡ false)
    → dvc_channels_register name handler cs ≡ (false, cs)
unfolding dvc_channels_register dvc_channels_add
register-refused name handler cs (inl present) = rw present refl
register-refused name handler cs (inr full) = elim (Bool-cases (dvc_channels_exists name cs)) [
  | inl present ↦ rw present refl
  | inr absent ↦ rw (absent, update-none (has_hash 0) _ cs full) refl
]

-- From the registration of a name over the server's create request to its data: where the name is
-- new, a slot is free and no slot has the id of the request, the name is registered, takes the id,
-- and a search for the id then finds its handler.
pub register-set_id-get_by_id :
    (name : List ℕ) (handler id : ℕ) (cs : List Slot)
    → dvc_channels_exists name cs ≡ false
    → is_found (find (has_hash 0) cs) ≡ true
    → is_found (find (has_id id) cs) ≡ false
    → id ≢ invalid_channel
    → (cs1 : List Slot) × (cs2 : List Slot) × (dvc_channels_register name handler cs ≡ (true, cs1))
      × (dvc_channels_get_id name cs1 ≡ invalid_channel)
      × (dvc_channels_set_id name id cs1 ≡ (true, cs2))
      × (dvc_channels_get_id name cs2 ≡ id)
      × (dvc_channels_get_by_id id cs2
          ≡ some (record { hash = utils_djb2_hash name; channel_id = id; handler = handler }))
unfolding dvc_channels_register dvc_channels_add dvc_channels_exists dvc_channels_set_id
    dvc_channels_get_id dvc_channels_get_by_id
register-set_id-get_by_id name handler id cs absent free unused valid =
    let hash = utils_djb2_hash name in
    let slot : Slot = record { hash = hash; channel_id = invalid_channel; handler = handler } in
    let (cs1, e1, step1) = update-Changes (has_hash 0) (λ c. slot) cs free in
    let (c1, before1, after1) =
      find-Changes (has_hash 0) (λ c. slot) (has_hash hash) (λ c h. ==-same hash hash refl) step1
        (inl absent) in
    let change : Slot → Slot = λ c. record c { channel_id = id } in
    let (cs2, e2, step2) = update-Changes (has_hash hash) change cs1 (rw after1 refl) in
    let (c2, before2, after2) =
      find-Changes (has_hash hash) change (has_hash hash) (λ c h. h) step2 (inr (λ c h. h)) in
    let fresh =
      find-Changes_none (has_hash 0) (λ c. slot) (has_id id)
        (λ c h. ==-differs invalid_channel id (λ e. valid (sym e))) step1 unused in
    let (c3, before3, after3) =
      find-Changes (has_hash hash) change (has_id id) (λ c h. ==-same id id refl) step2
        (inl fresh) in
    (
      cs1,
      cs2,
      rw (absent, e1) refl,
      rw (after1, dvc_channels_get_id) refl,
      rw e2 refl,
      rw (after2, dvc_channels_get_id) refl,
      after3 ∙ ap (λ c. some (change c)) (some_inj c3 slot (sym before3 ∙ after1)),
    )
