-- ===== src/Service/Meta/Writes.antt =====
-- What MetaWrite stores, and what MetaDelete removes.
use talemu.Prelude.{
  ℕ, Text, Bool, true, false, ◌==◌, if◌then◌else◌, ◌≡◌, refl, ◌⊎◌, inl, inr, arith, Bool-cases,
}
use talemu.Cosi.{not_found, ok, err, Resource, running, fresh, State, IsState, Present}
use talemu.Cosi.Laws.{create_self, update_self, destroy_self}
use talemu.Service.{Code, status, Machine, done, fault, pure}
use talemu.Service.Installer.{destroy_resource}
use talemu.Service.Meta.{
  MetaTags, token_id, system_information_id, key_id, create_or_update_unique_token,
  override_node_uuid, put_meta_key, meta_write, meta_delete,
}

-- A resource that is there and not torn down, or is not there: it can be written.
abbrev pub IsWritable : (s : State) {A : Type 0} → s.Coll A → Text → Type 0
IsWritable s {A} c i =
    (s.get c i ≡ err not_found) ⊎ ((r : Resource A) × (s.get c i ≡ ok r) × (r.phase ≡ running))

module _ {s : State} (laws : IsState s) where
  token_lem :
      (value : Text) (w : Machine s)
      → IsWritable s w.tokens token_id
      → (c : s.Coll Text) × (create_or_update_unique_token value w
          ≡ (done tt, record w { tokens = c }))
        × Present s c token_id value
  unfolding create_or_update_unique_token
  token_lem value w (inl h) =
      let made = create_self laws w.tokens token_id value h in
      (
        (s.create w.tokens token_id value).1,
        ground (arith, made),
        (fresh token_id value, made.1, refl, refl),
      )
  token_lem value w (inr (r, h, p)) =
      let set = update_self laws w.tokens token_id (λ _. ok value) h p refl in
      (
        (s.update w.tokens token_id (λ _. ok value)).1,
        ground (arith, set),
        (record r { value = value }, set.1, p, refl),
      )

  uuid_lem :
      (uuid : Text) (w : Machine s) {now : Text}
      → Present s w.system_information system_information_id now
      → (c : s.Coll Text) × (override_node_uuid uuid w
          ≡ (done tt, record w { system_information = c }))
        × Present s c system_information_id uuid
  unfolding override_node_uuid
  uuid_lem uuid w (r, h, p, _) =
      let set =
        update_self laws w.system_information system_information_id (λ _. ok uuid) h p refl in
      (
        (s.update w.system_information system_information_id (λ _. ok uuid)).1,
        ground (arith, set),
        (record r { value = uuid }, set.1, p, refl),
      )

  key_lem :
      (id value : Text) (w : Machine s)
      → IsWritable s w.meta_keys id
      → (c : s.Coll Text) × (put_meta_key id value w ≡ (done tt, record w { meta_keys = c }))
        × Present s c id value
  unfolding put_meta_key
  key_lem id value w (inl h) =
      let made = create_self laws w.meta_keys id value h in
      (
        (s.create w.meta_keys id value).1,
        ground (arith, made),
        (fresh id value, made.1, refl, refl),
      )
  key_lem id value w (inr (r, h, p)) =
      let set = update_self laws w.meta_keys id (λ _. ok value) h p refl in
      (
        (s.update w.meta_keys id (λ _. ok value)).1,
        ground (arith, laws.create_present Text w.meta_keys id value h, set),
        (record r { value = value }, set.1, p, refl),
      )

  -- The two writes before the key's, each with what it leaves.
  maybe_token :
      (k : ℕ) (value token : Text) (w : Machine s)
      → Present s w.tokens token_id token
      → (c : s.Coll Text) × ((if k == 16 then create_or_update_unique_token value else pure tt) w
          ≡ (done tt, record w { tokens = c }))
        × Present s c token_id (if k == 16 then value else token)
  maybe_token k value token w (r, h, p, e) = elim (Bool-cases (k == 16)) [
    | inl y ↦ rw y (token_lem value w (inr (r, h, p)))
    | inr y ↦ rw y (w.tokens, refl, (r, h, p, e))
  ]

  maybe_uuid :
      (b : Bool) (value uuid : Text) (w : Machine s)
      → Present s w.system_information system_information_id uuid
      → (c : s.Coll Text) × ((if b then override_node_uuid value else pure tt) w
          ≡ (done tt, record w { system_information = c }))
        × Present s c system_information_id (if b then value else uuid)
  maybe_uuid true value uuid w h = uuid_lem value w h
  maybe_uuid false value uuid w h = (w.system_information, refl, h)

  write_steps :
      (tags : MetaTags) (k : ℕ) (value : Text) (w w₁ w₂ w₃ : Machine s)
      → (if k == 16 then create_or_update_unique_token value else pure tt) w ≡ (done tt, w₁)
      → (if k == tags.uuid_override then override_node_uuid value else pure tt) w₁ ≡ (done tt, w₂)
      → put_meta_key (key_id tags k) value w₂ ≡ (done tt, w₃)
      → meta_write tags k value w ≡ (done tt, w₃)
  unfolding meta_write
  write_steps tags k value w w₁ w₂ w₃ h₁ h₂ h₃ = ground arith

  delete_present :
      (tags : MetaTags) (k : ℕ) (w : Machine s) {r : Resource Text}
      → s.get w.meta_keys (key_id tags k) ≡ ok r
      → (c : s.Coll Text) × (meta_delete tags k w ≡ (done tt, record w { meta_keys = c }))
        × (s.get c (key_id tags k) ≡ err not_found)
  unfolding meta_delete destroy_resource
  delete_present tags k w h =
      let gone = destroy_self laws w.meta_keys (key_id tags k) h in
      (
        (s.destroy (s.teardown w.meta_keys (key_id tags k)).1 (key_id tags k)).1,
        ground (arith, gone),
        gone.3,
      )

  delete_absent :
      (tags : MetaTags) (k : ℕ) (w : Machine s)
      → s.get w.meta_keys (key_id tags k) ≡ err not_found
      → meta_delete tags k w ≡ (fault (status Code.not_found), w)
  unfolding meta_delete destroy_resource
  delete_absent tags k w h = ground (arith, laws.teardown_absent Text w.meta_keys (key_id tags k) h)

  -- On a machine with system information and a unique token, whose key can be written, MetaWrite
  -- succeeds. Afterwards the key holds the value; so does the unique token if the key is 16, and the UUID of
  -- the system information if it is that of the UUID override, and otherwise these two are as they
  -- were. A MetaDelete of the key then succeeds and removes it, and a second one says not found.
  pub meta_delete-meta_write :
      (tags : MetaTags) (k : ℕ) (value uuid token : Text) (w : Machine s)
      → IsWritable s w.meta_keys (key_id tags k)
      → Present s w.tokens token_id token
      → Present s w.system_information system_information_id uuid
      → (w' : Machine s) × (w'' : Machine s) × (meta_write tags k value w ≡ (done tt, w'))
        × Present s w'.meta_keys (key_id tags k) value
        × Present s w'.tokens token_id (if k == 16 then value else token)
        × Present s w'.system_information system_information_id
            (if k == tags.uuid_override then value else uuid)
        × (meta_delete tags k w' ≡ (done tt, w''))
        × (meta_delete tags k w'' ≡ (fault (status Code.not_found), w''))
  meta_delete-meta_write tags k value uuid token w writable kept known =
      let (t, run₁, kept') = maybe_token k value token w kept in
      let (i, run₂, known') =
        maybe_uuid (k == tags.uuid_override) value uuid (record w { tokens = t }) known in
      let w₂ = record w { tokens = t; system_information = i } in
      let (c, run₃, (r, got, live, held)) = key_lem (key_id tags k) value w₂ writable in
      let w₃ = record w₂ { meta_keys = c } in
      let (c', run₄, gone) = delete_present tags k w₃ got in
      (
        w₃,
        record w₃ { meta_keys = c' },
        write_steps tags k value w (record w { tokens = t }) w₂ w₃ run₁ run₂ run₃,
        (r, got, live, held),
        kept',
        known',
        run₄,
        delete_absent tags k (record w₃ { meta_keys = c' }) gone,
      )
