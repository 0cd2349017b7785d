-- ===== src/Storage/Laws.antt =====
-- What a read after a write returns (storage/postgres/storage.py).
use selfevals.Prelude.{
  inl, inr, Bool-cases, String, str_eq, eq_iff, ◌≡◌, ◌≢◌, refl, Option, none, some, List, [], ◌∷◌,
  arith,
}
use selfevals.Storage.{Entity, ok, find_row, load, upsert, put_entity, get_entity, loaded_or}

-- what a write of an entity stores over the row that is there: all of it but `created_at`
abbrev pub stored : {E : Type 0} → Entity E → E → Option E → E
stored e ent none = ent
stored e ent (some row) = e.created (e.created_at row) ent

module _ {E : Type 0} (e : Entity E) where
  pub find_row-upsert_self :
      (ent : E) (rows : List E)
      → find_row e (e.id ent) (upsert e ent rows) ≡ some (stored e ent (find_row e (e.id ent) rows))
  unfolding find_row upsert
  find_row-upsert_self ent [] = ground (arith, eq_iff (e.id ent) (e.id ent))
  find_row-upsert_self ent (row ∷ rows) = elim (Bool-cases (str_eq (e.id row) (e.id ent))) [
    | inl h ↦
        rw (h, e.id-created (e.created_at row) ent) (ground (arith, eq_iff (e.id ent) (e.id ent)))
    | inr h ↦ rw h (ground (arith, h, find_row-upsert_self ent rows))
  ]

  -- a write over a row of the same workspace and the same version is let through
  pub put-same_version :
      (ws : String) (ent row : E) (rows : List E)
      → e.workspace_id ent ≡ ws
      → find_row e (e.id ent) rows ≡ some row
      → e.workspace_id row ≡ ws
      → e.version row ≡ e.version ent
      → put_entity e ws ent rows ≡ ok (upsert e ent rows)
  unfolding put_entity
  put-same_version ws ent row rows mine found theirs same = rw found (
      ground
        (arith, same, eq_iff (e.workspace_id ent) ws, eq_iff (e.workspace_id row) ws, mine, theirs))

  find_row-upsert_ne :
      (ent : E) (key : String) (rows : List E)
      → e.id ent ≢ key
      → find_row e key (upsert e ent rows) ≡ find_row e key rows
  unfolding find_row upsert
  find_row-upsert_ne ent key [] h = ground (arith, eq_iff (e.id ent) key)
  find_row-upsert_ne ent key (row ∷ rows) h = elim (Bool-cases (str_eq (e.id row) (e.id ent))) [
    | inl t ↦
        rw (t, e.id-created (e.created_at row) ent)
          (ground (
            arith,
            t,
            h,
            eq_iff (e.id ent) key,
            eq_iff (e.id row) (e.id ent),
            eq_iff (e.id row) key,
          ))
    | inr t ↦ rw t (ground (arith, find_row-upsert_ne ent key rows h))
  ]

  -- the row that a load returns is owned by the workspace
  load-upsert_self :
      (ent : E) (rows : List E)
      → load e (e.workspace_id ent) (e.id ent) (upsert e ent rows)
        ≡ some (stored e ent (find_row e (e.id ent) rows))
  unfolding load upsert find_row
  load-upsert_self ent [] =
      ground (arith, eq_iff (e.id ent) (e.id ent), eq_iff (e.workspace_id ent) (e.workspace_id ent))
  load-upsert_self ent (row ∷ rows) = elim (Bool-cases (str_eq (e.id row) (e.id ent))) [
    | inl h ↦
        rw (h, e.id-created (e.created_at row) ent, e.workspace_id-created (e.created_at row) ent)
          (ground
            (arith, eq_iff (e.id ent) (e.id ent), eq_iff (e.workspace_id ent) (e.workspace_id ent)))
    | inr h ↦ rw h (ground (arith, h, load-upsert_self ent rows))
  ]

  load-upsert_ne :
      (ent : E) (ws key : String) (rows : List E)
      → e.id ent ≢ key
      → load e ws key (upsert e ent rows) ≡ load e ws key rows
  unfolding load upsert
  load-upsert_ne ent ws key [] h = ground (arith, eq_iff (e.id ent) key)
  load-upsert_ne ent ws key (row ∷ rows) h = elim (Bool-cases (str_eq (e.id row) (e.id ent))) [
    | inl t ↦
        rw (t, e.id-created (e.created_at row) ent)
          (ground (
            arith,
            t,
            h,
            eq_iff (e.id ent) key,
            eq_iff (e.id row) (e.id ent),
            eq_iff (e.id row) key,
          ))
    | inr t ↦ rw t (ground (arith, load-upsert_ne ent ws key rows h))
  ]

  pub put-upsert :
      (ws : String) (ent : E) (rows rows' : List E)
      → put_entity e ws ent rows ≡ ok rows'
      → (e.workspace_id ent ≡ ws) × (rows' ≡ upsert e ent rows)
  unfolding put_entity
  put-upsert ws ent rows rows' h = ground (arith, eq_iff (e.workspace_id ent) ws)

  -- the written entity is read back, with the `created_at` of the row that it overwrites
  pub get-put :
      (ws : String) (ent : E) (rows rows' : List E)
      → put_entity e ws ent rows ≡ ok rows'
      → get_entity e ws (e.id ent) rows' ≡ ok (stored e ent (find_row e (e.id ent) rows))
  unfolding get_entity
  get-put ws ent rows rows' h =
      let (owned, written) = put-upsert ws ent rows rows' h in
      rw (written, ← owned, load-upsert_self, loaded_or)

  -- what is read of another id stays as it was
  pub get-put_ne :
      (ws : String) (ent : E) (rows rows' : List E) (at key : String)
      → put_entity e ws ent rows ≡ ok rows'
      → e.id ent ≢ key
      → get_entity e at key rows' ≡ get_entity e at key rows
  unfolding get_entity
  get-put_ne ws ent rows rows' at key h other =
      let (_, written) = put-upsert ws ent rows rows' h in
      rw (written, load-upsert_ne ent at key rows other, find_row-upsert_ne ent key rows other) refl

  -- A write by `put_entity` that succeeds is an update of the map from ids to entities: `get_entity`
  -- of the same id in the same workspace returns what was written, but with the `created_at` of the
  -- row of that id if there was one; and of every other id, in any workspace, it returns what it
  -- returned before, errors included.
  pub get-put_all :
      (ws : String) (ent : E) (rows rows' : List E)
      → put_entity e ws ent rows ≡ ok rows'
      → (get_entity e ws (e.id ent) rows' ≡ ok (stored e ent (find_row e (e.id ent) rows)))
        × ((at key : String)
            → e.id ent ≢ key
            → get_entity e at key rows' ≡ get_entity e at key rows)
  get-put_all ws ent rows rows' h =
      (get-put ws ent rows rows' h, λ at key. get-put_ne ws ent rows rows' at key h)

  load-key :
      (ws key : String) (rows : List E) (row : E)
      → load e ws key rows ≡ some row
      → (e.id row ≡ key) × (e.workspace_id row ≡ ws)
  unfolding load
  load-key ws key [] row h = cc
  load-key ws key (r ∷ rows) row h =
      ground (arith, load-key ws key rows row, eq_iff (e.id r) key, eq_iff (e.workspace_id r) ws)

  -- a row that is read has the id and the workspace that were asked for
  pub get-key :
      (ws key : String) (rows : List E) (row : E)
      → get_entity e ws key rows ≡ ok row
      → (e.id row ≡ key) × (e.workspace_id row ≡ ws)
  unfolding get_entity loaded_or
  get-key ws key rows row h = ground (arith, load-key ws key rows row)
