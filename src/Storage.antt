-- ===== src/Storage.antt =====
-- storage/postgres/storage.py: a table of one entity type, and the calls of a workspace scope on
-- it. A scope's table is a list of rows; a call that raises leaves the rows as they were.
pub mod Laws
use selfevals.Prelude.{
  ℕ, ◌+◌, ◌==◌, String, str_eq, Bool, true, false, ◌&&◌, ◌||◌, not, Option, none, some, List, [],
  ◌∷◌, if◌then◌else◌, ◌≡◌, refl,
}

-- The shared columns of an entity (schemas/_base.py, `BaseEntity`); `created` gives it another
-- `created_at`, which no other column depends on.
pub record Entity (E : Type 0) : Type 0 where
  pub id : E → String
  pub workspace_id : E → String
  pub version : E → ℕ
  pub created_at : E → ℕ
  pub created : ℕ → E → E
  pub id-created : (t : ℕ) (ent : E) → id (created t ent) ≡ id ent
  pub workspace_id-created : (t : ℕ) (ent : E) → workspace_id (created t ent) ≡ workspace_id ent

-- storage/errors.py
pub data StorageError : Type 0 where
  entity_not_found : String → StorageError
  workspace_mismatch : String → StorageError
  optimistic_concurrency : ℕ → StorageError

-- What a call returns, or the exception that it raises.
pub data Result {ℓ} (A : Type ℓ) : Type ℓ where
  err : StorageError → Result A
  ok : A → Result A

module _ {ℓ κ} {A : Type ℓ} {B : Type κ} where
  infixl 5 ◌>>=◌
  abbrev pub ◌>>=◌ : Result A → (A → Result B) → Result B
  err raised >>= rest = err raised
  ok value >>= rest = rest value

  -- a chain that does not raise has a first call that does not
  pub >>=-eq-ok :
      (first : Result A) (rest : A → Result B) {last : B}
      → (first >>= rest) ≡ ok last
      → (value : A) × (first ≡ ok value) × (rest value ≡ ok last)
  >>=-eq-ok (err raised) rest h = cc
  >>=-eq-ok (ok value) rest h = (value, refl, h)

module _ {E : Type 0} (e : Entity E) where
  -- SELECT … WHERE id = …
  unfoldable pub find_row : String → List E → Option E
  find_row key [] = none
  find_row key (row ∷ rows) = if str_eq (e.id row) key then some row else find_row key rows

  -- SELECT … WHERE id = … AND workspace_id = … (`mapper.load`)
  unfoldable pub load : String → String → List E → Option E
  load ws key [] = none
  load ws key (row ∷ rows) =
      if str_eq (e.id row) key && str_eq (e.workspace_id row) ws then some row else load ws key rows

  -- INSERT … ON CONFLICT (id) DO UPDATE SET every column but `id` and `created_at`
  unfoldable pub upsert : E → List E → List E
  upsert ent [] = ent ∷ []
  upsert ent (row ∷ rows) =
      if str_eq (e.id row) (e.id ent)
      then e.created (e.created_at row) ent ∷ rows
      else row ∷ upsert ent rows

  -- `_put_entity_with_mapper`, after the SELECT
  unfoldable pub put_existing : String → E → Option E → List E → Result (List E)
  put_existing ws ent none rows = ok (upsert ent rows)
  put_existing ws ent (some stored) rows =
      if not (str_eq (e.workspace_id stored) ws)
      then err (workspace_mismatch (e.workspace_id stored))
      else if not (e.version stored + 1 == e.version ent || e.version stored == e.version ent)
      then err (optimistic_concurrency (e.version stored))
      else ok (upsert ent rows)

  -- `put_entity`; the first test is `assert_owns`
  unfoldable pub put_entity : String → E → List E → Result (List E)
  unfolding put_existing
  put_entity ws ent rows =
      if not (str_eq (e.workspace_id ent) ws)
      then err (workspace_mismatch (e.workspace_id ent))
      else put_existing ws ent (find_row (e.id ent) rows) rows

  unfoldable pub missing : String → Option E → StorageError
  missing key none = entity_not_found key
  missing key (some cross) = workspace_mismatch (e.workspace_id cross)

  unfoldable pub loaded_or : Option E → StorageError → Result E
  loaded_or (some row) error = ok row
  loaded_or none error = err error

  unfoldable pub get_entity : String → String → List E → Result E
  unfolding missing loaded_or
  get_entity ws key rows = loaded_or (load ws key rows) (missing key (find_row key rows))
