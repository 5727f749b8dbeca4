-- ===== src/Migrations.antt =====
-- src/solr-search/migrations/__init__.py: forward-only migrations of the auth database.
--
-- What the migrations change is a parameter `S`. An `upgrade` may raise; the migrations before it were
-- committed. The open transaction is then rolled back, but Python's sqlite3 opens none for statements
-- that create or alter tables: what such an upgrade leaves is up to it.
mod Once
mod Tests
use aithena.Base.{
  ℕ, zero, suc, ◌≡◌, Bool, true, false, ◌&&◌, Option, none, some, List, [], ◌∷◌, ◌++◌, map, max,
  ltb, leb, ◌==◌, if◌then◌else◌,
}
use aithena.Base.Text.{Text}
use aithena.Base.Sort.{sort_by}

-- What an upgrade makes of the schema, and whether it raises an exception.
pub data Upgrade (S : Type 0) : Type 0 where
  completed raised : S → Upgrade S

-- A migration module.
pub record Migration (S : Type 0) : Type 0 where
  pub version : ℕ
  pub description : Text
  pub upgrade : S → Upgrade S

-- A submodule: its name, and the migration in it if it has VERSION and `upgrade`.
pub record Info (S : Type 0) : Type 0 where
  pub name : Text
  pub migration : Option (Migration S)

-- What migrations change, and the rows of schema_version.
pub record Database (S : Type 0) : Type 0 where
  pub schema : S
  pub schema_version : List (ℕ × Text)

abbrev starts_with_m : Text → Bool
starts_with_m [] = false
starts_with_m (c ∷ name) = c == b'm'

-- `SELECT MAX(version)`, with 0 for no row
unfoldable pub current_version : List (ℕ × Text) → ℕ
current_version [] = 0
current_version ((version, description) ∷ rows) = max version (current_version rows)

module _ {S : Type 0} where
  -- the loop of _discover_migrations
  unfoldable pub migrations_in : List (Info S) → List (Migration S)
  migrations_in [] = []
  migrations_in (info ∷ infos) =
      let rest = migrations_in infos in
      elim info.migration [
        | none ↦ rest
        | some migration ↦ if starts_with_m info.name then migration ∷ rest else rest
      ]

  -- _discover_migrations of the submodules
  abbrev pub discover_migrations : List (Info S) → List (Migration S)
  discover_migrations infos = sort_by (λ a b. ltb a.version b.version) (migrations_in infos)

  -- the row that is recorded of a migration
  abbrev pub row_of : Migration S → ℕ × Text
  row_of migration = (migration.version, migration.description)

  abbrev pub upgraded : Migration S → S → Database S → Database S
  upgraded migration schema db = record {
    schema = schema;
    schema_version = db.schema_version ++ row_of migration ∷ [];
  }

  -- the loop, with the current version and the number applied so far; `none` is the exception
  unfoldable pub apply_loop : List (Migration S) → ℕ → ℕ → Database S → Option ℕ × Database S
  apply_loop [] current applied db = (some applied, db)
  apply_loop (migration ∷ migrations) current applied db =
      let skip = apply_loop migrations current applied db in
      if leb migration.version current then skip else elim (migration.upgrade db.schema) [
        | raised schema ↦ (none, record db { schema = schema })
        | completed schema ↦
            apply_loop migrations migration.version (suc applied) (upgraded migration schema db)
      ]

  -- apply_pending_migrations of the submodules
  unfoldable pub apply_pending_migrations : List (Info S) → Database S → Option ℕ × Database S
  unfolding apply_loop current_version migrations_in
  apply_pending_migrations infos db =
      apply_loop (discover_migrations infos) (current_version db.schema_version) 0 db
