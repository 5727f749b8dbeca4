-- ===== src/Migrations/Tests.antt =====
-- Migrations at concrete inputs: the schema is a list of table names.
use aithena.Base.{ℕ, ◌≡◌, refl, none, some, List, [], ◌∷◌, ◌++◌, String, map, length, arith}
use aithena.Base.Text.{codes}
use aithena.Base.Sort.{sort_by}
use aithena.Migrations.{
  completed, Migration, Info, Database, current_version, migrations_in, discover_migrations, row_of,
  apply_pending_migrations,
}
use aithena.Migrations.Once.{Ascending, pending, apply_pending_migrations-once}

abbrev creates : String → ℕ → Migration (List String)
creates table version = record {
  version = version;
  description = [];
  upgrade = λ tables. completed (tables ++ table ∷ []);
}

abbrev infos : List (Info (List String))
infos =
    record { name = codes "m0003_tags"; migration = some (creates "tags" 3) }
    ∷ record { name = codes "001_collections_init"; migration = none }
    ∷ record { name = codes "m0002_notes"; migration = some (creates "notes" 2) }
    ∷ []

abbrev fresh : Database (List String)
fresh = record { schema = "users" ∷ []; schema_version = (1, []) ∷ [] }

abbrev migrated : Database (List String)
migrated = record {
  schema = "users" ∷ "notes" ∷ "tags" ∷ [];
  schema_version = (1, []) ∷ (2, []) ∷ (3, []) ∷ [];
}

migrates : apply_pending_migrations infos fresh ≡ (some 2, migrated)
unfolding apply_pending_migrations sort_by
migrates = refl

ascend : Ascending (discover_migrations infos)
unfolding sort_by migrations_in
ascend = ((omega arith, tt), (tt, tt))

apply_pending_migrations-once_example :
    (migrated.schema_version
      ≡ fresh.schema_version
        ++ map row_of (pending (current_version fresh.schema_version) (discover_migrations infos)))
    × (2 ≡ length (pending (current_version fresh.schema_version) (discover_migrations infos)))
    × (apply_pending_migrations infos migrated ≡ (some 0, migrated))
apply_pending_migrations-once_example =
    apply_pending_migrations-once infos fresh migrated 2 ascend migrates
