-- ===== src/Tests/GatewayTests.antt =====
-- The theorems on src/gateway.rs at a registry of two projects, and runs of its functions.
use shuttle_rs.Prelude.{◌≡◌, refl, All, none, some, [], ◌∷◌, false, true, is_blank}
use shuttle_rs.Gateway.Registry.{
  ProjectBackendKind, ProjectConfig, Project, ProjectRegistry, GatewayService, lookup, resolve,
}
use shuttle_rs.Gateway.Selection.{IsNamed, resolve_write}

abbrev docs_config : ProjectConfig
docs_config = record {
  backend = ProjectBackendKind.local;
  repo = some (record { text = "/srv/docs"; is_absolute = true });
  db = none;
  url = "";
  token_env = none;
  description = none;
}

abbrev site_config : ProjectConfig
site_config = record docs_config { repo = some (record { text = "/srv/site"; is_absolute = true }) }

abbrev docs : Project
docs = record {
  name = "docs";
  backend = ProjectBackendKind.local;
  repo = some (record { text = "/srv/docs"; is_absolute = true });
  db = none;
  url = "";
  token_env = none;
  description = none;
}

abbrev site : Project
site = record docs {
  name = "site";
  repo = some (record { text = "/srv/site"; is_absolute = true });
}

abbrev registry : ProjectRegistry
registry = record { default_project = "docs"; projects = ("docs", docs) ∷ [] }

abbrev larger : ProjectRegistry
larger = record { default_project = "docs"; projects = ("docs", docs) ∷ ("site", site) ∷ [] }

registry-IsNamed : All IsNamed registry.projects
unfolding is_blank
registry-IsNamed = ((refl, refl), tt)

resolve_write_example :
    (docs.name ≡ "docs") × (is_blank "docs" ≡ false) × (lookup "docs" registry.projects ≡ some docs)
unfolding resolve lookup
resolve_write_example = resolve_write "docs" registry {found = docs} registry-IsNamed refl

abbrev service : GatewayService
service = record { projects = registry; current = "" }

abbrev using_docs : GatewayService
using_docs = record { projects = registry; current = "docs" }
