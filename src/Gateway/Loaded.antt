-- ===== src/Gateway/Loaded.antt =====
-- What a configuration that src/gateway.rs accepts is like.
use shuttle_rs.Prelude.{
  String, ◌≡◌, refl, sym, subst, Option, none, some, List, [], ◌∷◌, true, false, not, ◌&&◌, str_eq,
  is_blank, is_some, is_empty, All, arith, Bool-cases, inl, inr, not-eq-false,
}
use shuttle_rs.Core.{ok, reject_if, >>=-eq-ok, reject_if-eq-ok}
use shuttle_rs.Gateway.Auth.{ListenerAuthKind}
use shuttle_rs.Gateway.Registry.{
  RepoPath, ProjectConfig, Entries, lookup, validate_configs, from_configs, new_registry,
  normalize_public_url,
}
use shuttle_rs.Gateway.Config.{
  ListenerConfig, GatewayConfig, OAuthGatewayConfig, is_loopback_addr, join, database_path,
  check_kind, check_listener, check_listeners, check_oauth, load,
}

-- A path is there, and is absolute.
abbrev pub IsAbsolute : Option RepoPath → Type 0
IsAbsolute none = ⊥
IsAbsolute (some path) = path.is_absolute ≡ true

abbrev pub KindChecked : ListenerAuthKind → ListenerConfig → Type 0
KindChecked ListenerAuthKind.oauth l = (str_eq l.public_url "" ≡ false) × IsAbsolute l.oauth_db_path
KindChecked ListenerAuthKind.bearer l = Unit
KindChecked ListenerAuthKind.none l = is_loopback_addr l.addr ≡ true

-- A listener that publishes its address over OAuth has a database, and one without authentication
-- stays on the machine.
abbrev pub IsChecked : ListenerConfig → Type 0
IsChecked l = KindChecked l.auth l

database_path-IsAbsolute :
    (given : Option RepoPath) (default_path : RepoPath) (error : String) {path : Option RepoPath}
    → default_path.is_absolute ≡ true
    → database_path given default_path error ≡ ok path
    → IsAbsolute path
unfolding database_path
database_path-IsAbsolute none default_path error {path} h e =
    let same : some default_path ≡ path = cc e in subst IsAbsolute same h
database_path-IsAbsolute (some given) default_path error {path} h e =
    elim (Bool-cases given.is_absolute) [
      | inl y ↦ let same : some given ≡ path = cc (rw y at e) in subst IsAbsolute same y
      | inr n ↦ cc (rw n at e)
    ]

-- The `match` on the kind leaves the kind, and a checked listener.
check_kind-IsChecked :
    (dir : RepoPath) (l : ListenerConfig) (kind : ListenerAuthKind) {checked : ListenerConfig}
    → dir.is_absolute ≡ true
    → l.auth ≡ kind
    → check_kind dir l kind ≡ ok checked
    → IsChecked checked
unfolding check_kind join
check_kind-IsChecked dir l ListenerAuthKind.oauth {checked} h same e =
    let (_, published, e1) = >>=-eq-ok (reject_if (str_eq l.public_url "") _) _ e in
    let (path, located, e2) = >>=-eq-ok (database_path l.oauth_db_path _ _) _ e1 in
    let last : record l { oauth_db_path = path } ≡ checked = cc e2 in
    subst IsChecked last (
      subst (λ k. KindChecked k (record l { oauth_db_path = path })) (sym same)
        (reject_if-eq-ok _ _ published, database_path-IsAbsolute l.oauth_db_path _ _ h located))
check_kind-IsChecked dir l ListenerAuthKind.bearer {checked} h same e =
    let last : l ≡ checked = cc e in
    subst IsChecked last (subst (λ k. KindChecked k l) (sym same) tt)
check_kind-IsChecked dir l ListenerAuthKind.none {checked} h same e =
    let (_, local, e1) = >>=-eq-ok (reject_if (not (is_loopback_addr l.addr)) _) _ e in
    let last : l ≡ checked = cc e1 in
    subst IsChecked last (
      subst (λ k. KindChecked k l) (sym same)
        (not-eq-false (is_loopback_addr l.addr) (reject_if-eq-ok _ _ local)))

check_listeners-IsChecked :
    (dir : RepoPath) (given : List ListenerConfig) {listeners : List ListenerConfig}
    → dir.is_absolute ≡ true
    → check_listeners dir given ≡ ok listeners
    → All IsChecked listeners
unfolding check_listeners check_listener
check_listeners-IsChecked dir [] {listeners} h e =
    let same : [] ≡ listeners = cc e in subst (All IsChecked) same tt
check_listeners-IsChecked dir (given ∷ more) {listeners} h e =
    let (first, checked, e1) = >>=-eq-ok (check_listener dir given) _ e in
    let (rest, checked_rest, e2) = >>=-eq-ok (check_listeners dir more) _ e1 in
    let (_, _, kind) = >>=-eq-ok (reject_if (is_blank given.name) _) _ checked in
    let last : first ∷ rest ≡ listeners = cc e2 in
    subst (All IsChecked) last (
      check_kind-IsChecked dir (record given { public_url = normalize_public_url given.public_url })
          given.auth h refl kind,
      check_listeners-IsChecked dir more h checked_rest,
    )

abbrev pub IsPublished : OAuthGatewayConfig → Type 0
IsPublished settings = str_eq settings.public_url "" ≡ false → IsAbsolute settings.db_path

check_oauth-IsPublished :
    (dir : RepoPath) (given : OAuthGatewayConfig) {settings : OAuthGatewayConfig}
    → dir.is_absolute ≡ true
    → check_oauth dir given ≡ ok settings
    → IsPublished settings
unfolding check_oauth join
check_oauth-IsPublished dir given {settings} h e = elim (Bool-cases (str_eq given.public_url "")) [
  | inl y ↦ let same : given ≡ settings = cc (rw y at e) in subst IsPublished same (λ n. cc)
  | inr n ↦
      let (path, located, e1) = >>=-eq-ok (database_path given.db_path _ _) _ (rw n at e) in
      let same : record given { db_path = path } ≡ settings = cc e1 in
      subst IsPublished same (λ _. database_path-IsAbsolute given.db_path _ _ h located)
]

-- What an accepted configuration is like.
pub record IsLoaded (cfg : GatewayConfig) : Type 0 where
  pub valid : validate_configs cfg.projects ≡ ok tt
  pub default_configured :
      (not (str_eq cfg.defaults.project "")
        && not (is_some (lookup cfg.defaults.project cfg.projects)))
      ≡ false
  pub published : IsPublished cfg.oauth
  pub checked : All IsChecked cfg.listeners

pub load-IsLoaded :
    (dir : RepoPath) (cfg : GatewayConfig) {loaded : GatewayConfig}
    → dir.is_absolute ≡ true
    → load dir cfg ≡ ok loaded
    → IsLoaded loaded
unfolding load
load-IsLoaded dir cfg {loaded} h e =
    let given = record cfg.oauth { public_url = normalize_public_url cfg.oauth.public_url } in
    let (_, _, e1) = >>=-eq-ok (reject_if (is_empty cfg.projects) _) _ e in
    let (_, valid, e2) = >>=-eq-ok (validate_configs cfg.projects) _ e1 in
    let (_, configured, e3) = >>=-eq-ok (reject_if _ _) _ e2 in
    let (settings, oauth_checked, e4) = >>=-eq-ok (check_oauth dir given) _ e3 in
    let (listeners, checked, e5) = >>=-eq-ok (check_listeners dir cfg.listeners) _ e4 in
    let same : record cfg { oauth = settings; listeners = listeners } ≡ loaded = cc e5 in
    subst IsLoaded same (record {
      valid = valid;
      default_configured = reject_if-eq-ok _ _ configured;
      published = check_oauth-IsPublished dir given h oauth_checked;
      checked = check_listeners-IsChecked dir cfg.listeners h checked;
    })

is_some-from_configs :
    (k : String) (configs : Entries ProjectConfig)
    → is_some (lookup k (from_configs configs)) ≡ is_some (lookup k configs)
unfolding lookup from_configs
is_some-from_configs k [] = refl
is_some-from_configs k ((j, config) ∷ configs) = ground (arith, is_some-from_configs k configs)

-- The checks of `new` were all made when the file was read.
pub new_registry-loaded :
    (cfg : GatewayConfig)
    → IsLoaded cfg
    → new_registry cfg.defaults.project cfg.projects
      ≡ ok (record { default_project = cfg.defaults.project; projects = from_configs cfg.projects })
unfolding new_registry
new_registry-loaded cfg loaded = rw loaded.valid (
    rw (is_some-from_configs cfg.defaults.project cfg.projects) (rw loaded.default_configured refl))
