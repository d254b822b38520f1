-- ===== src/Plugins/Valid.antt =====
-- What every registry holds, and how a registry grows: factories stay, an owner of a library stays,
-- and what is done is not undone.
pub mod Steps
pub mod Loads
pub mod Whole
pub mod Owners
use mini_gateway.Prelude.{
  ◌≡◌, refl, sym, ap, subst, ◌∙◌, Bool, true, false, not, String, Option, none, some, List, [], ◌∷◌,
  ◌++◌, is_empty, is_some, arith, str_eq, if◌then◌else◌, Table, lookup, insert, lookup-insert,
  lookup-insert_self, Result, ok, err, ◌>>=◌, throw_if-eq-ok, >>=_returns, ok_injective, Error,
}
use mini_gateway.Plugins.{
  PluginKind, driver, processor, event_publisher, device_control_source, category, Libraries,
  DynamicPluginLoader, PluginRegistry, Factory, register_factory, has_factory, factories, register,
}
use mini_gateway.Plugins.Keys.{source_key}
use mini_gateway.Plugins.Load.{
  find_owner, claim_library, find_or_open, open_for, open_plugin, validate_library_filename,
  find_loaded,
}

-- `==` of paths is an equivalence relation.
pub record IsPathEquality (same : String → String → Bool) : Type 0 where
  pub reflexive : (p : String) → same p p ≡ true
  pub symmetric : (p q : String) → same p q ≡ true → same q p ≡ true
  pub transitive : (p q s : String) → same p q ≡ true → same q s ≡ true → same p s ≡ true

module _ {Instance : PluginKind → Type 0} (os : Libraries Instance) where
  abbrev pub HasFactory : PluginKind → String → PluginRegistry Instance → Type 0
  HasFactory k type r = has_factory (factories k r) type ≡ true

  -- A plugin that came from a library has its factory, and the library belongs to it.
  pub record IsWellFormed (r : PluginRegistry Instance) : Type 0 where
    pub registered :
        (k : PluginKind) (type library : String)
        → lookup (source_key k type) r.dynamic_plugin_sources ≡ some library
        → HasFactory k type r
    pub owned :
        (key library : String)
        → lookup key r.dynamic_plugin_sources ≡ some library
        → find_owner os library r.dynamic_library_owners ≡ some key

  -- What a later registry keeps of an earlier one.
  pub record Keeps (r q : PluginRegistry Instance) : Type 0 where
    pub factory : (k : PluginKind) (type : String) → HasFactory k type r → HasFactory k type q
    pub called : r.dynamic_loading_called ≡ true → q.dynamic_loading_called ≡ true

  pub Keeps-refl : (r : PluginRegistry Instance) → Keeps r r
  Keeps-refl r = record { factory = λ k type h. h; called = λ h. h }

  pub Keeps-trans : {r q p : PluginRegistry Instance} → Keeps r q → Keeps q p → Keeps r p
  Keeps-trans a b = record {
    factory = λ k type h. b.factory k type (a.factory k type h);
    called = λ h. b.called (a.called h);
  }

  -- A step that adds no source.
  pub record Extends (r q : PluginRegistry Instance) : Type 0 where
    pub keeps : Keeps r q
    pub sources : q.dynamic_plugin_sources ≡ r.dynamic_plugin_sources
    pub owners :
        (library key : String)
        → find_owner os library r.dynamic_library_owners ≡ some key
        → find_owner os library q.dynamic_library_owners ≡ some key

  pub Extends-IsWellFormed :
      {r q : PluginRegistry Instance} → Extends r q → IsWellFormed r → IsWellFormed q
  Extends-IsWellFormed {r} {q} e w = record {
    registered = λ k type library h.
        e.keeps.factory k type
          (w.registered k type library (sym (ap (lookup (source_key k type)) e.sources) ∙ h));
    owned = λ key library h.
        e.owners library key (w.owned key library (sym (ap (lookup key) e.sources) ∙ h));
  }

  pub Extends-trans : {r q p : PluginRegistry Instance} → Extends r q → Extends q p → Extends r p
  Extends-trans a b = record {
    keeps = Keeps-trans a.keeps b.keeps;
    sources = b.sources ∙ a.sources;
    owners = λ library key h. b.owners library key (a.owners library key h);
  }

  pub find_owner-append_keeps :
      (library key : String) (owners more : Table String)
      → find_owner os library owners ≡ some key
      → find_owner os library (owners ++ more) ≡ some key
  unfolding find_owner
  find_owner-append_keeps library key [] more h = absurd cc
  find_owner-append_keeps library key ((path, k) ∷ owners) more h =
      ground (arith, find_owner-append_keeps library key owners more)

  pub find_owner-append_self :
      (library key : String) (owners : Table String)
      → os.same library library ≡ true
      → find_owner os library owners ≡ none
      → find_owner os library (owners ++ ((library, key) ∷ [])) ≡ some key
  unfolding find_owner
  find_owner-append_self library key [] same h = simp (same)
  find_owner-append_self library key ((path, k) ∷ owners) same h =
      ground (arith, find_owner-append_self library key owners same)
