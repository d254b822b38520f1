-- ===== src/Plugins/Valid/Steps.antt =====
-- Each call of a `load_…` step extends the registry.
use mini_gateway.Prelude.{
  ◌>>◌, throw_if, runtime_error, what, concat, ◌≡◌, refl, sym, ap, subst, ◌∙◌, true, not, String,
  Option, none, some, List, [], ◌∷◌, ◌++◌, is_empty, is_some, arith, str_eq, eq_iff, Table, lookup,
  lookup-insert, lookup-insert_self, Result, ok, err, ◌>>=◌, throw_if-eq-ok, >>=_returns,
  ok_injective,
}
use mini_gateway.Plugins.{
  PluginKind, driver, processor, event_publisher, device_control_source, category, Libraries,
  DynamicPluginLoader, PluginRegistry, Factory, register_factory, has_factory, factories, register,
}
use mini_gateway.Plugins.Load.{
  already_assigned, find_owner, claim_library, find_or_open, open_for, open_plugin,
  validate_library_filename, find_loaded,
}
use mini_gateway.Plugins.Valid.{
  HasFactory, Keeps, Keeps-refl, Extends, find_owner-append_keeps, find_owner-append_self,
}

-- What a table of factories holds after one is added.
register_factory-keeps :
    {F : Type 0} (table : Table F) (type : String) (f : F) (name : String) {result : Table F}
    → register_factory table type (some f) name ≡ ok result
    → ((s : String) → has_factory table s ≡ true → has_factory result s ≡ true)
      × (has_factory result type ≡ true)
unfolding register_factory has_factory
register_factory-keeps table type f name {result} h =
    let (a, h₁) = throw_if-eq-ok (is_empty type) _ _ h in
    let (b, h₂) = throw_if-eq-ok (is_some (lookup type table)) _ _ h₁ in
    subst
      (λ t.
        ((s : String) → is_some (lookup s table) ≡ true → is_some (lookup s t) ≡ true)
        × (is_some (lookup type t) ≡ true))
      (ok_injective h₂)
      (λ s e. ground (arith, lookup-insert type s f table, e), simp (lookup-insert_self))

module _ {Instance : PluginKind → Type 0} (os : Libraries Instance) where
  -- The tables of factories do not depend on the other fields.
  pub Keeps-tables :
      (r : PluginRegistry Instance) (plugins : List (DynamicPluginLoader Instance))
      (sources owners : Table String)
      → Keeps os r (record r {
        dynamic_plugins = plugins;
        dynamic_plugin_sources = sources;
        dynamic_library_owners = owners;
      })
  unfolding factories
  Keeps-tables r plugins sources owners = record { factory = tables; called = λ h. h }
    where
      tables :
          (k : PluginKind) (type : String)
          → HasFactory os k type r
          → HasFactory os k type (record r {
            dynamic_plugins = plugins;
            dynamic_plugin_sources = sources;
            dynamic_library_owners = owners;
          })
      tables driver type h = h
      tables processor type h = h
      tables event_publisher type h = h
      tables device_control_source type h = h

  Extends-tables :
      (r : PluginRegistry Instance) (plugins : List (DynamicPluginLoader Instance))
      (owners : Table String)
      → ((library key : String)
          → find_owner os library r.dynamic_library_owners ≡ some key
          → find_owner os library owners ≡ some key)
      → Extends os r (record r { dynamic_plugins = plugins; dynamic_library_owners = owners })
  Extends-tables r plugins owners grows = record {
    keeps = Keeps-tables r plugins r.dynamic_plugin_sources owners;
    sources = refl;
    owners = grows;
  }

  pub Extends-refl : (r : PluginRegistry Instance) → Extends os r r
  Extends-refl r = record { keeps = Keeps-refl os r; sources = refl; owners = λ library key h. h }

  -- A library that is claimed for a key belongs to it.
  pub claim_library-Extends :
      (library key : String) (r : PluginRegistry Instance) {q : PluginRegistry Instance}
      → os.same library library ≡ true
      → claim_library os library key r ≡ ok q
      → Extends os r q × (find_owner os library q.dynamic_library_owners ≡ some key)
  unfolding claim_library
  claim_library-Extends library key r {q} same h =
      go (find_owner os library r.dynamic_library_owners) refl h
    where
      go :
          (o : Option String)
          → find_owner os library r.dynamic_library_owners ≡ o
          → (elim o [
            | none ↦ ok (record r {
              dynamic_library_owners = r.dynamic_library_owners ++ ((library, key) ∷ []);
            })
            | some owner ↦
                throw_if (not (str_eq owner key)) (already_assigned library owner key) >> ok r
          ])
            ≡ ok q
          → Extends os r q × (find_owner os library q.dynamic_library_owners ≡ some key)
      go none e f =
          subst (λ p. Extends os r p × (find_owner os library p.dynamic_library_owners ≡ some key))
            (ok_injective f)
            (
              Extends-tables r r.dynamic_plugins _
                  (λ l k o. find_owner-append_keeps os l k r.dynamic_library_owners _ o),
              find_owner-append_self os library key r.dynamic_library_owners same e,
            )
      go (some owner) e f =
          let (equal, f₁) =
            throw_if-eq-ok (not (str_eq owner key)) (already_assigned library owner key) _ f in
          subst (λ p. Extends os r p × (find_owner os library p.dynamic_library_owners ≡ some key))
            (ok_injective f₁) (Extends-refl r, ground (arith, eq_iff owner key, e))

  pub find_or_open-Extends :
      (library type : String) (r : PluginRegistry Instance)
      {q : PluginRegistry Instance × DynamicPluginLoader Instance}
      → find_or_open os library type r ≡ ok q
      → Extends os r q.0 × (q.0.dynamic_library_owners ≡ r.dynamic_library_owners)
  unfolding find_or_open open_for
  find_or_open-Extends library type r {q} h =
      let (done, h₁, valid) = >>=_returns (validate_library_filename os library type) _ h in
      find (find_loaded os r.dynamic_plugins library) h₁
    where
      Opened : PluginRegistry Instance × DynamicPluginLoader Instance → Type 0
      Opened p = Extends os r p.0 × (p.0.dynamic_library_owners ≡ r.dynamic_library_owners)

      opens :
          (call : Result (DynamicPluginLoader Instance))
          → (elim call [
            | ok loaded ↦
                ok (record r { dynamic_plugins = r.dynamic_plugins ++ (loaded ∷ []) }, loaded)
            | err error ↦ err (
                runtime_error
                  (concat "cannot load plugin '" (concat type (concat "': " (what error)))))
          ])
            ≡ ok q
          → Opened q
      opens (ok loaded) e =
          subst Opened (ok_injective e)
            (Extends-tables r _ r.dynamic_library_owners (λ l k o. o), refl)
      opens (err error) e = absurd cc

      find :
          (o : Option (DynamicPluginLoader Instance))
          → (elim o [ some loaded ↦ ok (r, loaded) | none ↦ open_for os library type r ]) ≡ ok q
          → Opened q
      find none e = opens (open_plugin os library) e
      find (some loaded) e = subst Opened (ok_injective e) (Extends-refl r, refl)

  with_table :
      (k : PluginKind)
      → Table (Factory Instance k)
      → PluginRegistry Instance
      → PluginRegistry Instance
  with_table driver table r = record r { driver_factories = table }
  with_table processor table r = record r { processor_factories = table }
  with_table event_publisher table r = record r { event_publisher_factories = table }
  with_table device_control_source table r = record r { device_control_source_factories = table }

  register_lem :
      (k : PluginKind) (type : String) (f : Option (Factory Instance k))
      (r : PluginRegistry Instance)
      → register k type f r ≡ (
          register_factory (factories k r) type f (category k) >>= λ table.
          ok (with_table k table r))
  unfolding register factories with_table
  register_lem driver type f r = refl
  register_lem processor type f r = refl
  register_lem event_publisher type f r = refl
  register_lem device_control_source type f r = refl

  -- A larger table keeps the factories of its kind, and those of the others stay.
  with_table_keeps :
      (k j : PluginKind) (table : Table (Factory Instance k)) (r : PluginRegistry Instance)
      → ((s : String) → HasFactory os k s r → has_factory table s ≡ true)
      → (s : String) → HasFactory os j s r
      → HasFactory os j s (with_table k table r)
  unfolding factories with_table
  with_table_keeps driver driver table r grows = grows
  with_table_keeps processor processor table r grows = grows
  with_table_keeps event_publisher event_publisher table r grows = grows
  with_table_keeps device_control_source device_control_source table r grows = grows
  with_table_keeps k j table r grows = λ s h. h

  with_table-Extends :
      (k : PluginKind) (table : Table (Factory Instance k)) (r : PluginRegistry Instance)
      → ((s : String) → HasFactory os k s r → has_factory table s ≡ true)
      → Extends os r (with_table k table r)
        × (factories k (with_table k table r) ≡ table)
        × ((with_table k table r).dynamic_library_owners ≡ r.dynamic_library_owners)
  unfolding factories with_table
  with_table-Extends k table r grows =
      let (called, sources, own, owners) = others k table in
      (
        record {
          keeps = record {
            factory = λ j s h. with_table_keeps k j table r grows s h;
            called = λ h. called ∙ h;
          };
          sources = sources;
          owners = λ l i o. subst (λ t. find_owner os l t ≡ some i) (sym owners) o;
        },
        own,
        owners,
      )
    where
      others :
          (i : PluginKind) (t : Table (Factory Instance i))
          → ((with_table i t r).dynamic_loading_called ≡ r.dynamic_loading_called)
            × ((with_table i t r).dynamic_plugin_sources ≡ r.dynamic_plugin_sources)
            × (factories i (with_table i t r) ≡ t)
            × ((with_table i t r).dynamic_library_owners ≡ r.dynamic_library_owners)
      others driver t = (refl, refl, refl, refl)
      others processor t = (refl, refl, refl, refl)
      others event_publisher t = (refl, refl, refl, refl)
      others device_control_source t = (refl, refl, refl, refl)

  pub register-Extends :
      (k : PluginKind) (type : String) (f : Factory Instance k) (r : PluginRegistry Instance)
      {q : PluginRegistry Instance}
      → register k type (some f) r ≡ ok q
      → Extends os r q
        × HasFactory os k type q
        × (q.dynamic_library_owners ≡ r.dynamic_library_owners)
  register-Extends k type f r {q} h =
      let (table, h₁, e) =
        >>=_returns (register_factory (factories k r) type (some f) (category k)) _
          (sym (register_lem k type (some f) r) ∙ h) in
      let (keeps, added) = register_factory-keeps (factories k r) type f (category k) e in
      let (extends, own, owners) = with_table-Extends k table r keeps in
      subst
        (λ p.
          Extends os r p
          × HasFactory os k type p
          × (p.dynamic_library_owners ≡ r.dynamic_library_owners))
        (ok_injective h₁) (extends, ap (λ t. has_factory t type) own ∙ added, owners)
