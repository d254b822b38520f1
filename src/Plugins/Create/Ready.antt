-- ===== src/Plugins/Create/Ready.antt =====
-- What `create` makes, and that it makes it after `load_dynamic_plugins` has returned.
use mini_gateway.Prelude.{
  ◌≡◌, refl, ap, sym, ◌∙◌, Bool, true, false, not, is_some, String, Option, none, some, List, [],
  ◌∷◌, map, All, Bool-cases, inl, inr, if◌then◌else◌, Table, lookup, ok, ◌>>=◌, >>=_returns,
  ok_injective, subst,
}
use mini_gateway.Model.{DeviceConfig}
use mini_gateway.Config.{PluginConfig, ApplicationConfig}
use mini_gateway.Plugins.{
  PluginKind, driver, processor, event_publisher, device_control_source, category, Factory,
  Libraries, PluginRegistry, find_factory, has_factory, factories,
}
use mini_gateway.Plugins.Load.{load_dynamic_plugins}
use mini_gateway.Plugins.Valid.{IsWellFormed, IsPathEquality}
use mini_gateway.Plugins.Valid.Whole.{HasFactories, load_dynamic_plugins-HasFactories}
use mini_gateway.Plugins.Create.{
  PluginInstances, make, not_null, create_drivers, create_plugins, create,
}

-- The ids of the plugins that are enabled.
abbrev pub enabled_ids : List PluginConfig → List String
enabled_ids [] = []
enabled_ids (spec ∷ specs) = if spec.enabled then spec.id ∷ enabled_ids specs else enabled_ids specs

find_factory-some :
    {F : Type 0} (table : Table F) (type name : String) {f : F}
    → lookup type table ≡ some f
    → find_factory table type name ≡ ok f
unfolding find_factory
find_factory-some table type name {f} e = cc

module _ {Instance : PluginKind → Type 0} (r : PluginRegistry Instance) where
  create_drivers-ids :
      (devices : List DeviceConfig) {made : List (String × Instance driver)}
      → create_drivers r devices ≡ ok made
      → map (λ i. i.0) made ≡ map (λ d. d.id) devices
  unfolding create_drivers
  create_drivers-ids [] h = ap (map (λ i. i.0)) (sym (ok_injective h))
  create_drivers-ids (device ∷ devices) {made} h =
      let (i, h₁, e) =
        >>=_returns (make r driver device.driver.type device.driver.settings_json) _ h in
      let (rest, done, e₁) = >>=_returns (create_drivers r devices) _ h₁ in
      ap (map (λ p. p.0)) (sym (ok_injective done))
      ∙ ap (λ ids. device.id ∷ ids) (create_drivers-ids devices e₁)

  create_plugins-ids :
      (k : PluginKind) (specs : List PluginConfig) {made : List (String × Instance k)}
      → create_plugins r k specs ≡ ok made
      → map (λ i. i.0) made ≡ enabled_ids specs
  unfolding create_plugins
  create_plugins-ids k [] h = ap (map (λ i. i.0)) (sym (ok_injective h))
  create_plugins-ids k (spec ∷ specs) {made} h =
      go spec.enabled h (λ others e. create_plugins-ids k specs e)
    where
      go :
          (b : Bool)
          → (if not b
              then create_plugins r k specs
              else (make r k spec.type spec.settings_json >>= λ i.
                  create_plugins r k specs >>= λ others. ok ((spec.id, i) ∷ others)))
            ≡ ok made
          → ((others : List (String × Instance k))
              → create_plugins r k specs ≡ ok others
              → map (λ i. i.0) others ≡ enabled_ids specs)
          → map (λ i. i.0) made ≡ (if b then spec.id ∷ enabled_ids specs else enabled_ids specs)
      go false e ids = ids made e
      go true e ids =
          let (i, e₁, f) = >>=_returns (make r k spec.type spec.settings_json) _ e in
          let (others, done, f₁) = >>=_returns (create_plugins r k specs) _ e₁ in
          ap (map (λ p. p.0)) (sym (ok_injective done)) ∙ ap (λ l. spec.id ∷ l) (ids others f₁)

  -- Every factory that is registered makes an instance.
  abbrev pub AllMake : Type 0
  AllMake =
      (k : PluginKind) (type settings_json : String) (f : Factory Instance k)
      → lookup type (factories k r) ≡ some f
      → (i : Instance k) × (f settings_json ≡ ok (some i))

  make_returns :
      (k : PluginKind) (type settings_json : String)
      → AllMake
      → has_factory (factories k r) type ≡ true
      → (i : Instance k) × (make r k type settings_json ≡ ok i)
  unfolding make not_null has_factory
  make_returns k type settings_json makes h = go (lookup type (factories k r)) refl h
    where
      go :
          (o : Option (Factory Instance k))
          → lookup type (factories k r) ≡ o
          → is_some o ≡ true
          → (i : Instance k) × (make r k type settings_json ≡ ok i)
      go none e f = absurd cc
      go (some factory) e f =
          let (i, made) = makes k type settings_json factory e in
          (i, simp (find_factory-some (factories k r) type (category k) e, made))

  create_drivers_returns :
      (devices : List DeviceConfig)
      → AllMake
      → All (λ (d : DeviceConfig). has_factory (factories driver r) d.driver.type ≡ true) devices
      → (made : List (String × Instance driver)) × (create_drivers r devices ≡ ok made)
  unfolding create_drivers
  create_drivers_returns [] makes h = ([], refl)
  create_drivers_returns (device ∷ devices) makes h =
      let (i, e) = make_returns driver device.driver.type device.driver.settings_json makes h.0 in
      let (rest, e₁) = create_drivers_returns devices makes h.1 in
      ((device.id, i) ∷ rest, simp (e, e₁))

  create_plugins_returns :
      (k : PluginKind) (specs : List PluginConfig)
      → AllMake
      → All
          (λ (p : PluginConfig). p.enabled ≡ true → has_factory (factories k r) p.type ≡ true)
          specs
      → (made : List (String × Instance k)) × (create_plugins r k specs ≡ ok made)
  unfolding create_plugins
  create_plugins_returns k [] makes h = ([], refl)
  create_plugins_returns k (spec ∷ specs) makes h =
      let (rest, e) = create_plugins_returns k specs makes h.1 in
      elim (Bool-cases spec.enabled) [
        | inl on ↦
            let (i, e₁) = make_returns k spec.type spec.settings_json makes (h.0 on) in
            ((spec.id, i) ∷ rest, simp (on, e, e₁))
        | inr off ↦ (rest, simp (off, e))
      ]

  -- One driver for each device and one publisher for each enabled one, in the order of the
  -- configuration.
  pub record MadeFor (config : ApplicationConfig) (made : PluginInstances Instance) : Type 0 where
    pub drivers : map (λ i. i.0) made.drivers ≡ map (λ d. d.id) config.gateway.devices
    pub event_publishers :
        map (λ i. i.0) made.event_publishers ≡ enabled_ids config.event_publishers

  pub create-MadeFor :
      (config : ApplicationConfig) {made : PluginInstances Instance}
      → create r config ≡ ok made
      → MadeFor config made
  unfolding create
  create-MadeFor config {made} h =
      let (drivers, h₁, e) = >>=_returns (create_drivers r config.gateway.devices) _ h in
      let (processors, h₂, e₂) = >>=_returns (create_plugins r processor config.processors) _ h₁ in
      let (publishers, h₃, e₃) =
        >>=_returns (create_plugins r event_publisher config.event_publishers) _ h₂ in
      let (sources, done, e₄) =
        >>=_returns (create_plugins r device_control_source config.device_control_sources) _ h₃ in
      subst (MadeFor config) (ok_injective done) (record {
        drivers = create_drivers-ids config.gateway.devices e;
        event_publishers = create_plugins-ids event_publisher config.event_publishers e₃;
      })

  create_returns :
      (config : ApplicationConfig) (os : Libraries Instance)
      → AllMake
      → HasFactories os config r
      → (made : PluginInstances Instance) × (create r config ≡ ok made)
  unfolding create
  create_returns config os makes h =
      let (drivers, e) = create_drivers_returns config.gateway.devices makes h.drivers in
      let (processors, e₁) =
        create_plugins_returns processor config.processors makes h.processors in
      let (publishers, e₂) =
        create_plugins_returns event_publisher config.event_publishers makes h.event_publishers in
      let (sources, e₃) =
        create_plugins_returns device_control_source config.device_control_sources makes
          h.device_control_sources in
      (
        record {
          drivers = drivers;
          processors = map (λ p. p.1) processors;
          event_publishers = publishers;
          sources = map (λ p. p.1) sources;
        },
        simp (e, e₁, e₂, e₃),
      )

-- Where `==` of paths is an equivalence, the registry was well formed, loading the plugins of a
-- configuration returns and no registered factory fails or gives null, `create` returns for that
-- configuration, with one driver for each device and one publisher for each publisher that is
-- enabled, in the configuration's order and under their ids.
pub load_dynamic_plugins-create :
    {Instance : PluginKind → Type 0} (os : Libraries Instance) (config : ApplicationConfig)
    (r : PluginRegistry Instance)
    → IsPathEquality os.same
    → IsWellFormed os r
    → (load_dynamic_plugins os config r).1 ≡ ok tt
    → AllMake (load_dynamic_plugins os config r).0
    → (made : PluginInstances Instance) × (create (load_dynamic_plugins os config r).0 config
        ≡ ok made)
      × MadeFor (load_dynamic_plugins os config r).0 config made
load_dynamic_plugins-create os config r paths w loaded makes =
    let has = load_dynamic_plugins-HasFactories os config r paths w loaded in
    let (made, e) = create_returns (load_dynamic_plugins os config r).0 config os makes has in
    (made, e, create-MadeFor (load_dynamic_plugins os config r).0 config e)
