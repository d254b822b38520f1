-- ===== src/Plugins/Valid/Whole.antt =====
-- The loops of `load_dynamic_plugins`, and what it promises.
use mini_gateway.Prelude.{
  ◌≡◌, refl, Bool, true, false, not, String, List, [], ◌∷◌, arith, if◌then◌else◌, ok, err,
  logic_error, All, All-imp,
}
use mini_gateway.Model.{DeviceConfig}
use mini_gateway.Config.{PluginConfig, ApplicationConfig}
use mini_gateway.Plugins.{
  PluginKind, driver, processor, event_publisher, device_control_source, Libraries, PluginRegistry,
  factories,
}
use mini_gateway.Plugins.Load.{
  Step, next, load_driver, load_plugin, load_processor, load_publisher, load_control_source,
  load_each, load_dynamic_plugins,
}
use mini_gateway.Plugins.Valid.{
  HasFactory, IsWellFormed, IsPathEquality, Keeps, Keeps-refl, Keeps-trans, Extends,
  Extends-IsWellFormed,
}
use mini_gateway.Plugins.Valid.Loads.{Loaded, Loaded-err, Loaded-ok, Goal-if, load-Loaded}

-- A step after another.
module _ {Instance : PluginKind → Type 0} (os : Libraries Instance) where
  -- What an enabled plugin needs.
  abbrev pub Serves : PluginKind → PluginRegistry Instance → PluginConfig → Type 0
  Serves k r spec = spec.enabled ≡ true → HasFactory os k spec.type r

  Serves-lasts :
      (k : PluginKind) (spec : PluginConfig) (q p : PluginRegistry Instance)
      → Keeps os q p
      → Serves k q spec
      → Serves k p spec
  Serves-lasts k spec q p kept h on = kept.factory k spec.type (h on)

  load_plugin-Loaded :
      (k : PluginKind)
      → ((p : String) → os.same p p ≡ true)
      → (spec : PluginConfig) (r : PluginRegistry Instance) → IsWellFormed os r
      → Loaded os (λ q. Serves k q spec) r (load_plugin os k spec r)
  unfolding load_plugin
  load_plugin-Loaded k same spec r w =
      Goal-if os (λ q. Serves k q spec) (not spec.enabled) _ _
        (λ e. Loaded-ok os (λ q. Serves k q spec) (Keeps-refl os r) w (λ on. absurd (ground arith)))
        (λ e.
          let l = load-Loaded os k spec.type spec.library r (same spec.library) w in
          record { valid = l.valid; keeps = l.keeps; goal = λ h on. l.goal h })

  -- A step after another, whose goal lasts.
  next-Loaded :
      (P Q : PluginRegistry Instance → Type 0) (r : PluginRegistry Instance)
      (s : Step (PluginRegistry Instance))
      (rest : PluginRegistry Instance → Step (PluginRegistry Instance))
      → ((q p : PluginRegistry Instance) → Keeps os q p → P q → P p)
      → Loaded os P r s
      → ((q : PluginRegistry Instance) → IsWellFormed os q → Loaded os Q q (rest q))
      → Loaded os (λ q. P q × Q q) r (next s rest)
  next-Loaded P Q r (q, err e) rest lasts l then_rest =
      Loaded-err os (λ p. P p × Q p) e l.keeps l.valid
  next-Loaded P Q r (q, ok tt) rest lasts l then_rest =
      let m = then_rest q l.valid in
      record {
        valid = m.valid;
        keeps = Keeps-trans os l.keeps m.keeps;
        goal = λ h. (lasts q (rest q).0 m.keeps (l.goal refl), m.goal h);
      }

  module _ {Spec : Type 0} (P : PluginRegistry Instance → Spec → Type 0)
      (lasts : (spec : Spec) (q p : PluginRegistry Instance)
        → Keeps os q p
        → P q spec
        → P p spec) where
    All-lasts :
        (specs : List Spec) (q p : PluginRegistry Instance)
        → Keeps os q p
        → All (P q) specs
        → All (P p) specs
    All-lasts specs q p k h = All-imp (P q) (P p) specs (λ spec. lasts spec q p k) h

    load_each-Loaded :
        (load_one : Spec → PluginRegistry Instance → Step (PluginRegistry Instance))
        → ((spec : Spec) (r : PluginRegistry Instance)
            → IsWellFormed os r
            → Loaded os (λ q. P q spec) r (load_one spec r))
        → (specs : List Spec) (r : PluginRegistry Instance) → IsWellFormed os r
        → Loaded os (λ q. All (P q) specs) r (load_each os load_one specs r)
    unfolding load_each
    load_each-Loaded load_one each [] r w = Loaded-ok os (λ q. All (P q) []) (Keeps-refl os r) w tt
    load_each-Loaded load_one each (spec ∷ specs) r w =
        next-Loaded (λ q. P q spec) (λ q. All (P q) specs) r (load_one spec r)
          (load_each os load_one specs) (lasts spec) (each spec r w)
          (load_each-Loaded load_one each specs)

  -- Every device has a factory for its driver, and every enabled plugin one of its kind.
  pub record HasFactories (config : ApplicationConfig) (r : PluginRegistry Instance) : Type 0 where
    pub drivers :
        All (λ (d : DeviceConfig). HasFactory os driver d.driver.type r) config.gateway.devices
    pub processors : All (Serves processor r) config.processors
    pub event_publishers : All (Serves event_publisher r) config.event_publishers
    pub device_control_sources : All (Serves device_control_source r) config.device_control_sources

  load_plugins-Loaded :
      (k : PluginKind)
      → ((p : String) → os.same p p ≡ true)
      → (specs : List PluginConfig) (r : PluginRegistry Instance) → IsWellFormed os r
      → Loaded os (λ q. All (Serves k q) specs) r (load_each os (load_plugin os k) specs r)
  load_plugins-Loaded k same specs r w =
      load_each-Loaded (Serves k) (Serves-lasts k) (load_plugin os k) (load_plugin-Loaded k same)
        specs r w

  abbrev flagged : PluginRegistry Instance → PluginRegistry Instance
  flagged r = record r { dynamic_loading_called = true }

  flagged-Extends : (r : PluginRegistry Instance) → Extends os r (flagged r)
  unfolding factories
  flagged-Extends r = record {
    keeps = record { factory = tables; called = λ h. refl };
    sources = refl;
    owners = λ library key h. h;
  }
    where
      tables :
          (k : PluginKind) (type : String)
          → HasFactory os k type r
          → HasFactory os k type (flagged r)
      tables driver type h = h
      tables processor type h = h
      tables event_publisher type h = h
      tables device_control_source type h = h

  -- the four loops
  abbrev loops : ApplicationConfig → PluginRegistry Instance → Step (PluginRegistry Instance)
  loops config r =
      next (load_each os (λ (d : DeviceConfig). load_driver os d.driver) config.gateway.devices r)
        (λ r₁. next (load_each os (load_processor os) config.processors r₁) (λ r₂.
          next (load_each os (load_publisher os) config.event_publishers r₂)
            (load_each os (load_control_source os) config.device_control_sources)))

  loops-Loaded :
      (config : ApplicationConfig) (r : PluginRegistry Instance)
      → IsPathEquality os.same
      → IsWellFormed os r
      → Loaded os (HasFactories config) r (loops config r)
  unfolding load_driver load_processor load_publisher load_control_source
  loops-Loaded config r paths w =
      let l =
        next-Loaded Drivers (λ q. Processors q × (Publishers q × Sources q)) r _ _
          (All-lasts (λ q d. HasFactory os driver d.driver.type q)
            (λ d q p kept h. kept.factory driver d.driver.type h) config.gateway.devices)
          (load_each-Loaded (λ q d. HasFactory os driver d.driver.type q)
            (λ d q p kept h. kept.factory driver d.driver.type h) (λ d. load_driver os d.driver)
            (λ d q v.
              load-Loaded os driver d.driver.type d.driver.library q
                (paths.reflexive d.driver.library) v)
            config.gateway.devices r w)
          (λ q v.
            next-Loaded Processors (λ p. Publishers p × Sources p) q _ _
              (All-lasts (Serves processor) (Serves-lasts processor) config.processors)
              (load_plugins-Loaded processor paths.reflexive config.processors q v)
              (λ p u.
                next-Loaded Publishers Sources p _ _
                  (All-lasts (Serves event_publisher) (Serves-lasts event_publisher)
                    config.event_publishers)
                  (load_plugins-Loaded event_publisher paths.reflexive config.event_publishers p u)
                  (load_plugins-Loaded device_control_source paths.reflexive
                    config.device_control_sources))) in
      record {
        valid = l.valid;
        keeps = l.keeps;
        goal = λ h.
            let (drivers, (processors, (publishers, sources))) = l.goal h in
            record {
              drivers = drivers;
              processors = processors;
              event_publishers = publishers;
              device_control_sources = sources;
            };
      }
    where
      Drivers : PluginRegistry Instance → Type 0
      Drivers q =
          All (λ (d : DeviceConfig). HasFactory os driver d.driver.type q) config.gateway.devices

      Processors : PluginRegistry Instance → Type 0
      Processors q = All (Serves processor q) config.processors

      Publishers : PluginRegistry Instance → Type 0
      Publishers q = All (Serves event_publisher q) config.event_publishers

      Sources : PluginRegistry Instance → Type 0
      Sources q = All (Serves device_control_source q) config.device_control_sources

  load_dynamic_plugins-Loaded :
      (config : ApplicationConfig) (r : PluginRegistry Instance)
      → IsPathEquality os.same
      → IsWellFormed os r
      → Loaded os (HasFactories config) r (load_dynamic_plugins os config r)
  unfolding load_dynamic_plugins
  load_dynamic_plugins-Loaded config r paths w =
      Goal-if os (HasFactories config) r.dynamic_loading_called _ _
        (λ e. Loaded-err os (HasFactories config) _ (Keeps-refl os r) w)
        (λ e.
          let start = flagged-Extends r in
          let l = loops-Loaded config (flagged r) paths (Extends-IsWellFormed os start w) in
          record { valid = l.valid; keeps = Keeps-trans os start.keeps l.keeps; goal = l.goal })

  -- Where `==` of paths is an equivalence, loading leaves a well-formed registry well formed, whether
  -- it returns or throws on the way: each plugin that came from a library has its factory, and the
  -- library belongs to the plugin.
  pub load_dynamic_plugins-IsWellFormed :
      (config : ApplicationConfig) (r : PluginRegistry Instance)
      → IsPathEquality os.same
      → IsWellFormed os r
      → IsWellFormed os (load_dynamic_plugins os config r).0
  load_dynamic_plugins-IsWellFormed config r paths w =
      (load_dynamic_plugins-Loaded config r paths w).valid

  -- Where `==` of paths is an equivalence and loading into a well-formed registry returns, there is a
  -- factory for the driver of every device and for every enabled processor, event publisher and
  -- device control source.
  pub load_dynamic_plugins-HasFactories :
      (config : ApplicationConfig) (r : PluginRegistry Instance)
      → IsPathEquality os.same
      → IsWellFormed os r
      → (load_dynamic_plugins os config r).1 ≡ ok tt
      → HasFactories config (load_dynamic_plugins os config r).0
  load_dynamic_plugins-HasFactories config r paths w h =
      (load_dynamic_plugins-Loaded config r paths w).goal h

  load_dynamic_plugins-called :
      (config : ApplicationConfig) (r : PluginRegistry Instance)
      → IsPathEquality os.same
      → IsWellFormed os r
      → (load_dynamic_plugins os config r).0.dynamic_loading_called ≡ true
  unfolding load_dynamic_plugins
  load_dynamic_plugins-called config r paths w = go r.dynamic_loading_called refl
    where
      go :
          (b : Bool)
          → r.dynamic_loading_called ≡ b
          → (if b
              then (r, err (logic_error "dynamic plugins can only be loaded once per registry"))
              else loops config (flagged r)).0.dynamic_loading_called
            ≡ true
      go true e = e
      go false e =
          (loops-Loaded config (flagged r) paths
              (Extends-IsWellFormed os (flagged-Extends r) w)).keeps.called
            refl

  -- Where `==` of paths is an equivalence, a registry that was well formed is loaded once: after a
  -- first call, also one that threw, a second throws and changes nothing.
  load_dynamic_plugins_once :
      (first second : ApplicationConfig) (r : PluginRegistry Instance)
      → IsPathEquality os.same
      → IsWellFormed os r
      → load_dynamic_plugins os second (load_dynamic_plugins os first r).0 ≡ (
        (load_dynamic_plugins os first r).0,
        err (logic_error "dynamic plugins can only be loaded once per registry"),
      )
  unfolding load_dynamic_plugins
  load_dynamic_plugins_once first second r paths w =
      simp (load_dynamic_plugins-called first r paths w)
