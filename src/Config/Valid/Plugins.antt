-- ===== src/Config/Valid/Plugins.antt =====
-- The lists of plugins that are read.
use mini_gateway.Prelude.{
  ◌>>=◌, ℕ, suc, ◌≡◌, ◌≢◌, subst, Bool, true, false, not, ◌&&◌, String, concat, List, [], ◌∷◌, map,
  ok, >>=_returns, throw_if-eq-ok, ok_injective, All, Distinct, Fresh, Fresh-uncons, member,
  member-Absent, is_some, if◌then◌else◌,
}
use mini_gateway.Model.Std.{Platform}
use mini_gateway.Config.{PluginConfig}
use mini_gateway.Config.Json.{JsonLibrary}
use mini_gateway.Config.Fields.{
  object_member, array_member, string_member, optional_path_member, optional_enabled, item_path,
}
use mini_gateway.Config.Parse.{parse_plugin, plugin_loop, parse_plugins}
use mini_gateway.Config.Valid.{string_member_named}

-- Every plugin has an id and a type, and no two of a list have the same id.
abbrev pub IsPluginList : List PluginConfig → Type 0
IsPluginList ps = All (λ p. (p.id ≢ "") × (p.type ≢ "")) ps × Distinct (map (λ p. p.id) ps)

module _ {Json : Type 0} (std : Platform) (json : JsonLibrary Json) where
  parse_plugin_valid :
      (seen : List String) (value : Json) (path : String) {p : PluginConfig}
      → parse_plugin std json seen value path ≡ ok p
      → ((p.id ≢ "") × (p.type ≢ "")) × (member p.id seen ≡ false)
  unfolding parse_plugin
  parse_plugin_valid seen value path {p} h =
      let (o, h₁) = throw_if-eq-ok (not (json.is_object value)) _ _ h in
      let (id, h₂, e₂) = >>=_returns (string_member std json value "id" path false) _ h₁ in
      let (type, h₃, e₃) = >>=_returns (string_member std json value "type" path false) _ h₂ in
      let (enabled, h₄, e₄) = >>=_returns (optional_enabled std json value path) _ h₃ in
      let (settings, h₅, e₅) = >>=_returns (object_member std json value "config" path) _ h₄ in
      let (library, h₆, e₆) =
        >>=_returns (optional_path_member std json value "library" path) _ h₅ in
      let (new, done) = throw_if-eq-ok (member id seen) _ _ h₆ in
      subst (λ q. ((q.id ≢ "") × (q.type ≢ "")) × (member q.id seen ≡ false)) (ok_injective done)
        (
          (
            string_member_named std json value "id" path e₂,
            string_member_named std json value "type" path e₃,
          ),
          new,
        )

  plugin_loop_valid :
      (base : String) (index : ℕ) (seen : List String) (values : List Json)
      {plugins : List PluginConfig}
      → plugin_loop std json base index seen values ≡ ok plugins
      → IsPluginList plugins × Fresh seen (map (λ p. p.id) plugins)
  unfolding plugin_loop
  plugin_loop_valid base index seen [] {plugins} h =
      subst (λ ps. IsPluginList ps × Fresh seen (map (λ p. p.id) ps)) (ok_injective h)
        ((tt, tt), tt)
  plugin_loop_valid base index seen (value ∷ values) {plugins} h =
      let (p, h₁, e) =
        >>=_returns (parse_plugin std json seen value (item_path std base index)) _ h in
      let (ps, h₂, e₂) =
        >>=_returns (plugin_loop std json base (suc index) (p.id ∷ seen) values) _ h₁ in
      let (named, new) = parse_plugin_valid seen value (item_path std base index) e in
      let ((valid, distinct), fresh) = plugin_loop_valid base (suc index) (p.id ∷ seen) values e₂ in
      let (absent, others) = Fresh-uncons p.id seen (map (λ q. q.id) ps) fresh in
      subst (λ qs. IsPluginList qs × Fresh seen (map (λ q. q.id) qs)) (ok_injective h₂)
        (((named, valid), (absent, distinct)), ((member-Absent p.id seen).0 new, others))

  pub parse_plugins_valid :
      (root : Json) (key : String) (optional : Bool) {plugins : List PluginConfig}
      → parse_plugins std json root key optional ≡ ok plugins
      → IsPluginList plugins
  unfolding parse_plugins
  parse_plugins_valid root key optional {plugins} h =
      go (optional && not (is_some (json.find key root))) h
    where
      go :
          (b : Bool)
          → (if b
              then ok []
              else (array_member std json root key "root" >>= λ values.
                  plugin_loop std json (concat "root." key) 0 [] values))
            ≡ ok plugins
          → IsPluginList plugins
      go true e = subst IsPluginList (ok_injective e) (tt, tt)
      go false e =
          let (values, h₁, e₁) = >>=_returns (array_member std json root key "root") _ e in
          (plugin_loop_valid (concat "root." key) 0 [] values h₁).0
