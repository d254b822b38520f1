-- ===== src/Plugins/Valid/Owners.antt =====
-- A library serves one plugin: one kind and one type.
use mini_gateway.Prelude.{
  ◌≡◌, refl, sym, ◌∙◌, true, String, some, [], ◌∷◌, arith, Bool-cases, inl, inr, Table, lookup,
}
use mini_gateway.Config.{ApplicationConfig}
use mini_gateway.Plugins.{PluginKind, Libraries, PluginRegistry}
use mini_gateway.Plugins.Keys.{source_key, source_key_injective}
use mini_gateway.Plugins.Load.{find_owner, load_dynamic_plugins}
use mini_gateway.Plugins.Valid.{IsPathEquality, IsWellFormed}
use mini_gateway.Plugins.Valid.Whole.{load_dynamic_plugins-IsWellFormed}

module _ {Instance : PluginKind → Type 0} (os : Libraries Instance) where
  same_second :
      (path l m : String)
      → IsPathEquality os.same
      → os.same l m ≡ true
      → os.same path l ≡ os.same path m
  same_second path l m paths h = elim (Bool-cases (os.same path l)) [
    | inl yes_l ↦ yes_l ∙ sym (paths.transitive path l m yes_l h)
    | inr no_l ↦ elim (Bool-cases (os.same path m)) [
      | inl yes_m ↦ yes_m_only yes_m
      | inr no_m ↦ no_l ∙ sym no_m
    ]
  ]
    where
      yes_m_only : os.same path m ≡ true → os.same path l ≡ os.same path m
      yes_m_only e = paths.transitive path m l e (paths.symmetric l m h) ∙ sym e

  find_owner-same :
      (l m : String) (owners : Table String)
      → IsPathEquality os.same
      → os.same l m ≡ true
      → find_owner os l owners ≡ find_owner os m owners
  unfolding find_owner
  find_owner-same l m [] paths h = refl
  find_owner-same l m ((path, key) ∷ owners) paths h =
      ground (arith, same_second path l m paths h, find_owner-same l m owners paths h)

  -- Where `==` of paths is an equivalence, after loading into a well-formed registry (whether the call
  -- returned or threw) two plugins whose factories came from the same library are the same plugin,
  -- of one kind and one type.
  pub load_dynamic_plugins-one_library :
      (config : ApplicationConfig) (r : PluginRegistry Instance) (k j : PluginKind)
      (s t l m : String)
      → IsPathEquality os.same
      → IsWellFormed os r
      → lookup (source_key k s) (load_dynamic_plugins os config r).0.dynamic_plugin_sources ≡ some l
      → lookup (source_key j t) (load_dynamic_plugins os config r).0.dynamic_plugin_sources ≡ some m
      → os.same l m ≡ true
      → (k ≡ j) × (s ≡ t)
  load_dynamic_plugins-one_library config r k j s t l m paths w first second h =
      let valid = load_dynamic_plugins-IsWellFormed os config r paths w in
      let keys : some (source_key k s) ≡ some (source_key j t) =
        sym (valid.owned (source_key k s) l first)
        ∙ find_owner-same l m _ paths h
        ∙ valid.owned (source_key j t) m second in
      source_key_injective k j s t cc
