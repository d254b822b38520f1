-- ===== src/Plugins/Example.antt =====
-- A platform with one plugin library, by which the tests run.
use mini_gateway.Prelude.{
  true, none, some, String, str_eq, eq_iff, eq_refl, if◌then◌else◌, ok, lookup, ◌∙◌, sym,
}
use mini_gateway.Plugins.{PluginKind, Libraries, empty_registry}
use mini_gateway.Plugins.Valid.{IsPathEquality, IsWellFormed}

-- An instance is the settings that it was made with.
abbrev pub Made : PluginKind → Type 0
Made k = String

abbrev pub libraries : Libraries Made
libraries = record {
  same = str_eq;
  has_filename = λ path. true;
  has_extension = λ path. true;
  dlopen = λ path.
      if str_eq path "libsim.so"
      then some (record {
        create_plugin = some (λ k settings. ok (some settings));
        destroy_plugin = true;
      })
      else none;
  dlerror = λ path. some "no such file";
}

pub libraries-IsPathEquality : IsPathEquality libraries.same
libraries-IsPathEquality = record {
  reflexive = λ p. eq_refl p;
  symmetric = λ p q h. (eq_iff q p).1 (sym ((eq_iff p q).0 h));
  transitive = λ p q s h i. (eq_iff p s).1 ((eq_iff p q).0 h ∙ (eq_iff q s).0 i);
}

pub empty-IsWellFormed : IsWellFormed libraries (empty_registry Made)
unfolding lookup
empty-IsWellFormed = record {
  registered = λ k type library h. absurd cc;
  owned = λ key library h. absurd cc;
}
