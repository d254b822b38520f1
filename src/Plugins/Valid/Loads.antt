-- ===== src/Plugins/Valid/Loads.antt =====
-- `load_dynamic_plugins` on a well-formed registry.
use mini_gateway.Prelude.{
  ◌≡◌, refl, ap, subst, ◌∙◌, Bool, true, false, not, String, Option, none, some, is_empty, arith,
  if◌then◌else◌, Table, lookup, emplace, lookup-emplace, inl, inr, Result, ok, err,
  invalid_argument, Error, concat,
}
use mini_gateway.Plugins.{
  PluginKind, category, Libraries, PluginRegistry, has_factory, factories, register,
  dynamic_factory,
}
use mini_gateway.Plugins.Keys.{source_key, source_key_injective}
use mini_gateway.Plugins.Load.{
  Step, attempt, multiple_libraries, find_owner, claim_library, find_or_open, function_symbols,
  add_plugin, load,
}
use mini_gateway.Plugins.Valid.{
  HasFactory, IsWellFormed, Keeps, Keeps-refl, Keeps-trans, Extends-trans, Extends-IsWellFormed,
}
use mini_gateway.Plugins.Valid.Steps.{
  Keeps-tables, claim_library-Extends, find_or_open-Extends, register-Extends,
}

attempt-elim :
    {Registry A : Type 0} (P : Step Registry → Type 0) (r : Registry) (call : Result A)
    (rest : A → Step Registry)
    → ((e : Error) → P (r, err e))
    → ((a : A) → call ≡ ok a → P (rest a))
    → P (attempt r call rest)
attempt-elim P r (err e) rest thrown returned = thrown e
attempt-elim P r (ok a) rest thrown returned = returned a refl

module _ {Instance : PluginKind → Type 0} (os : Libraries Instance) where
  -- A step leaves a well-formed registry that keeps what was there, whether it returns or throws;
  -- and what it is for holds when it returns.
  pub record Loaded (Goal : PluginRegistry Instance → Type 0) (r : PluginRegistry Instance)
      (s : Step (PluginRegistry Instance)) : Type 0 where
    pub valid : IsWellFormed os s.0
    pub keeps : Keeps os r s.0
    pub goal : s.1 ≡ ok tt → Goal s.0

  pub Loaded-err :
      (Goal : PluginRegistry Instance → Type 0) {r q : PluginRegistry Instance} (e : Error)
      → Keeps os r q
      → IsWellFormed os q
      → Loaded Goal r (q, err e)
  Loaded-err Goal e k w = record { valid = w; keeps = k; goal = λ h. absurd cc }

  pub Loaded-ok :
      (Goal : PluginRegistry Instance → Type 0) {r q : PluginRegistry Instance}
      → Keeps os r q
      → IsWellFormed os q
      → Goal q
      → Loaded Goal r (q, ok tt)
  Loaded-ok Goal k w g = record { valid = w; keeps = k; goal = λ h. g }

  source-Keeps :
      (q : PluginRegistry Instance) (sources : Table String)
      → Keeps os q (record q { dynamic_plugin_sources = sources })
  source-Keeps q sources = Keeps-tables os q q.dynamic_plugins sources q.dynamic_library_owners

  -- A source is added for a registered factory of a library that belongs to it.
  add_source :
      (k : PluginKind) (type library : String) (q : PluginRegistry Instance)
      → IsWellFormed os q
      → lookup (source_key k type) q.dynamic_plugin_sources ≡ none
      → HasFactory os k type q
      → find_owner os library q.dynamic_library_owners ≡ some (source_key k type)
      → IsWellFormed os (record q {
        dynamic_plugin_sources = emplace (source_key k type) library q.dynamic_plugin_sources;
      })
  add_source k type library q w new has owned = record {
    registered = λ j s l h.
        (source-Keeps q _).factory j s
          (elim (lookup-emplace (source_key k type) (source_key j s) library l
            q.dynamic_plugin_sources new h) [
              | inl same ↦
                  let (kinds, types) = source_key_injective k j type s same.0 in
                  subst (λ i. HasFactory os i s q) kinds
                    (subst (λ t. HasFactory os k t q) types has)
              | inr found ↦ w.registered j s l found
            ]);
    owned = λ key l h.
        elim (lookup-emplace (source_key k type) key library l q.dynamic_plugin_sources new h) [
          | inl same ↦
              subst (λ i. find_owner os l q.dynamic_library_owners ≡ some i) same.0
                (subst (λ m. find_owner os m q.dynamic_library_owners ≡ some (source_key k type))
                  same.1 owned)
          | inr found ↦ w.owned key l found
        ];
  }

  add_plugin-Loaded :
      (k : PluginKind) (type library : String) (r : PluginRegistry Instance)
      → os.same library library ≡ true
      → IsWellFormed os r
      → lookup (source_key k type) r.dynamic_plugin_sources ≡ none
      → Loaded (HasFactory os k type) r (add_plugin os k type library r)
  unfolding add_plugin
  add_plugin-Loaded k type library r same w new =
      attempt-elim (Loaded (HasFactory os k type) r) r
        (claim_library os library (source_key k type) r) _
        (λ e. Loaded-err (HasFactory os k type) e (Keeps-refl os r) w)
        (λ a claimed.
          let (ea, owned) = claim_library-Extends os library (source_key k type) r same claimed in
          attempt-elim (Loaded (HasFactory os k type) r) a (find_or_open os library type a) _
            (λ e. Loaded-err (HasFactory os k type) e ea.keeps (Extends-IsWellFormed os ea w))
            (λ o opened.
              let (eo, same_owners) = find_or_open-Extends os library type a opened in
              let eb = Extends-trans os ea eo in
              attempt-elim (Loaded (HasFactory os k type) r) o.0 (function_symbols os k o.1 type) _
                (λ e. Loaded-err (HasFactory os k type) e eb.keeps (Extends-IsWellFormed os eb w))
                (λ create found.
                  attempt-elim (Loaded (HasFactory os k type) r) o.0
                    (register k type (some (dynamic_factory create type)) o.0) _
                    (λ e.
                      Loaded-err (HasFactory os k type) e eb.keeps (Extends-IsWellFormed os eb w))
                    (λ q registered.
                      let (er, has, kept) =
                        register-Extends os k type (dynamic_factory create type) o.0 registered in
                      let e = Extends-trans os eb er in
                      Loaded-ok (HasFactory os k type) (Keeps-trans os e.keeps (source-Keeps q _))
                        (add_source k type library q (Extends-IsWellFormed os e w)
                          (ap (lookup (source_key k type)) e.sources ∙ new) has
                          (ap (find_owner os library) (kept ∙ same_owners) ∙ owned))
                        ((source-Keeps q _).factory k type has)))))

  pub Goal-if :
      (Goal : PluginRegistry Instance → Type 0) (b : Bool) {r : PluginRegistry Instance}
      (x y : Step (PluginRegistry Instance))
      → (b ≡ true → Loaded Goal r x)
      → (b ≡ false → Loaded Goal r y)
      → Loaded Goal r (if b then x else y)
  Goal-if Goal true x y yes_case no_case = yes_case refl
  Goal-if Goal false x y yes_case no_case = no_case refl

  pub load-Loaded :
      (k : PluginKind) (type library : String) (r : PluginRegistry Instance)
      → os.same library library ≡ true
      → IsWellFormed os r
      → Loaded (HasFactory os k type) r (load os k type library r)
  unfolding load
  load-Loaded k type library r same w =
      Goal-if Goal (is_empty library) _ _
        (λ e.
          Goal-if Goal (not (has_factory (factories k r) type)) _ _
            (λ a. Loaded-err Goal _ (Keeps-refl os r) w)
            (λ a. Loaded-ok Goal (Keeps-refl os r) w (ground arith)))
        (λ e. by_source (lookup (source_key k type) r.dynamic_plugin_sources) refl)
    where
      Goal : PluginRegistry Instance → Type 0
      Goal = HasFactory os k type

      by_source :
          (o : Option String)
          → lookup (source_key k type) r.dynamic_plugin_sources ≡ o
          → Loaded Goal r (elim o [
            | some previous ↦
                if not (os.same previous library)
                then (r, err (invalid_argument (multiple_libraries k type)))
                else (r, ok tt)
            | none ↦
                if has_factory (factories k r) type
                then (
                  r,
                  err (
                      invalid_argument
                        (concat "duplicate " (concat (category k) (concat " plugin type: " type)))),
                )
                else add_plugin os k type library r
          ])
      by_source (some previous) e =
          Goal-if Goal (not (os.same previous library)) _ _
            (λ a. Loaded-err Goal _ (Keeps-refl os r) w)
            (λ a. Loaded-ok Goal (Keeps-refl os r) w (w.registered k type previous e))
      by_source none e =
          Goal-if Goal (has_factory (factories k r) type) _ _
            (λ a. Loaded-err Goal _ (Keeps-refl os r) w)
            (λ a. add_plugin-Loaded k type library r same w e)
