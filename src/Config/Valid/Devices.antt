-- ===== src/Config/Valid/Devices.antt =====
-- The devices that are read satisfy what the normalizer asks of them, and the table of point names
-- names points of theirs.
use mini_gateway.Prelude.{
  Any, ◌∙◌, ℕ, suc, ◌≡◌, ◌≢◌, refl, sym, subst, Bool, true, false, not, String, some, List, [], ◌∷◌,
  map, arith, eq_iff, ok, >>=_returns, throw_if-eq-ok, ok_injective, ◌⊎◌, inl, inr, Fresh,
  Fresh-uncons, member, member-Absent, member-cons, Table, lookup, insert, lookup-insert, str_eq,
  if◌then◌else◌,
}
use mini_gateway.Model.{PointConfig, DeviceConfig}
use mini_gateway.Model.Std.{Platform}
use mini_gateway.Normalizer.Points.{IsPointList, IsDeviceList}
use mini_gateway.Config.Json.{JsonLibrary}
use mini_gateway.Config.Fields.{
  json_member, object_member, array_member, string_member, optional_path_member, string_map,
  no_elements, field_path, item_path,
}
use mini_gateway.Config.Parse.{parse_point, parse_points, parse_device, device_loop, parse_devices}
use mini_gateway.Config.Valid.{string_member_named, parse_point_valid}

-- The device has this id, and the names are names of its points.
abbrev pub HasPoints : String → List String → DeviceConfig → Type 0
HasPoints id names d =
    (d.id ≡ id) × ((n : String) → member n names ≡ true → Any (λ p. p.name ≡ n) d.points)

module _ {Json : Type 0} (std : Platform) (json : JsonLibrary Json) where
  -- one turn of the loop over points
  parse_points_step :
      (path : String) (index : ℕ) (names : List String) (value : Json) (values : List Json)
      {result : List PointConfig × List String}
      → parse_points std json path index names (value ∷ values) ≡ ok result
      → (p : PointConfig) × (ps : List PointConfig) × (parse_point std json value
            (item_path std path index)
          ≡ ok p)
        × (member p.name names ≡ false)
        × (parse_points std json path (suc index) (p.name ∷ names) values ≡ ok (ps, result.1))
        × (result.0 ≡ p ∷ ps)
  unfolding parse_points
  parse_points_step path index names value values {result} h =
      let (p, h₁, e) = >>=_returns (parse_point std json value (item_path std path index)) _ h in
      let (new, h₂) = throw_if-eq-ok (member p.name names) _ _ h₁ in
      let (rest, h₃, e₃) =
        >>=_returns (parse_points std json path (suc index) (p.name ∷ names) values) _ h₂ in
      (p, rest.0, e, new, ground arith, ground arith)

  pub parse_points_valid :
      (path : String) (index : ℕ) (names : List String) (values : List Json)
      {result : List PointConfig × List String}
      → parse_points std json path index names values ≡ ok result
      → IsPointList std result.0 × Fresh names (map (λ p. p.name) result.0)
  unfolding parse_points
  parse_points_valid path index names [] {result} h =
      let e : result.0 ≡ [] = ground arith in
      subst (λ ps. IsPointList std ps × Fresh names (map (λ p. p.name) ps)) (sym e) ((tt, tt), tt)
  parse_points_valid path index names (value ∷ values) {result} h =
      let (p, ps, e, new, rest, is) = parse_points_step path index names value values h in
      let ((valid, distinct), fresh) =
        parse_points_valid path (suc index) (p.name ∷ names) values rest in
      let (absent, others) = Fresh-uncons p.name names (map (λ q. q.name) ps) fresh in
      subst (λ qs. IsPointList std qs × Fresh names (map (λ q. q.name) qs)) (sym is)
        (
          (
            (parse_point_valid std json value (item_path std path index) e, valid),
            (absent, distinct),
          ),
          ((member-Absent p.name names).0 new, others),
        )

  -- A name among those at the end was there, or is a point's.
  pub parse_points_names :
      (path : String) (index : ℕ) (names : List String) (values : List Json)
      {result : List PointConfig × List String} (name : String)
      → parse_points std json path index names values ≡ ok result
      → member name result.1 ≡ true
      → (member name names ≡ true) ⊎ Any (λ p. p.name ≡ name) result.0
  unfolding parse_points
  parse_points_names path index names [] {result} name h found = inl (ground arith)
  parse_points_names path index names (value ∷ values) {result} name h found =
      let (p, ps, e, new, rest, is) = parse_points_step path index names value values h in
      subst (λ qs. (member name names ≡ true) ⊎ Any (λ q. q.name ≡ name) qs) (sym is)
        (later p ps (parse_points_names path (suc index) (p.name ∷ names) values name rest found))
    where
      here :
          (p : PointConfig) (ps : List PointConfig)
          → (p.name ≡ name) ⊎ (member name names ≡ true)
          → (member name names ≡ true) ⊎ Any (λ q. q.name ≡ name) (p ∷ ps)
      here p ps (inl e) = inr (inl e)
      here p ps (inr old) = inl old

      later :
          (p : PointConfig) (ps : List PointConfig)
          → (member name (p.name ∷ names) ≡ true) ⊎ Any (λ q. q.name ≡ name) ps
          → (member name names ≡ true) ⊎ Any (λ q. q.name ≡ name) (p ∷ ps)
      later p ps (inl old) = here p ps (member-cons name p.name names old)
      later p ps (inr any) = inr (inr any)

  -- What a device that was read satisfies, with the names of its points.
  abbrev pub IsRead : List String → DeviceConfig → List String → Type 0
  IsRead seen d names =
      (d.id ≢ "")
      × IsPointList std d.points
      × (member d.id seen ≡ false)
      × ((n : String) → member n names ≡ true → Any (λ p. p.name ≡ n) d.points)

  parse_device_valid :
      (seen : List String) (value : Json) (path : String) {result : DeviceConfig × List String}
      → parse_device std json seen value path ≡ ok result
      → IsRead seen result.0 result.1
  unfolding parse_device member
  parse_device_valid seen value path {result} h =
      let (o, h₁) = throw_if-eq-ok (not (json.is_object value)) _ _ h in
      let (id, h₂, named) = >>=_returns (string_member std json value "id" path false) _ h₁ in
      let (new, h₃) = throw_if-eq-ok (member id seen) _ _ h₂ in
      let (type, h₄, e₄) = >>=_returns (string_member std json value "driver" path false) _ h₃ in
      let (settings, h₅, e₅) =
        >>=_returns (object_member std json value "driver_config" path) _ h₄ in
      let (library, h₆, e₆) =
        >>=_returns (optional_path_member std json value "library" path) _ h₅ in
      let (cv, h₇, e₇) = >>=_returns (json_member std json value "connection" path) _ h₆ in
      let (connection, h₈, e₈) =
        >>=_returns (string_map std json cv (field_path path "connection")) _ h₇ in
      let (values, h₉, e₉) = >>=_returns (array_member std json value "points" path) _ h₈ in
      let (some_points, hₐ) = throw_if-eq-ok (no_elements std json values) _ _ h₉ in
      let (points, done, eₑ) =
        >>=_returns (parse_points std json (field_path path "points") 0 [] values) _ hₐ in
      let device : DeviceConfig = record {
        id = id;
        driver = record { type = type; settings_json = json.dump settings; library = library };
        connection = connection;
        points = points.0;
      } in
      let same : (device, points.1) ≡ result = ok_injective done in
      subst (λ r. IsRead seen r.0 r.1) same
        (
          string_member_named std json value "id" path named,
          (parse_points_valid (field_path path "points") 0 [] values eₑ).0,
          new,
          λ n found.
              known points.0 n
                (parse_points_names (field_path path "points") 0 [] values n eₑ found),
        )
    where
      known :
          (ps : List PointConfig) (n : String)
          → (member n [] ≡ true) ⊎ Any (λ p. p.name ≡ n) ps
          → Any (λ p. p.name ≡ n) ps
      known ps n (inl never) = absurd cc
      known ps n (inr any) = any

  device_loop_step :
      (index : ℕ) (seen : List String) (points : Table (List String)) (value : Json)
      (values : List Json) {result : List DeviceConfig × Table (List String)}
      → device_loop std json index seen points (value ∷ values) ≡ ok result
      → (d : DeviceConfig) × (names : List String) × (ds : List DeviceConfig) × IsRead seen d names
        × (device_loop std json (suc index) (d.id ∷ seen) (insert d.id names points) values
            ≡ ok (ds, result.1))
        × (result.0 ≡ d ∷ ds)
  unfolding device_loop
  device_loop_step index seen points value values {result} h =
      let path : String = item_path std "root.devices" index in
      let (d, h₁, e) = >>=_returns (parse_device std json seen value path) _ h in
      let (rest, h₂, e₂) =
        >>=_returns
          (device_loop std json (suc index) (d.0.id ∷ seen) (insert d.0.id d.1 points) values) _
          h₁ in
      (d.0, d.1, rest.0, parse_device_valid seen value path e, ground arith, ground arith)

  pub device_loop_valid :
      (index : ℕ) (seen : List String) (points : Table (List String)) (values : List Json)
      {result : List DeviceConfig × Table (List String)}
      → device_loop std json index seen points values ≡ ok result
      → IsDeviceList std result.0 × Fresh seen (map (λ d. d.id) result.0)
  unfolding device_loop
  device_loop_valid index seen points [] {result} h =
      let e : result.0 ≡ [] = ground arith in
      subst (λ ds. IsDeviceList std ds × Fresh seen (map (λ d. d.id) ds)) (sym e) ((tt, tt), tt)
  device_loop_valid index seen points (value ∷ values) {result} h =
      let (d, names, ds, (named, listed, new, known), rest, is) =
        device_loop_step index seen points value values h in
      let ((valid, distinct), fresh) =
        device_loop_valid (suc index) (d.id ∷ seen) (insert d.id names points) values rest in
      let (absent, others) = Fresh-uncons d.id seen (map (λ e. e.id) ds) fresh in
      subst (λ es. IsDeviceList std es × Fresh seen (map (λ e. e.id) es)) (sym is)
        ((((named, listed), valid), (absent, distinct)), ((member-Absent d.id seen).0 new, others))

  -- What the table says at the end it said before, or it says it of a device that was read.
  pub device_loop_points :
      (index : ℕ) (seen : List String) (points : Table (List String)) (values : List Json)
      {result : List DeviceConfig × Table (List String)} (id : String) (names : List String)
      → device_loop std json index seen points values ≡ ok result
      → lookup id result.1 ≡ some names
      → (lookup id points ≡ some names) ⊎ Any (HasPoints id names) result.0
  unfolding device_loop
  device_loop_points index seen points [] {result} id names h found =
      let e : points ≡ result.1 = ground arith in
      inl (subst (λ t. lookup id t ≡ some names) (sym e) found)
  device_loop_points index seen points (value ∷ values) {result} id names h found =
      let (d, own, ds, (named, listed, new, known), rest, is) =
        device_loop_step index seen points value values h in
      subst (λ es. (lookup id points ≡ some names) ⊎ Any (HasPoints id names) es) (sym is)
        (later d own ds known (
          device_loop_points (suc index) (d.id ∷ seen) (insert d.id own points) values id names rest
            found))
    where
      here :
          (d : DeviceConfig) (own : List String) (ds : List DeviceConfig)
          → ((n : String) → member n own ≡ true → Any (λ p. p.name ≡ n) d.points)
          → (b : Bool) → str_eq d.id id ≡ b
          → (if b then some own else lookup id points) ≡ some names
          → (lookup id points ≡ some names) ⊎ Any (HasPoints id names) (d ∷ ds)
      here d own ds known true e f =
          let same : own ≡ names = cc in
          inr (
            inl (
              ground (arith, eq_iff d.id id),
              subst (λ ns. (n : String) → member n ns ≡ true → Any (λ p. p.name ≡ n) d.points) same
                  known,
            ))
      here d own ds known false e f = inl f

      later :
          (d : DeviceConfig) (own : List String) (ds : List DeviceConfig)
          → ((n : String) → member n own ≡ true → Any (λ p. p.name ≡ n) d.points)
          → (lookup id (insert d.id own points) ≡ some names) ⊎ Any (HasPoints id names) ds
          → (lookup id points ≡ some names) ⊎ Any (HasPoints id names) (d ∷ ds)
      later d own ds known (inl old) =
          here d own ds known (str_eq d.id id) refl (sym (lookup-insert d.id id own points) ∙ old)
      later d own ds known (inr any) = inr (inr any)

  pub parse_devices_valid :
      (root : Json) {result : List DeviceConfig × Table (List String)}
      → parse_devices std json root ≡ ok result
      → IsDeviceList std result.0
        × ((id : String) (names : List String)
            → lookup id result.1 ≡ some names
            → Any (HasPoints id names) result.0)
  unfolding parse_devices lookup
  parse_devices_valid root {result} h =
      let (values, h₁, e) = >>=_returns (array_member std json root "devices" "root") _ h in
      let (some_devices, h₂) = throw_if-eq-ok (no_elements std json values) _ _ h₁ in
      (
        (device_loop_valid 0 [] [] values h₂).0,
        λ id names found. known id names (device_loop_points 0 [] [] values id names h₂ found),
      )
    where
      known :
          (id : String) (names : List String)
          → (lookup id [] ≡ some names) ⊎ Any (HasPoints id names) result.0
          → Any (HasPoints id names) result.0
      known id names (inl never) = absurd cc
      known id names (inr any) = any
