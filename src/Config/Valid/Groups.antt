-- ===== src/Config/Valid/Groups.antt =====
-- The groups that are read satisfy what the scheduling policy asks, and refer to devices and points.
use mini_gateway.Prelude.{
  Any, ℕ, suc, ◌-◌, ◌^◌, ◌<◌, ◌≤◌, ◌≡◌, ◌≢◌, refl, subst, true, false, not, String, Option, some,
  List, [], ◌∷◌, map, arith, ok, >>=_returns, throw_if-eq-ok, ok_injective, inl, inr, All, All-imp,
  Distinct, Fresh, Fresh-uncons, member, member-Absent, Table, lookup,
}
use mini_gateway.Model.{CollectionGroup, DeviceConfig}
use mini_gateway.Model.Std.{Platform}
use mini_gateway.Config.Json.{JsonLibrary}
use mini_gateway.Config.Fields.{
  json_member, array_member, string_member, milliseconds_member, string_array, field_path,
  item_path,
}
use mini_gateway.Config.Parse.{check_points, find_points, parse_group, group_loop, parse_groups}
use mini_gateway.Config.Valid.{string_member_named, milliseconds_member_bounds}
use mini_gateway.Config.Valid.Devices.{HasPoints}

module _ {Json : Type 0} (std : Platform) (json : JsonLibrary Json) where
  check_points_known :
      (names : List String) (path : String) (points : List String)
      → check_points std json names path points ≡ ok tt
      → All (λ p. member p names ≡ true) points
  unfolding check_points
  check_points_known names path [] h = tt
  check_points_known names path (point ∷ points) h =
      let (known, rest) = throw_if-eq-ok (not (member point names)) _ _ h in
      (ground arith, check_points_known names path points rest)

  find_points_found :
      (points : Table (List String)) (id path : String) {names : List String}
      → find_points std json points id path ≡ ok names
      → lookup id points ≡ some names
  unfolding find_points
  find_points_found points id path {names} h = go (lookup id points) refl h
    where
      go :
          (found : Option (List String))
          → lookup id points ≡ found
          → find_points std json points id path ≡ ok names
          → found ≡ some names
      go found e f = ground arith

  -- What a group that was read satisfies.
  abbrev pub IsReadGroup : Table (List String) → CollectionGroup → Type 0
  IsReadGroup points g =
      (g.id ≢ "")
      × ((0 < g.interval) × (g.interval ≤ 2 ^ 63 - 1))
      × ((0 < g.timeout) × (g.timeout ≤ 2 ^ 63 - 1))
      × ((names : List String) × (lookup g.device_id points ≡ some names)
          × All (λ p. member p names ≡ true) g.points)

  parse_group_valid :
      (points : Table (List String)) (seen : List String) (value : Json) (path : String)
      {g : CollectionGroup}
      → parse_group std json points seen value path ≡ ok g
      → IsReadGroup points g × (member g.id seen ≡ false)
  unfolding parse_group
  parse_group_valid points seen value path {g} h =
      let (o, h₁) = throw_if-eq-ok (not (json.is_object value)) _ _ h in
      let (id, h₂, named) = >>=_returns (string_member std json value "id" path false) _ h₁ in
      let (new, h₃) = throw_if-eq-ok (member id seen) _ _ h₂ in
      let (device, h₄, e₄) =
        >>=_returns (string_member std json value "device_id" path false) _ h₃ in
      let (interval, h₅, e₅) =
        >>=_returns (milliseconds_member std json value "interval_ms" path true) _ h₄ in
      let (timeout, h₆, e₆) =
        >>=_returns (milliseconds_member std json value "timeout_ms" path true) _ h₅ in
      let (pv, h₇, e₇) = >>=_returns (json_member std json value "points" path) _ h₆ in
      let (own, h₈, e₈) =
        >>=_returns (string_array std json pv (field_path path "points") true) _ h₇ in
      let (names, h₉, e₉) = >>=_returns (find_points std json points device path) _ h₈ in
      let (u, done, e) = >>=_returns (check_points std json names path own) _ h₉ in
      let group : CollectionGroup = record {
        id = id;
        device_id = device;
        interval = interval;
        timeout = timeout;
        points = own;
      } in
      let same : group ≡ g = ok_injective done in
      subst (λ r. IsReadGroup points r × (member r.id seen ≡ false)) same
        (
          (
            string_member_named std json value "id" path named,
            milliseconds_member_bounds std json value "interval_ms" path e₅,
            milliseconds_member_bounds std json value "timeout_ms" path e₆,
            (names, find_points_found points device path e₉, check_points_known names path own e),
          ),
          new,
        )

  group_loop_valid :
      (points : Table (List String)) (index : ℕ) (seen : List String) (values : List Json)
      {groups : List CollectionGroup}
      → group_loop std json points index seen values ≡ ok groups
      → All (IsReadGroup points) groups
        × Distinct (map (λ g. g.id) groups)
        × Fresh seen (map (λ g. g.id) groups)
  unfolding group_loop
  group_loop_valid points index seen [] {groups} h =
      let e : [] ≡ groups = cc in
      subst
        (λ gs.
          All (IsReadGroup points) gs
          × Distinct (map (λ g. g.id) gs)
          × Fresh seen (map (λ g. g.id) gs))
        e (tt, tt, tt)
  group_loop_valid points index seen (value ∷ values) {groups} h =
      let (g, h₁, e) =
        >>=_returns (parse_group std json points seen value (item_path std "root.groups" index)) _
          h in
      let (gs, h₂, e₂) =
        >>=_returns (group_loop std json points (suc index) (g.id ∷ seen) values) _ h₁ in
      let (read, new) = parse_group_valid points seen value (item_path std "root.groups" index) e in
      let (valid, distinct, fresh) = group_loop_valid points (suc index) (g.id ∷ seen) values e₂ in
      let (absent, others) = Fresh-uncons g.id seen (map (λ f. f.id) gs) fresh in
      let same : g ∷ gs ≡ groups = ok_injective h₂ in
      subst
        (λ fs.
          All (IsReadGroup points) fs
          × Distinct (map (λ f. f.id) fs)
          × Fresh seen (map (λ f. f.id) fs))
        same ((read, valid), (absent, distinct), ((member-Absent g.id seen).0 new, others))

  pub parse_groups_valid :
      (root : Json) (points : Table (List String)) {groups : List CollectionGroup}
      → parse_groups std json root points ≡ ok groups
      → All (IsReadGroup points) groups × Distinct (map (λ g. g.id) groups)
  unfolding parse_groups
  parse_groups_valid root points {groups} h =
      let (values, h₁, e) = >>=_returns (array_member std json root "groups" "root") _ h in
      let (valid, distinct, fresh) = group_loop_valid points 0 [] values h₁ in (valid, distinct)

-- The group's device is configured, with every point of the group.
abbrev pub IsKnownGroup : List DeviceConfig → CollectionGroup → Type 0
IsKnownGroup devices g =
    Any (λ d. (d.id ≡ g.device_id) × All (λ n. Any (λ p. p.name ≡ n) d.points) g.points) devices

Any-imp :
    {A : Type 0} (P Q : A → Type 0) (xs : List A) → ((x : A) → P x → Q x) → Any P xs → Any Q xs
Any-imp P Q [] f h = h
Any-imp P Q (x ∷ xs) f (inl h) = inl (f x h)
Any-imp P Q (x ∷ xs) f (inr h) = inr (Any-imp P Q xs f h)

pub IsReadGroup-IsKnownGroup :
    (points : Table (List String)) (devices : List DeviceConfig) (g : CollectionGroup)
    → ((id : String) (names : List String)
        → lookup id points ≡ some names
        → Any (HasPoints id names) devices)
    → ((names : List String) × (lookup g.device_id points ≡ some names)
        × All (λ p. member p names ≡ true) g.points)
    → IsKnownGroup devices g
IsReadGroup-IsKnownGroup points devices g known (names, found, all) =
    Any-imp (HasPoints g.device_id names)
      (λ d. (d.id ≡ g.device_id) × All (λ n. Any (λ p. p.name ≡ n) d.points) g.points) devices
      (λ d h. (
        h.0,
        All-imp (λ n. member n names ≡ true) (λ n. Any (λ p. p.name ≡ n) d.points) g.points h.1 all,
      ))
      (known g.device_id names found)
