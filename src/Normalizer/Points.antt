-- ===== src/Normalizer/Points.antt =====
-- Which configurations the constructor admits, and the points that it then knows.
use mini_gateway.Prelude.{
  ◌≡◌, ◌≢◌, ◌↔◌, refl, subst, false, String, none, some, List, [], ◌∷◌, map, arith, All, Table,
  lookup, insert, Distinct, Unused, Unused-insert, Unused-uninsert, Unused-nil, lookup-insert_keeps,
  lookup-insert_self, eq_iff, ok, ◌>>=◌, >>=_returns, Option-cases, inl, inr,
}
use mini_gateway.Model.{PointConfig, DeviceConfig, GatewayConfig}
use mini_gateway.Model.Std.{Platform}
use mini_gateway.Normalizer.{Normalizer, reversed_range, add_points, add_devices, create}

module _ (std : Platform) where
  -- Every point has a name and a range that is not reversed, and no two have the same name.
  abbrev pub IsPointList : List PointConfig → Type 0
  IsPointList ps =
      All (λ p. (p.name ≢ "") × (reversed_range std p.minimum p.maximum ≡ false)) ps
      × Distinct (map (λ p. p.name) ps)

  abbrev pub IsDeviceList : List DeviceConfig → Type 0
  IsDeviceList ds = All (λ d. (d.id ≢ "") × IsPointList d.points) ds × Distinct (map (λ d. d.id) ds)

  -- What one round of the inner loop has passed.
  point_admitted :
      (id : String) (m m' : Table PointConfig) (p : PointConfig) (ps : List PointConfig)
      → add_points std id m (p ∷ ps) ≡ ok m'
      → (p.name ≢ "")
        × (reversed_range std p.minimum p.maximum ≡ false)
        × (lookup p.name m ≡ none)
        × (add_points std id (insert p.name p m) ps ≡ ok m')
  unfolding add_points
  point_admitted id m m' p ps h = elim (Option-cases (lookup p.name m)) [
    | inl new ↦ (ground (arith, eq_iff p.name ""), ground arith, new, ground arith)
    | inr (q, old) ↦ absurd (ground arith)
  ]

  add_points_sound :
      (id : String) (m m' : Table PointConfig) (ps : List PointConfig)
      → add_points std id m ps ≡ ok m'
      → IsPointList ps × Unused m (map (λ p. p.name) ps)
  add_points_sound id m m' [] h = ((tt, tt), tt)
  add_points_sound id m m' (p ∷ ps) h =
      let (named, range, new, rest) = point_admitted id m m' p ps h in
      let ((valid, distinct), unused) = add_points_sound id (insert p.name p m) m' ps rest in
      let (absent, old) = Unused-uninsert p.name p m (map (λ q. q.name) ps) unused in
      ((((named, range), valid), (absent, distinct)), (new, old))

  add_points_complete :
      (id : String) (m : Table PointConfig) (ps : List PointConfig)
      → IsPointList ps
      → Unused m (map (λ p. p.name) ps)
      → (m' : Table PointConfig) × (add_points std id m ps ≡ ok m')
  unfolding add_points
  add_points_complete id m [] v u = (m, refl)
  add_points_complete id m (p ∷ ps) (((named, range), valid), (absent, distinct)) (new, old) =
      let (m', e) =
        add_points_complete id (insert p.name p m) ps (valid, distinct)
          (Unused-insert p.name p m (map (λ q. q.name) ps) absent old) in
      (m', ground (arith, eq_iff p.name "", named, e, new, range))

  add_points_keep :
      (id : String) (m m' : Table PointConfig) (ps : List PointConfig) (k : String)
      (q : PointConfig)
      → add_points std id m ps ≡ ok m'
      → lookup k m ≡ some q
      → lookup k m' ≡ some q
  add_points_keep id m m' [] k q h e = unfold add_points in cc
  add_points_keep id m m' (p ∷ ps) k q h e =
      let (_, _, new, rest) = point_admitted id m m' p ps h in
      add_points_keep id (insert p.name p m) m' ps k q rest
        (lookup-insert_keeps p.name k p q m new e)

  -- The table holds every point of the list under its name.
  abbrev pub Holds : Table PointConfig → List PointConfig → Type 0
  Holds m ps = All (λ p. lookup p.name m ≡ some p) ps

  add_points-Holds :
      (id : String) (m m' : Table PointConfig) (ps : List PointConfig)
      → add_points std id m ps ≡ ok m'
      → Holds m' ps
  add_points-Holds id m m' [] h = tt
  add_points-Holds id m m' (p ∷ ps) h =
      let (_, _, _, rest) = point_admitted id m m' p ps h in
      (
        add_points_keep id (insert p.name p m) m' ps p.name p rest (lookup-insert_self p.name p m),
        add_points-Holds id (insert p.name p m) m' ps rest,
      )

  -- What one round of the outer loop has passed.
  device_admitted :
      (t t' : Table (Table PointConfig)) (d : DeviceConfig) (ds : List DeviceConfig)
      → add_devices std t (d ∷ ds) ≡ ok t'
      → (m : Table PointConfig) × (d.id ≢ "")
        × (lookup d.id t ≡ none)
        × (add_points std d.id [] d.points ≡ ok m)
        × (add_devices std (insert d.id m t) ds ≡ ok t')
  unfolding add_devices
  device_admitted t t' d ds h = elim (Option-cases (lookup d.id t)) [
    | inl new ↦
        let passed : (add_points std d.id [] d.points >>= λ m. add_devices std (insert d.id m t) ds)
            ≡ ok t' =
          ground arith in
        let (m, rest, points) =
          >>=_returns (add_points std d.id [] d.points) (λ m. add_devices std (insert d.id m t) ds)
            passed in
        (m, ground (arith, eq_iff d.id ""), new, points, rest)
    | inr (m, old) ↦ absurd (ground arith)
  ]

  add_devices_sound :
      (t t' : Table (Table PointConfig)) (ds : List DeviceConfig)
      → add_devices std t ds ≡ ok t'
      → IsDeviceList ds × Unused t (map (λ d. d.id) ds)
  add_devices_sound t t' [] h = ((tt, tt), tt)
  add_devices_sound t t' (d ∷ ds) h =
      let (m, named, new, points, rest) = device_admitted t t' d ds h in
      let ((valid, distinct), unused) = add_devices_sound (insert d.id m t) t' ds rest in
      let (absent, old) = Unused-uninsert d.id m t (map (λ e. e.id) ds) unused in
      (
        (((named, (add_points_sound d.id [] m d.points points).0), valid), (absent, distinct)),
        (new, old),
      )

  add_devices_complete :
      (t : Table (Table PointConfig)) (ds : List DeviceConfig)
      → IsDeviceList ds
      → Unused t (map (λ d. d.id) ds)
      → (t' : Table (Table PointConfig)) × (add_devices std t ds ≡ ok t')
  unfolding add_devices
  add_devices_complete t [] v u = (t, refl)
  add_devices_complete t (d ∷ ds) (((named, points), valid), (absent, distinct)) (new, old) =
      let (m, e) =
        add_points_complete d.id [] d.points points
          (Unused-nil PointConfig (map (λ p. p.name) d.points)) in
      let (t', e') =
        add_devices_complete (insert d.id m t) ds (valid, distinct)
          (Unused-insert d.id m t (map (λ x. x.id) ds) absent old) in
      (t', ground (arith, eq_iff d.id "", named, e, e', new))

  add_devices_keep :
      (t t' : Table (Table PointConfig)) (ds : List DeviceConfig) (k : String)
      (m : Table PointConfig)
      → add_devices std t ds ≡ ok t'
      → lookup k t ≡ some m
      → lookup k t' ≡ some m
  add_devices_keep t t' [] k q h e = unfold add_devices in cc
  add_devices_keep t t' (d ∷ ds) k q h e =
      let (m, _, new, _, rest) = device_admitted t t' d ds h in
      add_devices_keep (insert d.id m t) t' ds k q rest (lookup-insert_keeps d.id k m q t new e)

  -- The table holds every device, with every point of it.
  abbrev pub HoldsDevices : Table (Table PointConfig) → List DeviceConfig → Type 0
  HoldsDevices t ds =
      All (λ d. (m : Table PointConfig) × (lookup d.id t ≡ some m) × Holds m d.points) ds

  add_devices-HoldsDevices :
      (t t' : Table (Table PointConfig)) (ds : List DeviceConfig)
      → add_devices std t ds ≡ ok t'
      → HoldsDevices t' ds
  add_devices-HoldsDevices t t' [] h = tt
  add_devices-HoldsDevices t t' (d ∷ ds) h =
      let (m, _, _, points, rest) = device_admitted t t' d ds h in
      (
        (
          m,
          add_devices_keep (insert d.id m t) t' ds d.id m rest (lookup-insert_self d.id m t),
          add_points-Holds d.id [] m d.points points,
        ),
        add_devices-HoldsDevices (insert d.id m t) t' ds rest,
      )

  -- The constructor succeeds exactly on configurations in which device ids are non-empty and
  -- distinct, and in each device the point names are non-empty and distinct and no range is
  -- reversed.
  pub create-IsDeviceList :
      (config : GatewayConfig)
      → ((n : Normalizer) × (create std config ≡ ok n)) ↔ IsDeviceList config.devices
  unfolding create
  create-IsDeviceList config = (
    λ (n, h).
        let (t, _, e) = >>=_returns (add_devices std [] config.devices) _ h in
        (add_devices_sound [] t config.devices e).0,
    λ v.
        let (t, e) =
          add_devices_complete [] config.devices v
            (Unused-nil (Table PointConfig) (map (λ d. d.id) config.devices)) in
        (
          record { points = t; event_sequence = 0; batches = 0; readings = 0; bad_readings = 0 },
          ground (arith, e),
        ),
  )

  -- The normalizer built from a configuration finds each configured point, with its configuration,
  -- under its device and name.
  pub create-HoldsDevices :
      (config : GatewayConfig) (n : Normalizer)
      → create std config ≡ ok n
      → HoldsDevices n.points config.devices
  unfolding create
  create-HoldsDevices config n h =
      let (t, built, e) = >>=_returns (add_devices std [] config.devices) _ h in
      let same : t ≡ n.points = ground arith in
      subst (λ u. HoldsDevices u config.devices) same
        (add_devices-HoldsDevices [] t config.devices e)
