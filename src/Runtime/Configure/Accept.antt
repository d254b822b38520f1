-- ===== src/Runtime/Configure/Accept.antt =====
-- When `validate_and_configure` of src/core/runtime.cpp returns.
use mini_gateway.Prelude.{
  ℕ, ◌+◌, ◌<◌, ◌≡◌, ◌≢◌, refl, ap, sym, subst, ◌∙◌, true, false, ◌||◌, String, Option, none, some,
  List, [], ◌∷◌, map, arith, All, All-imp, Distinct, Absent, Fresh, Fresh-cons, member,
  member-Absent, eq_iff, ok, Table, lookup, insert, lookup-insert, lookup-insert_self, is_empty,
  leb, length, length-map, ◌==◌, inl, inr, Fresh-nil, ok_injective, Any, All-map,
}
use mini_gateway.Model.{GatewayConfig, DeviceConfig, CollectionGroup}
use mini_gateway.Runtime.{AcquisitionMode, poll, find_device, find_if}
use mini_gateway.Runtime.Lifecycle.{is_mode}
use mini_gateway.Runtime.Configure.{
  DriverInstance, EventPublisherInstance, configure_drivers, check_groups, configure_publishers,
  validate_and_configure,
}

find_if-none :
    (id : String) (ds : List DeviceConfig)
    → find_if (λ d. d.id) id ds ≡ none
    → Absent id (map (λ d. d.id) ds)
unfolding find_if
find_if-none id [] h = tt
find_if-none id (d ∷ ds) h = (ground (arith, eq_iff d.id id), find_if-none id ds (ground arith))

-- The names of a list are in it.
present : (xs : List String) → All (λ k. Absent k xs → ⊥) xs
present [] = tt
present (x ∷ xs) = (
  λ a. a.0 refl,
  All-imp (λ k. Absent k xs → ⊥) (λ k. Absent k (x ∷ xs) → ⊥) xs (λ k h a. h a.1) (present xs),
)

-- The device of an id is found when it is configured.
find_device_returns :
    (config : GatewayConfig) (id : String)
    → (Absent id (map (λ d. d.id) config.devices) → ⊥)
    → (d : DeviceConfig) × (find_device config id ≡ ok d)
unfolding find_device
find_device_returns config id there = go (find_if (λ d. d.id) id config.devices) refl
  where
    go :
        (o : Option DeviceConfig)
        → find_if (λ d. d.id) id config.devices ≡ o
        → (d : DeviceConfig) × (find_device config id ≡ ok d)
    go none e = absurd (there (find_if-none id config.devices e))
    go (some d) e = (d, ground arith)

-- A driver that is there, takes its configuration and tells its mode.
pub record Answers (i : DriverInstance) : Type 0 where
  pub has_driver : i.has_driver ≡ true
  pub configure : (d : DeviceConfig) → i.configure d ≡ ok tt
  pub mode : AcquisitionMode
  pub capabilities : i.capabilities ≡ ok mode

abbrev pub PublisherAnswers : GatewayConfig → EventPublisherInstance → Type 0
PublisherAnswers config i = (i.has_publisher ≡ true) × (i.configure config ≡ ok tt)

-- The table knows the driver's mode.
abbrev Known : Table AcquisitionMode → DriverInstance → Type 0
Known modes i =
    (m : AcquisitionMode) × (i.capabilities ≡ ok m) × (lookup i.device_id modes ≡ some m)

configure_drivers_returns :
    (config : GatewayConfig) (seen : List String) (modes : Table AcquisitionMode)
    (is : List DriverInstance)
    → All Answers is
    → All
        (λ i. (i.device_id ≢ "") × ((d : DeviceConfig) × (find_device config i.device_id ≡ ok d)))
        is
    → Distinct (map (λ i. i.device_id) is)
    → Fresh seen (map (λ i. i.device_id) is)
    → (result : List String × Table AcquisitionMode) × (configure_drivers config seen modes is
        ≡ ok result)
      × (length result.0 ≡ length is + length seen)
      × All (Known result.1) is
      × ((k : String) (m : AcquisitionMode)
          → Absent k (map (λ i. i.device_id) is)
          → lookup k modes ≡ some m
          → lookup k result.1 ≡ some m)
unfolding configure_drivers
configure_drivers_returns config seen modes [] a f d n =
    ((seen, modes), refl, omega arith, tt, λ k m absent e. e)
configure_drivers_returns config seen modes (i ∷ is) (a, answers) ((named, (device, found)), f)
      (new, d) (absent, n) =
    let (result, e, size, known, kept) =
      configure_drivers_returns config (i.device_id ∷ seen) (insert i.device_id a.mode modes) is
        answers f d (Fresh-cons i.device_id seen (map (λ j. j.device_id) is) new n) in
    let unnamed : is_empty i.device_id ≡ false = ground (arith, eq_iff i.device_id "") in
    (
      result,
      simp (
        unnamed,
        a.has_driver,
        (member-Absent i.device_id seen).1 absent,
        found,
        a.configure device,
        a.capabilities,
        e,
      ),
      ground arith,
      (
        (
          a.mode,
          a.capabilities,
          kept i.device_id a.mode new (lookup-insert_self i.device_id a.mode modes),
        ),
        known,
      ),
      λ k m out h. kept k m out.1 (
          ground (arith, lookup-insert i.device_id k a.mode modes, eq_iff i.device_id k, out.0, h)),
    )

-- The group's device is among the drivers, and is polled.
abbrev pub IsPolled : List DriverInstance → CollectionGroup → Type 0
IsPolled is g =
    Any (λ (i : DriverInstance). (i.device_id ≡ g.device_id) × (i.capabilities ≡ ok poll)) is

Known-poll :
    (modes : Table AcquisitionMode) (is : List DriverInstance) (g : CollectionGroup)
    → All (Known modes) is
    → IsPolled is g
    → lookup g.device_id modes ≡ some poll
Known-poll modes [] g k h = absurd h
Known-poll modes (i ∷ is) g ((m, capable, found), k) (inl (same, polls)) =
    let modes_agree : m ≡ poll = ok_injective (sym capable ∙ polls) in
    ap (λ id. lookup id modes) (sym same) ∙ found ∙ ap some modes_agree
Known-poll modes (i ∷ is) g (known, k) (inr h) = Known-poll modes is g k h

check_groups_returns :
    (modes : Table AcquisitionMode) (seen : List String) (gs : List CollectionGroup)
    → All (λ g. (g.id ≢ "") × (0 < g.interval) × (0 < g.timeout)) gs
    → Distinct (map (λ g. g.id) gs)
    → Fresh seen (map (λ g. g.id) gs)
    → All (λ g. lookup g.device_id modes ≡ some poll) gs
    → check_groups modes seen gs ≡ ok tt
unfolding check_groups is_mode
check_groups_returns modes seen [] v d f p = refl
check_groups_returns modes seen (g ∷ gs) ((named, interval, timeout), v) (new, d) (absent, f)
      (polled, p) =
    let rest =
      check_groups_returns modes (g.id ∷ seen) gs v d
        (Fresh-cons g.id seen (map (λ h. h.id) gs) new f) p in
    let id_new = (member-Absent g.id seen).1 absent in
    let first : (is_empty g.id || member g.id seen) ≡ false = ground (arith, eq_iff g.id "") in
    let positive : (leb g.interval 0 || leb g.timeout 0) ≡ false = ground arith in
    simp (first, positive, polled, rest)

configure_publishers_returns :
    (config : GatewayConfig) (seen : List String) (is : List EventPublisherInstance)
    → All (PublisherAnswers config) is
    → All (λ i. i.id ≢ "") is
    → Distinct (map (λ i. i.id) is)
    → Fresh seen (map (λ i. i.id) is)
    → configure_publishers config seen is ≡ ok tt
unfolding configure_publishers
configure_publishers_returns config seen [] a v d f = refl
configure_publishers_returns config seen (i ∷ is) ((has, takes), a) (named, v) (new, d)
      (absent, f) =
    let rest =
      configure_publishers_returns config (i.id ∷ seen) is a v d
        (Fresh-cons i.id seen (map (λ h. h.id) is) new f) in
    let unnamed : is_empty i.id ≡ false = ground (arith, eq_iff i.id "") in
    simp (unnamed, has, (member-Absent i.id seen).1 absent, takes, rest)

-- The drivers are those of the configured devices, in their order, and answer; so are the publishers;
-- and every group is sound and polled.
pub record IsReady (config : GatewayConfig) (drivers : List DriverInstance)
    (publishers : List EventPublisherInstance) : Type 0 where
  pub ids : map (λ i. i.device_id) drivers ≡ map (λ d. d.id) config.devices
  pub named : All (λ d. d.id ≢ "") config.devices
  pub distinct : Distinct (map (λ d. d.id) config.devices)
  pub answers : All Answers drivers
  pub groups : All (λ g. (g.id ≢ "") × (0 < g.interval) × (0 < g.timeout)) config.groups
  pub group_ids : Distinct (map (λ g. g.id) config.groups)
  pub polled : All (IsPolled drivers) config.groups
  pub publisher_answers : All (PublisherAnswers config) publishers
  pub publishers_named : All (λ i. i.id ≢ "") publishers
  pub publisher_ids : Distinct (map (λ i. i.id) publishers)

-- Every driver belongs to a configured device.
drivers_found :
    (config : GatewayConfig) (drivers : List DriverInstance)
    {publishers : List EventPublisherInstance}
    → IsReady config drivers publishers
    → All
        (λ i. (i.device_id ≢ "") × ((d : DeviceConfig) × (find_device config i.device_id ≡ ok d)))
        drivers
drivers_found config drivers ready = (All-map Found (λ i. i.device_id) drivers).0 (
    subst (All Found) (sym ready.ids) (
      both (map (λ d. d.id) config.devices)
        ((All-map (λ id. id ≢ "") (λ d. d.id) config.devices).1 ready.named)
        (All-imp (λ k. Absent k (map (λ d. d.id) config.devices) → ⊥)
          (λ k. (d : DeviceConfig) × (find_device config k ≡ ok d)) (map (λ d. d.id) config.devices)
          (find_device_returns config) (present (map (λ d. d.id) config.devices)))))
  where
    Found : String → Type 0
    Found id = (id ≢ "") × ((d : DeviceConfig) × (find_device config id ≡ ok d))

    both :
        (ids : List String)
        → All (λ id. id ≢ "") ids
        → All (λ id. (d : DeviceConfig) × (find_device config id ≡ ok d)) ids
        → All Found ids
    both [] a b = tt
    both (id ∷ ids) a b = ((a.0, b.0), both ids a.1 b.1)

plus_zero : (n : ℕ) → n + 0 ≡ n
plus_zero n = omega arith

pub validate_and_configure_returns :
    (config : GatewayConfig) (drivers : List DriverInstance)
    (publishers : List EventPublisherInstance)
    → IsReady config drivers publishers
    → (modes : Table AcquisitionMode) × (validate_and_configure config drivers publishers
        ≡ ok modes)
unfolding validate_and_configure
validate_and_configure_returns config drivers publishers ready =
    let (result, e, size, known, kept) =
      configure_drivers_returns config [] [] drivers ready.answers
        (drivers_found config drivers ready) (subst Distinct (sym ready.ids) ready.distinct)
        (Fresh-nil (map (λ i. i.device_id) drivers)) in
    let sizes : length result.0 ≡ length config.devices =
      size
      ∙ plus_zero (length drivers)
      ∙ sym (length-map (λ i. i.device_id) drivers)
      ∙ ap length ready.ids
      ∙ length-map (λ d. d.id) config.devices in
    let checked =
      check_groups_returns result.1 [] config.groups ready.groups ready.group_ids
        (Fresh-nil (map (λ g. g.id) config.groups))
        (All-imp (IsPolled drivers) (λ g. lookup g.device_id result.1 ≡ some poll) config.groups
          (λ g p. Known-poll result.1 drivers g known p) ready.polled) in
    let published =
      configure_publishers_returns config [] publishers ready.publisher_answers
        ready.publishers_named ready.publisher_ids (Fresh-nil (map (λ i. i.id) publishers)) in
    let same : (length result.0 == length config.devices) ≡ true = ground arith in
    (result.1, simp (e, same, checked, published))
