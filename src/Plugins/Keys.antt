-- ===== src/Plugins/Keys.antt =====
-- `source_key` of src/core/plugin_registry.cpp.
use mini_gateway.Prelude.{◌≡◌, refl, sym, ap, ◌∙◌, String, concat, str_eq, if◌then◌else◌}
use mini_gateway.Plugins.{PluginKind, driver, processor, event_publisher, device_control_source}
use Prim.Native.String.{count}
use text.Mathlib.TextLemmas.{append_inj, append_assoc, append_cancel_left}

-- the `switch` of `source_key`, with the colon
unfoldable pub key_category : PluginKind → String
key_category driver = "driver:"
key_category processor = "processor:"
key_category event_publisher = "event_publisher:"
key_category device_control_source = "device_control_source:"

unfoldable pub source_key : PluginKind → String → String
unfolding key_category
source_key k type = concat (key_category k) type

-- The first two letters of a category, which tell the categories apart, and the rest.
first_two : PluginKind → String
first_two driver = "dr"
first_two processor = "pr"
first_two event_publisher = "ev"
first_two device_control_source = "de"

after_two : PluginKind → String
after_two driver = "iver:"
after_two processor = "ocessor:"
after_two event_publisher = "ent_publisher:"
after_two device_control_source = "vice_control_source:"

key_category_split : (k : PluginKind) → key_category k ≡ concat (first_two k) (after_two k)
unfolding first_two after_two key_category
key_category_split driver = refl
key_category_split processor = refl
key_category_split event_publisher = refl
key_category_split device_control_source = refl

first_two_length : (k : PluginKind) → count (first_two k) ≡ 2
unfolding first_two
first_two_length driver = refl
first_two_length processor = refl
first_two_length event_publisher = refl
first_two_length device_control_source = refl

kind_of : String → PluginKind
kind_of letters =
    if str_eq letters "dr"
    then driver
    else if str_eq letters "pr"
    then processor
    else if str_eq letters "ev"
    then event_publisher
    else device_control_source

kind_of-first_two : (k : PluginKind) → kind_of (first_two k) ≡ k
unfolding first_two kind_of
kind_of-first_two driver = refl
kind_of-first_two processor = refl
kind_of-first_two event_publisher = refl
kind_of-first_two device_control_source = refl

source_key-split :
    (k : PluginKind) (type : String)
    → source_key k type ≡ concat (first_two k) (concat (after_two k) type)
unfolding source_key
source_key-split k type =
    ap (λ s. concat s type) (key_category_split k) ∙ append_assoc (first_two k) (after_two k) type

-- The keys of different plugins differ: a key determines the kind of the plugin and its type.
pub source_key_injective :
    (k j : PluginKind) (s t : String) → source_key k s ≡ source_key j t → (k ≡ j) × (s ≡ t)
unfolding source_key
source_key_injective k j s t h =
    let letters : first_two k ≡ first_two j =
      (append_inj (sym (source_key-split k s) ∙ h ∙ source_key-split j t)
        (first_two_length k ∙ sym (first_two_length j))).0 in
    let kinds : k ≡ j = sym (kind_of-first_two k) ∙ ap kind_of letters ∙ kind_of-first_two j in
    (
      kinds,
      append_cancel_left (key_category k) s t (h ∙ ap (λ i. concat (key_category i) t) (sym kinds)),
    )
