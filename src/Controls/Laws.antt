-- ===== src/Controls/Laws.antt =====
-- Key names and wire values: what a value that was returned says of its button and its gate.
use ip_commandmic.Prelude.{
  ℕ, ◌+◌, ◌<◌, ◌≡◌, ◌≢◌, refl, arith, ◌∙◌, sym, ◌==◌, ltb, if◌then◌else◌, inl, inr, List, [], ◌∷◌,
  Text, codes, Option, none, some, Bool, true, false, not, ◌&&◌, ◌||◌, ◌=?◌, =?→eq, one_of, bit_or,
  Bool-cases,
}
use ip_commandmic.Errors.{
  Encoded, ok, err, neutral_names_button, bad_key_action, unknown_button, emergency_gate,
}
use ip_commandmic.Controls.{
  key_press_values, text_get, normalize_button_name, gated_value, named_value, key_wire_value,
}

abbrev emergency : Text
emergency = codes "emergency"

abbrev press : Text
press = codes "press"

abbrev release : Text
release = codes "release"

-- A test that holds of all the entries of a table holds of what is looked up.
unfoldable pub entries_pass : (Text → ℕ → Bool) → List (Text × ℕ) → Bool
entries_pass test [] = true
entries_pass test ((key, value) ∷ table) = test key value && entries_pass test table

pub text_get-pass :
    (test : Text → ℕ → Bool) (table : List (Text × ℕ)) (name : Text) (value : ℕ)
    → entries_pass test table ≡ true
    → text_get table name ≡ some value
    → test name value ≡ true
text_get-pass test [] name value all e = absurd (nothing (unfold text_get in e))
  where
    nothing : (◌≡◌ {A = Option ℕ} none (some value)) → ⊥
    nothing h = cc
text_get-pass test ((key, v) ∷ table) name value all e = elim (Bool-cases (key =? name)) [
  | inl same ↦
      let hit : (◌≡◌ {A = Option ℕ} (some v) (some value)) = sym (step_hit same) ∙ e in
      let here : test key v ≡ true = head_of all in
      let names : key ≡ name = =?→eq key name same in cc (hit, here, names)
  | inr other ↦ text_get-pass test table name value (tail_of all) (sym (step_miss other) ∙ e)
]
  where
    step_hit : (key =? name) ≡ true → text_get ((key, v) ∷ table) name ≡ some v
    step_hit h = unfold text_get in rw h

    step_miss : (key =? name) ≡ false → text_get ((key, v) ∷ table) name ≡ text_get table name
    step_miss h = unfold text_get in rw h

    head_of : entries_pass test ((key, v) ∷ table) ≡ true → test key v ≡ true
    head_of h = unfold entries_pass in ground arith

    tail_of : entries_pass test ((key, v) ∷ table) ≡ true → entries_pass test table ≡ true
    tail_of h = unfold entries_pass in ground arith

-- Why a press or a release of a button has the wire value `v`.
pub record IsKeyValue (button action : Text) (allow_emergency : Bool) (v : ℕ) : Type 0 where
  pub base : ℕ
  pub found : text_get key_press_values (normalize_button_name button) ≡ some base
  pub value : v ≡ bit_or base (if action =? release then 0x80 else 0)
  pub gate : (normalize_button_name button =? emergency) ≡ true → allow_emergency ≡ true

gate_opens :
    (same allow : Bool) (n v : ℕ)
    → (if same && not allow then err emergency_gate else ok n) ≡ ok v
    → (v ≡ n) × (same ≡ true → allow ≡ true)
gate_opens true true n v e = (cc, λ h. refl)
gate_opens true false n v e = absurd (refused e)
  where
    refused : (◌≡◌ {A = Encoded ℕ} (err emergency_gate) (ok v)) → ⊥
    refused h = cc
gate_opens false allow n v e = (cc, λ h. cc)

gated-IsKeyValue :
    (button action : Text) (allow : Bool) (v : ℕ) (found : Option ℕ)
    → text_get key_press_values (normalize_button_name button) ≡ found
    → gated_value (normalize_button_name button) action allow found ≡ ok v
    → IsKeyValue button action allow v
gated-IsKeyValue button action allow v none f e = absurd (refused (unfold gated_value in e))
  where
    refused : (◌≡◌ {A = Encoded ℕ} (err unknown_button) (ok v)) → ⊥
    refused h = cc
gated-IsKeyValue button action allow v (some base) f e =
    let opened =
      gate_opens (normalize_button_name button =? emergency) allow
        (bit_or base (if action =? release then 0x80 else 0)) v (unfold gated_value in e) in
    record { base = base; found = f; value = opened.0; gate = opened.1 }

key_wire_value-named :
    (button action : Text) (allow : Bool) (v : ℕ)
    → key_wire_value (some button) action allow ≡ ok v
    → (one_of action (press ∷ release ∷ []) ≡ true)
      × (named_value (some button) action allow ≡ ok v)
key_wire_value-named button action allow v e =
    by_tests (action =? codes "neutral") (one_of action (press ∷ release ∷ []))
      (named_value (some button) action allow) (sym opened ∙ e)
  where
    opened : key_wire_value (some button) action allow ≡ (
        if action =? codes "neutral"
        then err neutral_names_button
        else if not (one_of action (press ∷ release ∷ []))
        then err bad_key_action
        else named_value (some button) action allow)
    opened = unfold key_wire_value in refl

    by_tests :
        (neutral known : Bool) (named : Encoded ℕ)
        → (if neutral
            then err neutral_names_button
            else if not known
            then err bad_key_action
            else named)
          ≡ ok v
        → (known ≡ true) × (named ≡ ok v)
    by_tests true known named h = absurd (refused h)
      where
        refused : (◌≡◌ {A = Encoded ℕ} (err neutral_names_button) (ok v)) → ⊥
        refused r = cc
    by_tests false true named h = (refl, h)
    by_tests false false named h = absurd (refused h)
      where
        refused : (◌≡◌ {A = Encoded ℕ} (err bad_key_action) (ok v)) → ⊥
        refused r = cc

pub key_wire_value-IsKeyValue :
    (button action : Text) (allow : Bool) (v : ℕ)
    → key_wire_value (some button) action allow ≡ ok v
    → IsKeyValue button action allow v
key_wire_value-IsKeyValue button action allow v e =
    gated-IsKeyValue button action allow v
      (text_get key_press_values (normalize_button_name button)) refl
      (unfold named_value in (key_wire_value-named button action allow v e).1)

-- What the table of keys says of each button: below 0x40 but for the emergency key.
ordinary_entry : Text → ℕ → Bool
ordinary_entry button value =
    ltb value 0x7F
    && ((button =? emergency) || ltb value 0x40)
    && ((bit_or value 0 == value) && (bit_or value 0x80 == value + 0x80))

ordinary_table : entries_pass ordinary_entry key_press_values ≡ true
unfolding entries_pass ordinary_entry
ordinary_table = refl

-- Without the explicit gate, a value that is returned for a button is a byte that is neither that
-- of the emergency key, pressed (0x40) or released (0xC0), nor the neutral state 0x7F.
pub key_wire_value-gated :
    (button action : Text) (v : ℕ)
    → key_wire_value (some button) action false ≡ ok v
    → (v ≢ 0x40) × (v ≢ 0xC0) × (v ≢ 0x7F) × (v < 256)
unfolding ordinary_entry
key_wire_value-gated button action v e =
    bounds k.base (action =? release) (normalize_button_name button =? emergency)
      (text_get-pass ordinary_entry key_press_values (normalize_button_name button) k.base
        ordinary_table k.found)
      k.gate k.value
  where
    k : IsKeyValue button action false v
    k = key_wire_value-IsKeyValue button action false v e

    bounds :
        (base : ℕ) (released same : Bool)
        → (ltb base 0x7F
            && (same || ltb base 0x40)
            && ((bit_or base 0 == base) && (bit_or base 0x80 == base + 0x80)))
          ≡ true
        → (same ≡ true → false ≡ true)
        → v ≡ bit_or base (if released then 0x80 else 0)
        → (v ≢ 0x40) × (v ≢ 0xC0) × (v ≢ 0x7F) × (v < 256)
    bounds base released same h gate value = ground arith

-- Every value that is returned for a button is a byte.
pub IsKeyValue-lt :
    (button action : Text) (allow : Bool) (v : ℕ) → IsKeyValue button action allow v → v < 256
unfolding ordinary_entry
IsKeyValue-lt button action allow v k =
    bounds k.base (action =? release) (normalize_button_name button =? emergency)
      (text_get-pass ordinary_entry key_press_values (normalize_button_name button) k.base
        ordinary_table k.found)
      k.value
  where
    bounds :
        (base : ℕ) (released same : Bool)
        → (ltb base 0x7F
            && (same || ltb base 0x40)
            && ((bit_or base 0 == base) && (bit_or base 0x80 == base + 0x80)))
          ≡ true
        → v ≡ bit_or base (if released then 0x80 else 0)
        → v < 256
    bounds base released same h value = ground arith

-- A press has the button's own value.
pub press-base :
    (button : Text) (allow : Bool) (v : ℕ) (k : IsKeyValue button (codes "press") allow v)
    → v ≡ k.base
unfolding ordinary_entry
press-base button allow v k =
    bounds k.base (normalize_button_name button =? emergency)
      (text_get-pass ordinary_entry key_press_values (normalize_button_name button) k.base
        ordinary_table k.found)
      k.value
  where
    bounds :
        (base : ℕ) (same : Bool)
        → (ltb base 0x7F
            && (same || ltb base 0x40)
            && ((bit_or base 0 == base) && (bit_or base 0x80 == base + 0x80)))
          ≡ true
        → v ≡ bit_or base 0
        → v ≡ base
    bounds base same h value = ground arith
