-- ===== src/Frame/Settings/RoundTrip.antt =====
-- http/frame/settings.rs: what a SETTINGS frame serializes to, and that parsing gives it back.
use solicit.Base.{
  ℕ, ◌*◌, ◌^◌, ◌≤◌, ◌<◌, ◌≡◌, refl, arith, inl, inr, List, [], ◌∷◌, ◌++◌, Bool, true, false, some,
  length, IsByte, IsU32, value, ◌>>=◌, Bool-cases, join_2-octet, join_4-octet, All, append-nil,
  append_assoc,
}
use solicit.Frame.Raw.{has_flag, raw_from}
use solicit.Frame.Wire.{
  wire, header-wire, payload-wire, at_end, write_all-at_end, write_header-at_end,
}
use solicit.Frame.Settings.{
  HttpSetting, SettingsFrame, header_table_size, enable_push, max_concurrent_streams,
  initial_window_size, max_frame_size, max_header_list_size, from_id, get_id, get_val,
  parse_setting, serialize_setting, ack, bitmask, payload_len, parse_chunks, parse_payload,
  from_raw, get_header, write_settings, serialize_into,
}

abbrev pub IsSetting : HttpSetting → Type 0
IsSetting s = IsU32 (get_val s)

from_id-get_id : (s : HttpSetting) → from_id (get_id s) (get_val s) ≡ some s
unfolding from_id get_id get_val
from_id-get_id (header_table_size v) = refl
from_id-get_id (enable_push v) = refl
from_id-get_id (max_concurrent_streams v) = refl
from_id-get_id (initial_window_size v) = refl
from_id-get_id (max_frame_size v) = refl
from_id-get_id (max_header_list_size v) = refl

get_id-le : (s : HttpSetting) → get_id s ≤ 6
unfolding get_id
get_id-le (header_table_size v) = omega arith
get_id-le (enable_push v) = omega arith
get_id-le (max_concurrent_streams v) = omega arith
get_id-le (initial_window_size v) = omega arith
get_id-le (max_frame_size v) = omega arith
get_id-le (max_header_list_size v) = omega arith

-- The 6 octets of a setting parse back to it, for each of the six known settings.
pub parse_setting-serialize_setting :
    (s : HttpSetting) → IsSetting s → parse_setting (serialize_setting s) ≡ value (some s)
unfolding parse_setting serialize_setting
parse_setting-serialize_setting s h = rw (
  join_2-octet (get_id s) (omega (arith, get_id-le s)),
  join_4-octet (get_val s) h,
  from_id-get_id s,
)

abbrev pub settings_octets : List HttpSetting → List ℕ
settings_octets [] = []
settings_octets (s ∷ rest) = serialize_setting s ++ settings_octets rest

-- The payload octets of the frame.
abbrev pub body : SettingsFrame → List ℕ
body f = settings_octets f.settings

-- The octets of a list of settings whose values have 32 bits parse back to the list, in its order.
parse_chunks-settings_octets :
    (settings : List HttpSetting)
    → All IsSetting settings
    → parse_chunks (settings_octets settings) ≡ value settings
unfolding parse_chunks serialize_setting
parse_chunks-settings_octets [] h = refl
parse_chunks-settings_octets (s ∷ rest) (hs, hr) = rw (
  join_2-octet (get_id s) (omega (arith, get_id-le s)),
  join_4-octet (get_val s) hs,
  from_id-get_id s,
  parse_chunks-settings_octets rest hr,
)

length-settings_octets :
    (settings : List HttpSetting) → length (settings_octets settings) ≡ 6 * length settings
unfolding serialize_setting
length-settings_octets [] = refl
length-settings_octets (s ∷ rest) = omega (arith, length-settings_octets rest)

write_settings-at_end :
    (settings : List HttpSetting) (buf : List ℕ)
    → write_settings settings (at_end buf) ≡ at_end (buf ++ settings_octets settings)
unfolding write_settings
write_settings-at_end [] buf = rw append-nil
write_settings-at_end (s ∷ rest) buf =
    rw (write_all-at_end, write_settings-at_end rest (buf ++ serialize_setting s), append_assoc)

-- `serialize_into` appends the header octets and 6 octets for each setting.
pub serialize_into-wire :
    (f : SettingsFrame) (buf : List ℕ)
    → serialize_into f (at_end buf) ≡ value (at_end (buf ++ wire (get_header f) (body f)))
unfolding serialize_into
serialize_into-wire f buf =
    rw (write_header-at_end, write_settings-at_end f.settings (buf ++ _), append_assoc)

abbrev pub AckRule : Bool → List HttpSetting → Type 0
AckRule true settings = settings ≡ []
AckRule false settings = Unit {0}

-- A frame that a SETTINGS frame on the wire can stand for: an ACK carries no settings.
pub record IsWellFormed (f : SettingsFrame) : Type 0 where
  pub flags_fit : IsByte f.flags
  pub fits : length (body f) < 2 ^ 24
  pub values_fit : All IsSetting f.settings
  pub ack_rule : AckRule (has_flag f.flags (bitmask ack)) f.settings

-- The length in the header is the length of the payload.
pub payload_len-body : (f : SettingsFrame) → IsWellFormed f → payload_len f ≡ length (body f)
unfolding payload_len
payload_len-body f w = omega (arith, w.fits, length-settings_octets f.settings)

parse_payload-settings_octets :
    (settings : List HttpSetting)
    → All IsSetting settings
    → parse_payload (settings_octets settings) ≡ value (some settings)
unfolding parse_payload
parse_payload-settings_octets settings h =
    rw (length-settings_octets settings, parse_chunks-settings_octets settings h) (ground arith)

pub from_raw-body :
    (f : SettingsFrame)
    → IsWellFormed f
    → from_raw (raw_from (wire (get_header f) (body f))) ≡ value (some f)
unfolding from_raw get_header
from_raw-body f w =
    let len = payload_len-body f w in
    elim (Bool-cases (has_flag f.flags 0x1)) [
      | inl p ↦
          let no_settings : f.settings ≡ [] = rw p at w.ack_rule in
          rw
            (
              header-wire (get_header f) (body f) (omega (arith, len)),
              payload-wire (get_header f) (body f),
              p,
            )
            (ground (arith, len, no_settings))
      | inr p ↦
          rw
            (
              header-wire (get_header f) (body f) (omega (arith, len)),
              payload-wire (get_header f) (body f),
              p,
              parse_payload-settings_octets f.settings w.values_fit,
            )
            (ground (arith, len))
    ]

-- Parsing what was serialized gives the frame back, with its settings in order.
pub from_raw-serialize_into :
    (f : SettingsFrame)
    → IsWellFormed f
    → (serialize_into f (at_end []) >>= λ c. from_raw (raw_from c.buffer)) ≡ value (some f)
from_raw-serialize_into f w = rw (serialize_into-wire f []) (from_raw-body f w)
