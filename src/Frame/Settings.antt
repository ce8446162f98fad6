-- ===== src/Frame/Settings.antt =====
-- http/frame/settings.rs: the SETTINGS frame.
pub mod RoundTrip
use solicit.Base.{
  ℕ, zero, suc, ◌+◌, ◌*◌, ◌%◌, ◌^◌, Bool, List, [], ◌∷◌, ◌++◌, Option, none, some, length, ◌==◌,
  not, if◌then◌else◌, Exec, value, ◌>>=◌, index, octet, join_2,
}
use solicit.Frame.Header.{FrameHeader, unpack_octets_4}
use solicit.Frame.Builder.{Cursor, write_all, write_header}
use solicit.Frame.Raw.{RawFrame, has_flag, with_flag}
use solicit.Frame.Raw

pub data HttpSetting : Type 0 where
  header_table_size enable_push max_concurrent_streams : ℕ → HttpSetting
  initial_window_size max_frame_size max_header_list_size : ℕ → HttpSetting

unfoldable pub from_id : ℕ → ℕ → Option HttpSetting
from_id id val =
    if id == 1
    then some (header_table_size val)
    else (if id == 2
        then some (enable_push val)
        else (if id == 3
            then some (max_concurrent_streams val)
            else (if id == 4
                then some (initial_window_size val)
                else (if id == 5
                    then some (max_frame_size val)
                    else (if id == 6 then some (max_header_list_size val) else none)))))

unfoldable pub parse_setting : List ℕ → Exec (Option HttpSetting)
unfolding unpack_octets_4
parse_setting raw_setting = do
  a ← index raw_setting 0
  b ← index raw_setting 1
  val ← unpack_octets_4 raw_setting 2
  value (from_id (join_2 a b) val)

unfoldable pub get_id : HttpSetting → ℕ
get_id (header_table_size _) = 1
get_id (enable_push _) = 2
get_id (max_concurrent_streams _) = 3
get_id (initial_window_size _) = 4
get_id (max_frame_size _) = 5
get_id (max_header_list_size _) = 6

unfoldable pub get_val : HttpSetting → ℕ
get_val (header_table_size val) = val
get_val (enable_push val) = val
get_val (max_concurrent_streams val) = val
get_val (initial_window_size val) = val
get_val (max_frame_size val) = val
get_val (max_header_list_size val) = val

unfoldable pub serialize_setting : HttpSetting → List ℕ
serialize_setting s =
    let id = get_id s in
    let val = get_val s in
    octet id 8 ∷ octet id 0 ∷ octet val 24 ∷ octet val 16 ∷ octet val 8 ∷ octet val 0 ∷ []

pub data SettingsFlag : Type 0 where
  ack : SettingsFlag

abbrev pub bitmask : SettingsFlag → ℕ
bitmask ack = 0x1

pub record SettingsFrame : Type 0 where
  pub settings : List HttpSetting
  pub flags : ℕ

unfoldable pub new : SettingsFrame
new = record { settings = []; flags = 0 }

unfoldable pub new_ack : SettingsFrame
new_ack = record { settings = []; flags = bitmask ack }

unfoldable pub add_setting : SettingsFrame → HttpSetting → SettingsFrame
add_setting f setting = record f { settings = f.settings ++ (setting ∷ []) }

unfoldable pub is_set : SettingsFrame → SettingsFlag → Bool
is_set f flag = has_flag f.flags (bitmask flag)

unfoldable pub set_flag : SettingsFrame → SettingsFlag → SettingsFrame
set_flag f flag = record f { flags = with_flag f.flags (bitmask flag) }

unfoldable pub set_ack : SettingsFrame → SettingsFrame
unfolding set_flag
set_ack f = set_flag f ack

unfoldable pub is_ack : SettingsFrame → Bool
unfolding is_set
is_ack f = is_set f ack

unfoldable pub payload_len : SettingsFrame → ℕ
payload_len f = 6 * (length f.settings % 2 ^ 32) % 2 ^ 32

-- `chunks(6).filter_map(parse_setting).collect()`; a last chunk that is shorter panics.
unfoldable pub parse_chunks : List ℕ → Exec (List HttpSetting)
unfolding parse_setting
parse_chunks [] = value []
parse_chunks (a ∷ b ∷ c ∷ d ∷ e ∷ f ∷ rest) = do
  setting ← parse_setting (a ∷ b ∷ c ∷ d ∷ e ∷ f ∷ [])
  others ← parse_chunks rest
  value (elim setting [ none ↦ others | some s ↦ s ∷ others ])
parse_chunks short = do
  setting ← parse_setting short
  value (elim setting [ none ↦ [] | some s ↦ s ∷ [] ])

unfoldable pub parse_payload : List ℕ → Exec (Option (List HttpSetting))
parse_payload payload =
    if not (length payload % 6 == 0)
    then value none
    else parse_chunks payload >>= λ settings. value (some settings)

unfoldable pub from_raw : RawFrame → Exec (Option SettingsFrame)
unfolding parse_payload
from_raw raw_frame = do
  (len, frame_type, flags, stream_id) ← Raw.header raw_frame
  payload ← Raw.payload raw_frame
  let parsed = parse_payload payload
  if not (frame_type == 0x4)
      then value none
      else (if not (len == length payload)
          then value none
          else (if not (stream_id == 0)
              then value none
              else (if has_flag flags (bitmask ack)
                  then (if not (len == 0)
                      then value none
                      else value (some (record { settings = []; flags = flags })))
                  else (parsed >>= λ r. value (elim r [
                    | none ↦ none
                    | some settings ↦ some (record { settings = settings; flags = flags })
                  ])))))

unfoldable pub get_stream_id : SettingsFrame → ℕ
get_stream_id f = 0

unfoldable pub get_header : SettingsFrame → FrameHeader
get_header f = (payload_len f, 0x4, f.flags, 0)

unfoldable pub write_settings : List HttpSetting → Cursor → Cursor
write_settings [] b = b
write_settings (s ∷ rest) b = write_settings rest (write_all (serialize_setting s) b)

unfoldable pub serialize_into : SettingsFrame → Cursor → Exec Cursor
unfolding get_header
serialize_into f b = value (write_settings f.settings (write_header (get_header f) b))
