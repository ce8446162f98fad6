-- ===== src/Tests/Frames.antt =====
-- http/frame, http/connection.rs and http/transport.rs at concrete frames.
use solicit.Base.{
  ℕ, ◌≤◌, ◌<◌, ◌≡◌, ◌≢◌, refl, arith, ◌↔◌, true, List, [], ◌∷◌, ◌++◌, length, none, some, value,
  panic, All,
}
use solicit.Base.Int.{pos, IsI32}
use solicit.Http.Error.{success}
use solicit.Http.Run.{ok, fault}
use solicit.Http.Window.{WindowSize, try_increase, try_decrease}
use solicit.Http.Window.Bounds.{
  Increased, Decreased, try_increase-Increased, try_decrease-Decreased,
}
use solicit.Http.Response.{parse_status_code}
use solicit.Http.Response.Status.{digits, parse_status_code_iff}
use solicit.Frame.Builder.{Cursor}
use solicit.Frame.Wire.{at_end}
use solicit.Frame.Raw.{raw_from, has_flag, with_flag, parse_padded_payload}
use solicit.Frame.Raw
use solicit.Frame.Raw.Parse.{IsParsed, parse-IsParsed}
use solicit.Frame.Headers
use solicit.Frame.Headers.{
  StreamDependency, parse_dependency, serialize_dependency, strip_padding, bitmask, padded,
  priority,
}
use solicit.Frame.Headers.Panics.{on_wire, from_raw_panics}
use solicit.Frame.Settings
use solicit.Frame.Settings.{HttpSetting, enable_push, initial_window_size, parse_chunks}
use solicit.Connection.HttpFrame.{HttpFrame, data_frame, settings_frame, serialize_into, from_raw}
use solicit.Connection.HttpFrame.RoundTrip.{IsWellFormed, from_raw-serialize_into}
use solicit.Transport.{read_exact, read_loop, after_read}
use solicit.Transport.ReadExact.{
  EndsWith, read_exact_complete, read_exact_sound, read_exact_terminates,
}
use solicit.Transport.Delivery.{recv_all, send_all_succeeds, recv_all-send_all}
use solicit.Tests.Pipe.{front, Pipe, start, pipe, pipe-IsStream}

abbrev padded_frame : HttpFrame
padded_frame =
    data_frame (record { content = 7 ∷ 8 ∷ []; flags = 9; stream_id = 3; padding_len = some 2 })

abbrev settings : HttpFrame
settings =
    settings_frame (record { settings = enable_push 0 ∷ initial_window_size 70000 ∷ []; flags = 0 })

padded_frame-IsWellFormed : IsWellFormed padded_frame
unfolding has_flag
padded_frame-IsWellFormed = record {
  on_stream = omega arith;
  id_fits = omega arith;
  flags_fit = omega arith;
  fits = omega arith;
  padding = omega arith;
}

settings-IsWellFormed : IsWellFormed settings
unfolding has_flag Settings.get_val Settings.serialize_setting
settings-IsWellFormed = record {
  flags_fit = omega arith;
  fits = omega arith;
  values_fit = (omega arith, (omega arith, tt));
  ack_rule = tt;
}

from_raw-serialize_into_example :
    (c : Cursor) × (serialize_into padded_frame (at_end []) ≡ value c)
    × (Raw.parse (c.buffer ++ (1 ∷ [])) ≡ value (some (raw_from c.buffer)))
    × (from_raw (raw_from c.buffer) ≡ value (success padded_frame))
from_raw-serialize_into_example =
    from_raw-serialize_into padded_frame (1 ∷ []) padded_frame-IsWellFormed

abbrev both : List HttpFrame
both = settings ∷ padded_frame ∷ []

both-IsWellFormed : All IsWellFormed both
both-IsWellFormed = (settings-IsWellFormed, (padded_frame-IsWellFormed, tt))

abbrev sent : Pipe
sent = (send_all_succeeds pipe-IsStream both (start []) both-IsWellFormed).0

recv_all-send_all_example :
    (t : Pipe) × (recv_all pipe-IsStream 2 (start (sent.written ++ (5 ∷ []))) ≡ ok both t)
    × (t.unread ≡ 5 ∷ [])
recv_all-send_all_example =
    recv_all-send_all pipe-IsStream both (5 ∷ []) (start []) sent (start (sent.written ++ (5 ∷ [])))
      both-IsWellFormed refl (send_all_succeeds pipe-IsStream both (start []) both-IsWellFormed).1
      refl

read_exact_complete_example :
    (t : Pipe) × (read_exact 2 (start (1 ∷ 2 ∷ 3 ∷ [])) ≡ ok (1 ∷ 2 ∷ []) t) × (t.unread ≡ 3 ∷ [])
read_exact_complete_example =
    read_exact_complete pipe-IsStream (1 ∷ 2 ∷ []) (3 ∷ []) (start (1 ∷ 2 ∷ 3 ∷ [])) refl

abbrev after_two : Pipe
after_two = record { unread = 3 ∷ []; written = [] }

two_read : read_exact 2 (start (1 ∷ 2 ∷ 3 ∷ [])) ≡ ok (1 ∷ 2 ∷ []) after_two
unfolding read_exact read_loop after_read
two_read = refl

read_exact_sound_example :
    (length {A = ℕ} (1 ∷ 2 ∷ []) ≡ 2) × ((start (1 ∷ 2 ∷ 3 ∷ [])).unread ≡ (1 ∷ 2 ∷ []) ++ (3 ∷ []))
read_exact_sound_example =
    read_exact_sound pipe-IsStream 2 (start (1 ∷ 2 ∷ 3 ∷ [])) after_two (1 ∷ 2 ∷ []) two_read

never_faults : (n : ℕ) (u : Pipe) → pipe.read n u ≢ fault
never_faults n u = λ e. cc

bounded_reads :
    (n : ℕ) (t t' : Pipe) (bytes : List ℕ) → pipe.read n t ≡ ok bytes t' → length bytes ≤ n
bounded_reads n t t' bytes got = (front n t t' bytes got).0

read_exact_terminates_example : EndsWith 9 (read_exact 9 (start (1 ∷ [])))
read_exact_terminates_example = read_exact_terminates never_faults bounded_reads 9 (start (1 ∷ []))

parse-IsParsed_example :
    IsParsed
      (0 ∷ 0 ∷ 1 ∷ 0 ∷ 0 ∷ 0 ∷ 0 ∷ 0 ∷ 1 ∷ [])
      (Raw.parse (0 ∷ 0 ∷ 1 ∷ 0 ∷ 0 ∷ 0 ∷ 0 ∷ 0 ∷ 1 ∷ []))
parse-IsParsed_example = parse-IsParsed (0 ∷ 0 ∷ 1 ∷ 0 ∷ 0 ∷ 0 ∷ 0 ∷ 0 ∷ 1 ∷ [])

four_left :
    strip_padding (1 ∷ 2 ∷ 3 ∷ 4 ∷ []) (has_flag 0x20 (bitmask padded))
    ≡ value (some (1 ∷ 2 ∷ 3 ∷ 4 ∷ [], none))
unfolding strip_padding has_flag
four_left = refl

from_raw_panics_example :
    (Headers.from_raw (on_wire 0x20 1 (1 ∷ 2 ∷ 3 ∷ 4 ∷ [])) ≡ panic)
    ↔ ((has_flag 0x20 (bitmask priority) ≡ true) × (4 < 5))
from_raw_panics_example =
    from_raw_panics 0x20 1 (1 ∷ 2 ∷ 3 ∷ 4 ∷ []) (1 ∷ 2 ∷ 3 ∷ 4 ∷ []) none (omega arith)
      (omega arith) (omega arith) (omega arith) four_left

parse_status_code_iff_example :
    (parse_status_code (0x32 ∷ 0x30 ∷ 0x34 ∷ []) ≡ value (success 204))
    ↔ ((100 ≤ 204) × (204 < 600) × (0x32 ∷ 0x30 ∷ 0x34 ∷ [] ≡ digits 204))
parse_status_code_iff_example = parse_status_code_iff (0x32 ∷ 0x30 ∷ 0x34 ∷ []) 204

abbrev window : WindowSize
window = record { size = pos 65535 }

try_increase-Increased_example :
    Increased window 10 (try_increase window 10) × IsI32 (try_increase window 10).0.size
try_increase-Increased_example = try_increase-Increased window 10 (omega arith)

try_decrease-Decreased_example :
    Decreased window (pos 70000) (try_decrease window (pos 70000))
    × IsI32 (try_decrease window (pos 70000)).0.size
try_decrease-Decreased_example = try_decrease-Decreased window 70000 (omega arith)
