-- ===== src/Connection/Handle/Keeps.antt =====
-- http/connection.rs: what the callbacks of a session keep, the handling of a frame keeps.
use solicit.Base.{
  ℕ, ◌≡◌, refl, Bool, true, false, not, if◌then◌else◌, List, Option, inl, inr, Bool-cases,
}
use solicit.Http.Error.{ErrorCode, unable_to_connect}
use solicit.Http.Run.{M, throw}
use solicit.Http.Response.{Header}
use solicit.Http.Window.{try_decrease}
use solicit.Base.Int.{as_i32}
use solicit.Frame.Data
use solicit.Frame.Headers
use solicit.Frame.Settings
use solicit.Frame.Settings.{HttpSetting}
use solicit.Connection.HttpFrame.{
  HttpFrame, data_frame, headers_frame, rst_stream_frame, settings_frame, goaway_frame,
  window_update_frame, unknown_frame,
}
use solicit.Connection.Defs.{
  Hpack, HttpConnection, Session, ReceiveFrame, decoded, undecodable, DecodeResult,
}
use solicit.Connection.Handle.{
  decrease_in_window, signal_end, handle_data_frame, decode_headers, handle_headers_frame,
  handle_rst_stream_frame, handle_settings_frame, handle_frame, handle_next_frame, expect_settings,
}
use solicit.Connection.Send.{on_second}
use solicit.Connection.Keeps.{Keeps, After, followed_by-After, on_second-Keeps, on_first-Keeps}

module _ (hpack : Hpack) {Sess : Type 0} (P : Sess → Type 0) where
  -- The property of the session, in the state of a callback.
  abbrev pub OfSession : Sess × HttpConnection hpack → Type 0
  OfSession w = P w.0

  pub record CallbacksKeep (session : Session hpack Sess) : Type 0 where
    pub new_data_chunk :
        (id : ℕ) (bytes : List ℕ) → Keeps OfSession (session.new_data_chunk id bytes)
    pub new_headers : (id : ℕ) (hs : List Header) → Keeps OfSession (session.new_headers id hs)
    pub end_of_stream : (id : ℕ) → Keeps OfSession (session.end_of_stream id)
    pub rst_stream : (id : ℕ) (e : ErrorCode) → Keeps OfSession (session.rst_stream id e)
    pub new_settings :
        (settings : List HttpSetting) → Keeps OfSession (session.new_settings settings)
    pub on_goaway :
        (id : ℕ) (e : ErrorCode) (d : Option (List ℕ)) → Keeps OfSession (session.on_goaway id e d)

  module _ (session : Session hpack Sess) (keep : CallbacksKeep session) where
    decrease_in_window-Keeps : (n : ℕ) → Keeps OfSession (decrease_in_window hpack session n)
    unfolding decrease_in_window
    decrease_in_window-Keeps n (s, conn) h =
        elim (Bool-cases (try_decrease conn.in_window_size (as_i32 n)).1) [
          | inl e ↦ rw e h
          | inr e ↦ rw e h
        ]

    signal_end-Keeps : (b : Bool) (id : ℕ) → Keeps OfSession (signal_end hpack session b id)
    unfolding signal_end
    signal_end-Keeps true id w h = keep.end_of_stream id w h
    signal_end-Keeps false id w h = h

    decode_headers-Keeps : (block : List ℕ) → Keeps OfSession (decode_headers hpack session block)
    unfolding decode_headers
    decode_headers-Keeps block (s, conn) h = by_result (hpack.decode conn.decoder block).0 refl
      where
        by_result :
            (r : DecodeResult)
            → (hpack.decode conn.decoder block).0 ≡ r
            → After OfSession (decode_headers hpack session block (s, conn))
        by_result (decoded hs) e = rw (decode_headers, e) h
        by_result (undecodable n) e = rw (decode_headers, e) h

    handle_frame-Keeps : (f : HttpFrame) → Keeps OfSession (handle_frame hpack session f)
    unfolding handle_frame handle_data_frame handle_headers_frame handle_rst_stream_frame
        handle_settings_frame
    handle_frame-Keeps (data_frame f) w h =
        followed_by-After OfSession _ _ (decrease_in_window-Keeps (Data.payload_len f) w h)
          λ a w1 h1.
            followed_by-After OfSession _ _
              (keep.new_data_chunk (Data.get_stream_id f) f.content w1 h1) λ b. signal_end-Keeps _ _
    handle_frame-Keeps (headers_frame f) w h =
        followed_by-After OfSession _ _ (decode_headers-Keeps f.header_fragment w h) λ hs w1 h1.
          followed_by-After OfSession _ _ (keep.new_headers (Headers.get_stream_id f) hs w1 h1)
            λ b. signal_end-Keeps _ _
    handle_frame-Keeps (rst_stream_frame f) w h = keep.rst_stream _ _ w h
    handle_frame-Keeps (settings_frame f) w h = elim (Bool-cases (Settings.is_ack f)) [
      | inl e ↦ rw e h
      | inr e ↦ rw e (keep.new_settings f.settings w h)
    ]
    handle_frame-Keeps (goaway_frame f) w h = keep.on_goaway _ _ _ w h
    handle_frame-Keeps (window_update_frame f) w h = h
    handle_frame-Keeps (unknown_frame f) w h = h

    module _ {Rx : Type 0} ⦃rx : ReceiveFrame Rx⦄ where
      abbrev OfReceiver : Rx × (Sess × HttpConnection hpack) → Type 0
      OfReceiver w = P w.1.0

      -- What `expect_settings` does with the frame.
      abbrev on_opening : HttpFrame → M (Rx × (Sess × HttpConnection hpack)) (Unit {0})
      on_opening (settings_frame settings) =
          if not (Settings.is_ack settings)
          then on_second (handle_frame hpack session (settings_frame settings))
          else throw unable_to_connect
      on_opening (data_frame f) = throw unable_to_connect
      on_opening (headers_frame f) = throw unable_to_connect
      on_opening (rst_stream_frame f) = throw unable_to_connect
      on_opening (goaway_frame f) = throw unable_to_connect
      on_opening (window_update_frame f) = throw unable_to_connect
      on_opening (unknown_frame f) = throw unable_to_connect

      pub handle_next_frame-Keeps : Keeps OfReceiver (handle_next_frame hpack session)
      unfolding handle_next_frame
      handle_next_frame-Keeps w h =
          followed_by-After OfReceiver _ _ (on_first-Keeps OfSession rx.recv_frame w h)
            λ f. on_second-Keeps OfSession (handle_frame hpack session f) (handle_frame-Keeps f)

      first_frame-Keeps : (f : HttpFrame) → Keeps OfReceiver (on_opening f)
      first_frame-Keeps (settings_frame f) w h = elim (Bool-cases (Settings.is_ack f)) [
        | inl e ↦ rw e h
        | inr e ↦ rw e (
            on_second-Keeps OfSession (handle_frame hpack session (settings_frame f))
              (handle_frame-Keeps (settings_frame f)) w h)
      ]
      first_frame-Keeps (data_frame f) w h = h
      first_frame-Keeps (headers_frame f) w h = h
      first_frame-Keeps (rst_stream_frame f) w h = h
      first_frame-Keeps (goaway_frame f) w h = h
      first_frame-Keeps (window_update_frame f) w h = h
      first_frame-Keeps (unknown_frame f) w h = h

      pub expect_settings-Keeps : Keeps OfReceiver (expect_settings hpack session)
      unfolding expect_settings
      expect_settings-Keeps w h =
          followed_by-After OfReceiver _ _ (on_first-Keeps OfSession rx.recv_frame w h)
            first_frame-Keeps
