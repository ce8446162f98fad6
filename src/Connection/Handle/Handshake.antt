-- ===== src/Connection/Handle/Handshake.antt =====
-- http/connection.rs: the first frame of the peer.
use solicit.Base.{◌≡◌, refl, inl, inr, Bool-cases, if◌then◌else◌}
use solicit.Http.Error.{unable_to_connect}
use solicit.Http.Run.{ok, M, throw}
use solicit.Frame.Settings
use solicit.Connection.HttpFrame.{
  HttpFrame, data_frame, headers_frame, rst_stream_frame, settings_frame, goaway_frame,
  window_update_frame, unknown_frame,
}
use solicit.Connection.Defs.{Hpack, HttpConnection, Session, ReceiveFrame}
use solicit.Connection.Send.{beside_second}
use solicit.Connection.Handle.{expect_settings, handle_settings_frame}

module _ (hpack : Hpack) {Sess : Type 0} (session : Session hpack Sess) where
  -- What is to be done with the first frame: settings that are no ACK go to the session, and
  -- everything else is refused.
  abbrev pub opening : HttpFrame → M (Sess × HttpConnection hpack) (Unit {0})
  opening (settings_frame f) =
      if Settings.is_ack f then throw unable_to_connect else session.new_settings f.settings
  opening _ = throw unable_to_connect

  -- `expect_settings` on a frame that was received does with it what is to be done with it.
  pub expect_settings-opening :
      {Rx : Type 0} ⦃rx : ReceiveFrame Rx⦄ (frame : HttpFrame) (r r' : Rx)
      (w : Sess × HttpConnection hpack)
      → rx.recv_frame r ≡ ok frame r'
      → expect_settings hpack session (r, w) ≡ beside_second r' (opening frame w)
  unfolding expect_settings handle_settings_frame
  expect_settings-opening (data_frame f) r r' w got = rw got refl
  expect_settings-opening (headers_frame f) r r' w got = rw got refl
  expect_settings-opening (rst_stream_frame f) r r' w got = rw got refl
  expect_settings-opening (goaway_frame f) r r' w got = rw got refl
  expect_settings-opening (window_update_frame f) r r' w got = rw got refl
  expect_settings-opening (unknown_frame f) r r' w got = rw got refl
  expect_settings-opening (settings_frame f) r r' w got = elim (Bool-cases (Settings.is_ack f)) [
    | inl ack ↦ rw (got, ack) refl
    | inr plain ↦ rw (got, plain) refl
  ]
