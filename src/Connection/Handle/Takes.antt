-- ===== src/Connection/Handle/Takes.antt =====
-- http/connection.rs: handling a frame takes one frame from the receiver.
use solicit.Base.{Bool-cases, inl, inr, not, if◌then◌else◌}
use solicit.Http.Error.{unable_to_connect}
use solicit.Http.Run.{Run, ok, err, fault, M, throw}
use solicit.Frame.Settings
use solicit.Connection.HttpFrame.{
  HttpFrame, data_frame, headers_frame, rst_stream_frame, settings_frame, goaway_frame,
  window_update_frame, unknown_frame,
}
use solicit.Connection.Defs.{Hpack, HttpConnection, ReceiveFrame, Session}
use solicit.Connection.Send.{beside_first, beside_second, on_first, on_second}
use solicit.Connection.Keeps.{After, Keeps, followed_by-After}
use solicit.Connection.Handle.{handle_frame, handle_next_frame, expect_settings}

-- A property of the first half of the state.
module _ {ℓ} {W V : Type 0} {A : Type ℓ} (P : W → Type 0) where
  pub on_first-After :
      (m : M W A) (w : W) (v : V) → After P (m w) → After (λ (s : W × V). P s.0) (on_first m (w, v))
  on_first-After m w v h = beside (m w) h
    where
      beside : (r : Run W A) → After P r → After (λ (s : W × V). P s.0) (beside_first v r)
      beside (ok a w') h' = h'
      beside (err e w') h' = h'
      beside fault h' = tt

  pub on_second-After : (m : M V A) → Keeps (λ (s : W × V). P s.0) (on_second m)
  on_second-After m (w, v) h = beside (m v)
    where
      beside : (r : Run V A) → After (λ (s : W × V). P s.0) (beside_second w r)
      beside (ok a v') = h
      beside (err e v') = h
      beside fault = tt

module _ (hpack : Hpack) {Sess : Type 0} (session : Session hpack Sess) {Rx : Type 0}
    ⦃rx : ReceiveFrame Rx⦄ (P Q : Rx → Type 0)
    (takes : (r : Rx) → Q r → After P (rx.recv_frame r)) where
  abbrev pub OfReceiver : Rx × (Sess × HttpConnection hpack) → Type 0
  OfReceiver w = P w.0

  -- What `expect_settings` does with the frame.
  abbrev on_opening : HttpFrame → M (Rx × (Sess × HttpConnection hpack)) (Unit {0})
  on_opening (settings_frame settings) =
      if not (Settings.is_ack settings)
      then on_second (handle_frame hpack session (settings_frame settings))
      else throw unable_to_connect
  on_opening (data_frame f) = throw unable_to_connect
  on_opening (headers_frame f) = throw unable_to_connect
  on_opening (rst_stream_frame f) = throw unable_to_connect
  on_opening (goaway_frame f) = throw unable_to_connect
  on_opening (window_update_frame f) = throw unable_to_connect
  on_opening (unknown_frame f) = throw unable_to_connect

  first_frame-After : (f : HttpFrame) → Keeps OfReceiver (on_opening f)
  first_frame-After (settings_frame f) w h = elim (Bool-cases (Settings.is_ack f)) [
    | inl e ↦ rw e h
    | inr e ↦ rw e (on_second-After P (handle_frame hpack session (settings_frame f)) w h)
  ]
  first_frame-After (data_frame f) w h = h
  first_frame-After (headers_frame f) w h = h
  first_frame-After (rst_stream_frame f) w h = h
  first_frame-After (goaway_frame f) w h = h
  first_frame-After (window_update_frame f) w h = h
  first_frame-After (unknown_frame f) w h = h

  pub handle_next_frame-After :
      (r : Rx) (v : Sess × HttpConnection hpack)
      → Q r
      → After OfReceiver (handle_next_frame hpack session (r, v))
  unfolding handle_next_frame
  handle_next_frame-After r v q =
      followed_by-After OfReceiver _ _ (on_first-After P rx.recv_frame r v (takes r q))
        λ f. on_second-After P (handle_frame hpack session f)

  pub expect_settings-After :
      (r : Rx) (v : Sess × HttpConnection hpack)
      → Q r
      → After OfReceiver (expect_settings hpack session (r, v))
  unfolding expect_settings
  expect_settings-After r v q =
      followed_by-After OfReceiver _ _ (on_first-After P rx.recv_frame r v (takes r q))
        first_frame-After
