-- ===== src/Connection/Handle/Block.antt =====
-- http/connection.rs: a header list that one end sends reaches the session of the other end.
use solicit.Base.{ℕ, ◌≡◌, refl, Bool, true, false, List, [], ◌∷◌, map, ap}
use solicit.Http.Run.{◌>>◌}
use solicit.Http.Response.{Header, OwnedHeader, new_header}
use solicit.Frame.Raw.{has_flag, with_flag}
use solicit.Frame.Headers
use solicit.Priority.{EndStream, yes_end, no_end}
use solicit.Connection.Defs.{Hpack, HttpConnection, Session, decoded}
use solicit.Connection.HttpFrame
use solicit.Connection.Send.{headers_frame}
use solicit.Connection.Handle.{handle_frame, handle_headers_frame, decode_headers, signal_end}

-- What is assumed of the `hpack` crate: while the contexts of an encoder and a decoder are in step,
-- the decoder gives the encoded list back, and the contexts stay in step; new contexts are in step.
pub record IsCodec (hpack : Hpack) : Type 1 where
  pub InStep : hpack.Encoder → hpack.Decoder → Type 0
  pub new_in_step : InStep hpack.new_encoder hpack.new_decoder
  pub decode-encode :
      (e : hpack.Encoder) (d : hpack.Decoder) (hs : List OwnedHeader)
      → InStep e d
      → ((hpack.decode d (hpack.encode e hs).0).0 ≡ decoded hs)
        × InStep (hpack.encode e hs).1 (hpack.decode d (hpack.encode e hs).0).1

abbrev pub owned : List Header → List OwnedHeader
owned hs = map (λ h. (h.name, h.value)) hs

abbrev pub ends : EndStream → Bool
ends yes_end = true
ends no_end = false

headers_again : (hs : List Header) → map (λ h. new_header h.0 h.1) (owned hs) ≡ hs
unfolding new_header
headers_again [] = refl
headers_again (h ∷ hs) = ap (◌∷◌ h) (headers_again hs)

module _ (hpack : Hpack) (codec : IsCodec hpack) {Sess : Type 0}
    (session : Session hpack Sess) where
  -- Handling the frame that `send_headers` builds, where the decoder is in step with the sender's
  -- encoder, gives the session the header list that was sent, for the same stream, and then signals
  -- the end of the stream exactly if the sender asked for it. The contexts are in step afterwards.
  pub handle_frame-headers_frame :
      (hs : List Header) (id : ℕ) (e : EndStream) (encoder : hpack.Encoder) (s : Sess)
      (conn : HttpConnection hpack)
      → codec.InStep encoder conn.decoder
      → (d : hpack.Decoder) × (handle_frame hpack session
            (HttpFrame.headers_frame (headers_frame (hpack.encode encoder (owned hs)).0 id e))
            (s, conn)
          ≡ (session.new_headers id hs >> signal_end hpack session (ends e) id)
              (s, record conn { decoder = d }))
        × codec.InStep (hpack.encode encoder (owned hs)).1 d
  unfolding handle_frame handle_headers_frame decode_headers headers_frame Headers.is_end_of_stream
      Headers.get_stream_id Headers.set_flag Headers.new has_flag with_flag
  handle_frame-headers_frame hs id yes_end encoder s conn in_step =
      let block = (hpack.encode encoder (owned hs)).0 in
      let (same, still) = codec.decode-encode encoder conn.decoder (owned hs) in_step in
      ((hpack.decode conn.decoder block).1, rw (decode_headers, same, headers_again hs) refl, still)
  handle_frame-headers_frame hs id no_end encoder s conn in_step =
      let block = (hpack.encode encoder (owned hs)).0 in
      let (same, still) = codec.decode-encode encoder conn.decoder (owned hs) in_step in
      ((hpack.decode conn.decoder block).1, rw (decode_headers, same, headers_again hs) refl, still)
