-- ===== src/Client/Requests.antt =====
-- http/client/mod.rs: a request over a stream of octets.
use solicit.Base.{ℕ, ◌<◌, ◌^◌, ◌≡◌, refl, arith, List, ◌++◌, length, if◌then◌else◌, IsU31}
use solicit.Http.Run.{ok}
use solicit.Frame.Headers
use solicit.Frame.Raw.{has_flag, with_flag}
use solicit.Session.Stream.{Stream, is_closed_local}
use solicit.Session.State.{SessionState, insert_outgoing}
use solicit.Priority.{EndStream, yes_end, no_end}
use solicit.Connection.HttpFrame.{HttpFrame}
use solicit.Connection.HttpFrame
use solicit.Connection.HttpFrame.RoundTrip.{IsWellFormed}
use solicit.Connection.Defs.{Hpack, HttpConnection}
use solicit.Connection.Send.{send_headers, headers_frame}
use solicit.Connection.Handle.Block.{owned}
use solicit.Transport.{TransportStream, transport_send}
use solicit.Transport.ReadExact.{IsStream}
use solicit.Transport.Delivery.{octets_of, send_frame-octets}
use solicit.Client.{RequestStream, start_request}

pub headers_frame-IsWellFormed :
    (block : List ℕ) (id : ℕ) (e : EndStream)
    → 0 < id
    → IsU31 id
    → length block < 2 ^ 24
    → IsWellFormed (HttpFrame.headers_frame (headers_frame block id e))
unfolding headers_frame Headers.set_flag Headers.new has_flag with_flag
headers_frame-IsWellFormed block id yes_end pos fits small = record {
  on_stream = pos;
  id_fits = fits;
  flags_fit = omega arith;
  fits = small;
  padding = tt;
  dependency = tt;
}
headers_frame-IsWellFormed block id no_end pos fits small = record {
  on_stream = pos;
  id_fits = fits;
  flags_fit = omega arith;
  fits = small;
  padding = tt;
  dependency = tt;
}

module _ (hpack : Hpack) {S : Type 0} ⦃t : Stream S⦄ where
  -- The block and the end of a request.
  abbrev pub block_of : RequestStream S → HttpConnection hpack → List ℕ
  block_of req conn = (hpack.encode conn.encoder (owned req.headers)).0

  abbrev pub end_of : RequestStream S → EndStream
  end_of req = if is_closed_local req.stream then yes_end else no_end

  -- The HEADERS frame of a request.
  abbrev pub request_frame : RequestStream S → ℕ → HttpConnection hpack → HttpFrame
  request_frame req id conn =
      HttpFrame.headers_frame (headers_frame (block_of req conn) id (end_of req))

module _ (hpack : Hpack) {S T : Type 0} ⦃t : Stream S⦄ ⦃ts : TransportStream T⦄
    (stream : IsStream ts) where
  -- `start_request` over a stream of octets registers the stream under the next identifier, which it
  -- returns, and writes the octets of the HEADERS frame of the request and no others.
  pub start_request_sends :
      (req : RequestStream S) (st : SessionState S) (out : T) (conn : HttpConnection hpack)
      (w : IsWellFormed (request_frame hpack req st.next_stream_id conn))
      → (out' : T) × (start_request hpack req ((st, out), conn)
          ≡ ok st.next_stream_id (
            ((insert_outgoing st req.stream).0, out'),
            record conn { encoder = (hpack.encode conn.encoder (owned req.headers)).1 },
          ))
        × (stream.written out'
            ≡ stream.written out ++ octets_of (request_frame hpack req st.next_stream_id conn) w)
  unfolding start_request send_headers insert_outgoing HttpFrame.serialize_into
  start_request_sends req st out conn w =
      let (out', sent, grown) =
        send_frame-octets stream (request_frame hpack req st.next_stream_id conn) w out in
      (out', rw sent refl, grown)
