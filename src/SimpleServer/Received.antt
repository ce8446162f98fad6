-- ===== src/SimpleServer/Received.antt =====
-- server/mod.rs: every stream of the server has headers, after each frame that is received.
use solicit.Base.{ℕ, ◌≢◌, inl, inr, List, [], ◌∷◌, none, ◌==◌, Bool-cases, Option-cases}
use solicit.Http.Run.{Run, ok, err, fault}
use solicit.Http.Response.{Header}
use solicit.Session.Stream.{
  DefaultStream, default_stream, close_remote, default_new_data_chunk, default_set_headers, with_id,
}
use solicit.Session.State.{
  SessionState, update, insert, insert_incoming, change_stream, validate_incoming_parity,
  get_stream_ref,
}
use solicit.Session.State.Maps.{Distinct, insert-Distinct, update-Distinct}
use solicit.Priority.Flush.{InData, Flushing}
use solicit.Connection.Defs.{Hpack, HttpConnection, SendFrame, default_on_goaway}
use solicit.Connection.Send.{send_settings_ack}
use solicit.Connection.Keeps.{After, Keeps}
use solicit.Connection.Handle.Keeps
use solicit.Connection.Handle.Keeps.{CallbacksKeep}
use solicit.Transport.{TransportStream, transport_send, transport_receive}
use solicit.Server
use solicit.Server.{
  World, ServerSession, server_session, on_stream, new_headers, new_settings, from_sender,
  on_sender,
}
use solicit.SimpleServer.{SimpleServer, simple_factory, put_back, on_conn, handle_next_frame}

abbrev pub HasHeaders : DefaultStream → Type 0
HasHeaders s = s.headers ≢ none

-- The data to send of a stream, and a property of the stream.
abbrev pub Sound : (DefaultStream → Type 0) → DefaultStream → Type 0
Sound P s = InData s.outgoing × P s

pub update-Flushing :
    (P : DefaultStream → Type 0) (k : ℕ) (f : DefaultStream → DefaultStream)
    (m : List (ℕ × DefaultStream))
    → ((s : DefaultStream) → Sound P s → Sound P (f s))
    → Flushing P m
    → Flushing P (update k f m)
unfolding update
update-Flushing P k f [] keep h = tt
update-Flushing P k f ((i, s) ∷ m) keep (p, h) = elim (Bool-cases (i == k)) [
  | inl e ↦ rw e (keep s p, update-Flushing P k f m keep h)
  | inr e ↦ rw e (p, update-Flushing P k f m keep h)
]

insert-Flushing :
    (P : DefaultStream → Type 0) (k : ℕ) (s : DefaultStream) (m : List (ℕ × DefaultStream))
    → Sound P s
    → Flushing P m
    → Flushing P (insert k s m)
unfolding insert
insert-Flushing P k s [] p h = (p, tt)
insert-Flushing P k s ((i, s') ∷ m) p (p', h) = elim (Bool-cases (i == k)) [
  | inl e ↦ rw e (p, h)
  | inr e ↦ rw e (p', insert-Flushing P k s m p h)
]

-- What the streams of a server are between two frames, whether their remote ends are open or not.
abbrev pub Held : SessionState DefaultStream → Type 0
Held st = Flushing HasHeaders st.streams × Distinct st.streams

insert_incoming-Held :
    (st : SessionState DefaultStream) (id : ℕ) (s : DefaultStream)
    → Sound HasHeaders s
    → Held st
    → Held (insert_incoming st id s).0
unfolding insert_incoming
insert_incoming-Held st id s p (f, d) = elim (Bool-cases (validate_incoming_parity st id)) [
  | inl e ↦ rw e (insert-Flushing HasHeaders id s st.streams p f, insert-Distinct id s st.streams d)
  | inr e ↦ rw e (f, d)
]

module _ (hpack : Hpack) {Tx : Type 0} ⦃tx : SendFrame Tx⦄ where
  abbrev OfState : ServerSession DefaultStream (Unit {0}) Tx → Type 0
  OfState s = Held s.0

  on_stream-Held :
      (id : ℕ) (f : DefaultStream → DefaultStream)
      → ((s : DefaultStream) → Sound HasHeaders s → Sound HasHeaders (f s))
      → Keeps (λ w. OfState w.0) (on_stream hpack id f)
  unfolding on_stream change_stream
  on_stream-Held id f keep ((st, fac, out), conn) (h, d) =
      (update-Flushing HasHeaders id f st.streams keep h, update-Distinct id f st.streams d)

  new_headers-Held :
      (id : ℕ) (hs : List Header) → Keeps (λ w. OfState w.0) (new_headers hpack id hs)
  unfolding new_headers default_set_headers with_id change_stream
  new_headers-Held id hs ((st, fac, out), conn) (h, d) =
      elim (Option-cases (get_stream_ref st id)) [
        | inl e ↦
            rw (new_headers, e) (insert_incoming-Held st id _ (tt, λ missing. absurd cc) (h, d))
        | inr (s, e) ↦
            rw (new_headers, e)
              (
                update-Flushing HasHeaders id (default_set_headers hs) st.streams
                    (λ s' p. (p.0, λ missing. absurd cc)) h,
                update-Distinct id (default_set_headers hs) st.streams d,
              )
      ]

  sender-Held :
      (st : SessionState DefaultStream) (fac : Unit {0})
      (r : Run (HttpConnection hpack × Tx) (Unit {0}))
      → Held st
      → After (λ w. OfState w.0) (from_sender hpack st fac r)
  sender-Held st fac (ok a w) h = h
  sender-Held st fac (err e w) h = h
  sender-Held st fac fault h = tt

  callbacks-Keep : CallbacksKeep hpack OfState (server_session hpack)
  unfolding default_on_goaway close_remote default_new_data_chunk default_set_headers new_settings
  callbacks-Keep = record {
    new_data_chunk = λ id bytes. on_stream-Held id (default_new_data_chunk bytes) (λ s p. p);
    new_headers = new_headers-Held;
    end_of_stream = λ id. on_stream-Held id close_remote (λ s p. p);
    rst_stream = λ id e. on_stream-Held id (default_stream.on_rst_stream e) (λ s p. p);
    new_settings = λ settings w h. sender-Held w.0.0 w.0.1 (send_settings_ack hpack (w.1, w.0.2)) h;
    on_goaway = λ id e d w h. h;
  }

module _ (hpack : Hpack) {T H : Type 0} ⦃ts : TransportStream T⦄ where
  put_back-Held :
      (s : SimpleServer hpack T H) (r : Run (T × World hpack DefaultStream (Unit {0}) T) (Unit {0}))
      → After (λ w. Held w.1.0.0) r
      → After (λ (s' : SimpleServer hpack T H). Held s'.conn.state) (put_back s r)
  put_back-Held s (ok a (rx, ((st, fac, tx), c))) h = h
  put_back-Held s (err e (rx, ((st, fac, tx), c))) h = h
  put_back-Held s fault h = tt

  pub handle_next_frame-Held :
      (s : SimpleServer hpack T H)
      → Held s.conn.state
      → After (λ (s' : SimpleServer hpack T H). Held s'.conn.state) (handle_next_frame s)
  unfolding handle_next_frame on_conn Server.handle_next_frame
  handle_next_frame-Held s h = put_back-Held s _ (
      Keeps.handle_next_frame-Keeps hpack (OfState hpack) _ (callbacks-Keep hpack)
        (s.receiver, ((s.conn.state, tt, s.sender), s.conn.conn)) h)
