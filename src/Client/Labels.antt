-- ===== src/Client/Labels.antt =====
-- http/client/mod.rs: a client over in-memory streams opens a stream only where it starts a request.
use solicit.Base.{ℕ, ◌≡◌, refl, ◌∙◌, List, Option, none, some, value, panic, Exec, replicate}
use solicit.Http.Error.{HttpResult, success, failure}
use solicit.Http.Run.{Run, ok, err, fault, M, ◌>>=◌, pure}
use solicit.Session.Stream.{
  DefaultStream, default_stream, close, default_new_data_chunk, default_set_headers,
}
use solicit.Session.State.{SessionState, change_stream}
use solicit.Session.State.Labels.{labels, labels-update}
use solicit.Priority.{DataChunk, get_next_chunk}
use solicit.Priority.Labels.{KeepsLabels, get_next_chunk-KeepsLabels}
use solicit.Connection.Defs.{Hpack, HttpConnection, SendFrame, ReceiveFrame, default_on_goaway}
use solicit.Connection.Send.{
  send_settings_ack, DataPrioritizer, SendStatus, sent, nothing, send_data, on_first, on_second,
}
use solicit.Connection.Send
use solicit.Connection.Keeps.{After, Keeps, followed_by-After, on_first-Keeps, on_second-Keeps}
use solicit.Connection.Handle.Keeps
use solicit.Connection.Handle.Keeps.{CallbacksKeep}
use solicit.Client.{
  ClientSession, World, on_stream, new_settings, client_session, simple_prioritizer, max_chunk_size,
  send_next_data, handle_next_frame, expect_settings, from_sender,
}

-- The streams have these identifiers, and this is the next one.
abbrev pub Labelled : List (ℕ × Option ℕ) → ℕ → SessionState DefaultStream → Type 0
Labelled ls next st = (labels st.streams ≡ ls) × (st.next_stream_id ≡ next)

module _ (ls : List (ℕ × Option ℕ)) (next : ℕ) where
  chunk-Labelled :
      (size : ℕ) (st : SessionState DefaultStream)
      (r : Exec (List (ℕ × DefaultStream) × HttpResult (Option DataChunk)))
      → get_next_chunk st.streams (replicate size 0) ≡ r
      → KeepsLabels st.streams r
      → Labelled ls next st
      → After (Labelled ls next) ((simple_prioritizer size).get_next_chunk st)
  unfolding simple_prioritizer
  chunk-Labelled size st panic e same h = rw (After, e) tt
  chunk-Labelled size st (value (m, success c)) e same (h, n) = rw (After, e) (same ∙ h, n)
  chunk-Labelled size st (value (m, failure x)) e same (h, n) = rw (After, e) (same ∙ h, n)

  get_next_chunk-Labelled :
      (size : ℕ) → Keeps (Labelled ls next) ((simple_prioritizer size).get_next_chunk)
  get_next_chunk-Labelled size st h =
      chunk-Labelled size st (get_next_chunk st.streams (replicate size 0)) refl
        (get_next_chunk-KeepsLabels st.streams (replicate size 0)) h

module _ (hpack : Hpack) {Tx : Type 0} ⦃tx : SendFrame Tx⦄ (ls : List (ℕ × Option ℕ))
    (next : ℕ) where
  abbrev OfState : ClientSession DefaultStream Tx → Type 0
  OfState s = Labelled ls next s.0

  on_stream-Labelled :
      (id : ℕ) (f : DefaultStream → DefaultStream)
      → ((s : DefaultStream) → (f s).stream_id ≡ s.stream_id)
      → Keeps (λ w. OfState w.0) (on_stream hpack id f)
  unfolding on_stream change_stream
  on_stream-Labelled id f same ((st, out), conn) (h, n) =
      (labels-update id f st.streams same ∙ h, n)

  new_settings-Labelled :
      (st : SessionState DefaultStream) (r : Run (HttpConnection hpack × Tx) (Unit {0}))
      → Labelled ls next st
      → After (λ w. OfState w.0) (from_sender hpack st r)
  new_settings-Labelled st (ok a w) h = h
  new_settings-Labelled st (err e w) h = h
  new_settings-Labelled st fault h = tt

  callbacks-Keep : CallbacksKeep hpack OfState (client_session hpack)
  unfolding default_on_goaway close default_new_data_chunk default_set_headers new_settings
  callbacks-Keep = record {
    new_data_chunk = λ id bytes. on_stream-Labelled id (default_new_data_chunk bytes) (λ s. refl);
    new_headers = λ id hs. on_stream-Labelled id (default_set_headers hs) (λ s. refl);
    end_of_stream = λ id. on_stream-Labelled id close (λ s. refl);
    rst_stream = λ id e. on_stream-Labelled id (default_stream.on_rst_stream e) (λ s. refl);
    new_settings =
        λ settings w h. new_settings-Labelled w.0.0 (send_settings_ack hpack (w.1, w.0.1)) h;
    on_goaway = λ id e d w h. h;
  }

  module _ {Rx : Type 0} ⦃rx : ReceiveFrame Rx⦄ where
    pub handle_next_frame-Labelled :
        Keeps
          (λ (w : Rx × World hpack DefaultStream Tx). Labelled ls next w.1.0.0)
          (handle_next_frame hpack)
    unfolding handle_next_frame
    handle_next_frame-Labelled = Keeps.handle_next_frame-Keeps hpack OfState _ callbacks-Keep

    pub expect_settings-Labelled :
        Keeps
          (λ (w : Rx × World hpack DefaultStream Tx). Labelled ls next w.1.0.0)
          (expect_settings hpack)
    unfolding expect_settings
    expect_settings-Labelled = Keeps.expect_settings-Keeps hpack OfState _ callbacks-Keep

  -- What `send_next_data` does with the chunk that it was given.
  abbrev send_one :
      Option DataChunk → M ((HttpConnection hpack × Tx) × SessionState DefaultStream) SendStatus
  send_one none = pure nothing
  send_one (some c) = on_first (send_data hpack c) >>= λ _. pure sent

  send_one-Labelled :
      (chunk : Option DataChunk) → Keeps (λ w. Labelled ls next w.1) (send_one chunk)
  send_one-Labelled none w h = h
  send_one-Labelled (some c) w h =
      followed_by-After (λ w'. Labelled ls next w'.1) _ _
        (on_first-Keeps (Labelled ls next) (send_data hpack c) w h) (λ _ w' h'. h')

  send_chunk-Labelled :
      (size : ℕ)
      → Keeps
          (λ (w : (HttpConnection hpack × Tx) × SessionState DefaultStream). Labelled ls next w.1)
          (Send.send_next_data hpack (simple_prioritizer size))
  unfolding Send.send_next_data
  send_chunk-Labelled size w h =
      followed_by-After (λ w'. Labelled ls next w'.1) _ _
        (on_second-Keeps (Labelled ls next) _ (get_next_chunk-Labelled ls next size) w h)
        send_one-Labelled

  -- The result in the order of the client.
  abbrev repacked :
      Run ((HttpConnection hpack × Tx) × SessionState DefaultStream) SendStatus
      → Run (World hpack DefaultStream Tx) SendStatus
  repacked (ok a ((conn, out), st)) = ok a ((st, out), conn)
  repacked (err e ((conn, out), st)) = err e ((st, out), conn)
  repacked fault = fault

  repacked-Labelled :
      (r : Run ((HttpConnection hpack × Tx) × SessionState DefaultStream) SendStatus)
      → After (λ w. Labelled ls next w.1) r
      → After (λ (w : World hpack DefaultStream Tx). Labelled ls next w.0.0) (repacked r)
  repacked-Labelled (ok a w) h = h
  repacked-Labelled (err e w) h = h
  repacked-Labelled fault h = tt

  pub send_next_data-Labelled :
      Keeps (λ (w : World hpack DefaultStream Tx). Labelled ls next w.0.0) (send_next_data hpack)
  unfolding send_next_data
  send_next_data-Labelled ((st, out), conn) h =
      repacked-Labelled
        (Send.send_next_data hpack (simple_prioritizer max_chunk_size) ((conn, out), st))
        (send_chunk-Labelled max_chunk_size ((conn, out), st) h)
