-- ===== src/Client/Chunks.antt =====
-- http/client/mod.rs: a chunk that a client receives.
use solicit.Base.{ℕ, ◌≡◌, refl, ◌∙◌, true, List, some, ◌==◌, if◌then◌else◌, Bool-cases, inl, inr}
use solicit.Http.Run.{ok}
use solicit.Frame.Raw.{has_flag, with_flag}
use solicit.Frame.Data
use solicit.Session.Stream.{DefaultStream, default_stream, default_new_data_chunk, close}
use solicit.Session.State.{SessionState, change_stream, get_stream_ref}
use solicit.Session.State.Maps.{lookup-update}
use solicit.Priority.{EndStream, yes_end, no_end, DataChunk}
use solicit.Connection.HttpFrame.{data_frame}
use solicit.Connection.Defs.{Hpack, HttpConnection, SendFrame}
use solicit.Connection.Send.{chunk_frame}
use solicit.Connection.Handle.{handle_frame, handle_data_frame, decrease_in_window, signal_end}
use solicit.Connection.Handle.Block.{ends}
use solicit.Connection.Chunks.{window_after}
use solicit.Client.{client_session, on_stream}

-- The stream of the chunk after it.
abbrev pub received : DataChunk → DefaultStream → DefaultStream
received c x =
    if ends c.end_stream
    then close (default_new_data_chunk c.content x)
    else default_new_data_chunk c.content x

module _ (hpack : Hpack) {Tx : Type 0} ⦃tx : SendFrame Tx⦄ where
  -- Handling the frame of a chunk that the window has room for.
  abbrev pub Handled : DataChunk → SessionState DefaultStream → Tx → HttpConnection hpack → Type 0
  Handled c st out conn =
      (st' : SessionState DefaultStream) × (handle_frame hpack (client_session hpack)
          (data_frame (chunk_frame c)) ((st, out), conn)
        ≡ ok tt
            ((st', out), record conn { in_window_size = (window_after c conn.in_window_size).0 }))
      × ((j : ℕ) (x : DefaultStream)
          → get_stream_ref st j ≡ some x
          → get_stream_ref st' j ≡ some (if c.stream_id == j then received c x else x))

  by_end :
      (content : List ℕ) (id : ℕ) (e : EndStream) (st : SessionState DefaultStream) (out : Tx)
      (conn : HttpConnection hpack)
      → let c : DataChunk = record { content = content; stream_id = id; end_stream = e } in
        (window_after c conn.in_window_size).1 ≡ true → Handled c st out conn
  unfolding handle_frame handle_data_frame decrease_in_window signal_end chunk_frame Data.is_set
      Data.get_stream_id Data.set_flag Data.with_data has_flag with_flag on_stream change_stream
      get_stream_ref
  by_end content id no_end st out conn room = (
    change_stream st id (default_new_data_chunk content),
    rw (handle_data_frame, decrease_in_window, room) refl,
    λ j x found.
        lookup-update id j (default_new_data_chunk content) st.streams
        ∙ elim (Bool-cases (id == j)) [ inl e ↦ rw (e, found) refl | inr e ↦ rw (e, found) refl ],
  )
  by_end content id yes_end st out conn room =
      let st1 = change_stream st id (default_new_data_chunk content) in
      (
        change_stream st1 id close,
        rw (handle_data_frame, decrease_in_window, room) refl,
        λ j x found.
            let first = lookup-update id j (default_new_data_chunk content) st.streams in
            lookup-update id j close st1.streams ∙ elim (Bool-cases (id == j)) [
              | inl e ↦ rw (e, first, e, found) refl
              | inr e ↦ rw (e, first, e, found) refl
            ],
      )

  pub handle_frame-chunk_frame :
      (c : DataChunk) (st : SessionState DefaultStream) (out : Tx) (conn : HttpConnection hpack)
      → (window_after c conn.in_window_size).1 ≡ true
      → Handled c st out conn
  handle_frame-chunk_frame c st out conn room =
      by_end c.content c.stream_id c.end_stream st out conn room
