-- ===== src/Transport/Delivery.antt =====
-- http/transport.rs: the frames that one end sends are the frames that the other end receives.
use solicit.Base.{
  ℕ, zero, suc, ◌≡◌, refl, sym, ◌∙◌, List, [], ◌∷◌, ◌++◌, length, append_assoc, append-nil, value,
  All,
}
use solicit.Http.Error.{success}
use solicit.Http.Run.{ok, M, ◌>>=◌, ◌>>◌, pure}
use solicit.Frame.Header.{FrameHeader, pack_header}
use solicit.Frame.Raw.{raw_from}
use solicit.Frame.Wire.{wire, IsHeader, unpack_header-pack_header}
use solicit.Connection.HttpFrame.{HttpFrame, serialize_into, from_raw}
use solicit.Connection.HttpFrame.RoundTrip.{IsWellFormed, parts}
use solicit.Transport.{TransportStream, read_exact, send_frame, recv_frame}
use solicit.Transport.ReadExact.{IsStream, read_exact_complete}

-- The octets of one frame.
unfoldable pub octets_of : (f : HttpFrame) → IsWellFormed f → List ℕ
octets_of f w = let (h, payload, _, _, _, _) = parts f w in wire h payload

module _ {T : Type 0} ⦃ts : TransportStream T⦄ (stream : IsStream ts) where
  -- Sending puts the octets of the frame at the end of what was written.
  pub send_frame-octets :
      (f : HttpFrame) (w : IsWellFormed f) (t : T)
      → (t' : T) × (send_frame (serialize_into f) t ≡ ok tt t')
        × (stream.written t' ≡ stream.written t ++ octets_of f w)
  unfolding send_frame octets_of
  send_frame-octets f w t =
      let (h, payload, fits, len, written, recognized) = parts f w in
      let (t', done, grown) = stream.write_all_end (wire h payload) t in
      (t', rw (written [], done) refl, grown)

  recv_frame-steps :
      (f : HttpFrame) (h : FrameHeader) (payload : List ℕ) (t t1 t2 : T)
      → IsHeader h
      → read_exact 9 t ≡ ok (pack_header h) t1
      → read_exact h.0 t1 ≡ ok payload t2
      → from_raw (raw_from (wire h payload)) ≡ value (success f)
      → recv_frame t ≡ ok f t2
  unfolding recv_frame
  recv_frame-steps f h payload t t1 t2 fits head body recognized =
      rw (head, unpack_header-pack_header h fits, body, recognized) refl

  -- Receiving takes the octets of the frame off the front.
  pub recv_frame-octets :
      (f : HttpFrame) (w : IsWellFormed f) (rest : List ℕ) (t : T)
      → stream.unread t ≡ octets_of f w ++ rest
      → (t' : T) × (recv_frame t ≡ ok f t') × (stream.unread t' ≡ rest)
  unfolding octets_of
  recv_frame-octets f w rest t octets =
      let (h, payload, fits, len, written, recognized) = parts f w in
      let split : stream.unread t ≡ pack_header h ++ (payload ++ rest) =
        octets ∙ append_assoc (pack_header h) payload rest in
      let (t1, head, after) =
        read_exact_complete stream (pack_header h) (payload ++ rest) t split in
      let (t2, body, left) = read_exact_complete stream payload rest t1 after in
      let head9 : read_exact 9 t ≡ ok (pack_header h) t1 = unfold pack_header in head in
      let body_len : read_exact h.0 t1 ≡ ok payload t2 = rw len body in
      (t2, recv_frame-steps f h payload t t1 t2 fits head9 body_len recognized, left)

  -- The sends of a list of frames, and as many receives.
  abbrev pub send_all : List HttpFrame → M T (Unit {0})
  send_all [] = pure tt
  send_all (f ∷ fs) = send_frame (serialize_into f) >> send_all fs

  abbrev pub recv_all : ℕ → M T (List HttpFrame)
  recv_all zero = pure []
  recv_all (suc n) = do f ← recv_frame; fs ← recv_all n; pure (f ∷ fs)

  all_octets : (fs : List HttpFrame) → All IsWellFormed fs → List ℕ
  all_octets [] w = []
  all_octets (f ∷ fs) (w, ws) = octets_of f w ++ all_octets fs ws

  send_all-octets :
      (fs : List HttpFrame) (ws : All IsWellFormed fs) (t : T)
      → (t' : T) × (send_all fs t ≡ ok tt t')
        × (stream.written t' ≡ stream.written t ++ all_octets fs ws)
  unfolding all_octets
  send_all-octets [] ws t = (t, refl, sym (append-nil (stream.written t)))
  send_all-octets (f ∷ fs) (w, ws) t =
      let (t1, first, grown) = send_frame-octets f w t in
      let (t2, others, all) = send_all-octets fs ws t1 in
      (
        t2,
        rw first others,
        rw (all, grown) (append_assoc (stream.written t) (octets_of f w) (all_octets fs ws)),
      )

  recv_all-octets :
      (fs : List HttpFrame) (ws : All IsWellFormed fs) (rest : List ℕ) (t : T)
      → stream.unread t ≡ all_octets fs ws ++ rest
      → (t' : T) × (recv_all (length fs) t ≡ ok fs t') × (stream.unread t' ≡ rest)
  unfolding all_octets
  recv_all-octets [] ws rest t octets = (t, refl, octets)
  recv_all-octets (f ∷ fs) (w, ws) rest t octets =
      let (t1, first, after) =
        recv_frame-octets f w (all_octets fs ws ++ rest) t
          (octets ∙ append_assoc (octets_of f w) (all_octets fs ws) rest) in
      let (t2, others, left) = recv_all-octets fs ws rest t1 after in
      (t2, rw (first, others) refl, left)

  -- Sending well-formed frames one after the other succeeds.
  pub send_all_succeeds :
      (fs : List HttpFrame) (sender : T)
      → All IsWellFormed fs
      → (sender' : T) × (send_all fs sender ≡ ok tt sender')
  send_all_succeeds fs sender ws =
      let (sender', done, wrote) = send_all-octets fs ws sender in (sender', done)

  -- Over streams of octets: if well-formed frames were sent on a stream on which nothing was written
  -- before, then a peer whose unread octets are those written, with any octets behind, receives these
  -- frames, in this order and unchanged, and the octets behind are left.
  pub recv_all-send_all :
      (fs : List HttpFrame) (rest : List ℕ) (sender sender' receiver : T)
      → All IsWellFormed fs
      → stream.written sender ≡ []
      → send_all fs sender ≡ ok tt sender'
      → stream.unread receiver ≡ stream.written sender' ++ rest
      → (receiver' : T) × (recv_all (length fs) receiver ≡ ok fs receiver')
        × (stream.unread receiver' ≡ rest)
  recv_all-send_all fs rest sender sender' receiver ws fresh sent same =
      let (after, done, wrote) = send_all-octets fs ws sender in
      let one : ok tt after ≡ ok tt sender' = sym done ∙ sent in
      let end : after ≡ sender' = cc in
      let octets : stream.written sender' ≡ all_octets fs ws = rw (sym end, wrote, fresh) refl in
      recv_all-octets fs ws rest receiver (rw same (rw octets refl))
