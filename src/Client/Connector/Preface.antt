-- ===== src/Client/Connector/Preface.antt =====
-- http/client/mod.rs: the octets with which every connector opens a connection.
use solicit.Base.{◌⊎◌, inl, inr, ◌≢◌, ℕ, ◌≡◌, refl, arith, List, [], ◌++◌, append_assoc, value}
use solicit.Http.Error.{HttpError}
use solicit.Http.Run.{Run, ok, err, fault}
use solicit.Connection.Keeps.{Run-cases}
use solicit.Http.Response.{HttpScheme}
use solicit.Frame.Raw.{has_flag}
use solicit.Frame.Settings.{SettingsFrame, enable_push}
use solicit.Frame.Settings
use solicit.Connection.HttpFrame.{settings_frame, serialize_into}
use solicit.Connection.HttpFrame.RoundTrip.{IsWellFormed, parts}
use solicit.Transport.{TransportStream}
use solicit.Transport.ReadExact.{IsStream}
use solicit.Transport.Delivery.{octets_of}
use solicit.Client.{preface, write_preface}
use solicit.Client.Connector.{connected, CleartextConnector, over_tcp}

-- The client's settings.
abbrev pub client_settings : SettingsFrame
client_settings = Settings.add_setting Settings.new (enable_push 0)

pub settings-IsWellFormed : IsWellFormed (settings_frame client_settings)
unfolding Settings.new Settings.add_setting has_flag Settings.serialize_setting Settings.get_val
settings-IsWellFormed = record {
  flags_fit = omega arith;
  fits = omega arith;
  values_fit = omega arith;
  ack_rule = tt;
}

abbrev pub opening_octets : List ℕ
opening_octets = preface ++ octets_of (settings_frame client_settings) settings-IsWellFormed

module _ {T : Type 0} ⦃ts : TransportStream T⦄ (stream : IsStream ts) where
  pub write_preface-octets :
      (t : T)
      → (t' : T) × (write_preface ts.write_all t ≡ ok tt t')
        × (stream.written t' ≡ stream.written t ++ opening_octets)
  unfolding write_preface octets_of serialize_into
  write_preface-octets t =
      let frame = settings_frame client_settings in
      let (h, payload, fits, len, written, recognized) = parts frame settings-IsWellFormed in
      let (t1, first, grown1) = stream.write_all_end preface t in
      let (t2, second, grown2) = stream.write_all_end (octets_of frame settings-IsWellFormed) t1 in
      (
        t2,
        rw (first, written [], second) refl,
        rw (grown2, grown1) (append_assoc (stream.written t) preface _),
      )

  -- What connecting over a TCP stream does: the octets are written, for the scheme "http".
  pub over_tcp-octets :
      (c : CleartextConnector) (t : T)
      → (t' : T) × (over_tcp c (connected t)
          ≡ value (connected (record { stream = t'; scheme = HttpScheme.http; host = c.host })))
        × (stream.written t' ≡ stream.written t ++ opening_octets)
  unfolding over_tcp
  over_tcp-octets c t = let (t', done, grown) = write_preface-octets t in (t', rw done refl, grown)

-- The octets that a stream took, for a stream that takes all octets of a write that succeeds; a write
-- may fail.
pub record IsSink {T : Type 0} (ts : TransportStream T) : Type 0 where
  pub accepted : T → List ℕ
  pub write_all_ok :
      (bytes : List ℕ) (t t' : T)
      → ts.write_all bytes t ≡ ok tt t'
      → accepted t' ≡ accepted t ++ bytes
  pub write_all_returns : (bytes : List ℕ) (t : T) → ts.write_all bytes t ≢ fault

module _ {T : Type 0} ⦃ts : TransportStream T⦄ (sink : IsSink ts) where
  -- All the octets that open a connection are taken, or one of the two writes fails.
  abbrev pub Prefaced : T → Run T (Unit {0}) → Type 0
  Prefaced t r =
      ((t' : T) × (r ≡ ok tt t') × (sink.accepted t' ≡ sink.accepted t ++ opening_octets))
      ⊎ ((e : HttpError) × (t1 t2 : T) × (bytes : List ℕ) × (ts.write_all bytes t1 ≡ err e t2)
          × (r ≡ err e t2))

  pub write_preface-Prefaced : (t : T) → Prefaced t (write_preface ts.write_all t)
  unfolding write_preface octets_of serialize_into
  write_preface-Prefaced t =
      let frame = settings_frame client_settings in
      let (h, payload, fits, len, written, recognized) = parts frame settings-IsWellFormed in
      let settings = octets_of frame settings-IsWellFormed in
      elim (Run-cases (ts.write_all preface t)) [
        | inr (inr e) ↦ absurd (sink.write_all_returns preface t e)
        | inr (inl (x, t1, e)) ↦ inr (x, t, t1, preface, e, rw e refl)
        | inl (a, t1, e) ↦ elim (Run-cases (ts.write_all settings t1)) [
          | inr (inr e') ↦ absurd (sink.write_all_returns settings t1 e')
          | inr (inl (x, t2, e')) ↦ inr (x, t1, t2, settings, e', rw (e, written [], e') refl)
          | inl (b, t2, e') ↦
              let first : sink.accepted t1 ≡ sink.accepted t ++ preface =
                sink.write_all_ok preface t t1 e in
              let second : sink.accepted t2 ≡ sink.accepted t1 ++ settings =
                sink.write_all_ok settings t1 t2 e' in
              inl (
                t2,
                rw (e, written [], e') refl,
                rw (second, first) (append_assoc (sink.accepted t) preface settings),
              )
        ]
      ]
